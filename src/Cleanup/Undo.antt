-- ===== src/Cleanup/Undo.antt =====
-- The undo of a soft cleanup, beside the Restore buttons of the cleanup history.
use haul.Base.{
  ℕ, ◌≤◌, ◌≡◌, refl, ap, Bool, true, false, not, Option, List, [], ◌∷◌, any, length, map,
  Bool-cases, inl, inr, arith, ◌==◌, ◌<>◌, show_nat, if◌then◌else◌, String,
}
use haul.Api.Admin.{use_restore_cleanup_history, use_cleanup_diagnostic}
use haul.Api.Admin.{Targets, soft}
use haul.Cleanup.History.{
  was_restored, undo_soft_cleanup, success, warning, plural, restored_count, undo_toast,
}

restored_count-length :
    (reply : ℕ → Option Bool) (ids : List ℕ) → restored_count reply ids ≤ length ids
restored_count-length reply [] = omega arith
restored_count-length reply (id ∷ ids) =
    let ih = restored_count-length reply ids in
    elim (Bool-cases (was_restored (reply id))) [
      | inl e ↦ rw e (omega (arith, ih))
      | inr e ↦ rw e (omega (arith, ih))
    ]

restored_count-any :
    (reply : ℕ → Option Bool) (ids : List ℕ)
    → (restored_count reply ids == length ids) ≡ not (any (λ id. not (was_restored (reply id))) ids)
restored_count-any reply [] = refl
restored_count-any reply (id ∷ ids) =
    let ih = restored_count-any reply ids in
    let h = restored_count-length reply ids in
    elim (Bool-cases (was_restored (reply id))) [
      | inl e ↦ rw e (ground (arith, ih))
      | inr e ↦ rw e (ground (arith, h))
    ]

undo_toast_if :
    (ok total : ℕ) (some_failed : Bool)
    → (ok == total) ≡ not some_failed
    → undo_toast ok total ≡ (
        if some_failed
        then warning (
            "Restored "
            <> show_nat ok
            <> " of "
            <> show_nat total
            <> " rows (others may already exist)")
        else success ("Restored " <> show_nat total <> " row" <> plural total))
undo_toast_if ok total true h = rw h refl
undo_toast_if ok total false h =
    let e : ok ≡ total = ground arith in
    rw h (ap (λ n. success ("Restored " <> show_nat n <> " row" <> plural n)) e)

-- Undo sends for each row what its Restore button sends, in order, and makes the same keys stale as
-- the cleanup did. It reports success exactly where every row was restored.
pub undo_soft_cleanup-restore :
    (reply : ℕ → Option Bool) (ids : List ℕ) (name : String) (targets : Targets)
    → let undo = undo_soft_cleanup reply ids in
      (undo.requests ≡ map (λ id. (use_restore_cleanup_history id).request) ids)
      × (undo.stale ≡ (use_cleanup_diagnostic name targets soft).stale)
      × (undo.toast ≡ (
          if any (λ id. not (was_restored (reply id))) ids
          then warning (
              "Restored "
              <> show_nat (restored_count reply ids)
              <> " of "
              <> show_nat (length ids)
              <> " rows (others may already exist)")
          else success ("Restored " <> show_nat (length ids) <> " row" <> plural (length ids))))
unfolding undo_soft_cleanup use_restore_cleanup_history use_cleanup_diagnostic
undo_soft_cleanup-restore reply ids name targets = (
  refl,
  refl,
  undo_toast_if (restored_count reply ids) (length ids)
      (any (λ id. not (was_restored (reply id))) ids) (restored_count-any reply ids),
)
