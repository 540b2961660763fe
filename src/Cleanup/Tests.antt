-- ===== src/Cleanup/Tests.antt =====
-- Cleanups, their undo and the cleanup history at concrete rows.
use haul.Base.{
  false, distinct, any, ℕ, ◌≡◌, refl, Bool, true, Option, none, some, [], ◌∷◌, ◌==◌, map, String,
  str_eq, show_nat, ℤ, pos, negsuc, first_chars, if◌then◌else◌,
}
use haul.Api.Admin.{ids, every, soft, hard, use_cleanup_diagnostic, use_restore_cleanup_history}
use haul.Cleanup.History.{undo_soft_cleanup, warning, purge_days, pk_preview}
use haul.Cleanup.Undo.{undo_soft_cleanup-restore}
use haul.Cleanup.Selection.{CardRuns-selected}
use haul.Cleanup.Page.{
  page, fetched, all_clean, confirm_modal, confirm_button, DiagnosticSummary, DiagnosticRow,
}
use haul.Cleanup.{
  Card, fresh_card, row_cleanup, cleanup_clicked, hard_changed, cancelled, on_card, CardRuns, begin,
  event, on_confirm, cleanup_targets, Offered, toggle_row, row_clicked, expand, cleanup_count,
}
use haul.Cleanup.Laws.{on_confirm-soft}

abbrev ticked : Card
ticked = record fresh_card { confirm_open = true; hard_delete = true }

-- The selection that is sent with a permanent deletion.
on_confirm-ticked :
    on_confirm "stale" (record ticked { selected = toggle_row "b" ("a" ∷ "b" ∷ []) })
    ≡ use_cleanup_diagnostic "stale" (ids ("a" ∷ [])) hard
unfolding on_confirm toggle_row cleanup_targets
on_confirm-ticked = refl

fresh_card-runs : CardRuns fresh_card
unfolding on_card Offered
fresh_card-runs =
    event ticked cancelled
      (event (record fresh_card { confirm_open = true }) (hard_changed true)
        (event fresh_card cleanup_clicked begin tt) refl)
      tt

on_confirm-soft_example :
    (on_confirm "stale" (on_card cleanup_clicked fresh_card)
      ≡ use_cleanup_diagnostic "stale" (cleanup_targets fresh_card) soft)
    × (on_confirm "stale" (on_card (row_cleanup "a") fresh_card)
        ≡ use_cleanup_diagnostic "stale" (ids ("a" ∷ [])) soft)
on_confirm-soft_example = on_confirm-soft fresh_card "stale" "a" fresh_card-runs refl

-- One of two rows is restored, and the server does not answer for the other.
abbrev one_reply : ℕ → Option Bool
one_reply id = if id == 7 then some true else none

undo_soft_cleanup-restore_example :
    let undo = undo_soft_cleanup one_reply (7 ∷ 8 ∷ []) in
    (undo.requests
      ≡ (use_restore_cleanup_history 7).request ∷ (use_restore_cleanup_history 8).request ∷ [])
    × (undo.stale ≡ (use_cleanup_diagnostic "stale" every soft).stale)
    × (undo.toast ≡ warning "Restored 1 of 2 rows (others may already exist)")
unfolding show_nat
undo_soft_cleanup-restore_example = undo_soft_cleanup-restore one_reply (7 ∷ 8 ∷ []) "stale" every

-- The field for the days of a purge: an empty one counts as 1, and a text that is no number is kept.
abbrev read_days : String → Option ℤ
read_days s = if str_eq s "1" then some (pos 1) else if str_eq s "-4" then some (negsuc 3) else none

purge_days-run : map (purge_days read_days) ("" ∷ "-4" ∷ ".5" ∷ []) ≡ some 1 ∷ some 1 ∷ none ∷ []
unfolding purge_days
purge_days-run = refl

pk_preview-run : pk_preview "0123456789abcdef0" ≡ "0123456789ab…"
unfolding pk_preview first_chars
pk_preview-run = refl

abbrev two_selected : Card
two_selected = record fresh_card { expanded = true; selected = "a" ∷ "b" ∷ [] }

two_selected-runs : CardRuns two_selected
unfolding on_card Offered toggle_row
two_selected-runs =
    event (record two_selected { selected = "a" ∷ [] }) (row_clicked "b")
      (event (record two_selected { selected = [] }) (row_clicked "a")
        (event fresh_card expand begin tt) tt)
      tt

CardRuns-selected_example :
    (distinct two_selected.selected ≡ true)
    × (any (str_eq "b") (on_card (row_clicked "a") two_selected).selected ≡ true)
    × (cleanup_count ("a" ∷ "b" ∷ "c" ∷ []) two_selected ≡ 2)
unfolding cleanup_targets
CardRuns-selected_example =
    CardRuns-selected two_selected ("a" ∷ "b" ∷ "c" ∷ []) "b" "a" two_selected-runs

abbrev stale_rows : DiagnosticSummary
stale_rows = record { name = "stale"; description = "Stale rows"; row_count = 0 }

page-run : page (fetched (some (stale_rows ∷ []))) ≡ all_clean
unfolding page
page-run = refl

abbrev row_a : DiagnosticRow
row_a = record { id = "a"; summary = "A"; why_flagged = "old"; suggested_action = "Delete it" }

modal-run :
    confirm_modal stale_rows false (some (row_a ∷ [])) (record two_selected { confirm_open = true })
    ≡ some record {
      title = "Clean up 2 rows?";
      message = "Stale rows — Delete it.";
      ticked = false;
      disabled = false;
      button = "Move to cleanup history";
    }
unfolding confirm_modal confirm_button cleanup_count show_nat
modal-run = refl
