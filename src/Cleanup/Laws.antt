-- ===== src/Cleanup/Laws.antt =====
-- The mode of a cleanup from web/ui/src/pages/system/Diagnostics.tsx.
use haul.Base.{◌≡◌, refl, ap, arith, false, [], ◌∷◌, String, if◌then◌else◌}
use haul.Api.Admin.{ids, soft, hard, use_cleanup_diagnostic}
use haul.Cleanup.{
  Card, CardEvent, expand, row_clicked, all_clicked, row_cleanup, selection_cleared,
  cleanup_clicked, hard_changed, cancelled, cleaned, on_card, CardRuns, begin, event, Offered,
  on_confirm, cleanup_targets,
}

-- The box is ticked only while the confirmation is open.
Careful : Card → Type 0
Careful c = c.confirm_open ≡ false → c.hard_delete ≡ false

on_card-Careful : (e : CardEvent) (c : Card) → Offered e c → Careful c → Careful (on_card e c)
unfolding Careful on_card Offered
on_card-Careful expand c o h = h
on_card-Careful (row_clicked id) c o h = h
on_card-Careful (all_clicked rows) c o h = h
on_card-Careful (row_cleanup id) c o h = λ e. ground arith
on_card-Careful selection_cleared c o h = h
on_card-Careful cleanup_clicked c o h = λ e. ground arith
on_card-Careful (hard_changed v) c o h = λ e. ground arith
on_card-Careful cancelled c o h = λ e. refl
on_card-Careful cleaned c o h = λ e. refl

CardRuns-Careful : (c : Card) → CardRuns c → Careful c
unfolding Careful
CardRuns-Careful c begin = λ e. refl
CardRuns-Careful c (event c' e r o) = on_card-Careful e c' o (CardRuns-Careful c' r)

-- A confirmation that is opened anew always starts with the soft deletion, whatever was ticked and
-- cancelled before: on the selection as it is, or on the one row whose button was clicked.
pub on_confirm-soft :
    (c : Card) (name id : String)
    → CardRuns c
    → c.confirm_open ≡ false
    → (on_confirm name (on_card cleanup_clicked c)
        ≡ use_cleanup_diagnostic name (cleanup_targets c) soft)
      × (on_confirm name (on_card (row_cleanup id) c)
          ≡ use_cleanup_diagnostic name (ids (id ∷ [])) soft)
unfolding on_confirm on_card Careful cleanup_targets
on_confirm-soft c name id r o =
    let h = CardRuns-Careful c r o in
    (
      ap (λ b. use_cleanup_diagnostic name (cleanup_targets c) (if b then hard else soft)) h,
      ap (λ b. use_cleanup_diagnostic name (ids (id ∷ [])) (if b then hard else soft)) h,
    )
