-- ===== src/History/Laws.antt =====
-- The pages of web/ui/src/pages/activity/ActivityPage.tsx.
use mathlib.Core.Path.{subst}
use haul.Api.Activity.{ActivitySort}
use haul.Base.{
  if-true, if-false, ℕ, zero, suc, ◌+◌, ◌-◌, ◌*◌, ◌%◌, ◌≤◌, min, ◌≡◌, refl, sym, ◌∙◌, ap,
  Bool-cases, inl, inr, arith, true, false, String, ◌⊎◌,
}
use haul.History.{
  ActivityPage, page_number, total_pages, on_header_click, previous_page, next_page, reset_offset,
  Action, type_search, debounced, pick_status, click_header, previous, next, apply_action,
  on_action, same_filters,
}

-- n clicks on Next while the list has the given number of items.
abbrev pub next_clicks : ℕ → ℕ → ActivityPage → ActivityPage
next_clicks total zero p = p
next_clicks total (suc n) p = next_page total (next_clicks total n p)

next_page-offset :
    (total k : ℕ) (p : ActivityPage)
    → p.offset ≡ 50 * min k (total_pages total - 1)
    → (next_page total p).offset ≡ 50 * min (suc k) (total_pages total - 1)
unfolding next_page total_pages
next_page-offset total k p h = ground arith

next_clicks-offset :
    (total n : ℕ) (p : ActivityPage)
    → p.offset ≡ 0
    → (next_clicks total n p).offset ≡ 50 * min n (total_pages total - 1)
next_clicks-offset total zero p h = h ∙ omega arith
next_clicks-offset total (suc n) p h =
    next_page-offset total n (next_clicks total n p) (next_clicks-offset total n p h)

total_pages-positive : (total : ℕ) → 1 ≤ total_pages total
unfolding total_pages
total_pages-positive total = omega arith

-- From the first page, n clicks on Next lead n pages on, but not beyond the last of the pages that
-- are counted.
pub next_clicks_lem :
    (total n : ℕ) (p : ActivityPage)
    → p.offset ≡ 0
    → page_number (next_clicks total n p) ≡ min (n + 1) (total_pages total)
unfolding page_number
next_clicks_lem total n p h =
    let e = next_clicks-offset total n p h in omega (arith, e, total_pages-positive total)

reset_offset-same : (p p' : ActivityPage) → same_filters p p' ≡ true → reset_offset p p' ≡ p'
unfolding reset_offset
reset_offset-same p p' e = if-true _ _ _ e

reset_offset-other :
    (p p' : ActivityPage) → same_filters p p' ≡ false → reset_offset p p' ≡ record p' { offset = 0 }
unfolding reset_offset
reset_offset-other p p' e = if-false _ _ _ e

-- What the effect keeps.
Fresh : ActivityPage → ActivityPage → Type 0
Fresh p p' = (p'.offset % 50 ≡ 0) × (p'.offset ≡ 0 ⊎ same_filters p p' ≡ true)

reset_offset-Fresh : (p p' : ActivityPage) → p'.offset % 50 ≡ 0 → Fresh p (reset_offset p p')
unfolding Fresh
reset_offset-Fresh p p' h = elim (Bool-cases (same_filters p p')) [
  | inl e ↦ subst (Fresh p) (sym (reset_offset-same p p' e)) (h, inr e)
  | inr e ↦ subst (Fresh p) (sym (reset_offset-other p p' e)) (omega arith, inl refl)
]

on_header_click-offset :
    (col : ActivitySort) (p : ActivityPage) → (on_header_click col p).offset ≡ p.offset
unfolding on_header_click
on_header_click-offset col p = ground arith

previous_page-whole : (p : ActivityPage) → p.offset % 50 ≡ 0 → (previous_page p).offset % 50 ≡ 0
unfolding previous_page
previous_page-whole p h = ground arith

next_page-whole :
    (total : ℕ) (p : ActivityPage) → p.offset % 50 ≡ 0 → (next_page total p).offset % 50 ≡ 0
unfolding next_page
next_page-whole total p h = ground arith

module _ (trim : String → String) where
  -- An action keeps the start of the list a multiple of the page size, and an action that changes
  -- the search, the status, the column or the order leads back to the first page.
  pub on_action-offset :
      (a : Action) (p : ActivityPage)
      → p.offset % 50 ≡ 0
      → ((on_action trim a p).offset % 50 ≡ 0)
        × ((on_action trim a p).offset ≡ 0 ⊎ same_filters p (on_action trim a p) ≡ true)
  unfolding on_action apply_action Fresh
  on_action-offset (type_search text) p h = reset_offset-Fresh p _ h
  on_action-offset debounced p h = reset_offset-Fresh p _ h
  on_action-offset (pick_status status) p h = reset_offset-Fresh p _ h
  on_action-offset (click_header col) p h =
      reset_offset-Fresh p _ (ap (λ n. n % 50) (on_header_click-offset col p) ∙ h)
  on_action-offset previous p h = reset_offset-Fresh p _ (previous_page-whole p h)
  on_action-offset (next total) p h = reset_offset-Fresh p _ (next_page-whole total p h)
