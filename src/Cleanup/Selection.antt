-- ===== src/Cleanup/Selection.antt =====
-- The selection of rows in a card of web/ui/src/pages/system/Diagnostics.tsx.
use text.Mathlib.TextEquality.{eq_iff}
use haul.Base.{
  ◌≡◌, refl, ap, Bool, true, false, not, ◌&&◌, ◌||◌, arith, Bool-cases, inl, inr, List, [], ◌∷◌,
  ◌++◌, length, any, keep, any-keep-false, distinct, String, str_eq, if◌then◌else◌,
}
use haul.Api.Admin.{ids, every}
use haul.Cleanup.{
  Card, CardEvent, expand, row_clicked, all_clicked, row_cleanup, selection_cleared,
  cleanup_clicked, hard_changed, cancelled, cleaned, on_card, CardRuns, begin, event, Offered,
  toggle_row, toggle_all, cleanup_targets, cleanup_count,
}

str_eq_sym : (s t : String) → str_eq s t ≡ str_eq t s
str_eq_sym s t = ground (arith, eq_iff s t, eq_iff t s)

any-append_one :
    (x y : String) (l : List String)
    → any (str_eq x) (l ++ (y ∷ [])) ≡ (any (str_eq x) l || str_eq x y)
any-append_one x y [] = ground arith
any-append_one x y (z ∷ l) = ground (arith, any-append_one x y l)

any-without :
    (x y : String) (l : List String)
    → any (str_eq x) (keep (λ z. not (str_eq y z)) l) ≡ (any (str_eq x) l && not (str_eq x y))
any-without x y [] = refl
any-without x y (z ∷ l) = ground (arith, any-without x y l, eq_iff x y, eq_iff y z, eq_iff x z)

distinct-append_one :
    (y : String) (l : List String)
    → distinct l ≡ true
    → any (str_eq y) l ≡ false
    → distinct (l ++ (y ∷ [])) ≡ true
distinct-append_one y [] d h = refl
distinct-append_one y (z ∷ l) d h =
    ground (arith, any-append_one z y l, distinct-append_one y l, eq_iff y z, eq_iff z y)

distinct-keep :
    (p : String → Bool) (l : List String) → distinct l ≡ true → distinct (keep p l) ≡ true
distinct-keep p [] d = refl
distinct-keep p (z ∷ l) d = ground (arith, distinct-keep p l, any-keep-false (str_eq z) p l)

distinct-toggle_row :
    (id : String) (l : List String) → distinct l ≡ true → distinct (toggle_row id l) ≡ true
unfolding toggle_row
distinct-toggle_row id l d = elim (Bool-cases (any (str_eq id) l)) [
  | inl e ↦ rw e (distinct-keep _ l d)
  | inr e ↦ rw e (distinct-append_one id l d e)
]

any-toggle_row :
    (x id : String) (l : List String)
    → any (str_eq x) (toggle_row id l)
      ≡ (if str_eq x id then not (any (str_eq x) l) else any (str_eq x) l)
unfolding toggle_row
any-toggle_row x id l =
    let without = any-without x id l in
    let appended = any-append_one x id l in
    elim (Bool-cases (str_eq x id)) [
      | inl same ↦
          let e = ap (λ y. any (str_eq y) l) ((eq_iff x id).0 same) in
          elim (Bool-cases (any (str_eq id) l)) [
            | inl h ↦ rw h (ground (arith, without, e))
            | inr h ↦ rw h (ground (arith, appended, e))
          ]
      | inr other ↦ elim (Bool-cases (any (str_eq id) l)) [
        | inl h ↦ rw h (ground (arith, without))
        | inr h ↦ rw h (ground (arith, appended))
      ]
    ]

toggle_all-distinct :
    (rows l : List String) → distinct rows ≡ true → distinct (toggle_all rows l) ≡ true
unfolding toggle_all
toggle_all-distinct rows l d = ground (arith, d)

on_card-distinct :
    (e : CardEvent) (c : Card)
    → Offered e c
    → distinct c.selected ≡ true
    → distinct (on_card e c).selected ≡ true
unfolding on_card Offered
on_card-distinct expand c o h = h
on_card-distinct (row_clicked id) c o h = distinct-toggle_row id c.selected h
on_card-distinct (all_clicked rows) c o h = toggle_all-distinct rows c.selected o
on_card-distinct (row_cleanup id) c o h = refl
on_card-distinct selection_cleared c o h = refl
on_card-distinct cleanup_clicked c o h = h
on_card-distinct (hard_changed v) c o h = h
on_card-distinct cancelled c o h = h
on_card-distinct cleaned c o h = refl

CardRuns-distinct : (c : Card) → CardRuns c → distinct c.selected ≡ true
CardRuns-distinct c begin = refl
CardRuns-distinct c (event c' e r o) = on_card-distinct e c' o (CardRuns-distinct c' r)

-- Whatever was clicked before, the selection has no row twice; a click on a row changes whether that
-- row is selected and no other; and the number that the dialog shows is that of the rows which the
-- request names, or of all the rows that are listed where the request is for all.
pub CardRuns-selected :
    (c : Card) (rows : List String) (x id : String)
    → CardRuns c
    → (distinct c.selected ≡ true)
      × (any (str_eq x) (on_card (row_clicked id) c).selected
          ≡ (if str_eq x id then not (any (str_eq x) c.selected) else any (str_eq x) c.selected))
      × (cleanup_count rows c
          ≡ elim (cleanup_targets c) [ ids named ↦ length named | every ↦ length rows ])
unfolding on_card cleanup_count cleanup_targets
CardRuns-selected c rows x id r =
    (CardRuns-distinct c r, any-toggle_row x id c.selected, ground arith)
