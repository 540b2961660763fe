-- ===== src/Dashboard/Drag.antt =====
-- Drag and drop: what a drop sends, and when it does nothing.
use mathlib.Core.List.{Perm}
use text.Mathlib.TextEquality.{eq_iff}
use text.Mathlib.TextPositions.{eq_refl}
use haul.Base.{
  ℕ, suc, ◌+◌, ◌-◌, ◌≤◌, ◌<◌, ◌≡◌, ◌≢◌, ◌⊎◌, refl, ap, ◌∙◌, true, false, Option, none, some, List,
  [], ◌∷◌, get_elem?, length, String, str_eq, arith, Bool-cases, inl, inr,
}
use haul.Dashboard.{has_text, index_of, ArrayMove, Drop, handle_drag_end, manual}

-- `indexOf` finds a position of the text, or the text is not there.
pub index_of_lem :
    (xs : List String) (h : String)
    → ((index_of xs h ≡ none) × (has_text xs h ≡ false))
      ⊎ ((i : ℕ) × (index_of xs h ≡ some i)
          × (i < length xs)
          × (get_elem? xs i ≡ some h)
          × (has_text xs h ≡ true))
unfolding index_of
index_of_lem [] h = inl (refl, refl)
index_of_lem (k ∷ ks) h = elim (Bool-cases (str_eq k h)) [
  | inl e ↦ inr (0, ground arith, omega arith, ap some ((eq_iff k h).0 e), ground arith)
  | inr e ↦ elim (index_of_lem ks h) [
    | inl (p, q) ↦ inl (ground arith, ground arith)
    | inr (i, p, q, r, m) ↦ inr (suc i, ground arith, omega arith, r, ground arith)
  ]
]

-- A drop of a listed torrent on another listed one is carried out: the new order has the same
-- torrents, the dropped one stands at the position of the other, that position counted from 1 is
-- the priority sent for it, and the same order is shown, with the manual sort, and sent.
pub handle_drag_end_lem :
    (kit : ArrayMove) (hashes : List String) (active_id over_id : String)
    → active_id ≢ over_id
    → has_text hashes active_id ≡ true
    → has_text hashes over_id ≡ true
    → (d : Drop) × (handle_drag_end kit hashes active_id (some over_id) ≡ some d)
      × Perm d.local_order hashes
      × (get_elem? d.local_order (d.priority - 1) ≡ some active_id)
      × (get_elem? hashes (d.priority - 1) ≡ some over_id)
      × (1 ≤ d.priority)
      × (d.priority_hash ≡ active_id)
      × (d.reorder ≡ d.local_order)
      × (d.sort_field ≡ manual)
unfolding handle_drag_end
handle_drag_end_lem kit hashes a o ne ha ho = elim (index_of_lem hashes a) [
  | inl (p, q) ↦ cc
  | inr (i, pi, qi, ri, mi) ↦ elim (index_of_lem hashes o) [
    | inl (p, q) ↦ cc
    | inr (j, pj, qj, rj, mj) ↦
        let back : j + 1 - 1 ≡ j = omega arith in
        (
          record {
            local_order = kit.move hashes i j;
            sort_field = manual;
            priority_hash = a;
            priority = j + 1;
            reorder = kit.move hashes i j;
          },
          ground (arith, eq_iff a o),
          kit.move-perm hashes i j qi qj,
          rw back (kit.get_elem?-move hashes i j qi qj ∙ ri),
          rw back rj,
          omega arith,
          refl,
          refl,
          refl,
        )
  ]
]

-- Nothing is sent when the torrent is dropped outside the list, on itself, or when either of the
-- two is not listed.
pub handle_drag_end-eq-none :
    (kit : ArrayMove) (hashes : List String) (active_id : String) (over : Option String)
    → ((over ≡ none)
        ⊎ (over ≡ some active_id)
        ⊎ (has_text hashes active_id ≡ false)
        ⊎ ((o : String) × (over ≡ some o) × (has_text hashes o ≡ false)))
    → handle_drag_end kit hashes active_id over ≡ none
unfolding handle_drag_end
handle_drag_end-eq-none kit hashes a none h = refl
handle_drag_end-eq-none kit hashes a (some o) h = elim (Bool-cases (str_eq a o)) [
  | inl e ↦ rw e
  | inr e ↦ elim (index_of_lem hashes a) [
    | inl (p, q) ↦ rw (e, p)
    | inr (i, pi, qi, ri, mi) ↦ elim (index_of_lem hashes o) [
      | inl (p, q) ↦ rw (e, pi, p)
      | inr (j, pj, qj, rj, mj) ↦ elim h [
        | inl p ↦ cc
        | inr (inl p) ↦ cc (eq_refl a)
        | inr (inr (inl p)) ↦ cc
        | inr (inr (inr (k, p, q))) ↦ cc
      ]
    ]
  ]
]
