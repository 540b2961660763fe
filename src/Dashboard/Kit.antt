-- ===== src/Dashboard/Kit.antt =====
-- A list operation that meets what `handleDragEnd` expects of `arrayMove`.
use mathlib.Core.List.{Perm}
use mathlib.Core.List.Perm
use haul.Base.{
  ℕ, zero, suc, ◌+◌, ◌≤◌, ◌<◌, ◌≡◌, refl, none, some, List, [], ◌∷◌, get_elem?, length, String,
  arith,
}
use haul.Dashboard.{ArrayMove}

remove_at : ℕ → List String → List String
remove_at i [] = []
remove_at zero (x ∷ xs) = xs
remove_at (suc i) (x ∷ xs) = x ∷ remove_at i xs

insert_at : ℕ → String → List String → List String
insert_at zero a xs = a ∷ xs
insert_at (suc j) a [] = a ∷ []
insert_at (suc j) a (x ∷ xs) = x ∷ insert_at j a xs

unfoldable pub splice : List String → ℕ → ℕ → List String
unfolding remove_at insert_at
splice xs i j = elim (get_elem? xs i) [ none ↦ xs | some a ↦ insert_at j a (remove_at i xs) ]

insert_at-perm : (j : ℕ) (a : String) (xs : List String) → Perm (insert_at j a xs) (a ∷ xs)
unfolding insert_at
insert_at-perm zero a xs = Perm.refl (a ∷ xs)
insert_at-perm (suc j) a [] = Perm.refl (a ∷ [])
insert_at-perm (suc j) a (x ∷ xs) =
    Perm.trans (Perm.cons x (insert_at-perm j a xs)) (Perm.swap a x xs)

-- An item of the list, and what is left without it.
pick :
    (xs : List String) (i : ℕ)
    → i < length xs
    → (a : String) × (get_elem? xs i ≡ some a)
      × Perm (a ∷ remove_at i xs) xs
      × (length (remove_at i xs) + 1 ≡ length xs)
unfolding remove_at
pick [] i h = elim h [ ]
pick (x ∷ xs) zero h = (x, refl, Perm.refl (x ∷ xs), omega arith)
pick (x ∷ xs) (suc i) h =
    let (a, e, p, n) = pick xs i (omega arith) in
    (a, e, Perm.trans (Perm.swap x a (remove_at i xs)) (Perm.cons x p), omega arith)

get_elem?-insert_at :
    (j : ℕ) (a : String) (xs : List String)
    → j ≤ length xs
    → get_elem? (insert_at j a xs) j ≡ some a
unfolding insert_at
get_elem?-insert_at zero a xs h = refl
get_elem?-insert_at (suc j) a [] h = elim h [ ]
get_elem?-insert_at (suc j) a (x ∷ xs) h = get_elem?-insert_at j a xs (omega arith)

pub splice-perm :
    (xs : List String) (i j : ℕ) → i < length xs → j < length xs → Perm (splice xs i j) xs
unfolding splice
splice-perm xs i j h k =
    let (a, e, p, n) = pick xs i h in
    rw (e, splice) (Perm.trans (insert_at-perm j a (remove_at i xs)) p)

pub get_elem?-splice :
    (xs : List String) (i j : ℕ)
    → i < length xs
    → j < length xs
    → get_elem? (splice xs i j) j ≡ get_elem? xs i
unfolding splice
get_elem?-splice xs i j h k =
    let (a, e, p, n) = pick xs i h in
    rw (e, splice) (get_elem?-insert_at j a (remove_at i xs) (omega arith))

abbrev pub kit : ArrayMove
kit = record { move = splice; move-perm = splice-perm; get_elem?-move = get_elem?-splice }
