-- ===== src/Dashboard/Sorting.antt =====
-- Sorting by a comparison function: a permutation, in descending order of a numeric key.
use mathlib.Core.List.{Perm}
use mathlib.Core.List.Perm
use haul.Base.{
  ℕ, ◌+◌, ◌≤◌, ◌≡◌, refl, true, false, List, [], ◌∷◌, ℤ, pos, leb_ℤ, sub_ℕ, All, arith, Bool-cases,
  inl, inr,
}
use haul.Torrents.{TorrentInfo}
use haul.Dashboard.{
  SortField, size, progress, speed, manual, insert_by, sort_by, Platform, compare_torrents,
  sort_torrents,
}

module _ {ℓ} {A : Type ℓ} (cmp : A → A → ℤ) where
  insert_by-perm : (x : A) (xs : List A) → Perm (insert_by cmp x xs) (x ∷ xs)
  unfolding insert_by
  insert_by-perm x [] = Perm.refl (x ∷ [])
  insert_by-perm x (y ∷ ys) = elim (Bool-cases (leb_ℤ (cmp x y) (pos 0))) [
    | inl e ↦ rw e (Perm.refl (x ∷ y ∷ ys))
    | inr e ↦ rw e (Perm.trans (Perm.cons y (insert_by-perm x ys)) (Perm.swap x y ys))
  ]

  pub sort_by-perm : (xs : List A) → Perm (sort_by cmp xs) xs
  unfolding sort_by
  sort_by-perm [] = Perm.refl []
  sort_by-perm (x ∷ xs) =
      Perm.trans (insert_by-perm x (sort_by cmp xs)) (Perm.cons x (sort_by-perm xs))

-- Every item stands in the relation to every later one.
abbrev pub Ordered {ℓ κ} : {A : Type ℓ} → (A → A → Type κ) → List A → Type κ
Ordered R [] = Unit
Ordered R (x ∷ xs) = All (λ y. R x y) xs × Ordered R xs

-- No item has a smaller key than a later one.
abbrev pub Descends {ℓ} : {A : Type ℓ} → (A → ℕ) → List A → Type 0
Descends key xs = Ordered (λ x y. key y ≤ key x) xs

abbrev pub Ascends {ℓ} : {A : Type ℓ} → (A → ℕ) → List A → Type 0
Ascends key xs = Ordered (λ x y. key x ≤ key y) xs

All-insert_by {ℓ κ} :
    {A : Type ℓ} (P : A → Type κ) (cmp : A → A → ℤ) (x : A) (xs : List A)
    → P x
    → All P xs
    → All P (insert_by cmp x xs)
unfolding insert_by
All-insert_by P cmp x [] p h = (p, tt)
All-insert_by P cmp x (y ∷ ys) p h = elim (Bool-cases (leb_ℤ (cmp x y) (pos 0))) [
  | inl e ↦ rw e (p, h)
  | inr e ↦ rw e (h.0, All-insert_by P cmp x ys p h.1)
]

All-mono {ℓ κ} :
    {A : Type ℓ} (P Q : A → Type κ) (xs : List A) → ((x : A) → P x → Q x) → All P xs → All Q xs
All-mono P Q [] f a = tt
All-mono P Q (x ∷ xs) f a = (f x a.0, All-mono P Q xs f a.1)

-- A comparison that decides a transitive relation sorts a list by it.
module _ {ℓ κ} {A : Type ℓ} (cmp : A → A → ℤ) (R : A → A → Type κ)
    (R_trans : (x y z : A) → R x y → R y z → R x z)
    (on_true : (x y : A) → leb_ℤ (cmp x y) (pos 0) ≡ true → R x y)
    (on_false : (x y : A) → leb_ℤ (cmp x y) (pos 0) ≡ false → R y x) where
  insert_by-Ordered : (x : A) (xs : List A) → Ordered R xs → Ordered R (insert_by cmp x xs)
  unfolding insert_by
  insert_by-Ordered x [] d = (tt, tt)
  insert_by-Ordered x (y ∷ ys) d = elim (Bool-cases (leb_ℤ (cmp x y) (pos 0))) [
    | inl e ↦
        let p = on_true x y e in
        rw e ((p, All-mono (λ z. R y z) (λ z. R x z) ys (λ z. R_trans x y z p) d.0), d)
    | inr e ↦
        rw e (All-insert_by (λ z. R y z) cmp x ys (on_false x y e) d.0, insert_by-Ordered x ys d.1)
  ]

  pub sort_by-Ordered : (xs : List A) → Ordered R (sort_by cmp xs)
  unfolding sort_by
  sort_by-Ordered [] = tt
  sort_by-Ordered (x ∷ xs) = insert_by-Ordered x (sort_by cmp xs) (sort_by-Ordered xs)

module _ {ℓ} {A : Type ℓ} (key : A → ℕ) where
  pub sort_by-Descends : (xs : List A) → Descends key (sort_by (λ a b. sub_ℕ (key b) (key a)) xs)
  sort_by-Descends =
      sort_by-Ordered (λ a b. sub_ℕ (key b) (key a)) (λ x y. key y ≤ key x)
        (λ x y z p q. omega arith) (λ x y e. ground arith) (λ x y e. ground arith)

  pub sort_by-Ascends : (xs : List A) → Ascends key (sort_by (λ a b. sub_ℕ (key a) (key b)) xs)
  sort_by-Ascends =
      sort_by-Ordered (λ a b. sub_ℕ (key a) (key b)) (λ x y. key x ≤ key y)
        (λ x y z p q. omega arith) (λ x y e. ground arith) (λ x y e. ground arith)

-- Every sort lists the same torrents.
pub sort_torrents-perm :
    (js : Platform) (torrents : List TorrentInfo) (field : SortField)
    → Perm (sort_torrents js torrents field) torrents
unfolding sort_torrents
sort_torrents-perm js torrents manual = Perm.refl torrents
sort_torrents-perm js torrents field = sort_by-perm (compare_torrents js field) torrents

-- Every sort lists the same torrents, each as often; the sorts by size, progress and speed list them
-- from the largest to the smallest; the manual sort keeps the server's order.
pub sort_torrents_lem :
    (js : Platform) (torrents : List TorrentInfo) (field : SortField)
    → Perm (sort_torrents js torrents field) torrents
      × Descends (λ (t : TorrentInfo). t.size) (sort_torrents js torrents size)
      × Descends (λ (t : TorrentInfo). t.progress) (sort_torrents js torrents progress)
      × Descends
          (λ (t : TorrentInfo). t.download_rate + t.upload_rate)
          (sort_torrents js torrents speed)
      × (sort_torrents js torrents manual ≡ torrents)
unfolding sort_torrents compare_torrents
sort_torrents_lem js torrents field = (
  sort_torrents-perm js torrents field,
  sort_by-Descends (λ t. t.size) torrents,
  sort_by-Descends (λ t. t.progress) torrents,
  sort_by-Descends (λ t. t.download_rate + t.upload_rate) torrents,
  refl,
)
