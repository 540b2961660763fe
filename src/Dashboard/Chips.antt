-- ===== src/Dashboard/Chips.antt =====
-- The chips of the filter drawer: each category of the list once.
use mathlib.Core.Path.{subst}
use text.Mathlib.TextEquality.{eq_iff}
use haul.Base.{
  ℕ, ◌+◌, ◌≡◌, refl, ap, ◌∙◌, arith, true, false, ◌&&◌, ◌||◌, Bool-cases, inl, inr, List, [], ◌∷◌,
  ◌++◌, length, keep, String, str_eq, truthy, ltb, ℤ, pos, leb_ℤ, if◌then◌else◌,
}
use haul.Torrents.{TorrentInfo}
use haul.Dashboard.{has_text, insert_by, sort_by}
use haul.Dashboard.Page.{add_text, add_texts, category_texts, texts_of, categories, category_count}

-- How often a text stands in a list.
abbrev pub occurrences : String → List String → ℕ
occurrences c xs = length (keep (λ x. str_eq x c) xs)

module _ (c : String) (cmp : String → String → ℤ) where
  occurrences-insert_by :
      (x : String) (xs : List String) → occurrences c (insert_by cmp x xs) ≡ occurrences c (x ∷ xs)
  unfolding insert_by
  occurrences-insert_by x [] = refl
  occurrences-insert_by x (y ∷ ys) =
      let ih = occurrences-insert_by x ys in
      elim (Bool-cases (leb_ℤ (cmp x y) (pos 0))) [
        | inl e ↦ rw e refl
        | inr e ↦ rw e (ground arith)
      ]

  occurrences-sort_by : (xs : List String) → occurrences c (sort_by cmp xs) ≡ occurrences c xs
  unfolding sort_by
  occurrences-sort_by [] = refl
  occurrences-sort_by (x ∷ xs) =
      let ih = occurrences-sort_by xs in occurrences-insert_by x (sort_by cmp xs) ∙ ground arith

occurrences-snoc :
    (c s : String) (xs : List String)
    → occurrences c (xs ++ (s ∷ [])) ≡ occurrences c xs + (if str_eq s c then 1 else 0)
occurrences-snoc c s [] = ground arith
occurrences-snoc c s (x ∷ xs) = let ih = occurrences-snoc c s xs in ground arith

has_text-snoc :
    (c s : String) (xs : List String) → has_text (xs ++ (s ∷ [])) c ≡ (has_text xs c || str_eq s c)
has_text-snoc c s [] = ground arith
has_text-snoc c s (x ∷ xs) = let ih = has_text-snoc c s xs in ground arith

-- Each text stands once in the list or not at all.
abbrev IsOnce : List String → Type 0
IsOnce xs = (c : String) → occurrences c xs ≡ (if has_text xs c then 1 else 0)

has_text-add_text :
    (c s : String) (set : List String)
    → has_text (add_text s set) c ≡ (has_text set c || str_eq s c)
unfolding add_text
has_text-add_text c s set = elim (Bool-cases (has_text set s)) [
  | inl e ↦ rw e (elim (Bool-cases (str_eq s c)) [
    | inl d ↦ let f = subst (λ x. has_text set x ≡ true) ((eq_iff s c).0 d) e in ground arith
    | inr d ↦ ground arith
  ])
  | inr e ↦ rw e (has_text-snoc c s set)
]

-- A text that is not in the list is put behind it.
once-snoc :
    (c s : String) (set : List String)
    → occurrences c set ≡ (if has_text set c then 1 else 0)
    → has_text set s ≡ false
    → occurrences c (set ++ (s ∷ [])) ≡ (if has_text (set ++ (s ∷ [])) c then 1 else 0)
once-snoc c s set h e =
    rw (occurrences-snoc c s set, has_text-snoc c s set)
      (elim (Bool-cases (str_eq s c)) [
        | inl d ↦ let f = subst (λ x. has_text set x ≡ false) ((eq_iff s c).0 d) e in ground arith
        | inr d ↦ ground arith
      ])

add_text-IsOnce : (s : String) (set : List String) → IsOnce set → IsOnce (add_text s set)
unfolding add_text
add_text-IsOnce s set h c = elim (Bool-cases (has_text set s)) [
  | inl e ↦ rw e (h c)
  | inr e ↦ rw e (once-snoc c s set (h c) e)
]

add_texts_lem :
    (c : String) (ss set : List String)
    → IsOnce set
    → occurrences c (add_texts ss set) ≡ (if has_text set c || has_text ss c then 1 else 0)
unfolding add_texts
add_texts_lem c [] set h = h c ∙ ground arith
add_texts_lem c (s ∷ ss) set h =
    let p = has_text-add_text c s set in
    let q = add_texts_lem c ss (add_text s set) (add_text-IsOnce s set h) in ground arith

-- A category is one of the texts where some torrent has it.
category_texts_lem :
    (c : String) (ts : List TorrentInfo)
    → has_text (texts_of category_texts ts) c ≡ (truthy c && ltb 0 (category_count ts c))
unfolding category_count
category_texts_lem c [] = ground arith
category_texts_lem c (t ∷ ts) =
    let ih = category_texts_lem c ts in
    elim (Bool-cases (str_eq t.category c)) [
      | inl d ↦ let f = ap truthy ((eq_iff t.category c).0 d) in ground arith
      | inr d ↦ ground arith
    ]

-- A chip stands in the drawer once for each category that is not empty and that some torrent has, so
-- the number on it is positive.
pub occurrences-categories :
    (compare : String → String → ℤ) (torrents : List TorrentInfo) (c : String)
    → occurrences c (categories compare torrents)
      ≡ (if truthy c && ltb 0 (category_count torrents c) then 1 else 0)
unfolding categories
occurrences-categories compare torrents c =
    occurrences-sort_by c compare (add_texts (texts_of category_texts torrents) [])
    ∙ add_texts_lem c (texts_of category_texts torrents) [] (λ d. refl)
    ∙ ap (λ b. if b then 1 else 0) (category_texts_lem c torrents)
