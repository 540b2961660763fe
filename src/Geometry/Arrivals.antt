-- ===== src/Geometry/Arrivals.antt =====
-- diffNewCompletions: the pieces that finished between two snapshots.
use haul.Base.{
  ℕ, zero, suc, ◌+◌, ◌-◌, ◌≤◌, ◌<◌, ◌≡◌, refl, ap, Bool, true, false, ◌&&◌, ◌||◌, not, some, List,
  [], ◌∷◌, ◌++◌, ltb, leb, ◌==◌, if◌then◌else◌, replicate, has, has-append, arith, Bool-cases, inl,
  inr,
}
use native.Mathlib.Nat.{sub-zero}
use native.Mathlib.Decide.{ℕ_discrete}
use haul.Geometry.{
  PieceRunState, PieceStateRun, is_complete, add_indices, complete_from, runs_to_complete_set,
  new_indices, new_from, diff_new_completions,
}
use haul.Geometry.Columns.{expand}

-- Whether the piece with an index is complete, in the list of all pieces.
unfoldable pub done_at : List PieceRunState → ℕ → Bool
done_at [] j = false
done_at (st ∷ ps) zero = is_complete st
done_at (st ∷ ps) (suc j) = done_at ps j

done_at-append :
    (k : ℕ) (st : PieceRunState) (ps : List PieceRunState) (j : ℕ)
    → done_at (replicate k st ++ ps) j ≡ (if ltb j k then is_complete st else done_at ps (j - k))
unfolding done_at
done_at-append zero st ps j = rw (sub-zero j) (ground arith)
done_at-append (suc k) st ps zero = ground arith
done_at-append (suc k) st ps (suc j) = ground (arith, done_at-append k st ps j)

has-add_indices :
    (n idx k j : ℕ) → has (add_indices n idx k) j ≡ (leb idx j && ltb j (idx + k) && ltb j n)
unfolding add_indices
has-add_indices n idx zero j = ground arith
has-add_indices n idx (suc k) j = ground (arith, has-add_indices n (idx + 1) k j)

-- Both loops append the indices of a complete run to those of the later runs.
has-if :
    (c : Bool) (xs rest : List ℕ) (j : ℕ)
    → has (if c then xs ++ rest else rest) j ≡ ((c && has xs j) || has rest j)
has-if true xs rest j = has-append xs rest j
has-if false xs rest j = refl

-- A run from `idx` on and the runs behind it, under a condition `m` on the piece.
window :
    (c d m : Bool) (idx len j : ℕ)
    → ((c && (leb idx j && ltb j (idx + len) && m)) || (leb (idx + len) j && d && m))
      ≡ (leb idx j && (if ltb (j - idx) len then c else d) && m)
window c d m idx len j = ground arith

window-runs :
    (m : Bool) (idx : ℕ) (run : PieceStateRun) (runs : List PieceStateRun) (xs rest : List ℕ)
    (j : ℕ)
    → has xs j ≡ (leb idx j && ltb j (idx + run.length) && m)
    → has rest j ≡ (leb (idx + run.length) j && done_at (expand runs) (j - (idx + run.length)) && m)
    → has (if is_complete run.state then xs ++ rest else rest) j
      ≡ (leb idx j && done_at (expand (run ∷ runs)) (j - idx) && m)
unfolding expand
window-runs m idx run runs xs rest j p q =
    let later : j - idx - run.length ≡ j - (idx + run.length) = omega arith in
    rw (has-if, p, q, done_at-append, later)
      (window (is_complete run.state) (done_at (expand runs) (j - (idx + run.length))) m idx
        run.length j)

has-complete_from :
    (n idx : ℕ) (runs : List PieceStateRun) (j : ℕ)
    → has (complete_from n idx runs) j ≡ (leb idx j && done_at (expand runs) (j - idx) && ltb j n)
unfolding complete_from done_at
has-complete_from n idx [] j = unfold expand in ground arith
has-complete_from n idx (run ∷ runs) j =
    window-runs (ltb j n) idx run runs _ _ j (has-add_indices n idx run.length j)
      (has-complete_from n (idx + run.length) runs j)

has-new_indices :
    (prev : List ℕ) (idx k j : ℕ)
    → has (new_indices prev idx k) j ≡ (leb idx j && ltb j (idx + k) && not (has prev j))
unfolding new_indices
has-new_indices prev idx zero j = ground arith
has-new_indices prev idx (suc k) j = elim (ℕ_discrete idx j) [
  | yes e ↦ rw e (ground (arith, has-new_indices prev (j + 1) k j))
  | no ne ↦ ground (arith, has-new_indices prev (idx + 1) k j)
]

has-new_from :
    (prev : List ℕ) (idx : ℕ) (runs : List PieceStateRun) (j : ℕ)
    → has (new_from prev idx runs) j
      ≡ (leb idx j && done_at (expand runs) (j - idx) && not (has prev j))
unfolding new_from done_at
has-new_from prev idx [] j = unfold expand in ground arith
has-new_from prev idx (run ∷ runs) j =
    window-runs (not (has prev j)) idx run runs _ _ j (has-new_indices prev idx run.length j)
      (has-new_from prev (idx + run.length) runs j)

-- Where there is at least one piece: against an earlier snapshot, a piece is reported exactly when it
-- is complete now and was not complete before among the first `num_pieces` pieces.
pub has-diff_new_completions :
    (prev curr : List PieceStateRun) (num_pieces j : ℕ)
    → 0 < num_pieces
    → has (diff_new_completions (some prev) curr num_pieces) j
      ≡ (done_at (expand curr) j && not (done_at (expand prev) j && ltb j num_pieces))
unfolding diff_new_completions runs_to_complete_set
has-diff_new_completions prev curr num_pieces j h = ground (
  arith,
  has-new_from (complete_from num_pieces 0 prev) 0 curr j,
  has-complete_from num_pieces 0 prev j,
  ap (done_at (expand curr)) (sub-zero j),
  ap (done_at (expand prev)) (sub-zero j),
)

-- Strictly rising, from `lo` on.
abbrev pub Rises : ℕ → List ℕ → Type 0
Rises lo [] = Unit
Rises lo (x ∷ xs) = (lo ≤ x) × Rises (x + 1) xs

Rises-weaken : (lo hi : ℕ) (xs : List ℕ) → lo ≤ hi → Rises hi xs → Rises lo xs
Rises-weaken lo hi [] h r = tt
Rises-weaken lo hi (x ∷ xs) h r = (omega arith, r.1)

Rises-new_indices :
    (prev : List ℕ) (idx k : ℕ) (rest : List ℕ)
    → Rises (idx + k) rest
    → Rises idx (new_indices prev idx k ++ rest)
unfolding new_indices
Rises-new_indices prev idx zero rest r = Rises-weaken idx (idx + 0) rest (omega arith) r
Rises-new_indices prev idx (suc k) rest r =
    let later =
      Rises-new_indices prev (idx + 1) k rest
        (Rises-weaken (idx + 1 + k) (idx + suc k) rest (omega arith) r) in
    elim (Bool-cases (has prev idx)) [
      | inl e ↦ rw e (Rises-weaken idx (idx + 1) _ (omega arith) later)
      | inr e ↦ rw e (omega arith, later)
    ]

Rises-new_from :
    (prev : List ℕ) (idx : ℕ) (runs : List PieceStateRun) → Rises idx (new_from prev idx runs)
unfolding new_from
Rises-new_from prev idx [] = tt
Rises-new_from prev idx (run ∷ runs) =
    let later = Rises-new_from prev (idx + run.length) runs in
    elim (Bool-cases (is_complete run.state)) [
      | inl e ↦ rw e (Rises-new_indices prev idx run.length _ later)
      | inr e ↦ rw e (Rises-weaken idx (idx + run.length) _ (omega arith) later)
    ]

-- The reported pieces come in strictly rising order, so none is reported twice.
pub diff_new_completions-Rises :
    (prev curr : List PieceStateRun) (num_pieces : ℕ)
    → Rises 0 (diff_new_completions (some prev) curr num_pieces)
unfolding diff_new_completions
diff_new_completions-Rises prev curr num_pieces = elim (Bool-cases (num_pieces == 0)) [
  | inl e ↦ rw e tt
  | inr e ↦ rw e (Rises-new_from (runs_to_complete_set prev num_pieces) 0 curr)
]
