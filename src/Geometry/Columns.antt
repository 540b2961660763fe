-- ===== src/Geometry/Columns.antt =====
-- runsToColumns: what each column of the bar holds, piece by piece.

use haul.Base.{
  ℕ, zero, suc, ◌+◌, ◌^◌, ◌≤◌, ◌<◌, ◌≡◌, refl, ap, ◌∙◌, Bool, true, false, ◌&&◌, ◌||◌, some, List,
  [], ◌∷◌, ◌++◌, ltb, ◌==◌, if◌then◌else◌, get_elem?, modify, replicate, length, sum_by, Bool-cases,
  inl, inr, get_elem?-modify, get_elem?-replicate, length-append, length-modify, length-replicate,
  pos, arith,
}
use haul.Geometry.{
  PieceRunState, complete, partial, checking, missing, PieceStateRun, Quotient, BarColumn, Scaling,
  incr32, is_complete, is_partial, is_checking, blank_column, flag, Sweep, column_of, visit_piece,
  visit_run, visit_runs, start_sweep, fraction, fill_fractions, runs_to_columns,
}

-- The states of the pieces, one by one.
unfoldable pub expand : List PieceStateRun → List PieceRunState
expand [] = []
expand (run ∷ runs) = replicate run.length run.state ++ expand runs

pub length-expand :
    (runs : List PieceStateRun)
    → length (expand runs) ≡ sum_by (λ (r : PieceStateRun). r.length) runs
unfolding expand
length-expand [] = refl
length-expand (run ∷ runs) = omega (
  arith,
  length-append (replicate run.length run.state) (expand runs),
  length-replicate run.length run.state,
  length-expand runs,
)

module _ (fl : Scaling) (n w : ℕ) where
  -- How many of the pieces from index `i` on are of a kind and fall into column `x`.
  unfoldable pub landed : (PieceRunState → Bool) → ℕ → ℕ → List PieceRunState → ℕ
  landed p x i [] = 0
  landed p x i (st ∷ ps) =
      (if p st && column_of fl i n w == x then 1 else 0) + landed p x (i + 1) ps

  visit_all : List PieceRunState → Sweep → Sweep
  visit_all [] s = s
  visit_all (st ∷ ps) s = visit_all ps (visit_piece fl n w st s)

  visit_all-append :
      (ps qs : List PieceRunState) (s : Sweep)
      → visit_all (ps ++ qs) s ≡ visit_all qs (visit_all ps s)
  unfolding visit_all
  visit_all-append [] qs s = refl
  visit_all-append (st ∷ ps) qs s = visit_all-append ps qs (visit_piece fl n w st s)

  visit_run-eq :
      (st : PieceRunState) (rounds : ℕ) (s : Sweep)
      → visit_run fl n w st rounds s ≡ visit_all (replicate rounds st) s
  unfolding visit_all visit_run
  visit_run-eq st zero s = refl
  visit_run-eq st (suc rounds) s = visit_run-eq st rounds (visit_piece fl n w st s)

  visit_runs-eq :
      (runs : List PieceStateRun) (s : Sweep) → visit_runs fl n w runs s ≡ visit_all (expand runs) s
  unfolding visit_all visit_runs expand
  visit_runs-eq [] s = refl
  visit_runs-eq (run ∷ runs) s =
      rw
        (
          visit_all-append (replicate run.length run.state) (expand runs) s,
          ← visit_run-eq run.state run.length s,
        )
        (visit_runs-eq runs (visit_run fl n w run.state run.length s))

  -- The contents of column `x` in the middle of the sweep.
  record Cell (s : Sweep) (x t c : ℕ) (col : BarColumn) : Type 0 where
    total : get_elem? s.totals x ≡ some t
    done : get_elem? s.completes x ≡ some c
    column : get_elem? s.cols x ≡ some col

  Cell-visit_piece :
      (st : PieceRunState) (s : Sweep) (x t c : ℕ) (col : BarColumn)
      → Cell s x t c col
      → Cell
          (visit_piece fl n w st s)
          x
          (if column_of fl s.global_idx n w == x then incr32 t else t)
          (if is_complete st && column_of fl s.global_idx n w == x then incr32 c else c)
          (if column_of fl s.global_idx n w == x then flag st col else col)
  unfolding visit_piece
  Cell-visit_piece st s x t c col v =
      let k = column_of fl s.global_idx n w in
      record {
        total = rw get_elem?-modify (ground (arith, v.total));
        done = ground (arith, v.done, get_elem?-modify k x incr32 s.completes);
        column = rw get_elem?-modify (ground (arith, v.column));
      }

  -- What the sweep adds to a column.
  marked : ℕ → ℕ → List PieceRunState → BarColumn → BarColumn
  marked x i ps col = record col {
    has_partial = col.has_partial || ltb 0 (landed is_partial x i ps);
    has_checking = col.has_checking || ltb 0 (landed is_checking x i ps);
  }

  marked-cons :
      (x i : ℕ) (st : PieceRunState) (ps : List PieceRunState) (col : BarColumn)
      → marked x (i + 1) ps (if column_of fl i n w == x then flag st col else col)
        ≡ marked x i (st ∷ ps) col
  unfolding marked landed
  marked-cons x i complete ps col = ground arith
  marked-cons x i partial ps col = ground arith
  marked-cons x i checking ps col = ground arith
  marked-cons x i missing ps col = ground arith

  marked-nil : (x i : ℕ) (col : BarColumn) → col ≡ marked x i [] col
  unfolding marked landed
  marked-nil x i col = ground arith

  Cell-visit_all :
      (ps : List PieceRunState) (s : Sweep) (x t c : ℕ) (col : BarColumn)
      → Cell s x t c col
      → t + length ps < 2 ^ 31
      → c + length ps < 2 ^ 31
      → Cell
          (visit_all ps s)
          x
          (t + landed (λ _. true) x s.global_idx ps)
          (c + landed is_complete x s.global_idx ps)
          (marked x s.global_idx ps col)
  unfolding visit_all visit_piece landed
  Cell-visit_all [] s x t c col v a b = record {
    total = v.total ∙ ap some (omega arith);
    done = v.done ∙ ap some (omega arith);
    column = v.column ∙ ap some (marked-nil x s.global_idx col);
  }
  Cell-visit_all (st ∷ ps) s x t c col v a b =
      let hit : Bool = column_of fl s.global_idx n w == x in
      let t' : ℕ = if hit then incr32 t else t in
      let c' : ℕ = if is_complete st && hit then incr32 c else c in
      let col' : BarColumn = if hit then flag st col else col in
      let ih =
        Cell-visit_all ps (visit_piece fl n w st s) x t' c' col' (Cell-visit_piece st s x t c col v)
          (ground arith) (ground arith) in
      record {
        total = ih.total ∙ ap some (ground arith);
        done = ih.done ∙ ap some (ground arith);
        column = ih.column ∙ ap some (marked-cons x s.global_idx st ps col);
      }

-- The fraction that a column shows: finished pieces over all pieces, 0 where no piece falls.
abbrev pub share : ℕ → ℕ → Quotient
share total done =
    if total == 0
    then record { num = pos 0; den = pos 1 }
    else record { num = pos done; den = pos total }

get_elem?-fill_fractions :
    (cols : List BarColumn) (totals completes : List ℕ) (x t c : ℕ) {col : BarColumn}
    → get_elem? totals x ≡ some t
    → get_elem? completes x ≡ some c
    → get_elem? cols x ≡ some col
    → get_elem? (fill_fractions cols totals completes) x
      ≡ some (record col { frac_complete = fraction t c })
unfolding fill_fractions
get_elem?-fill_fractions [] totals completes x t c a b d = cc
get_elem?-fill_fractions (col ∷ cols) [] completes x t c a b d = cc
get_elem?-fill_fractions (col ∷ cols) (u ∷ totals) [] x t c a b d = cc
get_elem?-fill_fractions (col ∷ cols) (u ∷ totals) (v ∷ completes) zero t c a b d = ground arith
get_elem?-fill_fractions (col ∷ cols) (u ∷ totals) (v ∷ completes) (suc x) t c a b d =
    get_elem?-fill_fractions cols totals completes x t c a b d

fraction-eq-share : (t c : ℕ) → t < 2 ^ 31 → c < 2 ^ 31 → fraction t c ≡ share t c
unfolding fraction
fraction-eq-share t c a b = ground arith

module _ (fl : Scaling) where
  landed-le :
      (n w : ℕ) (p : PieceRunState → Bool) (x i : ℕ) (ps : List PieceRunState)
      → landed fl n w p x i ps ≤ landed fl n w (λ _. true) x i ps
  unfolding landed
  landed-le n w p x i [] = omega arith
  landed-le n w p x i (st ∷ ps) = ground (arith, landed-le n w p x (i + 1) ps)

  landed-le-length :
      (n w : ℕ) (p : PieceRunState → Bool) (x i : ℕ) (ps : List PieceRunState)
      → landed fl n w p x i ps ≤ length ps
  unfolding landed
  landed-le-length n w p x i [] = omega arith
  landed-le-length n w p x i (st ∷ ps) = ground (arith, landed-le-length n w p x (i + 1) ps)

  -- The column that the pieces of `runs` make at pixel `x`, by counting.
  abbrev pub column_at : ℕ → ℕ → ℕ → List PieceStateRun → BarColumn
  column_at n w x runs = record {
    frac_complete =
        share (landed fl n w (λ _. true) x 0 (expand runs))
          (landed fl n w is_complete x 0 (expand runs));
    has_partial = ltb 0 (landed fl n w is_partial x 0 (expand runs));
    has_checking = ltb 0 (landed fl n w is_checking x 0 (expand runs));
  }

  -- For fewer than 2^31 pieces on a bar of positive width, each column is the one that counting
  -- gives: its fraction is the finished pieces over all pieces whose index maps to it (0 if none
  -- does), and its flags say whether one of them is partial or being checked.
  pub runs_to_columns_lem :
      (runs : List PieceStateRun) (n w x : ℕ)
      → 0 < n
      → x < w
      → sum_by (λ (r : PieceStateRun). r.length) runs < 2 ^ 31
      → get_elem? (runs_to_columns fl runs n w) x ≡ some (column_at n w x runs)
  unfolding runs_to_columns marked
  runs_to_columns_lem runs n w x hn hx few =
      let ps = expand runs in
      let size : length ps < 2 ^ 31 = omega (arith, length-expand runs) in
      let v =
        Cell-visit_all fl n w ps (start_sweep w) x 0 0 blank_column
          (record {
            total = get_elem?-replicate w x 0 hx;
            done = get_elem?-replicate w x 0 hx;
            column = get_elem?-replicate w x blank_column hx;
          })
          (omega arith) (omega arith) in
      let running : (n == 0 || w == 0) ≡ false = ground arith in
      rw (running, visit_runs-eq fl n w runs (start_sweep w))
        (get_elem?-fill_fractions _ _ _ x _ _ v.total v.done v.column
          ∙ ap some (
              ground (
                arith,
                landed-le-length n w (λ _. true) x 0 ps,
                landed-le-length n w is_complete x 0 ps,
                fraction-eq-share (landed fl n w (λ _. true) x 0 ps)
                    (landed fl n w is_complete x 0 ps),
              )))

length-visit_all :
    (fl : Scaling) (n w : ℕ) (ps : List PieceRunState) (s : Sweep)
    → (length (visit_all fl n w ps s).cols ≡ length s.cols)
      × (length (visit_all fl n w ps s).totals ≡ length s.totals)
      × (length (visit_all fl n w ps s).completes ≡ length s.completes)
unfolding visit_all visit_piece
length-visit_all fl n w [] s = (refl, refl, refl)
length-visit_all fl n w (st ∷ ps) s =
    let k = column_of fl s.global_idx n w in
    let ih = length-visit_all fl n w ps (visit_piece fl n w st s) in
    (
      ih.0 ∙ length-modify k (flag st) s.cols,
      ih.1 ∙ length-modify k incr32 s.totals,
      ground (arith, ih.2, length-modify k incr32 s.completes),
    )

length-fill_fractions :
    (cols : List BarColumn) (totals completes : List ℕ)
    → length (fill_fractions cols totals completes) ≡ length cols
unfolding fill_fractions
length-fill_fractions [] [] c = refl
length-fill_fractions [] (t ∷ ts) [] = refl
length-fill_fractions [] (t ∷ ts) (c ∷ cs) = refl
length-fill_fractions (col ∷ cols) [] c = refl
length-fill_fractions (col ∷ cols) (t ∷ ts) [] = refl
length-fill_fractions (col ∷ cols) (t ∷ ts) (c ∷ cs) = ap suc (length-fill_fractions cols ts cs)

-- The bar has one column for each pixel of its width, whatever the runs and the number of pieces.
pub length-runs_to_columns :
    (fl : Scaling) (runs : List PieceStateRun) (n w : ℕ) → length (runs_to_columns fl runs n w) ≡ w
unfolding runs_to_columns
length-runs_to_columns fl runs n w = elim (Bool-cases (n == 0 || w == 0)) [
  | inl e ↦ rw e (length-replicate w blank_column)
  | inr e ↦
      rw (e, visit_runs-eq fl n w runs (start_sweep w))
        (length-fill_fractions _ _ _
          ∙ (length-visit_all fl n w (expand runs) (start_sweep w)).0
          ∙ length-replicate w blank_column)
]

-- The sum of the counts, which stay below their wrap-around.
sum-modify :
    (k : ℕ) (ts : List ℕ)
    → k < length ts
    → sum_by (λ t. t) ts + 1 < 2 ^ 32
    → sum_by (λ t. t) (modify k incr32 ts) ≡ sum_by (λ t. t) ts + 1
sum-modify k [] h b = elim h [ ]
sum-modify zero (t ∷ ts) h b = ground arith
sum-modify (suc k) (t ∷ ts) h b = omega (arith, sum-modify k ts (omega arith) (omega arith))

sum-visit_all :
    (fl : Scaling) (n w : ℕ) (ps : List PieceRunState) (s : Sweep)
    → 0 < w
    → length s.totals ≡ w
    → sum_by (λ t. t) s.totals + length ps < 2 ^ 32
    → sum_by (λ t. t) (visit_all fl n w ps s).totals ≡ sum_by (λ t. t) s.totals + length ps
unfolding visit_all visit_piece column_of
sum-visit_all fl n w [] s h l b = omega arith
sum-visit_all fl n w (st ∷ ps) s h l b =
    let k = column_of fl s.global_idx n w in
    let one = sum-modify k s.totals (omega arith) (omega arith) in
    let ih =
      sum-visit_all fl n w ps (visit_piece fl n w st s) h (length-modify k incr32 s.totals ∙ l)
        (omega arith) in
    omega arith

sum-replicate_zero : (n : ℕ) → sum_by (λ t. t) (replicate n 0) ≡ 0
sum-replicate_zero zero = refl
sum-replicate_zero (suc n) = omega (arith, sum-replicate_zero n)

-- On a bar of positive width and for fewer than 2^32 pieces, the counts of all columns add up to
-- the number of pieces: the sweep counts every piece in exactly one column.
pub sum-visit_runs :
    (fl : Scaling) (runs : List PieceStateRun) (n w : ℕ)
    → 0 < w
    → sum_by (λ (r : PieceStateRun). r.length) runs < 2 ^ 32
    → sum_by (λ t. t) (visit_runs fl n w runs (start_sweep w)).totals
      ≡ sum_by (λ (r : PieceStateRun). r.length) runs
sum-visit_runs fl runs n w h few =
    let size = length-expand runs in
    let none_yet = sum-replicate_zero w in
    rw (visit_runs-eq fl n w runs (start_sweep w)) (
      sum-visit_all fl n w (expand runs) (start_sweep w) h (length-replicate w 0) (omega arith)
      ∙ omega arith)
