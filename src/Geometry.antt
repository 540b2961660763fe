-- ===== src/Geometry.antt =====
-- web/ui/src/lib/pieceBarGeometry.ts: the mathematics behind the piece bar.
-- A position on the bar is computed in floating point, as `Math.floor((i / n) * w)` or with
-- `Math.round`. `Scaling` takes these two computations as parameters, with the facts of IEEE
-- arithmetic that the proofs use: rounding is monotone, 0 / n is 0, and n / n is 1.
pub mod Columns
pub mod Segments
pub mod Arrivals
pub mod Exact
mod Tests
use haul.Base.{
  ℕ, zero, suc, ◌+◌, ◌-◌, ◌%◌, ◌^◌, ◌≤◌, ◌<◌, min, max, ◌≡◌, Bool, true, false, ◌&&◌, ◌||◌, not,
  Option, none, some, List, [], ◌∷◌, ◌++◌, ltb, leb, ◌==◌, if◌then◌else◌, modify, replicate, has,
  sum_by, ℤ, pos, negsuc, String,
}

pub data PieceRunState : Type 0 where
  complete partial checking missing : PieceRunState

pub record PieceStateRun : Type 0 where
  pub length : ℕ
  pub state : PieceRunState

pub record TorrentFile : Type 0 where
  pub index : ℕ
  pub path : String
  pub size : ℕ
  pub priority : String
  pub progress : ℕ

-- The float `num / den`, kept as its two operands.
pub record Quotient : Type 0 where
  pub num : ℤ
  pub den : ℤ

pub record BarColumn : Type 0 where
  pub frac_complete : Quotient
  pub has_partial : Bool
  pub has_checking : Bool

pub record FileSegment : Type 0 where
  pub x_start : ℕ
  pub x_end : ℕ
  pub name : String
  pub size : ℕ

pub record Scaling : Type 0 where
  pub floor_at : ℕ → ℕ → ℕ → ℕ
  pub round_at : ℕ → ℕ → ℕ → ℕ
  pub round_mono : (i j n w : ℕ) → i ≤ j → 0 < n → round_at i n w ≤ round_at j n w
  pub round_zero : (n w : ℕ) → 0 < n → round_at 0 n w ≡ 0
  pub round_full : (n w : ℕ) → 0 < n → round_at n n w ≡ w
  pub floor_mono : (i j n w : ℕ) → i ≤ j → 0 < n → floor_at i n w ≤ floor_at j n w
  pub floor_zero : (n w : ℕ) → 0 < n → floor_at 0 n w ≡ 0

-- `a[x]++` on a cell of an `Int32Array`, as its bit pattern.
abbrev pub incr32 : ℕ → ℕ
incr32 n = (n + 1) % 2 ^ 32

-- The number that a cell of an `Int32Array` reads as.
abbrev pub int32 : ℕ → ℤ
int32 n = if ltb n (2 ^ 31) then pos n else negsuc (2 ^ 32 - n - 1)

abbrev pub is_complete : PieceRunState → Bool
is_complete complete = true
is_complete _ = false

abbrev pub is_partial : PieceRunState → Bool
is_partial partial = true
is_partial _ = false

abbrev pub is_checking : PieceRunState → Bool
is_checking checking = true
is_checking _ = false

abbrev pub blank_column : BarColumn
blank_column = record {
  frac_complete = record { num = pos 0; den = pos 1 };
  has_partial = false;
  has_checking = false;
}

-- The flags that a piece sets in its column.
abbrev pub flag : PieceRunState → BarColumn → BarColumn
flag complete col = col
flag partial col = record col { has_partial = true }
flag checking col = record col { has_checking = true }
flag missing col = col

-- The variables of the loops of `runsToColumns`.
pub record Sweep : Type 0 where
  pub cols : List BarColumn
  pub totals : List ℕ
  pub completes : List ℕ
  pub global_idx : ℕ

-- The last loop: the fraction of each column from the two counts.
unfoldable pub fraction : ℕ → ℕ → Quotient
fraction total done =
    if total == 0
    then record { num = pos 0; den = pos 1 }
    else record { num = int32 done; den = int32 total }

unfoldable pub fill_fractions : List BarColumn → List ℕ → List ℕ → List BarColumn
fill_fractions (col ∷ cols) (t ∷ totals) (c ∷ completes) =
    record col { frac_complete = fraction t c } ∷ fill_fractions cols totals completes
fill_fractions cols [] _ = cols
fill_fractions cols (_ ∷ _) [] = cols
fill_fractions [] (_ ∷ _) (_ ∷ _) = []

-- `segments[segments.length - 1].xEnd = width`
unfoldable pub clamp_last : ℕ → List FileSegment → List FileSegment
clamp_last width [] = []
clamp_last width (s ∷ []) = record s { x_end = width } ∷ []
clamp_last width (s ∷ s' ∷ rest) = s ∷ clamp_last width (s' ∷ rest)

abbrev pub start_sweep : ℕ → Sweep
start_sweep w = record {
  cols = replicate w blank_column;
  totals = replicate w 0;
  completes = replicate w 0;
  global_idx = 0;
}

module _ (fl : Scaling) where
  -- `Math.min(Math.floor((i / n) * w), w - 1)` at a positive width.
  unfoldable pub column_of : ℕ → ℕ → ℕ → ℕ
  column_of i n w = min (fl.floor_at i n w) (w - 1)

  -- One round of the inner loop.
  unfoldable pub visit_piece : ℕ → ℕ → PieceRunState → Sweep → Sweep
  visit_piece n w state s =
      let x = column_of s.global_idx n w in
      record {
        cols = modify x (flag state) s.cols;
        totals = modify x incr32 s.totals;
        completes = if is_complete state then modify x incr32 s.completes else s.completes;
        global_idx = s.global_idx + 1;
      }

  -- The inner loop, on the rounds that are left.
  unfoldable pub visit_run : ℕ → ℕ → PieceRunState → ℕ → Sweep → Sweep
  visit_run n w state zero s = s
  visit_run n w state (suc rounds) s = visit_run n w state rounds (visit_piece n w state s)

  unfoldable pub visit_runs : ℕ → ℕ → List PieceStateRun → Sweep → Sweep
  visit_runs n w [] s = s
  visit_runs n w (run ∷ runs) s = visit_runs n w runs (visit_run n w run.state run.length s)

  unfoldable pub runs_to_columns : List PieceStateRun → ℕ → ℕ → List BarColumn
  runs_to_columns runs num_pieces width =
      if num_pieces == 0 || width == 0
      then replicate width blank_column
      else (let s = visit_runs num_pieces width runs (start_sweep width) in
          fill_fractions s.cols s.totals s.completes)

  -- The loop of `computeFileSegments`.
  unfoldable pub segments_from : ℕ → ℕ → ℕ → List TorrentFile → List FileSegment
  segments_from total width running [] = []
  segments_from total width running (f ∷ files) =
      let x_start = fl.round_at running total width in
      let x_end = fl.round_at (running + f.size) total width in
      record { x_start = x_start; x_end = max x_end (x_start + 1); name = f.path; size = f.size }
      ∷ segments_from total width (running + f.size) files

  unfoldable pub compute_file_segments : List TorrentFile → ℕ → List FileSegment
  compute_file_segments [] width = []
  compute_file_segments (f ∷ files) width =
      let total_size = sum_by (λ (g : TorrentFile). g.size) (f ∷ files) in
      if width == 0 || total_size == 0
      then []
      else clamp_last width (segments_from total_size width 0 (f ∷ files))

  -- The pixel of a piece. At width 0 the bound `width - 1` is -1.
  unfoldable pub piece_index_to_x : ℕ → ℕ → ℕ → ℤ
  piece_index_to_x index num_pieces width =
      if num_pieces == 0
      then pos 0
      else if width == 0
      then negsuc 0
      else pos (column_of index num_pieces width)

-- `x >= s.xStart && x < s.xEnd`
abbrev pub covers : FileSegment → ℤ → Bool
covers s (pos x) = leb s.x_start x && ltb x s.x_end
covers s (negsuc _) = false

unfoldable pub find_segment_at : List FileSegment → ℤ → Option FileSegment
find_segment_at [] x = none
find_segment_at (s ∷ segments) x = if covers s x then some s else find_segment_at segments x

-- The inner loop of `runsToCompleteSet`: pieces `idx` to `idx + rounds - 1`, below the bound.
unfoldable pub add_indices : ℕ → ℕ → ℕ → List ℕ
add_indices num_pieces idx zero = []
add_indices num_pieces idx (suc rounds) =
    let rest = add_indices num_pieces (idx + 1) rounds in
    if ltb idx num_pieces then idx ∷ rest else rest

unfoldable pub complete_from : ℕ → ℕ → List PieceStateRun → List ℕ
complete_from num_pieces idx [] = []
complete_from num_pieces idx (run ∷ runs) =
    let rest = complete_from num_pieces (idx + run.length) runs in
    if is_complete run.state then add_indices num_pieces idx run.length ++ rest else rest

unfoldable pub runs_to_complete_set : List PieceStateRun → ℕ → List ℕ
runs_to_complete_set runs num_pieces = complete_from num_pieces 0 runs

-- The inner loop of `diffNewCompletions`: the pieces that the earlier set lacks.
unfoldable pub new_indices : List ℕ → ℕ → ℕ → List ℕ
new_indices prev_complete idx zero = []
new_indices prev_complete idx (suc rounds) =
    let rest = new_indices prev_complete (idx + 1) rounds in
    if has prev_complete idx then rest else idx ∷ rest

unfoldable pub new_from : List ℕ → ℕ → List PieceStateRun → List ℕ
new_from prev_complete idx [] = []
new_from prev_complete idx (run ∷ runs) =
    let rest = new_from prev_complete (idx + run.length) runs in
    if is_complete run.state then new_indices prev_complete idx run.length ++ rest else rest

unfoldable pub diff_new_completions : Option (List PieceStateRun) → List PieceStateRun → ℕ → List ℕ
diff_new_completions none curr num_pieces = []
diff_new_completions (some prev) curr num_pieces =
    if num_pieces == 0 then [] else new_from (runs_to_complete_set prev num_pieces) 0 curr
