-- ===== src/PieceBar.antt =====
-- web/ui/src/components/torrent/PieceBar.tsx: the canvas widget over the piece bar's mathematics.
-- A frame is the list of rectangles that it fills. Times are whole milliseconds; a horizontal
-- position is in half pixels, since a flash is drawn half a pixel to the left. What the browser
-- does (layout, canvas, frames, the clock) enters as arguments and events.
pub mod Frames
pub mod Loop
mod View
mod Tests
use haul.Base.{
  ℕ, zero, suc, ◌+◌, ◌-◌, ◌*◌, ◌≡◌, Bool, true, false, ◌&&◌, ◌||◌, not, Option, none, some, List,
  [], ◌∷◌, ◌++◌, map, ltb, leb, ◌==◌, if◌then◌else◌, any, keep, length, ℤ, pos, negsuc, sub_ℕ,
  String,
}
use haul.Geometry.{
  PieceStateRun, TorrentFile, Quotient, BarColumn, FileSegment, Scaling, piece_index_to_x,
  diff_new_completions, find_segment_at, runs_to_columns, compute_file_segments,
}

pub record PiecesInfo : Type 0 where
  pub num_pieces : ℕ
  pub piece_size : ℕ
  pub runs : List PieceStateRun

abbrev pub bar_height : ℕ
bar_height = 22

abbrev pub flash_duration_ms : ℕ
flash_duration_ms = 400

abbrev pub flash_intensity_cutoff : ℕ
flash_intensity_cutoff = 50

pub record ArrivalFlash : Type 0 where
  pub x : ℤ
  pub start : ℕ

pub record ThemeColors : Type 0 where
  pub downloading : String
  pub warning : String
  pub bg_subtle : String
  pub divider : String
  pub flash : String

-- `globalAlpha`: a constant in percent, a column's fraction, the sine wave at a time, or the part
-- of the flash duration that is left.
pub data Alpha : Type 0 where
  percent : ℕ → Alpha
  weighted : Quotient → Alpha
  shimmer : ℕ → Alpha
  fading : ℤ → Alpha

-- One `fillRect` of the bar's height, with the alpha and the colour that are set.
pub record Rect : Type 0 where
  pub alpha : Alpha
  pub fill : String
  pub half_x : ℕ
  pub width : ℕ

pub record Tooltip : Type 0 where
  pub x : ℤ
  pub segment : FileSegment

-- The component's state and refs.
pub record Bar : Type 0 where
  pub width : ℕ
  pub prev_runs : Option (List PieceStateRun)
  pub flashes : List ArrivalFlash
  pub tooltip : Option Tooltip

abbrev pub initial : Bar
initial = record { width = 800; prev_runs = none; flashes = []; tooltip = none }

-- The observer's callback, on the floored widths of its entries.
unfoldable pub resize : List ℕ → Bar → Bar
resize [] b = b
resize (w ∷ ws) b = resize ws (record b { width = if ltb 0 w then w else b.width })

-- The effect that runs when a snapshot of the pieces arrives.
unfoldable pub snapshot : Scaling → PiecesInfo → ℕ → Bar → Bar
snapshot fl pieces now b =
    let newly = diff_new_completions b.prev_runs pieces.runs pieces.num_pieces in
    let seen = record b { prev_runs = some pieces.runs } in
    if length newly == 0 || ltb flash_intensity_cutoff (length newly) then seen else record seen {
      flashes =
          b.flashes
          ++ map
              (λ idx. record { x = piece_index_to_x fl idx pieces.num_pieces b.width; start = now })
              newly;
    }

-- `fraction <= 0`, of the quotient of two integers with a positive divisor.
abbrev pub is_nonpositive : Quotient → Bool
is_nonpositive q = elim q.num [ pos k ↦ k == 0 | negsuc k ↦ true ]

-- The base layer: the loop over the columns from `x` on.
unfoldable pub paint_columns : ThemeColors → ℕ → List BarColumn → List Rect
paint_columns colors x [] = []
paint_columns colors x (col ∷ cols) =
    let rest = paint_columns colors (x + 1) cols in
    if col.has_checking
    then record { alpha = percent 100; fill = colors.warning; half_x = 2 * x; width = 1 } ∷ rest
    else if is_nonpositive col.frac_complete
    then rest
    else record {
      alpha = weighted col.frac_complete;
      fill = colors.downloading;
      half_x = 2 * x;
      width = 1;
    }
      ∷ rest

-- The shimmer over the columns with a partial piece.
unfoldable pub paint_shimmer : ThemeColors → ℕ → ℕ → List BarColumn → List Rect
paint_shimmer colors now x [] = []
paint_shimmer colors now x (col ∷ cols) =
    let rest = paint_shimmer colors now (x + 1) cols in
    if col.has_partial
    then record { alpha = shimmer now; fill = colors.downloading; half_x = 2 * x; width = 1 } ∷ rest
    else rest

-- `age < FLASH_DURATION_MS`; a frame's time may lie before the flash's start.
abbrev pub is_active : ℕ → ArrivalFlash → Bool
is_active now f = ltb now (f.start + flash_duration_ms)

-- `Math.max(0, f.x - 0.5)`
abbrev pub flash_left : ℤ → ℕ
flash_left (pos x) = 2 * x - 1
flash_left (negsuc _) = 0

-- The loop over the flashes: the rectangles, and the flashes that stay.
unfoldable pub paint_flashes : ThemeColors → ℕ → List ArrivalFlash → List Rect × List ArrivalFlash
paint_flashes colors now [] = ([], [])
paint_flashes colors now (f ∷ fs) =
    let rest = paint_flashes colors now fs in
    if is_active now f
    then (
      record {
        alpha = fading (sub_ℕ (f.start + flash_duration_ms) now);
        fill = colors.flash;
        half_x = flash_left f.x;
        width = 2;
      }
          ∷ rest.0,
      f ∷ rest.1,
    )
    else rest

-- The dividers at the start of each segment but the first.
unfoldable pub paint_dividers : ThemeColors → List FileSegment → List Rect
paint_dividers colors [] = []
paint_dividers colors (s ∷ segments) =
    map
      (λ (s' : FileSegment). record {
        alpha = percent 70;
        fill = colors.divider;
        half_x = 2 * s'.x_start;
        width = 1;
      })
      segments

-- What the render effect closes over.
pub record Scene : Type 0 where
  pub colors : ThemeColors
  pub width : ℕ
  pub columns : List BarColumn
  pub segments : List FileSegment
  pub reduced_motion : Bool

pub record Frame : Type 0 where
  pub rects : List Rect
  pub flashes : List ArrivalFlash
  pub needs_another_frame : Bool

abbrev pub some_partial : List BarColumn → Bool
some_partial cols = any (λ (c : BarColumn). c.has_partial) cols

-- `draw(now)`
unfoldable pub draw : Scene → ℕ → List ArrivalFlash → Frame
unfolding paint_columns paint_shimmer paint_flashes paint_dividers
draw scene now flashes =
    let partial = some_partial scene.columns in
    let wash : Rect = record {
      alpha = percent 100;
      fill = scene.colors.bg_subtle;
      half_x = 0;
      width = scene.width;
    } in
    let base = paint_columns scene.colors 0 scene.columns in
    let glow =
      if not scene.reduced_motion && partial
      then paint_shimmer scene.colors now 0 scene.columns
      else [] in
    let painted : List Rect × List ArrivalFlash =
      if scene.reduced_motion then ([], []) else paint_flashes scene.colors now flashes in
    let dividers = paint_dividers scene.colors scene.segments in
    record {
      rects = wash ∷ base ++ (glow ++ (painted.0 ++ dividers));
      flashes = painted.1;
      needs_another_frame = not scene.reduced_motion && (partial || ltb 0 (length painted.1));
    }

-- The render effect: whether it is mounted, and whether a frame is requested.
pub record Raf : Type 0 where
  pub running : Bool
  pub requested : Bool
  pub flashes : List ArrivalFlash

abbrev pub mount : List ArrivalFlash → Raf
mount flashes = record { running = true; requested = true; flashes = flashes }

-- The browser runs a requested frame.
unfoldable pub run_frame : Scene → ℕ → Raf → Raf
run_frame scene now r =
    if r.running
    then (let frame = draw scene now r.flashes in
        record r { requested = frame.needs_another_frame; flashes = frame.flashes })
    else record r { requested = false }

-- The effect's cleanup.
unfoldable pub unmount : Raf → Raf
unmount r = record r { running = false; requested = false }

unfoldable pub handle_mouse_move : Scaling → List TorrentFile → ℤ → Bar → Bar
handle_mouse_move fl files x b = record b {
  tooltip = elim (find_segment_at (compute_file_segments fl files b.width) x) [
    | none ↦ none
    | some segment ↦ some (record { x = x; segment = segment })
  ];
}

unfoldable pub handle_mouse_leave : Bar → Bar
handle_mouse_leave b = record b { tooltip = none }
