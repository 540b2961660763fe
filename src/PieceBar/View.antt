-- ===== src/PieceBar/View.antt =====
-- What web/ui/src/components/torrent/PieceBar.tsx shows around the canvas.
use haul.Base.{
  ℕ, ◌+◌, ◌==◌, Bool, true, false, not, ltb, Option, none, some, List, length, String, ◌<>◌, ℤ, pos,
  negsuc, sub_ℕ, if◌then◌else◌,
}
use haul.Geometry.{FileSegment}
use haul.Formats.{Logarithm, format_bytes}
use haul.PieceBar.{PiecesInfo, Tooltip, bar_height}

pub record TooltipView : Type 0 where
  pub left : ℤ
  pub top : ℕ
  pub name : String
  pub size : String

pub record BarView : Type 0 where
  pub caption : String
  pub has_canvas : Bool
  pub placeholder : Option String
  pub cursor : String
  pub tooltip : Option TooltipView

-- `Math.max(x - 80, 0)`
abbrev shifted : ℤ → ℤ
shifted (pos x) = if ltb x 80 then pos 0 else sub_ℕ x 80
shifted (negsuc n) = pos 0

abbrev le_int : ℤ → ℤ → Bool
le_int (pos a) (pos b) = not (ltb b a)
le_int (pos a) (negsuc b) = false
le_int (negsuc a) (pos b) = true
le_int (negsuc a) (negsuc b) = not (ltb a b)

-- `Math.min`
abbrev min_int : ℤ → ℤ → ℤ
min_int a b = if le_int a b then a else b

unfoldable pub tooltip_view : Logarithm → ℕ → Tooltip → TooltipView
tooltip_view js width t = record {
  left = min_int (shifted t.x) (sub_ℕ width 160);
  top = bar_height + 6;
  name = t.segment.name;
  size = format_bytes js t.segment.size;
}

-- `locale` is `toLocaleString`, and `percent` the text of `Math.round(progress * 100)`.
unfoldable pub bar_view :
    Logarithm
    → (ℕ → String)
    → (ℕ → String)
    → PiecesInfo
    → ℕ
    → ℕ
    → List FileSegment
    → Option Tooltip
    → BarView
unfolding tooltip_view
bar_view js locale percent pieces progress width segments tooltip =
    let waiting = pieces.num_pieces == 0 in
    record {
      caption =
          if waiting
          then "Waiting for metadata…"
          else locale pieces.num_pieces
            <> " pieces · "
            <> format_bytes js pieces.piece_size
            <> " each · "
            <> percent progress
            <> "%";
      has_canvas = not waiting;
      placeholder = if waiting then some "waiting for metadata…" else none;
      cursor = if ltb 0 (length segments) then "crosshair" else "default";
      tooltip = elim tooltip [ none ↦ none | some t ↦ some (tooltip_view js width t) ];
    }
