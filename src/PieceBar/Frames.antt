-- ===== src/PieceBar/Frames.antt =====
-- What one snapshot and one frame of the bar do.
use haul.Base.{
  ℕ, suc, ◌≤◌, ◌<◌, ◌≡◌, refl, ap, sym, Bool, ◌&&◌, ◌||◌, not, some, List, [], ◌∷◌, ◌++◌, map, ltb,
  ◌==◌, if◌then◌else◌, any, keep, length, arith, pos, All, inl, inr, Bool-cases, Option-cases,
}
use mathlib.Core.List.{append-nil}
use haul.Geometry.{
  TorrentFile, FileSegment, Scaling, piece_index_to_x, column_of, diff_new_completions,
  find_segment_at, compute_file_segments,
}
use haul.Geometry.Segments.{total_size, find-compute_file_segments}
use haul.PieceBar.{
  PiecesInfo, flash_intensity_cutoff, ArrivalFlash, ThemeColors, Bar, Scene, snapshot, is_active,
  paint_flashes, some_partial, draw, handle_mouse_move,
}

length-map {ℓ κ} :
    {A : Type ℓ} {B : Type κ} (f : A → B) (xs : List A) → length (map f xs) ≡ length xs
length-map f [] = refl
length-map f (x ∷ xs) = ap suc (length-map f xs)

-- A flash that started at a time, on a pixel of the bar.
abbrev pub OnBar : ℕ → ℕ → ArrivalFlash → Type 0
OnBar width now f = (x : ℕ) × (f.x ≡ pos x) × (x < width) × (f.start ≡ now)

queued-OnBar :
    (fl : Scaling) (n width now : ℕ) (newly : List ℕ)
    → 0 < n
    → 0 < width
    → All
        (OnBar width now)
        (map (λ idx. record { x = piece_index_to_x fl idx n width; start = now }) newly)
unfolding piece_index_to_x column_of
queued-OnBar fl n width now [] h k = tt
queued-OnBar fl n width now (idx ∷ newly) h k = (
  (column_of fl idx n width, ground arith, omega arith, refl),
  queued-OnBar fl n width now newly h k,
)

-- A snapshot of a torrent with pieces, on a bar of positive width, appends at most 50 flashes to
-- the queue; each starts now and lies on a pixel of the bar. The snapshot becomes the one that the
-- next is compared with, and the width and the tooltip stay.
pub snapshot_lem :
    (fl : Scaling) (pieces : PiecesInfo) (now : ℕ) (b : Bar)
    → 0 < pieces.num_pieces
    → 0 < b.width
    → (fresh : List ArrivalFlash) × ((snapshot fl pieces now b).flashes ≡ b.flashes ++ fresh)
      × (length fresh ≤ 50)
      × All (OnBar b.width now) fresh
      × ((snapshot fl pieces now b).prev_runs ≡ some pieces.runs)
      × ((snapshot fl pieces now b).width ≡ b.width)
      × ((snapshot fl pieces now b).tooltip ≡ b.tooltip)
unfolding snapshot
snapshot_lem fl pieces now b h k =
    let newly : List ℕ = diff_new_completions b.prev_runs pieces.runs pieces.num_pieces in
    elim (Bool-cases (length newly == 0 || ltb flash_intensity_cutoff (length newly))) [
      | inl e ↦ rw e ([], sym (append-nil b.flashes), omega arith, tt, refl, refl, refl)
      | inr e ↦ rw e (
        map (λ idx. record { x = piece_index_to_x fl idx pieces.num_pieces b.width; start = now })
            newly,
        refl,
        rw length-map (ground arith),
        queued-OnBar fl pieces.num_pieces b.width now newly h k,
        refl,
        refl,
        refl,
      )
    ]

paint_flashes-keep :
    (colors : ThemeColors) (now : ℕ) (fs : List ArrivalFlash)
    → (paint_flashes colors now fs).1 ≡ keep (is_active now) fs
unfolding paint_flashes
paint_flashes-keep colors now [] = refl
paint_flashes-keep colors now (f ∷ fs) = ground (arith, paint_flashes-keep colors now fs)

any-keep {ℓ} : {A : Type ℓ} (p : A → Bool) (xs : List A) → any p xs ≡ ltb 0 (length (keep p xs))
any-keep p [] = refl
any-keep p (x ∷ xs) = ground (arith, any-keep p xs)

-- A frame keeps exactly the flashes younger than their duration, or none under reduced motion, and
-- asks for another frame exactly when motion is allowed and a column has a partial piece or such a
-- flash is left.
pub draw-flashes :
    (scene : Scene) (now : ℕ) (fs : List ArrivalFlash)
    → ((draw scene now fs).flashes ≡ (if scene.reduced_motion then [] else keep (is_active now) fs))
      × ((draw scene now fs).needs_another_frame
          ≡ (not scene.reduced_motion && (some_partial scene.columns || any (is_active now) fs)))
unfolding draw
draw-flashes scene now fs =
    let kept = paint_flashes-keep scene.colors now fs in
    elim (Bool-cases scene.reduced_motion) [
      | inl e ↦ (rw e, rw e)
      | inr e ↦ (rw e kept, rw (e, kept, any-keep (is_active now) fs))
    ]

-- With files of positive total size, the pointer over any pixel of the bar shows a tooltip there.
pub handle_mouse_move-tooltip :
    (fl : Scaling) (files : List TorrentFile) (x : ℕ) (b : Bar)
    → 0 < total_size files
    → x < b.width
    → (segment : FileSegment) × ((handle_mouse_move fl files (pos x) b).tooltip
        ≡ some (record { x = pos x; segment = segment }))
      × (find_segment_at (compute_file_segments fl files b.width) (pos x) ≡ some segment)
unfolding handle_mouse_move
handle_mouse_move-tooltip fl files x b h k =
    elim (Option-cases (find_segment_at (compute_file_segments fl files b.width) (pos x))) [
      | inl e ↦ absurd (find-compute_file_segments fl files b.width x h k e)
      | inr (s, e) ↦ (s, rw (e, handle_mouse_move), e)
    ]
