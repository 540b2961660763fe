-- ===== src/Geometry/Segments.antt =====
-- computeFileSegments and findSegmentAt: the files tile the bar, and the lookup finds them.
use haul.Base.{
  ℕ, ◌+◌, ◌≤◌, ◌<◌, ◌≡◌, ◌≢◌, refl, ap, true, false, ◌||◌, ◌++◌, ◌∙◌, none, some, List, [], ◌∷◌,
  map, ◌==◌, sum_by, sum_by-append, pos, ℤ, arith, Bool-cases, inl, inr, ◌⊎◌, any, max, get_elem?,
  length,
}
use haul.Geometry.{
  TorrentFile, FileSegment, Scaling, segments_from, clamp_last, compute_file_segments, covers,
  find_segment_at,
}

-- The segments cover every pixel from `lo` to `width`, the last one up to `width` itself.
abbrev pub Tiles : ℕ → ℕ → List FileSegment → Type 0
Tiles lo width [] = ⊥
Tiles lo width (s ∷ []) = (s.x_start ≤ lo) × (s.x_end ≡ width)
Tiles lo width (s ∷ s' ∷ rest) = (s.x_start ≤ lo) × Tiles s.x_end width (s' ∷ rest)

-- The start pixels rise from `lo` on, and none lies beyond the bar.
abbrev pub Ordered : ℕ → ℕ → List FileSegment → Type 0
Ordered lo width [] = Unit
Ordered lo width (s ∷ rest) = (lo ≤ s.x_start) × (s.x_start ≤ width) × Ordered s.x_start width rest

abbrev pub total_size : List TorrentFile → ℕ
total_size files = sum_by (λ (g : TorrentFile). g.size) files

find-Tiles :
    (segments : List FileSegment) (lo width x : ℕ)
    → Tiles lo width segments
    → lo ≤ x
    → x < width
    → find_segment_at segments (pos x) ≢ none
unfolding find_segment_at
find-Tiles [] lo width x t a b = absurd t
find-Tiles (s ∷ []) lo width x t a b = ground arith
find-Tiles (s ∷ s' ∷ rest) lo width x t a b =
    ground (arith, find-Tiles (s' ∷ rest) s.x_end width x t.1)

module _ (fl : Scaling) (total width : ℕ) where
  segments_from-Tiles :
      (running lo : ℕ) (f : TorrentFile) (files : List TorrentFile)
      → fl.round_at running total width ≤ lo
      → Tiles lo width (clamp_last width (segments_from fl total width running (f ∷ files)))
  unfolding segments_from clamp_last
  segments_from-Tiles running lo f [] h = (h, refl)
  segments_from-Tiles running lo f (g ∷ []) h = (h, (omega arith, refl))
  segments_from-Tiles running lo f (g ∷ g' ∷ files) h =
      (h, segments_from-Tiles (running + f.size) _ g (g' ∷ files) (omega arith))

  segments_from-Ordered :
      (running lo : ℕ) (files : List TorrentFile)
      → 0 < total
      → running + total_size files ≤ total
      → lo ≤ fl.round_at running total width
      → Ordered lo width (clamp_last width (segments_from fl total width running files))
  unfolding segments_from clamp_last
  segments_from-Ordered running lo [] p h k = tt
  segments_from-Ordered running lo (f ∷ []) p h k = (
    k,
    omega (
      arith,
      fl.round_mono running total total width (omega arith) p,
      fl.round_full total width p,
    ),
    tt,
  )
  segments_from-Ordered running lo (f ∷ g ∷ files) p h k = (
    k,
    omega (
      arith,
      fl.round_mono running total total width (omega arith) p,
      fl.round_full total width p,
    ),
    segments_from-Ordered (running + f.size) _ (g ∷ files) p (omega arith)
        (fl.round_mono running (running + f.size) total width (omega arith) p),
  )

  map-segments_from :
      (running : ℕ) (files : List TorrentFile)
      → map
          (λ (s : FileSegment). s.name)
          (clamp_last width (segments_from fl total width running files))
        ≡ map (λ (f : TorrentFile). f.path) files
  unfolding segments_from clamp_last
  map-segments_from running [] = refl
  map-segments_from running (f ∷ []) = refl
  map-segments_from running (f ∷ g ∷ files) =
      ap (◌∷◌ f.path) (map-segments_from (running + f.size) (g ∷ files))

  -- The segment of a file behind `from` bytes, with the files behind it.
  abbrev pub segment_of : ℕ → TorrentFile → List TorrentFile → FileSegment
  segment_of from f after =
      let x_start = fl.round_at from total width in
      record {
        x_start = x_start;
        x_end = elim after [
          | [] ↦ width
          | _ ∷ _ ↦ max (fl.round_at (from + f.size) total width) (x_start + 1)
        ];
        name = f.path;
        size = f.size;
      }

  segments_from-segment_of :
      (running : ℕ) (before : List TorrentFile) (f : TorrentFile) (after : List TorrentFile)
      → get_elem?
          (clamp_last width (segments_from fl total width running (before ++ (f ∷ after))))
          (length before)
        ≡ some (segment_of (running + total_size before) f after)
  unfolding segments_from clamp_last
  segments_from-segment_of running [] f [] = ap (λ r. some (segment_of r f [])) (omega arith)
  segments_from-segment_of running [] f (g ∷ after) =
      ap (λ r. some (segment_of r f (g ∷ after))) (omega arith)
  segments_from-segment_of running (b ∷ []) f after =
      segments_from-segment_of (running + b.size) [] f after
      ∙ ap (λ r. some (segment_of r f after)) (omega arith)
  segments_from-segment_of running (b ∷ b' ∷ before) f after =
      segments_from-segment_of (running + b.size) (b' ∷ before) f after
      ∙ ap (λ r. some (segment_of r f after)) (omega arith)

-- The segments of files of positive total size on a bar of positive width.
Tiles-compute_file_segments :
    (fl : Scaling) (files : List TorrentFile) (width : ℕ)
    → 0 < total_size files
    → 0 < width
    → (compute_file_segments fl files width
        ≡ clamp_last width (segments_from fl (total_size files) width 0 files))
      × (map (λ (s : FileSegment). s.name) (compute_file_segments fl files width)
          ≡ map (λ (f : TorrentFile). f.path) files)
      × Tiles 0 width (compute_file_segments fl files width)
      × Ordered 0 width (compute_file_segments fl files width)
unfolding compute_file_segments
Tiles-compute_file_segments fl [] width p h = absurd (omega arith)
Tiles-compute_file_segments fl (f ∷ files) width p h =
    let total : ℕ = total_size (f ∷ files) in
    let e : (width == 0 || total == 0) ≡ false = ground arith in
    rw e (
      refl,
      map-segments_from fl total width 0 (f ∷ files),
      segments_from-Tiles fl total width 0 0 f files (omega (arith, fl.round_zero total width p)),
      segments_from-Ordered fl total width 0 0 (f ∷ files) p (omega arith) (omega arith),
    )

-- For files of positive total size on a bar of positive width: there is one segment for each file,
-- in order and under its name; the segments leave no pixel from 0 to the bar's width out, the last one
-- ends at the width, and their starts never fall and are never beyond it. Each segment starts at the
-- rounded share of the bytes before its file, has the file's name and size, and ends, unless it is the
-- last one, at the rounded share of the bytes up to the end of its file, or one behind its start where
-- that is more.
pub compute_file_segments-Tiles :
    (fl : Scaling) (before : List TorrentFile) (f : TorrentFile) (after : List TorrentFile)
    (width : ℕ)
    → 0 < total_size (before ++ (f ∷ after))
    → 0 < width
    → let files = before ++ (f ∷ after) in
      let segments = compute_file_segments fl files width in
      (map (λ (s : FileSegment). s.name) segments ≡ map (λ (g : TorrentFile). g.path) files)
      × Tiles 0 width segments
      × Ordered 0 width segments
      × (get_elem? segments (length before)
          ≡ some (segment_of fl (total_size files) width (total_size before) f after))
compute_file_segments-Tiles fl before f after width p h =
    let files = before ++ (f ∷ after) in
    let t = Tiles-compute_file_segments fl files width p h in
    (
      t.1,
      t.2,
      t.3,
      ap (λ l. get_elem? l (length before)) t.0
          ∙ segments_from-segment_of fl (total_size files) width 0 before f after
          ∙ ap (λ r. some (segment_of fl (total_size files) width r f after)) (omega arith),
    )

-- For files of positive total size, every pixel of the bar lies in some file's segment.
pub find-compute_file_segments :
    (fl : Scaling) (files : List TorrentFile) (width x : ℕ)
    → 0 < total_size files
    → x < width
    → find_segment_at (compute_file_segments fl files width) (pos x) ≢ none
find-compute_file_segments fl files width x p h =
    find-Tiles _ 0 width x (Tiles-compute_file_segments fl files width p (omega arith)).2
      (omega arith) h

-- The lookup finds a segment exactly when one covers the position, and what it finds covers it.
pub find_segment_at_iff :
    (segments : List FileSegment) (x : ℤ)
    → ((find_segment_at segments x ≡ none) × (any (λ s. covers s x) segments ≡ false))
      ⊎ ((s : FileSegment) × (find_segment_at segments x ≡ some s)
          × (covers s x ≡ true)
          × (any (λ s. covers s x) segments ≡ true))
unfolding find_segment_at
find_segment_at_iff [] x = inl (refl, refl)
find_segment_at_iff (s ∷ rest) x = elim (Bool-cases (covers s x)) [
  | inl here ↦ inr (s, ground arith, here, ground arith)
  | inr miss ↦ elim (find_segment_at_iff rest x) [
    | inl (e, h) ↦ inl (ground arith, ground arith)
    | inr (s', e, c, h) ↦ inr (s', ground arith, c, ground arith)
  ]
]

segments_from-tail :
    (fl : Scaling) (total width running : ℕ) (files : List TorrentFile) (g : TorrentFile)
    → fl.round_at (running + total_size files) total width ≡ width
    → clamp_last width (segments_from fl total width running (files ++ (g ∷ [])))
      ≡ segments_from fl total width running files
        ++ (record { x_start = width; x_end = width; name = g.path; size = g.size } ∷ [])
unfolding segments_from clamp_last
segments_from-tail fl total width running [] g e =
    let e' : fl.round_at running total width ≡ width =
      ap (λ r. fl.round_at r total width) (omega arith) ∙ e in
    rw e'
segments_from-tail fl total width running (f ∷ []) g e =
    let e' : fl.round_at (running + f.size) total width ≡ width =
      ap (λ r. fl.round_at r total width) (omega arith) ∙ e in
    rw e'
segments_from-tail fl total width running (f ∷ f' ∷ files) g e = rw (
    segments_from-tail fl total width (running + f.size) (f' ∷ files) g
      (ap (λ r. fl.round_at r total width) (omega arith) ∙ e))

-- Where the bytes before the last of several files already round to the full width, the last file
-- gets a segment that starts and ends at the width, so it has no pixel of its own.
pub compute_file_segments-tail :
    (fl : Scaling) (f : TorrentFile) (files : List TorrentFile) (g : TorrentFile) (width : ℕ)
    → 0 < total_size (f ∷ files)
    → 0 < width
    → fl.round_at (total_size (f ∷ files)) (total_size (f ∷ files ++ (g ∷ []))) width ≡ width
    → (init : List FileSegment) × (compute_file_segments fl (f ∷ files ++ (g ∷ [])) width
        ≡ init ++ (record { x_start = width; x_end = width; name = g.path; size = g.size } ∷ []))
unfolding compute_file_segments
compute_file_segments-tail fl f files g width p h e =
    let total : ℕ = total_size (f ∷ files ++ (g ∷ [])) in
    let whole : (width == 0 || total == 0) ≡ false =
      ground (arith, sum_by-append (λ (t : TorrentFile). t.size) files (g ∷ [])) in
    (
      segments_from fl total width 0 (f ∷ files),
      rw whole (
          segments_from-tail fl total width 0 (f ∷ files) g
            (ap (λ r. fl.round_at r total width) (omega arith) ∙ e)),
    )
