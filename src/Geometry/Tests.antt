-- ===== src/Geometry/Tests.antt =====
-- Runs of the piece bar's mathematics, and its theorems at concrete inputs.
use haul.Base.{
  ◌+◌, ◌≡◌, refl, true, false, not, ◌&&◌, some, List, [], ◌∷◌, ◌++◌, map, get_elem?, has, arith,
  ltb,
}
use haul.Geometry.{
  complete, partial, checking, PieceStateRun, TorrentFile, FileSegment, BarColumn, runs_to_columns,
  compute_file_segments, diff_new_completions, visit_runs, fill_fractions, visit_run, visit_piece,
  column_of, segments_from, clamp_last, new_from, runs_to_complete_set, complete_from, add_indices,
  new_indices,
}
use haul.Geometry.Exact.{exact}
use haul.Geometry.Columns.{expand, column_at, runs_to_columns_lem}
use haul.Geometry.Segments.{
  Tiles, Ordered, segment_of, compute_file_segments-Tiles, compute_file_segments-tail,
}
use haul.Geometry.Arrivals.{done_at, has-diff_new_completions}

-- 3 finished pieces, 2 that arrive, 1 being checked.
abbrev runs : List PieceStateRun
runs =
    record { length = 3; state = complete }
    ∷ record { length = 2; state = partial }
    ∷ record { length = 1; state = checking }
    ∷ []

abbrev later_runs : List PieceStateRun
later_runs =
    record { length = 4; state = complete }
    ∷ record { length = 1; state = partial }
    ∷ record { length = 1; state = complete }
    ∷ []

abbrev film : TorrentFile
film = record { index = 0; path = "film.mkv"; size = 900; priority = "normal"; progress = 0 }

abbrev notes : TorrentFile
notes = record { index = 1; path = "notes.txt"; size = 100; priority = "normal"; progress = 0 }

abbrev tiny : TorrentFile
tiny = record { index = 2; path = "tiny.nfo"; size = 1; priority = "normal"; progress = 0 }

columns-run :
    map (λ (c : BarColumn). c.has_partial) (runs_to_columns exact runs 6 3)
    ≡ false ∷ true ∷ true ∷ []
unfolding runs_to_columns visit_runs visit_run visit_piece column_of fill_fractions exact
columns-run = refl

segments-run :
    map (λ (s : FileSegment). s.x_start) (compute_file_segments exact (film ∷ notes ∷ []) 800)
    ≡ 0 ∷ 720 ∷ []
unfolding compute_file_segments segments_from clamp_last exact
segments-run = refl

diff-run : diff_new_completions (some runs) later_runs 6 ≡ 3 ∷ 5 ∷ []
unfolding diff_new_completions new_from runs_to_complete_set complete_from add_indices new_indices
diff-run = refl

runs_to_columns_example :
    get_elem? (runs_to_columns exact runs 6 3) 1 ≡ some (column_at exact 6 3 1 runs)
runs_to_columns_example =
    runs_to_columns_lem exact runs 6 3 1 (omega arith) (omega arith) (omega arith)

compute_file_segments-Tiles_example :
    let segments = compute_file_segments exact (film ∷ notes ∷ []) 800 in
    (map (λ (s : FileSegment). s.name) segments
      ≡ map (λ (f : TorrentFile). f.path) (film ∷ notes ∷ []))
    × Tiles 0 800 segments
    × Ordered 0 800 segments
    × (get_elem? segments 1
        ≡ some (segment_of exact (film.size + notes.size) 800 film.size notes []))
compute_file_segments-Tiles_example =
    compute_file_segments-Tiles exact (film ∷ []) notes [] 800 (omega arith) (omega arith)

compute_file_segments-tail_example :
    (init : List FileSegment) × (compute_file_segments exact (film ∷ notes ∷ tiny ∷ []) 100
      ≡ init ++ (record { x_start = 100; x_end = 100; name = "tiny.nfo"; size = 1 } ∷ []))
unfolding exact
compute_file_segments-tail_example =
    compute_file_segments-tail exact film (notes ∷ []) tiny 100 (omega arith) (omega arith) refl

has-diff_new_completions_example :
    has (diff_new_completions (some runs) later_runs 6) 5
    ≡ (done_at (expand later_runs) 5 && not (done_at (expand runs) 5 && ltb 5 6))
has-diff_new_completions_example = has-diff_new_completions runs later_runs 6 5 (omega arith)
