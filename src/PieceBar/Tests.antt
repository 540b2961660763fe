-- ===== src/PieceBar/Tests.antt =====
-- The piece bar's theorems at concrete inputs.
use haul.Base.{ℕ, ◌≤◌, ◌≡◌, refl, true, false, some, List, [], ◌∷◌, ◌++◌, length, pos, arith, All}
use haul.Geometry.{complete, partial, TorrentFile, blank_column}
use haul.Geometry.Exact.{exact}
use haul.PieceBar.{PiecesInfo, ArrivalFlash, Bar, Scene, ThemeColors, initial, snapshot, mount}
use haul.PieceBar.Frames.{OnBar, snapshot_lem}
use haul.PieceBar.Loop.{frames, frames-stop}

abbrev pieces : PiecesInfo
pieces = record {
  num_pieces = 4;
  piece_size = 16384;
  runs = record { length = 3; state = complete } ∷ record { length = 1; state = partial } ∷ [];
}

abbrev before : Bar
before = record initial { prev_runs = some (record { length = 4; state = partial } ∷ []) }

abbrev colors : ThemeColors
colors = record {
  downloading = "#3b9eff";
  warning = "#fbbf24";
  bg_subtle = "#2a2a35";
  divider = "#3a3a4a";
  flash = "#d0e8ff";
}

abbrev scene : Scene
scene = record {
  colors = colors;
  width = 2;
  columns = blank_column ∷ blank_column ∷ [];
  segments = [];
  reduced_motion = false;
}

abbrev busy : Scene
busy = record scene { columns = record blank_column { has_partial = true } ∷ [] }

abbrev flash_at : ℕ → ArrivalFlash
flash_at t = record { x = pos 1; start = t }

abbrev film : TorrentFile
film = record { index = 0; path = "film.mkv"; size = 900; priority = "normal"; progress = 0 }

snapshot_example :
    (fresh : List ArrivalFlash) × ((snapshot exact pieces 7 before).flashes
      ≡ before.flashes ++ fresh)
    × (length fresh ≤ 50)
    × All (OnBar 800 7) fresh
    × ((snapshot exact pieces 7 before).prev_runs ≡ some pieces.runs)
    × ((snapshot exact pieces 7 before).width ≡ before.width)
    × ((snapshot exact pieces 7 before).tooltip ≡ before.tooltip)
snapshot_example = snapshot_lem exact pieces 7 before (omega arith) (omega arith)

frames-stop_example :
    ((frames scene (16 ∷ 32 ∷ 500 ∷ []) (mount (flash_at 0 ∷ flash_at 100 ∷ []))).requested ≡ false)
    × ((frames scene (16 ∷ 32 ∷ 500 ∷ []) (mount (flash_at 0 ∷ flash_at 100 ∷ []))).flashes ≡ [])
frames-stop_example =
    frames-stop scene (flash_at 0 ∷ flash_at 100 ∷ []) (16 ∷ 32 ∷ []) 500 refl (omega arith)
