-- ===== src/Detail/Peers.antt =====
-- web/ui/src/components/torrent/PeerList.tsx and PeerInfo of web/ui/src/api/torrents.ts: the sorted
-- table of peers. A progress is a number of equal parts.
use haul.Base.{
  ℕ, ◌+◌, ◌*◌, Bool, true, false, Option, none, some, List, String, ltb, ℤ, sub_ℕ, if◌then◌else◌,
}
use haul.Dashboard.{sort_by}

pub record PeerInfo : Type 0 where
  pub addr : String
  pub client : String
  pub network : String
  pub encrypted : Bool
  pub progress : ℕ
  pub download_rate : ℕ
  pub upload_rate : ℕ
  pub downloaded : ℕ
  pub uploaded : ℕ

pub data PeerField : Type 0 where
  by_download by_upload by_progress : PeerField

pub data SortDir : Type 0 where
  ascending descending : SortDir

pub record PeerSort : Type 0 where
  pub field : PeerField
  pub dir : SortDir

abbrev pub initial_sort : Option PeerSort
initial_sort = some (record { field = by_download; dir = descending })

-- `a[sort.field]`
unfoldable pub field_of : PeerField → PeerInfo → ℕ
field_of by_download p = p.download_rate
field_of by_upload p = p.upload_rate
field_of by_progress p = p.progress

unfoldable pub compare_peers : PeerSort → PeerInfo → PeerInfo → ℤ
compare_peers s a b = elim s.dir [
  | descending ↦ sub_ℕ (field_of s.field b) (field_of s.field a)
  | ascending ↦ sub_ℕ (field_of s.field a) (field_of s.field b)
]

unfoldable pub sorted : List PeerInfo → Option PeerSort → List PeerInfo
sorted peers none = peers
sorted peers (some s) = sort_by (compare_peers s) peers

unfoldable pub same_field : PeerField → PeerField → Bool
same_field by_download by_download = true
same_field by_upload by_upload = true
same_field by_progress by_progress = true
same_field _ _ = false

-- One click on a header from the state of that header's own sort.
unfoldable pub next_dir : PeerField → SortDir → Option PeerSort
next_dir f descending = some (record { field = f; dir = ascending })
next_dir f ascending = none

unfoldable pub toggle_sort : PeerField → Option PeerSort → Option PeerSort
toggle_sort f none = some (record { field = f; dir = descending })
toggle_sort f (some s) =
    if same_field s.field f then next_dir f s.dir else some (record { field = f; dir = descending })

-- `sortIcon`: the arrow of a header.
unfoldable pub sort_icon : Option PeerSort → PeerField → Option SortDir
sort_icon none f = none
sort_icon (some s) f = if same_field s.field f then some s.dir else none

abbrev pub max_visible_rows : ℕ
max_visible_rows = 20

abbrev pub row_height_px : ℕ
row_height_px = 34

abbrev pub header_height_px : ℕ
header_height_px = 28

abbrev pub max_height : ℕ
max_height = max_visible_rows * row_height_px + header_height_px

-- The colors of the two rates of a row.
unfoldable pub rate_colors : PeerInfo → String × String
rate_colors p = (
  if ltb 0 p.download_rate then "var(--color-status-downloading)" else "var(--color-text-muted)",
  if ltb 0 p.upload_rate then "var(--color-success)" else "var(--color-text-muted)",
)
