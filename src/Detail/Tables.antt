-- ===== src/Detail/Tables.antt =====
-- What web/ui/src/components/torrent/PeerList.tsx and TrackerList.tsx show: the table of the peers, the
-- rows of the trackers and the form below them.
use haul.Base.{
  ℕ, Bool, false, ◌||◌, ◌==◌, Option, none, some, List, [], ◌∷◌, length, map, String, ◌<>◌,
  show_nat, truthy, if◌then◌else◌,
}
use haul.Formats.{Logarithm, format_speed}
use haul.Detail.Peers.{
  PeerInfo, PeerField, by_download, by_upload, by_progress, PeerSort, SortDir, same_field,
  sort_icon, sorted, rate_colors,
}
use haul.Detail.Trackers.{TrackerInfo, trim, AddForm, is_pending, add_disabled, Row}

-- A header of the table; a click sorts where there is a field.
pub record PeerHeading : Type 0 where
  pub label : String
  pub field : Option PeerField
  pub color : String
  pub icon : Option SortDir

abbrev plain : String → PeerHeading
plain label = record { label = label; field = none; color = "var(--color-text-muted)"; icon = none }

abbrev is_sorted_by : Option PeerSort → PeerField → Bool
is_sorted_by none f = false
is_sorted_by (some s) f = same_field s.field f

unfoldable pub sortable : Option PeerSort → String → PeerField → PeerHeading
sortable sort label f = record {
  label = label;
  field = some f;
  color = if is_sorted_by sort f then "var(--color-accent)" else "var(--color-text-muted)";
  icon = sort_icon sort f;
}

unfoldable pub peer_headings : Option PeerSort → List PeerHeading
unfolding sortable
peer_headings sort =
    plain "Address"
    ∷ plain "Client"
    ∷ plain "Flags"
    ∷ sortable sort "Progress" by_progress
    ∷ sortable sort "↓" by_download
    ∷ sortable sort "↑" by_upload
    ∷ []

pub record PeerRow : Type 0 where
  pub addr : String
  pub client : String
  pub has_lock : Bool
  pub network : String
  pub progress : String
  pub down : String × String
  pub up : String × String

-- `percent` is `Math.round(progress * 100)`; a rate is shown with its color.
unfoldable pub peer_row : Logarithm → (ℕ → ℕ) → PeerInfo → PeerRow
peer_row js percent p = record {
  addr = p.addr;
  client = p.client;
  has_lock = p.encrypted;
  network = p.network;
  progress = show_nat (percent p.progress) <> "%";
  down = (format_speed js p.download_rate, (rate_colors p).0);
  up = (format_speed js p.upload_rate, (rate_colors p).1);
}

-- The text in place of the table, or its headers and rows.
pub data PeerTable : Type 0 where
  no_peers : String → PeerTable
  table : List PeerHeading → List PeerRow → PeerTable

unfoldable pub peer_list : Logarithm → (ℕ → ℕ) → List PeerInfo → Option PeerSort → PeerTable
unfolding peer_headings peer_row
peer_list js percent peers sort =
    if length peers == 0
    then no_peers "No connected peers."
    else table (peer_headings sort) (map (peer_row js percent) (sorted peers sort))

-- A button of a row: its color, whether it is visible, and its title.
pub record IconButton : Type 0 where
  pub visible : Bool
  pub color : String
  pub title : String

pub record TrackerRow : Type 0 where
  pub tier : String
  pub url : String
  pub copy : IconButton
  pub remove : IconButton

unfoldable pub tracker_row : TrackerInfo → Row → TrackerRow
tracker_row t r = record {
  tier = "tier " <> show_nat t.tier;
  url = t.url;
  copy = record {
    visible = r.hovered || r.copied;
    color = if r.copied then "var(--color-success)" else "var(--color-text-muted)";
    title = if r.copied then "Copied!" else "Copy URL";
  };
  remove = record { visible = r.hovered; color = "var(--color-danger)"; title = "Remove tracker" };
}

-- Each tracker with the state of its row.
unfoldable pub tracker_list : List (TrackerInfo × Row) → Option String × List TrackerRow
unfolding tracker_row
tracker_list rows = (
  if length rows == 0 then some "No trackers configured (DHT / PEX only)." else none,
  map (λ (tr : TrackerInfo × Row). tracker_row tr.0 tr.1) rows,
)

-- The form: the button that opens it, or its text and the button that adds.
pub data FormView : Type 0 where
  opener : String → FormView
  form : (text : String) (label : String) (disabled : Bool) (background : String) → FormView

unfoldable pub form_view : AddForm → FormView
form_view f =
    if f.is_open
    then form f.text (if is_pending f then "Adding…" else "Add") (add_disabled f)
        (if truthy (trim f.text) then "var(--color-accent)" else "var(--color-bg-subtle)")
    else opener "Add tracker"
