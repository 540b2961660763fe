-- ===== src/App.antt =====
-- web/ui/src/App.tsx: the pages and their routes, with the links that the pages and the sidebar show.
-- The matching of paths is that of react-router, a parameter.
use haul.Base.{
  ℕ, ◌≡◌, Bool, true, false, not, ◌&&◌, ◌==◌, List, [], ◌∷◌, ◌++◌, map, All, String, ◌<>◌, truthy,
}
use Prim.Native.Char.{Char, code}
use haul.Shell.{NavItem, nav}
mod Links
mod Tests

-- A part of a route's path: a text, or a parameter such as `:hash`.
pub data Segment : Type 0 where
  fixed param : String → Segment

pub data Page : Type 0 where
  torrent_list torrent_detail activity activity_detail categories media_management settings : Page
  diagnostics cleanup_history logs : Page

-- The `path` of each `<Route>`; that of the index route is empty.
abbrev pub route : Page → List Segment
route torrent_list = []
route torrent_detail = fixed "torrents" ∷ param "hash" ∷ []
route activity = fixed "activity" ∷ []
route activity_detail = fixed "activity" ∷ param "hash" ∷ []
route categories = fixed "categories" ∷ []
route media_management = fixed "media-management" ∷ []
route settings = fixed "settings" ∷ []
route diagnostics = fixed "system" ∷ fixed "diagnostics" ∷ []
route cleanup_history = fixed "system" ∷ fixed "cleanup-history" ∷ []
route logs = fixed "system" ∷ fixed "logs" ∷ []

abbrev pub slash_free : String → Bool
slash_free String.[] = true
slash_free (String.◌∷◌ c s) = let rest = slash_free s in not (code c == b'/') && rest

-- The address that a route has for the values of its parameters.
abbrev pub segment_text : (String → String) → Segment → String
segment_text values (fixed s) = s
segment_text values (param name) = values name

abbrev pub address : (String → String) → List Segment → String
address values [] = "/"
address values (s ∷ []) = "/" <> segment_text values s
address values (s ∷ t ∷ path) = "/" <> (segment_text values s <> address values (t ∷ path))

-- react-router gives an address to a route that it fits: a parameter takes a text without a slash that
-- is not empty.
pub record Router : Type 0 where
  pub matches : List Segment → String → Bool
  pub matches-address :
      (values : String → String) (path : List Segment)
      → All (λ s. truthy (segment_text values s) && slash_free (segment_text values s) ≡ true) path
      → matches path (address values path) ≡ true

-- The links, each with the page that it is meant for. The sidebar has one for each entry of `nav`.
abbrev pub sidebar_pages : List Page
sidebar_pages =
    torrent_list ∷ activity ∷ categories ∷ media_management ∷ diagnostics ∷ logs ∷ settings ∷ []

-- The name of a torrent in the list, and the link of an activity record to the live torrent.
abbrev pub torrent_link : String → String
torrent_link hash = "/torrents/" <> hash

-- A row of the activity page.
abbrev pub activity_link : String → String
activity_link hash = "/activity/" <> hash

-- Back to the list from the detail page, and where its deletion leads.
abbrev pub torrents_link : String
torrents_link = "/"

-- Back from an activity record.
abbrev pub activities_link : String
activities_link = "/activity"

-- The header of the diagnostics page, and back from the cleanup history.
abbrev pub logs_link : String
logs_link = "/system/logs"

abbrev pub cleanup_history_link : String
cleanup_history_link = "/system/cleanup-history"

abbrev pub diagnostics_link : String
diagnostics_link = "/system/diagnostics"

abbrev zip_links : List NavItem → List Page → List (String × Page)
zip_links (item ∷ items) (page ∷ pages) = (item.to, page) ∷ zip_links items pages
zip_links _ _ = []

abbrev pub page_links : String → List (String × Page)
page_links hash =
    (torrent_link hash, torrent_detail)
    ∷ (activity_link hash, activity_detail)
    ∷ (torrents_link, torrent_list)
    ∷ (activities_link, activity)
    ∷ (logs_link, logs)
    ∷ (cleanup_history_link, cleanup_history)
    ∷ (diagnostics_link, diagnostics)
    ∷ []

unfoldable pub links : String → List (String × Page)
links hash = zip_links nav sidebar_pages ++ page_links hash
