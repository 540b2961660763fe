-- ===== src/Timeline/View.antt =====
-- What web/ui/src/pages/activity/ActivityDetailPage.tsx shows: the header, the link to the live torrent,
-- the card of the requester and the events.
use haul.Base.{Bool, Option, none, some, List, [], map, String, ◌<>◌}
use haul.Torrents.{TorrentInfo}
use haul.Formats.{Logarithm, format_bytes}
use haul.Timeline.{
  Value, ActivityEvent, HistoryRecord, header_name, header_size, shown_size, event_display,
  payload_entries, format_payload_value, shown_rows, Urls, Badge, requester_badge, Body, body,
}

-- A line of the header behind the hash.
pub record Header : Type 0 where
  pub name : String
  pub hash : String
  pub size : Option String
  pub status : Option String

pub record EventRow : Type 0 where
  pub label : String
  pub color : String
  pub date : String
  pub entries : List (String × String)

pub record DetailView : Type 0 where
  pub header : Header
  pub live_link : Option String
  pub badge : Option Badge
  pub rows : List (String × Option String)
  pub body : Body
  pub events : List EventRow

abbrev live_status : Option TorrentInfo → Option String
live_status live = elim live [ none ↦ none | some t ↦ some ("· Status: " <> t.status) ]

unfoldable pub header :
    Logarithm → String → Option TorrentInfo → Option HistoryRecord → List ActivityEvent → Header
header js hash live history events = record {
  name = header_name hash live history events;
  hash = hash;
  size = elim (shown_size (header_size live events)) [
    | none ↦ none
    | some n ↦ some ("· " <> format_bytes js n)
  ];
  status = live_status live;
}

-- `format_date` is `formatDate` with the time.
unfoldable pub event_row : (String → String) → ActivityEvent → EventRow
event_row format_date e = record {
  label = (event_display e.event_type).label;
  color = (event_display e.event_type).color;
  date = format_date e.occurred_at;
  entries = map (λ (kv : String × Value). (kv.0, format_payload_value kv.1)) (payload_entries e);
}

-- `{live && <Link ...>}`
unfoldable pub live_link : String → Option TorrentInfo → Option String
live_link hash none = none
live_link hash (some t) = some ("/torrents/" <> hash)

abbrev or_none : Option (List ActivityEvent) → List ActivityEvent
or_none none = []
or_none (some es) = es

module _ (urls : Urls) (page_host : String) where
  -- `{history?.requester && ...}`
  abbrev badge_of : Option (List (String × String)) → Option HistoryRecord → Option Badge
  badge_of peers none = none
  badge_of peers (some h) = requester_badge urls page_host peers h

  unfoldable pub detail_view :
      Logarithm
      → (String → String)
      → String
      → Option TorrentInfo
      → Option HistoryRecord
      → Option (List (String × String))
      → Bool
      → Option (List ActivityEvent)
      → DetailView
  unfolding header event_row live_link
  detail_view js format_date hash live history peers loading fetched =
      let events = or_none fetched in
      record {
        header = header js hash live history events;
        live_link = live_link hash live;
        badge = badge_of peers history;
        rows = shown_rows hash live history;
        body = body loading events;
        events = map (event_row format_date) events;
      }
