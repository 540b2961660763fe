-- ===== src/Timeline.antt =====
-- web/ui/src/pages/activity/ActivityDetailPage.tsx: the page of one torrent's events, with its
-- history. The live torrent, the record of the history and the events may each be missing.
use Prim.Native.Char.{Char, code}
use haul.Base.{
  ℕ, ◌+◌, ◌≡◌, Bool, true, false, not, ◌&&◌, ◌||◌, ◌==◌, ltb, Option, none, some, List, [], ◌∷◌,
  ◌++◌, keep, any, map, String, ◌<>◌, truthy, truthy?, str_eq, show_nat, first_chars, if◌then◌else◌,
}
use haul.Torrents.{TorrentInfo}
mod Laws
mod View
mod Tests

-- A value of a payload; `other` holds its `JSON.stringify`.
pub data Value : Type 0 where
  text : String → Value
  number : ℕ → Value
  boolean : Bool → Value
  null : Value
  other : String → Value

pub data Payload : Type 0 where
  entries : List (String × Value) → Payload
  raw : String → Payload

pub record ActivityEvent : Type 0 where
  pub id : ℕ
  pub info_hash : String
  pub event_type : String
  pub occurred_at : String
  pub payload : Option Payload

pub record HistoryRecord : Type 0 where
  pub info_hash : String
  pub name : String
  pub save_path : String
  pub category : String
  pub added_at : String
  pub completed_at : Option String
  pub removed_at : Option String
  pub requester : Option String
  pub movie_id : Option String
  pub series_id : Option String
  pub episode_id : Option String
  pub tmdb_id : Option ℕ
  pub season : Option ℕ
  pub episode : Option ℕ

abbrev pub value_of : String → List (String × Value) → Option Value
value_of key [] = none
value_of key ((k, v) ∷ es) = if str_eq k key then some v else value_of key es

-- The value of a key in an event's payload; a payload that is a text has none.
unfoldable pub payload_value : String → ActivityEvent → Option Value
payload_value key e = elim e.payload [
  | none ↦ none
  | some p ↦ elim p [ entries es ↦ value_of key es | raw s ↦ none ]
]

-- `typeof n === "string" && n`
abbrev pub name_value : Option Value → Option String
name_value (some (text s)) = if truthy s then some s else none
name_value _ = none

abbrev pub size_value : Option Value → Option ℕ
size_value (some (number n)) = some n
size_value _ = none

abbrev pub first_some {ℓ ℓ'} : {A : Type ℓ} {B : Type ℓ'} → (A → Option B) → List A → Option B
first_some f [] = none
first_some f (x ∷ xs) = elim (f x) [ none ↦ first_some f xs | some y ↦ some y ]

unfoldable pub name_from_events : List ActivityEvent → Option String
unfolding payload_value
name_from_events events = first_some (λ e. name_value (payload_value "name" e)) events

unfoldable pub size_from_events : List ActivityEvent → Option ℕ
unfolding payload_value
size_from_events events = first_some (λ e. size_value (payload_value "size" e)) events

-- `a || b` where a is an optional text.
abbrev pub or_else : Option String → String → String
or_else none s = s
or_else (some t) s = if truthy t then t else s

-- `history?.field` and `live?.field`
abbrev pub field_of {ℓ} : {A : Type ℓ} → (A → String) → Option A → Option String
field_of field none = none
field_of field (some a) = some (field a)

unfoldable pub header_name :
    String → Option TorrentInfo → Option HistoryRecord → List ActivityEvent → String
header_name hash live history events = or_else (field_of (λ t. t.name) live) (
    or_else (field_of (λ h. h.name) history)
      (or_else (name_from_events events) (first_chars 12 hash)))

unfoldable pub header_size : Option TorrentInfo → List ActivityEvent → Option ℕ
header_size none events = size_from_events events
header_size (some t) events = some t.size

-- A size of 0 is not shown.
unfoldable pub shown_size : Option ℕ → Option ℕ
shown_size none = none
shown_size (some n) = if ltb 0 n then some n else none

pub record Display : Type 0 where
  pub label : String
  pub color : String

unfoldable pub event_display : String → Display
event_display t =
    if str_eq t "torrent_added"
    then record { label = "Added"; color = "var(--color-accent)" }
    else if str_eq t "torrent_completed"
    then record { label = "Completed"; color = "var(--color-success)" }
    else if str_eq t "torrent_removed"
    then record { label = "Removed"; color = "var(--color-text-muted)" }
    else if str_eq t "torrent_stalled"
    then record { label = "Stalled"; color = "var(--color-warning)" }
    else if str_eq t "torrent_state_changed"
    then record { label = "State changed"; color = "var(--color-text-secondary)" }
    else record { label = t; color = "var(--color-text-secondary)" }

unfoldable pub payload_entries : ActivityEvent → List (String × Value)
payload_entries e = elim e.payload [
  | none ↦ []
  | some p ↦ elim p [ entries es ↦ keep (λ kv. not (str_eq kv.0 "name")) es | raw s ↦ [] ]
]

unfoldable pub format_payload_value : Value → String
format_payload_value (text s) = s
format_payload_value (number n) = show_nat n
format_payload_value (boolean true) = "true"
format_payload_value (boolean false) = "false"
format_payload_value null = "—"
format_payload_value (other json) = json

-- `history?.save_path ?? live?.save_path`
abbrev pub prefer {ℓ} : {A : Type ℓ} → Option A → Option A → Option A
prefer none b = b
prefer (some a) b = some a

abbrev pub optional_row : String → Option String → List (String × Option String)
optional_row name v = if truthy? v then (name, v) ∷ [] else []

-- The rows of `RequesterCard`; only those with a text are shown.
unfoldable pub rows :
    String → Option TorrentInfo → Option HistoryRecord → List (String × Option String)
rows hash live history =
    ("Info hash", some hash)
    ∷ ("Save path", prefer (field_of (λ h. h.save_path) history) (field_of (λ t. t.save_path) live))
    ∷ ("Category", prefer (field_of (λ h. h.category) history) (field_of (λ t. t.category) live))
    ∷ elim history [
      | none ↦ []
      | some h ↦
          optional_row "Added" (some h.added_at)
          ++ (optional_row "Completed" h.completed_at ++ optional_row "Removed" h.removed_at)
    ]

unfoldable pub shown_rows :
    String → Option TorrentInfo → Option HistoryRecord → List (String × Option String)
unfolding rows
shown_rows hash live history = keep (λ r. truthy? r.1) (rows hash live history)

-- What the code uses of `URL`: assigning a host name that is one gives the URL with it.
pub record Urls : Type 1 where
  pub Url : Type 0
  pub parse : String → Option Url
  pub hostname : Url → String
  pub with_hostname : String → Url → Url
  pub to_text : Url → String
  pub is_hostname : String → Bool
  pub hostname-with_hostname :
      (h : String) (u : Url) → is_hostname h ≡ true → hostname (with_hostname h u) ≡ h

unfoldable pub has_dot : String → Bool
has_dot String.[] = false
has_dot (String.◌∷◌ c s) = code c == 46 || has_dot s

unfoldable pub looks_browser_resolvable : String → Bool
looks_browser_resolvable host = str_eq host "localhost" || has_dot host

-- `.replace(/\/$/, "")`
unfoldable pub strip_slash : String → String
strip_slash String.[] = ""
strip_slash (String.◌∷◌ c s) =
    let rest = strip_slash s in if code c == 47 && str_eq s "" then "" else String.◌∷◌ c rest

abbrev pub digits_2 : ℕ → String
digits_2 n = if ltb n 10 then "0" <> show_nat n else show_nat n

abbrev pub truthy_number : Option ℕ → Bool
truthy_number none = false
truthy_number (some n) = ltb 0 n

abbrev pub number_or_0 : Option ℕ → ℕ
number_or_0 none = 0
number_or_0 (some n) = n

abbrev pub text_or_empty : Option String → String
text_or_empty none = ""
text_or_empty (some s) = s

-- A note of the badge, where its field is set.
abbrev pub id_note : String → Option String → List String
id_note label v =
    if truthy? v then ("· " <> label <> " " <> first_chars 8 (text_or_empty v)) ∷ [] else []

unfoldable pub notes : HistoryRecord → List String
notes h =
    (if truthy_number h.tmdb_id then ("· TMDB " <> show_nat (number_or_0 h.tmdb_id)) ∷ [] else [])
    ++ ((if truthy_number h.season
          then ("· S"
              <> digits_2 (number_or_0 h.season)
              <> (if truthy_number h.episode then "E" <> digits_2 (number_or_0 h.episode) else ""))
            ∷ []
          else [])
        ++ (id_note "Series" h.series_id
            ++ (id_note "Movie" h.movie_id ++ id_note "Episode" h.episode_id)))

unfoldable pub badge_label : String → String
badge_label requester =
    if str_eq requester "pilot"
    then "Open in Pilot"
    else if str_eq requester "prism"
    then "Open in Prism"
    else "Open in " <> requester

-- `peers?.[h.requester]`
abbrev pub service : String → Option (List (String × String)) → Option String
service name none = none
service name (some []) = none
service name (some ((k, v) ∷ ps)) = if str_eq k name then some v else service name (some ps)

-- The link of the badge, from a base URL.
unfoldable pub deep_link : Option String → HistoryRecord → Option String
deep_link base h =
    let requester = text_or_empty h.requester in
    let series = text_or_empty base <> "/series/" <> text_or_empty h.series_id in
    if truthy? base && str_eq requester "pilot" && truthy? h.series_id
    then (if truthy? h.episode_id
        then some (series <> "/episodes/" <> text_or_empty h.episode_id)
        else some series)
    else if truthy? base && str_eq requester "prism" && truthy? h.movie_id
    then some (text_or_empty base <> "/movies/" <> text_or_empty h.movie_id)
    else none

pub record Badge : Type 0 where
  pub label : String
  pub link : Option String
  pub notes : List String

module _ (js : Urls) (page_hostname : String) where
  abbrev pub reachable : Option js.Url → Option String
  reachable none = none
  reachable (some parsed) =
      if looks_browser_resolvable (js.hostname parsed)
      then some (strip_slash (js.to_text parsed))
      else some (strip_slash (js.to_text (js.with_hostname page_hostname parsed)))

  unfoldable pub browser_reachable_url : Option String → Option String
  browser_reachable_url none = none
  browser_reachable_url (some url) = if truthy url then reachable (js.parse url) else none

  -- `RequesterBadge`, which `RequesterCard` shows for a record with a requester.
  unfoldable pub requester_badge : Option (List (String × String)) → HistoryRecord → Option Badge
  unfolding browser_reachable_url deep_link
  requester_badge peers h =
      let name = text_or_empty h.requester in
      let base = if truthy name then browser_reachable_url (service name peers) else none in
      if truthy name
      then some (record { label = badge_label name; link = deep_link base h; notes = notes h })
      else none

-- The body of the timeline.
pub data Body : Type 0 where
  loading no_events : Body
  listed : Body

unfoldable pub body : Bool → List ActivityEvent → Body
body true [] = loading
body false [] = no_events
body is_loading (e ∷ es) = listed
