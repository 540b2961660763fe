-- ===== src/Logs.antt =====
-- web/ui/src/shared/LogViewer.tsx: the requests of the log panel and what it does with replies.
-- `toUpperCase` is the parameter.
use haul.Base.{
  ℕ, Bool, true, false, Option, none, some, List, [], ◌∷◌, ◌++◌, length, keep, if◌then◌else◌,
  String, str_eq, truthy, ◌||◌, ℤ, pos, negsuc, leb_ℤ,
}
mod Live
mod View
mod Tail
mod Laws
mod Tests

pub data LogLevel : Type 0 where
  debug info warn error : LogLevel

abbrev pub level_name : LogLevel → String
level_name debug = "debug"
level_name info = "info"
level_name warn = "warn"
level_name error = "error"

-- The values of `fields` are their JSON texts.
pub record LogEntry : Type 0 where
  pub time : String
  pub level : String
  pub message : String
  pub fields : Option (List (String × String))

pub data Source : Type 0 where
  buffer docker : Source

-- `level_filter` is none for "all".
pub record LogViewer : Type 0 where
  pub debounced_search : String
  pub level_filter : Option LogLevel
  pub source : Source
  pub entries : List LogEntry
  pub total : ℕ
  pub loading : Bool
  pub failure : Option String
  pub docker_reason : Option String

pub record LogRequest : Type 0 where
  pub path : String
  pub params : List (String × String)

abbrev search_param : String → List (String × String)
search_param q = if truthy q then ("q", q) ∷ [] else []

unfoldable pub log_request : LogViewer → LogRequest
log_request v = elim v.source [
  | buffer ↦ record {
    path = "/system/logs";
    params =
        elim v.level_filter [ none ↦ [] | some l ↦ ("level", level_name l) ∷ [] ]
        ++ (search_param v.debounced_search ++ (("limit", "500") ∷ []));
  }
  | docker ↦ record {
    path = "/system/logs/docker";
    params = search_param v.debounced_search ++ (("tail", "500") ∷ []);
  }
]

-- `setLoading(true); setError(null);`
unfoldable pub start_fetch : LogViewer → LogViewer
start_fetch v = record v { loading = true; failure = none }

pub data Reply : Type 0 where
  buffer_logs : Option (List LogEntry) → ℕ → Reply
  docker_logs : Bool → Option (List LogEntry) → Option String → Reply
  failed : String → Reply

abbrev pub or_empty : Option (List LogEntry) → List LogEntry
or_empty none = []
or_empty (some es) = es

abbrev pub or_reason : Option String → String
or_reason none = "Docker stdout not available."
or_reason (some r) = r

module _ (upper : String → String) where
  unfoldable pub level_ordinal : String → ℤ
  level_ordinal level =
      let l = upper level in
      if str_eq l "DEBUG"
      then negsuc 3
      else if str_eq l "INFO"
      then pos 0
      else if str_eq l "WARN" || str_eq l "WARNING"
      then pos 4
      else if str_eq l "ERROR" || str_eq l "ERR"
      then pos 8
      else negsuc 99

  -- The filter of Docker's entries at the level that was chosen when the request was made.
  unfoldable pub docker_entries : Option LogLevel → List LogEntry → List LogEntry
  unfolding level_ordinal
  docker_entries none es = es
  docker_entries (some l) es =
      keep (λ (e : LogEntry). leb_ℤ (level_ordinal (level_name l)) (level_ordinal e.level)) es

  unfoldable pub receive : Option LogLevel → Reply → LogViewer → LogViewer
  unfolding docker_entries
  receive chosen (buffer_logs es total) v = record v {
    entries = or_empty es;
    total = total;
    docker_reason = none;
  }
  receive chosen (docker_logs false es reason) v = record v {
    entries = [];
    total = 0;
    docker_reason = some (or_reason reason);
  }
  receive chosen (docker_logs true es reason) v =
      let filtered = docker_entries chosen (or_empty es) in
      record v { entries = filtered; total = length filtered; docker_reason = none }
  receive chosen (failed message) v = record v { failure = some message }

  -- The rest of `fetchLogs`, once the reply is there, with its `finally`.
  unfoldable pub finish_fetch : Option LogLevel → Reply → LogViewer → LogViewer
  unfolding receive
  finish_fetch chosen reply v = record (receive chosen reply v) { loading = false }
