-- ===== src/Logs/View.antt =====
-- What web/ui/src/shared/LogViewer.tsx shows: the menus and buttons, the status line and the rows.
use haul.Base.{
  ℕ, Bool, true, false, not, ◌&&◌, ◌==◌, Option, none, some, List, [], ◌∷◌, length, String, ◌<>◌,
  show_nat, truthy, if◌then◌else◌,
}
use haul.Logs.{level_name, LogEntry, LogViewer}
use haul.Logs.Live.{Panel, level_value, source_value, level_color}

-- The options of the three menus: the value and the text.
abbrev pub level_options : List (String × String)
level_options =
    ("all", "All levels")
    ∷ ("debug", "Debug+")
    ∷ ("info", "Info+")
    ∷ ("warn", "Warn+")
    ∷ ("error", "Error only")
    ∷ []

abbrev pub source_options : List (String × String)
source_options =
    ("buffer", "In-memory (this session)") ∷ ("docker", "Docker stdout (full history)") ∷ []

abbrev pub runtime_options : List (String × String)
runtime_options = ("debug", "debug") ∷ ("info", "info") ∷ ("warn", "warn") ∷ ("error", "error") ∷ []

-- A menu with the value that is chosen.
pub record Menu : Type 0 where
  pub value : String
  pub options : List (String × String)

-- The button of the live tail; `seconds` is the text of the interval in seconds.
pub record TailButton : Type 0 where
  pub label : String
  pub color : String
  pub title : String

unfoldable pub tail_button : String → Bool → TailButton
tail_button seconds true = record {
  label = "Live";
  color = "var(--color-accent)";
  title = "Pausing pulls polling. Currently every " <> seconds <> "s.";
}
tail_button seconds false = record {
  label = "Paused";
  color = "var(--color-text-secondary)";
  title = "Resume live tail";
}

pub record Toolbar : Type 0 where
  pub search : String
  pub level : Menu
  pub source : Menu
  pub runtime : Menu
  pub tail : TailButton
  pub refresh_disabled : Bool

unfoldable pub toolbar : String → Panel → Toolbar
toolbar seconds p = record {
  search = p.search_input;
  level = record { value = level_value p.viewer.level_filter; options = level_options };
  source = record { value = source_value p.viewer.source; options = source_options };
  runtime = record { value = level_name p.runtime_level; options = runtime_options };
  tail = tail_button seconds p.live_tail;
  refresh_disabled = p.viewer.loading;
}

-- A text that is empty is not shown.
abbrev shown : Option String → Option String
shown none = none
shown (some s) = if truthy s then some s else none

-- The line below the controls: the count, the error, and why there are no logs of Docker. `locale` is
-- `toLocaleString`.
pub record StatusLine : Type 0 where
  pub count : String
  pub failure : Option String
  pub docker_reason : Option String

unfoldable pub status_line : (ℕ → String) → String → LogViewer → StatusLine
status_line locale service_name v = record {
  count =
      if length v.entries == 0
      then "No " <> service_name <> " log entries match the filter."
      else show_nat (length v.entries) <> " of " <> locale v.total <> " entries";
  failure = shown v.failure;
  docker_reason = shown v.docker_reason;
}

-- What stands in place of the rows.
unfoldable pub empty_text : String → LogViewer → Option String
empty_text service_name v =
    if length v.entries == 0 && not v.loading
    then some (elim (shown v.docker_reason) [
      | none ↦ "No " <> service_name <> " log entries match the current filter."
      | some reason ↦ "Switch source back to In-memory to see the ring buffer."
    ])
    else none

-- A row: it opens where the entry has fields.
abbrev pub has_payload : LogEntry → Bool
has_payload e = elim e.fields [ none ↦ false | some fs ↦ not (length fs == 0) ]

unfoldable pub on_row_click : LogEntry → Bool → Bool
on_row_click e open_row = if has_payload e then not open_row else open_row

pub data Chevron : Type 0 where
  down right blank : Chevron

pub record LogRow : Type 0 where
  pub chevron : Chevron
  pub time : String
  pub color : String
  pub level : String
  pub message : String
  pub payload : Option String

-- `format_time` is `formatTime`, and `stringify` is `JSON.stringify` with two spaces.
unfoldable pub log_row :
    (String → String)
    → (String → String)
    → (List (String × String) → String)
    → LogEntry
    → Bool
    → LogRow
log_row upper format_time stringify e open_row = record {
  chevron = if has_payload e then (if open_row then down else right) else blank;
  time = format_time e.time;
  color = level_color upper e.level;
  level = e.level;
  message = e.message;
  payload =
      if open_row && has_payload e
      then elim e.fields [ none ↦ none | some fs ↦ some (stringify fs) ]
      else none;
}
