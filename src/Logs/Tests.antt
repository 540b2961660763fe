-- ===== src/Logs/Tests.antt =====
-- The log panel at a few entries.
use haul.Base.{◌≡◌, refl, true, none, some, List, [], ◌∷◌, length, String, str_eq, if◌then◌else◌}
use haul.Logs.{
  LogEntry, LogViewer, docker, warn, docker_logs, level_ordinal, docker_entries, log_request,
}
use haul.Logs.Live.{
  PanelEvent, type_search, debounced, toggle_tail, pick_source, tick, replied, mount, run_panel,
}
use haul.Logs.Tail.{IsTailing, run_panel-mount}

abbrev upper : String → String
upper s = if str_eq s "warn" then "WARN" else if str_eq s "error" then "ERROR" else s

abbrev viewer : LogViewer
viewer = record {
  debounced_search = "peer";
  level_filter = some warn;
  source = docker;
  entries = [];
  total = 0;
  loading = true;
  failure = none;
  docker_reason = none;
}

abbrev entry : String → String → LogEntry
entry level message = record {
  time = "2025-01-02T00:00:00Z";
  level = level;
  message = message;
  fields = none;
}

abbrev lines : List LogEntry
lines = entry "INFO" "up" ∷ entry "WARN" "slow" ∷ entry "ERR" "down" ∷ entry "TRACE" "odd" ∷ []

request-docker :
    log_request viewer
    ≡ record { path = "/system/logs/docker"; params = ("q", "peer") ∷ ("tail", "500") ∷ [] }
unfolding log_request
request-docker = refl

shown-warn : length (docker_entries upper (some warn) lines) ≡ 2
unfolding docker_entries level_ordinal
shown-warn = refl

abbrev session : List PanelEvent
session =
    type_search "peer"
    ∷ debounced
    ∷ tick
    ∷ toggle_tail
    ∷ pick_source docker
    ∷ replied 0 (docker_logs true none none)
    ∷ toggle_tail
    ∷ []

run_panel-mount_example : IsTailing (run_panel (λ s. s) upper mount session)
run_panel-mount_example = run_panel-mount (λ s. s) upper session
