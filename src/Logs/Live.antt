-- ===== src/Logs/Live.antt =====
-- web/ui/src/shared/LogViewer.tsx: the panel as it lives: the search that is typed, the live tail with
-- its interval, the requests under way, and the runtime level.
use haul.Base.{
  ℕ, zero, suc, Bool, true, false, not, ◌&&◌, ◌||◌, Option, none, some, List, [], ◌∷◌, ◌++◌,
  get_elem?, String, str_eq, if◌then◌else◌,
}
use haul.Logs.{
  LogLevel, info, Source, buffer, docker, LogViewer, LogRequest, log_request, start_fetch, Reply,
  finish_fetch, level_name,
}

-- What the closure of `fetchLogs` of a render holds.
pub record Chosen : Type 0 where
  pub q : String
  pub level : Option LogLevel
  pub source : Source

abbrev pub chosen_of : LogViewer → Chosen
chosen_of v = record { q = v.debounced_search; level = v.level_filter; source = v.source }

pub record Panel : Type 0 where
  pub viewer : LogViewer
  pub search_input : String
  pub runtime_level : LogLevel
  pub live_tail : Bool
  -- the interval, by the closure that it calls
  pub interval : Option Chosen
  pub in_flight : List Chosen

-- The value of the level menu.
abbrev pub level_value : Option LogLevel → String
level_value none = "all"
level_value (some l) = level_name l

abbrev pub source_value : Source → String
source_value buffer = "buffer"
source_value docker = "docker"

unfoldable pub same_chosen : Chosen → Chosen → Bool
same_chosen a b =
    str_eq a.q b.q
    && str_eq (level_value a.level) (level_value b.level)
    && str_eq (source_value a.source) (source_value b.source)

unfoldable pub fetch_logs : Chosen → Panel → Panel
fetch_logs c p = record p { viewer = start_fetch p.viewer; in_flight = p.in_flight ++ (c ∷ []) }

-- The request of a closure.
unfoldable pub request_of : Panel → Chosen → LogRequest
request_of p c =
    log_request
      (record p.viewer { debounced_search = c.q; level_filter = c.level; source = c.source })

abbrev pub interval_of : Panel → Option Chosen
interval_of p = if p.live_tail then some (chosen_of p.viewer) else none

-- The effect on the filters, and the one on the live tail and the filters.
unfoldable pub effects : Panel → Panel → Panel
unfolding fetch_logs
effects old p =
    let filters_changed = not (same_chosen (chosen_of old.viewer) (chosen_of p.viewer)) in
    let tail_changed = (old.live_tail && not p.live_tail) || (not old.live_tail && p.live_tail) in
    let fetched = if filters_changed then fetch_logs (chosen_of p.viewer) p else p in
    if filters_changed || tail_changed then record fetched { interval = interval_of p } else fetched

-- The panel after its first render, which fetches.
unfoldable pub mount : Panel
unfolding fetch_logs
mount =
    let v : LogViewer = record {
      debounced_search = "";
      level_filter = none;
      source = buffer;
      entries = [];
      total = 0;
      loading = false;
      failure = none;
      docker_reason = none;
    } in
    fetch_logs (chosen_of v) (record {
      viewer = v;
      search_input = "";
      runtime_level = info;
      live_tail = true;
      interval = some (chosen_of v);
      in_flight = [];
    })

pub data PanelEvent : Type 0 where
  type_search : String → PanelEvent
  -- the end of the 250 ms after the last key
  debounced : PanelEvent
  pick_level : Option LogLevel → PanelEvent
  pick_source : Source → PanelEvent
  toggle_tail : PanelEvent
  -- the interval, and the button
  tick refresh : PanelEvent
  -- the reply to one of the requests under way
  replied : ℕ → Reply → PanelEvent
  -- the reply to the request of the runtime level, and to its change
  runtime : Option LogLevel → PanelEvent
  runtime_set : LogLevel → PanelEvent
  runtime_failed : String → PanelEvent

unfoldable pub without_nth : ℕ → List Chosen → List Chosen
without_nth n [] = []
without_nth zero (c ∷ cs) = cs
without_nth (suc n) (c ∷ cs) = c ∷ without_nth n cs

module _ (trim : String → String) (upper : String → String) where
  unfoldable pub receive_reply : ℕ → Option Chosen → Reply → Panel → Panel
  receive_reply i none r p = p
  receive_reply i (some c) r p = record p {
    viewer = finish_fetch upper c.level r p.viewer;
    in_flight = without_nth i p.in_flight;
  }

  unfoldable pub on_interval : Option Chosen → Panel → Panel
  unfolding fetch_logs
  on_interval none p = p
  on_interval (some c) p = fetch_logs c p

  unfoldable pub handle : Panel → PanelEvent → Panel
  unfolding receive_reply on_interval fetch_logs
  handle p (type_search s) = record p { search_input = s }
  handle p debounced = record p {
    viewer = record p.viewer { debounced_search = trim p.search_input };
  }
  handle p (pick_level l) = record p { viewer = record p.viewer { level_filter = l } }
  handle p (pick_source s) = record p { viewer = record p.viewer { source = s } }
  handle p toggle_tail = record p { live_tail = not p.live_tail }
  handle p tick = on_interval p.interval p
  handle p refresh = if p.viewer.loading then p else fetch_logs (chosen_of p.viewer) p
  handle p (replied i r) = receive_reply i (get_elem? p.in_flight i) r p
  handle p (runtime none) = p
  handle p (runtime (some l)) = record p { runtime_level = l }
  handle p (runtime_set l) = record p { runtime_level = l }
  handle p (runtime_failed message) = record p {
    viewer = record p.viewer { failure = some message };
  }

  unfoldable pub on_panel : Panel → PanelEvent → Panel
  unfolding handle effects
  on_panel p e = effects p (handle p e)

  unfoldable pub run_panel : Panel → List PanelEvent → Panel
  unfolding on_panel
  run_panel p [] = p
  run_panel p (e ∷ es) = run_panel (on_panel p e) es

-- The color of a row.
unfoldable pub level_color : (String → String) → String → String
level_color upper level =
    let l = upper level in
    if str_eq l "DEBUG"
    then "var(--color-text-muted)"
    else if str_eq l "INFO"
    then "var(--color-status-downloading)"
    else if str_eq l "WARN" || str_eq l "WARNING"
    then "var(--color-warning)"
    else if str_eq l "ERROR" || str_eq l "ERR"
    then "var(--color-danger)"
    else "var(--color-text-secondary)"
