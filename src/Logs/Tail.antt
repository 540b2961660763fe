-- ===== src/Logs/Tail.antt =====
-- The live tail of the log panel polls what is chosen.
use text.Mathlib.TextEquality.{eq_iff}
use haul.Base.{
  ◌≡◌, refl, sym, ap, ◌∙◌, arith, Bool, true, false, not, ◌&&◌, ◌||◌, Bool-cases, Option-cases, inl,
  inr, Option, none, some, List, [], ◌∷◌, get_elem?, String, str_eq, if◌then◌else◌,
}
use haul.Logs.{LogLevel, debug, info, warn, error, Source, buffer, docker, start_fetch}
use haul.Logs.Live.{
  Chosen, chosen_of, Panel, level_value, source_value, same_chosen, fetch_logs, interval_of,
  effects, mount, PanelEvent, type_search, debounced, pick_level, pick_source, toggle_tail, tick,
  refresh, replied, runtime, runtime_set, runtime_failed, receive_reply, on_interval, handle,
  on_panel, run_panel,
}

-- The interval is set exactly while the live tail is on, and then polls what is chosen.
abbrev pub IsTailing : Panel → Type 0
IsTailing p = p.interval ≡ interval_of p

abbrev level_of : String → Option LogLevel
level_of s =
    if str_eq s "debug"
    then some debug
    else if str_eq s "info"
    then some info
    else if str_eq s "warn"
    then some warn
    else if str_eq s "error"
    then some error
    else none

level_of-value : (l : Option LogLevel) → level_of (level_value l) ≡ l
level_of-value none = refl
level_of-value (some debug) = refl
level_of-value (some info) = refl
level_of-value (some warn) = refl
level_of-value (some error) = refl

abbrev source_of : String → Source
source_of s = if str_eq s "docker" then docker else buffer

source_of-value : (s : Source) → source_of (source_value s) ≡ s
source_of-value buffer = refl
source_of-value docker = refl

and_both : (a b : Bool) → (a && b) ≡ true → (a ≡ true) × (b ≡ true)
and_both a b h = ground arith

same_chosen_eq : (a b : Chosen) → same_chosen a b ≡ true → a ≡ b
unfolding same_chosen
same_chosen_eq a b h =
    let sources = str_eq (source_value a.source) (source_value b.source) in
    let levels = str_eq (level_value a.level) (level_value b.level) in
    let p = and_both (str_eq a.q b.q && levels) sources h in
    let r = and_both (str_eq a.q b.q) levels p.0 in
    let level =
      sym (level_of-value a.level)
      ∙ ap level_of ((eq_iff (level_value a.level) (level_value b.level)).0 r.1)
      ∙ level_of-value b.level in
    let source =
      sym (source_of-value a.source)
      ∙ ap source_of ((eq_iff (source_value a.source) (source_value b.source)).0 p.1)
      ∙ source_of-value b.source in
    let q = (eq_iff a.q b.q).0 r.0 in λ i. record { q = q i; level = level i; source = source i }

on_interval-interval :
    (trim upper : String → String) (o : Option Chosen) (p : Panel)
    → (on_interval trim upper o p).interval ≡ p.interval
unfolding on_interval fetch_logs
on_interval-interval trim upper none p = refl
on_interval-interval trim upper (some c) p = refl

-- An event by itself keeps the interval.
handle-interval :
    (trim upper : String → String) (p : Panel) (e : PanelEvent)
    → (handle trim upper p e).interval ≡ p.interval
unfolding handle receive_reply on_interval fetch_logs
handle-interval trim upper p (type_search s) = refl
handle-interval trim upper p debounced = refl
handle-interval trim upper p (pick_level l) = refl
handle-interval trim upper p (pick_source s) = refl
handle-interval trim upper p toggle_tail = refl
handle-interval trim upper p tick = on_interval-interval trim upper p.interval p
handle-interval trim upper p refresh = elim (Bool-cases p.viewer.loading) [
  | inl e ↦ rw e refl
  | inr e ↦ rw e refl
]
handle-interval trim upper p (replied n r) = elim (Option-cases (get_elem? p.in_flight n)) [
  | inl e ↦ rw e refl
  | inr w ↦ rw w.1 refl
]
handle-interval trim upper p (runtime none) = refl
handle-interval trim upper p (runtime (some l)) = refl
handle-interval trim upper p (runtime_set l) = refl
handle-interval trim upper p (runtime_failed message) = refl

-- Where neither the filters nor the tail changed, the interval is still the right one.
interval_of_same :
    (p q : Panel)
    → chosen_of p.viewer ≡ chosen_of q.viewer
    → p.live_tail ≡ q.live_tail
    → interval_of p ≡ interval_of q
interval_of_same p q c t = λ i. if t i then some (c i) else none

tail_same : (a b : Bool) → ((a && not b) || (not a && b)) ≡ false → a ≡ b
tail_same a b h = ground arith

effects-IsTailing :
    (old p : Panel) → p.interval ≡ old.interval → IsTailing old → IsTailing (effects old p)
unfolding effects fetch_logs start_fetch
effects-IsTailing old p k h =
    elim (Bool-cases (same_chosen (chosen_of old.viewer) (chosen_of p.viewer))) [
      | inr e ↦ rw e refl
      | inl e ↦
          let tail_changed =
            (old.live_tail && not p.live_tail) || (not old.live_tail && p.live_tail) in
          elim (Bool-cases tail_changed) [
            | inl d ↦ rw (e, d) refl
            | inr d ↦
                rw (e, d)
                  (k
                    ∙ h
                    ∙ interval_of_same old p
                        (same_chosen_eq (chosen_of old.viewer) (chosen_of p.viewer) e)
                        (tail_same old.live_tail p.live_tail d))
          ]
    ]

on_panel-IsTailing :
    (trim upper : String → String) (p : Panel) (e : PanelEvent)
    → IsTailing p
    → IsTailing (on_panel trim upper p e)
unfolding on_panel
on_panel-IsTailing trim upper p e h =
    effects-IsTailing p (handle trim upper p e) (handle-interval trim upper p e) h

run_panel-IsTailing :
    (trim upper : String → String) (p : Panel) (es : List PanelEvent)
    → IsTailing p
    → IsTailing (run_panel trim upper p es)
unfolding run_panel
run_panel-IsTailing trim upper p [] h = h
run_panel-IsTailing trim upper p (e ∷ es) h =
    run_panel-IsTailing trim upper (on_panel trim upper p e) es
      (on_panel-IsTailing trim upper p e h)

-- From the first render on, whatever the user does and whenever replies arrive, the interval runs exactly
-- while the live tail is on, and it polls with the search, the level and the source that are chosen.
pub run_panel-mount :
    (trim upper : String → String) (es : List PanelEvent)
    → IsTailing (run_panel trim upper mount es)
unfolding mount fetch_logs start_fetch
run_panel-mount trim upper es = run_panel-IsTailing trim upper mount es refl
