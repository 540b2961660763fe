-- ===== src/Connection/Tests.antt =====
-- The connection after a few events.
use haul.Base.{
  ℕ, ◌+◌, ◌≤◌, ◌⊎◌, true, ◌≡◌, refl, Bool, false, none, some, List, [], ◌∷◌, ◌++◌, String, str_eq,
}
use haul.Connection.{
  SocketEvent, opened, message, closed, timer_fired, unmounted, connect, mounted, on_event,
  on_message, on_close, run_events, idle, stale_keys,
}
use haul.Connection.Sessions.{Session, begun, opens, closes, fires, Session_connects}
use haul.Connection.Laws.{failures, run_events-unmounted, retry_lem}

abbrev is_torrent : String → String → Bool
is_torrent kind prefix = str_eq kind "torrent_added"

abbrev losses : List SocketEvent
losses = closed ∷ timer_fired ∷ closed ∷ message (some (some "torrent_added")) ∷ []

losses-run : run_events is_torrent losses mounted ≡ record {
  stopped = false;
  retry_delay = 4000;
  timer = some 2000;
  sockets = 2;
  invalidated = stale_keys;
}
unfolding run_events mounted connect on_close on_message
losses-run = refl

run_events-unmounted_example :
    ((run_events is_torrent (unmounted ∷ losses) mounted).timer ≡ none)
    × ((run_events is_torrent (unmounted ∷ losses) mounted).sockets ≡ mounted.sockets)
run_events-unmounted_example = run_events-unmounted is_torrent mounted losses

retry_example :
    (run_events is_torrent (opened ∷ failures 6 ++ (closed ∷ [])) idle).timer ≡ some 30000
retry_example = retry_lem is_torrent 6 idle refl

-- The first socket opens and closes; the second closes at once.
lost_twice :
    Session is_torrent
      (run_events is_torrent (opened ∷ closed ∷ timer_fired ∷ closed ∷ []) mounted)
      false
unfolding run_events mounted connect on_close
lost_twice = closes _ (fires _ 1000 (closes _ (opens _ begun)) refl)

Session_connects_example :
    let c = run_events is_torrent (opened ∷ closed ∷ timer_fired ∷ closed ∷ []) mounted in
    ((false ≡ true) × (c.timer ≡ none))
    ⊎ ((false ≡ false)
        × ((delay : ℕ) × (c.timer ≡ some delay)
            × (1000 ≤ delay)
            × (delay ≤ 30000)
            × ((on_event is_torrent timer_fired c).sockets ≡ c.sockets + 1)))
Session_connects_example = Session_connects is_torrent _ false lost_twice
