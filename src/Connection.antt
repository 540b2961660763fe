-- ===== src/Connection.antt =====
-- web/ui/src/api/websocket.ts: the connection of useWebSocket as a state and its events. The
-- current socket closes or fails at any time; an error closes it, which is an event of its own.
use haul.Base.{
  ℕ, ◌+◌, ◌*◌, ◌≤◌, min, Bool, true, false, Option, none, some, List, [], ◌∷◌, ◌++◌, if◌then◌else◌,
  String,
}
use haul.Api.Types.{Key, part}
mod Laws
mod Sessions
mod Tests

pub record Connection : Type 0 where
  pub stopped : Bool
  pub retry_delay : ℕ
  -- The delay of the timeout that is pending.
  pub timer : Option ℕ
  -- How many sockets were made so far.
  pub sockets : ℕ
  -- The keys that were invalidated, the latest last.
  pub invalidated : List Key

pub data SocketEvent : Type 0 where
  opened : SocketEvent
  -- The parsed data: none if parsing fails, and the event's type where it has one.
  message : Option (Option String) → SocketEvent
  closed failed timer_fired unmounted : SocketEvent

unfoldable pub connect : Connection → Connection
connect c = if c.stopped then c else record c { sockets = c.sockets + 1 }

abbrev pub idle : Connection
idle = record { stopped = false; retry_delay = 1000; timer = none; sockets = 0; invalidated = [] }

unfoldable pub mounted : Connection
unfolding connect
mounted = connect idle

abbrev pub stale_keys : List Key
stale_keys = (part "torrents" ∷ []) ∷ (part "stats" ∷ []) ∷ []

unfoldable pub on_close : Connection → Connection
on_close c =
    if c.stopped
    then c
    else record c { retry_delay = min (c.retry_delay * 2) 30000; timer = some c.retry_delay }

-- `setTimeout` calls `connect` once.
unfoldable pub fire : Option ℕ → Connection → Connection
unfolding connect
fire none c = c
fire (some delay) c = connect (record c { timer = none })

-- `String.startsWith` is a parameter.
module _ (starts_with : String → String → Bool) where
  unfoldable pub on_message : Option (Option String) → Connection → Connection
  on_message none c = c
  on_message (some none) c = c
  on_message (some (some kind)) c =
      if starts_with kind "torrent_"
      then record c { invalidated = c.invalidated ++ stale_keys }
      else c

  unfoldable pub on_event : SocketEvent → Connection → Connection
  unfolding on_message on_close fire
  on_event opened c = record c { retry_delay = 1000 }
  on_event (message data_type) c = on_message data_type c
  on_event closed c = on_close c
  on_event failed c = c
  on_event timer_fired c = fire c.timer c
  on_event unmounted c = record c { stopped = true; timer = none }

  unfoldable pub run_events : List SocketEvent → Connection → Connection
  unfolding on_event
  run_events [] c = c
  run_events (e ∷ es) c = run_events es (on_event e c)

-- The pending timeout of a connection that waits between one and thirty seconds, if any.
pub Waits : Option ℕ → Type 0
Waits none = Unit
Waits (some delay) = (1000 ≤ delay) × (delay ≤ 30000)
