-- ===== src/Connection/Laws.antt =====
-- The delays and the end of the connection of web/ui/src/api/websocket.ts.
use mathlib.Core.Path.{subst}
use haul.Base.{
  if-either, ℕ, zero, suc, ◌+◌, ◌*◌, ◌^◌, ◌≤◌, min, ◌≡◌, refl, sym, ◌∙◌, ap, arith, Bool, true,
  false, Option, none, some, List, [], ◌∷◌, String, ◌++◌,
}
use haul.Connection.{
  Connection, SocketEvent, opened, message, closed, failed, timer_fired, unmounted, connect, fire,
  mounted, on_message, on_close, on_event, run_events, Waits,
}

-- n sockets in a row that close without having opened.
abbrev pub failures : ℕ → List SocketEvent
failures zero = []
failures (suc n) = closed ∷ timer_fired ∷ failures n

Bounded : Connection → Type 0
Bounded c = (1000 ≤ c.retry_delay) × (c.retry_delay ≤ 30000) × Waits c.timer

fire-Bounded : (t : Option ℕ) (c : Connection) → Bounded c → Bounded (fire t c)
unfolding fire connect Bounded Waits
fire-Bounded none c b = b
fire-Bounded (some delay) c b = if-either Bounded c.stopped _ _ (b.0, b.1, tt) (b.0, b.1, tt)

on_close-stopped : (c : Connection) → c.stopped ≡ true → on_close c ≡ c
unfolding on_close
on_close-stopped c e = rw (e, on_close)

pub on_close-live :
    (c : Connection)
    → c.stopped ≡ false
    → on_close c
      ≡ record c { retry_delay = min (c.retry_delay * 2) 30000; timer = some c.retry_delay }
unfolding on_close
on_close-live c e = rw (e, on_close)

doubled :
    (k d : ℕ) → d ≡ min (1000 * 2 ^ k) 30000 → min (d * 2) 30000 ≡ min (1000 * 2 ^ suc k) 30000
doubled k d e = let p : 2 ^ suc k ≡ 2 * 2 ^ k = omega arith in omega (arith, p)

-- A socket that fails, and the timeout after it.
retry-live :
    (c : Connection)
    → c.stopped ≡ false
    → fire (on_close c).timer (on_close c) ≡ record c {
      retry_delay = min (c.retry_delay * 2) 30000;
      timer = none;
      sockets = c.sockets + 1;
    }
unfolding fire connect
retry-live c e = ap (λ (x : Connection). fire x.timer x) (on_close-live c e) ∙ rw (e, connect)

module _ (starts_with : String → String → Bool) where
  on_event-Bounded :
      (e : SocketEvent) (c : Connection) → Bounded c → Bounded (on_event starts_with e c)
  unfolding Bounded on_event on_message on_close Waits
  on_event-Bounded opened c b = (omega arith, omega arith, b.2)
  on_event-Bounded (message none) c b = b
  on_event-Bounded (message (some none)) c b = b
  on_event-Bounded (message (some (some kind))) c b =
      if-either Bounded (starts_with kind "torrent_") _ _ b b
  on_event-Bounded closed c b =
      if-either Bounded c.stopped _ _ b (omega (arith, b.0), omega arith, (b.0, b.1))
  on_event-Bounded failed c b = b
  on_event-Bounded timer_fired c b = fire-Bounded c.timer c b
  on_event-Bounded unmounted c b = (b.0, b.1, tt)

  run_events-Bounded :
      (es : List SocketEvent) (c : Connection) → Bounded c → Bounded (run_events starts_with es c)
  unfolding run_events
  run_events-Bounded [] c b = b
  run_events-Bounded (e ∷ es) c b =
      run_events-Bounded es (on_event starts_with e c) (on_event-Bounded e c b)

  -- Whatever happens to the sockets, the next delay and the one that is waited for lie between one
  -- and thirty seconds.
  pub run_events_bounds :
      (es : List SocketEvent)
      → (1000 ≤ (run_events starts_with es mounted).retry_delay)
        × ((run_events starts_with es mounted).retry_delay ≤ 30000)
        × Waits (run_events starts_with es mounted).timer
  unfolding Bounded mounted connect Waits
  run_events_bounds es = run_events-Bounded es mounted (omega arith, omega arith, tt)

  Off : ℕ → Connection → Type 0
  Off n c = (c.stopped ≡ true) × (c.timer ≡ none) × (c.sockets ≡ n)

  on_event-Off :
      (n : ℕ) (e : SocketEvent) (c : Connection) → Off n c → Off n (on_event starts_with e c)
  unfolding Off on_event on_message on_close fire
  on_event-Off n opened c o = o
  on_event-Off n (message none) c o = o
  on_event-Off n (message (some none)) c o = o
  on_event-Off n (message (some (some kind))) c o =
      if-either (Off n) (starts_with kind "torrent_") _ _ o o
  on_event-Off n closed c o = subst (Off n) (sym (on_close-stopped c o.0)) o
  on_event-Off n failed c o = o
  on_event-Off n timer_fired c o = subst (Off n) (sym (ap (λ t. fire t c) o.1)) o
  on_event-Off n unmounted c o = (refl, refl, o.2)

  run_events-Off :
      (n : ℕ) (es : List SocketEvent) (c : Connection)
      → Off n c
      → Off n (run_events starts_with es c)
  unfolding run_events
  run_events-Off n [] c o = o
  run_events-Off n (e ∷ es) c o =
      run_events-Off n es (on_event starts_with e c) (on_event-Off n e c o)

  -- After the page has gone no socket is made and no timeout is pending, whatever the socket that
  -- is left reports.
  pub run_events-unmounted :
      (c : Connection) (es : List SocketEvent)
      → ((run_events starts_with (unmounted ∷ es) c).timer ≡ none)
        × ((run_events starts_with (unmounted ∷ es) c).sockets ≡ c.sockets)
  unfolding run_events Off on_event
  run_events-unmounted c es =
      let o = run_events-Off c.sockets es (on_event starts_with unmounted c) (refl, refl, refl) in
      (o.1, o.2)

  failing :
      (n k : ℕ) (c : Connection)
      → c.stopped ≡ false
      → c.retry_delay ≡ min (1000 * 2 ^ k) 30000
      → (run_events starts_with (failures n ++ (closed ∷ [])) c).timer
        ≡ some (min (1000 * 2 ^ (n + k)) 30000)
  unfolding run_events on_event
  failing zero k c h d =
      ap (λ (x : Connection). x.timer) (on_close-live c h)
      ∙ ap some d
      ∙ ap (λ j. some (min (1000 * 2 ^ j) 30000)) (omega arith)
  failing (suc n) k c h d =
      ap (λ c'. (run_events starts_with (failures n ++ (closed ∷ [])) c').timer) (retry-live c h)
      ∙ failing n (suc k) _ h (doubled k c.retry_delay d)
      ∙ ap (λ j. some (min (1000 * 2 ^ j) 30000)) (omega arith)

  -- From a connection that has just opened, the wait after the n-th further failure in a row is
  -- one second doubled n times, and at most thirty seconds.
  pub retry_lem :
      (n : ℕ) (c : Connection)
      → c.stopped ≡ false
      → (run_events starts_with (opened ∷ failures n ++ (closed ∷ [])) c).timer
        ≡ some (min (1000 * 2 ^ n) 30000)
  unfolding run_events on_event
  retry_lem n c h =
      failing n 0 (record c { retry_delay = 1000 }) h refl
      ∙ ap (λ j. some (min (1000 * 2 ^ j) 30000)) (omega arith)
