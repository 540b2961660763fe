-- ===== src/Connection/Sessions.antt =====
-- The socket and the timeout of web/ui/src/api/websocket.ts while the page is there.
use mathlib.Core.Path.{subst}
use haul.Base.{
  sym, ◌+◌, if-either, ℕ, ◌≤◌, ◌≡◌, refl, ap, arith, Bool, true, false, Option, none, some, ◌⊎◌,
  inl, inr, String, ◌∙◌,
}
use haul.Connection.Laws.{on_close-live}
use haul.Connection.{
  Connection, opened, message, closed, failed, timer_fired, connect, fire, mounted, on_message,
  on_close, on_event,
}

fire-live :
    (c : Connection) (delay : ℕ)
    → c.stopped ≡ false
    → c.timer ≡ some delay
    → fire c.timer c ≡ record c { timer = none; sockets = c.sockets + 1 }
unfolding fire connect
fire-live c delay h e = ap (λ t. fire t c) e ∙ rw (h, connect) refl

module _ (starts_with : String → String → Bool) where
  -- What the browser lets happen: a socket opens, reports and closes once, and a timeout that is
  -- pending fires. The flag says whether the last socket that was made has not closed yet.
  pub data Session : Connection → Bool → Type 0 where
    begun : Session mounted true
    opens : (c : Connection) → Session c true → Session (on_event starts_with opened c) true
    reports :
        (c : Connection) (m : Option (Option String))
        → Session c true
        → Session (on_event starts_with (message m) c) true
    errs : (c : Connection) → Session c true → Session (on_event starts_with failed c) true
    closes : (c : Connection) → Session c true → Session (on_event starts_with closed c) false
    fires :
        (c : Connection) (delay : ℕ)
        → Session c false
        → c.timer ≡ some delay
        → Session (on_event starts_with timer_fired c) true

  -- Either a socket or a timeout, of at most thirty seconds.
  Connects : Connection → Bool → Type 0
  Connects c true = c.timer ≡ none
  Connects c false = (delay : ℕ) × (c.timer ≡ some delay) × (1000 ≤ delay) × (delay ≤ 30000)

  Kept : Connection → Bool → Type 0
  Kept c live =
      (c.stopped ≡ false) × (1000 ≤ c.retry_delay) × (c.retry_delay ≤ 30000) × Connects c live

  message-Kept :
      (c : Connection) (m : Option (Option String))
      → Kept c true
      → Kept (on_message starts_with m c) true
  unfolding Kept Connects on_message
  message-Kept c none k = k
  message-Kept c (some none) k = k
  message-Kept c (some (some kind)) k =
      if-either (λ c. Kept c true) (starts_with kind "torrent_") _ _ k k

  Session-Kept : (c : Connection) (live : Bool) → Session c live → Kept c live
  unfolding Kept Connects on_event on_close fire connect mounted
  Session-Kept _ _ begun = (refl, omega arith, omega arith, refl)
  Session-Kept _ _ (opens c s) =
      let k = Session-Kept c true s in (k.0, omega arith, omega arith, k.3)
  Session-Kept _ _ (reports c m s) = message-Kept c m (Session-Kept c true s)
  Session-Kept _ _ (errs c s) = Session-Kept c true s
  Session-Kept _ _ (closes c s) =
      let k = Session-Kept c true s in
      subst (λ x. Kept x false) (sym (on_close-live c k.0))
        (k.0, omega (arith, k.1), omega (arith, k.2), (c.retry_delay, refl, k.1, k.2))
  Session-Kept _ _ (fires c delay s e) =
      let k = Session-Kept c false s in
      subst (λ x. Kept x true) (sym (fire-live c delay k.0 e)) (k.0, k.1, k.2, refl)

  -- As long as the page is there, the connection never gives up and never has two sockets: either the
  -- last socket has not closed yet and no timeout is pending, or it has closed and a timeout is
  -- pending that makes the next one within one to thirty seconds.
  pub Session_connects :
      (c : Connection) (live : Bool)
      → Session c live
      → ((live ≡ true) × (c.timer ≡ none))
        ⊎ ((live ≡ false)
            × ((delay : ℕ) × (c.timer ≡ some delay)
                × (1000 ≤ delay)
                × (delay ≤ 30000)
                × ((on_event starts_with timer_fired c).sockets ≡ c.sockets + 1)))
  unfolding Kept Connects on_event
  Session_connects c true s = inl (refl, (Session-Kept c true s).3)
  Session_connects c false s =
      let k = Session-Kept c false s in
      let t = k.3 in
      inr (refl, (t.0, t.1, t.2, t.3, ap (λ (x : Connection). x.sockets) (fire-live c t.0 k.0 t.1)))
