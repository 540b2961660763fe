-- ===== src/Logs/Laws.antt =====
-- The level filter of web/ui/src/shared/LogViewer.tsx.
use haul.Base.{
  keep-ext, ◌≡◌, refl, sym, ◌∙◌, arith, true, Option, some, List, length, String, ℤ, leb_ℤ, ◌&&◌,
  keep-keep,
}
use haul.Logs.{
  LogLevel, LogEntry, LogViewer, docker_logs, level_ordinal, level_name, docker_entries, receive,
  finish_fetch, or_empty,
}

leb-absorb : (a b c : ℤ) → leb_ℤ a b ≡ true → (leb_ℤ a c && leb_ℤ b c) ≡ leb_ℤ b c
leb-absorb a b c h = ground arith

module _ (upper : String → String) where
  docker_entries-docker_entries :
      (low high : LogLevel) (es : List LogEntry)
      → leb_ℤ (level_ordinal upper (level_name low)) (level_ordinal upper (level_name high)) ≡ true
      → docker_entries upper (some high) es
        ≡ docker_entries upper (some high) (docker_entries upper (some low) es)
  unfolding docker_entries
  docker_entries-docker_entries low high es h = sym (
      keep-keep _ _ es
      ∙ keep-ext _ _ es (λ e.
        leb-absorb (level_ordinal upper (level_name low)) (level_ordinal upper (level_name high))
          (level_ordinal upper e.level) h))

  -- The entries of Docker that are shown at a level are those of them that are shown at any lower
  -- level and reach the higher one, and the total is their number: a stricter filter never shows
  -- an entry that a weaker one hides.
  pub finish_fetch-level :
      (low high : LogLevel) (es : Option (List LogEntry)) (reason : Option String) (v : LogViewer)
      → leb_ℤ (level_ordinal upper (level_name low)) (level_ordinal upper (level_name high)) ≡ true
      → ((finish_fetch upper (some high) (docker_logs true es reason) v).entries
          ≡ docker_entries upper
              (some high)
              (finish_fetch upper (some low) (docker_logs true es reason) v).entries)
        × ((finish_fetch upper (some high) (docker_logs true es reason) v).total
            ≡ length (finish_fetch upper (some high) (docker_logs true es reason) v).entries)
  unfolding finish_fetch receive
  finish_fetch-level low high es reason v h =
      (docker_entries-docker_entries low high (or_empty es) h, refl)
