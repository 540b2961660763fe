-- ===== src/Detail/Stall.antt =====
-- web/ui/src/components/torrent/StallCallout.tsx and StallInfo of web/ui/src/api/torrents.ts.
use haul.Base.{ℕ, Bool, Option, none, some, String, ◌<>◌, str_eq, if◌then◌else◌}
use haul.Formats.{format_inactive}

pub data StallLevel : Type 0 where
  level_0 level_1 level_2 level_3 level_4 : StallLevel

pub record StallInfo : Type 0 where
  pub stalled : Bool
  pub level : StallLevel
  pub inactive_secs : ℕ
  pub last_activity : Option String
  pub reason : String

pub record SeverityVisual : Type 0 where
  pub color : String
  pub label : String

unfoldable pub severity_visual : StallLevel → SeverityVisual
severity_visual level_1 = record { color = "var(--color-warning)"; label = "Stalled (Level 1)" }
severity_visual level_2 = record {
  color = "var(--color-status-paused)";
  label = "Stalled (Level 2)";
}
severity_visual level_3 = record {
  color = "var(--color-status-failed)";
  label = "Stalled (Level 3)";
}
severity_visual level_4 = record { color = "var(--color-status-failed)"; label = "Dead torrent" }
severity_visual level_0 = record { color = "var(--color-status-stalled)"; label = "Stalled" }

unfoldable pub reason_copy : String → String
reason_copy reason =
    if str_eq reason "no_peers_ever"
    then "no peers ever observed"
    else if str_eq reason "no_peers"
    then "lost all peers"
    else if str_eq reason "no_seeders"
    then "peers connected but no seeders"
    else if str_eq reason "no_data_received"
    then "peers connected but no data received"
    else reason

pub record Callout : Type 0 where
  pub visual : SeverityVisual
  pub reason : String
  pub inactive : String

unfoldable pub stall_callout : StallInfo → Callout
stall_callout stall = record {
  visual = severity_visual stall.level;
  reason = reason_copy stall.reason;
  inactive = "Inactive for " <> format_inactive stall.inactive_secs;
}

-- `{stall?.stalled && <StallCallout stall={stall} />}` of the page.
unfoldable pub shown_callout : Option StallInfo → Option Callout
shown_callout none = none
shown_callout (some stall) = if stall.stalled then some (stall_callout stall) else none
