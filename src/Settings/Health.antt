-- ===== src/Settings/Health.antt =====
-- web/ui/src/pages/settings/SettingsPage.tsx: the cards Engine Health and About, with the reports of
-- web/ui/src/api/health.ts and web/ui/src/api/stats.ts.
use haul.Base.{
  ℕ, ◌-◌, ◌*◌, Bool, Option, none, some, List, [], ◌∷◌, ltb, String, ◌<>◌, str_eq, truthy, show_nat,
  if◌then◌else◌,
}
use haul.Settings.Fields.{format_disk_bytes}

-- The free bytes of a disk are at most its total bytes.
pub record HealthReport : Type 0 where
  pub disk_free_bytes : ℕ
  pub disk_total_bytes : ℕ
  pub stalled_count : ℕ
  pub engine_status : String
  pub peers_connected : ℕ
  pub vpn_active : Bool
  pub external_ip : Option String

-- A label, its value, and its color where it has one of its own.
pub record Tile : Type 0 where
  pub label : String
  pub value : String
  pub color : Option String

-- `external_ip || "Unknown"`
abbrev or_unknown : Option String → String
or_unknown none = "Unknown"
or_unknown (some ip) = if truthy ip then ip else "Unknown"

unfoldable pub health_tiles : HealthReport → List Tile
health_tiles health =
    record {
      label = "Status";
      value = health.engine_status;
      color = some (
          if str_eq health.engine_status "healthy"
          then "var(--color-success)"
          else "var(--color-danger)");
    }
    ∷ record {
      label = "VPN";
      value = if health.vpn_active then "Protected" else "Not Active";
      color = some (if health.vpn_active then "var(--color-success)" else "var(--color-danger)");
    }
    ∷ record { label = "External IP"; value = or_unknown health.external_ip; color = none }
    ∷ record { label = "Peers"; value = show_nat health.peers_connected; color = none }
    ∷ record {
      label = "Stalled";
      value = show_nat health.stalled_count;
      color = if ltb 0 health.stalled_count then some "var(--color-warning)" else none;
    }
    ∷ []

-- The share of the disk that is in use, as a fraction: the numerator and the denominator of a percentage.
unfoldable pub disk_used : HealthReport → ℕ × ℕ
disk_used health =
    if ltb 0 health.disk_total_bytes
    then ((health.disk_total_bytes - health.disk_free_bytes) * 100, health.disk_total_bytes)
    else (0, 1)

-- `diskPercent > n`
abbrev above : ℕ × ℕ → ℕ → Bool
above share n = ltb (n * share.1) share.0

unfoldable pub disk_color : HealthReport → String
unfolding disk_used
disk_color health =
    if above (disk_used health) 90
    then "var(--color-danger)"
    else if above (disk_used health) 75
    then "var(--color-warning)"
    else "var(--color-accent)"

-- The width of the bar, `Math.min(diskPercent, 100)`, as a fraction too.
unfoldable pub bar_width : HealthReport → ℕ × ℕ
unfolding disk_used
bar_width health = let share = disk_used health in if above share 100 then (100, 1) else share

-- The lines around the bar: `to_fixed` as for the sizes.
unfoldable pub disk_lines : (ℕ → ℕ → ℕ → String) → HealthReport → List String
unfolding disk_used
disk_lines to_fixed health =
    let size = format_disk_bytes to_fixed in
    (size (health.disk_total_bytes - health.disk_free_bytes)
      <> " used of "
      <> size health.disk_total_bytes)
    ∷ (to_fixed (disk_used health).0 (disk_used health).1 1 <> "%")
    ∷ (size health.disk_free_bytes <> " free")
    ∷ []

pub record AppStats : Type 0 where
  pub version : String
  pub total_torrents : ℕ

-- A row of About: a value, or a link to it.
pub data AboutRow : Type 0 where
  value_row link_row : String → String → AboutRow

unfoldable pub about_rows : Option AppStats → List AboutRow
about_rows stats =
    value_row "Version" (elim stats [ none ↦ "-" | some s ↦ s.version ])
    ∷ value_row "Total Torrents" (show_nat (elim stats [ none ↦ 0 | some s ↦ s.total_torrents ]))
    ∷ link_row "API Docs" "/api/docs"
    ∷ link_row "OpenAPI Spec" "/api/openapi"
    ∷ []
