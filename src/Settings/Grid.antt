-- ===== src/Settings/Grid.antt =====
-- The buttons of AppearanceSection in web/ui/src/pages/settings/SettingsPage.tsx: the modes and the
-- grids of the presets.
use haul.Base.{ℕ, Bool, Option, List, [], ◌∷◌, map, String, str_eq, if◌then◌else◌}
use haul.Theme.Types.{dark, light, ThemeMode, fixed, system, ThemePreset}
use haul.Theme.{mode_text}
use haul.Settings.Appearance.{Appearance, PresetGroup, preset_groups, current_preset_id}

pub record ModeButton : Type 0 where
  pub mode : ThemeMode
  pub label : String
  pub active : Bool

-- `modeButtons`
abbrev pub modes : List (ThemeMode × String)
modes = (fixed dark, "Dark") ∷ (fixed light, "Light") ∷ (system, "System") ∷ []

unfoldable pub mode_button : ThemeMode → ThemeMode × String → ModeButton
mode_button mode b = record {
  mode = b.0;
  label = b.1;
  active = str_eq (mode_text mode) (mode_text b.0);
}

pub record Tile : Type 0 where
  pub preset : ThemePreset
  pub selected : Bool
  pub border : String
  pub weight : ℕ

unfoldable pub tile : String → ThemePreset → Tile
tile current preset =
    let selected = str_eq preset.id current in
    record {
      preset = preset;
      selected = selected;
      border =
          if selected
          then "2px solid var(--color-accent)"
          else "2px solid var(--color-border-subtle)";
      weight = if selected then 600 else 500;
    }

pub record Grid : Type 0 where
  pub heading : Option String
  pub tiles : List Tile

unfoldable pub grid : String → PresetGroup → Grid
unfolding tile
grid current g = record { heading = g.heading; tiles = map (tile current) g.presets }

pub record SectionView : Type 0 where
  pub buttons : List ModeButton
  pub grids : List Grid

unfoldable pub section_view : Bool → Appearance → SectionView
unfolding mode_button grid
section_view prefers_dark a = record {
  buttons = map (mode_button a.mode) modes;
  grids = map (grid (current_preset_id prefers_dark a)) (preset_groups a.mode);
}
