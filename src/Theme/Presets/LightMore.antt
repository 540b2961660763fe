-- ===== src/Theme/Presets/LightMore.antt =====
-- web/ui/src/theme.ts: the light presets, the second half.
use haul.Theme.Types.{light, ThemePreset}

abbrev pub beacon_light : ThemePreset
beacon_light = record {
  id = "beacon-light";
  label = "Beacon Light";
  mode = light;
  preview = record { bg = "#f7f8fa"; surface = "#ffffff"; accent = "#4f6ef7"; text = "#1a1d2e" };
  vars = record {
    bg_base = "#f7f8fa";
    bg_surface = "#ffffff";
    bg_elevated = "#f0f2f7";
    bg_subtle = "#e4e7f0";
    border_subtle = "rgba(30,35,60,0.07)";
    border_default = "rgba(30,35,60,0.12)";
    border_strong = "rgba(30,35,60,0.22)";
    accent = "#4f6ef7";
    accent_hover = "#3d5de6";
    accent_muted = "rgba(79,110,247,0.09)";
    accent_fg = "#ffffff";
    text_primary = "#1a1d2e";
    text_secondary = "#4a4f68";
    text_muted = "#8a90aa";
    success = "#0f9e5e";
    warning = "#c07c0a";
    danger = "#d63040";
  };
}

abbrev pub rose : ThemePreset
rose = record {
  id = "rose";
  label = "Rose";
  mode = light;
  preview = record { bg = "#fdf8f8"; surface = "#ffffff"; accent = "#e04f7a"; text = "#2a1a20" };
  vars = record {
    bg_base = "#fdf8f8";
    bg_surface = "#ffffff";
    bg_elevated = "#f5eeef";
    bg_subtle = "#ecdde0";
    border_subtle = "rgba(60,20,30,0.07)";
    border_default = "rgba(60,20,30,0.12)";
    border_strong = "rgba(60,20,30,0.22)";
    accent = "#e04f7a";
    accent_hover = "#c93d68";
    accent_muted = "rgba(224,79,122,0.09)";
    accent_fg = "#ffffff";
    text_primary = "#2a1a20";
    text_secondary = "#5c404a";
    text_muted = "#9a7e87";
    success = "#0f9e5e";
    warning = "#c07c0a";
    danger = "#d63040";
  };
}
