-- ===== src/Theme/Presets/Light.antt =====
-- web/ui/src/theme.ts: the light presets.
use haul.Theme.Types.{light, ThemePreset}

abbrev pub catppuccin_latte : ThemePreset
catppuccin_latte = record {
  id = "catppuccin-latte";
  label = "Catppuccin Latte";
  mode = light;
  preview = record { bg = "#eff1f5"; surface = "#e6e9ef"; accent = "#7287fd"; text = "#4c4f69" };
  vars = record {
    bg_base = "#eff1f5";
    bg_surface = "#e6e9ef";
    bg_elevated = "#ccd0da";
    bg_subtle = "#bcc0cc";
    border_subtle = "rgba(76,79,105,0.10)";
    border_default = "rgba(76,79,105,0.16)";
    border_strong = "rgba(76,79,105,0.30)";
    accent = "#7287fd";
    accent_hover = "#5c70f0";
    accent_muted = "rgba(114,135,253,0.12)";
    accent_fg = "#ffffff";
    text_primary = "#4c4f69";
    text_secondary = "#5c5f77";
    text_muted = "#8c8fa1";
    success = "#40a02b";
    warning = "#df8e1d";
    danger = "#d20f39";
  };
}

abbrev pub gruvbox_light : ThemePreset
gruvbox_light = record {
  id = "gruvbox-light";
  label = "Gruvbox Light";
  mode = light;
  preview = record { bg = "#f9f5d7"; surface = "#fbf1c7"; accent = "#458588"; text = "#3c3836" };
  vars = record {
    bg_base = "#f9f5d7";
    bg_surface = "#fbf1c7";
    bg_elevated = "#edded0";
    bg_subtle = "#d5c4a1";
    border_subtle = "rgba(102,92,84,0.10)";
    border_default = "rgba(102,92,84,0.16)";
    border_strong = "rgba(102,92,84,0.30)";
    accent = "#458588";
    accent_hover = "#689d6a";
    accent_muted = "rgba(69,133,136,0.12)";
    accent_fg = "#fbf1c7";
    text_primary = "#3c3836";
    text_secondary = "#504945";
    text_muted = "#928374";
    success = "#79740e";
    warning = "#b57614";
    danger = "#9d0006";
  };
}

abbrev pub solarized_light : ThemePreset
solarized_light = record {
  id = "solarized-light";
  label = "Solarized Light";
  mode = light;
  preview = record { bg = "#fdf6e3"; surface = "#eee8d5"; accent = "#268bd2"; text = "#657b83" };
  vars = record {
    bg_base = "#fdf6e3";
    bg_surface = "#eee8d5";
    bg_elevated = "#e3dcc9";
    bg_subtle = "#d8cfb2";
    border_subtle = "rgba(88,110,117,0.10)";
    border_default = "rgba(88,110,117,0.16)";
    border_strong = "rgba(88,110,117,0.30)";
    accent = "#268bd2";
    accent_hover = "#2aa198";
    accent_muted = "rgba(38,139,210,0.12)";
    accent_fg = "#fdf6e3";
    text_primary = "#657b83";
    text_secondary = "#586e75";
    text_muted = "#839496";
    success = "#859900";
    warning = "#b58900";
    danger = "#dc322f";
  };
}
