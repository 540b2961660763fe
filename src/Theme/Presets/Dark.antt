-- ===== src/Theme/Presets/Dark.antt =====
-- web/ui/src/theme.ts: the dark presets, the first half.
use haul.Theme.Types.{dark, ThemePreset}

abbrev pub haul_preset : ThemePreset
haul_preset = record {
  id = "haul";
  label = "Haul";
  mode = dark;
  preview = record { bg = "#0c0c11"; surface = "#16161e"; accent = "#4da6ff"; text = "#eeeef3" };
  vars = record {
    bg_base = "#0c0c11";
    bg_surface = "#16161e";
    bg_elevated = "#1e1e2a";
    bg_subtle = "#2a2a3a";
    border_subtle = "rgba(255,255,255,0.094)";
    border_default = "rgba(255,255,255,0.157)";
    border_strong = "rgba(255,255,255,0.282)";
    accent = "#4da6ff";
    accent_hover = "#6bb8ff";
    accent_muted = "rgba(77,166,255,0.13)";
    accent_fg = "#ffffff";
    text_primary = "#eeeef3";
    text_secondary = "#a8a8c0";
    text_muted = "#6e6e8a";
    success = "#34d399";
    warning = "#fbbf24";
    danger = "#f87171";
  };
}

abbrev pub catppuccin_mocha : ThemePreset
catppuccin_mocha = record {
  id = "catppuccin-mocha";
  label = "Catppuccin Mocha";
  mode = dark;
  preview = record { bg = "#1e1e2e"; surface = "#181825"; accent = "#cba6f7"; text = "#cdd6f4" };
  vars = record {
    bg_base = "#1e1e2e";
    bg_surface = "#181825";
    bg_elevated = "#313244";
    bg_subtle = "#45475a";
    border_subtle = "rgba(203,166,247,0.10)";
    border_default = "rgba(203,166,247,0.16)";
    border_strong = "rgba(203,166,247,0.30)";
    accent = "#cba6f7";
    accent_hover = "#b4befe";
    accent_muted = "rgba(203,166,247,0.12)";
    accent_fg = "#1e1e2e";
    text_primary = "#cdd6f4";
    text_secondary = "#bac2de";
    text_muted = "#7f849c";
    success = "#a6e3a1";
    warning = "#f9e2af";
    danger = "#f38ba8";
  };
}

abbrev pub catppuccin_macchiato : ThemePreset
catppuccin_macchiato = record {
  id = "catppuccin-macchiato";
  label = "Catppuccin Macchiato";
  mode = dark;
  preview = record { bg = "#1e2030"; surface = "#181926"; accent = "#c6a0f6"; text = "#cad3f5" };
  vars = record {
    bg_base = "#1e2030";
    bg_surface = "#181926";
    bg_elevated = "#2d3044";
    bg_subtle = "#363a4f";
    border_subtle = "rgba(198,160,246,0.10)";
    border_default = "rgba(198,160,246,0.16)";
    border_strong = "rgba(198,160,246,0.30)";
    accent = "#c6a0f6";
    accent_hover = "#b7bdf8";
    accent_muted = "rgba(198,160,246,0.12)";
    accent_fg = "#1e2030";
    text_primary = "#cad3f5";
    text_secondary = "#b8c0e0";
    text_muted = "#6e738d";
    success = "#a6da95";
    warning = "#eed49f";
    danger = "#ed8796";
  };
}

abbrev pub dracula : ThemePreset
dracula = record {
  id = "dracula";
  label = "Dracula";
  mode = dark;
  preview = record { bg = "#1e1f29"; surface = "#282a36"; accent = "#bd93f9"; text = "#f8f8f2" };
  vars = record {
    bg_base = "#1e1f29";
    bg_surface = "#282a36";
    bg_elevated = "#343746";
    bg_subtle = "#44475a";
    border_subtle = "rgba(189,147,249,0.10)";
    border_default = "rgba(189,147,249,0.16)";
    border_strong = "rgba(189,147,249,0.30)";
    accent = "#bd93f9";
    accent_hover = "#caa9fa";
    accent_muted = "rgba(189,147,249,0.12)";
    accent_fg = "#282a36";
    text_primary = "#f8f8f2";
    text_secondary = "#cfcfe2";
    text_muted = "#6272a4";
    success = "#50fa7b";
    warning = "#f1fa8c";
    danger = "#ff5555";
  };
}

abbrev pub nord : ThemePreset
nord = record {
  id = "nord";
  label = "Nord";
  mode = dark;
  preview = record { bg = "#232831"; surface = "#2e3440"; accent = "#88c0d0"; text = "#eceff4" };
  vars = record {
    bg_base = "#232831";
    bg_surface = "#2e3440";
    bg_elevated = "#3b4252";
    bg_subtle = "#434c5e";
    border_subtle = "rgba(136,192,208,0.10)";
    border_default = "rgba(136,192,208,0.16)";
    border_strong = "rgba(136,192,208,0.30)";
    accent = "#88c0d0";
    accent_hover = "#8fbcbb";
    accent_muted = "rgba(136,192,208,0.12)";
    accent_fg = "#2e3440";
    text_primary = "#eceff4";
    text_secondary = "#d8dee9";
    text_muted = "#4c566a";
    success = "#a3be8c";
    warning = "#ebcb8b";
    danger = "#bf616a";
  };
}

abbrev pub gruvbox_dark : ThemePreset
gruvbox_dark = record {
  id = "gruvbox-dark";
  label = "Gruvbox Dark";
  mode = dark;
  preview = record { bg = "#1d2021"; surface = "#282828"; accent = "#458588"; text = "#ebdbb2" };
  vars = record {
    bg_base = "#1d2021";
    bg_surface = "#282828";
    bg_elevated = "#3c3836";
    bg_subtle = "#504945";
    border_subtle = "rgba(69,133,136,0.10)";
    border_default = "rgba(69,133,136,0.16)";
    border_strong = "rgba(69,133,136,0.30)";
    accent = "#458588";
    accent_hover = "#83a598";
    accent_muted = "rgba(69,133,136,0.12)";
    accent_fg = "#ebdbb2";
    text_primary = "#ebdbb2";
    text_secondary = "#d5c4a1";
    text_muted = "#928374";
    success = "#b8bb26";
    warning = "#fabd2f";
    danger = "#fb4934";
  };
}

abbrev pub tokyo_night : ThemePreset
tokyo_night = record {
  id = "tokyo-night";
  label = "Tokyo Night";
  mode = dark;
  preview = record { bg = "#1a1b26"; surface = "#16161e"; accent = "#7aa2f7"; text = "#c0caf5" };
  vars = record {
    bg_base = "#1a1b26";
    bg_surface = "#16161e";
    bg_elevated = "#1f2335";
    bg_subtle = "#292e42";
    border_subtle = "rgba(122,162,247,0.10)";
    border_default = "rgba(122,162,247,0.16)";
    border_strong = "rgba(122,162,247,0.30)";
    accent = "#7aa2f7";
    accent_hover = "#89b4fa";
    accent_muted = "rgba(122,162,247,0.12)";
    accent_fg = "#1a1b26";
    text_primary = "#c0caf5";
    text_secondary = "#a9b1d6";
    text_muted = "#565f89";
    success = "#9ece6a";
    warning = "#e0af68";
    danger = "#f7768e";
  };
}
