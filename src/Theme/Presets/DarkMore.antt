-- ===== src/Theme/Presets/DarkMore.antt =====
-- web/ui/src/theme.ts: the dark presets, the second half.
use haul.Theme.Types.{dark, ThemePreset}

abbrev pub one_dark : ThemePreset
one_dark = record {
  id = "one-dark";
  label = "One Dark";
  mode = dark;
  preview = record { bg = "#1b1f27"; surface = "#21252b"; accent = "#61afef"; text = "#abb2bf" };
  vars = record {
    bg_base = "#1b1f27";
    bg_surface = "#21252b";
    bg_elevated = "#282c34";
    bg_subtle = "#2c313a";
    border_subtle = "rgba(97,175,239,0.10)";
    border_default = "rgba(97,175,239,0.16)";
    border_strong = "rgba(97,175,239,0.30)";
    accent = "#61afef";
    accent_hover = "#56b6c2";
    accent_muted = "rgba(97,175,239,0.12)";
    accent_fg = "#21252b";
    text_primary = "#abb2bf";
    text_secondary = "#9da5b4";
    text_muted = "#5c6370";
    success = "#98c379";
    warning = "#e5c07b";
    danger = "#e06c75";
  };
}

abbrev pub rose_pine : ThemePreset
rose_pine = record {
  id = "rose-pine";
  label = "Rosé Pine";
  mode = dark;
  preview = record { bg = "#191724"; surface = "#1f1d2e"; accent = "#c4a7e7"; text = "#e0def4" };
  vars = record {
    bg_base = "#191724";
    bg_surface = "#1f1d2e";
    bg_elevated = "#26233a";
    bg_subtle = "#312e45";
    border_subtle = "rgba(196,167,231,0.10)";
    border_default = "rgba(196,167,231,0.16)";
    border_strong = "rgba(196,167,231,0.30)";
    accent = "#c4a7e7";
    accent_hover = "#d4b9f0";
    accent_muted = "rgba(196,167,231,0.12)";
    accent_fg = "#191724";
    text_primary = "#e0def4";
    text_secondary = "#c8c3d0";
    text_muted = "#6e6a86";
    success = "#31748f";
    warning = "#f6c177";
    danger = "#eb6f92";
  };
}

abbrev pub kanagawa : ThemePreset
kanagawa = record {
  id = "kanagawa";
  label = "Kanagawa";
  mode = dark;
  preview = record { bg = "#1f1f28"; surface = "#16161d"; accent = "#7e9cd8"; text = "#dcd7ba" };
  vars = record {
    bg_base = "#1f1f28";
    bg_surface = "#16161d";
    bg_elevated = "#2a2a37";
    bg_subtle = "#363646";
    border_subtle = "rgba(126,156,216,0.10)";
    border_default = "rgba(126,156,216,0.16)";
    border_strong = "rgba(126,156,216,0.30)";
    accent = "#7e9cd8";
    accent_hover = "#98bb6c";
    accent_muted = "rgba(126,156,216,0.12)";
    accent_fg = "#1f1f28";
    text_primary = "#dcd7ba";
    text_secondary = "#c8c093";
    text_muted = "#727169";
    success = "#76946a";
    warning = "#dca561";
    danger = "#c34043";
  };
}

abbrev pub amber : ThemePreset
amber = record {
  id = "amber";
  label = "Amber";
  mode = dark;
  preview = record { bg = "#141210"; surface = "#1c1916"; accent = "#e8a628"; text = "#f0ece4" };
  vars = record {
    bg_base = "#141210";
    bg_surface = "#1c1916";
    bg_elevated = "#27231e";
    bg_subtle = "#332e27";
    border_subtle = "rgba(232,166,40,0.09)";
    border_default = "rgba(232,166,40,0.15)";
    border_strong = "rgba(232,166,40,0.28)";
    accent = "#e8a628";
    accent_hover = "#f0bc50";
    accent_muted = "rgba(232,166,40,0.13)";
    accent_fg = "#141210";
    text_primary = "#f0ece4";
    text_secondary = "#b8b09e";
    text_muted = "#716859";
    success = "#34d399";
    warning = "#fbbf24";
    danger = "#f87171";
  };
}

abbrev pub emerald : ThemePreset
emerald = record {
  id = "emerald";
  label = "Emerald";
  mode = dark;
  preview = record { bg = "#0d1210"; surface = "#131a16"; accent = "#34c47a"; text = "#e8f0eb" };
  vars = record {
    bg_base = "#0d1210";
    bg_surface = "#131a16";
    bg_elevated = "#1a2320";
    bg_subtle = "#222e28";
    border_subtle = "rgba(52,196,122,0.09)";
    border_default = "rgba(52,196,122,0.15)";
    border_strong = "rgba(52,196,122,0.28)";
    accent = "#34c47a";
    accent_hover = "#4dd68e";
    accent_muted = "rgba(52,196,122,0.12)";
    accent_fg = "#0d1210";
    text_primary = "#e8f0eb";
    text_secondary = "#a0b8a8";
    text_muted = "#5e7868";
    success = "#34d399";
    warning = "#fbbf24";
    danger = "#f87171";
  };
}

abbrev pub slate : ThemePreset
slate = record {
  id = "slate";
  label = "Slate";
  mode = dark;
  preview = record { bg = "#0f1117"; surface = "#161b27"; accent = "#94a3b8"; text = "#e2e8f0" };
  vars = record {
    bg_base = "#0f1117";
    bg_surface = "#161b27";
    bg_elevated = "#1e2535";
    bg_subtle = "#263044";
    border_subtle = "rgba(148,163,184,0.09)";
    border_default = "rgba(148,163,184,0.15)";
    border_strong = "rgba(148,163,184,0.28)";
    accent = "#94a3b8";
    accent_hover = "#b0bdd0";
    accent_muted = "rgba(148,163,184,0.12)";
    accent_fg = "#0f1117";
    text_primary = "#e2e8f0";
    text_secondary = "#94a3b8";
    text_muted = "#4e5a6e";
    success = "#34d399";
    warning = "#fbbf24";
    danger = "#f87171";
  };
}
