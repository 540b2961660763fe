-- ===== src/Theme/Presets.antt =====
-- web/ui/src/theme.ts: the list of presets, in the order of the file.
mod Dark
mod DarkMore
mod Light
mod LightMore
use haul.Base.{List, [], ◌∷◌}
use haul.Theme.Types.{ThemePreset}
pub use Dark.{
  haul_preset, catppuccin_mocha, catppuccin_macchiato, dracula, nord, gruvbox_dark, tokyo_night,
}
pub use DarkMore.{one_dark, rose_pine, kanagawa, amber, emerald, slate}
pub use Light.{catppuccin_latte, gruvbox_light, solarized_light}
pub use LightMore.{beacon_light, rose}

abbrev pub theme_presets : List ThemePreset
theme_presets =
    haul_preset ∷ catppuccin_mocha ∷ catppuccin_macchiato ∷ dracula ∷ nord ∷ gruvbox_dark
    ∷ tokyo_night ∷ one_dark ∷ rose_pine ∷ kanagawa ∷ amber ∷ emerald ∷ slate ∷ catppuccin_latte
    ∷ gruvbox_light ∷ solarized_light ∷ beacon_light ∷ rose ∷ []
