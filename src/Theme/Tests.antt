-- ===== src/Theme/Tests.antt =====
-- The theme's theorems at a page with nothing stored, under a light system.
use haul.Base.{false, none, ◌≡◌, refl}
use haul.Theme.Types.{dark, fixed}
use haul.Theme.Presets.{haul_preset, nord}
use haul.Theme.{
  Page, find_preset, chosen, set_theme_mode, get_stored_mode, get_stored_preset, resolve_mode,
}

abbrev empty_page : Page
empty_page = record { storage = λ _. none; style = λ _. none }

abbrev started : Page
started = set_theme_mode false (fixed dark) empty_page

default-run : chosen false (λ _. none) ≡ haul_preset
unfolding chosen find_preset get_stored_preset get_stored_mode resolve_mode
default-run = refl

nord-run : find_preset "nord" ≡ nord
unfolding find_preset
nord-run = refl
