-- ===== src/Theme.antt =====
-- web/ui/src/theme.ts: the chosen theme in localStorage, and the CSS properties of the document.
-- Both are maps from names to texts. `prefers_dark` is what the media query answers.
pub mod Types
pub mod Presets
pub mod Laws
mod Tests
use haul.Base.{Bool, true, false, Option, none, some, List, [], ◌∷◌, if◌then◌else◌, String, str_eq}
use Types.{Mode, dark, light, ThemeMode, fixed, system, Vars, ThemePreset}
use Presets.{haul_preset, theme_presets}

abbrev pub Store : Type 0
Store = String → Option String

abbrev pub put : String → String → Store → Store
put k v s j = if str_eq k j then some v else s j

pub record Page : Type 0 where
  pub storage : Store
  pub style : Store

abbrev pub default_dark_preset : String
default_dark_preset = "haul"

abbrev pub default_light_preset : String
default_light_preset = "beacon-light"

abbrev pub key_mode : String
key_mode = "haul-theme-mode"

abbrev pub key_dark : String
key_dark = "haul-theme-dark"

abbrev pub key_light : String
key_light = "haul-theme-light"

unfoldable pub apply_preset : ThemePreset → Store → Store
apply_preset preset s0 =
    let v = preset.vars in
    let s1 = put "--color-bg-base" v.bg_base s0 in
    let s2 = put "--color-bg-surface" v.bg_surface s1 in
    let s3 = put "--color-bg-elevated" v.bg_elevated s2 in
    let s4 = put "--color-bg-subtle" v.bg_subtle s3 in
    let s5 = put "--color-border-subtle" v.border_subtle s4 in
    let s6 = put "--color-border-default" v.border_default s5 in
    let s7 = put "--color-border-strong" v.border_strong s6 in
    let s8 = put "--color-accent" v.accent s7 in
    let s9 = put "--color-accent-hover" v.accent_hover s8 in
    let s10 = put "--color-accent-muted" v.accent_muted s9 in
    let s11 = put "--color-accent-fg" v.accent_fg s10 in
    let s12 = put "--color-text-primary" v.text_primary s11 in
    let s13 = put "--color-text-secondary" v.text_secondary s12 in
    let s14 = put "--color-text-muted" v.text_muted s13 in
    let s15 = put "--color-success" v.success s14 in
    let s16 = put "--color-warning" v.warning s15 in put "--color-danger" v.danger s16

unfoldable pub resolve_mode : Bool → ThemeMode → Mode
resolve_mode prefers_dark system = if prefers_dark then dark else light
resolve_mode prefers_dark (fixed mode) = mode

-- The text under which a mode is stored.
abbrev pub mode_text : ThemeMode → String
mode_text (fixed dark) = "dark"
mode_text (fixed light) = "light"
mode_text system = "system"

-- The test on the stored text; anything else is the dark mode.
unfoldable pub parse_mode : Option String → ThemeMode
parse_mode none = fixed dark
parse_mode (some raw) =
    if str_eq raw "dark"
    then fixed dark
    else if str_eq raw "light"
    then fixed light
    else if str_eq raw "system"
    then system
    else fixed dark

unfoldable pub get_stored_mode : Store → ThemeMode
unfolding parse_mode
get_stored_mode storage = parse_mode (storage key_mode)

abbrev pub key_of : Mode → String
key_of dark = key_dark
key_of light = key_light

abbrev pub default_of : Mode → String
default_of dark = default_dark_preset
default_of light = default_light_preset

unfoldable pub get_stored_preset : Store → Mode → String
get_stored_preset storage mode = elim (storage (key_of mode)) [
  | none ↦ default_of mode
  | some id ↦ id
]

unfoldable pub find_in : List ThemePreset → String → Option ThemePreset
find_in [] id = none
find_in (p ∷ ps) id = let rest = find_in ps id in if str_eq p.id id then some p else rest

unfoldable pub find_preset : String → ThemePreset
unfolding find_in
find_preset id = elim (find_in theme_presets id) [ some p ↦ p | none ↦ haul_preset ]

abbrev pub same_mode : Mode → Mode → Bool
same_mode dark dark = true
same_mode light light = true
same_mode dark light = false
same_mode light dark = false

module _ (prefers_dark : Bool) where
  -- The preset that the stored choice selects.
  unfoldable pub chosen : Store → ThemePreset
  chosen storage =
      find_preset (get_stored_preset storage (resolve_mode prefers_dark (get_stored_mode storage)))

  unfoldable pub apply_theme : Page → Page
  unfolding chosen
  apply_theme page = record page { style = apply_preset (chosen page.storage) page.style }

  unfoldable pub set_theme_mode : ThemeMode → Page → Page
  unfolding apply_theme
  set_theme_mode mode page =
      apply_theme (record page { storage = put key_mode (mode_text mode) page.storage })

  unfoldable pub set_theme_preset : Mode → String → Page → Page
  set_theme_preset mode preset_id page =
      let storage = put (key_of mode) preset_id page.storage in
      record {
        storage = storage;
        style =
            if same_mode (resolve_mode prefers_dark (get_stored_mode storage)) mode
            then apply_preset (find_preset preset_id) page.style
            else page.style;
      }
