-- ===== src/Settings/Appearance.antt =====
-- AppearanceSection of web/ui/src/pages/settings/SettingsPage.tsx: its state beside the stored theme
-- and the document (theme.ts). The page has applied the stored theme before it is shown.
use mathlib.Core.Path.{subst}
use haul.Base.{
  Bool, Option, none, some, List, [], ◌∷◌, keep, if◌then◌else◌, String, ◌≡◌, refl, sym, ◌∙◌, ap,
}
use haul.Theme.Types.{Mode, dark, light, ThemeMode, fixed, system, ThemePreset}
use haul.Theme.Presets.{theme_presets}
use haul.Theme.{
  Store, Page, same_mode, resolve_mode, get_stored_mode, get_stored_preset, find_preset, chosen,
  apply_theme, set_theme_mode, set_theme_preset,
}
use haul.Theme.Laws.{
  Shows, IsApplied, apply_theme-IsApplied, set_theme_mode_lem, set_theme_preset_lem,
}

pub record Appearance : Type 0 where
  pub mode : ThemeMode
  pub dark_preset : String
  pub light_preset : String

-- The initial state, read from the storage.
unfoldable pub open_section : Store → Appearance
open_section storage = record {
  mode = get_stored_mode storage;
  dark_preset = get_stored_preset storage dark;
  light_preset = get_stored_preset storage light;
}

-- The presets with a heading where there is one.
pub record PresetGroup : Type 0 where
  pub heading : Option String
  pub presets : List ThemePreset

abbrev group : Option String → Mode → PresetGroup
group heading mode = record {
  heading = heading;
  presets = keep (λ (p : ThemePreset). same_mode p.mode mode) theme_presets;
}

unfoldable pub preset_groups : ThemeMode → List PresetGroup
preset_groups (fixed dark) = group none dark ∷ []
preset_groups (fixed light) = group none light ∷ []
preset_groups system = group (some "Dark theme") dark ∷ group (some "Light theme") light ∷ []

module _ (prefers_dark : Bool) where
  unfoldable pub current_preset_id : Appearance → String
  current_preset_id a =
      if same_mode (resolve_mode prefers_dark a.mode) dark then a.dark_preset else a.light_preset

  unfoldable pub handle_mode_change : ThemeMode → Appearance × Page → Appearance × Page
  handle_mode_change next (a, page) =
      (record a { mode = next }, set_theme_mode prefers_dark next page)

  unfoldable pub handle_preset_select : String → Mode → Appearance × Page → Appearance × Page
  handle_preset_select id dark (a, page) =
      (record a { dark_preset = id }, set_theme_preset prefers_dark dark id page)
  handle_preset_select id light (a, page) =
      (record a { light_preset = id }, set_theme_preset prefers_dark light id page)

  pub data Session : Appearance × Page → Type 0 where
    opened :
        (page : Page)
        → Session
            (open_section (apply_theme prefers_dark page).storage, apply_theme prefers_dark page)
    mode_changed :
        (s : Appearance × Page) (next : ThemeMode) → Session s → Session (handle_mode_change next s)
    preset_selected :
        (s : Appearance × Page) (id : String) (mode : Mode)
        → Session s
        → Session (handle_preset_select id mode s)

  Mirrors : Appearance × Page → Type 0
  Mirrors s = (s.0 ≡ open_section s.1.storage) × IsApplied prefers_dark s.1

  mirror :
      (mode : ThemeMode) (d l : String) (page : Page)
      → get_stored_mode page.storage ≡ mode
      → get_stored_preset page.storage dark ≡ d
      → get_stored_preset page.storage light ≡ l
      → record { mode = mode; dark_preset = d; light_preset = l } ≡ open_section page.storage
  unfolding open_section
  mirror mode d l page p q r =
      λ i. record { mode = sym p i; dark_preset = sym q i; light_preset = sym r i }

  -- The fields of the state are what the storage holds.
  unmirror :
      (a : Appearance) (page : Page)
      → a ≡ open_section page.storage
      → a ≡ record {
        mode = get_stored_mode page.storage;
        dark_preset = get_stored_preset page.storage dark;
        light_preset = get_stored_preset page.storage light;
      }
  unfolding open_section
  unmirror a page e = e

  mode_keeps :
      (next : ThemeMode) (mode : Mode) (page : Page)
      → get_stored_preset (set_theme_mode prefers_dark next page).storage mode
        ≡ get_stored_preset page.storage mode
  unfolding set_theme_mode get_stored_preset
  mode_keeps next dark page = refl
  mode_keeps next light page = refl

  selected_id :
      (mode : Mode) (storage : Store)
      → (if same_mode mode dark
          then get_stored_preset storage dark
          else get_stored_preset storage light)
        ≡ get_stored_preset storage mode
  selected_id dark storage = refl
  selected_id light storage = refl

  current_preset_id-open_section :
      (storage : Store)
      → current_preset_id (open_section storage)
        ≡ get_stored_preset storage (resolve_mode prefers_dark (get_stored_mode storage))
  unfolding current_preset_id open_section
  current_preset_id-open_section storage = selected_id _ storage

  mode_change-Mirrors :
      (next : ThemeMode) (s : Appearance × Page) → Mirrors s → Mirrors (handle_mode_change next s)
  unfolding Mirrors handle_mode_change
  mode_change-Mirrors next (a, page) m =
      let l = set_theme_mode_lem prefers_dark next page in
      (
        mirror next a.dark_preset a.light_preset (set_theme_mode prefers_dark next page) l.0
            (mode_keeps next dark page
              ∙ sym (ap (λ (x : Appearance). x.dark_preset) (unmirror a page m.0)))
            (mode_keeps next light page
              ∙ sym (ap (λ (x : Appearance). x.light_preset) (unmirror a page m.0))),
        l.1,
      )

  preset_select-Mirrors :
      (id : String) (mode : Mode) (s : Appearance × Page)
      → Mirrors s
      → Mirrors (handle_preset_select id mode s)
  unfolding Mirrors handle_preset_select
  preset_select-Mirrors id dark (a, page) m =
      let l = set_theme_preset_lem prefers_dark dark light id page refl m.1 in
      (
        mirror a.mode id a.light_preset (set_theme_preset prefers_dark dark id page)
            (l.2 ∙ sym (ap (λ (x : Appearance). x.mode) (unmirror a page m.0))) l.0
            (l.1 ∙ sym (ap (λ (x : Appearance). x.light_preset) (unmirror a page m.0))),
        l.3,
      )
  preset_select-Mirrors id light (a, page) m =
      let l = set_theme_preset_lem prefers_dark light dark id page refl m.1 in
      (
        mirror a.mode a.dark_preset id (set_theme_preset prefers_dark light id page)
            (l.2 ∙ sym (ap (λ (x : Appearance). x.mode) (unmirror a page m.0)))
            (l.1 ∙ sym (ap (λ (x : Appearance). x.dark_preset) (unmirror a page m.0))) l.0,
        l.3,
      )

  Session-Mirrors : {s : Appearance × Page} → Session s → Mirrors s
  unfolding Mirrors
  Session-Mirrors (opened page) = (refl, apply_theme-IsApplied prefers_dark page)
  Session-Mirrors (mode_changed s next r) = mode_change-Mirrors next s (Session-Mirrors r)
  Session-Mirrors (preset_selected s id mode r) =
      preset_select-Mirrors id mode s (Session-Mirrors r)

  shown_chosen :
      (page : Page)
      → IsApplied prefers_dark page
      → Shows
          (find_preset (
            get_stored_preset page.storage
              (resolve_mode prefers_dark (get_stored_mode page.storage)))).vars
          page.style
  unfolding chosen
  shown_chosen page h = h

  -- Whatever is clicked, the section shows what is stored, and the preset that it marks as selected
  -- is the one that the document shows.
  pub Session_selected :
      (a : Appearance) (page : Page)
      → Session (a, page)
      → (a ≡ open_section page.storage) × Shows (find_preset (current_preset_id a)).vars page.style
  unfolding Mirrors
  Session_selected a page r =
      let m = Session-Mirrors r in
      let id = ap current_preset_id m.0 ∙ current_preset_id-open_section page.storage in
      (m.0, subst (λ k. Shows (find_preset k).vars page.style) (sym id) (shown_chosen page m.1))
