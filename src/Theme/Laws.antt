-- ===== src/Theme/Laws.antt =====
-- The document shows the chosen theme, whatever the user selects.
use haul.Base.{Bool, false, some, if◌then◌else◌, String, ◌≡◌, refl, All}
use haul.Theme.Types.{Mode, dark, light, ThemeMode, fixed, system, Vars, ThemePreset}
use haul.Theme.Presets.{theme_presets}
use haul.Theme.{
  Store, put, Page, key_of, mode_text, apply_preset, resolve_mode, get_stored_mode,
  get_stored_preset, find_preset, chosen, apply_theme, set_theme_mode, set_theme_preset, parse_mode,
  same_mode,
}

-- The CSS properties are those of a preset, all seventeen.
pub record Shows (v : Vars) (style : Store) : Type 0 where
  pub bg_base : style "--color-bg-base" ≡ some v.bg_base
  pub bg_surface : style "--color-bg-surface" ≡ some v.bg_surface
  pub bg_elevated : style "--color-bg-elevated" ≡ some v.bg_elevated
  pub bg_subtle : style "--color-bg-subtle" ≡ some v.bg_subtle
  pub border_subtle : style "--color-border-subtle" ≡ some v.border_subtle
  pub border_default : style "--color-border-default" ≡ some v.border_default
  pub border_strong : style "--color-border-strong" ≡ some v.border_strong
  pub accent : style "--color-accent" ≡ some v.accent
  pub accent_hover : style "--color-accent-hover" ≡ some v.accent_hover
  pub accent_muted : style "--color-accent-muted" ≡ some v.accent_muted
  pub accent_fg : style "--color-accent-fg" ≡ some v.accent_fg
  pub text_primary : style "--color-text-primary" ≡ some v.text_primary
  pub text_secondary : style "--color-text-secondary" ≡ some v.text_secondary
  pub text_muted : style "--color-text-muted" ≡ some v.text_muted
  pub success : style "--color-success" ≡ some v.success
  pub warning : style "--color-warning" ≡ some v.warning
  pub danger : style "--color-danger" ≡ some v.danger

apply_preset-Shows : (p : ThemePreset) (style : Store) → Shows p.vars (apply_preset p style)
unfolding apply_preset
apply_preset-Shows p style = record {
  bg_base = refl;
  bg_surface = refl;
  bg_elevated = refl;
  bg_subtle = refl;
  border_subtle = refl;
  border_default = refl;
  border_strong = refl;
  accent = refl;
  accent_hover = refl;
  accent_muted = refl;
  accent_fg = refl;
  text_primary = refl;
  text_secondary = refl;
  text_muted = refl;
  success = refl;
  warning = refl;
  danger = refl;
}

-- The document shows the preset that the storage selects.
abbrev pub IsApplied : Bool → Page → Type 0
IsApplied prefers_dark page = Shows (chosen prefers_dark page.storage).vars page.style

pub apply_theme-IsApplied :
    (prefers_dark : Bool) (page : Page) → IsApplied prefers_dark (apply_theme prefers_dark page)
unfolding apply_theme
apply_theme-IsApplied prefers_dark page = apply_preset-Shows _ page.style

-- Choosing a mode stores it, and the document then shows the preset chosen for it, whatever it
-- showed before.
pub set_theme_mode_lem :
    (prefers_dark : Bool) (mode : ThemeMode) (page : Page)
    → (get_stored_mode (set_theme_mode prefers_dark mode page).storage ≡ mode)
      × IsApplied prefers_dark (set_theme_mode prefers_dark mode page)
unfolding set_theme_mode get_stored_mode
set_theme_mode_lem prefers_dark mode page = (stored mode, apply_preset-Shows _ page.style)
  where
    stored : (m : ThemeMode) → parse_mode (some (mode_text m)) ≡ m
    stored (fixed dark) = refl
    stored (fixed light) = refl
    stored system = refl

-- The mode in effect is `current`; a preset is chosen for `mode`.
reapplied :
    (current mode : Mode) (id : String) (page : Page)
    → Shows (find_preset (get_stored_preset page.storage current)).vars page.style
    → Shows
        (find_preset (get_stored_preset (put (key_of mode) id page.storage) current)).vars
        (if same_mode current mode then apply_preset (find_preset id) page.style else page.style)
unfolding get_stored_preset
reapplied dark dark id page h = apply_preset-Shows (find_preset id) page.style
reapplied dark light id page h = h
reapplied light dark id page h = h
reapplied light light id page h = apply_preset-Shows (find_preset id) page.style

-- Choosing a preset for a mode stores it for that mode and leaves the stored mode and the preset of
-- the other mode as they were. If the document showed the chosen preset before, it does so
-- afterwards: it changes exactly when the mode is the one in effect.
pub set_theme_preset_lem :
    (prefers_dark : Bool) (mode other : Mode) (id : String) (page : Page)
    → same_mode mode other ≡ false
    → IsApplied prefers_dark page
    → (get_stored_preset (set_theme_preset prefers_dark mode id page).storage mode ≡ id)
      × (get_stored_preset (set_theme_preset prefers_dark mode id page).storage other
          ≡ get_stored_preset page.storage other)
      × (get_stored_mode (set_theme_preset prefers_dark mode id page).storage
          ≡ get_stored_mode page.storage)
      × IsApplied prefers_dark (set_theme_preset prefers_dark mode id page)
unfolding set_theme_preset get_stored_preset get_stored_mode chosen
set_theme_preset_lem prefers_dark dark dark id page o h = cc
set_theme_preset_lem prefers_dark dark light id page o h = (
  refl,
  refl,
  refl,
  reapplied (resolve_mode prefers_dark (get_stored_mode page.storage)) dark id page h,
)
set_theme_preset_lem prefers_dark light light id page o h = cc
set_theme_preset_lem prefers_dark light dark id page o h = (
  refl,
  refl,
  refl,
  reapplied (resolve_mode prefers_dark (get_stored_mode page.storage)) light id page h,
)

-- The presets of the list have different ids: looking one up by its id gives it back.
pub find_preset-id : All (λ (p : ThemePreset). find_preset p.id ≡ p) theme_presets
unfolding find_preset
find_preset-id = (
  refl,
  (
    refl,
    (
      refl,
      (
        refl,
        (
          refl,
          (
            refl,
            (
              refl,
              (
                refl,
                (refl, (refl, (refl, (refl, (refl, (refl, (refl, (refl, (refl, (refl, tt)))))))))),
              ),
            ),
          ),
        ),
      ),
    ),
  ),
)
