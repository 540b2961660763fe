-- ===== src/Settings/Marks.antt =====
-- Which presets the grids of AppearanceSection in web/ui/src/pages/settings/SettingsPage.tsx mark.
use mathlib.Core.Path.{subst}
use text.Mathlib.TextEquality.{eq_iff}
use haul.Base.{
  Bool, some, List, [], ◌∷◌, ◌++◌, keep, map, All, String, ◌≡◌, refl, sym, ◌∙◌, ap, if◌then◌else◌,
  arith, Bool-cases, inl, inr, some-injective, str_eq,
}
use haul.Theme.Types.{ThemeMode, fixed, system, ThemePreset}
use haul.Theme.Presets.{theme_presets}
use haul.Theme.{find_in, resolve_mode}
use haul.Settings.Appearance.{Appearance, preset_groups, current_preset_id}
use haul.Settings.Grid.{Tile, tile, Grid, grid, section_view}

-- The presets of the tiles that are marked as selected.
abbrev pub marked : List Grid → List ThemePreset
marked [] = []
marked (g ∷ gs) =
    map (λ (t : Tile). t.preset) (keep (λ (t : Tile). t.selected) g.tiles) ++ marked gs

marks : String → ThemeMode → List ThemePreset
marks id mode = marked (map (grid id) (preset_groups mode))

MarksItself : ThemePreset → Type 0
MarksItself p = (marks p.id (fixed p.mode) ≡ p ∷ []) × (marks p.id system ≡ p ∷ [])

itself : All MarksItself theme_presets
unfolding MarksItself marks grid tile preset_groups
itself = (
  (refl, refl),
  (
    (refl, refl),
    (
      (refl, refl),
      (
        (refl, refl),
        (
          (refl, refl),
          (
            (refl, refl),
            (
              (refl, refl),
              (
                (refl, refl),
                (
                  (refl, refl),
                  (
                    (refl, refl),
                    (
                      (refl, refl),
                      (
                        (refl, refl),
                        (
                          (refl, refl),
                          (
                            (refl, refl),
                            ((refl, refl), ((refl, refl), ((refl, refl), ((refl, refl), tt)))),
                          ),
                        ),
                      ),
                    ),
                  ),
                ),
              ),
            ),
          ),
        ),
      ),
    ),
  ),
)

found :
    (ps : List ThemePreset) (id : String) (p : ThemePreset)
    → All MarksItself ps
    → find_in ps id ≡ some p
    → MarksItself p × (p.id ≡ id)
unfolding find_in
found [] id p h e = ground arith
found (q ∷ ps) id p (h, hs) e = elim (Bool-cases (str_eq q.id id)) [
  | inl t ↦
      let q≡p = some-injective (sym (ap (λ b. if b then some q else find_in ps id) t) ∙ e) in
      (subst MarksItself q≡p h, ap (λ (x : ThemePreset). x.id) (sym q≡p) ∙ (eq_iff q.id id).0 t)
  | inr f ↦ found ps id p hs (sym (ap (λ b. if b then some q else find_in ps id) f) ∙ e)
]

mode-cases :
    (prefers_dark : Bool) (mode : ThemeMode) (p : ThemePreset)
    → MarksItself p
    → p.mode ≡ resolve_mode prefers_dark mode
    → marks p.id mode ≡ p ∷ []
unfolding MarksItself resolve_mode
mode-cases prefers_dark system p h e = h.1
mode-cases prefers_dark (fixed m) p h e = subst (λ k. marks p.id (fixed k) ≡ p ∷ []) e h.0

-- Where the current id is that of a preset of the mode that is in effect, the grids mark that preset
-- and no other.
pub section_view-marked :
    (prefers_dark : Bool) (a : Appearance) (p : ThemePreset)
    → find_in theme_presets (current_preset_id prefers_dark a) ≡ some p
    → p.mode ≡ resolve_mode prefers_dark a.mode
    → marked (section_view prefers_dark a).grids ≡ p ∷ []
unfolding section_view marks
section_view-marked prefers_dark a p e m =
    let f = found theme_presets (current_preset_id prefers_dark a) p itself e in
    subst (λ k. marks k a.mode ≡ p ∷ []) f.1 (mode-cases prefers_dark a.mode p f.0 m)
