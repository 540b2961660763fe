-- ===== src/Settings.antt =====
-- web/ui/src/components/settings/SettingsForm.tsx: the form that the settings pages share, with its
-- saving. Settings are texts under keys; `number` is `Number`, none for NaN, into a type of numbers.
use haul.Base.{
  ℕ, Bool, true, false, not, ◌&&◌, ◌||◌, Option, none, some, List, [], ◌∷◌, if◌then◌else◌, String,
  str_eq,
}
pub mod Fields
pub mod Appearance
mod Grid
mod Marks
pub mod Media
mod Health
mod Form
mod Laws
mod Tests

-- An object with its keys in the order in which they came.
abbrev pub SettingsMap : Type 0
SettingsMap = List (String × String)

-- `form[key]`
unfoldable pub lookup : String → SettingsMap → Option String
lookup key [] = none
lookup key ((name, text) ∷ rest) = if str_eq name key then some text else lookup key rest

-- `{ ...prev, [key]: value }`
unfoldable pub insert : String → String → SettingsMap → SettingsMap
insert key value [] = (key, value) ∷ []
insert key value ((name, text) ∷ rest) =
    let others = insert key value rest in
    if str_eq name key then (name, value) ∷ rest else (name, text) ∷ others

-- The form, whether it was edited, and what was sent while a save is pending.
pub record SettingsForm : Type 0 where
  pub form : SettingsMap
  pub dirty : Bool
  pub saving : Option SettingsMap

abbrev pub empty_form : SettingsForm
empty_form = record { form = []; dirty = false; saving = none }

-- The effect on new saved settings.
unfoldable pub load : SettingsMap → SettingsForm → SettingsForm
load saved_settings f = record f { form = saved_settings; dirty = false }

unfoldable pub set_field : String → String → SettingsForm → SettingsForm
unfolding insert
set_field key value f = record f { form = insert key value f.form; dirty = true }

unfoldable pub get_bool : String → Bool → SettingsMap → Bool
unfolding lookup
get_bool key fallback form = elim (lookup key form) [
  | none ↦ fallback
  | some v ↦ str_eq v "true" || str_eq v "1"
]

unfoldable pub get_num {ℓ} : {N : Type ℓ} → (String → Option N) → String → N → SettingsMap → N
unfolding lookup
get_num number key fallback form = elim (lookup key form) [
  | none ↦ fallback
  | some v ↦ elim (number v) [ none ↦ fallback | some n ↦ n ]
]

unfoldable pub get_str : String → String → SettingsMap → String
unfolding lookup
get_str key fallback form = elim (lookup key form) [ none ↦ fallback | some v ↦ v ]

-- `String(v)` of a Boolean.
abbrev pub bool_text : Bool → String
bool_text true = "true"
bool_text false = "false"

abbrev pub is_saving : SettingsForm → Bool
is_saving f = elim f.saving [ none ↦ false | some m ↦ true ]

-- `disabled={!dirty || saving}`
unfoldable pub save_disabled : SettingsForm → Bool
save_disabled f = not f.dirty || is_saving f

-- A click on the button.
unfoldable pub handle_save : SettingsForm → SettingsForm
unfolding save_disabled
handle_save f = if save_disabled f then f else record f { saving = some f.form }

pub data FormEvent : Type 0 where
  loaded : SettingsMap → FormEvent
  edited : String → String → FormEvent
  save_clicked save_done save_failed : FormEvent

unfoldable pub on_form : FormEvent → SettingsForm → SettingsForm
unfolding load set_field handle_save
on_form (loaded m) f = load m f
on_form (edited key value) f = set_field key value f
on_form save_clicked f = handle_save f
on_form save_done f = record f { dirty = false; saving = none }
on_form save_failed f = record f { saving = none }
