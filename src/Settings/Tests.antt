-- ===== src/Settings/Tests.antt =====
-- The settings pages at concrete settings.
use mathlib.Core.Bool.{false≢true}
use text.Mathlib.TextEquality.{eq_iff}
use haul.Base.{
  some-injective, List, ◌≢◌, false, ℕ, ◌≡◌, refl, true, Option, none, some, [], ◌∷◌, map, String,
  str_eq, All, code_units, distinct, if◌then◌else◌, ◌⊎◌,
}
use haul.Theme.Types.{light, fixed, system}
use haul.Theme.{Page, find_in, find_preset, resolve_mode, apply_theme}
use haul.Theme.Laws.{Shows}
use haul.Settings.{
  SettingsMap, lookup, insert, SettingsForm, empty_form, load, set_field, loaded, edited,
  save_clicked, save_done, FormEvent, on_form, save_disabled, get_bool, get_num, get_str, bool_text,
  handle_save,
}
use haul.Settings.Form.{get-set_field}
use haul.Settings.Laws.{
  Quiet, opened, typed, clicked, Quiet_form, run_form, on_form_lost, FitsControl, all_rows,
  cards_controls,
}
use haul.Settings.Fields.{cards, control_key}
use haul.Settings.Appearance
use haul.Settings.Appearance.{
  Appearance, open_section, current_preset_id, handle_mode_change, Session, Session_selected,
}
use haul.Settings.Grid.{section_view}
use haul.Settings.Marks.{marked, section_view-marked}
use haul.Theme.Presets.{nord}
use haul.Settings.Health.{HealthReport, disk_color}
use haul.Settings.Media.{format_preview, substitute, replace_from, starts_with, episode_tokens}

abbrev stored : SettingsMap
stored = ("listen_port", "7000") ∷ ("enable_dht", "false") ∷ []

abbrev read_seven : String → Option ℕ
read_seven s = if str_eq s "7000" then some 7000 else none

abbrev form : SettingsForm
form = load stored empty_form

preview-run :
    format_preview episode_tokens (code_units "{Series Title} - S{Season:00}E{Episode:00}")
    ≡ code_units "Breaking Bad - S01E04.mkv"
unfolding format_preview substitute episode_tokens replace_from starts_with
preview-run = refl

get-set_field_example :
    (get_bool "enable_dht" true (set_field "enable_dht" (bool_text true) form).form ≡ true)
    × (get_str "enable_dht" "" (set_field "enable_dht" "7000" form).form ≡ "7000")
    × (get_num read_seven "enable_dht" 0 (set_field "enable_dht" "7000" form).form ≡ 7000)
    × (lookup "listen_port" (set_field "enable_dht" "7000" form).form ≡ some "7000")
unfolding lookup load
get-set_field_example =
    get-set_field read_seven form "enable_dht" "7000" "listen_port" true true 0 ""

abbrev edited_form : SettingsForm
edited_form = record { form = insert "listen_port" "7001" stored; dirty = true; saving = none }

abbrev saving_form : SettingsForm
saving_form = record edited_form { saving = some edited_form.form }

saving_form-Quiet : Quiet saving_form stored
unfolding on_form set_field handle_save load
saving_form-Quiet =
    clicked edited_form stored (typed form stored "listen_port" "7001" (opened stored) refl)

Quiet_form_example :
    ((saving_form.dirty ≡ true) ⊎ (saving_form.form ≡ stored))
    × ((saving_form.saving ≡ none) ⊎ (saving_form.saving ≡ some saving_form.form))
Quiet_form_example = Quiet_form saving_form stored saving_form-Quiet

abbrev other_port : String
other_port = "7002"

saved_port : lookup "listen_port" edited_form.form ≢ some other_port
unfolding lookup insert
saved_port e = false≢true ((eq_iff "7001" other_port).1 (some-injective e))

-- The port is changed once more while it is being saved; then the button is clicked and the settings are
-- fetched.
abbrev afterwards : List FormEvent
afterwards = save_clicked ∷ loaded edited_form.form ∷ []

on_form_lost_example :
    let after = run_form (edited "listen_port" other_port ∷ save_done ∷ []) saving_form stored in
    let later =
      run_form (edited "listen_port" other_port ∷ save_done ∷ afterwards) saving_form stored in
    (lookup "listen_port" after.0.form ≡ some other_port)
    × (save_disabled later.0 ≡ true)
    × (lookup "listen_port" later.1 ≢ some other_port)
on_form_lost_example =
    on_form_lost saving_form stored "listen_port" other_port edited_form.form afterwards refl
      saved_port refl

cards_controls_example :
    (distinct (map control_key (all_rows (cards stored))) ≡ true)
    × All FitsControl (all_rows (cards stored))
cards_controls_example = cards_controls stored

abbrev blank : Page
blank = record { storage = λ _. none; style = λ _. none }

abbrev light_session : Appearance × Page
light_session =
    handle_mode_change true (fixed light)
      (open_section (apply_theme true blank).storage, apply_theme true blank)

Session_selected_example :
    (light_session.0 ≡ open_section light_session.1.storage)
    × Shows (find_preset (current_preset_id true light_session.0)).vars light_session.1.style
unfolding handle_mode_change
Session_selected_example =
    Session_selected true light_session.0 light_session.1
      (Appearance.mode_changed _ (fixed light) (Appearance.opened blank))

abbrev full_disk : HealthReport
full_disk = record {
  disk_free_bytes = 5;
  disk_total_bytes = 100;
  stalled_count = 2;
  engine_status = "healthy";
  peers_connected = 12;
  vpn_active = false;
  external_ip = none;
}

disk_color-run : disk_color full_disk ≡ "var(--color-danger)"
unfolding disk_color
disk_color-run = refl

abbrev cold : Appearance
cold = record { mode = system; dark_preset = "nord"; light_preset = "gruvbox-light" }

section_view-marked_example : marked (section_view true cold).grids ≡ nord ∷ []
unfolding find_in current_preset_id resolve_mode
section_view-marked_example = section_view-marked true cold nord refl refl
