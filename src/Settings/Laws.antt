-- ===== src/Settings/Laws.antt =====
-- Saving the settings, web/ui/src/components/settings/SettingsForm.tsx.
use mathlib.Core.Bool.{false≢true}
use mathlib.Core.Path.{subst}
use haul.Base.{
  Bool, ◌≢◌, distinct, any, ◌++◌, ◌≤◌, map, none≢some, some-injective, if-true, if-false, ◌≡◌, refl,
  sym, ap, ◌∙◌, ◌⊎◌, true, false, Option, none, some, List, [], ◌∷◌, String, str_eq, arith,
  Bool-cases, inl, inr, All,
}
use haul.Settings.{
  SettingsMap, lookup, SettingsForm, empty_form, load, set_field, loaded, edited, save_clicked,
  save_done, save_failed, FormEvent, insert, on_form, get_bool, handle_save, save_disabled,
}
use haul.Settings.Fields.{
  Control, toggle, number_field, text_field, choice, Card, cards, speed_card, seeding_card,
  control_key,
}
use haul.Settings.Form.{lookup-insert_self}

-- A run of the form together with the settings that the server is known to have: those it sent
-- last, or those that it took. While a save is pending nothing is edited and no settings are fetched.
pub data Quiet : SettingsForm → SettingsMap → Type 0 where
  opened : (m : SettingsMap) → Quiet (load m empty_form) m
  refreshed :
      (f : SettingsForm) (known m : SettingsMap)
      → Quiet f known
      → f.saving ≡ none
      → Quiet (on_form (loaded m) f) m
  typed :
      (f : SettingsForm) (known : SettingsMap) (key value : String)
      → Quiet f known
      → f.saving ≡ none
      → Quiet (on_form (edited key value) f) known
  clicked :
      (f : SettingsForm) (known : SettingsMap)
      → Quiet f known
      → Quiet (on_form save_clicked f) known
  succeeded :
      (f : SettingsForm) (known sent : SettingsMap)
      → Quiet f known
      → f.saving ≡ some sent
      → Quiet (on_form save_done f) sent
  failed :
      (f : SettingsForm) (known : SettingsMap) → Quiet f known → Quiet (on_form save_failed f) known

Sound : SettingsForm → SettingsMap → Type 0
Sound f known =
    (f.dirty ≡ false → f.form ≡ known)
    × ((sent : SettingsMap) → f.saving ≡ some sent → f.form ≡ sent)

handle_save-disabled : (f : SettingsForm) → save_disabled f ≡ true → handle_save f ≡ f
unfolding handle_save
handle_save-disabled f e = if-true (save_disabled f) _ _ e

handle_save-enabled :
    (f : SettingsForm) → save_disabled f ≡ false → handle_save f ≡ record f { saving = some f.form }
unfolding handle_save
handle_save-enabled f e = if-false (save_disabled f) _ _ e

Quiet-Sound : {f : SettingsForm} {known : SettingsMap} → Quiet f known → Sound f known
unfolding Sound on_form load set_field handle_save
Quiet-Sound (opened m) = (λ e. refl, λ sent e. absurd (none≢some e))
Quiet-Sound (refreshed f known m q n) = (λ e. refl, λ sent e. absurd (none≢some (sym n ∙ e)))
Quiet-Sound (typed f known key value q n) = (λ e. cc, λ sent e. absurd (none≢some (sym n ∙ e)))
Quiet-Sound (clicked f known q) =
    let s = Quiet-Sound q in
    elim (Bool-cases (save_disabled f)) [
      | inl e ↦ rw (handle_save-disabled f e) s
      | inr e ↦ rw (handle_save-enabled f e) (s.0, λ sent p. some-injective p)
    ]
Quiet-Sound (succeeded f known sent q s) =
    let h = Quiet-Sound q in (λ e. h.1 sent s, λ sent' e. absurd (none≢some e))
Quiet-Sound (failed f known q) = let h = Quiet-Sound q in (h.0, λ sent e. absurd (none≢some e))

saving-cases : (o : Option SettingsMap) → (o ≡ none) ⊎ ((sent : SettingsMap) × (o ≡ some sent))
saving-cases none = inl refl
saving-cases (some sent) = inr (sent, refl)

-- As long as nothing is edited and no settings are fetched while a save is pending, a form that counts
-- as clean shows what the server has, and the text that is being saved is the text that is shown.
pub Quiet_form :
    (f : SettingsForm) (known : SettingsMap)
    → Quiet f known
    → ((f.dirty ≡ true) ⊎ (f.form ≡ known)) × ((f.saving ≡ none) ⊎ (f.saving ≡ some f.form))
unfolding Sound
Quiet_form f known q =
    let h = Quiet-Sound q in
    (
      elim (Bool-cases f.dirty) [ inl e ↦ inl e | inr e ↦ inr (h.0 e) ],
      elim (saving-cases f.saving) [
        | inl e ↦ inl e
        | inr (sent, e) ↦ inr (e ∙ ap some (sym (h.1 sent e)))
      ],
    )

-- What the server has after an event: what was sent, once it has taken it.
abbrev pub server_after : FormEvent → SettingsForm → SettingsMap → SettingsMap
server_after save_done f known = elim f.saving [ none ↦ known | some sent ↦ sent ]
server_after _ f known = known

-- The form and the server's settings after some events. What is fetched is free.
unfoldable pub run_form : List FormEvent → SettingsForm → SettingsMap → SettingsForm × SettingsMap
run_form [] f known = (f, known)
run_form (e ∷ es) f known = run_form es (on_form e f) (server_after e f known)

abbrev pub is_edit : FormEvent → Bool
is_edit (edited key value) = true
is_edit _ = false

-- A clean form with no save under way stays so, and the server keeps its settings, until an edit.
run_form-clean :
    (es : List FormEvent) (f : SettingsForm) (known : SettingsMap)
    → any is_edit es ≡ false
    → f.dirty ≡ false
    → f.saving ≡ none
    → (save_disabled (run_form es f known).0 ≡ true) × ((run_form es f known).1 ≡ known)
unfolding run_form on_form load handle_save save_disabled
run_form-clean [] f known q d s = (rw d refl, refl)
run_form-clean (loaded m ∷ es) f known q d s = run_form-clean es (load m f) known q refl s
run_form-clean (edited key value ∷ es) f known q d s = absurd (false≢true (sym q))
run_form-clean (save_clicked ∷ es) f known q d s =
    let same = handle_save-disabled f (rw d refl) in
    subst (λ g. (save_disabled (run_form es g known).0 ≡ true) × ((run_form es g known).1 ≡ known))
      (sym same) (run_form-clean es f known q d s)
run_form-clean (save_done ∷ es) f known q d s =
    rw s (run_form-clean es (record f { dirty = false; saving = none }) known q refl refl)
run_form-clean (save_failed ∷ es) f known q d s =
    run_form-clean es (record f { saving = none }) known q d refl

-- An edit that is made while a save is pending, to a text that is not the one being saved, is lost:
-- when the server takes what was sent the form still shows the edit, but whatever is clicked or fetched
-- from then on, until the next edit the form cannot be saved and the server does not get the text.
pub on_form_lost :
    (f : SettingsForm) (known : SettingsMap) (key value : String) (sent : SettingsMap)
    (es : List FormEvent)
    → f.saving ≡ some sent
    → lookup key sent ≢ some value
    → any is_edit es ≡ false
    → let after = run_form (edited key value ∷ save_done ∷ []) f known in
      let later = run_form (edited key value ∷ save_done ∷ es) f known in
      (lookup key after.0.form ≡ some value)
      × (save_disabled later.0 ≡ true)
      × (lookup key later.1 ≢ some value)
unfolding run_form on_form set_field
on_form_lost f known key value sent es s d q =
    let clean =
      run_form-clean es (record f { form = insert key value f.form; dirty = false; saving = none })
        (server_after save_done f known) q refl refl in
    (
      lookup-insert_self key value f.form,
      clean.0,
      λ e.
          d (
            ap (lookup key) (sym (clean.1 ∙ ap (λ o. elim o [ none ↦ known | some m ↦ m ]) s)) ∙ e),
    )

-- The fallback of a control is a value that the control offers.
abbrev pub FitsControl : Control → Type 0
FitsControl (toggle label key fallback) = Unit
FitsControl (number_field label key fallback least none) = least ≤ fallback
FitsControl (number_field label key fallback least (some greatest)) =
    (least ≤ fallback) × (fallback ≤ greatest)
FitsControl (text_field label key fallback) = Unit
FitsControl (choice label key fallback options) = any (str_eq fallback) options ≡ true

abbrev pub all_rows : List Card → List Control
all_rows [] = []
all_rows (card ∷ cs) = (card.rows ++ card.advanced) ++ all_rows cs

-- Whatever is set, no two controls of the settings page edit the same setting, and the fallback of
-- each is a value that the control itself offers.
pub cards_controls :
    (form : SettingsMap)
    → (distinct (map control_key (all_rows (cards form))) ≡ true)
      × All FitsControl (all_rows (cards form))
unfolding cards
cards_controls form = elim (Bool-cases (get_bool "schedule_enabled" false form)) [
  | inl e ↦ elim (Bool-cases (get_bool "pause_on_complete" false form)) [
    | inl p ↦ rw (e, p, cards, speed_card, seeding_card) (refl, ground arith)
    | inr p ↦ rw (e, p, cards, speed_card, seeding_card) (refl, ground arith)
  ]
  | inr e ↦ elim (Bool-cases (get_bool "pause_on_complete" false form)) [
    | inl p ↦ rw (e, p, cards, speed_card, seeding_card) (refl, ground arith)
    | inr p ↦ rw (e, p, cards, speed_card, seeding_card) (refl, ground arith)
  ]
]
