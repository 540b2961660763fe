-- ===== src/Settings/Form.antt =====
-- The values of the settings form, web/ui/src/components/settings/SettingsForm.tsx.
use text.Mathlib.TextEquality.{eq_iff}
use text.Mathlib.TextPositions.{eq_refl}
use haul.Base.{
  ap, Bool-cases, inl, inr, ◌∙◌, ◌≡◌, refl, Bool, true, false, Option, none, some, [], ◌∷◌,
  if◌then◌else◌, String, str_eq, arith,
}
use haul.Settings.{
  SettingsMap, lookup, insert, SettingsForm, set_field, get_bool, get_num, get_str, bool_text,
}

-- An edited setting has its new text, and the others keep theirs.
pub lookup-insert :
    (form : SettingsMap) (key other value : String)
    → lookup other (insert key value form)
      ≡ (if str_eq key other then some value else lookup other form)
unfolding lookup insert
lookup-insert [] key other value = refl
lookup-insert ((name, text) ∷ rest) key other value = elim (Bool-cases (str_eq name key)) [
  | inl same ↦ let p = ap (λ n. str_eq n other) ((eq_iff name key).0 same) in ground arith
  | inr differs ↦ elim (Bool-cases (str_eq key other)) [
    | inl chosen ↦
        let p = ap (λ n. str_eq name n) ((eq_iff key other).0 chosen) in
        let ih = lookup-insert rest key other value in ground arith
    | inr skipped ↦ let ih = lookup-insert rest key other value in ground arith
  ]
]

pub lookup-insert_self :
    (key value : String) (m : SettingsMap) → lookup key (insert key value m) ≡ some value
lookup-insert_self key value m = lookup-insert m key key value ∙ rw (eq_refl key)

get_bool-insert :
    (m : SettingsMap) (key : String) (b fallback : Bool)
    → get_bool key fallback (insert key (bool_text b) m) ≡ b
unfolding get_bool
get_bool-insert m key true fallback = rw (lookup-insert_self, get_bool)
get_bool-insert m key false fallback = rw (lookup-insert_self, get_bool)

-- What a control writes it reads back: a switch its state, a field its text, and a number field the
-- number that `Number` gives for its text, whatever numbers these are, or the fallback where that is
-- NaN. Every other key keeps its text.
pub get-set_field {ℓ} :
    {N : Type ℓ} (number : String → Option N) (f : SettingsForm) (key value other : String)
    (b fallback : Bool) (d : N) (s : String)
    → (get_bool key fallback (set_field key (bool_text b) f).form ≡ b)
      × (get_str key s (set_field key value f).form ≡ value)
      × (get_num number key d (set_field key value f).form
          ≡ elim (number value) [ none ↦ d | some n ↦ n ])
      × (lookup other (set_field key value f).form
          ≡ (if str_eq key other then some value else lookup other f.form))
unfolding set_field get_bool get_num get_str
get-set_field number f key value other b fallback d s = (
  get_bool-insert f.form key b fallback,
  rw (lookup-insert_self, get_str),
  rw (lookup-insert_self, get_num),
  lookup-insert f.form key other value,
)
