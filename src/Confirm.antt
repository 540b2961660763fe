-- ===== src/Confirm.antt =====
-- web/ui/src/shared/ConfirmDialog.tsx: the confirm dialog. Promises are numbered in the order in
-- which `confirm` makes them; `resolver` is the one whose resolve function is kept.
use haul.Base.{
  ℕ, ◌+◌, Bool, true, false, Option, none, some, List, [], ◌∷◌, if◌then◌else◌, String, ◌≡◌, ◌==◌,
}
mod Laws
mod Tests

pub record ConfirmOptions : Type 0 where
  pub title : String
  pub message : String
  pub confirm_label : Option String
  pub danger : Option Bool

pub record Dialog : Type 0 where
  pub opts : Option ConfirmOptions
  pub resolver : Option ℕ
  -- The promises that were resolved, with their answers, the latest first.
  pub resolved : List (ℕ × Bool)
  -- How many promises were made.
  pub promises : ℕ

abbrev pub no_dialog : Dialog
no_dialog = record { opts = none; resolver = none; resolved = []; promises = 0 }

unfoldable pub confirm : ConfirmOptions → Dialog → Dialog
confirm options d = record d {
  opts = some options;
  resolver = some d.promises;
  promises = d.promises + 1;
}

-- `resolveRef.current?.(result)`
unfoldable pub resolve : Option ℕ → Bool → List (ℕ × Bool) → List (ℕ × Bool)
resolve none result resolved = resolved
resolve (some i) result resolved = (i, result) ∷ resolved

unfoldable pub close : Bool → Dialog → Dialog
unfolding resolve
close result d = record d {
  opts = none;
  resolver = none;
  resolved = resolve d.resolver result d.resolved;
}

unfoldable pub is_danger : Dialog → Bool
is_danger d = elim d.opts [ none ↦ true | some o ↦ elim o.danger [ none ↦ true | some b ↦ b ] ]

unfoldable pub label : Dialog → String
unfolding is_danger
label d =
    let usual = if is_danger d then "Delete" else "Confirm" in
    elim d.opts [ none ↦ usual | some o ↦ elim o.confirm_label [ none ↦ usual | some l ↦ l ] ]

-- How often a promise was resolved.
unfoldable pub times : ℕ → List (ℕ × Bool) → ℕ
times i [] = 0
times i (a ∷ resolved) = let rest = times i resolved in if i == a.0 then rest + 1 else rest

-- The modal is on the page while there are options; only then can it be answered.
pub data Asks : Dialog → Dialog → Type 0 where
  asked : (d : Dialog) (o : ConfirmOptions) → Asks d (confirm o d)
  answered :
      (d : Dialog) (o : ConfirmOptions) (result : Bool) → d.opts ≡ some o → Asks d (close result d)

pub data Runs : Dialog → Dialog → Type 0 where
  done : (d : Dialog) → Runs d d
  more : (d d' d'' : Dialog) → Runs d d' → Asks d' d'' → Runs d d''
