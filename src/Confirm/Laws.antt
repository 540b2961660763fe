-- ===== src/Confirm/Laws.antt =====
-- The promises of the confirm dialog (web/ui/src/shared/ConfirmDialog.tsx).
use haul.Base.{
  none≢some, some-injective, ℕ, ◌+◌, ◌≤◌, ◌<◌, ◌≡◌, ◌≢◌, refl, sym, ◌∙◌, ap, inl, inr, arith, Bool,
  true, false, Option, none, some, List, ◌∷◌, ◌==◌, ◌⊎◌, Bool-cases,
}
use haul.Confirm.{
  Dialog, ConfirmOptions, no_dialog, confirm, close, resolve, times, Asks, asked, answered, Runs,
  done, more,
}

-- What holds of a promise at all times.
Once : ℕ → Dialog → Type 0
Once i d =
    (d.promises ≤ i → times i d.resolved ≡ 0)
    × (times i d.resolved ≤ 1)
    × (d.resolver ≡ some i → (times i d.resolved ≡ 0) × (i < d.promises))

times_other :
    (i j : ℕ) (r : Bool) (rs : List (ℕ × Bool)) → i ≢ j → times i ((j, r) ∷ rs) ≡ times i rs
unfolding times
times_other i j r rs h = ground arith

same : (i j : ℕ) → (i == j) ≡ true → i ≡ j
same i j e = ground arith

differ : (i j : ℕ) → (i == j) ≡ false → i ≢ j
differ i j e h = ground arith

other : (i p : ℕ) → i < p → some p ≢ some i
other i p h e = let q = some-injective e in omega arith

again :
    (i j : ℕ) (r : Bool) (rs : List (ℕ × Bool))
    → (i == j) ≡ true
    → times i ((j, r) ∷ rs) ≡ times i rs + 1
unfolding times
again i j r rs e = ground arith

times-resolve :
    (i : ℕ) (t : Option ℕ) (r : Bool) (rs : List (ℕ × Bool))
    → ((t ≡ some i) × (times i (resolve t r rs) ≡ times i rs + 1))
      ⊎ ((t ≢ some i) × (times i (resolve t r rs) ≡ times i rs))
unfolding resolve
times-resolve i none r rs = inr (none≢some, refl)
times-resolve i (some j) r rs = elim (Bool-cases (i == j)) [
  | inl e ↦ inl (ap some (sym (same i j e)), again i j r rs e)
  | inr e ↦ inr (λ p. differ i j e (sym (some-injective p)), times_other i j r rs (differ i j e))
]

Asks-Once : (i : ℕ) {d d' : Dialog} → Asks d d' → Once i d → Once i d'
unfolding Once confirm close
Asks-Once i (asked d o) h =
    (λ k. h.0 (omega arith), h.1, λ e. let p = some-injective e in (h.0 (omega arith), omega arith))
Asks-Once i (answered d o r e) h = elim (times-resolve i d.resolver r d.resolved) [
  | inl (p, q) ↦
      let w = h.2 p in (λ k. absurd (omega arith), omega arith, λ e'. absurd (none≢some e'))
  | inr (p, q) ↦ (λ k. q ∙ h.0 k, omega arith, λ e'. absurd (none≢some e'))
]

Runs-keeps : (i : ℕ) {d d' : Dialog} → Runs d d' → Once i d → Once i d'
Runs-keeps i (done d) h = h
Runs-keeps i (more d d' d'' r a) h = Asks-Once i a (Runs-keeps i r h)

Runs-Once : (i : ℕ) {d : Dialog} → Runs no_dialog d → Once i d
unfolding Once times
Runs-Once i r = Runs-keeps i r (λ k. refl, omega arith, λ e. absurd (none≢some e))

-- However often the dialog is asked and answered, every promise is resolved at most once, and one
-- that waits has not been resolved yet.
pub Runs-once :
    (i : ℕ) (d : Dialog)
    → Runs no_dialog d
    → (times i d.resolved ≤ 1) × (d.resolver ≡ some i → (times i d.resolved ≡ 0) × (i < d.promises))
unfolding Once
Runs-once i d r = let h = Runs-Once i r in (h.1, h.2)

-- A promise that nothing will resolve any more.
Lost : ℕ → Dialog → Type 0
Lost i d = (i < d.promises) × (d.resolver ≢ some i) × (times i d.resolved ≡ 0)

Asks-Lost : (i : ℕ) {d d' : Dialog} → Asks d d' → Lost i d → Lost i d'
unfolding Lost confirm close
Asks-Lost i (asked d o) h =
    (omega arith, λ e. let p = some-injective e in absurd (omega (arith, h.0)), h.2)
Asks-Lost i (answered d o r e) h = elim (times-resolve i d.resolver r d.resolved) [
  | inl (p, q) ↦ absurd (h.1 p)
  | inr (p, q) ↦ (h.0, none≢some, q ∙ h.2)
]

Runs-Lost : (i : ℕ) {d d' : Dialog} → Runs d d' → Lost i d → Lost i d'
Runs-Lost i (done d) h = h
Runs-Lost i (more d d' d'' r a) h = Asks-Lost i a (Runs-Lost i r h)

-- Where the dialog is asked again while it is open, the promise that waited is never resolved,
-- whatever is asked and answered afterwards.
pub times-confirm :
    (d d' : Dialog) (o : ConfirmOptions) (i : ℕ)
    → Runs no_dialog d
    → d.resolver ≡ some i
    → Runs (confirm o d) d'
    → times i d'.resolved ≡ 0
unfolding Lost confirm Once
times-confirm d d' o i r w s =
    let h = (Runs-Once i r).2 w in
    (Runs-Lost i s (omega (arith, h.1), λ e. other i d.promises h.1 e, h.0)).2
