-- ===== src/Formats/Laws.antt =====
-- Which number and unit each format shows.
use haul.Base.{
  ◌==◌, false, Bool-cases, inl, inr, ==_iff, ◌⊎◌, ℕ, zero, suc, ◌+◌, ◌*◌, ◌^◌, ◌≤◌, ◌<◌, ◌≡◌, refl,
  arith, if◌then◌else◌, ltb, ◌<>◌, show_nat,
}
use mathlib.Core.Path.{subst}
use haul.Formats.{Logarithm, unit, format_bytes, format_inactive}

-- Past the list of units the template reads "undefined".
unit_undefined : (i : ℕ) → 5 ≤ i → unit i ≡ "undefined"
unit_undefined zero h = absurd (omega arith)
unit_undefined (suc zero) h = absurd (omega arith)
unit_undefined (suc (suc zero)) h = absurd (omega arith)
unit_undefined (suc (suc (suc zero))) h = absurd (omega arith)
unit_undefined (suc (suc (suc (suc zero)))) h = absurd (omega arith)
unit_undefined (suc (suc (suc (suc (suc i))))) h = refl

nonzero : (n : ℕ) → 0 < n → n == 0 ≡ false
nonzero n h = ground arith

-- The text of a size with a given logarithm.
shown_with :
    (js : Logarithm) (bytes i : ℕ)
    → 0 < bytes
    → js.floor_log bytes ≡ i
    → format_bytes js bytes ≡ js.amount bytes i <> " " <> unit i
unfolding format_bytes
shown_with js bytes i h e = rw (nonzero bytes h, e) refl

-- The logarithm of a number at least, or at most, a power.
log_above : (js : Logarithm) (k n : ℕ) → k ≤ 5 → 1024 ^ k ≤ n → k ≤ js.floor_log n
log_above js k n p h =
    subst (λ x. x ≤ js.floor_log n) (js.floor_log-pow k p) (js.floor_log_mono (1024 ^ k) n h)

log_below : (js : Logarithm) (k n : ℕ) → k ≤ 5 → n ≤ 1024 ^ k → js.floor_log n ≤ k
log_below js k n p h =
    subst (λ x. js.floor_log n ≤ x) (js.floor_log-pow k p) (js.floor_log_mono n (1024 ^ k) h)

-- A positive size from 1024 ^ k to below 1024 ^ (k + 1) bytes, for k up to 4, is shown in the k-th unit, or in the
-- next one where the logarithm rounds up.
pub format_bytes-unit :
    (js : Logarithm) (bytes k : ℕ)
    → 0 < bytes
    → k < 5
    → 1024 ^ k ≤ bytes
    → bytes < 1024 ^ suc k
    → (format_bytes js bytes ≡ js.amount bytes k <> " " <> unit k)
      ⊎ (format_bytes js bytes ≡ js.amount bytes (suc k) <> " " <> unit (suc k))
unfolding format_bytes
format_bytes-unit js bytes k z h p q =
    let above = log_above js k bytes (omega arith) p in
    let below = log_below js (suc k) bytes (omega arith) (omega arith) in
    elim (Bool-cases (js.floor_log bytes == k)) [
      | inl e ↦ inl (shown_with js bytes k z ((==_iff (js.floor_log bytes) k).0 e))
      | inr e ↦ inr (shown_with js bytes (suc k) z (ground arith))
    ]

-- A size of 1024 ^ 5 bytes or more, a pebibyte, is shown in no unit: the text ends in "undefined".
pub format_bytes-undefined :
    (js : Logarithm) (bytes : ℕ)
    → 1024 ^ 5 ≤ bytes
    → format_bytes js bytes ≡ js.amount bytes (js.floor_log bytes) <> " undefined"
unfolding format_bytes
format_bytes-undefined js bytes h =
    rw
      (
        nonzero bytes (omega arith),
        unit_undefined (js.floor_log bytes) (log_above js 5 bytes (omega arith) h),
      )
      refl

-- The text of a stall is its hours and minutes, or its minutes and seconds, or its seconds: from the
-- first of them that is not 0 on, and the second is left out where it is 0.
pub format_inactive_lem :
    (h m s : ℕ)
    → m < 60
    → s < 60
    → format_inactive (h * 3600 + m * 60 + s) ≡ (
        if ltb 0 h
        then (if ltb 0 m then show_nat h <> "h " <> show_nat m <> "m" else show_nat h <> "h")
        else if ltb 0 m
        then (if ltb 0 s then show_nat m <> "m " <> show_nat s <> "s" else show_nat m <> "m")
        else show_nat s <> "s")
unfolding format_inactive
format_inactive_lem h m s p q = ground arith
