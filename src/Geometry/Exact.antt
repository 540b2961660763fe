-- ===== src/Geometry/Exact.antt =====
-- Scaling in exact arithmetic: the parameter of the piece bar's mathematics can be met.
use haul.Base.{ℕ, ◌+◌, ◌*◌, ◌/◌, ◌≤◌, ◌<◌, ◌≡◌, arith}
use haul.Geometry.{Scaling}

div_mono : (a b n : ℕ) → a ≤ b → 0 < n → a / n ≤ b / n
div_mono a b n h p = grind arith

unfoldable pub floor_exact : ℕ → ℕ → ℕ → ℕ
floor_exact i n w = i * w / n

unfoldable pub round_exact : ℕ → ℕ → ℕ → ℕ
round_exact i n w = (2 * i * w + n) / (2 * n)

pub round_exact_mono : (i j n w : ℕ) → i ≤ j → 0 < n → round_exact i n w ≤ round_exact j n w
unfolding round_exact
round_exact_mono i j n w h p = div_mono _ _ (2 * n) (grind arith) (omega arith)

pub round_exact_zero : (n w : ℕ) → 0 < n → round_exact 0 n w ≡ 0
unfolding round_exact
round_exact_zero n w p = grind arith

pub round_exact_full : (n w : ℕ) → 0 < n → round_exact n n w ≡ w
unfolding round_exact
round_exact_full n w p = grind arith

pub floor_exact_mono : (i j n w : ℕ) → i ≤ j → 0 < n → floor_exact i n w ≤ floor_exact j n w
unfolding floor_exact
floor_exact_mono i j n w h p = div_mono (i * w) (j * w) n (grind arith) p

pub floor_exact_zero : (n w : ℕ) → 0 < n → floor_exact 0 n w ≡ 0
unfolding floor_exact
floor_exact_zero n w p = grind arith

unfoldable pub exact : Scaling
unfolding floor_exact round_exact
exact = record {
  floor_at = floor_exact;
  round_at = round_exact;
  round_mono = round_exact_mono;
  round_zero = round_exact_zero;
  round_full = round_exact_full;
  floor_mono = floor_exact_mono;
  floor_zero = floor_exact_zero;
}
