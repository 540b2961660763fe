-- ===== src/Formats/Tests.antt =====
-- The formats on concrete numbers, with a logarithm that counts the powers of 1024 by comparison.
use haul.Base.{
  ℕ, zero, suc, ◌+◌, ◌*◌, ◌^◌, ◌≤◌, ◌≡◌, refl, arith, if◌then◌else◌, ltb, ◌<>◌, show_nat,
}
use haul.Formats.{Logarithm, format_bytes}
use haul.Formats.Laws.{format_bytes-undefined}

-- 1 where n reaches the bound.
unfoldable reaches : ℕ → ℕ → ℕ
reaches bound n = if ltb n bound then 0 else 1

reaches_mono : (bound m n : ℕ) → m ≤ n → reaches bound m ≤ reaches bound n
unfolding reaches
reaches_mono bound m n h = ground arith

abbrev log_1024 : ℕ → ℕ
log_1024 n =
    reaches 1024 n
    + (reaches (1024 ^ 2) n
        + (reaches (1024 ^ 3) n + (reaches (1024 ^ 4) n + reaches (1024 ^ 5) n)))

log_1024-pow : (k : ℕ) → k ≤ 5 → log_1024 (1024 ^ k) ≡ k
unfolding reaches
log_1024-pow zero h = refl
log_1024-pow (suc zero) h = refl
log_1024-pow (suc (suc zero)) h = refl
log_1024-pow (suc (suc (suc zero))) h = refl
log_1024-pow (suc (suc (suc (suc zero)))) h = refl
log_1024-pow (suc (suc (suc (suc (suc zero))))) h = refl
log_1024-pow (suc (suc (suc (suc (suc (suc k)))))) h = absurd (omega arith)

log_1024_mono : (m n : ℕ) → m ≤ n → log_1024 m ≤ log_1024 n
log_1024_mono m n h =
    let a = reaches_mono 1024 m n h in
    let b = reaches_mono (1024 ^ 2) m n h in
    let c = reaches_mono (1024 ^ 3) m n h in
    let d = reaches_mono (1024 ^ 4) m n h in let e = reaches_mono (1024 ^ 5) m n h in omega arith

abbrev counting : Logarithm
counting = record {
  floor_log = log_1024;
  amount = λ n i. show_nat n;
  floor_log-pow = log_1024-pow;
  floor_log_mono = log_1024_mono;
}

format_bytes-undefined_example :
    format_bytes counting (2 * 1024 ^ 5)
    ≡ counting.amount (2 * 1024 ^ 5) (counting.floor_log (2 * 1024 ^ 5)) <> " undefined"
format_bytes-undefined_example = format_bytes-undefined counting (2 * 1024 ^ 5) (omega arith)
