-- ===== src/Tbs/Log.antt =====
-- The whole part of the logarithm to base 2, which stands for `std::floor(std::log2(x))`. A double
-- gives it exactly for every positive `uint32_t`.
use native.Mathlib.Nat.{pow-suc}
use native.Mathlib.Numerals.{add-one}
use nr5g_basic_scheduler.Base.{
  ℕ, zero, suc, ◌+◌, ◌*◌, ◌/◌, ◌^◌, ◌≤◌, ◌<◌, ◌≡◌, true, false, ltb, arith, inl, inr, Bool-cases,
}

log2_within : ℕ → ℕ → ℕ
log2_within zero n = 0
log2_within (suc bits) n = elim (ltb n 2) [ true ↦ 0 | false ↦ log2_within bits (n / 2) + 1 ]

-- Thirty-two halvings reach 1 from any 32-bit number.
unfoldable pub floor_log2 : ℕ → ℕ
unfolding log2_within
floor_log2 n = log2_within 32 n

two_pow-add_one : (k : ℕ) → 2 ^ (k + 1) ≡ 2 ^ k * 2
two_pow-add_one k = rw add-one (pow-suc 2 k)

log2_within_bounds :
    (bits n : ℕ)
    → 0 < n
    → n < 2 ^ bits
    → (2 ^ log2_within bits n ≤ n) × (n < 2 ^ log2_within bits n * 2)
unfolding log2_within
log2_within_bounds zero n p h = absurd (omega arith)
log2_within_bounds (suc bits) n p h = elim (Bool-cases (ltb n 2)) [
  | inl small ↦ rw (small, log2_within) (ground arith)
  | inr large ↦
      let half = log2_within_bounds bits (n / 2) (ground arith) (omega (arith, pow-suc 2 bits)) in
      let least : 2 ≤ n = ground arith in
      rw (large, log2_within)
        (omega (arith, two_pow-add_one (log2_within bits (n / 2)), half.0, half.1))
]

pub floor_log2_bounds :
    (n : ℕ) → 0 < n → n < 2 ^ 32 → (2 ^ floor_log2 n ≤ n) × (n < 2 ^ floor_log2 n * 2)
unfolding floor_log2
floor_log2_bounds n = log2_within_bounds 32 n
