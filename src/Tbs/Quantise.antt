-- ===== src/Tbs/Quantise.antt =====
-- The two formulas of `tbs_table_lookup` of nr_types.hpp: how far they take a transport block from
-- the bits that its resources carry.
use native.Mathlib.Nat.{div-mul-le_self, lt-div-mul-add, one-le-pow, pow-le-pow_right}
use native.Mathlib.Numerals.{towards_suc}
use nr5g_basic_scheduler.Base.{
  ℕ, ◌+◌, ◌-◌, ◌*◌, ◌/◌, ◌^◌, ◌≤◌, ◌<◌, ◌≡◌, ◌∙◌, refl, ap, ◌⊎◌, inl, inr, max, some, ltb, leb,
  true, false, ◌==◌, ◌||◌, arith, if◌then◌else◌, Bool-cases,
}
use nr5g_basic_scheduler.Tbs.Log.{floor_log2, floor_log2_bounds}
use nr5g_basic_scheduler.Tbs.{small_tbs, large_tbs, quantised}

two_pow-pos : (k : ℕ) → 0 < 2 ^ k
two_pow-pos k = one-le-pow k 2 (omega arith)

-- Shifting right and left again drops less than one quantum.
shift_bounds : (x k : ℕ) → (x / 2 ^ k * 2 ^ k ≤ x) × (x < x / 2 ^ k * 2 ^ k + 2 ^ k)
shift_bounds x k = (div-mul-le_self x (2 ^ k), lt-div-mul-add (two_pow-pos k))

two_pow-add_six : (k : ℕ) → 2 ^ (k + 6) ≡ 2 ^ k * 64
two_pow-add_six k = simp towards_suc (omega arith)

two_pow-add_five : (k : ℕ) → 2 ^ (k + 5) ≡ 2 ^ k * 32
two_pow-add_five k = simp towards_suc (omega arith)

small_quantum :
    (n : ℕ)
    → 64 ≤ n
    → n < 2 ^ 32
    → (2 ^ max 3 (floor_log2 n - 6) ≤ 8) ⊎ (2 ^ max 3 (floor_log2 n - 6) * 64 ≤ n)
small_quantum n h b = elim (Bool-cases (ltb (floor_log2 n) 9)) [
  | inl low ↦ let e : max 3 (floor_log2 n - 6) ≡ 3 = ground arith in inl (rw e (omega arith))
  | inr high ↦
      let e : floor_log2 n ≡ max 3 (floor_log2 n - 6) + 6 = ground arith in
      inr (
        omega (
          arith,
          ap (λ k. 2 ^ k) e,
          two_pow-add_six (max 3 (floor_log2 n - 6)),
          (floor_log2_bounds n (omega arith) b).0,
        ))
]

two_pow-lt : (k : ℕ) → k < 6 → 2 ^ k * 2 ≤ 64
two_pow-lt k h = omega (arith, pow-le-pow_right {n = 2} (omega arith) {i = k} {j = 5} (omega arith))

-- The logarithm is below 6 exactly below 64.
pub log_below : (n : ℕ) → n < 2 ^ 32 → (n == 0 || ltb (floor_log2 n) 6) ≡ ltb n 64
log_below n b = elim (Bool-cases (n == 0)) [
  | inl zero_bits ↦ let none_left : n ≡ 0 = ground arith in rw none_left refl
  | inr some_bits ↦
      let bounds = floor_log2_bounds n (ground arith) b in
      elim (Bool-cases (ltb (floor_log2 n) 6)) [
        | inl low ↦
            let quantum = two_pow-lt (floor_log2 n) (ground arith) in
            let small : ltb n 64 ≡ true = ground arith in rw (some_bits, low, small) refl
        | inr high ↦
            let e : floor_log2 n ≡ floor_log2 n - 6 + 6 = ground arith in
            let quantum : 2 ^ floor_log2 n ≡ 2 ^ (floor_log2 n - 6) * 64 =
              ap (λ k. 2 ^ k) e ∙ two_pow-add_six (floor_log2 n - 6) in
            let one : 0 < 2 ^ (floor_log2 n - 6) = two_pow-pos (floor_log2 n - 6) in
            let large : ltb n 64 ≡ false = ground arith in rw (some_bits, high, large) refl
      ]
]

-- From 64 to 3824 bits the block size is defined; its bits exceed the bits carried by at most 7
-- (the last byte), and fall short by less than 8 or a 64th part.
pub small_tbs_bounds :
    (n : ℕ)
    → 64 ≤ n
    → n ≤ 3824
    → (tbs : ℕ) × (small_tbs n ≡ some tbs) × (8 * tbs ≤ n + 7) × (n < 8 * tbs + max 8 (n / 64))
unfolding small_tbs
small_tbs_bounds n h k =
    let q = max 3 (floor_log2 n - 6) in
    let defined : (n == 0 || ltb (floor_log2 n) 6) ≡ false =
      log_below n (omega arith) ∙ ground arith in
    (
      (max 24 (n / 2 ^ q * 2 ^ q) + 7) / 8,
      rw defined refl,
      omega (arith, shift_bounds n q, small_quantum n h (omega arith)),
      omega (arith, shift_bounds n q, small_quantum n h (omega arith)),
    )

large_quantum : (m : ℕ) → 3800 < m → m < 2 ^ 32 → 2 ^ (floor_log2 m - 5) * 32 ≤ m
large_quantum m h b = elim (Bool-cases (ltb (floor_log2 m) 5)) [
  | inl low ↦ let e : floor_log2 m - 5 ≡ 0 = ground arith in rw e (omega arith)
  | inr high ↦
      let e : floor_log2 m ≡ floor_log2 m - 5 + 5 = ground arith in
      omega (
        arith,
        ap (λ k. 2 ^ k) e,
        two_pow-add_five (floor_log2 m - 5),
        (floor_log2_bounds m (omega arith) b).0,
      )
]

-- `large_tbs` after the shift.
finish : ℕ → ℕ
finish n_info_prime =
    let c = (n_info_prime + 24 + 8423) / 8424 in
    let tbs =
      if ltb n_info_prime 8424
      then 8 * ((n_info_prime + 24 + 31) / 32) - 24
      else 8 * c * ((n_info_prime + 24) / (8 * c) + 1) - 24 in
    (tbs + 7) / 8

large_tbs-eq-finish :
    (n : ℕ)
    → let k = floor_log2 (n - 24) - 5 in large_tbs n ≡ finish (max 3840 ((n - 24) / 2 ^ k * 2 ^ k))
unfolding large_tbs finish
large_tbs-eq-finish n = refl

finish_below : (x : ℕ) → x < 8424 → finish x ≤ 261
unfolding finish
finish_below x h = ground arith

finish_above : (x : ℕ) → 8424 ≤ x → (x < 8 * finish x) × (8 * finish x ≤ x + x / 1053 + 23)
unfolding finish
finish_above x h =
    let c = (x + 24 + 8423) / 8424 in
    let q = (x + 24) / (8 * c) in
    let lower : q * (8 * c) ≤ x + 24 = div-mul-le_self (x + 24) (8 * c) in
    let upper : x + 24 < q * (8 * c) + 8 * c =
      lt-div-mul-add {a = x + 24} {b = 8 * c} (omega arith) in
    ground arith

-- From 3825 up to 8447 bits, a block is smaller than the block for 3824 bits: the size falls by
-- almost a half where the code passes to its second formula.
pub large_tbs-lt-small_tbs :
    (n : ℕ) → 3824 < n → n < 8448 → (tbs : ℕ) × (quantised 3824 ≡ some tbs) × (large_tbs n < tbs)
unfolding quantised small_tbs floor_log2
large_tbs-lt-small_tbs n h k =
    let q = floor_log2 (n - 24) - 5 in
    (
      476,
      refl,
      rw (large_tbs-eq-finish n) (
          omega (
            arith,
            shift_bounds (n - 24) q,
            finish_below (max 3840 ((n - 24) / 2 ^ q * 2 ^ q))
                (omega (arith, shift_bounds (n - 24) q)),
          )),
    )

-- From 8720 bits up to 2 ^ 22 the bits of the block exceed the bits carried by at most one part in
-- 1053, and fall short by at most a 32nd part and 24 bits.
pub large_tbs_bounds :
    (n : ℕ)
    → 8720 ≤ n
    → n < 2 ^ 22
    → (8 * large_tbs n ≤ n + n / 1053) × (n ≤ 8 * large_tbs n + n / 32 + 24)
large_tbs_bounds n h k =
    let q = floor_log2 (n - 24) - 5 in
    let x = max 3840 ((n - 24) / 2 ^ q * 2 ^ q) in
    let quantum = large_quantum (n - 24) (omega arith) (omega arith) in
    let enough : 8424 ≤ x = omega (arith, shift_bounds (n - 24) q) in
    rw (large_tbs-eq-finish n) (
      omega (arith, shift_bounds (n - 24) q, finish_above x enough),
      omega (arith, shift_bounds (n - 24) q, finish_above x enough),
    )

large_tbs_le : (n : ℕ) → 3824 < n → 8 * large_tbs n ≤ n + n / 1053
large_tbs_le n h =
    let q = floor_log2 (n - 24) - 5 in
    let x = max 3840 ((n - 24) / 2 ^ q * 2 ^ q) in
    rw (large_tbs-eq-finish n) (elim (Bool-cases (ltb x 8424)) [
      | inl low ↦ let few = finish_below x (ground arith) in omega arith
      | inr high ↦
          let large : 8424 ≤ x = ground arith in
          omega (arith, shift_bounds (n - 24) q, finish_above x large)
    ])

-- From 64 bits on the size is defined, and its bits exceed the bits carried by at most one part in
-- 1053 and 7 bits.
pub quantised_le :
    (n : ℕ) → 64 ≤ n → (tbs : ℕ) × (quantised n ≡ some tbs) × (8 * tbs ≤ n + n / 1053 + 7)
unfolding quantised
quantised_le n h = elim (Bool-cases (leb n 3824)) [
  | inl small ↦
      let (tbs, e, b, _) = small_tbs_bounds n h (ground arith) in (tbs, rw small e, omega arith)
  | inr large ↦ (large_tbs n, rw large, let b = large_tbs_le n (ground arith) in omega arith)
]
