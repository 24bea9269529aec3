-- ===== src/Channels/Occasions.antt =====
-- `SrConfig::is_sr_occasion` of pucch_manager.hpp: in which slots there is an occasion.
use native.Mathlib.Nat.{
  mul-le-mul_right, mul-add-mod_self_right, mod-lt, mod-add-mod, mod-eq_of_lt, mod-eq-sub-mod,
  div-add-mod',
}
use nr5g_basic_scheduler.Base.{
  ℕ, ◌+◌, ◌-◌, ◌*◌, ◌/◌, ◌%◌, ◌^◌, ◌≤◌, ◌<◌, ◌≡◌, refl, sym, ap, ◌∙◌, inl, inr, true, false, ltb,
  leb, ◌==◌, some, if◌then◌else◌, arith, Bool-cases, some_unique,
}
use nr5g_basic_scheduler.Channels.Pucch.{SrConfig, is_sr_occasion}

-- A remainder of a sum of two numbers that are smaller than the divisor.
sum_mod : (r j p : ℕ) → r < p → j < p → (r + j) % p ≡ (if ltb (r + j) p then r + j else r + j - p)
sum_mod r j p h k = elim (Bool-cases (ltb (r + j) p)) [
  | inl less ↦ mod-eq_of_lt (ground arith) ∙ rw less refl
  | inr more ↦
      mod-eq-sub-mod {n = r + j} {m = p} (ground arith) ∙ mod-eq_of_lt (ground arith) ∙ rw more refl
]

module _ (c : SrConfig) (slots_per_frame : ℕ) where
  -- Whether there is an occasion in a slot that is counted from some frame 0 on. Frames are numbered
  -- from 0 to 1023 again and again.
  abbrev pub HasChance : ℕ → Type 0
  HasChance a =
      is_sr_occasion c (a / slots_per_frame % 1024) (a % slots_per_frame) slots_per_frame
      ≡ some true

  -- The number that the code computes differs from `a` by whole cycles of frames.
  cycles :
      (a : ℕ)
      → let q = a / slots_per_frame in
        q / 1024 * (1024 * slots_per_frame) + (q % 1024 * slots_per_frame + a % slots_per_frame) ≡ a
  cycles a =
      let q = a / slots_per_frame in
      let whole : q * slots_per_frame + a % slots_per_frame ≡ a = div-add-mod' a slots_per_frame in
      let frames = ap (λ n. n * slots_per_frame) (div-add-mod' q 1024) in omega arith

  module _ (k : ℕ) (divides : k * c.periodicity_slots ≡ 1024 * slots_per_frame)
      (some_slots : 1 ≤ slots_per_frame) (few_slots : slots_per_frame ≤ 256) where
    occasion_at :
        (a : ℕ)
        → 1 ≤ c.periodicity_slots
        → is_sr_occasion c (a / slots_per_frame % 1024) (a % slots_per_frame) slots_per_frame
          ≡ some (a % c.periodicity_slots == c.offset_slots)
    unfolding is_sr_occasion
    occasion_at a h =
        let q = a / slots_per_frame in
        let n = q % 1024 * slots_per_frame + a % slots_per_frame in
        let inside : a % slots_per_frame < slots_per_frame = mod-lt a some_slots in
        let frames : q % 1024 * slots_per_frame ≤ 1023 * slots_per_frame =
          mul-le-mul_right slots_per_frame (omega arith) in
        let times = ap (λ x. q / 1024 * x) divides in
        let sum = cycles a in
        let whole : q / 1024 * k * c.periodicity_slots + n ≡ a = omega arith in
        let same : n % c.periodicity_slots ≡ a % c.periodicity_slots =
          sym (mul-add-mod_self_right (q / 1024 * k) c.periodicity_slots n)
          ∙ ap (λ x. x % c.periodicity_slots) whole in
        let divisor : (c.periodicity_slots == 0) ≡ false = ground arith in
        let fits : ltb n (2 ^ 31) ≡ true = ground arith in rw (divisor, fits, same) refl

    -- For frames of 1 to 256 slots, a period that divides the number of slots of the 1024 frames after
    -- which frames are numbered from 0 again, and an offset within the period: among any slots in a
    -- row that are as many as the period there is just one with an occasion.
    pub is_sr_occasion_once :
        (a : ℕ)
        → c.offset_slots < c.periodicity_slots
        → (j : ℕ) × (j < c.periodicity_slots)
          × HasChance (a + j)
          × ((i : ℕ) → i < c.periodicity_slots → HasChance (a + i) → i ≡ j)
    is_sr_occasion_once a o =
        let p = c.periodicity_slots in
        let h : 1 ≤ p = omega arith in
        let r = a % p in
        let small : r < p = mod-lt a h in
        let j = if leb r c.offset_slots then c.offset_slots - r else p + c.offset_slots - r in
        let inside : j < p = ground arith in
        let at : (i : ℕ) → i < p → (a + i) % p ≡ (if ltb (r + i) p then r + i else r + i - p) =
          λ i k. sym (mod-add-mod a p i) ∙ sum_mod r i p small k in
        (
          j,
          inside,
          occasion_at (a + j) h ∙ ap some (ground (arith, at j inside)),
          λ i k e.
              let tested : ((a + i) % p == c.offset_slots) ≡ true =
                some_unique (occasion_at (a + i) h) e in
              ground (arith, at i k),
        )
