-- ===== src/Timing/Diff.antt =====
-- `FrameTiming::diff` of nr_types.hpp.
use native.Mathlib.Nat.{mod-eq_of_lt, mod-eq-sub-mod}
use nr5g_basic_scheduler.Base.{
  ℕ, zero, suc, ◌+◌, ◌-◌, ◌*◌, ◌%◌, ◌≤◌, ◌<◌, ◌≡◌, refl, true, ◌∙◌, sym, ap, ◌⊎◌, inl, inr, arith,
  ltb, if◌then◌else◌, Bool-cases,
}
use nr5g_basic_scheduler.Base.Int.{ℤ, pos, negsuc, sub_ℕ, ◌+ℤ◌, ◌-ℤ◌, ◌≤ℤ◌, ltb_ℤ}
use nr5g_basic_scheduler.Timing.{FrameTiming, IsValid, advanced, diff, same_slot}
use nr5g_basic_scheduler.Timing.Advance.{
  raw, raw-lt, raw-advanced, raw_injective, advanced-IsValid, slots_per_frame-advanced,
}

-- `diff` over the difference of the two slot counts and the slots of a frame.
wrap : ℤ → ℕ → ℤ
unfolding ◌+ℤ◌ ◌-ℤ◌
wrap d p =
    if ltb_ℤ (pos (512 * p)) d
    then d -ℤ pos (1024 * p)
    else if ltb_ℤ d (pos 0 -ℤ pos (512 * p))
    then d +ℤ pos (1024 * p)
    else d

short_way : (a b p : ℕ) → ℤ
unfolding wrap
short_way a b p = wrap (sub_ℕ a b) p

diff-eq-short_way : (t o : FrameTiming) → diff t o ≡ short_way (raw t) (raw o) t.slots_per_frame
unfolding diff short_way raw
diff-eq-short_way t o = refl

-- Past the end of the cycle the count starts again.
mod_cases : (x m : ℕ) → x < m + m → ((x < m) × (x % m ≡ x)) ⊎ ((m ≤ x) × (x % m ≡ x - m))
mod_cases x m h = elim (Bool-cases (ltb x m)) [
  | inl small ↦ inl (ground arith, mod-eq_of_lt (ground arith))
  | inr large ↦
      inr
        (ground arith, mod-eq-sub-mod {n = x} {m = m} (ground arith) ∙ mod-eq_of_lt (ground arith))
]

short_way_ahead :
    (b k p : ℕ) → b < 1024 * p → k < 512 * p → short_way ((b + k) % (1024 * p)) b p ≡ pos k
unfolding short_way
short_way_ahead b k p hb hk = ground (arith, mod_cases (b + k) (1024 * p))

-- For a valid time and a step of less than half a cycle, the difference to the time a step later is
-- the step.
pub diff-advanced :
    (t : FrameTiming) (k : ℕ)
    → IsValid t
    → k < 512 * t.slots_per_frame
    → diff (advanced t k) t ≡ pos k
unfolding advanced
diff-advanced t k v h =
    diff-eq-short_way (advanced t k) t
    ∙ rw (raw-advanced t k v) (short_way_ahead (raw t) k t.slots_per_frame (raw-lt t v) h)

short_way_exact :
    (a b k p : ℕ) → a < 1024 * p → b < 1024 * p → short_way a b p ≡ pos k → (b + k) % (1024 * p) ≡ a
unfolding short_way
short_way_exact a b k p ha hb e = ground (arith, mod_cases (b + k) (1024 * p))

-- Between valid times of one numerology, a difference of k slots (not negative) means that k slots
-- after the earlier time it is the later one, by `operator==`.
pub same_slot-advanced-diff :
    (t o : FrameTiming) (k : ℕ)
    → IsValid t
    → IsValid o
    → t.slots_per_frame ≡ o.slots_per_frame
    → diff t o ≡ pos k
    → same_slot (advanced o k) t ≡ true
unfolding same_slot
same_slot-advanced-diff t o k v w p e =
    let near : short_way (raw t) (raw o) t.slots_per_frame ≡ pos k =
      sym (diff-eq-short_way t o) ∙ e in
    let bound : raw o < 1024 * t.slots_per_frame = omega (arith, raw-lt o w) in
    let later : raw (advanced o k) ≡ raw t =
      raw-advanced o k w
      ∙ ap (λ n. (raw o + k) % (1024 * n)) (sym p)
      ∙ short_way_exact (raw t) (raw o) k t.slots_per_frame (raw-lt t v) bound near in
    let numerology : (advanced o k).slots_per_frame ≡ t.slots_per_frame =
      slots_per_frame-advanced o k ∙ sym p in
    let same : ((advanced o k).sfn ≡ t.sfn) × ((advanced o k).slot ≡ t.slot) =
      raw_injective (advanced o k) t (advanced-IsValid o k w) v numerology later in
    ground arith

wrap_pos : (n p : ℕ) → wrap (pos n) p ≡ (if ltb (512 * p) n then sub_ℕ n (1024 * p) else pos n)
unfolding wrap
wrap_pos n p = ground arith

wrap_negsuc :
    (n p : ℕ)
    → wrap (negsuc n) p ≡ (if ltb (512 * p) (suc n) then sub_ℕ (1024 * p) (suc n) else negsuc n)
unfolding wrap
wrap_negsuc n p = ground arith

wrap_neg : (d : ℤ) (p : ℕ) → wrap (pos 0 -ℤ d) p ≡ pos 0 -ℤ wrap d p
unfolding ◌-ℤ◌
wrap_neg (pos zero) p = ground (arith, wrap_pos zero p)
wrap_neg (pos (suc n)) p = ground (arith, wrap_pos (suc n) p, wrap_negsuc n p)
wrap_neg (negsuc n) p = ground (arith, wrap_pos (suc n) p, wrap_negsuc n p)

sub_ℕ_swap : (a b : ℕ) → sub_ℕ a b ≡ pos 0 -ℤ sub_ℕ b a
unfolding ◌-ℤ◌
sub_ℕ_swap a b = ground arith

short_way_swap : (a b p : ℕ) → short_way a b p ≡ pos 0 -ℤ short_way b a p
unfolding short_way
short_way_swap a b p = ap (λ d. wrap d p) (sub_ℕ_swap a b) ∙ wrap_neg (sub_ℕ b a) p

short_way_le : (a b p : ℕ) → a < 1024 * p → b < 1024 * p → short_way a b p ≤ℤ pos (512 * p)
unfolding short_way
short_way_le a b p ha hb = ground arith

-- Between times of one numerology the difference changes its sign with the order; between valid ones
-- it is at most half a cycle.
pub diff_bounds :
    (t o : FrameTiming)
    → IsValid t
    → IsValid o
    → t.slots_per_frame ≡ o.slots_per_frame
    → (diff t o ≡ pos 0 -ℤ diff o t) × (diff t o ≤ℤ pos (512 * t.slots_per_frame))
diff_bounds t o v w p =
    let bound : raw o < 1024 * t.slots_per_frame = omega (arith, raw-lt o w) in
    let back : diff o t ≡ short_way (raw o) (raw t) t.slots_per_frame =
      diff-eq-short_way o t ∙ ap (short_way (raw o) (raw t)) (sym p) in
    rw (diff-eq-short_way t o, back)
      (
        short_way_swap (raw t) (raw o) t.slots_per_frame,
        short_way_le (raw t) (raw o) t.slots_per_frame (raw-lt t v) bound,
      )
