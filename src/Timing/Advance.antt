-- ===== src/Timing/Advance.antt =====
-- `FrameTiming::advanced` and `absolute_slot` of nr_types.hpp.
use native.Mathlib.Nat.{
  mul-add-div_right, mul-add-mod_self_right, div-eq_of_lt, mod-lt, mod-eq_of_lt,
  add-mul-mod_self_right, mod-add-mod, div-add-mod', add_assoc,
}
use nr5g_basic_scheduler.Base.{ℕ, ◌+◌, ◌*◌, ◌/◌, ◌%◌, ◌^◌, ◌<◌, ◌≡◌, refl, sym, ap, ◌∙◌, arith}
use nr5g_basic_scheduler.Timing.{FrameTiming, IsValid, absolute_slot, advanced}

-- The slot count of a valid time, before the cast to 32 bits, which changes nothing.
unfoldable pub raw : FrameTiming → ℕ
raw t = t.sfn * t.slots_per_frame + t.slot

pub raw-lt : (t : FrameTiming) → IsValid t → raw t < 1024 * t.slots_per_frame
unfolding raw
raw-lt t v = grind arith

pub absolute_slot-eq-raw : (t : FrameTiming) → IsValid t → absolute_slot t ≡ raw t
unfolding absolute_slot raw
absolute_slot-eq-raw t v = omega (arith, raw-lt t v)

-- Reducing the frame number first is reducing the slot count.
mod_frames : (a b p : ℕ) → b < p → a % 1024 * p + b ≡ (a * p + b) % (1024 * p)
mod_frames a b p h =
    let small : a % 1024 * p + b < 1024 * p = grind arith in
    let split : a * p + b ≡ a % 1024 * p + b + a / 1024 * (1024 * p) =
      omega (arith, ap (λ n. n * p) (div-add-mod' a 1024)) in
    rw (split, add-mul-mod_self_right (a % 1024 * p + b) (a / 1024) (1024 * p))
      (sym (mod-eq_of_lt small))

pub advanced-IsValid : (t : FrameTiming) (k : ℕ) → IsValid t → IsValid (advanced t k)
unfolding advanced
advanced-IsValid t k v = record {
  sfn_lt = omega arith;
  slot_lt = let h = mod-lt (t.slot + k) {m = t.slots_per_frame} (omega arith) in omega arith;
  slots_le = v.slots_le;
}

pub raw-advanced :
    (t : FrameTiming) (k : ℕ)
    → IsValid t
    → raw (advanced t k) ≡ (raw t + k) % (1024 * t.slots_per_frame)
unfolding advanced raw
raw-advanced t k v =
    let p = t.slots_per_frame in
    let total = t.slot + k in
    let frame : (t.sfn + total / p % 2 ^ 16) % 1024 ≡ (t.sfn + total / p) % 1024 = omega arith in
    let slot_lt : total % p < p = mod-lt total (omega arith) in
    let byte : total % p % 2 ^ 8 ≡ total % p = omega arith in
    let whole : (t.sfn + total / p) * p + total % p ≡ raw t + k =
      omega (arith, div-add-mod' total p) in
    rw (frame, byte, mod_frames (t.sfn + total / p) (total % p) p slot_lt, whole)

-- For a valid time, `absolute_slot` after `advanced t k` is the old one plus k, modulo the 1024
-- frames of the system frame number.
absolute_slot-advanced :
    (t : FrameTiming) (k : ℕ)
    → IsValid t
    → absolute_slot (advanced t k) ≡ (absolute_slot t + k) % (1024 * t.slots_per_frame)
absolute_slot-advanced t k v =
    rw (absolute_slot-eq-raw t v, absolute_slot-eq-raw (advanced t k) (advanced-IsValid t k v))
      (raw-advanced t k v)

frame_of : (s l p : ℕ) → l < p → (s * p + l) / p ≡ s
frame_of s l p h = rw (mul-add-div_right {m = p} (omega arith) s l, div-eq_of_lt h) (omega arith)

slot_of : (s l p : ℕ) → l < p → (s * p + l) % p ≡ l
slot_of s l p h = rw (mul-add-mod_self_right s p l) (mod-eq_of_lt h)

-- Two valid times of one numerology with the same slot count agree in frame and slot.
pub raw_injective :
    (a b : FrameTiming)
    → IsValid a
    → IsValid b
    → a.slots_per_frame ≡ b.slots_per_frame
    → raw a ≡ raw b
    → (a.sfn ≡ b.sfn) × (a.slot ≡ b.slot)
unfolding raw
raw_injective a b v w p e =
    let e' : a.sfn * a.slots_per_frame + a.slot ≡ b.sfn * a.slots_per_frame + b.slot =
      e ∙ ap (λ n. b.sfn * n + b.slot) (sym p) in
    let h : b.slot < a.slots_per_frame = omega arith in
    (
      sym (frame_of a.sfn a.slot a.slots_per_frame v.slot_lt)
          ∙ ap (λ n. n / a.slots_per_frame) e'
          ∙ frame_of b.sfn b.slot a.slots_per_frame h,
      sym (slot_of a.sfn a.slot a.slots_per_frame v.slot_lt)
          ∙ ap (λ n. n % a.slots_per_frame) e'
          ∙ slot_of b.sfn b.slot a.slots_per_frame h,
    )

pub slots_per_frame-advanced :
    (t : FrameTiming) (k : ℕ) → (advanced t k).slots_per_frame ≡ t.slots_per_frame
unfolding advanced
slots_per_frame-advanced t k = refl

same_record :
    (t : FrameTiming) (a b : ℕ)
    → ((advanced (advanced t a) b).sfn ≡ (advanced t (a + b)).sfn)
      × ((advanced (advanced t a) b).slot ≡ (advanced t (a + b)).slot)
    → advanced (advanced t a) b ≡ advanced t (a + b)
unfolding advanced
same_record t a b e = λ i. record {
  sfn = e.0 i;
  slot = e.1 i;
  symbol = t.symbol;
  slots_per_frame = t.slots_per_frame;
}

raw-advanced-advanced :
    (t : FrameTiming) (a b : ℕ)
    → IsValid t
    → raw (advanced (advanced t a) b) ≡ raw (advanced t (a + b))
unfolding raw advanced
raw-advanced-advanced t a b v =
    raw-advanced (advanced t a) b (advanced-IsValid t a v)
    ∙ rw (slots_per_frame-advanced t a, raw-advanced t a v, raw-advanced t (a + b) v)
        (mod-add-mod (raw t + a) (1024 * t.slots_per_frame) b ∙ rw add_assoc)

-- For a valid time, two steps forward are one step of their sum, in every field.
pub advanced-advanced :
    (t : FrameTiming) (a b : ℕ) → IsValid t → advanced (advanced t a) b ≡ advanced t (a + b)
advanced-advanced t a b v = same_record t a b (
    raw_injective (advanced (advanced t a) b) (advanced t (a + b))
      (advanced-IsValid (advanced t a) b (advanced-IsValid t a v)) (advanced-IsValid t (a + b) v)
      (slots_per_frame-advanced (advanced t a) b
        ∙ slots_per_frame-advanced t a
        ∙ sym (slots_per_frame-advanced t (a + b)))
      (raw-advanced-advanced t a b v))
