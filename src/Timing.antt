-- ===== src/Timing.antt =====
-- The timing and numerology types of nr_scheduler/include/core/nr_types.hpp. A word of w bits is a
-- number with its wrap-around written out; `int64_t` differences are integers, since no value here
-- comes near 2 ^ 63.
pub mod Advance
pub mod Diff
mod Examples
use nr5g_basic_scheduler.Base.{
  ℕ, ◌+◌, ◌*◌, ◌/◌, ◌%◌, ◌^◌, ◌≤◌, ◌<◌, ◌≡◌, arith, Bool, ◌&&◌, if◌then◌else◌, ◌==◌,
}
use nr5g_basic_scheduler.Base.Int.{ℤ, pos, sub_ℕ, ◌+ℤ◌, ◌-ℤ◌, ltb_ℤ}

pub record FrameTiming : Type 0 where
  pub sfn : ℕ
  pub slot : ℕ
  pub symbol : ℕ
  pub slots_per_frame : ℕ

abbrev pub max_sfn : ℕ
max_sfn = 1024

unfoldable pub absolute_slot : FrameTiming → ℕ
absolute_slot t = (t.sfn * t.slots_per_frame + t.slot) % 2 ^ 32

-- `advance` in place, and `advanced` on a copy.
unfoldable pub advanced : FrameTiming → ℕ → FrameTiming
advanced t num_slots =
    let total_slots = t.slot + num_slots in
    let frame_advance = total_slots / t.slots_per_frame % 2 ^ 16 in
    record t {
      slot = total_slots % t.slots_per_frame % 2 ^ 8;
      sfn = (t.sfn + frame_advance) % max_sfn;
    }

unfoldable pub diff : FrameTiming → FrameTiming → ℤ
unfolding ◌+ℤ◌ ◌-ℤ◌
diff t other =
    let this_abs = t.sfn * t.slots_per_frame + t.slot in
    let other_abs = other.sfn * other.slots_per_frame + other.slot in
    let d = sub_ℕ this_abs other_abs in
    let half_cycle = pos (512 * t.slots_per_frame) in
    if ltb_ℤ half_cycle d
    then d -ℤ pos (1024 * t.slots_per_frame)
    else if ltb_ℤ d (pos 0 -ℤ half_cycle)
    then d +ℤ pos (1024 * t.slots_per_frame)
    else d

-- `operator==`
unfoldable pub same_slot : FrameTiming → FrameTiming → Bool
same_slot t other = t.sfn == other.sfn && t.slot == other.slot

pub data SubcarrierSpacing : Type 0 where
  khz15 khz30 khz60 khz120 khz240 : SubcarrierSpacing

pub record NumerologyConfig : Type 0 where
  pub scs : SubcarrierSpacing
  pub cyclic_prefix : ℕ
  pub slots_per_frame : ℕ
  pub symbols_per_slot : ℕ

-- The table that `from_scs` and `create` both spell out.
unfoldable pub slots_of : SubcarrierSpacing → ℕ
slots_of khz15 = 10
slots_of khz30 = 20
slots_of khz60 = 40
slots_of khz120 = 80
slots_of khz240 = 160

unfoldable pub from_scs : SubcarrierSpacing → NumerologyConfig
unfolding slots_of
from_scs scs = record {
  scs = scs;
  cyclic_prefix = 0;
  slots_per_frame = slots_of scs;
  symbols_per_slot = 14;
}

unfoldable pub create : ℕ → ℕ → SubcarrierSpacing → FrameTiming
unfolding slots_of
create sfn slot scs = record { sfn = sfn; slot = slot; symbol = 0; slots_per_frame = slots_of scs }

-- A time of day: the frame and the slot are in range, and a slot number fits its byte.
pub record IsValid (t : FrameTiming) : Type 0 where
  pub sfn_lt : t.sfn < max_sfn
  pub slot_lt : t.slot < t.slots_per_frame
  pub slots_le : t.slots_per_frame ≤ 256

-- The numeral behind the enumerator.
unfoldable pub scs_index : SubcarrierSpacing → ℕ
scs_index khz15 = 0
scs_index khz30 = 1
scs_index khz60 = 2
scs_index khz120 = 3
scs_index khz240 = 4

-- For every subcarrier spacing a frame has 10 slots times two to the enumerator, `from_scs` and
-- `create` agree on it, and `create` gives a valid time for a frame and a slot in range.
pub create-IsValid :
    (sfn slot : ℕ) (scs : SubcarrierSpacing)
    → sfn < max_sfn
    → slot < 10 * 2 ^ scs_index scs
    → IsValid (create sfn slot scs)
      × ((create sfn slot scs).slots_per_frame ≡ 10 * 2 ^ scs_index scs)
      × ((from_scs scs).slots_per_frame ≡ 10 * 2 ^ scs_index scs)
unfolding create from_scs scs_index
create-IsValid sfn slot khz15 h k = omega arith
create-IsValid sfn slot khz30 h k = omega arith
create-IsValid sfn slot khz60 h k = omega arith
create-IsValid sfn slot khz120 h k = omega arith
create-IsValid sfn slot khz240 h k = omega arith
