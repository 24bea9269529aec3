-- ===== src/Grid/Count.antt =====
-- `ResourceGrid::available_rbs` of cell_context.hpp.
use native.Mathlib.Nat.{zero-add}
use nr5g_basic_scheduler.Base.{
  ℕ, zero, suc, ◌+◌, ◌-◌, ◌≤◌, ◌≡◌, sym, ap, subst, min, true, false, some, ltb, arith, Bool-cases,
  inl, inr,
}
use nr5g_basic_scheduler.Resources.{TimeFrequencyResource, holds_symbol}
use nr5g_basic_scheduler.Grid.Cells.{IsFree, filled}
use nr5g_basic_scheduler.Grid.Reserve.{held_free, allocate-eq-true}
use nr5g_basic_scheduler.Grid.{
  ResourceGrid, max_rbs, max_symbols, count_below, available_rbs, allocate, IsInside,
}

-- No block at or past the carrier's width is taken, and the width is that of a bitset at most.
pub record IsWithin (g : ResourceGrid) : Type 0 where
  pub width_le : g.num_rbs ≤ max_rbs
  pub rest_free : (s r : ℕ) → g.num_rbs ≤ r → g.taken s r ≡ false

count_below-le : (g : ResourceGrid) (s n : ℕ) → count_below g s n ≤ n
unfolding count_below
count_below-le g s zero = omega arith
count_below-le g s (suc n) = ground (arith, count_below-le g s n)

-- Past the width nothing more is counted.
count_below_within : (g : ResourceGrid) (s n : ℕ) → IsWithin g → count_below g s n ≤ g.num_rbs
unfolding count_below
count_below_within g s zero w = omega arith
count_below_within g s (suc n) w = elim (Bool-cases (ltb n g.num_rbs)) [
  | inl inside ↦ ground (arith, count_below-le g s n)
  | inr outside ↦
      let free = w.rest_free s n (ground arith) in
      rw (free, count_below) (rw zero-add (count_below_within g s n w))
]

count_below-filled :
    (g : ResourceGrid) (res : TimeFrequencyResource) (s n : ℕ)
    → IsFree g res
    → holds_symbol res.symbol_range s ≡ true
    → count_below (filled true g res) s n + min n res.rb_range.start_rb
      ≡ count_below g s n + min n (res.rb_range.start_rb + res.rb_range.num_rbs)
unfolding count_below
count_below-filled g res s zero free h = omega arith
count_below-filled g res s (suc n) free h =
    ground (arith, count_below-filled g res s n free h, held_free g res s n free)

pub allocate-IsWithin :
    (g : ResourceGrid) (res : TimeFrequencyResource) {g' : ResourceGrid}
    → IsInside res
    → IsWithin g
    → res.rb_range.start_rb + res.rb_range.num_rbs ≤ g.num_rbs
    → allocate g res ≡ some (g', true)
    → IsWithin g'
allocate-IsWithin g res i w h e =
    let (free, taken) = allocate-eq-true g res i e in
    subst IsWithin (sym taken)
      (record { width_le = w.width_le; rest_free = λ s r k. ground (arith, w.rest_free s r) })

-- On a grid with nothing taken past its width, a success for blocks within the width lowers the
-- count of free blocks, in each of its symbols, by just the number of blocks.
pub available_rbs-allocate :
    (g : ResourceGrid) (res : TimeFrequencyResource) (s : ℕ) {g' : ResourceGrid}
    → IsInside res
    → IsWithin g
    → res.rb_range.start_rb + res.rb_range.num_rbs ≤ g.num_rbs
    → holds_symbol res.symbol_range s ≡ true
    → allocate g res ≡ some (g', true)
    → (n : ℕ) × (available_rbs g' s ≡ some n)
      × (available_rbs g s ≡ some (n + res.rb_range.num_rbs))
unfolding available_rbs
available_rbs-allocate g res s {g'} i w h k e =
    let (free, taken) = allocate-eq-true g res i e in
    let after : count_below g' s max_rbs ≡ count_below (filled true g res) s max_rbs =
      ap (λ x. count_below x s max_rbs) taken in
    let width : g'.num_rbs ≡ g.num_rbs = ap (λ (x : ResourceGrid). x.num_rbs) taken in
    let small = count_below_within g' s max_rbs (allocate-IsWithin g res i w h e) in
    let grown = count_below-filled g res s max_rbs free k in
    let inside : ltb s max_symbols ≡ true = ground arith in
    (
      g.num_rbs - count_below g' s max_rbs,
      rw inside (ap some (omega arith)),
      rw inside (ap some (omega arith)),
    )
