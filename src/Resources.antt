-- ===== src/Resources.antt =====
-- Ranges of resource blocks and symbols: "Resource Allocation" in
-- nr_scheduler/include/core/nr_types.hpp. A range that is empty at the origin ends at the largest
-- value of its word, as in the source.
use nr5g_basic_scheduler.Base.{
  ℕ, ◌+◌, ◌-◌, ◌*◌, ◌%◌, ◌^◌, ◌≤◌, ◌≡◌, ◌↔◌, Bool, true, not, ◌||◌, ◌&&◌, ltb, leb, max, arith,
}

pub record ResourceBlockRange : Type 0 where
  pub start_rb : ℕ
  pub num_rbs : ℕ

pub record SymbolRange : Type 0 where
  pub start_symbol : ℕ
  pub num_symbols : ℕ

pub record TimeFrequencyResource : Type 0 where
  pub rb_range : ResourceBlockRange
  pub symbol_range : SymbolRange

unfoldable pub end_rb : ResourceBlockRange → ℕ
end_rb r = (r.start_rb + r.num_rbs + 2 ^ 16 - 1) % 2 ^ 16

unfoldable pub end_symbol : SymbolRange → ℕ
end_symbol r = (r.start_symbol + r.num_symbols + 2 ^ 8 - 1) % 2 ^ 8

unfoldable pub overlaps : ResourceBlockRange → ResourceBlockRange → Bool
unfolding end_rb
overlaps r other = not (ltb (end_rb r) other.start_rb || ltb (end_rb other) r.start_rb)

unfoldable pub num_res : TimeFrequencyResource → ℕ
num_res res = res.rb_range.num_rbs * res.symbol_range.num_symbols * 12 % 2 ^ 32

-- A range with at least one block, all of them within 16 bits.
pub record IsProper (r : ResourceBlockRange) : Type 0 where
  pub not_empty : 1 ≤ r.num_rbs
  pub fits : r.start_rb + r.num_rbs ≤ 2 ^ 16

-- The block lies in the range.
abbrev pub holds_rb : ResourceBlockRange → ℕ → Bool
holds_rb r rb = leb r.start_rb rb && ltb rb (r.start_rb + r.num_rbs)

abbrev pub holds_symbol : SymbolRange → ℕ → Bool
holds_symbol r sym = leb r.start_symbol sym && ltb sym (r.start_symbol + r.num_symbols)

-- Two proper ranges overlap, by `overlaps`, exactly if a block lies in both.
pub overlaps_iff :
    (r s : ResourceBlockRange)
    → IsProper r
    → IsProper s
    → (overlaps r s ≡ true) ↔ ((rb : ℕ) × (holds_rb r rb ≡ true) × (holds_rb s rb ≡ true))
unfolding overlaps
overlaps_iff r s p q =
    (λ e. (max r.start_rb s.start_rb, ground arith, ground arith), λ (rb, h, k). ground arith)
