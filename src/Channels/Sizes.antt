-- ===== src/Channels/Sizes.antt =====
-- The sizes that the structs of the channel managers compute in few bits.
use native.Mathlib.Nat.{mul-le-mul, mul-le-mul_left}
use nr5g_basic_scheduler.Base.{ℕ, ◌+◌, ◌-◌, ◌*◌, ◌%◌, ◌^◌, ◌≤◌, ◌≡◌, arith}
use nr5g_basic_scheduler.Channels.Pdsch.{popcount, elements, PdschAllocation, pdsch_res}

-- For up to 275 blocks, up to 14 symbols and at most three symbols of reference signals for each, the
-- elements of a shared channel allocation do not wrap round: with those of the reference signals they
-- are twelve for each block and symbol.
pub pdsch_res_sum :
    (a : PdschAllocation)
    → a.rb_allocation.num_rbs ≤ 275
    → a.symbol_allocation.num_symbols ≤ 14
    → popcount 16 a.dmrs_symbols ≤ 3 * a.symbol_allocation.num_symbols
    → pdsch_res a + a.rb_allocation.num_rbs * popcount 16 a.dmrs_symbols * 4
      ≡ a.rb_allocation.num_rbs * a.symbol_allocation.num_symbols * 12
unfolding pdsch_res elements
pdsch_res_sum a h k l =
    sum_lem a.rb_allocation.num_rbs a.symbol_allocation.num_symbols (popcount 16 a.dmrs_symbols) h k
      l
  where
    sum_lem :
        (rbs symbols ones : ℕ)
        → rbs ≤ 275
        → symbols ≤ 14
        → ones ≤ 3 * symbols
        → (rbs * symbols * 12 + 2 ^ 32 - rbs * ones * 4) % 2 ^ 32 + rbs * ones * 4
          ≡ rbs * symbols * 12
    sum_lem rbs symbols ones h k l =
        let p : rbs * ones ≤ rbs * (3 * symbols) = mul-le-mul_left rbs l in
        let q : rbs * symbols ≤ 275 * 14 = mul-le-mul h k in omega arith
