-- ===== src/Tbs/Examples.antt =====
-- Block sizes at concrete inputs, and the inputs that meet the conditions of the theorems.
use nr5g_basic_scheduler.Base.{ℕ, ◌+◌, ◌*◌, ◌/◌, ◌≤◌, ◌<◌, ◌≡◌, refl, ◌↔◌, none, some, arith}
use nr5g_basic_scheduler.Tbs.Log.{floor_log2}
use nr5g_basic_scheduler.Tbs.Lookup.{tbs_table_lookup_undefined_iff, tbs_table_lookup_defined}
use nr5g_basic_scheduler.Tbs.Search.{IsFound, sizes, min_rbs_for_tbs-IsFound}
use nr5g_basic_scheduler.Tbs.{
  small_tbs, large_tbs, quantised, info_bits, tbs_table_lookup, min_rbs_for_tbs,
}

-- A request of 400 bytes at index 10 gets 86 blocks, though 36 blocks hold 444 bytes: the fall of
-- the block size misleads the search.
oversized :
    (min_rbs_for_tbs 400 10 1 12 273 ≡ some 86) × (tbs_table_lookup 10 36 1 12 12 ≡ some 444)
unfolding min_rbs_for_tbs tbs_table_lookup quantised small_tbs large_tbs info_bits floor_log2
oversized = (refl, refl)

tbs_table_lookup_undefined_iff_example :
    (tbs_table_lookup 0 2 1 12 12 ≡ none)
    ↔ ((0 ≤ 28) × (0 < 2) × (0 < 1) × (info_bits 0 2 1 12 12 < 64))
tbs_table_lookup_undefined_iff_example = tbs_table_lookup_undefined_iff 0 2 1 12 12

tbs_table_lookup_defined_example :
    let bits = info_bits 7 1 1 12 12 in
    (tbs : ℕ) × (tbs_table_lookup 7 1 1 12 12 ≡ some tbs) × (8 * tbs ≤ bits + bits / 1053 + 7)
tbs_table_lookup_defined_example =
    tbs_table_lookup_defined 7 1 1 (omega arith) (omega arith) (omega arith) (omega arith)
      (omega arith) (omega arith)

min_rbs_for_tbs-IsFound_example :
    (r : ℕ) × (min_rbs_for_tbs 400 10 1 12 273 ≡ some r) × IsFound (sizes 10 1 12) 400 1 273 r
min_rbs_for_tbs-IsFound_example =
    min_rbs_for_tbs-IsFound 400 10 1 12 273 (omega arith) (omega arith) λ r low high.
      let (tbs, e, _) =
        tbs_table_lookup_defined 10 r 1 (omega arith) (omega arith) low (omega arith) (omega arith)
          (omega arith) in
      (tbs, e)
