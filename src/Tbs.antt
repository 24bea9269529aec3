-- ===== src/Tbs.antt =====
-- Transport block sizes: `tbs_table_lookup` and `min_rbs_for_tbs` of
-- nr_scheduler/include/core/nr_types.hpp. `none` is undefined behaviour, met where a negative
-- logarithm is cast to `uint32_t`.
pub mod Log
pub mod Quantise
pub mod Lookup
pub mod Search
mod Examples
use nr5g_basic_scheduler.Base.{
  ℕ, zero, suc, ◌+◌, ◌-◌, ◌*◌, ◌/◌, ◌%◌, ◌^◌, min, max, List, [], ◌∷◌, Option, none, some, Bool,
  true, false, ◌||◌, ltb, leb, ◌==◌, if◌then◌else◌, get_or,
}
use Log.{floor_log2}

abbrev pub spectral_eff_x1024 : List ℕ
spectral_eff_x1024 =
    120 ∷ 157 ∷ 193 ∷ 251 ∷ 308 ∷ 379 ∷ 449 ∷ 526 ∷ 602 ∷ 679 ∷ 772 ∷ 873 ∷ 948 ∷ 1024 ∷ 1101 ∷ 1176
    ∷ 1252 ∷ 1327 ∷ 1403 ∷ 1478 ∷ 1554 ∷ 1630 ∷ 1706 ∷ 1783 ∷ 1859 ∷ 1935 ∷ 2011 ∷ 2088 ∷ 2165 ∷ []

-- The branch for `n_info <= 3824`. Where the logarithm less 6 is negative (or, at 0, minus infinity),
-- its cast to `uint32_t` is undefined.
unfoldable pub small_tbs : ℕ → Option ℕ
small_tbs n_info =
    let log = floor_log2 n_info in
    let n = max 3 (log - 6) in
    let n_info_prime = max 24 (n_info / 2 ^ n * 2 ^ n) in
    if n_info == 0 || ltb log 6 then none else some ((n_info_prime + 7) / 8)

-- The branch for larger values. No product here passes 2 ^ 32, since `n_info` is below 2 ^ 22.
unfoldable pub large_tbs : ℕ → ℕ
large_tbs n_info =
    let n = floor_log2 (n_info - 24) - 5 in
    let n_info_prime = max 3840 ((n_info - 24) / 2 ^ n * 2 ^ n) in
    let c = (n_info_prime + 24 + 8423) / 8424 in
    let tbs =
      if ltb n_info_prime 8424
      then 8 * ((n_info_prime + 24 + 31) / 32) - 24
      else 8 * c * ((n_info_prime + 24) / (8 * c) + 1) - 24 in
    (tbs + 7) / 8

unfoldable pub quantised : ℕ → Option ℕ
quantised n_info = if leb n_info 3824 then small_tbs n_info else some (large_tbs n_info)

-- `12 * num_symbols - dmrs_re_per_rb` in 32 bits, capped.
unfoldable pub re_per_rb : ℕ → ℕ → ℕ
re_per_rb num_symbols dmrs_re_per_rb =
    min ((12 * num_symbols + 2 ^ 32 - dmrs_re_per_rb) % 2 ^ 32) 156

-- The bits that the resources carry, before quantisation.
unfoldable pub info_bits : (mcs num_rbs num_layers num_symbols dmrs_re_per_rb : ℕ) → ℕ
unfolding re_per_rb
info_bits mcs num_rbs num_layers num_symbols dmrs_re_per_rb =
    re_per_rb num_symbols dmrs_re_per_rb
    * num_rbs
    * get_or spectral_eff_x1024 mcs 0
    * num_layers
    % 2 ^ 32
    / 1024

unfoldable pub tbs_table_lookup : (mcs num_rbs num_layers num_symbols dmrs_re_per_rb : ℕ) → Option ℕ
tbs_table_lookup mcs num_rbs num_layers num_symbols dmrs_re_per_rb =
    if ltb 28 mcs
    then some 0
    else if num_rbs == 0 || num_layers == 0
    then some 0
    else quantised (info_bits mcs num_rbs num_layers num_symbols dmrs_re_per_rb)

-- `while (low < high)`, over what the table gives for a number of blocks.
unfoldable pub search : (ℕ → Option ℕ) → ℕ → ℕ → ℕ → ℕ → Option ℕ
search table tbs_bytes zero low high = none
search table tbs_bytes (suc fuel) low high =
    let mid = (low + high) / 2 in
    elim (ltb low high) [
      | false ↦ some low
      | true ↦ elim (table mid) [
        | none ↦ none
        | some tbs ↦ elim (leb tbs_bytes tbs) [
          | true ↦ search table tbs_bytes fuel low mid
          | false ↦ search table tbs_bytes fuel (mid + 1) high
        ]
      ]
    ]

-- The range is below 2 ^ 16, and every round narrows it.
abbrev pub search_fuel : ℕ
search_fuel = 2 ^ 16

unfoldable pub min_rbs_for_tbs : (tbs_bytes mcs num_layers num_symbols max_rbs : ℕ) → Option ℕ
unfolding search
min_rbs_for_tbs tbs_bytes mcs num_layers num_symbols max_rbs =
    search (λ mid. tbs_table_lookup mcs mid num_layers num_symbols 12) tbs_bytes search_fuel 1
      max_rbs
