-- ===== src/Tbs/Lookup.antt =====
-- Where `tbs_table_lookup` is defined, and how large its blocks are.
use native.Mathlib.Nat.{mul-le-mul}
use nr5g_basic_scheduler.Base.{
  ℕ, zero, suc, ◌+◌, ◌-◌, ◌*◌, ◌/◌, ◌%◌, ◌^◌, ◌≤◌, ◌<◌, ◌≡◌, refl, ◌↔◌, none, some, Bool, true,
  ◌&&◌, leb, arith, get_or, List, [], ◌∷◌, length, subst, sym,
}
use nr5g_basic_scheduler.Tbs.Quantise.{log_below, quantised_le}
use nr5g_basic_scheduler.Tbs.{spectral_eff_x1024, info_bits, tbs_table_lookup, quantised, small_tbs}

-- Every efficiency of the list lies between 526 and 2165.
are_in_range : List ℕ → Bool
are_in_range [] = true
are_in_range (e ∷ es) = leb 526 e && leb e 2165 && are_in_range es

get_or-are_in_range :
    (es : List ℕ) (i : ℕ)
    → i < length es
    → are_in_range es ≡ true
    → (526 ≤ get_or es i 0) × (get_or es i 0 ≤ 2165)
unfolding are_in_range
get_or-are_in_range [] i inside h = elim inside [ ]
get_or-are_in_range (e ∷ es) zero inside h = ground arith
get_or-are_in_range (e ∷ es) (suc i) inside h = get_or-are_in_range es i (omega arith) (rest e es h)
  where
    rest : (e : ℕ) (es : List ℕ) → are_in_range (e ∷ es) ≡ true → are_in_range es ≡ true
    rest e es h = ground arith

abbrev from_seven : List ℕ
from_seven =
    526 ∷ 602 ∷ 679 ∷ 772 ∷ 873 ∷ 948 ∷ 1024 ∷ 1101 ∷ 1176 ∷ 1252 ∷ 1327 ∷ 1403 ∷ 1478 ∷ 1554 ∷ 1630
    ∷ 1706 ∷ 1783 ∷ 1859 ∷ 1935 ∷ 2011 ∷ 2088 ∷ 2165 ∷ []

from_seven_in_range : are_in_range from_seven ≡ true
unfolding are_in_range
from_seven_in_range = refl

-- From index 7 on the table's entries are in range.
efficiency_range :
    (mcs : ℕ)
    → 7 ≤ mcs
    → mcs ≤ 28
    → (526 ≤ get_or spectral_eff_x1024 mcs 0) × (get_or spectral_eff_x1024 mcs 0 ≤ 2165)
efficiency_range mcs h k =
    let past : mcs ≡ suc (suc (suc (suc (suc (suc (suc (mcs - 7))))))) = omega arith in
    subst (λ m. (526 ≤ get_or spectral_eff_x1024 m 0) × (get_or spectral_eff_x1024 m 0 ≤ 2165))
      (sym past) (get_or-are_in_range from_seven (mcs - 7) (omega arith) from_seven_in_range)

-- Where the first formula is undefined.
small_tbs-IsNone : (n : ℕ) → n ≤ 3824 → (small_tbs n ≡ none) ↔ (n < 64)
unfolding small_tbs
small_tbs-IsNone n h = let e = log_below n (omega arith) in (λ f. ground arith, λ k. ground arith)

-- The size is undefined exactly if the index is in the table, there are blocks and layers, and they
-- carry fewer than 64 bits.
pub tbs_table_lookup_undefined_iff :
    (mcs num_rbs num_layers num_symbols dmrs : ℕ)
    → (tbs_table_lookup mcs num_rbs num_layers num_symbols dmrs ≡ none) ↔ (
        (mcs ≤ 28)
        × (0 < num_rbs)
        × (0 < num_layers)
        × (info_bits mcs num_rbs num_layers num_symbols dmrs < 64))
unfolding tbs_table_lookup quantised
tbs_table_lookup_undefined_iff mcs num_rbs num_layers num_symbols dmrs =
    let n = info_bits mcs num_rbs num_layers num_symbols dmrs in
    (λ e. ground (arith, small_tbs-IsNone n), λ h. ground (arith, small_tbs-IsNone n))

product_bounds :
    (e r l : ℕ)
    → 526 ≤ e
    → e ≤ 2165
    → 1 ≤ r
    → r ≤ 273
    → 1 ≤ l
    → l ≤ 8
    → (526 ≤ r * e * l) × (r * e * l ≤ 273 * 2165 * 8)
product_bounds e r l e1 e2 r1 r2 l1 l2 =
    (mul-le-mul (mul-le-mul r1 e1) l1, mul-le-mul (mul-le-mul r2 e2) l2)

product_scaled :
    (e r l : ℕ)
    → (526 ≤ r * e * l) × (r * e * l ≤ 273 * 2165 * 8)
    → (64 ≤ 132 * r * e * l % 2 ^ 32 / 1024) × (132 * r * e * l % 2 ^ 32 / 1024 < 2 ^ 20)
product_scaled e r l h = omega arith

info_bits_range :
    (mcs num_rbs num_layers : ℕ)
    → 7 ≤ mcs
    → mcs ≤ 28
    → 1 ≤ num_rbs
    → num_rbs ≤ 273
    → 1 ≤ num_layers
    → num_layers ≤ 8
    → (64 ≤ info_bits mcs num_rbs num_layers 12 12)
      × (info_bits mcs num_rbs num_layers 12 12 < 2 ^ 20)
unfolding info_bits
info_bits_range mcs r l m1 m2 r1 r2 l1 l2 =
    let (e1, e2) = efficiency_range mcs m1 m2 in
    product_scaled (get_or spectral_eff_x1024 mcs 0) r l
      (product_bounds (get_or spectral_eff_x1024 mcs 0) r l e1 e2 r1 r2 l1 l2)

-- For the indices 7 to 28, up to 273 blocks, up to 8 layers and 12 symbols, the size is defined, and
-- its bits exceed the bits that the resources carry by at most one part in 1053 and 7 bits.
pub tbs_table_lookup_defined :
    (mcs num_rbs num_layers : ℕ)
    → 7 ≤ mcs
    → mcs ≤ 28
    → 1 ≤ num_rbs
    → num_rbs ≤ 273
    → 1 ≤ num_layers
    → num_layers ≤ 8
    → let bits = info_bits mcs num_rbs num_layers 12 12 in
      (tbs : ℕ) × (tbs_table_lookup mcs num_rbs num_layers 12 12 ≡ some tbs)
      × (8 * tbs ≤ bits + bits / 1053 + 7)
unfolding tbs_table_lookup
tbs_table_lookup_defined mcs r l m1 m2 r1 r2 l1 l2 =
    let range = info_bits_range mcs r l m1 m2 r1 r2 l1 l2 in
    let (tbs, e, b) = quantised_le (info_bits mcs r l 12 12) range.0 in (tbs, ground (arith, e), b)
