-- ===== src/Tbs/Search.antt =====
-- The binary search of `min_rbs_for_tbs`, over any table of block sizes.
use nr5g_basic_scheduler.Base.{
  ℕ, zero, suc, ◌+◌, ◌-◌, ◌/◌, ◌^◌, ◌≤◌, ◌<◌, ◌≡◌, refl, sym, subst, ◌⊎◌, inl, inr, Option, some,
  ltb, leb, arith, Bool-cases,
}
use nr5g_basic_scheduler.Tbs.{search, search_fuel, min_rbs_for_tbs, tbs_table_lookup}

module _ (table : ℕ → Option ℕ) (bytes : ℕ) where
  abbrev pub Enough : ℕ → Type 0
  Enough r = (tbs : ℕ) × (table r ≡ some tbs) × (bytes ≤ tbs)

  abbrev pub Short : ℕ → Type 0
  Short r = (tbs : ℕ) × (table r ≡ some tbs) × (tbs < bytes)

  -- The result is in range, is enough unless it is the last of the range, and the number just below
  -- it is short unless it is the first.
  pub record IsFound (low high r : ℕ) : Type 0 where
    pub low_le : low ≤ r
    pub le_high : r ≤ high
    pub enough : (r ≡ high) ⊎ Enough r
    pub short_below : (r ≡ low) ⊎ Short (r - 1)

  abbrev pub IsDefined : ℕ → ℕ → Type 0
  IsDefined low high = (r : ℕ) → low ≤ r → r < high → (tbs : ℕ) × (table r ≡ some tbs)

  narrow_high :
      {low mid high r : ℕ} → mid ≤ high → Enough mid → IsFound low mid r → IsFound low high r
  narrow_high h e f = record {
    low_le = f.low_le;
    le_high = omega arith;
    enough = elim f.enough [ inl last ↦ inr (subst Enough (sym last) e) | inr found ↦ inr found ];
    short_below = f.short_below;
  }

  narrow_low :
      {low mid high r : ℕ} → low ≤ mid → Short mid → IsFound (mid + 1) high r → IsFound low high r
  narrow_low {mid = mid} {r = r} h s f = record {
    low_le = let after = f.low_le in omega arith;
    le_high = f.le_high;
    enough = f.enough;
    short_below = elim f.short_below [
      | inl first ↦ let e : mid ≡ r - 1 = omega arith in inr (subst Short e s)
      | inr short ↦ inr short
    ];
  }

  -- With fuel for the width of the range and a table defined on it, the search returns a result.
  pub search-IsFound :
      (fuel low high : ℕ)
      → high - low < fuel
      → low ≤ high
      → IsDefined low high
      → (r : ℕ) × (search table bytes fuel low high ≡ some r) × IsFound low high r
  unfolding search
  search-IsFound zero low high f h d = absurd (omega arith)
  search-IsFound (suc fuel) low high f h d = elim (Bool-cases (ltb low high)) [
    | inl wide ↦
        let mid = (low + high) / 2 in
        let below : mid < high = ground arith in
        let above : low ≤ mid = ground arith in
        let (tbs, e) = d mid above below in
        elim (Bool-cases (leb bytes tbs)) [
          | inl enough ↦
              let (r, found, fit) =
                search-IsFound fuel low mid (omega arith) above (λ n p q. d n p (omega arith)) in
              (
                r,
                rw (wide, search) (rw (e, search) (rw (enough, search) found)),
                narrow_high (omega arith) (tbs, e, ground arith) fit,
              )
          | inr short ↦
              let (r, found, fit) =
                search-IsFound fuel (mid + 1) high (omega arith) (omega arith)
                  (λ n p q. d n (omega arith) q) in
              (
                r,
                rw (wide, search) (rw (e, search) (rw (short, search) found)),
                narrow_low above (tbs, e, ground arith) fit,
              )
        ]
    | inr point ↦
        let e : low ≡ high = ground arith in
        (
          low,
          rw (point, search),
          record { low_le = omega arith; le_high = h; enough = inl e; short_below = inl refl },
        )
  ]

-- The table that `min_rbs_for_tbs` searches.
abbrev pub sizes : (mcs num_layers num_symbols : ℕ) → ℕ → Option ℕ
sizes mcs num_layers num_symbols num_rbs = tbs_table_lookup mcs num_rbs num_layers num_symbols 12

-- Where the block size is defined for every number of blocks from 1 to below `max_rbs` (at least 1,
-- a 16-bit number), the search returns: a number in that range that holds the bytes, or else
-- `max_rbs`; and the number just below it does not hold them, or else the result is 1.
pub min_rbs_for_tbs-IsFound :
    (bytes mcs num_layers num_symbols max_rbs : ℕ)
    → 1 ≤ max_rbs
    → max_rbs < 2 ^ 16
    → IsDefined (sizes mcs num_layers num_symbols) bytes 1 max_rbs
    → (r : ℕ) × (min_rbs_for_tbs bytes mcs num_layers num_symbols max_rbs ≡ some r)
      × IsFound (sizes mcs num_layers num_symbols) bytes 1 max_rbs r
unfolding min_rbs_for_tbs
min_rbs_for_tbs-IsFound bytes mcs num_layers num_symbols max_rbs h k d =
    search-IsFound (sizes mcs num_layers num_symbols) bytes search_fuel 1 max_rbs (omega arith) h d
