-- ===== src/Grid/Find.antt =====
-- `ResourceGrid::find_contiguous` of cell_context.hpp.
use nr5g_basic_scheduler.Base.{
  ℕ, zero, suc, ◌+◌, ◌-◌, ◌≤◌, ◌<◌, ◌≡◌, refl, subst, sym, ◌⊎◌, inl, inr, true, false, some, none,
  ltb, leb, ◌==◌, if◌then◌else◌, arith, Bool-cases,
}
use nr5g_basic_scheduler.Grid.{
  ResourceGrid, max_rbs, max_symbols, test_cell, column_free, find_from, find_contiguous,
}

module _ (g : ResourceGrid) (ss ns : ℕ) where
  -- One block is free in the symbols from `ss` on, or is not.
  abbrev pub IsColumnFree : ℕ → Type 0
  IsColumnFree r = (s : ℕ) → ss ≤ s → s < ss + ns → g.taken s r ≡ false

  -- The `n` blocks from `start` on are all free in all the symbols.
  abbrev pub IsRunFree : (start n : ℕ) → Type 0
  IsRunFree start n = (r : ℕ) → start ≤ r → r < start + n → IsColumnFree r

column_cases :
    (g : ResourceGrid) (rb ss n : ℕ)
    → rb < max_rbs
    → ss + n ≤ max_symbols
    → ((column_free g rb ss n ≡ some true) × IsColumnFree g ss n rb)
      ⊎ ((column_free g rb ss n ≡ some false) × (¬ IsColumnFree g ss n rb))
unfolding column_free
column_cases g rb ss zero h k = inl (refl, λ s p q. absurd (omega arith))
column_cases g rb ss (suc n) h k =
    let read : test_cell g ss rb ≡ some (g.taken ss rb) = ground arith in
    elim (Bool-cases (g.taken ss rb)) [
      | inl used ↦ inr (
        rw (read, column_free) (rw (used, column_free)),
        λ all. let clash = all ss (omega arith) (omega arith) in cc,
      )
      | inr free ↦ elim (column_cases g rb (ss + 1) n h (omega arith)) [
        | inl (e, all) ↦ inl (
          rw (read, column_free) (rw (free, column_free) e),
          λ s p q. elim (Bool-cases (s == ss)) [
            | inl first ↦ let same : s ≡ ss = ground arith in rw same free
            | inr later ↦ all s (ground arith) (omega arith)
          ],
        )
        | inr (e, used) ↦ inr (
          rw (read, column_free) (rw (free, column_free) e),
          λ all. used (λ s p q. all s (omega arith) (omega arith)),
        )
      ]
    ]

module _ (g : ResourceGrid) (wanted ss ns : ℕ) where
  -- What the loop knows at block `rb`: the last `contiguous` blocks are a free run from `start` on,
  -- shorter than wanted, and no run that is long enough begins before them.
  record Scanned (rb contiguous start : ℕ) : Type 0 where
    short : contiguous < wanted
    begins : (1 ≤ contiguous) → start + contiguous ≡ rb
    behind : contiguous ≤ rb
    run : IsRunFree g ss ns (rb - contiguous) contiguous
    none_before : (s : ℕ) → s < rb - contiguous → ¬ IsRunFree g ss ns s wanted

  -- The first run of the length wanted, or there is none.
  abbrev pub IsFirst : ℕ → Type 0
  IsFirst start =
      (start + wanted ≤ g.num_rbs)
      × IsRunFree g ss ns start wanted
      × ((s : ℕ) → s < start → ¬ IsRunFree g ss ns s wanted)

  abbrev pub IsNowhere : Type 0
  IsNowhere = (s : ℕ) → s + wanted ≤ g.num_rbs → ¬ IsRunFree g ss ns s wanted

  reset_scan :
      (rb contiguous start : ℕ)
      → Scanned rb contiguous start
      → (¬ IsColumnFree g ss ns rb)
      → Scanned (rb + 1) 0 start
  reset_scan rb contiguous start v used = record {
    short = let s = v.short in omega arith;
    begins = λ h. absurd (omega arith);
    behind = omega arith;
    run = λ r p q. absurd (omega arith);
    none_before = λ s p. elim (Bool-cases (ltb s (rb - contiguous))) [
      | inl early ↦ v.none_before s (ground arith)
      | inr late ↦
          let s1 = v.short in
          let s2 = v.behind in λ all. used (all rb (ground arith) (ground arith))
    ];
  }

  longer_run :
      (rb contiguous start : ℕ)
      → Scanned rb contiguous start
      → IsColumnFree g ss ns rb
      → IsRunFree g ss ns (rb - contiguous) (contiguous + 1)
  longer_run rb contiguous start v free r p q = elim (Bool-cases (r == rb)) [
    | inl last ↦ let same : r ≡ rb = ground arith in subst (IsColumnFree g ss ns) (sym same) free
    | inr earlier ↦ let b = v.behind in v.run r p (ground arith)
  ]

  start_of :
      (rb contiguous start : ℕ)
      → Scanned rb contiguous start
      → (if contiguous == 0 then rb else start) ≡ rb - contiguous
  start_of rb zero start v = omega arith
  start_of rb (suc c) start v = let b = v.begins (omega arith) in ground arith

  grow_scan :
      (rb contiguous start : ℕ)
      → Scanned rb contiguous start
      → IsColumnFree g ss ns rb
      → contiguous + 1 < wanted
      → Scanned (rb + 1) (contiguous + 1) (if contiguous == 0 then rb else start)
  grow_scan rb contiguous start v free h =
      let b = v.behind in
      let same : rb + 1 - (contiguous + 1) ≡ rb - contiguous = omega arith in
      record {
        short = h;
        begins = λ _. rw (start_of rb contiguous start v) (omega arith);
        behind = omega arith;
        run = rw same (longer_run rb contiguous start v free);
        none_before = rw same v.none_before;
      }

  Outcome : (rb contiguous start rounds : ℕ) → Type 0
  Outcome rb contiguous start rounds =
      let found = find_from g wanted ss ns rb contiguous start rounds in
      ((first : ℕ) × (found ≡ some (some (record { start_rb = first; num_rbs = wanted })))
        × IsFirst first)
      ⊎ ((found ≡ some none) × IsNowhere)

  find_from-Outcome :
      (rb contiguous start rounds : ℕ)
      → g.num_rbs ≤ max_rbs
      → ss + ns ≤ max_symbols
      → rb + rounds ≡ g.num_rbs
      → Scanned rb contiguous start
      → Outcome rb contiguous start rounds
  unfolding find_from Outcome
  find_from-Outcome rb contiguous start zero w k e v =
      let s1 = v.short in inr (refl, λ s p. v.none_before s (omega arith))
  find_from-Outcome rb contiguous start (suc rounds) w k e v =
      elim (column_cases g rb ss ns (omega arith) k) [
        | inr (read, used) ↦
            rw (read, find_from)
              (find_from-Outcome (rb + 1) 0 start rounds w k (omega arith)
                (reset_scan rb contiguous start v used))
        | inl (read, free) ↦ elim (Bool-cases (leb wanted (contiguous + 1))) [
          | inl done ↦
              let full : wanted ≡ contiguous + 1 = let s1 = v.short in ground arith in
              let b = v.behind in
              inl (
                rb - contiguous,
                rw (read, find_from) (rw (done, start_of rb contiguous start v)),
                (
                  omega arith,
                  λ r p q. longer_run rb contiguous start v free r p (omega arith),
                  v.none_before,
                ),
              )
          | inr more ↦
              rw (read, find_from)
                (rw (more, find_from)
                  (find_from-Outcome (rb + 1) (contiguous + 1)
                    (if contiguous == 0 then rb else start) rounds w k (omega arith)
                    (grow_scan rb contiguous start v free (ground arith))))
        ]
      ]

-- On a grid of at most 273 blocks, for at least one block and symbols within the array,
-- `find_contiguous` returns: the first run of `wanted` blocks below the width that are free in all
-- the symbols, or nothing, and then there is no such run.
pub find_contiguous-IsFirst :
    (g : ResourceGrid) (wanted ss ns : ℕ)
    → g.num_rbs ≤ max_rbs
    → 1 ≤ wanted
    → ss + ns ≤ max_symbols
    → let found = find_contiguous g wanted ss ns in
      ((first : ℕ) × (found ≡ some (some (record { start_rb = first; num_rbs = wanted })))
        × IsFirst g wanted ss ns first)
      ⊎ ((found ≡ some none) × IsNowhere g wanted ss ns)
unfolding find_contiguous Outcome
find_contiguous-IsFirst g wanted ss ns w h k =
    find_from-Outcome g wanted ss ns 0 0 0 g.num_rbs w k (omega arith) (record {
      short = h;
      begins = λ p. absurd (omega arith);
      behind = omega arith;
      run = λ r p q. absurd (omega arith);
      none_before = λ s p. absurd (omega arith);
    })
