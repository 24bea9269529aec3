-- ===== src/Grid/Cells.antt =====
-- The loops of `ResourceGrid`: what they read and write, stated without the loops.
use nr5g_basic_scheduler.Base.{
  ℕ, zero, suc, ◌+◌, ◌-◌, ◌^◌, ◌≤◌, ◌<◌, ◌≡◌, ap, fun_ext, ◌∙◌, ◌⊎◌, inl, inr, Bool, true, false,
  ◌&&◌, some, ltb, leb, ◌==◌, if◌then◌else◌, arith, Bool-cases,
}
use nr5g_basic_scheduler.Resources.{
  ResourceBlockRange, SymbolRange, TimeFrequencyResource, end_rb, end_symbol, holds_rb,
  holds_symbol,
}
use nr5g_basic_scheduler.Grid.{
  ResourceGrid, max_rbs, max_symbols, test_cell, scan_rbs, scan_symbols, is_available, fill_rbs,
  fill_symbols, fill, IsInside,
}

-- All `n` blocks from `rb` on are free in the symbol, or one is not.
abbrev pub IsRowFree : ResourceGrid → (sym rb n : ℕ) → Type 0
IsRowFree g sym rb n = (r : ℕ) → rb ≤ r → r < rb + n → g.taken sym r ≡ false

abbrev pub IsRowUsed : ResourceGrid → (sym rb n : ℕ) → Type 0
IsRowUsed g sym rb n = (r : ℕ) × (rb ≤ r) × (r < rb + n) × (g.taken sym r ≡ true)

pub scan_rbs_cases :
    (g : ResourceGrid) (sym rb n : ℕ)
    → sym < max_symbols
    → rb + n ≤ max_rbs
    → ((scan_rbs g sym rb n ≡ some true) × IsRowFree g sym rb n)
      ⊎ ((scan_rbs g sym rb n ≡ some false) × IsRowUsed g sym rb n)
unfolding scan_rbs
scan_rbs_cases g sym rb zero h k = inl (ground arith, λ r p q. absurd (omega arith))
scan_rbs_cases g sym rb (suc n) h k =
    let rest = scan_rbs_cases g sym (rb + 1) n h (omega arith) in
    let read : test_cell g sym rb ≡ some (g.taken sym rb) = ground arith in
    elim (Bool-cases (g.taken sym rb)) [
      | inl used ↦
          inr (rw (read, scan_rbs) (rw (used, scan_rbs)), (rb, omega arith, omega arith, used))
      | inr free ↦ elim rest [
        | inl (e, all) ↦ inl (
          rw (read, scan_rbs) (rw (free, scan_rbs) e),
          λ r p q. elim (Bool-cases (r == rb)) [
            | inl first ↦ let same : r ≡ rb = ground arith in rw same free
            | inr later ↦ all r (ground arith) (omega arith)
          ],
        )
        | inr (e, (r, p, q, used)) ↦
            inr (rw (read, scan_rbs) (rw (free, scan_rbs) e), (r, omega arith, omega arith, used))
      ]
    ]

-- The same for a range of blocks in `n` symbols from `sym` on.
abbrev pub IsFreeFrom : ResourceGrid → ResourceBlockRange → (sym n : ℕ) → Type 0
IsFreeFrom g r sym n = (s : ℕ) → sym ≤ s → s < sym + n → IsRowFree g s r.start_rb r.num_rbs

abbrev pub IsUsedFrom : ResourceGrid → ResourceBlockRange → (sym n : ℕ) → Type 0
IsUsedFrom g r sym n = (s : ℕ) × (sym ≤ s) × (s < sym + n) × IsRowUsed g s r.start_rb r.num_rbs

rounds_rbs :
    (r : ResourceBlockRange)
    → 1 ≤ r.num_rbs
    → r.start_rb + r.num_rbs ≤ max_rbs
    → end_rb r + 1 - r.start_rb ≡ r.num_rbs
unfolding end_rb
rounds_rbs r h k = omega arith

rounds_symbols :
    (r : SymbolRange)
    → 1 ≤ r.num_symbols
    → r.start_symbol + r.num_symbols ≤ max_symbols
    → end_symbol r + 1 - r.start_symbol ≡ r.num_symbols
unfolding end_symbol
rounds_symbols r h k = omega arith

scan_symbols_cases :
    (g : ResourceGrid) (r : ResourceBlockRange) (sym n : ℕ)
    → 1 ≤ r.num_rbs
    → r.start_rb + r.num_rbs ≤ max_rbs
    → sym + n ≤ max_symbols
    → ((scan_symbols g r sym n ≡ some true) × IsFreeFrom g r sym n)
      ⊎ ((scan_symbols g r sym n ≡ some false) × IsUsedFrom g r sym n)
unfolding scan_symbols
scan_symbols_cases g r sym zero h k l = inl (ground arith, λ s p q. absurd (omega arith))
scan_symbols_cases g r sym (suc n) h k l =
    let rest = scan_symbols_cases g r (sym + 1) n h k (omega arith) in
    elim (scan_rbs_cases g sym r.start_rb r.num_rbs (omega arith) k) [
      | inr (e, used) ↦
          inr (rw (rounds_rbs r h k, e, scan_symbols), (sym, omega arith, omega arith, used))
      | inl (e, free) ↦ elim rest [
        | inl (f, all) ↦ inl (
          rw (rounds_rbs r h k, e, scan_symbols) f,
          λ s p q. elim (Bool-cases (s == sym)) [
            | inl first ↦ let same : s ≡ sym = ground arith in rw same free
            | inr later ↦ all s (ground arith) (omega arith)
          ],
        )
        | inr (f, (s, p, q, used)) ↦
            inr (rw (rounds_rbs r h k, e, scan_symbols) f, (s, omega arith, omega arith, used))
      ]
    ]

abbrev pub IsFree : ResourceGrid → TimeFrequencyResource → Type 0
IsFree g res = IsFreeFrom g res.rb_range res.symbol_range.start_symbol res.symbol_range.num_symbols

abbrev pub IsUsed : ResourceGrid → TimeFrequencyResource → Type 0
IsUsed g res = IsUsedFrom g res.rb_range res.symbol_range.start_symbol res.symbol_range.num_symbols

pub is_available_cases :
    (g : ResourceGrid) (res : TimeFrequencyResource)
    → IsInside res
    → ((is_available g res ≡ some true) × IsFree g res)
      ⊎ ((is_available g res ≡ some false) × IsUsed g res)
unfolding is_available
is_available_cases g res v =
    let s = res.symbol_range in
    rw (rounds_symbols s v.symbols_not_empty v.symbols_fit) (
      scan_symbols_cases g res.rb_range s.start_symbol s.num_symbols v.rbs_not_empty v.rbs_fit
        v.symbols_fit)

-- The grid with some bits of one symbol, or of several, written.
abbrev cell_filled : Bool → ResourceGrid → (sym rb : ℕ) → ResourceGrid
cell_filled v g sym rb = record g { taken = λ s r. if s == sym && r == rb then v else g.taken s r }

abbrev row_filled : Bool → ResourceGrid → (sym rb n : ℕ) → ResourceGrid
row_filled v g sym rb n = record g {
  taken = λ s r. if s == sym && (leb rb r && ltb r (rb + n)) then v else g.taken s r;
}

abbrev filled_from : Bool → ResourceGrid → ResourceBlockRange → (sym n : ℕ) → ResourceGrid
filled_from v g r sym n = record g {
  taken = λ s b. if (leb sym s && ltb s (sym + n)) && holds_rb r b then v else g.taken s b;
}

abbrev pub filled : Bool → ResourceGrid → TimeFrequencyResource → ResourceGrid
filled v g res = record g {
  taken =
      λ s b. if holds_symbol res.symbol_range s && holds_rb res.rb_range b then v else g.taken s b;
}

pub grid_path :
    (g : ResourceGrid) (f h : ℕ → ℕ → Bool)
    → ((s r : ℕ) → f s r ≡ h s r)
    → record g { taken = f } ≡ record g { taken = h }
grid_path g f h e = ap (λ t. record g { taken = t }) (fun_ext λ s. fun_ext λ r. e s r)

fill_rbs_lem :
    (v : Bool) (g : ResourceGrid) (sym rb n : ℕ)
    → sym < max_symbols
    → rb + n ≤ max_rbs
    → fill_rbs v g sym rb n ≡ some (row_filled v g sym rb n)
unfolding fill_rbs
fill_rbs_lem v g sym rb zero h k =
    let ends : (rb == 2 ^ 16) ≡ false = ground arith in
    rw ends (ap some (grid_path g g.taken _ (λ s r. ground arith)))
fill_rbs_lem v g sym rb (suc n) h k =
    let inside : (ltb sym max_symbols && ltb rb max_rbs) ≡ true = ground arith in
    rw (inside, fill_rbs)
      (fill_rbs_lem v (cell_filled v g sym rb) sym (rb + 1) n h (omega arith)
        ∙ ap some (grid_path g _ _ (λ s r. ground arith)))

fill_symbols_lem :
    (v : Bool) (g : ResourceGrid) (r : ResourceBlockRange) (sym n : ℕ)
    → 1 ≤ r.num_rbs
    → r.start_rb + r.num_rbs ≤ max_rbs
    → sym + n ≤ max_symbols
    → fill_symbols v g r sym n ≡ some (filled_from v g r sym n)
unfolding fill_symbols
fill_symbols_lem v g r sym zero h k l =
    let ends : (sym == 2 ^ 8) ≡ false = ground arith in
    rw ends (ap some (grid_path g g.taken _ (λ s r. ground arith)))
fill_symbols_lem v g r sym (suc n) h k l =
    rw (rounds_rbs r h k, fill_rbs_lem v g sym r.start_rb r.num_rbs (omega arith) k, fill_symbols)
      (fill_symbols_lem v (row_filled v g sym r.start_rb r.num_rbs) r (sym + 1) n h k (omega arith)
        ∙ ap some (grid_path g _ _ (λ s b. ground arith)))

-- On a resource inside the bitsets the loops return, and write just the bits of the resource.
pub fill_lem :
    (v : Bool) (g : ResourceGrid) (res : TimeFrequencyResource)
    → IsInside res
    → fill v g res ≡ some (filled v g res)
unfolding fill
fill_lem v g res i =
    let s = res.symbol_range in
    rw (rounds_symbols s i.symbols_not_empty i.symbols_fit) (
      fill_symbols_lem v g res.rb_range s.start_symbol s.num_symbols i.rbs_not_empty i.rbs_fit
        i.symbols_fit)
