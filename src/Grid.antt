-- ===== src/Grid.antt =====
-- `class ResourceGrid` of nr_scheduler/include/core/cell_context.hpp. The array of bitsets is a
-- function from symbols and blocks to bits. `none` is a call that does not return: a bit past the
-- bitset's 273 (the exception ends the program, since the methods are `noexcept`), a symbol past the
-- array's 14, or a loop whose byte counter runs past 255.
pub mod Cells
pub mod Reserve
pub mod Find
pub mod Count
mod Examples
use nr5g_basic_scheduler.Base.{
  ℕ, zero, suc, ◌+◌, ◌-◌, ◌%◌, ◌^◌, ◌≤◌, Bool, true, false, ◌&&◌, ltb, leb, ◌==◌, if◌then◌else◌,
  Option, none, some, ◌>>=◌,
}
use nr5g_basic_scheduler.Resources.{
  ResourceBlockRange, SymbolRange, TimeFrequencyResource, end_rb, end_symbol,
}

abbrev pub max_rbs : ℕ
max_rbs = 273

abbrev pub max_symbols : ℕ
max_symbols = 14

pub record ResourceGrid : Type 0 where
  pub num_rbs : ℕ
  pub num_symbols : ℕ
  pub taken : ℕ → ℕ → Bool

-- The constructor, and `reset`.
unfoldable pub empty_grid : ℕ → ℕ → ResourceGrid
empty_grid rbs symbols = record { num_rbs = rbs; num_symbols = symbols; taken = λ sym rb. false }

unfoldable pub reset : ResourceGrid → ResourceGrid
reset g = record g { taken = λ sym rb. false }

-- `rb_allocation_[sym].test(rb)`
unfoldable pub test_cell : ResourceGrid → ℕ → ℕ → Option Bool
test_cell g sym rb = if ltb sym max_symbols && ltb rb max_rbs then some (g.taken sym rb) else none

-- `rb_allocation_[sym].set(rb)` and `.reset(rb)`
unfoldable pub put_cell : Bool → ResourceGrid → ℕ → ℕ → Option ResourceGrid
put_cell v g sym rb =
    if ltb sym max_symbols && ltb rb max_rbs
    then some (record g { taken = λ s r. if s == sym && r == rb then v else g.taken s r })
    else none

-- The loops of `is_available`, with the rounds that are left. A counter at the end of its word
-- never leaves its loop by the test.
unfoldable pub scan_rbs : ResourceGrid → (sym rb rounds : ℕ) → Option Bool
unfolding test_cell
scan_rbs g sym rb zero = if rb == 2 ^ 16 then none else some true
scan_rbs g sym rb (suc rounds) = elim (test_cell g sym rb) [
  | none ↦ none
  | some used ↦ elim used [ true ↦ some false | false ↦ scan_rbs g sym (rb + 1) rounds ]
]

unfoldable pub scan_symbols : ResourceGrid → ResourceBlockRange → (sym rounds : ℕ) → Option Bool
unfolding scan_rbs
scan_symbols g r sym zero = if sym == 2 ^ 8 then none else some true
scan_symbols g r sym (suc rounds) = elim (scan_rbs g sym r.start_rb (end_rb r + 1 - r.start_rb)) [
  | none ↦ none
  | some free ↦ elim free [ true ↦ scan_symbols g r (sym + 1) rounds | false ↦ some false ]
]

unfoldable pub is_available : ResourceGrid → TimeFrequencyResource → Option Bool
unfolding scan_symbols end_rb end_symbol
is_available g res =
    let s = res.symbol_range in
    scan_symbols g res.rb_range s.start_symbol (end_symbol s + 1 - s.start_symbol)

-- The loops of `allocate` (writing `true`) and `deallocate` (writing `false`).
unfoldable pub fill_rbs : Bool → ResourceGrid → (sym rb rounds : ℕ) → Option ResourceGrid
unfolding put_cell
fill_rbs v g sym rb zero = if rb == 2 ^ 16 then none else some g
fill_rbs v g sym rb (suc rounds) = elim (put_cell v g sym rb) [
  | none ↦ none
  | some g' ↦ fill_rbs v g' sym (rb + 1) rounds
]

unfoldable pub fill_symbols :
    Bool → ResourceGrid → ResourceBlockRange → (sym rounds : ℕ) → Option ResourceGrid
unfolding fill_rbs
fill_symbols v g r sym zero = if sym == 2 ^ 8 then none else some g
fill_symbols v g r sym (suc rounds) =
    elim (fill_rbs v g sym r.start_rb (end_rb r + 1 - r.start_rb)) [
      | none ↦ none
      | some g' ↦ fill_symbols v g' r (sym + 1) rounds
    ]

unfoldable pub fill : Bool → ResourceGrid → TimeFrequencyResource → Option ResourceGrid
unfolding fill_symbols end_rb end_symbol
fill v g res =
    let s = res.symbol_range in
    fill_symbols v g res.rb_range s.start_symbol (end_symbol s + 1 - s.start_symbol)

unfoldable pub allocate : ResourceGrid → TimeFrequencyResource → Option (ResourceGrid × Bool)
unfolding is_available fill
allocate g res = do
  free ← is_available g res
  if free then (do g' ← fill true g res; some (g', true)) else some (g, false)

unfoldable pub deallocate : ResourceGrid → TimeFrequencyResource → Option ResourceGrid
unfolding fill
deallocate g res = fill false g res

-- The inner loop of `find_contiguous`: whether one block is free in all the symbols.
unfoldable pub column_free : ResourceGrid → (rb sym rounds : ℕ) → Option Bool
unfolding test_cell
column_free g rb sym zero = some true
column_free g rb sym (suc rounds) = elim (test_cell g sym rb) [
  | none ↦ none
  | some used ↦ elim used [ true ↦ some false | false ↦ column_free g rb (sym + 1) rounds ]
]

-- The outer loop, at block `rb`, after `contiguous` free blocks from `start` on.
unfoldable pub find_from :
    ResourceGrid
    → (wanted start_symbol num_symbols rb contiguous start rounds : ℕ)
    → Option (Option ResourceBlockRange)
unfolding column_free
find_from g wanted ss ns rb contiguous start zero = some none
find_from g wanted ss ns rb contiguous start (suc rounds) = elim (column_free g rb ss ns) [
  | none ↦ none
  | some available ↦ elim available [
    | false ↦ find_from g wanted ss ns (rb + 1) 0 start rounds
    | true ↦
        let start' = if contiguous == 0 then rb else start in
        elim (leb wanted (contiguous + 1)) [
          | true ↦ some (some (record { start_rb = start'; num_rbs = wanted }))
          | false ↦ find_from g wanted ss ns (rb + 1) (contiguous + 1) start' rounds
        ]
  ]
]

unfoldable pub find_contiguous :
    ResourceGrid → (wanted start_symbol num_symbols : ℕ) → Option (Option ResourceBlockRange)
unfolding find_from
find_contiguous g wanted ss ns = find_from g wanted ss ns 0 0 0 g.num_rbs

-- `rb_allocation_[symbol].count()`, over the blocks below a bound.
unfoldable pub count_below : ResourceGrid → ℕ → ℕ → ℕ
count_below g sym zero = 0
count_below g sym (suc n) = (if g.taken sym n then 1 else 0) + count_below g sym n

-- The count stays shut here: opened at 273 it would be written out.
unfoldable pub available_rbs : ResourceGrid → ℕ → Option ℕ
available_rbs g sym =
    if ltb sym max_symbols
    then some ((g.num_rbs + 2 ^ 64 - count_below g sym max_rbs) % 2 ^ 16)
    else none

unfoldable pub total_from : ResourceGrid → (sym rounds total : ℕ) → Option ℕ
unfolding available_rbs
total_from g sym zero total = some total
total_from g sym (suc rounds) total = elim (available_rbs g sym) [
  | none ↦ none
  | some n ↦ total_from g (sym + 1) rounds ((total + n) % 2 ^ 16)
]

unfoldable pub total_available_res : ResourceGrid → Option ℕ
unfolding total_from
total_available_res g = total_from g 0 g.num_symbols 0

-- At least one block and one symbol, all within the bitsets.
pub record IsInside (res : TimeFrequencyResource) : Type 0 where
  pub rbs_not_empty : 1 ≤ res.rb_range.num_rbs
  pub rbs_fit : res.rb_range.start_rb + res.rb_range.num_rbs ≤ max_rbs
  pub symbols_not_empty : 1 ≤ res.symbol_range.num_symbols
  pub symbols_fit : res.symbol_range.start_symbol + res.symbol_range.num_symbols ≤ max_symbols
