-- ===== src/Grid/Examples.antt =====
-- A carrier of 106 blocks with one allocation, after the repository's own tests.
use nr5g_basic_scheduler.Base.{ℕ, ◌≡◌, refl, ◌⊎◌, true, false, some, none, arith}
use nr5g_basic_scheduler.Resources.{TimeFrequencyResource}
use nr5g_basic_scheduler.Grid.Cells.{IsFree, IsUsed, filled}
use nr5g_basic_scheduler.Grid.Reserve.{
  Holds, no_call, called, allocate_cases, allocate-IsFree, deallocate-allocate, allocate_disjoint,
}
use nr5g_basic_scheduler.Grid.Find.{IsFirst, IsNowhere, find_contiguous-IsFirst}
use nr5g_basic_scheduler.Grid.Count.{IsWithin}
use nr5g_basic_scheduler.Grid.{
  ResourceGrid, empty_grid, allocate, deallocate, find_contiguous, total_available_res, count_below,
  IsInside,
}

abbrev carrier : ResourceGrid
carrier = record { num_rbs = 106; num_symbols = 14; taken = λ sym rb. false }

abbrev block : TimeFrequencyResource
block = record {
  rb_range = record { start_rb = 10; num_rbs = 20 };
  symbol_range = record { start_symbol = 2; num_symbols = 3 };
}

abbrev other_block : TimeFrequencyResource
other_block = record {
  rb_range = record { start_rb = 30; num_rbs = 5 };
  symbol_range = record { start_symbol = 2; num_symbols = 12 };
}

abbrev loaded : ResourceGrid
loaded = filled true carrier block

block-IsInside : IsInside block
block-IsInside = omega arith

other_block-IsInside : IsInside other_block
other_block-IsInside = omega arith

carrier-IsWithin : IsWithin carrier
carrier-IsWithin = record { width_le = omega arith; rest_free = λ s r h. refl }

taken_once : allocate carrier block ≡ some (loaded, true)
taken_once = allocate-IsFree carrier block block-IsInside (λ s p q r p' q'. refl)

taken_next : allocate loaded other_block ≡ some (filled true loaded other_block, true)
taken_next = allocate-IsFree loaded other_block other_block-IsInside (λ s p q r p' q'. ground arith)

-- Nothing is found in the gap of ten blocks before the allocation; the next run is behind it.
finds_behind : find_contiguous loaded 15 2 12 ≡ some (some (record { start_rb = 30; num_rbs = 15 }))
unfolding find_contiguous
finds_behind = refl

-- A block past the bitset ends the program, and an empty range at the origin runs there.
faults :
    (allocate carrier (record block { rb_range = record { start_rb = 270; num_rbs = 4 } }) ≡ none)
    × (allocate carrier (record block { rb_range = record { start_rb = 0; num_rbs = 0 } }) ≡ none)
unfolding allocate
faults = (refl, refl)

starts_free : total_available_res (empty_grid 106 14) ≡ some 1484
unfolding total_available_res empty_grid count_below
starts_free = refl

allocate_cases_example :
    (IsFree carrier block × (allocate carrier block ≡ some (loaded, true)))
    ⊎ (IsUsed carrier block × (allocate carrier block ≡ some (carrier, false)))
allocate_cases_example = allocate_cases carrier block block-IsInside

deallocate-allocate_example : deallocate loaded block ≡ some carrier
deallocate-allocate_example = deallocate-allocate carrier block block-IsInside taken_once

refused_again : allocate loaded block ≡ some (loaded, false)
unfolding allocate
refused_again = refl

allocate_disjoint_example : ¬ Holds other_block 3 12
allocate_disjoint_example =
    allocate_disjoint carrier block other_block block-IsInside other_block-IsInside taken_once
      (called block no_call block-IsInside refused_again) taken_next 3 12 (refl, refl)

find_contiguous-IsFirst_example :
    let found = find_contiguous loaded 15 2 12 in
    ((first : ℕ) × (found ≡ some (some (record { start_rb = first; num_rbs = 15 })))
      × IsFirst loaded 15 2 12 first)
    ⊎ ((found ≡ some none) × IsNowhere loaded 15 2 12)
find_contiguous-IsFirst_example =
    find_contiguous-IsFirst loaded 15 2 12 (omega arith) (omega arith) (omega arith)
