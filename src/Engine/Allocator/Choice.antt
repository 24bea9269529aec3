-- ===== src/Engine/Allocator/Choice.antt =====
-- How `DefaultResourceAllocator` picks a run of blocks: its two loops over `find_contiguous`.
use nr5g_basic_scheduler.Base.{
  ℕ, zero, suc, ◌+◌, ◌≤◌, ◌<◌, ◌≡◌, refl, ◌⊎◌, inl, inr, ◌==◌, some, none, arith, Bool-cases, subst,
}
use nr5g_basic_scheduler.Resources.{ResourceBlockRange}
use nr5g_basic_scheduler.Grid.{ResourceGrid, max_rbs, IsInside, find_contiguous}
use nr5g_basic_scheduler.Grid.Cells.{IsFree}
use nr5g_basic_scheduler.Grid.Find.{IsRunFree, find_contiguous-IsFirst}
use nr5g_basic_scheduler.Engine.Allocator.{
  start_symbol, num_symbols, max_rbs_from, choose_range, resource_at,
}

-- Somewhere below the width `n` blocks in a row are free in all of the symbols 2 to 13.
abbrev pub HasRun : ResourceGrid → ℕ → Type 0
HasRun g n = (start : ℕ) × (start + n ≤ g.num_rbs) × IsRunFree g start_symbol num_symbols start n

abbrev pub range_of : (start n : ℕ) → ResourceBlockRange
range_of start n = record { start_rb = start; num_rbs = n }

pub shorter_run : (g : ResourceGrid) {m n : ℕ} → m ≤ n → HasRun g n → HasRun g m
shorter_run g h (start, fits, free) = (start, omega arith, λ r p q. free r p (omega arith))

-- A run is a resource that `allocate` can take.
pub run-IsFree :
    (g : ResourceGrid) (start n : ℕ)
    → IsRunFree g start_symbol num_symbols start n
    → IsFree g (resource_at (range_of start n))
run-IsFree g start n free s p q r p' q' = free r p' q' s p q

pub run-IsInside :
    (g : ResourceGrid) (start n : ℕ)
    → g.num_rbs ≤ max_rbs
    → 1 ≤ n
    → start + n ≤ g.num_rbs
    → IsInside (resource_at (range_of start n))
run-IsInside g start n w h k = record {
  rbs_not_empty = h;
  rbs_fit = omega arith;
  symbols_not_empty = omega arith;
  symbols_fit = omega arith;
}

module _ (g : ResourceGrid) (narrow : g.num_rbs ≤ max_rbs) where
  -- Whether `find_contiguous` finds something, in terms of runs.
  find_run :
      (n : ℕ)
      → 1 ≤ n
      → ((start : ℕ) × (find_contiguous g n start_symbol num_symbols
            ≡ some (some (range_of start n)))
          × (start + n ≤ g.num_rbs)
          × IsRunFree g start_symbol num_symbols start n)
        ⊎ ((find_contiguous g n start_symbol num_symbols ≡ some none) × (¬ HasRun g n))
  find_run n h =
      elim (find_contiguous-IsFirst g n start_symbol num_symbols narrow h (omega arith)) [
        | inl (start, found, (fits, free, first)) ↦ inl (start, found, fits, free)
        | inr (found, nowhere) ↦ inr (found, λ (start, fits, free). nowhere start fits free)
      ]

  -- The loop of `max_allocatable_rbs_internal` returns the length of the longest free run.
  pub max_rbs_from-IsLongest :
      (n : ℕ)
      → (k : ℕ) × (max_rbs_from g n ≡ some k)
        × (k ≤ n)
        × ((1 ≤ k) → HasRun g k)
        × ((m : ℕ) → k < m → m ≤ n → ¬ HasRun g m)
  unfolding max_rbs_from
  max_rbs_from-IsLongest zero =
      (0, refl, omega arith, λ h. absurd (omega arith), λ m p q. absurd (omega arith))
  max_rbs_from-IsLongest (suc n) = elim (find_run (suc n) (omega arith)) [
    | inl (start, found, fits, free) ↦ (
      suc n,
      rw (found, max_rbs_from) refl,
      omega arith,
      λ h. (start, fits, free),
      λ m p q. absurd (omega arith),
    )
    | inr (found, nowhere) ↦
        let (k, e, below, run, longest) = max_rbs_from-IsLongest n in
        (
          k,
          rw (found, max_rbs_from) e,
          omega arith,
          run,
          λ m p q. elim (Bool-cases (m == suc n)) [
            | inl last ↦
                let same : suc n ≡ m = ground arith in subst (λ x. ¬ HasRun g x) same nowhere
            | inr other ↦ longest m p (ground arith)
          ],
        )
  ]

  -- Where a run of the required length is free, the first attempt finds one.
  pub choose_range_found :
      (n : ℕ)
      → 1 ≤ n
      → HasRun g n
      → (start : ℕ) × (choose_range g n ≡ some (some (range_of start n)))
        × (start + n ≤ g.num_rbs)
        × IsRunFree g start_symbol num_symbols start n
  unfolding choose_range
  choose_range_found n h run = elim (find_run n h) [
    | inl (start, found, fits, free) ↦ (start, rw (found, choose_range) refl, fits, free)
    | inr (found, nowhere) ↦ absurd (nowhere run)
  ]
