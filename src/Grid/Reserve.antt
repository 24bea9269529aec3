-- ===== src/Grid/Reserve.antt =====
-- `allocate` and `deallocate` as operations on sets of cells.
use nr5g_basic_scheduler.Base.{
  ℕ, Bool, subst, some_unique, ◌≡◌, sym, ap, ◌∙◌, ◌⊎◌, inl, inr, true, false, some, arith,
}
use nr5g_basic_scheduler.Resources.{TimeFrequencyResource, holds_rb, holds_symbol}
use nr5g_basic_scheduler.Grid.Cells.{
  IsFree, IsUsed, is_available_cases, filled, fill_lem, grid_path,
}
use nr5g_basic_scheduler.Grid.{ResourceGrid, allocate, deallocate, IsInside}

-- The cell lies in the resource.
abbrev pub Holds : TimeFrequencyResource → (sym rb : ℕ) → Type 0
Holds res sym rb = (holds_symbol res.symbol_range sym ≡ true) × (holds_rb res.rb_range rb ≡ true)

-- On a resource inside the bitsets `allocate` returns. Either all its cells are free, and it takes
-- them and no others and says so; or one of them is taken, and it changes nothing.
pub allocate_cases :
    (g : ResourceGrid) (res : TimeFrequencyResource)
    → IsInside res
    → (IsFree g res × (allocate g res ≡ some (filled true g res, true)))
      ⊎ (IsUsed g res × (allocate g res ≡ some (g, false)))
unfolding allocate
allocate_cases g res i = elim (is_available_cases g res i) [
  | inl (e, free) ↦ inl (free, rw (e, allocate) (rw (fill_lem true g res i)))
  | inr (e, used) ↦ inr (used, rw (e, allocate))
]

-- A success means that the cells were free, and gives the new grid.
pub allocate-eq-true :
    (g : ResourceGrid) (res : TimeFrequencyResource) {g' : ResourceGrid}
    → IsInside res
    → allocate g res ≡ some (g', true)
    → IsFree g res × (g' ≡ filled true g res)
allocate-eq-true g res {g'} i e = elim (allocate_cases g res i) [
  | inl (free, f) ↦ (free, cc)
  | inr (used, f) ↦ cc
]

pub held_free :
    (g : ResourceGrid) (res : TimeFrequencyResource) (s r : ℕ)
    → IsFree g res
    → Holds res s r
    → g.taken s r ≡ false
held_free g res s r free h = free s (ground arith) (ground arith) r (ground arith) (ground arith)

pub allocate-IsFree :
    (g : ResourceGrid) (res : TimeFrequencyResource)
    → IsInside res
    → IsFree g res
    → allocate g res ≡ some (filled true g res, true)
allocate-IsFree g res i free = elim (allocate_cases g res i) [
  | inl (_, e) ↦ e
  | inr ((s, p, q, (r, p', q', used)), _) ↦ let unused = free s p q r p' q' in cc
]

-- Releasing what `allocate` took gives the grid back, every cell of it.
pub deallocate-allocate :
    (g : ResourceGrid) (res : TimeFrequencyResource) {g' : ResourceGrid}
    → IsInside res
    → allocate g res ≡ some (g', true)
    → deallocate g' res ≡ some g
unfolding deallocate
deallocate-allocate g res i e =
    let (free, taken) = allocate-eq-true g res i e in
    rw (taken, fill_lem false (filled true g res) res i)
      (ap some (grid_path g _ g.taken λ s r. ground (arith, held_free g res s r free)))

-- Calls of `allocate` one after the other, whatever they return.
pub data Calls (start : ResourceGrid) : ResourceGrid → Type 0 where
  no_call : Calls start start
  called :
      {g g' : ResourceGrid} {done : Bool} (res : TimeFrequencyResource)
      → Calls start g
      → IsInside res
      → allocate g res ≡ some (g', done)
      → Calls start g'

filled_taken :
    (g : ResourceGrid) (res : TimeFrequencyResource) (s r : ℕ)
    → g.taken s r ≡ true
    → (filled true g res).taken s r ≡ true
filled_taken g res s r h = ground arith

allocate_taken :
    (g g' : ResourceGrid) (res : TimeFrequencyResource) (done : Bool) (s r : ℕ)
    → IsInside res
    → allocate g res ≡ some (g', done)
    → g.taken s r ≡ true
    → g'.taken s r ≡ true
allocate_taken g g' res done s r i e h = elim (allocate_cases g res i) [
  | inl (free, f) ↦
      let same : filled true g res ≡ g' = ap (λ (x : ResourceGrid × Bool). x.0) (some_unique f e) in
      subst (λ (x : ResourceGrid). x.taken s r ≡ true) same (filled_taken g res s r h)
  | inr (used, f) ↦
      let same : g ≡ g' = ap (λ (x : ResourceGrid × Bool). x.0) (some_unique f e) in
      subst (λ (x : ResourceGrid). x.taken s r ≡ true) same h
]

Calls-taken :
    (start : ResourceGrid) {g : ResourceGrid} (s r : ℕ)
    → Calls start g
    → start.taken s r ≡ true
    → g.taken s r ≡ true
Calls-taken start s r no_call h = h
Calls-taken start s r (called {g = g} {g' = g'} {done = done} res before i e) h =
    allocate_taken g g' res done s r i e (Calls-taken start s r before h)

-- Two successes with any calls of `allocate` between them, and no release, never share a cell, where
-- all the resources lie inside the bitsets.
pub allocate_disjoint :
    (g : ResourceGrid) (first second : TimeFrequencyResource) {g' h h' : ResourceGrid}
    → IsInside first
    → IsInside second
    → allocate g first ≡ some (g', true)
    → Calls g' h
    → allocate h second ≡ some (h', true)
    → (s r : ℕ) → Holds first s r
    → ¬ Holds second s r
allocate_disjoint g first second {g'} {h} i j e calls f s r held held' =
    let (_, taken) = allocate-eq-true g first i e in
    let (free, _) = allocate-eq-true h second j f in
    let was_free = held_free h second s r free held' in
    let now_taken : g'.taken s r ≡ true =
      ap (λ (x : ResourceGrid). x.taken s r) taken ∙ ground arith in
    let still_taken = Calls-taken g' s r calls now_taken in cc
