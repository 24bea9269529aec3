-- ===== src/Engine/Allocator/Grants.antt =====
-- What `DefaultResourceAllocator::allocate` does to the slot where it returns.
use nr5g_basic_scheduler.Base.{
  ℕ, ◌+◌, ◌≤◌, ◌≡◌, refl, sym, ◌∙◌, ◌⊎◌, inl, inr, ◌==◌, Bool, true, false, some, none, min, arith,
  Bool-cases, Option-cases,
}
use nr5g_basic_scheduler.Resources.{ResourceBlockRange}
use nr5g_basic_scheduler.Tbs.{tbs_table_lookup, min_rbs_for_tbs}
use nr5g_basic_scheduler.Grid.{ResourceGrid, max_rbs, IsInside}
use nr5g_basic_scheduler.Grid.Cells.{IsFree, filled}
use nr5g_basic_scheduler.Grid.Reserve.{allocate-IsFree}
use nr5g_basic_scheduler.Ue.{UeContext, mcs_from_cqi}
use nr5g_basic_scheduler.Cell.{CellContext}
use nr5g_basic_scheduler.Engine.Types.{SchedulingDecision, find_ue}
use nr5g_basic_scheduler.Engine.Allocator.{
  grid_of, with_grid, num_symbols, max_allocatable_rbs, layers_of, required_rbs, granted,
  resource_at, take_range, allocate_for, allocate,
}
use nr5g_basic_scheduler.Engine.Allocator.Choice.{
  HasRun, range_of, shorter_run, run-IsFree, run-IsInside, max_rbs_from-IsLongest,
  choose_range_found,
}

module _ {D : Type 0} where
  -- The decision gets a resource of the UE's cell that was free, with the size of its block, and the
  -- slot is as before but for the cells of that resource.
  pub record IsGranted (ue : UeContext D) (d : SchedulingDecision D) (cell : CellContext D)
      (dl : Bool) (d' : SchedulingDecision D) (cell' : CellContext D) : Type 0 where
    pub range : ResourceBlockRange
    pub inside : IsInside (resource_at range)
    pub free : IsFree (grid_of dl cell.current_slot) (resource_at range)
    pub tbs : ℕ
    pub sized :
        tbs_table_lookup (mcs_from_cqi ue) range.num_rbs (layers_of ue cell) num_symbols 12
        ≡ some tbs
    pub decision : d' ≡ granted ue cell d (resource_at range) tbs
    pub slot : cell' ≡ record cell {
      current_slot =
          with_grid dl cell.current_slot
            (filled true (grid_of dl cell.current_slot) (resource_at range));
    }

module _ {D : Type 0} (ue : UeContext D) (d : SchedulingDecision D) (cell : CellContext D)
    (dl : Bool) (narrow : (grid_of dl cell.current_slot).num_rbs ≤ max_rbs) where
  abbrev grid : ResourceGrid
  grid = grid_of dl cell.current_slot

  -- A positive requirement is a run that is free.
  required-HasRun :
      (required : ℕ)
      → 1 ≤ required
      → required_rbs ue cell d.buffer_bytes dl ≡ some required
      → HasRun grid required
  unfolding required_rbs max_allocatable_rbs
  required-HasRun required h e =
      let (most, f, _, run, _) = max_rbs_from-IsLongest grid narrow cell.config.num_rbs in
      elim (Option-cases (
        min_rbs_for_tbs d.buffer_bytes (mcs_from_cqi ue) (layers_of ue cell) num_symbols
          cell.config.num_rbs)) [
            | inl undefined ↦
                let clash : none ≡ some required = sym (rw (undefined, required_rbs) refl) ∙ e in cc
            | inr (rbs, found) ↦
                let both : some (min rbs most) ≡ some required =
                  sym (rw (found, required_rbs) (rw (f, required_rbs) refl)) ∙ e in
                let same : min rbs most ≡ required = cc in
                shorter_run grid (ground arith) (run (ground arith))
          ]

  -- The cell with a run of blocks taken.
  abbrev pub taken_cell : (start n : ℕ) → CellContext D
  taken_cell start n = record cell {
    current_slot =
        with_grid dl cell.current_slot (filled true grid (resource_at (range_of start n)));
  }

  -- A run that is free is taken, if the size of its block is defined.
  pub take_run :
      (start n tbs : ℕ)
      → 1 ≤ n
      → start + n ≤ grid.num_rbs
      → IsFree grid (resource_at (range_of start n))
      → tbs_table_lookup (mcs_from_cqi ue) n (layers_of ue cell) num_symbols 12 ≡ some tbs
      → let d' = granted ue cell d (resource_at (range_of start n)) tbs in
        (take_range ue cell d dl (range_of start n) ≡ some (d', taken_cell start n, true))
        × IsGranted ue d cell dl d' (taken_cell start n)
  unfolding take_range
  take_run start n tbs h fits free sized =
      let res = resource_at (range_of start n) in
      let inside = run-IsInside grid start n narrow h fits in
      let taken = allocate-IsFree grid res inside free in
      (
        rw (taken, take_range) (rw (sized, take_range) refl),
        record {
          range = range_of start n;
          inside = inside;
          free = free;
          tbs = tbs;
          sized = sized;
          decision = refl;
          slot = refl;
        },
      )

  -- With a positive requirement `allocate` takes a run of just that length: the loop that tries with
  -- fewer blocks is never entered.
  pub allocate_for_required :
      (required : ℕ)
      → 1 ≤ required
      → required_rbs ue cell d.buffer_bytes dl ≡ some required
      → (start : ℕ) × (allocate_for ue cell d dl
          ≡ take_range ue cell d dl (range_of start required))
        × (start + required ≤ grid.num_rbs)
        × IsFree grid (resource_at (range_of start required))
  unfolding allocate_for
  allocate_for_required required h e =
      let (start, found, fits, free) =
        choose_range_found grid narrow required h (required-HasRun required h e) in
      let positive : (required == 0) ≡ false = ground arith in
      (
        start,
        rw (e, allocate_for) (rw (positive, allocate_for) (rw (found, allocate_for) refl)),
        fits,
        run-IsFree grid start required free,
      )

  -- The two ways in which it returns.
  abbrev pub Outcome : SchedulingDecision D × CellContext D × Bool → Type 0
  Outcome r =
      (r ≡ (d, cell, false))
      ⊎ ((d' : SchedulingDecision D) × (cell' : CellContext D) × (r ≡ (d', cell', true))
          × IsGranted ue d cell dl d' cell')

  allocate_for_cases :
      (r : SchedulingDecision D × CellContext D × Bool)
      → allocate_for ue cell d dl ≡ some r
      → Outcome r
  unfolding allocate_for take_range
  allocate_for_cases r e = elim (Option-cases (required_rbs ue cell d.buffer_bytes dl)) [
    | inl undefined ↦ let clash : none ≡ some r = sym (rw (undefined, allocate_for) refl) ∙ e in cc
    | inr (required, required_eq) ↦ elim (Bool-cases (required == 0)) [
      | inl nothing ↦
          let both : some (d, cell, false) ≡ some r =
            sym (rw (required_eq, allocate_for) (rw (nothing, allocate_for) refl)) ∙ e in
          inl (let same : (d, cell, false) ≡ r = cc in sym same)
      | inr positive ↦
          let (start, taken, fits, free) =
            allocate_for_required required (ground arith) required_eq in
          elim (Option-cases
            (tbs_table_lookup (mcs_from_cqi ue) required (layers_of ue cell) num_symbols 12)) [
              | inl unsized ↦
                  let res = resource_at (range_of start required) in
                  let inside = run-IsInside grid start required narrow (ground arith) fits in
                  let clash : none ≡ some r =
                    sym (
                      taken
                      ∙ rw (allocate-IsFree grid res inside free, take_range)
                          (rw (unsized, take_range) refl))
                    ∙ e in
                  cc
              | inr (tbs, sized) ↦
                  let (f, got) = take_run start required tbs (ground arith) fits free sized in
                  let d' = granted ue cell d (resource_at (range_of start required)) tbs in
                  let both : some (d', taken_cell start required, true) ≡ some r =
                    sym (taken ∙ f) ∙ e in
                  let same : (d', taken_cell start required, true) ≡ r = cc in
                  inr (d', taken_cell start required, sym same, got)
            ]
    ]
  ]

module _ {D : Type 0} where
  -- Where `allocate` returns, on a grid of at most 273 blocks, either it reports failure and leaves
  -- the decision and the cell as they were, or it reports success and the UE is in the cell and gets
  -- a free resource.
  pub allocate_cases :
      (d : SchedulingDecision D) (cell : CellContext D) (dl : Bool)
      (r : SchedulingDecision D × CellContext D × Bool)
      → (grid_of dl cell.current_slot).num_rbs ≤ max_rbs
      → allocate d cell dl ≡ some r
      → (r ≡ (d, cell, false))
        ⊎ ((ue : UeContext D) × (find_ue cell.ue_repository d.rnti ≡ some ue)
            × (d' : SchedulingDecision D) × (cell' : CellContext D) × (r ≡ (d', cell', true))
            × IsGranted ue d cell dl d' cell')
  unfolding allocate
  allocate_cases d cell dl r narrow e = elim (Option-cases (find_ue cell.ue_repository d.rnti)) [
    | inl gone ↦
        let both : some (d, cell, false) ≡ some r = sym (rw (gone, allocate) refl) ∙ e in
        inl (let same : (d, cell, false) ≡ r = cc in sym same)
    | inr (ue, found) ↦
        let f : allocate_for ue cell d dl ≡ some r = sym (rw (found, allocate) refl) ∙ e in
        elim (allocate_for_cases ue d cell dl narrow r f) [
          | inl failed ↦ inl failed
          | inr (d', cell', same, got) ↦ inr (ue, found, d', cell', same, got)
        ]
  ]
