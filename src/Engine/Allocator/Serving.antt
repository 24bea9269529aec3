-- ===== src/Engine/Allocator/Serving.antt =====
-- When `DefaultResourceAllocator::allocate` returns and succeeds.
use nr5g_basic_scheduler.Base.{
  ℕ, suc, ◌≤◌, ◌≡◌, refl, sym, ap, ◌∙◌, ◌⊎◌, inl, inr, ◌==◌, leb, Bool, true, false, Option, some,
  min, arith, Bool-cases, subst,
}
use nr5g_basic_scheduler.Tbs.Lookup.{tbs_table_lookup_defined}
use nr5g_basic_scheduler.Tbs.Search.{sizes, min_rbs_for_tbs-IsFound}
use nr5g_basic_scheduler.Grid.{ResourceGrid}
use nr5g_basic_scheduler.Ue.{UeContext, effective_cqi, mcs_from_cqi}
use nr5g_basic_scheduler.Cell.{CellContext}
use nr5g_basic_scheduler.Engine.Types.{SchedulingDecision, find_ue}
use nr5g_basic_scheduler.Engine.Allocator.{
  grid_of, num_symbols, max_allocatable_rbs, layers_of, required_rbs, granted, allocate_for,
  allocate, resource_at,
}
use nr5g_basic_scheduler.Engine.Allocator.Choice.{
  HasRun, range_of, shorter_run, max_rbs_from-IsLongest,
}
use nr5g_basic_scheduler.Engine.Allocator.Grants.{
  IsGranted, taken_cell, take_run, allocate_for_required,
}

-- The cell has 1 to 273 blocks, as its grid, and up to 8 layers, and the UE reported a CQI of 5 or
-- more.
pub record IsServable {D : Type 0} (ue : UeContext D) (cell : CellContext D) (dl : Bool)
    : Type 0 where
  pub good_channel : 5 ≤ effective_cqi ue
  pub layers_fit : cell.config.max_layers ≤ 8
  pub width : (grid_of dl cell.current_slot).num_rbs ≡ cell.config.num_rbs
  pub not_empty : 1 ≤ cell.config.num_rbs
  pub fits : cell.config.num_rbs ≤ 273

module _ {D : Type 0} where
  pub mcs_range :
      (ue : UeContext D) → 5 ≤ effective_cqi ue → (7 ≤ mcs_from_cqi ue) × (mcs_from_cqi ue ≤ 28)
  unfolding mcs_from_cqi
  mcs_range ue h = ground arith

  layers_range :
      (ue : UeContext D) (cell : CellContext D)
      → cell.config.max_layers ≤ 8
      → (1 ≤ layers_of ue cell) × (layers_of ue cell ≤ 8)
  unfolding layers_of
  layers_range ue cell h = ground arith

module _ {D : Type 0} (ue : UeContext D) (d : SchedulingDecision D) (cell : CellContext D)
    (dl : Bool) (ok : IsServable ue cell dl) where
  abbrev grid : ResourceGrid
  grid = grid_of dl cell.current_slot

  abbrev table : ℕ → Option ℕ
  table = sizes (mcs_from_cqi ue) (layers_of ue cell) num_symbols

  table_defined : (r : ℕ) → 1 ≤ r → r ≤ 273 → (tbs : ℕ) × (table r ≡ some tbs)
  table_defined r h k =
      let (m1, m2) = mcs_range ue ok.good_channel in
      let (l1, l2) = layers_range ue cell ok.layers_fit in
      let (tbs, e, _) =
        tbs_table_lookup_defined (mcs_from_cqi ue) r (layers_of ue cell) m1 m2 h k l1 l2 in
      (tbs, e)

  -- The block holds the bytes, or no longer run is free.
  abbrev pub IsServed : (n tbs : ℕ) → Type 0
  IsServed n tbs = (d.buffer_bytes ≤ tbs) ⊎ (¬ HasRun grid (suc n))

  -- The requirement is computed; it is zero only if no block is free, and serves the buffer as well
  -- as the free blocks allow.
  required-IsServed :
      (n : ℕ) × (required_rbs ue cell d.buffer_bytes dl ≡ some n)
      × (n ≤ 273)
      × ((n ≡ 0) → ¬ HasRun grid 1)
      × ((1 ≤ n) → HasRun grid n)
      × ((tbs : ℕ) → table n ≡ some tbs → IsServed n tbs)
  unfolding required_rbs max_allocatable_rbs
  required-IsServed =
      let width = cell.config.num_rbs in
      let h1 = ok.not_empty in
      let h2 = ok.fits in
      let same = ok.width in
      let (rbs, found, fit) =
        min_rbs_for_tbs-IsFound d.buffer_bytes (mcs_from_cqi ue) (layers_of ue cell) num_symbols
          width h1 (omega arith) (λ r p q. table_defined r p (omega arith)) in
      let (most, counted, below, run, longest) =
        max_rbs_from-IsLongest grid (subst (λ n. n ≤ 273) (sym same) h2) width in
      let low = fit.low_le in
      let high = fit.le_high in
      (
        min rbs most,
        rw (found, required_rbs) (rw (counted, required_rbs) refl),
        omega arith,
        λ zero_runs one. longest 1 (ground arith) h1 one,
        λ some_runs. shorter_run grid (omega arith) (run (ground arith)),
        λ tbs sized. elim (Bool-cases (leb rbs most)) [
          | inl all ↦
              let whole : min rbs most ≡ rbs = ground arith in
              elim fit.enough [
                | inl last ↦ inr λ (start, inside, _). absurd (omega arith)
                | inr (tbs', sized', enough) ↦
                    let both : some tbs' ≡ some tbs = sym sized' ∙ ap table (sym whole) ∙ sized in
                    let one : tbs' ≡ tbs = cc in inl (omega arith)
              ]
          | inr part ↦
              let capped : min rbs most ≡ most = ground arith in
              inr (
                subst (λ n. ¬ HasRun grid (suc n)) (sym capped)
                  (longest (suc most) (omega arith) (ground arith)))
        ],
      )

-- For a servable UE of the cell, `allocate` returns. If no block is free in all the symbols 2 to 13
-- it fails and changes nothing; otherwise it succeeds, with a free resource whose block holds the
-- buffer unless no longer run of blocks is free.
pub allocate-IsServed :
    {D : Type 0} (ue : UeContext D) (d : SchedulingDecision D) (cell : CellContext D) (dl : Bool)
    → find_ue cell.ue_repository d.rnti ≡ some ue
    → IsServable ue cell dl
    → ((¬ HasRun (grid_of dl cell.current_slot) 1) × (allocate d cell dl ≡ some (d, cell, false)))
      ⊎ ((d' : SchedulingDecision D) × (cell' : CellContext D) × (allocate d cell dl
            ≡ some (d', cell', true))
          × IsGranted ue d cell dl d' cell'
          × ((d.buffer_bytes ≤ d'.tb_config.tb_size_bytes)
              ⊎ (¬ HasRun (grid_of dl cell.current_slot) (suc d'.resources.rb_range.num_rbs))))
unfolding allocate allocate_for granted
allocate-IsServed ue d cell dl found ok =
    let (n, computed, fits, nothing, run, served) = required-IsServed ue d cell dl ok in
    let narrow = subst (λ w. w ≤ 273) (sym ok.width) ok.fits in
    elim (Bool-cases (n == 0)) [
      | inl empty ↦ inl (
        nothing (ground arith),
        rw (found, allocate) (rw (computed, allocate_for) (rw (empty, allocate_for) refl)),
      )
      | inr positive ↦
          let (start, taken, inside, free) =
            allocate_for_required ue d cell dl narrow n (ground arith) computed in
          let (tbs, sized) = table_defined ue d cell dl ok n (ground arith) fits in
          let (e, got) =
            take_run ue d cell dl narrow start n tbs (ground arith) inside free sized in
          inr (
            granted ue cell d (resource_at (range_of start n)) tbs,
            taken_cell ue d cell dl narrow start n,
            rw (found, allocate) (taken ∙ e),
            got,
            served tbs sized,
          )
    ]
