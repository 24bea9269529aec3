-- ===== src/Engine/Allocator.antt =====
-- `DefaultResourceAllocator` of nr_scheduler/src/scheduler_engine.cpp. An outer `none` is undefined
-- behaviour of the block sizes or the grid.
pub mod Choice
pub mod Grants
pub mod Serving
pub mod Keeping
use nr5g_basic_scheduler.Base.{
  ℕ, zero, suc, ◌-◌, min, Bool, true, false, ◌==◌, if◌then◌else◌, Option, none, some, ◌>>=◌,
}
use nr5g_basic_scheduler.Resources.{ResourceBlockRange, TimeFrequencyResource}
use nr5g_basic_scheduler.Tbs.{tbs_table_lookup, min_rbs_for_tbs}
use nr5g_basic_scheduler.Grid.{ResourceGrid, find_contiguous}
use nr5g_basic_scheduler.Grid
use nr5g_basic_scheduler.Ue.{UeContext, mcs_from_cqi}
use nr5g_basic_scheduler.Cell.{SlotContext, CellContext}
use nr5g_basic_scheduler.Engine.Types.{SchedulingDecision, find_ue}

-- `is_downlink ? slot.dl_grid : slot.ul_grid`, and a change to it.
unfoldable pub grid_of : Bool → SlotContext → ResourceGrid
grid_of true s = s.dl_grid
grid_of false s = s.ul_grid

unfoldable pub with_grid : Bool → SlotContext → ResourceGrid → SlotContext
with_grid true s g = record s { dl_grid = g }
with_grid false s g = record s { ul_grid = g }

abbrev pub start_symbol : ℕ
start_symbol = 2

abbrev pub num_symbols : ℕ
num_symbols = 12

-- The first run that `find_contiguous` gives for `rbs` blocks, or for fewer: the loop that tries
-- with fewer blocks, and that of `max_allocatable_rbs_internal`.
unfoldable pub try_fewer : ResourceGrid → (rbs : ℕ) → Option (Option ResourceBlockRange)
try_fewer g zero = some none
try_fewer g (suc n) = elim (find_contiguous g (suc n) start_symbol num_symbols) [
  | none ↦ none
  | some found ↦ elim found [ none ↦ try_fewer g n | some range ↦ some (some range) ]
]

unfoldable pub max_rbs_from : ResourceGrid → (rbs : ℕ) → Option ℕ
max_rbs_from g zero = some 0
max_rbs_from g (suc n) = elim (find_contiguous g (suc n) start_symbol num_symbols) [
  | none ↦ none
  | some found ↦ elim found [ none ↦ max_rbs_from g n | some range ↦ some (suc n) ]
]

-- `find_contiguous` and, if it finds nothing, the loop.
unfoldable pub choose_range : ResourceGrid → (required : ℕ) → Option (Option ResourceBlockRange)
unfolding try_fewer
choose_range g required = do
  found ← find_contiguous g required start_symbol num_symbols
  elim found [ none ↦ try_fewer g (required - 1) | some range ↦ some (some range) ]

abbrev pub resource_at : ResourceBlockRange → TimeFrequencyResource
resource_at range = record {
  rb_range = range;
  symbol_range = record { start_symbol = start_symbol; num_symbols = num_symbols };
}

module _ {D : Type 0} where
  unfoldable pub max_allocatable_rbs : CellContext D → Bool → Option ℕ
  unfolding max_rbs_from grid_of
  max_allocatable_rbs cell dl = max_rbs_from (grid_of dl cell.current_slot) cell.config.num_rbs

  unfoldable pub layers_of : UeContext D → CellContext D → ℕ
  layers_of ue cell =
      let n = min ue.dl_channel_quality.rank_indicator cell.config.max_layers in
      if n == 0 then 1 else n

  unfoldable pub required_rbs : UeContext D → CellContext D → (buffer_bytes : ℕ) → Bool → Option ℕ
  unfolding max_allocatable_rbs layers_of
  required_rbs ue cell buffer_bytes dl = do
    rbs ←
        min_rbs_for_tbs buffer_bytes (mcs_from_cqi ue) (layers_of ue cell) num_symbols
          cell.config.num_rbs
    most ← max_allocatable_rbs cell dl
    some (min rbs most)

  -- What it writes on success.
  unfoldable pub granted :
      UeContext D
      → CellContext D
      → SchedulingDecision D
      → TimeFrequencyResource
      → (tbs : ℕ) → SchedulingDecision D
  unfolding layers_of
  granted ue cell d res tbs = record d {
    resources = res;
    tb_config = record d.tb_config {
      mcs_index = mcs_from_cqi ue;
      mcs_table = 0;
      num_layers = layers_of ue cell;
      tb_size_bytes = tbs;
    };
  }

  unfoldable pub take_range :
      UeContext D
      → CellContext D
      → SchedulingDecision D
      → Bool
      → ResourceBlockRange
      → Option (SchedulingDecision D × CellContext D × Bool)
  unfolding grid_of with_grid granted
  take_range ue cell d dl range = do
    r ← Grid.allocate (grid_of dl cell.current_slot) (resource_at range)
    elim (r.1) [
      | false ↦ some (d, cell, false)
      | true ↦ (do
        tbs ← tbs_table_lookup (mcs_from_cqi ue) range.num_rbs (layers_of ue cell) num_symbols 12
        some (
          granted ue cell d (resource_at range) tbs,
          record cell { current_slot = with_grid dl cell.current_slot (r.0) },
          true,
        ))
    ]

  unfoldable pub allocate_for :
      UeContext D
      → CellContext D
      → SchedulingDecision D
      → Bool
      → Option (SchedulingDecision D × CellContext D × Bool)
  unfolding required_rbs choose_range take_range
  allocate_for ue cell d dl = elim (required_rbs ue cell d.buffer_bytes dl) [
    | none ↦ none
    | some required ↦
        if required == 0
        then some (d, cell, false)
        else elim (choose_range (grid_of dl cell.current_slot) required) [
          | none ↦ none
          | some found ↦ elim found [
            | none ↦ some (d, cell, false)
            | some range ↦ take_range ue cell d dl range
          ]
        ]
  ]

  unfoldable pub allocate :
      SchedulingDecision D
      → CellContext D
      → Bool
      → Option (SchedulingDecision D × CellContext D × Bool)
  unfolding allocate_for
  allocate d cell dl = elim (find_ue cell.ue_repository d.rnti) [
    | none ↦ some (d, cell, false)
    | some ue ↦ allocate_for ue cell d dl
  ]
