-- ===== src/Cell.antt =====
-- Cells and slots: CellConfig with its TDD types, SlotContext and CellContext of
-- nr_scheduler/include/core/cell_context.hpp.
pub mod Slots
mod Examples
use nr5g_basic_scheduler.Base.{
  ℕ, ◌+◌, ◌*◌, ◌%◌, ◌^◌, Bool, true, false, not, ltb, ◌==◌, ◌&&◌, if◌then◌else◌, Option, none, some,
  List, length, get_elem?, ◌>>=◌, arith,
}
use nr5g_basic_scheduler.Base.Int.{ℤ}
use nr5g_basic_scheduler.Timing.{FrameTiming, NumerologyConfig}
use nr5g_basic_scheduler.Grid.{ResourceGrid, empty_grid}
use nr5g_basic_scheduler.Cce.{CcePool, empty_pool}
use nr5g_basic_scheduler.Ue.{UeRepository, empty_repository}

pub data DuplexMode : Type 0 where
  fdd tdd : DuplexMode

pub record TddSlotConfig : Type 0 where
  pub num_dl_symbols : ℕ
  pub num_guard_symbols : ℕ
  pub num_ul_symbols : ℕ

unfoldable pub is_downlink_only : TddSlotConfig → Bool
is_downlink_only c = c.num_ul_symbols == 0 && c.num_guard_symbols == 0

unfoldable pub is_uplink_only : TddSlotConfig → Bool
is_uplink_only c = c.num_dl_symbols == 0 && c.num_guard_symbols == 0

unfoldable pub is_special : TddSlotConfig → Bool
unfolding is_downlink_only is_uplink_only
is_special c = not (is_downlink_only c) && not (is_uplink_only c)

pub record TddPattern : Type 0 where
  pub periodicity_slots : ℕ
  pub slot_configs : List TddSlotConfig

-- `none` where the list is empty: a remainder by zero.
unfoldable pub get_config : TddPattern → ℕ → Option TddSlotConfig
get_config p slot_in_pattern =
    if length p.slot_configs == 0
    then none
    else get_elem? p.slot_configs (slot_in_pattern % length p.slot_configs)

pub record CellConfig : Type 0 where
  pub cell_id : ℕ
  pub pci : ℕ
  pub frequency_khz : ℕ
  pub bandwidth_mhz : ℕ
  pub num_rbs : ℕ
  pub duplex_mode : DuplexMode
  pub numerology : NumerologyConfig
  pub tdd_pattern : Option TddPattern
  pub coreset0_num_rbs : ℕ
  pub coreset0_num_symbols : ℕ
  pub max_ues : ℕ
  pub max_pdsch_per_slot : ℕ
  pub max_pusch_per_slot : ℕ
  pub max_pdcch_per_slot : ℕ
  pub num_tx_antennas : ℕ
  pub num_rx_antennas : ℕ
  pub max_layers : ℕ
  pub ref_signal_power_dbm : ℤ

abbrev pub is_fdd : DuplexMode → Bool
is_fdd fdd = true
is_fdd tdd = false

abbrev pub is_tdd : DuplexMode → Bool
is_tdd fdd = false
is_tdd tdd = true

pub record SlotContext : Type 0 where
  pub timing : FrameTiming
  pub dl_grid : ResourceGrid
  pub ul_grid : ResourceGrid
  pub cce_pool : CcePool
  pub can_schedule_dl : Bool
  pub can_schedule_ul : Bool
  pub tdd_config : TddSlotConfig
  pub remaining_pdsch : ℕ
  pub remaining_pusch : ℕ
  pub remaining_pdcch : ℕ
  pub dl_bytes_scheduled : ℕ
  pub ul_bytes_scheduled : ℕ
  pub ues_scheduled_dl : ℕ
  pub ues_scheduled_ul : ℕ

-- What `initialize` does before it looks at the duplex mode.
unfoldable pub cleared : CellConfig → FrameTiming → SlotContext → SlotContext
unfolding empty_grid empty_pool
cleared cfg t s = record s {
  timing = t;
  dl_grid = empty_grid cfg.num_rbs cfg.numerology.symbols_per_slot;
  ul_grid = empty_grid cfg.num_rbs cfg.numerology.symbols_per_slot;
  cce_pool = empty_pool (cfg.coreset0_num_rbs * cfg.coreset0_num_symbols % 2 ^ 8);
  remaining_pdsch = cfg.max_pdsch_per_slot;
  remaining_pusch = cfg.max_pusch_per_slot;
  remaining_pdcch = cfg.max_pdcch_per_slot;
  dl_bytes_scheduled = 0;
  ul_bytes_scheduled = 0;
  ues_scheduled_dl = 0;
  ues_scheduled_ul = 0;
}

-- `none` where the pattern has no period or no slots: a remainder by zero.
unfoldable pub initialize : CellConfig → FrameTiming → SlotContext → Option SlotContext
unfolding cleared get_config
initialize cfg t s =
    let s' = cleared cfg t s in
    if is_fdd cfg.duplex_mode
    then some (record s' {
      can_schedule_dl = true;
      can_schedule_ul = true;
      tdd_config = record { num_dl_symbols = 14; num_guard_symbols = 0; num_ul_symbols = 14 };
    })
    else elim cfg.tdd_pattern [
      | none ↦ some s'
      | some p ↦ if p.periodicity_slots == 0 then none else (do
        c ← get_config p (t.slot % p.periodicity_slots)
        some (record s' {
          tdd_config = c;
          can_schedule_dl = ltb 0 c.num_dl_symbols;
          can_schedule_ul = ltb 0 c.num_ul_symbols;
        }))
    ]

-- `CellContext::Statistics`
pub record CellStatistics : Type 0 where
  pub total_dl_bytes : ℕ
  pub total_ul_bytes : ℕ
  pub total_slots_processed : ℕ
  pub dl_retransmissions : ℕ
  pub ul_retransmissions : ℕ
  pub scheduling_failures : ℕ

pub record CellContext (D : Type 0) : Type 0 where
  pub config : CellConfig
  pub ue_repository : UeRepository D
  pub current_slot : SlotContext
  pub statistics : CellStatistics

module _ {D : Type 0} where
  -- The constructor; `no_slot` stands for a slot whose members have no value.
  unfoldable pub new_cell : SlotContext → CellConfig → CellContext D
  unfolding empty_repository
  new_cell no_slot config = record {
    config = config;
    ue_repository = empty_repository;
    current_slot = no_slot;
    statistics = record {
      total_dl_bytes = 0;
      total_ul_bytes = 0;
      total_slots_processed = 0;
      dl_retransmissions = 0;
      ul_retransmissions = 0;
      scheduling_failures = 0;
    };
  }

  unfoldable pub advance_to_slot : CellContext D → FrameTiming → Option (CellContext D)
  unfolding initialize
  advance_to_slot c timing = do
    s ← initialize c.config timing c.current_slot
    some (record c { current_slot = s })
