-- ===== src/Channels/Pdcch.antt =====
-- The structs of nr_scheduler/include/channels/pdcch_manager.hpp with their functions. `none` is a
-- remainder by zero or a signed overflow.
use nr5g_basic_scheduler.Base.{
  ℕ, ◌+◌, ◌*◌, ◌/◌, ◌%◌, ◌^◌, Bool, ◌==◌, if◌then◌else◌, Option, none, some, List,
}
use nr5g_basic_scheduler.Base.Int.{ℤ}
use nr5g_basic_scheduler.Resources.{ResourceBlockRange}
use nr5g_basic_scheduler.Cce.{AggregationLevel, al_value}
use nr5g_basic_scheduler.Phy.{DciFormat}

pub record CoresetConfig : Type 0 where
  pub coreset_id : ℕ
  pub start_rb : ℕ
  pub num_rbs : ℕ
  pub num_symbols : ℕ
  pub cce_to_reg_mapping : ℕ
  pub interleaver_size : ℕ
  pub shift_index : ℕ
  pub precoder_granularity : ℕ

-- `CoresetConfig::num_cces`, in 8 bits.
unfoldable pub coreset_cces : CoresetConfig → ℕ
coreset_cces c = c.num_rbs * c.num_symbols / 6 % 2 ^ 8

pub data SearchSpaceType : Type 0 where
  common ue_specific : SearchSpaceType

pub record AggregationInfo : Type 0 where
  pub level : AggregationLevel
  pub num_candidates : ℕ

pub record SearchSpaceConfig : Type 0 where
  pub search_space_id : ℕ
  pub coreset_id : ℕ
  pub type : SearchSpaceType
  pub monitoring_slot_periodicity : ℕ
  pub monitoring_slot_offset : ℕ
  pub monitoring_symbols_within_slot : ℕ
  pub aggregation_levels : List AggregationInfo
  pub dci_formats : List DciFormat

unfoldable pub should_monitor : SearchSpaceConfig → (sfn slot : ℕ) → Option Bool
should_monitor c sfn slot =
    if c.monitoring_slot_periodicity == 0
    then none
    else some ((sfn * 10 + slot) % c.monitoring_slot_periodicity == c.monitoring_slot_offset)

pub record DciContent : Type 0 where
  pub format : DciFormat
  pub rnti : ℕ
  pub rb_allocation : ResourceBlockRange
  pub time_domain_assignment : ℕ
  pub mcs : ℕ
  pub ndi : Bool
  pub rv : ℕ
  pub harq_id : ℕ
  pub tpc_command : Option ℤ
  pub srs_request : Option ℕ
  pub csi_request : Option ℕ
  pub antenna_ports : Option ℕ
  pub dmrs_sequence_init : Option ℕ
  pub pucch_resource : Option ℕ
  pub pdsch_to_harq_timing : Option ℕ
  pub cbgti : Option ℕ
  pub cbgfi : Option ℕ

pub record PdcchAllocation : Type 0 where
  pub rnti : ℕ
  pub coreset_id : ℕ
  pub search_space_id : ℕ
  pub aggregation_level : AggregationLevel
  pub cce_start_index : ℕ
  pub dci : DciContent

-- `PdcchAllocation::num_cces`
unfoldable pub allocation_cces : PdcchAllocation → ℕ
unfolding al_value
allocation_cces a = al_value a.aggregation_level
