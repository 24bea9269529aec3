-- ===== src/Channels/Pdsch.antt =====
-- The structs of nr_scheduler/include/channels/pdsch_manager.hpp with their functions.
use nr5g_basic_scheduler.Base.{ℕ, zero, suc, ◌+◌, ◌-◌, ◌*◌, ◌/◌, ◌%◌, ◌^◌, Bool, List, [], ◌∷◌}
use nr5g_basic_scheduler.Base.Int.{ℤ}
use nr5g_basic_scheduler.Timing.{FrameTiming}
use nr5g_basic_scheduler.Resources.{ResourceBlockRange, SymbolRange}
use nr5g_basic_scheduler.Harq.{TransportBlockConfig}
use nr5g_basic_scheduler.Phy.{ResourceAllocationType}

pub record PdschConfig : Type 0 where
  pub ra_type : ResourceAllocationType
  pub dmrs_type : ℕ
  pub dmrs_additional_pos : ℕ
  pub dmrs_symbols : ℕ
  pub dmrs_ports : ℕ
  pub prb_bundling_size : ℕ
  pub rate_match_patterns : List ResourceBlockRange
  pub mcs_table : ℕ
  pub max_mcs : ℕ
  pub min_mcs : ℕ
  pub max_harq_retx : ℕ
  pub cbg_transmission : Bool
  pub max_cbgs_per_tb : ℕ
  pub pdsch_power_offset_db : ℤ

pub record PdschTimeDomainAllocation : Type 0 where
  pub config_index : ℕ
  pub mapping_type : ℕ
  pub start_symbol : ℕ
  pub num_symbols : ℕ
  pub k0 : ℕ

pub record LcData : Type 0 where
  pub lc_id : ℕ
  pub bytes : ℕ
  pub priority : ℕ

pub record PdschAllocation : Type 0 where
  pub rnti : ℕ
  pub timing : FrameTiming
  pub rb_allocation : ResourceBlockRange
  pub symbol_allocation : SymbolRange
  pub tb_config : TransportBlockConfig
  pub harq_id : ℕ
  pub is_retransmission : Bool
  pub dmrs_symbols : ℕ
  pub dmrs_ports : ℕ
  pub dmrs_scrambling_id : ℕ
  pub num_layers : ℕ
  pub antenna_ports : List ℕ
  pub k1 : ℕ
  pub pucch_resource_id : ℕ
  pub lc_data : List LcData
  pub power_offset_db : ℤ

unfoldable pub sum_lc_bytes : (total : ℕ) → List LcData → ℕ
sum_lc_bytes total [] = total
sum_lc_bytes total (lc ∷ lcs) = sum_lc_bytes ((total + lc.bytes) % 2 ^ 32) lcs

-- `PdschAllocation::total_bytes`
unfoldable pub pdsch_bytes : PdschAllocation → ℕ
unfolding sum_lc_bytes
pdsch_bytes a = sum_lc_bytes 0 a.lc_data

-- `__builtin_popcount` of a number of so many bits.
unfoldable pub popcount : (bits n : ℕ) → ℕ
popcount zero n = 0
popcount (suc bits) n = n % 2 + popcount bits (n / 2)

-- The elements less those of the reference signal, in 32 bits: `num_res` of a PDSCH allocation and of a
-- PUSCH grant.
unfoldable pub elements : (rbs symbols dmrs_symbols : ℕ) → ℕ
unfolding popcount
elements rbs symbols dmrs_symbols =
    (rbs * symbols * 12 + 2 ^ 32 - rbs * popcount 16 dmrs_symbols * 4) % 2 ^ 32

unfoldable pub pdsch_res : PdschAllocation → ℕ
unfolding elements
pdsch_res a = elements a.rb_allocation.num_rbs a.symbol_allocation.num_symbols a.dmrs_symbols
