-- ===== src/Channels/Pusch.antt =====
-- The structs of nr_scheduler/include/channels/pusch_manager.hpp with their functions.
use nr5g_basic_scheduler.Base.{ℕ, Bool}
use nr5g_basic_scheduler.Base.Int.{ℤ}
use nr5g_basic_scheduler.Timing.{FrameTiming}
use nr5g_basic_scheduler.Resources.{ResourceBlockRange, SymbolRange}
use nr5g_basic_scheduler.Harq.{TransportBlockConfig}
use nr5g_basic_scheduler.Phy.{ResourceAllocationType}
use nr5g_basic_scheduler.Channels.Pdsch.{elements}

pub record PuschConfig : Type 0 where
  pub ra_type : ResourceAllocationType
  pub dmrs_type : ℕ
  pub dmrs_additional_pos : ℕ
  pub dmrs_symbols : ℕ
  pub transform_precoding : Bool
  pub mcs_table : ℕ
  pub max_mcs : ℕ
  pub min_mcs : ℕ
  pub max_harq_retx : ℕ
  pub p0_pusch : ℤ
  pub alpha : ℤ
  pub enable_uci_on_pusch : Bool
  pub beta_offset_ack : ℕ
  pub beta_offset_csi_part1 : ℕ
  pub beta_offset_csi_part2 : ℕ

pub record PuschTimeDomainAllocation : Type 0 where
  pub config_index : ℕ
  pub mapping_type : ℕ
  pub start_symbol : ℕ
  pub num_symbols : ℕ
  pub k2 : ℕ

pub record PuschGrant : Type 0 where
  pub rnti : ℕ
  pub timing : FrameTiming
  pub rb_allocation : ResourceBlockRange
  pub symbol_allocation : SymbolRange
  pub tb_config : TransportBlockConfig
  pub harq_id : ℕ
  pub is_retransmission : Bool
  pub dmrs_symbols : ℕ
  pub dmrs_ports : ℕ
  pub dmrs_scrambling_id : ℕ
  pub num_layers : ℕ
  pub tpc_command : ℤ
  pub target_power_dbm : ℤ
  pub uci_on_pusch : Bool
  pub harq_ack_bits : ℕ
  pub csi_part1_bits : ℕ
  pub csi_part2_bits : ℕ
  pub freq_hopping_enabled : Bool
  pub second_hop_prb : ℕ

unfoldable pub pusch_res : PuschGrant → ℕ
unfolding elements
pusch_res g = elements g.rb_allocation.num_rbs g.symbol_allocation.num_symbols g.dmrs_symbols
