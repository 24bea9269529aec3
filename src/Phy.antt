-- ===== src/Phy.antt =====
-- The messages of nr_scheduler/include/interfaces/phy_interface.hpp, with `DciFormat` and
-- `ResourceAllocationType` of nr_scheduler/include/core/nr_types.hpp. A byte vector is a list of
-- numbers; the interface's functions are pure virtual.
use nr5g_basic_scheduler.Base.{ℕ, Bool, List}
use nr5g_basic_scheduler.Base.Int.{ℤ}
use nr5g_basic_scheduler.Timing.{FrameTiming}
use nr5g_basic_scheduler.Resources.{ResourceBlockRange, SymbolRange}
use nr5g_basic_scheduler.Cce.{AggregationLevel}

pub data DciFormat : Type 0 where
  format0_0 format0_1 format1_0 format1_1 format2_0 format2_1 format2_2 format2_3 : DciFormat

pub data ResourceAllocationType : Type 0 where
  type0 type1 : ResourceAllocationType

pub data RntiType : Type 0 where
  crnti tcrnti csrnti rarnti sirnti prnti : RntiType

pub data SchedulingResult : Type 0 where
  success no_resource ue_not_found invalid_config qos_violation harq_blocked drx_blocked
        beam_not_available :
      SchedulingResult

pub data PhyVendor : Type 0 where
  simulation intel_flex_ran marvell qualcomm nvidia generic : PhyVendor

pub record CrcIndication : Type 0 where
  pub rnti : ℕ
  pub harq_id : ℕ
  pub crc_pass : Bool
  pub num_codeblocks : ℕ
  pub failed_codeblocks : ℕ
  pub ul_sinr_db_x10 : ℤ
  pub timing_advance : ℕ
  pub timing : FrameTiming

pub record RxDataIndication : Type 0 where
  pub rnti : ℕ
  pub harq_id : ℕ
  pub lc_id : ℕ
  pub «data» : List ℕ
  pub timing : FrameTiming

pub record UciIndication : Type 0 where
  pub rnti : ℕ
  pub harq_ack_present : Bool
  pub harq_ack : List Bool
  pub sr_present : Bool
  pub sr_detected : Bool
  pub csi_present : Bool
  pub rank_indicator : ℕ
  pub wideband_cqi : ℕ
  pub pmi : ℕ
  pub subband_cqi : List ℕ
  pub timing : FrameTiming

pub record RachIndication : Type 0 where
  pub preamble_id : ℕ
  pub timing_advance : ℕ
  pub preamble_power_db : ℤ
  pub beam_id : ℕ
  pub timing : FrameTiming

pub record SrsIndication : Type 0 where
  pub rnti : ℕ
  pub rank_indicator : ℕ
  pub timing_advance : ℕ
  pub wideband_snr : List ℤ
  pub timing : FrameTiming

pub record PdcchPdu : Type 0 where
  pub rnti : ℕ
  pub dci_format : DciFormat
  pub agg_level : AggregationLevel
  pub cce_start : ℕ
  pub coreset_id : ℕ
  pub search_space_id : ℕ
  pub dci_payload : List ℕ

pub record PdschPdu : Type 0 where
  pub rnti : ℕ
  pub bwp_start : ℕ
  pub bwp_size : ℕ
  pub rb_allocation : ResourceBlockRange
  pub symbol_allocation : SymbolRange
  pub mcs : ℕ
  pub mcs_table : ℕ
  pub rv : ℕ
  pub ndi : Bool
  pub harq_id : ℕ
  pub num_layers : ℕ
  pub dmrs_symbols : ℕ
  pub dmrs_ports : ℕ
  pub tb_size : ℕ
  pub tb_data : List ℕ

pub record CsiRsPdu : Type 0 where
  pub start_rb : ℕ
  pub num_rbs : ℕ
  pub row : ℕ
  pub freq_domain : ℕ
  pub symb_l0 : ℕ
  pub symb_l1 : ℕ
  pub cdm_type : ℕ
  pub freq_density : ℕ

pub record SsbPdu : Type 0 where
  pub pci : ℕ
  pub ssb_index : ℕ
  pub ssb_subcarrier_offset : ℕ
  pub ssb_offset_point_a : ℕ
  pub beam_id : ℕ

pub record DlTtiRequest : Type 0 where
  pub timing : FrameTiming
  pub cell_id : ℕ
  pub pdcch_pdus : List PdcchPdu
  pub pdsch_pdus : List PdschPdu
  pub csirs_pdus : List CsiRsPdu
  pub ssb_pdus : List SsbPdu

pub record PuschPdu : Type 0 where
  pub rnti : ℕ
  pub bwp_start : ℕ
  pub bwp_size : ℕ
  pub rb_allocation : ResourceBlockRange
  pub symbol_allocation : SymbolRange
  pub mcs : ℕ
  pub mcs_table : ℕ
  pub rv : ℕ
  pub ndi : Bool
  pub harq_id : ℕ
  pub num_layers : ℕ
  pub dmrs_symbols : ℕ
  pub dmrs_ports : ℕ
  pub tb_size : ℕ
  pub uci_on_pusch : Bool

pub record PucchPdu : Type 0 where
  pub rnti : ℕ
  pub format : ℕ
  pub start_rb : ℕ
  pub num_rbs : ℕ
  pub start_symbol : ℕ
  pub num_symbols : ℕ
  pub initial_cyclic_shift : ℕ
  pub time_domain_occ_index : ℕ
  pub sr_flag : Bool
  pub harq_ack_bits : ℕ
  pub csi_part1_bits : ℕ

pub record SrsPdu : Type 0 where
  pub rnti : ℕ
  pub start_rb : ℕ
  pub num_rbs : ℕ
  pub bandwidth_index : ℕ
  pub comb_size : ℕ
  pub comb_offset : ℕ
  pub cyclic_shift : ℕ
  pub frequency_position : ℕ
  pub frequency_shift : ℕ
  pub frequency_hopping : ℕ
  pub num_symbols : ℕ
  pub start_symbol : ℕ
  pub num_repetitions : ℕ

pub record PrachPdu : Type 0 where
  pub physical_root_sequence_index : ℕ
  pub num_occasions : ℕ
  pub format : ℕ
  pub num_preambles : ℕ
  pub start_preamble_index : ℕ

pub record UlTtiRequest : Type 0 where
  pub timing : FrameTiming
  pub cell_id : ℕ
  pub pusch_pdus : List PuschPdu
  pub pucch_pdus : List PucchPdu
  pub srs_pdus : List SrsPdu
  pub prach_pdus : List PrachPdu

pub record PduData : Type 0 where
  pub pdu_index : ℕ
  pub pdu_length : ℕ
  pub «data» : List ℕ

pub record TxDataRequest : Type 0 where
  pub timing : FrameTiming
  pub cell_id : ℕ
  pub pdu_list : List PduData

pub record PhyConfig : Type 0 where
  pub cell_id : ℕ
  pub pci : ℕ
  pub frequency_khz : ℕ
  pub bandwidth_mhz : ℕ
  pub scs : ℕ
  pub duplex_mode : ℕ
  pub num_tx_antennas : ℕ
  pub num_rx_antennas : ℕ
