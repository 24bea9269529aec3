-- ===== src/Mac.antt =====
-- The messages of nr_scheduler/include/interfaces/mac_interface.hpp: what the MAC tells the scheduler,
-- and what it gets back.
use nr5g_basic_scheduler.Base.{ℕ, Bool, List, Option}
use nr5g_basic_scheduler.Base.Int.{ℤ}
use nr5g_basic_scheduler.Timing.{FrameTiming}
use nr5g_basic_scheduler.Resources.{ResourceBlockRange, SymbolRange}
use nr5g_basic_scheduler.Cce.{AggregationLevel}
use nr5g_basic_scheduler.Harq.{HarqFeedback, TransportBlockConfig}
use nr5g_basic_scheduler.Ue.{BwpConfig, ChannelQualityInfo, DrxConfig, LogicalChannelConfig}
use nr5g_basic_scheduler.Phy.{DciFormat, RachIndication}

pub record UeConfigRequest (D : Type 0) : Type 0 where
  pub rnti : ℕ
  pub cell_id : ℕ
  pub slice_id : ℕ
  pub dl_bwps : List BwpConfig
  pub ul_bwps : List BwpConfig
  pub logical_channels : List (LogicalChannelConfig D)
  pub drx_config : DrxConfig
  pub num_dl_harq_processes : ℕ
  pub num_ul_harq_processes : ℕ
  pub max_aggregation_level : AggregationLevel
  pub max_layers_dl : ℕ
  pub max_layers_ul : ℕ
  pub max_mcs_dl : ℕ
  pub max_mcs_ul : ℕ
  pub p_cmax_dbm : ℤ

pub record UeReleaseRequest : Type 0 where
  pub rnti : ℕ
  pub cell_id : ℕ
  pub cause : ℕ

pub record DlDataNotification : Type 0 where
  pub rnti : ℕ
  pub cell_id : ℕ
  pub lc_id : ℕ
  pub buffer_bytes : ℕ
  pub priority : ℕ

pub record BufferStatusReport : Type 0 where
  pub rnti : ℕ
  pub cell_id : ℕ
  pub lcg_id : ℕ
  pub buffer_size_bytes : ℕ
  pub report_time : FrameTiming

pub record SchedulingRequest : Type 0 where
  pub rnti : ℕ
  pub cell_id : ℕ
  pub request_time : FrameTiming

pub record PowerHeadroomReport : Type 0 where
  pub rnti : ℕ
  pub cell_id : ℕ
  pub phr_value : ℤ
  pub pcmax : ℤ
  pub report_time : FrameTiming

pub record TimingAdvanceUpdate : Type 0 where
  pub rnti : ℕ
  pub cell_id : ℕ
  pub timing_advance : ℕ
  pub update_time : FrameTiming

pub record LcAllocation : Type 0 where
  pub lc_id : ℕ
  pub bytes_allocated : ℕ

pub record DlSchedulingGrant : Type 0 where
  pub rnti : ℕ
  pub cell_id : ℕ
  pub timing : FrameTiming
  pub rb_allocation : ResourceBlockRange
  pub symbol_allocation : SymbolRange
  pub tb_config : TransportBlockConfig
  pub harq_id : ℕ
  pub dci_format : DciFormat
  pub aggregation_level : AggregationLevel
  pub lc_allocations : List LcAllocation
  pub beam_id : Option ℕ

pub record UlSchedulingGrant : Type 0 where
  pub rnti : ℕ
  pub cell_id : ℕ
  pub timing : FrameTiming
  pub rb_allocation : ResourceBlockRange
  pub symbol_allocation : SymbolRange
  pub tb_config : TransportBlockConfig
  pub harq_id : ℕ
  pub dci_format : DciFormat
  pub aggregation_level : AggregationLevel
  pub include_harq_ack : Bool
  pub include_csi : Bool
  pub tpc_command : ℤ
  pub beam_id : Option ℕ

pub record PagingGrant : Type 0 where
  pub cell_id : ℕ
  pub timing : FrameTiming
  pub rb_allocation : ResourceBlockRange
  pub tb_size : ℕ
  pub paging_message : List ℕ

pub record RarContent : Type 0 where
  pub preamble_id : ℕ
  pub timing_advance : ℕ
  pub temp_crnti : ℕ
  pub ul_grant : ResourceBlockRange

pub record RarGrant : Type 0 where
  pub cell_id : ℕ
  pub timing : FrameTiming
  pub ra_rnti : ℕ
  pub rb_allocation : ResourceBlockRange
  pub tb_size : ℕ
  pub rar_list : List RarContent

pub record MacStatistics : Type 0 where
  pub ues_configured : ℕ
  pub dl_grants_sent : ℕ
  pub ul_grants_sent : ℕ
  pub bsr_received : ℕ
  pub sr_received : ℕ
  pub phr_received : ℕ
  pub csi_updates : ℕ

-- The calls of `ISchedulerEventHandler`.
pub data Event (D : Type 0) : Type 0 where
  on_slot_indication : (cell_id : ℕ) → FrameTiming → Event D
  on_ue_config : UeConfigRequest D → Event D
  on_ue_release : UeReleaseRequest → Event D
  on_dl_data : DlDataNotification → Event D
  on_bsr : BufferStatusReport → Event D
  on_sr : SchedulingRequest → Event D
  on_phr : PowerHeadroomReport → Event D
  on_csi_update : (rnti cell_id : ℕ) → ChannelQualityInfo → Event D
  on_harq_feedback : (cell_id : ℕ) → HarqFeedback → Event D
  on_rach_indication : (cell_id : ℕ) → RachIndication → Event D
