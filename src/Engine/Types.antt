-- ===== src/Engine/Types.antt =====
-- The structs of nr_scheduler/include/engine/scheduler_engine.hpp.
use nr5g_basic_scheduler.Base.{ℕ, Bool, true, false, not, ltb, ◌&&◌, Option, List, get_elem?, ◌>>=◌}
use nr5g_basic_scheduler.Resources.{TimeFrequencyResource, num_res}
use nr5g_basic_scheduler.Harq.{TransportBlockConfig}
use nr5g_basic_scheduler.Ue.{UeContext, UeRepository, find_by_rnti}

pub data Strategy : Type 0 where
  round_robin proportional_fair max_throughput qos_aware custom : Strategy

pub record SchedulerConfig (D : Type 0) : Type 0 where
  pub strategy : Strategy
  pub scheduling_offset_slots : ℕ
  pub harq_ack_offset_slots : ℕ
  pub max_pdsch_per_tti : ℕ
  pub max_pusch_per_tti : ℕ
  pub max_pdcch_per_tti : ℕ
  pub alpha_fairness : D
  pub history_window_ms : ℕ
  pub enable_qos : Bool
  pub gbr_weight : D
  pub delay_weight : D
  pub max_harq_retx : ℕ
  pub harq_retx_priority : Bool
  pub enable_slicing : Bool
  pub enable_scheduling_log : Bool
  pub log_level : ℕ

pub data DecisionType : Type 0 where
  none_yet new_tx retx : DecisionType

abbrev pub is_none_yet : DecisionType → Bool
is_none_yet none_yet = true
is_none_yet _ = false

abbrev pub is_retx : DecisionType → Bool
is_retx retx = true
is_retx _ = false

pub record SchedulingDecision (D : Type 0) : Type 0 where
  pub rnti : ℕ
  pub type : DecisionType
  pub resources : TimeFrequencyResource
  pub tb_config : TransportBlockConfig
  pub harq_id : ℕ
  pub priority_metric : D
  pub buffer_bytes : ℕ
  pub qos_priority : ℕ
  pub lc_bytes : List (ℕ × ℕ)

module _ {D : Type 0} where
  unfoldable pub is_valid : SchedulingDecision D → Bool
  is_valid d = not (is_none_yet d.type) && ltb 0 (num_res d.resources)

  -- `ue_repository()->find_by_rnti(rnti)`, with the UE that the pointer leads to.
  unfoldable pub find_ue : UeRepository D → (rnti : ℕ) → Option (UeContext D)
  unfolding find_by_rnti
  find_ue r rnti = find_by_rnti r rnti >>= get_elem? r.heap

-- `SchedulerEngine::Statistics`
pub record Statistics (D : Type 0) : Type 0 where
  pub slots_processed : ℕ
  pub slots_skipped : ℕ
  pub avg_slot_processing_us : D
  pub max_slot_processing_us : D
  pub dl_bytes_scheduled : ℕ
  pub dl_ues_scheduled : ℕ
  pub dl_retransmissions : ℕ
  pub dl_resource_utilization : D
  pub ul_bytes_scheduled : ℕ
  pub ul_ues_scheduled : ℕ
  pub ul_retransmissions : ℕ
  pub ul_resource_utilization : D
  pub qos_violations : ℕ
  pub avg_delay_budget_margin_ms : D
  pub allocation_failures : ℕ
  pub harq_timeouts : ℕ
