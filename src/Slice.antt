-- ===== src/Slice.antt =====
-- The types of nr_scheduler/include/services/slice_orchestrator.hpp and the state of
-- nr_scheduler/src/slice_orchestrator.cpp (`SliceOrchestrator::Impl`, without its mutex: each
-- operation is one step). A `double` is a value of a type `D`, whose operations are `Floats` of Base/Floats.
pub mod Manage
pub mod Budgets
pub mod Borrow
pub mod Watch
pub mod Templates
pub mod Association
pub mod FirstPass
pub mod Guarantee
pub mod Lending
pub mod Request
pub mod Spending
pub mod Stats
mod Examples
use nr5g_basic_scheduler.Base.{
  ℕ, ◌+◌, ◌-◌, ◌%◌, ◌^◌, Bool, true, false, leb, if◌then◌else◌, Option, List, arith,
}
use nr5g_basic_scheduler.Base.Int.{ℤ, pos}
use nr5g_basic_scheduler.Base.Table.{Table}
use nr5g_basic_scheduler.Timing.{FrameTiming}

pub data SliceType : Type 0 where
  embb urllc mmtc custom : SliceType

pub record SliceSlaConfig (D : Type 0) : Type 0 where
  pub guaranteed_rbs : ℕ
  pub max_rbs : ℕ
  pub resource_share : D
  pub guaranteed_rate_bps : ℕ
  pub max_rate_bps : ℕ
  pub max_latency_ms : ℕ
  pub target_latency_ms : ℕ
  pub target_reliability : D
  pub slice_priority : ℕ
  pub strict_isolation : Bool
  pub preemption_capable : Bool
  pub preemptible : Bool

-- A name is the list of its bytes.
pub record SliceConfig (D : Type 0) : Type 0 where
  pub slice_id : ℕ
  pub slice_name : List ℕ
  pub slice_type : SliceType
  pub sst : ℕ
  pub sd : Option ℕ
  pub sla : SliceSlaConfig D
  pub allowed_5qi : List ℕ
  pub cells : List ℕ

pub record WindowStats : Type 0 where
  pub bytes_dl : ℕ
  pub bytes_ul : ℕ
  pub ues_scheduled_dl : ℕ
  pub ues_scheduled_ul : ℕ
  pub window_start : ℕ

pub record SliceState (D : Type 0) : Type 0 where
  pub slice_id : ℕ
  pub active : Bool
  pub current_rbs_dl : ℕ
  pub current_rbs_ul : ℕ
  pub current_rate_dl_bps : ℕ
  pub current_rate_ul_bps : ℕ
  pub connected_ues : ℕ
  pub active_ues : ℕ
  pub avg_latency_ms : D
  pub resource_utilization : D
  pub sla_violations : ℕ
  pub current_window : WindowStats

pub record SliceResourceBudget : Type 0 where
  pub slice_id : ℕ
  pub available_rbs_dl : ℕ
  pub available_rbs_ul : ℕ
  pub used_rbs_dl : ℕ
  pub used_rbs_ul : ℕ
  pub borrowed_rbs : ℤ

-- `SliceResourceBudget{}`
abbrev pub no_budget : SliceResourceBudget
no_budget = record {
  slice_id = 0;
  available_rbs_dl = 0;
  available_rbs_ul = 0;
  used_rbs_dl = 0;
  used_rbs_ul = 0;
  borrowed_rbs = pos 0;
}

unfoldable pub remaining_dl : SliceResourceBudget → ℕ
remaining_dl b = (b.available_rbs_dl + 2 ^ 16 - b.used_rbs_dl) % 2 ^ 16

unfoldable pub remaining_ul : SliceResourceBudget → ℕ
remaining_ul b = (b.available_rbs_ul + 2 ^ 16 - b.used_rbs_ul) % 2 ^ 16

unfoldable pub consume_dl : SliceResourceBudget → ℕ → SliceResourceBudget × Bool
unfolding remaining_dl
consume_dl b rbs =
    if leb rbs (remaining_dl b)
    then (record b { used_rbs_dl = (b.used_rbs_dl + rbs) % 2 ^ 16 }, true)
    else (b, false)

unfoldable pub consume_ul : SliceResourceBudget → ℕ → SliceResourceBudget × Bool
unfolding remaining_ul
consume_ul b rbs =
    if leb rbs (remaining_ul b)
    then (record b { used_rbs_ul = (b.used_rbs_ul + rbs) % 2 ^ 16 }, true)
    else (b, false)

-- `is_downlink ? budget.remaining_dl() : budget.remaining_ul()`
unfoldable pub remaining : Bool → SliceResourceBudget → ℕ
unfolding remaining_dl remaining_ul
remaining true b = remaining_dl b
remaining false b = remaining_ul b

pub record SliceStats (D : Type 0) : Type 0 where
  pub total_sla_violations : ℕ
  pub resource_borrowing_events : ℕ
  pub total_utilization : D
  pub utilization_samples : ℕ

pub record Orchestrator (D : Type 0) : Type 0 where
  pub slice_configs : Table (SliceConfig D)
  pub slice_states : Table (SliceState D)
  pub ue_slice_map : Table ℕ
  pub current_budgets : Table SliceResourceBudget
  pub shared_pool_dl : ℕ
  pub shared_pool_ul : ℕ
  pub stats : SliceStats D
  pub current_timing : FrameTiming
