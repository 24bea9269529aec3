-- ===== src/Engine/State.antt =====
-- `SchedulerEngine::Impl` of nr_scheduler/src/scheduler_engine.cpp, with what the engine takes from
-- outside.
use nr5g_basic_scheduler.Base.{ℕ, Bool, List}
use nr5g_basic_scheduler.Base.Table.{Table}
use nr5g_basic_scheduler.Base.Floats.{Floats}
use nr5g_basic_scheduler.Slice.{Orchestrator, SliceState}
use nr5g_basic_scheduler.Qos.{QosEngine}
use nr5g_basic_scheduler.Ue.{UeContext}
use nr5g_basic_scheduler.Cell.{CellContext, SlotContext}
use nr5g_basic_scheduler.Phy.{DlTtiRequest, UlTtiRequest, PdschPdu, PuschPdu}
use nr5g_basic_scheduler.Engine.Tracker.{HarqTimingTracker}
use nr5g_basic_scheduler.Engine.Types.{SchedulerConfig, SchedulingDecision, Statistics}
use nr5g_basic_scheduler.Engine.Policy.{PolicyObject}

-- What the C++ leaves open: the arithmetic of `double`, whether a thread that holds a `std::mutex` can
-- lock it again, the members that are created without a value, and the four channel managers of a
-- cell, whose functions have no body in the repository.
pub record Environment : Type 1 where
  pub floats : Floats
  pub relocks : Bool
  pub blank_ue : UeContext floats.D
  pub no_slot : SlotContext
  pub no_slice_state : SliceState floats.D
  pub blank_decision : SchedulingDecision floats.D
  pub blank_pdsch : PdschPdu
  pub blank_pusch : PuschPdu
  pub Managers : Type 0
  pub new_managers : Managers
  pub reset_managers : Managers → Managers

-- The readings of the clock in one slot: for `on_slot_tick`; for the two of the QoS engine and that of
-- `update_history`, by direction and the number of decisions before; and the time that the slot took.
pub record Clock : Type 0 where
  pub tick : ℕ
  pub urgency : Bool → ℕ → ℕ
  pub bucket : Bool → ℕ → ℕ
  pub history : Bool → ℕ → ℕ
  pub processing_us : ℕ

-- What leaves the engine: the calls of the PHY and of the callbacks.
pub data Output : Type 0 where
  register_slot_callback : Output
  dl_to_phy : DlTtiRequest → Output
  ul_to_phy : UlTtiRequest → Output
  dl_result : (cell_id : ℕ) → DlTtiRequest → Output
  ul_result : (cell_id : ℕ) → UlTtiRequest → Output

-- An interface or a callback is there or not; `outputs` is what they were called with so far.
pub record Engine (E : Environment) : Type 1 where
  pub config : SchedulerConfig E.floats.D
  pub running : Bool
  pub cells : Table (CellContext E.floats.D)
  pub policy_manager : PolicyObject E.floats.D
  pub qos_engine : QosEngine E.floats.D
  pub slice_orchestrator : Orchestrator E.floats.D
  pub harq_tracker : HarqTimingTracker
  pub managers : Table E.Managers
  pub phy_interface : Bool
  pub dl_result_callback : Bool
  pub ul_result_callback : Bool
  pub stats : Statistics E.floats.D
  pub outputs : List Output
