-- ===== src/Engine/Eligible.antt =====
-- `get_eligible_ues` of nr_scheduler/src/scheduler_engine.cpp, and the loops of `schedule_dl` and
-- `schedule_ul` that make a decision for each UE.
use nr5g_basic_scheduler.Base.{
  ℕ, max, Bool, true, false, not, ◌==◌, ◌&&◌, ◌||◌, if◌then◌else◌, Option, none, some, List, [],
  ◌∷◌, get_elem?,
}
use nr5g_basic_scheduler.Base.Table.{Table}
use nr5g_basic_scheduler.Harq.{HarqEntity, get_free_process, get_retx_process}
use nr5g_basic_scheduler.Slice.{Orchestrator}
use nr5g_basic_scheduler.Slice.Watch.{is_scheduling_allowed}
use nr5g_basic_scheduler.Ue.{UeContext, total_dl_buffer, total_ul_buffer, is_in_active_time}
use nr5g_basic_scheduler.Cell.{CellContext}
use nr5g_basic_scheduler.Engine.Types.{SchedulerConfig, SchedulingDecision, new_tx, retx}

abbrev pub harq_of : {D : Type 0} → Bool → UeContext D → HarqEntity
harq_of true ue = ue.dl_harq
harq_of false ue = ue.ul_harq

module _ {D : Type 0} where
  -- The UEs that `for_each` visits.
  unfoldable pub ues_at : List (UeContext D) → Table ℕ → List (UeContext D)
  ues_at heap [] = []
  ues_at heap ((rnti, p) ∷ t) = elim (get_elem? heap p) [
    | none ↦ ues_at heap t
    | some ue ↦ ue ∷ ues_at heap t
  ]

  unfoldable pub has_retx : Bool → UeContext D → Bool
  has_retx dl ue = elim (get_retx_process (harq_of dl ue)) [ none ↦ false | some p ↦ true ]

  -- Whether there is something to send or to ask for.
  unfoldable pub has_work : Bool → UeContext D → Bool
  unfolding has_retx
  has_work true ue = not (total_dl_buffer ue == 0 && not (has_retx true ue))
  has_work false ue =
      not (total_ul_buffer ue == 0 && not ue.ul_buffer_status.sr_pending && not (has_retx false ue))

  unfoldable pub is_eligible : SchedulerConfig D → Orchestrator D → Bool → UeContext D → Bool
  unfolding has_work
  is_eligible config o dl ue =
      is_in_active_time ue
      && has_work dl ue
      && (not config.enable_slicing || is_scheduling_allowed o ue.rnti 1 dl)

  unfoldable pub keep_eligible :
      SchedulerConfig D → Orchestrator D → Bool → List (UeContext D) → List (UeContext D)
  unfolding is_eligible
  keep_eligible config o dl [] = []
  keep_eligible config o dl (ue ∷ ues) =
      let rest = keep_eligible config o dl ues in
      if is_eligible config o dl ue then ue ∷ rest else rest

  unfoldable pub get_eligible_ues :
      SchedulerConfig D → Orchestrator D → CellContext D → Bool → List (UeContext D)
  unfolding ues_at keep_eligible
  get_eligible_ues config o cell dl =
      let r = cell.ue_repository in keep_eligible config o dl (ues_at r.heap r.ue_by_rnti)

  -- A decision for a retransmission, where there is one and the configuration prefers it.
  unfoldable pub retx_decision :
      SchedulingDecision D → SchedulerConfig D → Bool → UeContext D → Option (SchedulingDecision D)
  retx_decision blank config dl ue = elim (get_retx_process (harq_of dl ue)) [
    | none ↦ none
    | some (index, process) ↦
        if config.harq_retx_priority
        then some (record blank {
          rnti = ue.rnti;
          type = retx;
          harq_id = process.id;
          buffer_bytes = process.tb_config.tb_size_bytes;
        })
        else none
  ]

  -- A decision for new data, where a process is free.
  unfoldable pub new_decision :
      SchedulingDecision D → Bool → UeContext D → (buffer_bytes : ℕ) → Option (SchedulingDecision D)
  new_decision blank dl ue buffer_bytes = elim (get_free_process (harq_of dl ue)) [
    | none ↦ none
    | some index ↦ elim (get_elem? (harq_of dl ue) index) [
      | none ↦ none
      | some process ↦ some (record blank {
        rnti = ue.rnti;
        type = new_tx;
        harq_id = process.id;
        buffer_bytes = buffer_bytes;
      })
    ]
  ]

  unfoldable pub dl_decision :
      SchedulingDecision D → SchedulerConfig D → UeContext D → Option (SchedulingDecision D)
  unfolding retx_decision new_decision
  dl_decision blank config ue = elim (retx_decision blank config true ue) [
    | some d ↦ some d
    | none ↦
        let buffer = total_dl_buffer ue in
        if buffer == 0 then none else new_decision blank true ue buffer
  ]

  unfoldable pub ul_decision :
      SchedulingDecision D → SchedulerConfig D → UeContext D → Option (SchedulingDecision D)
  unfolding retx_decision new_decision
  ul_decision blank config ue = elim (retx_decision blank config false ue) [
    | some d ↦ some d
    | none ↦
        let buffer = total_ul_buffer ue in
        if buffer == 0 && not ue.ul_buffer_status.sr_pending
        then none
        else new_decision blank false ue (max buffer 100)
  ]

  -- The decisions of a list of UEs.
  unfoldable pub decisions_of :
      (UeContext D → Option (SchedulingDecision D))
      → List (UeContext D)
      → List (SchedulingDecision D)
  decisions_of decide [] = []
  decisions_of decide (ue ∷ ues) = elim (decide ue) [
    | none ↦ decisions_of decide ues
    | some d ↦ d ∷ decisions_of decide ues
  ]
