-- ===== src/Engine/Schedule.antt =====
-- `schedule_dl` and `schedule_ul` of nr_scheduler/src/scheduler_engine.cpp: the UEs that are
-- eligible, a decision for each, its priority, the order, and the grants. `none` is undefined
-- behaviour of the block sizes or the grid.
pub mod Reservations
pub mod Grants
pub mod Safety
pub mod Ranking
pub mod Choosing
pub mod Returning
pub mod Liveness
use nr5g_basic_scheduler.Base.{
  ℕ, zero, suc, ◌+◌, ◌%◌, ◌^◌, min, max, Bool, true, false, not, ltb, leb, ◌==◌, ◌&&◌, ◌||◌,
  if◌then◌else◌, Option, none, some, List, [], ◌∷◌, ◌++◌, length, get_elem?,
}
use nr5g_basic_scheduler.Base.Table.{Table}
use nr5g_basic_scheduler.Base.Floats.{Floats, number}
use nr5g_basic_scheduler.Harq.{HarqEntity, Process, get_free_process, get_retx_process}
use nr5g_basic_scheduler.Slice.{Orchestrator}
use nr5g_basic_scheduler.Slice.Watch.{is_scheduling_allowed, get_priority_boost}
use nr5g_basic_scheduler.Qos.{QosEngine}
use nr5g_basic_scheduler.Qos.Priority.{calculate_priority}
use nr5g_basic_scheduler.Ue.{
  UeContext, UeRepository, LogicalChannelConfig, total_dl_buffer, total_ul_buffer,
  is_in_active_time,
}
use nr5g_basic_scheduler.Cell.{CellContext}
use nr5g_basic_scheduler.Engine.Types.{
  SchedulerConfig, SchedulingDecision, new_tx, retx, is_retx, find_ue,
}
use nr5g_basic_scheduler.Engine.Allocator.{allocate}
use nr5g_basic_scheduler.Engine.Policy.{PolicyObject}
use nr5g_basic_scheduler.Engine.State.{Environment, Clock, Engine}
use nr5g_basic_scheduler.Engine.Eligible.{
  harq_of, ues_at, has_retx, has_work, is_eligible, keep_eligible, get_eligible_ues, retx_decision,
  new_decision, dl_decision, ul_decision, decisions_of,
}

module _ {D : Type 0} where
  -- The smallest identifier of a QoS flow of the channels, at most `best`.
  unfoldable pub best_qfi : (best : ℕ) → Table (LogicalChannelConfig D) → ℕ
  best_qfi best [] = best
  best_qfi best ((lc_id, lc) ∷ channels) =
      best_qfi (elim lc.qos_params [ none ↦ best | some params ↦ min best params.qfi ]) channels

module _ (F : Floats) where
  -- The factors for the flow's quality of service; the QoS engine counts events.
  unfoldable pub with_qos :
      SchedulerConfig F.D
      → Clock
      → Bool
      → (index : ℕ) → UeContext F.D
      → (base_priority : F.D) → QosEngine F.D
      → SchedulingDecision F.D
      → QosEngine F.D × SchedulingDecision F.D
  unfolding best_qfi
  with_qos config clock dl index ue base_priority qos d =
      let r =
        calculate_priority F qos ue.rnti (best_qfi 9 ue.logical_channels) dl d.buffer_bytes
          (clock.urgency dl index) (clock.bucket dl index) in
      if config.enable_qos
      then (
        r.0,
        record d {
          priority_metric = F.mul base_priority ((r.1).final_priority);
          qos_priority = if (r.1).is_delay_critical then 1 else 2;
        },
      )
      else (qos, record d { priority_metric = base_priority; qos_priority = 5 })

  unfoldable pub with_boosts :
      SchedulerConfig F.D → Orchestrator F.D → UeContext F.D → SchedulingDecision F.D → F.D
  with_boosts config o ue d =
      let doubled =
        if is_retx d.type then F.mul d.priority_metric (number F 2) else d.priority_metric in
      if config.enable_slicing then F.mul doubled (get_priority_boost F o ue.rnti) else doubled

  unfoldable pub prioritise :
      SchedulerConfig F.D
      → PolicyObject F.D
      → Orchestrator F.D
      → Clock
      → CellContext F.D
      → Bool
      → (index : ℕ) → QosEngine F.D
      → SchedulingDecision F.D
      → Option (QosEngine F.D × SchedulingDecision F.D)
  unfolding with_qos with_boosts
  prioritise config policy o clock cell dl index qos d = elim (find_ue cell.ue_repository d.rnti) [
    | none ↦ some (qos, record d { priority_metric = number F 0 })
    | some ue ↦ elim (policy.methods.calculate_priority policy.state ue cell dl) [
      | none ↦ none
      | some base_priority ↦
          let r = with_qos config clock dl index ue base_priority qos d in
          some (r.0, record (r.1) { priority_metric = with_boosts config o ue (r.1) })
    ]
  ]

  unfoldable pub calculate_priorities :
      SchedulerConfig F.D
      → PolicyObject F.D
      → Orchestrator F.D
      → Clock
      → CellContext F.D
      → Bool
      → (index : ℕ) → QosEngine F.D
      → List (SchedulingDecision F.D)
      → Option (QosEngine F.D × List (SchedulingDecision F.D))
  unfolding prioritise
  calculate_priorities config policy o clock cell dl index qos [] = some (qos, [])
  calculate_priorities config policy o clock cell dl index qos (d ∷ ds) =
      elim (prioritise config policy o clock cell dl index qos d) [
        | none ↦ none
        | some (qos', d') ↦
            elim (calculate_priorities config policy o clock cell dl (index + 1) qos' ds) [
              | none ↦ none
              | some (qos'', ds') ↦ some (qos'', d' ∷ ds')
            ]
      ]

  -- An insertion sort by falling priority, for the order of `std::sort`, which leaves open how it
  -- orders decisions of one priority.
  unfoldable pub insert_by_priority :
      SchedulingDecision F.D → List (SchedulingDecision F.D) → List (SchedulingDecision F.D)
  insert_by_priority d [] = d ∷ []
  insert_by_priority d (e ∷ es) =
      let rest = insert_by_priority d es in
      if F.gtb e.priority_metric d.priority_metric then e ∷ rest else d ∷ e ∷ es

  unfoldable pub sort_by_priority : List (SchedulingDecision F.D) → List (SchedulingDecision F.D)
  unfolding insert_by_priority
  sort_by_priority [] = []
  sort_by_priority (d ∷ ds) = insert_by_priority d (sort_by_priority ds)

-- What the loop over the decisions changes.
pub record Progress (D : Type 0) : Type 1 where
  pub cell : CellContext D
  pub policy_manager : PolicyObject D
  pub allocation_failures : ℕ
  pub successful : List (SchedulingDecision D)

module _ {D : Type 0} where
  unfoldable pub note_history :
      (now : ℕ) → CellContext D → SchedulingDecision D → PolicyObject D → PolicyObject D
  note_history now cell d policy = elim (find_ue cell.ue_repository d.rnti) [
    | none ↦ policy
    | some ue ↦ record policy {
      state = policy.methods.update_history now policy.state ue d.tb_config.tb_size_bytes;
    }
  ]

  -- After one allocation.
  unfoldable pub note_result :
      (now : ℕ) → Progress D → SchedulingDecision D × CellContext D × Bool → Progress D
  unfolding note_history
  note_result now p (d, cell, true) = record p {
    cell = cell;
    policy_manager = note_history now cell d p.policy_manager;
    successful = p.successful ++ d ∷ [];
  }
  note_result now p (d, cell, false) = record p {
    cell = cell;
    allocation_failures = (p.allocation_failures + 1) % 2 ^ 64;
  }

  unfoldable pub grant_all :
      (clock : ℕ → ℕ)
      → (limit : ℕ) → Bool
      → List (SchedulingDecision D)
      → Progress D
      → Option (Progress D)
  unfolding note_result
  grant_all clock limit dl [] p = some p
  grant_all clock limit dl (d ∷ ds) p =
      if leb limit (length p.successful) then some p else elim (allocate d p.cell dl) [
        | none ↦ none
        | some r ↦ grant_all clock limit dl ds (note_result (clock (length p.successful)) p r)
      ]

module _ (E : Environment) where
  -- From the decisions on: priorities, order, grants.
  unfoldable pub finish :
      Clock
      → Engine E
      → CellContext E.floats.D
      → Bool
      → (limit : ℕ) → List (SchedulingDecision E.floats.D)
      → Option (Engine E × CellContext E.floats.D × List (SchedulingDecision E.floats.D))
  unfolding calculate_priorities sort_by_priority grant_all
  finish clock s cell dl limit decisions =
      elim (calculate_priorities E.floats s.config s.policy_manager s.slice_orchestrator clock cell
        dl 0 s.qos_engine decisions) [
          | none ↦ none
          | some (qos, ranked) ↦
              elim (grant_all (clock.history dl) limit dl (sort_by_priority E.floats ranked)
                (record {
                  cell = cell;
                  policy_manager = s.policy_manager;
                  allocation_failures = s.stats.allocation_failures;
                  successful = [];
                })) [
                  | none ↦ none
                  | some p ↦ some (
                    record s {
                      qos_engine = qos;
                      policy_manager = p.policy_manager;
                      stats = record s.stats { allocation_failures = p.allocation_failures };
                    },
                    p.cell,
                    p.successful,
                  )
                ]
        ]

  unfoldable pub schedule_dl :
      Clock
      → Engine E
      → CellContext E.floats.D
      → Option (Engine E × CellContext E.floats.D × List (SchedulingDecision E.floats.D))
  unfolding get_eligible_ues decisions_of dl_decision finish
  schedule_dl clock s cell = finish clock s cell true s.config.max_pdsch_per_tti (
      decisions_of (dl_decision E.blank_decision s.config)
        (get_eligible_ues s.config s.slice_orchestrator cell true))

  unfoldable pub schedule_ul :
      Clock
      → Engine E
      → CellContext E.floats.D
      → Option (Engine E × CellContext E.floats.D × List (SchedulingDecision E.floats.D))
  unfolding get_eligible_ues decisions_of ul_decision finish
  schedule_ul clock s cell = finish clock s cell false s.config.max_pusch_per_tti (
      decisions_of (ul_decision E.blank_decision s.config)
        (get_eligible_ues s.config s.slice_orchestrator cell false))
