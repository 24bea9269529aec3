-- ===== src/Engine/Cases.antt =====
-- Tests of what the scheduler engine sends, and of when it serves somebody.
use nr5g_basic_scheduler.Base.{
  is_some, not, ◌||◌, inl, ℕ, zero, suc, ◌≤◌, ◌≡◌, refl, true, some, [], ◌∷◌, ◌++◌, length, map,
  get_elem?, arith, subst, some_unique, none_some,
}
use nr5g_basic_scheduler.Base.Thousandths.{thousandths}
use nr5g_basic_scheduler.Base.Table.{lookup, has}
use nr5g_basic_scheduler.Timing.{absolute_slot, advanced}
use nr5g_basic_scheduler.Harq.{get_retx_process, get_free_process}
use nr5g_basic_scheduler.Ue.{UeContext, effective_cqi, is_in_active_time, total_dl_buffer}
use nr5g_basic_scheduler.Phy.{DlTtiRequest}
use nr5g_basic_scheduler.Engine.Tracker.{get_all_for_slot}
use nr5g_basic_scheduler.Cell.{CellContext}
use nr5g_basic_scheduler.Engine.Types.{SchedulingDecision, find_ue, round_robin, proportional_fair}
use nr5g_basic_scheduler.Engine.Allocator.{grid_of}
use nr5g_basic_scheduler.Engine.Allocator.Choice.{HasRun}
use nr5g_basic_scheduler.Engine.Policy.{fair_priority, fair_with, create_policy_manager}
use nr5g_basic_scheduler.Engine.Policy.Totality.{create_policy_manager-IsTotal}
use nr5g_basic_scheduler.Engine.State.{dl_to_phy, dl_result}
use nr5g_basic_scheduler.Engine.Changes.{match_feedback}
use nr5g_basic_scheduler.Engine.Eligible.{decisions_of, get_eligible_ues, dl_decision}
use nr5g_basic_scheduler.Engine.Schedule.Safety.{Result, schedule}
use nr5g_basic_scheduler.Engine.Schedule.Returning.{IsWorkable}
use nr5g_basic_scheduler.Engine.Schedule.Liveness.{IsTotal, AreFound, decisions, schedule_serves}
use nr5g_basic_scheduler.Engine.Slots.{on_slot_indication}
use nr5g_basic_scheduler.Engine.Slots.Returning.{IsSteady, IsProper, on_slot_indication_returns}
use nr5g_basic_scheduler.Engine.Tti.{pdsch_of, feedback_for, call_if, build_dl_tti_request}
use nr5g_basic_scheduler.Engine.Tti.Requests.{build_dl_tti_request_pending, match_feedback_first}
use nr5g_basic_scheduler.Engine.Blanks.{at_slot, blank_ue}
use nr5g_basic_scheduler.Engine.Samples.{
  environment, cell, clock, engine, blank_decision, blank_pdsch, slot_8, ue_with,
}

good_channels :
    (p : ℕ) (ue : UeContext ℕ)
    → get_elem? cell.ue_repository.heap p ≡ some ue
    → 5 ≤ effective_cqi ue
unfolding cell effective_cqi
good_channels zero ue at =
    let same : ue_with 17 1 300 ≡ ue = some_unique refl at in
    subst (λ (u : UeContext ℕ). 5 ≤ effective_cqi u) same (omega arith)
good_channels (suc zero) ue at =
    let same : ue_with 18 2 200 ≡ ue = some_unique refl at in
    subst (λ (u : UeContext ℕ). 5 ≤ effective_cqi u) same (omega arith)
good_channels (suc (suc p)) ue at = none_some refl at

workable : IsWorkable cell true
unfolding cell slot_8 grid_of
workable = record {
  good_channels = good_channels;
  layers_fit = omega arith;
  width = refl;
  not_empty = omega arith;
  fits = omega arith;
}

total : IsTotal engine.policy_manager cell true
unfolding engine cell create_policy_manager
total =
    create_policy_manager-IsTotal thousandths round_robin engine.policy_manager.state cell true
      (omega arith)

all_decided : AreFound cell (decisions environment engine cell true)
unfolding engine cell blank_ue slot_8 is_in_active_time total_dl_buffer get_retx_process
    get_free_process find_ue decisions_of get_eligible_ues dl_decision
all_decided = ((ue_with 17 1 300, refl), ((ue_with 18 2 200, refl), tt))

two_decided : 1 ≤ length (decisions environment engine cell true)
unfolding engine cell blank_ue slot_8 is_in_active_time total_dl_buffer get_retx_process
    get_free_process find_ue decisions_of get_eligible_ues dl_decision
two_decided = omega arith

block_free : HasRun (grid_of true cell.current_slot) 1
unfolding cell slot_8 grid_of
block_free = (0, omega arith, λ r p q s p' q'. refl)

schedule_serves_example :
    (r : Result environment) × (schedule environment true clock engine cell ≡ some r)
    × (1 ≤ length (r.2))
unfolding engine
schedule_serves_example =
    schedule_serves environment clock engine cell true workable total all_decided two_decided
      (omega arith) block_free

create_policy_manager-IsTotal_example :
    (x : ℕ) × (fair_priority thousandths (fair_with thousandths 1000) (ue_with 17 1 300) cell true
      ≡ some x)
unfolding cell create_policy_manager effective_cqi
create_policy_manager-IsTotal_example =
    create_policy_manager-IsTotal thousandths proportional_fair (fair_with thousandths 1000) cell
      true (omega arith) (ue_with 17 1 300) (omega arith)

cell-IsProper : (c : CellContext ℕ) → lookup 1 engine.cells ≡ some c → IsProper c
unfolding engine cell slot_8
cell-IsProper c at =
    let same : cell ≡ c = some_unique refl at in
    subst IsProper same (record {
      configured = record { elements_fit = omega arith; duplex = inl refl };
      good_channels = good_channels;
      layers_fit = omega arith;
      not_empty = omega arith;
      fits = omega arith;
    })

steady : IsSteady engine.policy_manager.methods
unfolding engine create_policy_manager
steady state c dl fits = create_policy_manager-IsTotal thousandths round_robin state c dl fits

on_slot_indication_returns_example :
    is_some (on_slot_indication environment clock engine 1 (at_slot 9))
    ≡ (not (has 1 engine.cells) || environment.relocks)
on_slot_indication_returns_example =
    on_slot_indication_returns environment clock engine 1 (at_slot 9) cell-IsProper steady

abbrev first : SchedulingDecision ℕ
first = record blank_decision { rnti = 17 }

abbrev second : SchedulingDecision ℕ
second = record blank_decision { rnti = 18 }

both_found : AreFound cell (first ∷ second ∷ [])
unfolding cell find_ue
both_found = ((ue_with 17 1 300, refl), ((ue_with 18 2 200, refl), tt))

build_dl_tti_request_pending_example :
    let s' = (build_dl_tti_request environment engine cell (first ∷ second ∷ [])).0 in
    let request : DlTtiRequest = record {
      timing = cell.current_slot.timing;
      cell_id = cell.config.cell_id;
      pdcch_pdus = [];
      pdsch_pdus = map (pdsch_of blank_pdsch) (first ∷ second ∷ []);
      csirs_pdus = [];
      ssb_pdus = [];
    } in
    (s'.outputs
      ≡ call_if engine.dl_result_callback
          (dl_result cell.config.cell_id request)
          (call_if engine.phy_interface (dl_to_phy request) engine.outputs))
    × (get_all_for_slot s'.harq_tracker (absolute_slot (advanced cell.current_slot.timing 4))
        ≡ get_all_for_slot engine.harq_tracker (absolute_slot (advanced cell.current_slot.timing 4))
          ++ map
              (feedback_for cell.config.cell_id true cell.current_slot.timing)
              (first ∷ second ∷ []))
unfolding engine cell slot_8 absolute_slot advanced
build_dl_tti_request_pending_example =
    build_dl_tti_request_pending environment engine cell (first ∷ second ∷ []) both_found tt
      (omega arith)

match_feedback_first_example :
    match_feedback engine.cells 1 0 (
      get_all_for_slot
        ((build_dl_tti_request environment engine cell (first ∷ second ∷ [])).0).harq_tracker
        (absolute_slot (advanced cell.current_slot.timing 4)))
    ≡ some (feedback_for 1 true cell.current_slot.timing first)
unfolding engine cell slot_8 absolute_slot advanced get_all_for_slot
match_feedback_first_example =
    match_feedback_first environment engine cell first (second ∷ []) both_found tt (omega arith)
      refl refl
