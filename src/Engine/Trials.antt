-- ===== src/Engine/Trials.antt =====
-- Tests of the scheduler engine, and its theorems at concrete inputs.
use nr5g_basic_scheduler.Base.{
  ℕ, zero, suc, ◌≤◌, ◌≡◌, ◌⊎◌, refl, true, false, none, some, [], ◌∷◌, List, length, Option, ◌||◌,
  All, arith, subst, some_unique, none_some, step-elim,
}
use nr5g_basic_scheduler.Tbs.{min_rbs_for_tbs, tbs_table_lookup, quantised, info_bits, small_tbs}
use nr5g_basic_scheduler.Tbs.Log.{floor_log2}
use nr5g_basic_scheduler.Grid.{ResourceGrid, find_contiguous}
use nr5g_basic_scheduler.Grid
use nr5g_basic_scheduler.Harq.{fresh_entity, get_retx_process, get_free_process, HarqFeedback}
use nr5g_basic_scheduler.Cce.{al1}
use nr5g_basic_scheduler.Base.Int.{pos}
use nr5g_basic_scheduler.Harq.Feedback.{fresh_entity-IsEntity}
use nr5g_basic_scheduler.Qos.Priority.{calculate_priority}
use nr5g_basic_scheduler.Ue.{
  UeContext, effective_cqi, create_ue, find_by_rnti, update_dl_buffer, total_ul_buffer,
  is_in_active_time, total_dl_buffer, mcs_from_cqi,
}
use nr5g_basic_scheduler.Cell.{CellContext, new_cell, advance_to_slot}
use nr5g_basic_scheduler.Slice.Watch
use nr5g_basic_scheduler.Qos.Traffic.{on_slot_tick}
use nr5g_basic_scheduler.Timing.{absolute_slot, advanced}
use nr5g_basic_scheduler.Engine.Tracker.{register_pending}
use nr5g_basic_scheduler.Mac.{
  UeConfigRequest, Event, on_slot_indication, on_ue_config, on_dl_data, on_csi_update,
}
use nr5g_basic_scheduler.Engine.Types.{new_tx, SchedulingDecision, find_ue}
use nr5g_basic_scheduler.Engine.Allocator.{grid_of, allocate}
use nr5g_basic_scheduler.Engine.Allocator.Choice.{HasRun}
use nr5g_basic_scheduler.Engine.Allocator.Grants.{IsGranted}
use nr5g_basic_scheduler.Engine.Allocator.Keeping.{subject}
use nr5g_basic_scheduler.Engine.Allocator.Serving.{IsServable, allocate-IsServed}
use nr5g_basic_scheduler.Engine.State.{Engine}
use nr5g_basic_scheduler.Engine.Schedule.{schedule_dl}
use nr5g_basic_scheduler.Engine.Schedule.Reservations.{Reserved, AreApart, held_by}
use nr5g_basic_scheduler.Engine.Schedule.Grants.{with_cells, resources_of}
use nr5g_basic_scheduler.Engine.Schedule.Safety.{
  Result, schedule, schedule-AreApart, schedule-Reserved,
}
use nr5g_basic_scheduler.Engine.Schedule.Choosing.{IsChosen, schedule-IsChosen}
use nr5g_basic_scheduler.Engine.Events.{new_engine, add_cell, handle, on_harq_feedback}
use nr5g_basic_scheduler.Engine.Idle.{IsIdle, IsIdleUe, AreIdle, AllIdle}
use nr5g_basic_scheduler.Engine.Idle.Deciding.{schedule_idle}
use nr5g_basic_scheduler.Engine.Idle.Reaching.{
  Reached, created, handled, cell_added, AllIdle-Reached,
}
use nr5g_basic_scheduler.Engine.Idle.Feedback.{on_harq_feedback_ignored}
use nr5g_basic_scheduler.Engine.Blanks.{blank_ue, blank_process, at_slot, quality}
use nr5g_basic_scheduler.Engine.Samples.{
  environment, cell, clock, engine, cell_config, slot_8, blank_decision, ue_with, scheduler_config,
  qos_engine, slices,
}

-- The RNTI, the first block, the number of blocks and the size.
abbrev summary : List (SchedulingDecision ℕ) → List (ℕ × ℕ × ℕ × ℕ)
summary [] = []
summary (d ∷ ds) =
    (d.rnti, d.resources.rb_range.start_rb, d.resources.rb_range.num_rbs, d.tb_config.tb_size_bytes)
    ∷ summary ds

abbrev result_of : Option (Result environment) → Result environment
result_of none = (engine, cell, [])
result_of (some r) = r

unfoldable served : Result environment
unfolding schedule_dl cell engine slot_8 blank_ue
served = result_of (schedule_dl environment clock engine cell)

-- The second UE gets what is left.
grants_two : summary (served.2) ≡ (17, 0, 14, 316) ∷ (18, 14, 6, 134) ∷ []
unfolding served is_in_active_time total_dl_buffer get_retx_process get_free_process find_ue
    calculate_priority allocate min_rbs_for_tbs tbs_table_lookup mcs_from_cqi quantised info_bits
    small_tbs floor_log2 find_contiguous Grid.allocate
grants_two = refl

schedules : schedule environment true clock engine cell ≡ some (served.0, served.1, served.2)
unfolding schedule_dl cell engine slot_8 blank_ue served is_in_active_time total_dl_buffer
    get_retx_process get_free_process find_ue calculate_priority allocate min_rbs_for_tbs
    tbs_table_lookup mcs_from_cqi quantised info_bits small_tbs floor_log2 find_contiguous
    Grid.allocate
schedules = refl

narrow : (grid_of true cell.current_slot).num_rbs ≤ 273
unfolding grid_of cell slot_8
narrow = omega arith

schedule-AreApart_example :
    (length (served.2) ≤ 16)
    × All
        (λ (d : SchedulingDecision ℕ).
          (ue : UeContext ℕ) × (find_ue cell.ue_repository d.rnti ≡ some ue))
        (served.2)
    × AreApart (resources_of (served.2))
    × ((sym rb : ℕ)
        → held_by (resources_of (served.2)) sym rb ≡ true
        → (grid_of true cell.current_slot).taken sym rb ≡ false)
unfolding engine
schedule-AreApart_example =
    schedule-AreApart environment clock engine cell true (served.0) (served.1) (served.2) narrow
      schedules

schedule-Reserved_example :
    (grid : ResourceGrid) × ((served.1) ≡ with_cells true cell grid)
    × (grid.num_rbs ≡ (grid_of true cell.current_slot).num_rbs)
    × Reserved ((grid_of true cell.current_slot).taken) (resources_of (served.2)) grid.taken
    × ((sym rb : ℕ)
        → grid.taken sym rb ≡ (
            held_by (resources_of (served.2)) sym rb
            || (grid_of true cell.current_slot).taken sym rb))
schedule-Reserved_example =
    schedule-Reserved environment clock engine cell true (served.0) (served.1) (served.2) narrow
      schedules

schedule-IsChosen_example :
    All
      (λ (d : SchedulingDecision ℕ).
        IsChosen blank_decision engine.config engine.slice_orchestrator cell true (subject d))
      (served.2)
    × ((served.1).config ≡ cell.config)
    × ((served.1).ue_repository ≡ cell.ue_repository)
    × ((served.0).cells ≡ engine.cells)
schedule-IsChosen_example =
    schedule-IsChosen environment clock engine cell true (served.0) (served.1) (served.2) schedules

abbrev wish : SchedulingDecision ℕ
wish = record blank_decision { rnti = 17; buffer_bytes = 300 }

servable : IsServable (ue_with 17 1 300) cell true
unfolding cell slot_8 grid_of effective_cqi
servable = record {
  good_channel = omega arith;
  layers_fit = omega arith;
  width = refl;
  not_empty = omega arith;
  fits = omega arith;
}

finds_17 : find_ue cell.ue_repository 17 ≡ some (ue_with 17 1 300)
unfolding cell find_ue
finds_17 = refl

allocate-IsServed_example :
    ((¬ HasRun (grid_of true cell.current_slot) 1)
      × (allocate wish cell true ≡ some (wish, cell, false)))
    ⊎ ((d' : SchedulingDecision ℕ) × (cell' : CellContext ℕ) × (allocate wish cell true
          ≡ some (d', cell', true))
        × IsGranted (ue_with 17 1 300) wish cell true d' cell'
        × ((300 ≤ d'.tb_config.tb_size_bytes)
            ⊎ (¬ HasRun (grid_of true cell.current_slot) (suc d'.resources.rb_range.num_rbs))))
allocate-IsServed_example = allocate-IsServed (ue_with 17 1 300) wish cell true finds_17 servable

fresh-IsIdle : IsIdle (fresh_entity blank_process)
fresh-IsIdle =
    let (entity, all) = fresh_entity-IsEntity blank_process in
    record { entity = entity; idle = all }

blank_idle : IsIdleUe blank_ue
unfolding blank_ue
blank_idle = (fresh-IsIdle, fresh-IsIdle)

cell-AreIdle : AreIdle cell.ue_repository
unfolding cell blank_ue
cell-AreIdle zero ue at =
    let same : ue_with 17 1 300 ≡ ue = some_unique refl at in
    subst IsIdleUe same (fresh-IsIdle, fresh-IsIdle)
cell-AreIdle (suc zero) ue at =
    let same : ue_with 18 2 200 ≡ ue = some_unique refl at in
    subst IsIdleUe same (fresh-IsIdle, fresh-IsIdle)
cell-AreIdle (suc (suc p)) ue at = none_some refl at

schedule_idle_example :
    All (λ (d : SchedulingDecision ℕ). (d.type ≡ new_tx) × (d.harq_id ≡ 0)) (served.2)
schedule_idle_example =
    schedule_idle environment clock engine cell true (served.0) (served.1) (served.2) cell-AreIdle
      schedules

-- A run: a cell, a UE with data and a good channel, and a slot.
abbrev ue_17 : UeConfigRequest ℕ
ue_17 = record {
  rnti = 17;
  cell_id = 1;
  slice_id = 0;
  dl_bwps = [];
  ul_bwps = [];
  logical_channels = [];
  drx_config = record {
    enabled = false;
    on_duration_ms = 0;
    inactivity_timer_ms = 0;
    harq_rtt_timer_ms = 0;
    short_cycle_ms = 0;
    long_cycle_ms = 0;
    short_cycle_timer = 0;
    slot_offset = 0;
  };
  num_dl_harq_processes = 16;
  num_ul_harq_processes = 16;
  max_aggregation_level = al1;
  max_layers_dl = 1;
  max_layers_ul = 1;
  max_mcs_dl = 28;
  max_mcs_ul = 28;
  p_cmax_dbm = pos 23;
}

abbrev events : List (Event ℕ)
events =
    on_ue_config ue_17
    ∷ on_dl_data (record { rnti = 17; cell_id = 1; lc_id = 4; buffer_bytes = 300; priority = 1 })
    ∷ on_csi_update 17 1 (quality 10)
    ∷ on_slot_indication 1 (at_slot 8)
    ∷ []

abbrev run : List (Event ℕ) → Engine environment → Option (Engine environment)
run [] s = some s
run (event ∷ rest) s = elim (handle environment clock s event) [
  | none ↦ none
  | some s' ↦ run rest s'
]

run-Reached :
    (list : List (Event ℕ)) (s s' : Engine environment)
    → Reached environment s
    → run list s ≡ some s'
    → Reached environment s'
run-Reached [] s s' r = λ e. subst (Reached environment) (some_unique refl e) r
run-Reached (event ∷ rest) s s' r =
    step-elim (Reached environment) (handle environment clock s event) none _ s'
      (λ _ e. none_some refl e) λ next f e. run-Reached rest next s' (handled clock event r f) e

abbrev with_cell : Engine environment
with_cell =
    (add_cell environment (new_engine environment scheduler_config qos_engine slices) cell_config).0

engine_of : Option (Engine environment) → Engine environment
engine_of none = engine
engine_of (some s) = s

unfoldable after_slot : Engine environment
unfolding handle engine slot_8 blank_ue add_cell new_engine
after_slot = engine_of (run events with_cell)

runs : run events with_cell ≡ some after_slot
unfolding after_slot handle engine slot_8 blank_ue add_cell new_engine create_ue find_by_rnti
    update_dl_buffer new_cell advance_to_slot on_slot_tick Watch.on_slot_start Watch.on_slot_end
    total_ul_buffer absolute_slot advanced register_pending is_in_active_time total_dl_buffer
    get_retx_process get_free_process find_ue calculate_priority allocate min_rbs_for_tbs
    tbs_table_lookup mcs_from_cqi quantised info_bits small_tbs floor_log2 find_contiguous
    Grid.allocate engine_of
runs = refl

after_slot-Reached : Reached environment after_slot
after_slot-Reached =
    run-Reached events with_cell after_slot
      (cell_added cell_config (created scheduler_config qos_engine slices)) runs

AllIdle-Reached_example : AllIdle after_slot
AllIdle-Reached_example = AllIdle-Reached environment after_slot blank_idle after_slot-Reached

-- The feedback that the slot's block was not received.
abbrev nack : HarqFeedback
nack = record { harq_id = 0; ack = false; dtx = false; feedback_time = at_slot 12 }

on_harq_feedback_ignored_example :
    (on_harq_feedback environment after_slot 1 nack).cells ≡ after_slot.cells
on_harq_feedback_ignored_example =
    on_harq_feedback_ignored environment after_slot 1 nack blank_idle after_slot-Reached
