-- ===== src/Engine/Slots.antt =====
-- `on_slot_indication` and `process_slot` of nr_scheduler/src/scheduler_engine.cpp. `none` is undefined
-- behaviour.
pub mod Policies
pub mod Returning
use nr5g_basic_scheduler.Base.{
  ℕ, ◌+◌, ◌-◌, ◌%◌, ◌^◌, if◌then◌else◌, Option, none, some, List, [], ◌∷◌,
}
use nr5g_basic_scheduler.Base.Table.{lookup, insert}
use nr5g_basic_scheduler.Base.Floats.{Floats, number, larger}
use nr5g_basic_scheduler.Timing.{FrameTiming}
use nr5g_basic_scheduler.Slice.Watch
use nr5g_basic_scheduler.Qos.Traffic.{on_slot_tick}
use nr5g_basic_scheduler.Cell.{CellContext, advance_to_slot}
use nr5g_basic_scheduler.Engine.Types.{SchedulingDecision, Statistics}
use nr5g_basic_scheduler.Engine.State.{Environment, Clock, Engine}
use nr5g_basic_scheduler.Engine.Schedule.{schedule_dl, schedule_ul}
use nr5g_basic_scheduler.Engine.Tti.{build_dl_tti_request, build_ul_tti_request}

-- The counters of the cell, at the end of a slot.
unfoldable pub count_cell : {D : Type 0} → CellContext D → CellContext D
count_cell cell = record cell {
  statistics = record cell.statistics {
    total_slots_processed = (cell.statistics.total_slots_processed + 1) % 2 ^ 64;
    total_dl_bytes =
        (cell.statistics.total_dl_bytes + cell.current_slot.dl_bytes_scheduled) % 2 ^ 64;
    total_ul_bytes =
        (cell.statistics.total_ul_bytes + cell.current_slot.ul_bytes_scheduled) % 2 ^ 64;
  };
}

-- The counters of the engine, at the end of a slot.
unfoldable pub count_slot : (F : Floats) → (processing_us : ℕ) → Statistics F.D → Statistics F.D
unfolding larger
count_slot F processing_us stats =
    let slots = (stats.slots_processed + 1) % 2 ^ 64 in
    record stats {
      slots_processed = slots;
      avg_slot_processing_us =
          F.div
            (F.add (F.mul stats.avg_slot_processing_us (number F ((slots + 2 ^ 64 - 1) % 2 ^ 64)))
              (number F processing_us))
            (number F slots);
      max_slot_processing_us = larger F stats.max_slot_processing_us (number F processing_us);
    }

module _ (E : Environment) where
  abbrev pub Scheduled : Type 1
  Scheduled = Engine E × CellContext E.floats.D × List (SchedulingDecision E.floats.D)

  -- The request is built only if there are decisions.
  unfoldable pub send_dl : Scheduled → Engine E × CellContext E.floats.D
  unfolding build_dl_tti_request
  send_dl (s, cell, []) = (s, cell)
  send_dl (s, cell, d ∷ ds) = build_dl_tti_request E s cell (d ∷ ds)

  unfoldable pub send_ul : Scheduled → Engine E × CellContext E.floats.D
  unfolding build_ul_tti_request
  send_ul (s, cell, []) = (s, cell)
  send_ul (s, cell, d ∷ ds) = build_ul_tti_request E s cell (d ∷ ds)

  unfoldable pub downlink :
      Clock → Engine E → CellContext E.floats.D → Option (Engine E × CellContext E.floats.D)
  unfolding schedule_dl send_dl
  downlink clock s cell =
      if cell.current_slot.can_schedule_dl
      then elim (schedule_dl E clock s cell) [ none ↦ none | some r ↦ some (send_dl r) ]
      else some (s, cell)

  unfoldable pub uplink :
      Clock → Engine E → CellContext E.floats.D → Option (Engine E × CellContext E.floats.D)
  unfolding schedule_ul send_ul
  uplink clock s cell =
      if cell.current_slot.can_schedule_ul
      then elim (schedule_ul E clock s cell) [ none ↦ none | some r ↦ some (send_ul r) ]
      else some (s, cell)

  unfoldable pub process_slot :
      Clock → Engine E → CellContext E.floats.D → Option (Engine E × CellContext E.floats.D)
  unfolding downlink uplink count_cell
  process_slot clock s cell = elim (downlink clock s cell) [
    | none ↦ none
    | some (s', cell') ↦ elim (uplink clock s' cell') [
      | none ↦ none
      | some (s'', cell'') ↦ elim (Watch.on_slot_end E.floats E.relocks s''.slice_orchestrator) [
        | none ↦ none
        | some o ↦ some (record s'' { slice_orchestrator = o }, count_cell cell'')
      ]
    ]
  ]

  -- The components, told of the new slot.
  unfoldable pub notified : (tick cell_id : ℕ) → FrameTiming → Engine E → Engine E
  notified tick cell_id timing s = record s {
    policy_manager = record s.policy_manager {
      state = s.policy_manager.methods.on_slot_start s.policy_manager.state timing;
    };
    slice_orchestrator = Watch.on_slot_start s.slice_orchestrator timing;
    qos_engine = on_slot_tick s.qos_engine tick;
    managers = elim (lookup cell_id s.managers) [
      | none ↦ s.managers
      | some m ↦ insert cell_id (E.reset_managers m) s.managers
    ];
  }

  -- The cell is in the map all the time; here it is put back when its slot is done.
  unfoldable pub on_slot_indication :
      Clock → Engine E → (cell_id : ℕ) → FrameTiming → Option (Engine E)
  unfolding notified process_slot count_slot
  on_slot_indication clock s cell_id timing = elim (lookup cell_id s.cells) [
    | none ↦ some (record s {
      stats = record s.stats { slots_skipped = (s.stats.slots_skipped + 1) % 2 ^ 64 };
    })
    | some cell ↦ elim (advance_to_slot cell timing) [
      | none ↦ none
      | some cell' ↦ elim (process_slot clock (notified clock.tick cell_id timing s) cell') [
        | none ↦ none
        | some (s', cell'') ↦ some (record s' {
          cells = insert cell_id cell'' s'.cells;
          stats = count_slot E.floats clock.processing_us s'.stats;
        })
      ]
    ]
  ]
