-- ===== src/Engine/Idle/Serving.antt =====
-- `on_slot_indication` and `process_slot` of scheduler_engine.cpp leave the UEs of the cells alone.
use nr5g_basic_scheduler.Base.{
  ℕ, ◌≡◌, refl, sym, ap, ◌∙◌, subst, inl, inr, true, false, Option, some, none, List, [], ◌∷◌,
  if-elim, Option-cases, some_unique, none_some, step-elim,
}
use nr5g_basic_scheduler.Base.Table.{lookup, lookup-insert_cases}
use nr5g_basic_scheduler.Timing.{FrameTiming}
use nr5g_basic_scheduler.Slice.Watch
use nr5g_basic_scheduler.Cell.{CellContext, advance_to_slot, initialize}
use nr5g_basic_scheduler.Engine.Types.{SchedulingDecision}
use nr5g_basic_scheduler.Engine.State.{Environment, Clock, Engine}
use nr5g_basic_scheduler.Engine.Schedule.{schedule_dl, schedule_ul}
use nr5g_basic_scheduler.Engine.Schedule.Choosing.{schedule-IsChosen}
use nr5g_basic_scheduler.Engine.Tti.{build_dl_tti_request, build_ul_tti_request}
use nr5g_basic_scheduler.Engine.Slots.{
  send_dl, send_ul, downlink, uplink, process_slot, notified, count_cell,
}
use nr5g_basic_scheduler.Engine.Slots
use nr5g_basic_scheduler.Engine.Idle.{AreIdle, AllIdle}

module _ (E : Environment) where
  -- What a slot leaves alone: the UEs of the cell, and the cells in the map.
  abbrev IsKept : Engine E → CellContext E.floats.D → Engine E × CellContext E.floats.D → Type 0
  IsKept s cell r = ((r.0).cells ≡ s.cells) × ((r.1).ue_repository ≡ cell.ue_repository)

  send_dl-IsKept :
      (s : Engine E) (cell : CellContext E.floats.D) (ds : List (SchedulingDecision E.floats.D))
      → IsKept s cell (send_dl E (s, cell, ds))
  unfolding send_dl build_dl_tti_request
  send_dl-IsKept s cell [] = (refl, refl)
  send_dl-IsKept s cell (d ∷ ds) = (refl, refl)

  send_ul-IsKept :
      (s : Engine E) (cell : CellContext E.floats.D) (ds : List (SchedulingDecision E.floats.D))
      → IsKept s cell (send_ul E (s, cell, ds))
  unfolding send_ul build_ul_tti_request
  send_ul-IsKept s cell [] = (refl, refl)
  send_ul-IsKept s cell (d ∷ ds) = (refl, refl)

  downlink-IsKept :
      (clock : Clock) (s : Engine E) (cell : CellContext E.floats.D)
      (r : Engine E × CellContext E.floats.D)
      → downlink E clock s cell ≡ some r
      → IsKept s cell r
  unfolding downlink
  downlink-IsKept clock s cell r =
      if-elim (λ (o : Option (Engine E × CellContext E.floats.D)). o ≡ some r → IsKept s cell r)
        cell.current_slot.can_schedule_dl _ _
        (λ _.
          step-elim (IsKept s cell) (schedule_dl E clock s cell) none _ r (λ _ e. cc)
            λ (s', cell', ds) f e.
              let (_, _, ues, cells) = schedule-IsChosen E clock s cell true s' cell' ds f in
              let (cells', ues') = send_dl-IsKept s' cell' ds in
              subst (IsKept s cell) (some_unique refl e) (cells' ∙ cells, ues' ∙ ues))
        (λ _ e. subst (IsKept s cell) (some_unique refl e) (refl, refl))

  uplink-IsKept :
      (clock : Clock) (s : Engine E) (cell : CellContext E.floats.D)
      (r : Engine E × CellContext E.floats.D)
      → uplink E clock s cell ≡ some r
      → IsKept s cell r
  unfolding uplink
  uplink-IsKept clock s cell r =
      if-elim (λ (o : Option (Engine E × CellContext E.floats.D)). o ≡ some r → IsKept s cell r)
        cell.current_slot.can_schedule_ul _ _
        (λ _.
          step-elim (IsKept s cell) (schedule_ul E clock s cell) none _ r (λ _ e. cc)
            λ (s', cell', ds) f e.
              let (_, _, ues, cells) = schedule-IsChosen E clock s cell false s' cell' ds f in
              let (cells', ues') = send_ul-IsKept s' cell' ds in
              subst (IsKept s cell) (some_unique refl e) (cells' ∙ cells, ues' ∙ ues))
        (λ _ e. subst (IsKept s cell) (some_unique refl e) (refl, refl))

  process_slot-IsKept :
      (clock : Clock) (s : Engine E) (cell : CellContext E.floats.D)
      (r : Engine E × CellContext E.floats.D)
      → process_slot E clock s cell ≡ some r
      → IsKept s cell r
  unfolding process_slot count_cell
  process_slot-IsKept clock s cell r =
      step-elim (IsKept s cell) (downlink E clock s cell) none _ r (λ _ e. cc)
        λ (s', cell') f.
          step-elim (IsKept s cell) (uplink E clock s' cell') none _ r (λ _ e. cc)
            λ (s'', cell'') g.
              step-elim (IsKept s cell)
                (Watch.on_slot_end E.floats E.relocks s''.slice_orchestrator) none _ r (λ _ e. cc)
                λ o ended e.
                  let (cells, ues) = downlink-IsKept clock s cell (s', cell') f in
                  let (cells', ues') = uplink-IsKept clock s' cell' (s'', cell'') g in
                  subst (IsKept s cell) (some_unique refl e) (cells' ∙ cells, ues' ∙ ues)

  advance_to_slot_keeps :
      (cell cell' : CellContext E.floats.D) (timing : FrameTiming)
      → advance_to_slot cell timing ≡ some cell'
      → cell'.ue_repository ≡ cell.ue_repository
  unfolding advance_to_slot
  advance_to_slot_keeps cell cell' timing e =
      elim (Option-cases (initialize cell.config timing cell.current_slot)) [
        | inl undefined ↦ none_some (rw (undefined, advance_to_slot) refl) e
        | inr (slot, f) ↦
            let moved : CellContext E.floats.D = record cell { current_slot = slot } in
            let same : moved ≡ cell' = some_unique (rw (f, advance_to_slot) refl) e in
            ap (λ (x : CellContext E.floats.D). x.ue_repository) (sym same)
      ]

  -- A slot keeps all HARQ processes idle.
  pub on_slot_indication-AllIdle :
      (clock : Clock) (s s' : Engine E) (cell_id : ℕ) (timing : FrameTiming)
      → AllIdle s
      → Slots.on_slot_indication E clock s cell_id timing ≡ some s'
      → AllIdle s'
  unfolding Slots.on_slot_indication notified
  on_slot_indication-AllIdle clock s s' cell_id timing ok =
      step-elim AllIdle (lookup cell_id s.cells) _ _ s'
        (λ _ e. subst AllIdle (some_unique refl e) ok)
        λ cell here.
          step-elim AllIdle (advance_to_slot cell timing) none _ s' (λ _ e. cc)
            λ cell' moved.
              let s0 = notified E clock.tick cell_id timing s in
              step-elim AllIdle (process_slot E clock s0 cell') none _ s' (λ _ e. cc)
                λ (s1, cell'') served e.
                  let (cells, ues) = process_slot-IsKept clock s0 cell' (s1, cell'') served in
                  subst AllIdle (some_unique refl e) λ k c found.
                    elim (lookup-insert_cases cell_id k cell'' c s1.cells found) [
                      | inl new ↦
                          subst AreIdle
                            (sym (
                              ap (λ (x : CellContext E.floats.D). x.ue_repository) new
                              ∙ ues
                              ∙ advance_to_slot_keeps cell cell' timing moved))
                            (ok cell_id cell here)
                      | inr old ↦ ok k c (ap (lookup k) (sym cells) ∙ old)
                    ]
