-- ===== src/Engine/Slots/Returning.antt =====
-- `process_slot` of scheduler_engine.cpp returns: both directions, one after the other.
use nr5g_basic_scheduler.Base.{
  none, is_some, value_of, not, ◌||◌, ℕ, ◌/◌, ◌≤◌, ◌≡◌, refl, sym, ap, ◌∙◌, subst, inl, inr, Bool,
  true, false, some, List, [], ◌∷◌, get_elem?, arith, Bool-cases, Option-cases,
}
use nr5g_basic_scheduler.Ue.{UeContext, effective_cqi}
use nr5g_basic_scheduler.Timing.{FrameTiming}
use nr5g_basic_scheduler.Base.Floats.{Floats}
use nr5g_basic_scheduler.Slice.{Orchestrator}
use nr5g_basic_scheduler.Slice.Watch
use nr5g_basic_scheduler.Phy.{PdschPdu}
use nr5g_basic_scheduler.Base.Table.{lookup, has, has-lookup}
use nr5g_basic_scheduler.Cell.{CellContext, advance_to_slot}
use nr5g_basic_scheduler.Cell.Slots.{IsConfigured, initialize-IsReady}
use nr5g_basic_scheduler.Engine.Types.{SchedulingDecision, find_ue}
use nr5g_basic_scheduler.Engine.Allocator.{grid_of, with_grid}
use nr5g_basic_scheduler.Engine.Policy.{IPolicyManager}
use nr5g_basic_scheduler.Engine.State.{Environment, Clock, Engine}
use nr5g_basic_scheduler.Engine.Schedule.Safety.{schedule-Reserved}
use nr5g_basic_scheduler.Engine.Schedule.Choosing.{schedule-IsChosen}
use nr5g_basic_scheduler.Engine.Schedule.Returning.{IsWorkable}
use nr5g_basic_scheduler.Engine.Schedule.Liveness.{IsTotal, schedule_returns}
use nr5g_basic_scheduler.Engine.Tti.{Built, add_pdsch, add_all, build_dl_tti_request}
use nr5g_basic_scheduler.Engine.Slots.{
  send_dl, send_ul, downlink, uplink, process_slot, notified, on_slot_indication,
}
use nr5g_basic_scheduler.Engine.Slots.Policies.{schedule_methods}

-- In every state, the policy has a priority for every UE with a good channel.
abbrev pub IsSteady : {D : Type 0} → IPolicyManager D → Type 0
IsSteady {D} methods =
    (state : methods.State) (cell : CellContext D) (dl : Bool)
    → cell.config.num_rbs / 4 ≤ 273
    → IsTotal (record { methods = methods; state = state }) cell dl

-- The grid of a direction is that of another slot of the cell.
IsWorkable-same :
    {D : Type 0} (cell cell' : CellContext D) (dl : Bool)
    → cell'.config ≡ cell.config
    → cell'.ue_repository ≡ cell.ue_repository
    → (grid_of dl cell'.current_slot).num_rbs ≡ (grid_of dl cell.current_slot).num_rbs
    → IsWorkable cell dl
    → IsWorkable cell' dl
IsWorkable-same cell cell' dl same_config same_ues same_width ok =
    let blocks : cell'.config.num_rbs ≡ cell.config.num_rbs = ap (λ c. c.num_rbs) same_config in
    let layers : cell'.config.max_layers ≡ cell.config.max_layers =
      ap (λ c. c.max_layers) same_config in
    record {
      good_channels =
          λ p ue at. ok.good_channels p ue (ap (λ r. get_elem? r.heap p) (sym same_ues) ∙ at);
      layers_fit = subst (λ n. n ≤ 8) (sym layers) ok.layers_fit;
      width = same_width ∙ ok.width ∙ sym blocks;
      not_empty = subst (λ n. 1 ≤ n) (sym blocks) ok.not_empty;
      fits = subst (λ n. n ≤ 273) (sym blocks) ok.fits;
    }

module _ (F : Floats) where
  on_slot_end_returns :
      (relocks : Bool) (o : Orchestrator F.D) → is_some (Watch.on_slot_end F relocks o) ≡ relocks
  unfolding Watch.on_slot_end
  on_slot_end_returns true o = refl
  on_slot_end_returns false o = refl

  on_slot_end_stuck :
      (relocks : Bool) (o : Orchestrator F.D)
      → relocks ≡ false
      → Watch.on_slot_end F relocks o ≡ none
  unfolding Watch.on_slot_end
  on_slot_end_stuck true o e = cc
  on_slot_end_stuck false o e = refl

-- A request changes no grid.
add_all_grid :
    {D : Type 0} (blank : PdschPdu) (cell : CellContext D) (timing : FrameTiming)
    (ds : List (SchedulingDecision D)) (b : Built PdschPdu D)
    → (add_all (add_pdsch blank cell timing) ds b).slot.ul_grid ≡ b.slot.ul_grid
unfolding add_all add_pdsch
add_all_grid blank cell timing [] b = refl
add_all_grid blank cell timing (d ∷ ds) b =
    elim (Option-cases (find_ue cell.ue_repository d.rnti)) [
      | inl gone ↦
          add_all_grid blank cell timing ds (add_pdsch blank cell timing d b)
          ∙ rw (gone, add_pdsch) refl
      | inr (ue, found) ↦
          add_all_grid blank cell timing ds (add_pdsch blank cell timing d b)
          ∙ rw (found, add_pdsch) refl
    ]

module _ (E : Environment) where
  -- What a request leaves as it was.
  send_dl_lem :
      (s : Engine E) (cell : CellContext E.floats.D) (ds : List (SchedulingDecision E.floats.D))
      → let r = send_dl E (s, cell, ds) in
        ((r.0).policy_manager ≡ s.policy_manager)
        × ((r.1).config ≡ cell.config)
        × ((r.1).ue_repository ≡ cell.ue_repository)
        × ((r.1).current_slot.ul_grid ≡ cell.current_slot.ul_grid)
  unfolding send_dl build_dl_tti_request
  send_dl_lem s cell [] = (refl, refl, refl, refl)
  send_dl_lem s cell (d ∷ ds) = (
    refl,
    refl,
    refl,
    add_all_grid E.blank_pdsch cell cell.current_slot.timing (d ∷ ds)
        (record { pdus = []; tracker = s.harq_tracker; stats = s.stats; slot = cell.current_slot }),
  )

  downlink_returns :
      (clock : Clock) (s : Engine E) (cell : CellContext E.floats.D)
      → IsWorkable cell true
      → IsWorkable cell false
      → IsSteady s.policy_manager.methods
      → (r : Engine E × CellContext E.floats.D) × (downlink E clock s cell ≡ some r)
        × IsSteady (r.0).policy_manager.methods
        × IsWorkable (r.1) false
  unfolding downlink grid_of with_grid
  downlink_returns clock s cell down up steady =
      elim (Bool-cases cell.current_slot.can_schedule_dl) [
        | inr not_now ↦ ((s, cell), rw (not_now, downlink) refl, steady, up)
        | inl now ↦
            let (r, e) =
              schedule_returns E clock s cell true down
                (steady s.policy_manager.state cell true (omega (arith, down.fits))) in
            let (_, config, ues, _) = schedule-IsChosen E clock s cell true (r.0) (r.1) (r.2) e in
            let (grid, here, _, _, _) =
              schedule-Reserved E clock s cell true (r.0) (r.1) (r.2)
                (omega (arith, down.width, down.fits)) e in
            let (policy, config', ues', grid') = send_dl_lem (r.0) (r.1) (r.2) in
            (
              send_dl E r,
              rw (now, downlink) (rw (e, downlink) refl),
              subst IsSteady
                  (sym (ap (λ p. p.methods) policy ∙ schedule_methods E clock s cell true r e))
                  steady,
              IsWorkable-same cell ((send_dl E r).1) false (config' ∙ config) (ues' ∙ ues)
                  (ap (λ g. g.num_rbs) grid'
                    ∙ ap (λ (c : CellContext E.floats.D). c.current_slot.ul_grid.num_rbs) here)
                  up,
            )
      ]

  uplink_returns :
      (clock : Clock) (s : Engine E) (cell : CellContext E.floats.D)
      → IsWorkable cell false
      → IsSteady s.policy_manager.methods
      → (r : Engine E × CellContext E.floats.D) × (uplink E clock s cell ≡ some r)
  unfolding uplink
  uplink_returns clock s cell up steady = elim (Bool-cases cell.current_slot.can_schedule_ul) [
    | inr not_now ↦ ((s, cell), rw (not_now, uplink) refl)
    | inl now ↦
        let (r, e) =
          schedule_returns E clock s cell false up
            (steady s.policy_manager.state cell false (omega (arith, up.fits))) in
        (send_ul E r, rw (now, uplink) (rw (e, uplink) refl))
  ]

  -- Where the lock of `on_slot_end` succeeds, the slot of a cell is processed to its end, downlink and
  -- then uplink, if the policy has a priority for every UE with a good channel in every state, the cell
  -- has 1 to 273 blocks and up to 8 layers, both grids are as wide, and all its UEs reported a CQI of 5
  -- or more.
  process_slot_returns :
      (clock : Clock) (s : Engine E) (cell : CellContext E.floats.D)
      → E.relocks ≡ true
      → IsWorkable cell true
      → IsWorkable cell false
      → IsSteady s.policy_manager.methods
      → is_some (process_slot E clock s cell) ≡ true
  unfolding process_slot
  process_slot_returns clock s cell locks down up steady =
      let (r, e, steady', up') = downlink_returns clock s cell down up steady in
      let (r', f) = uplink_returns clock (r.0) (r.1) up' steady' in
      let (o, g) =
        value_of (Watch.on_slot_end E.floats E.relocks ((r'.0).slice_orchestrator))
          (on_slot_end_returns E.floats E.relocks ((r'.0).slice_orchestrator) ∙ locks) in
      rw (e, process_slot) (rw (f, process_slot) (rw (g, process_slot) refl))

  process_slot_stuck :
      (clock : Clock) (s : Engine E) (cell : CellContext E.floats.D)
      → E.relocks ≡ false
      → process_slot E clock s cell ≡ none
  unfolding process_slot
  process_slot_stuck clock s cell locks = elim (Option-cases (downlink E clock s cell)) [
    | inl e ↦ rw (e, process_slot) refl
    | inr (r, e) ↦ elim (Option-cases (uplink E clock (r.0) (r.1))) [
      | inl f ↦ rw (e, process_slot) (rw (f, process_slot) refl)
      | inr (r', f) ↦
          let g = on_slot_end_stuck E.floats E.relocks ((r'.0).slice_orchestrator) locks in
          rw (e, process_slot) (rw (f, process_slot) (rw (g, process_slot) refl))
    ]
  ]

-- What a cell needs for the scheduling of its slots.
pub record IsProper {D : Type 0} (cell : CellContext D) : Type 0 where
  pub configured : IsConfigured cell.config
  pub good_channels :
      (p : ℕ) (ue : UeContext D)
      → get_elem? cell.ue_repository.heap p ≡ some ue
      → 5 ≤ effective_cqi ue
  pub layers_fit : cell.config.max_layers ≤ 8
  pub not_empty : 1 ≤ cell.config.num_rbs
  pub fits : cell.config.num_rbs ≤ 273

module _ {D : Type 0} where
  -- A new slot of the cell can be scheduled in both directions.
  advance_to_slot-IsWorkable :
      (cell : CellContext D) (timing : FrameTiming)
      → IsProper cell
      → (cell' : CellContext D) × (advance_to_slot cell timing ≡ some cell')
        × IsWorkable cell' true
        × IsWorkable cell' false
  unfolding advance_to_slot grid_of
  advance_to_slot-IsWorkable cell timing ok =
      let (slot, e, ready) =
        initialize-IsReady cell.config timing cell.current_slot ok.configured in
      let workable : (dl : Bool)
          → (grid_of dl slot).num_rbs ≡ cell.config.num_rbs
          → IsWorkable (record cell { current_slot = slot }) dl =
        λ dl width. record {
          good_channels = ok.good_channels;
          layers_fit = ok.layers_fit;
          width = width;
          not_empty = ok.not_empty;
          fits = ok.fits;
        } in
      (
        record cell { current_slot = slot },
        rw (e, advance_to_slot) refl,
        workable true ready.dl_width,
        workable false ready.ul_width,
      )

module _ (E : Environment) where
  -- An indication of a slot is handled to its end exactly if the cell is not there, or the lock that
  -- `on_slot_end` takes while it holds that mutex succeeds, at any time, if the policy has a priority
  -- for every UE with a good channel in every state, and every cell is configured with 1 to 273 blocks,
  -- up to 8 layers, a control region of at most 128 elements and, for TDD, a pattern with a period and
  -- a slot, and all its UEs reported a CQI of 5 or more.
  pub on_slot_indication_returns :
      (clock : Clock) (s : Engine E) (cell_id : ℕ) (timing : FrameTiming)
      → ((cell : CellContext E.floats.D) → lookup cell_id s.cells ≡ some cell → IsProper cell)
      → IsSteady s.policy_manager.methods
      → is_some (on_slot_indication E clock s cell_id timing)
        ≡ (not (has cell_id s.cells) || E.relocks)
  unfolding on_slot_indication notified
  on_slot_indication_returns clock s cell_id timing proper steady =
      elim (Option-cases (lookup cell_id s.cells)) [
        | inl gone ↦
            let absent : has cell_id s.cells ≡ false = rw (gone, has) refl in
            let done : is_some (on_slot_indication E clock s cell_id timing) ≡ true =
              rw (gone, on_slot_indication) refl in
            done ∙ sym (ap (λ b. not b || E.relocks) absent)
        | inr (cell, here) ↦
            let (cell', e, down, up) = advance_to_slot-IsWorkable cell timing (proper cell here) in
            let s0 = notified E clock.tick cell_id timing s in
            let present = ap (λ b. not b || E.relocks) (has-lookup cell_id cell s.cells here) in
            elim (Bool-cases E.relocks) [
              | inl locks ↦
                  let served = process_slot_returns E clock s0 cell' locks down up steady in
                  let (r, f) = value_of (process_slot E clock s0 cell') served in
                  let done : is_some (on_slot_indication E clock s cell_id timing) ≡ true =
                    rw (here, on_slot_indication)
                      (rw (e, on_slot_indication) (rw (f, on_slot_indication) refl)) in
                  done ∙ sym locks ∙ sym present
              | inr stuck ↦
                  let f = process_slot_stuck E clock s0 cell' stuck in
                  let done : is_some (on_slot_indication E clock s cell_id timing) ≡ false =
                    rw (here, on_slot_indication)
                      (rw (e, on_slot_indication) (rw (f, on_slot_indication) refl)) in
                  done ∙ sym stuck ∙ sym present
            ]
      ]
