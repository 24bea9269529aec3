-- ===== src/Engine/Schedule/Safety.antt =====
-- `schedule_dl` and `schedule_ul` of scheduler_engine.cpp: what their decisions take from the slot.
use nr5g_basic_scheduler.Base.{
  ℕ, ◌≤◌, ◌≡◌, refl, sym, ap, ◌∙◌, subst, inl, inr, Bool, true, false, ◌||◌, Option, some, none,
  List, [], length, All, Option-cases,
}
use nr5g_basic_scheduler.Grid.{ResourceGrid, max_rbs}
use nr5g_basic_scheduler.Ue.{UeContext}
use nr5g_basic_scheduler.Cell.{CellContext}
use nr5g_basic_scheduler.Engine.Types.{SchedulerConfig, SchedulingDecision, find_ue}
use nr5g_basic_scheduler.Engine.Allocator.{grid_of}
use nr5g_basic_scheduler.Engine.State.{Environment, Clock, Engine}
use nr5g_basic_scheduler.Engine.Schedule.{
  Progress, calculate_priorities, sort_by_priority, grant_all, finish, schedule_dl, schedule_ul,
}
use nr5g_basic_scheduler.Engine.Schedule.Reservations.{
  Reserved, AreApart, held_by, Reserved-taken, Reserved-AreApart,
}
use nr5g_basic_scheduler.Engine.Schedule.Grants.{
  with_cells, resources_of, IsServing, grant_all-IsServing, start-IsServing,
}

module _ (E : Environment) where
  abbrev pub Result : Type 1
  Result = Engine E × CellContext E.floats.D × List (SchedulingDecision E.floats.D)

  -- The two functions, and their limits.
  abbrev pub schedule : Bool → Clock → Engine E → CellContext E.floats.D → Option Result
  schedule true = schedule_dl E
  schedule false = schedule_ul E

  abbrev pub limit_of : {D : Type 0} → Bool → SchedulerConfig D → ℕ
  limit_of true config = config.max_pdsch_per_tti
  limit_of false config = config.max_pusch_per_tti

  finish-IsServing :
      (clock : Clock) (s : Engine E) (cell : CellContext E.floats.D) (dl : Bool) (limit : ℕ)
      (decisions : List (SchedulingDecision E.floats.D)) (r : Result)
      → (grid_of dl cell.current_slot).num_rbs ≤ max_rbs
      → finish E clock s cell dl limit decisions ≡ some r
      → (p : Progress E.floats.D) × IsServing dl limit cell p
        × (p.cell ≡ r.1)
        × (p.successful ≡ r.2)
  unfolding finish
  finish-IsServing clock s cell dl limit decisions r narrow e =
      elim (Option-cases (
        calculate_priorities E.floats s.config s.policy_manager s.slice_orchestrator clock cell dl 0
          s.qos_engine decisions)) [
            | inl undefined ↦
                let clash : none ≡ some r = sym (rw (undefined, finish) refl) ∙ e in cc
            | inr ((qos, ranked), f) ↦
                let ordered = sort_by_priority E.floats ranked in
                let p0 : Progress E.floats.D = record {
                  cell = cell;
                  policy_manager = s.policy_manager;
                  allocation_failures = s.stats.allocation_failures;
                  successful = [];
                } in
                elim (Option-cases (grant_all (clock.history dl) limit dl ordered p0)) [
                  | inl undefined ↦
                      let clash : none ≡ some r =
                        sym (rw (f, finish) (rw (undefined, finish) refl)) ∙ e in
                      cc
                  | inr (p, g) ↦
                      let result : Result = (
                        record s {
                          qos_engine = qos;
                          policy_manager = p.policy_manager;
                          stats = record s.stats { allocation_failures = p.allocation_failures };
                        },
                        p.cell,
                        p.successful,
                      ) in
                      let both : some result ≡ some r =
                        sym (rw (f, finish) (rw (g, finish) refl)) ∙ e in
                      let same : result ≡ r = cc in
                      (
                        p,
                        grant_all-IsServing (clock.history dl) dl limit cell narrow ordered p0 p
                            (start-IsServing (clock.history dl) dl limit cell narrow p0 refl refl)
                            g,
                        ap (λ (x : Result). x.1) same,
                        ap (λ (x : Result). x.2) same,
                      )
                ]
          ]

  pub schedule-IsServing :
      (clock : Clock) (s : Engine E) (cell : CellContext E.floats.D) (dl : Bool) (r : Result)
      → (grid_of dl cell.current_slot).num_rbs ≤ max_rbs
      → schedule dl clock s cell ≡ some r
      → (p : Progress E.floats.D) × IsServing dl (limit_of dl s.config) cell p
        × (p.cell ≡ r.1)
        × (p.successful ≡ r.2)
  unfolding schedule_dl schedule_ul
  schedule-IsServing clock s cell true r narrow e =
      finish-IsServing clock s cell true s.config.max_pdsch_per_tti _ r narrow e
  schedule-IsServing clock s cell false r narrow e =
      finish-IsServing clock s cell false s.config.max_pusch_per_tti _ r narrow e

  -- Where the scheduling of one direction of a slot returns, on a grid of at most 273 blocks: there
  -- are at most as many decisions as the configuration allows, each is for a UE of the cell, and no
  -- two of them have a cell of the grid in common, nor one with what was taken before.
  pub schedule-AreApart :
      (clock : Clock) (s : Engine E) (cell : CellContext E.floats.D) (dl : Bool) (s' : Engine E)
      (cell' : CellContext E.floats.D) (ds : List (SchedulingDecision E.floats.D))
      → (grid_of dl cell.current_slot).num_rbs ≤ max_rbs
      → schedule dl clock s cell ≡ some (s', cell', ds)
      → (length ds ≤ limit_of dl s.config)
        × All (λ d. (ue : UeContext E.floats.D) × (find_ue cell.ue_repository d.rnti ≡ some ue)) ds
        × AreApart (resources_of ds)
        × ((sym rb : ℕ)
            → held_by (resources_of ds) sym rb ≡ true
            → (grid_of dl cell.current_slot).taken sym rb ≡ false)
  schedule-AreApart clock s cell dl s' cell' ds narrow e =
      let (p, ok, _, same) = schedule-IsServing clock s cell dl (s', cell', ds) narrow e in
      let (apart, new) = Reserved-AreApart ok.reserved in
      (
        subst (λ x. length x ≤ limit_of dl s.config) same ok.bounded,
        subst (All _) same ok.known,
        subst (λ x. AreApart (resources_of x)) same apart,
        subst
            (λ x.
              (sym rb : ℕ)
              → held_by (resources_of x) sym rb ≡ true
              → (grid_of dl cell.current_slot).taken sym rb ≡ false)
            same new,
      )

  -- Where the scheduling of one direction of a slot returns, on a grid of at most 273 blocks, it is,
  -- for the cells of the grid, a sequence of reservations of the resources of its decisions, in their
  -- order, each of cells that were free; of the cell it changes that grid and nothing else.
  pub schedule-Reserved :
      (clock : Clock) (s : Engine E) (cell : CellContext E.floats.D) (dl : Bool) (s' : Engine E)
      (cell' : CellContext E.floats.D) (ds : List (SchedulingDecision E.floats.D))
      → (grid_of dl cell.current_slot).num_rbs ≤ max_rbs
      → schedule dl clock s cell ≡ some (s', cell', ds)
      → (grid : ResourceGrid) × (cell' ≡ with_cells dl cell grid)
        × (grid.num_rbs ≡ (grid_of dl cell.current_slot).num_rbs)
        × Reserved ((grid_of dl cell.current_slot).taken) (resources_of ds) grid.taken
        × ((sym rb : ℕ)
            → grid.taken sym rb
              ≡ (held_by (resources_of ds) sym rb || (grid_of dl cell.current_slot).taken sym rb))
  schedule-Reserved clock s cell dl s' cell' ds narrow e =
      let (p, ok, here, same) = schedule-IsServing clock s cell dl (s', cell', ds) narrow e in
      let reserved : Reserved ((grid_of dl cell.current_slot).taken) (resources_of ds)
          ok.grid.taken =
        subst (λ x. Reserved ((grid_of dl cell.current_slot).taken) (resources_of x) ok.grid.taken)
          same ok.reserved in
      (ok.grid, sym here ∙ ok.cell, ok.width, reserved, Reserved-taken reserved)
