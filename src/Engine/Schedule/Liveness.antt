-- ===== src/Engine/Schedule/Liveness.antt =====
-- When `schedule_dl` and `schedule_ul` return, and when they serve somebody.
use nr5g_basic_scheduler.Base.{
  ℕ, suc, ◌+◌, ◌≤◌, ◌≡◌, refl, sym, ap, ◌∙◌, subst, inl, inr, Bool, true, false, Option, some, List,
  [], ◌∷◌, length, All, get_elem?, arith, if-elim, Option-cases,
}
use nr5g_basic_scheduler.Base.Floats.{Floats}
use nr5g_basic_scheduler.Slice.{Orchestrator}
use nr5g_basic_scheduler.Qos.{QosEngine}
use nr5g_basic_scheduler.Ue.{UeContext, effective_cqi}
use nr5g_basic_scheduler.Cell.{CellContext}
use nr5g_basic_scheduler.Engine.Types.{SchedulerConfig, SchedulingDecision, find_ue}
use nr5g_basic_scheduler.Engine.Allocator.{grid_of}
use nr5g_basic_scheduler.Engine.Allocator.Choice.{HasRun}
use nr5g_basic_scheduler.Engine.Policy.{PolicyObject}
use nr5g_basic_scheduler.Engine.State.{Environment, Clock, Engine}
use nr5g_basic_scheduler.Engine.Eligible.{get_eligible_ues, decisions_of}
use nr5g_basic_scheduler.Engine.Schedule.{
  with_qos, with_boosts, prioritise, calculate_priorities, insert_by_priority, sort_by_priority,
  Progress, grant_all, finish, schedule_dl, schedule_ul,
}
use nr5g_basic_scheduler.Engine.Schedule.Grants.{IsServing, start-IsServing}
use nr5g_basic_scheduler.Engine.Schedule.Safety.{Result, schedule, limit_of}
use nr5g_basic_scheduler.Engine.Schedule.Choosing.{decide}
use nr5g_basic_scheduler.Engine.Schedule.Ranking.{
  calculate_priorities-AllAbout, sort_by_priority-AllAbout,
}
use nr5g_basic_scheduler.Engine.Schedule.Returning.{
  IsWorkable, find_ue_address, narrow, grant_all_returns, grant_all_serves,
}

-- What the scheduler needs of a policy: a priority for every UE with a good channel.
abbrev pub IsTotal : {D : Type 0} → PolicyObject D → CellContext D → Bool → Type 0
IsTotal {D} policy cell dl =
    (ue : UeContext D)
    → 5 ≤ effective_cqi ue
    → (x : D) × (policy.methods.calculate_priority policy.state ue cell dl ≡ some x)

module _ (F : Floats) (config : SchedulerConfig F.D) (policy : PolicyObject F.D)
    (o : Orchestrator F.D) (clock : Clock) (cell : CellContext F.D) (dl : Bool)
    (good : (p : ℕ) (ue : UeContext F.D)
      → get_elem? cell.ue_repository.heap p ≡ some ue
      → 5 ≤ effective_cqi ue)
    (total : IsTotal policy cell dl) where
  prioritise_returns :
      (index : ℕ) (qos : QosEngine F.D) (d : SchedulingDecision F.D)
      → (r : QosEngine F.D × SchedulingDecision F.D) × (prioritise F config policy o clock cell dl
            index qos d
          ≡ some r)
  unfolding prioritise
  prioritise_returns index qos d = elim (Option-cases (find_ue cell.ue_repository d.rnti)) [
    | inl gone ↦ ((qos, record d { priority_metric = F.ratio 0 1 }), rw (gone, prioritise) refl)
    | inr (ue, found) ↦
        let (address, at) = find_ue_address cell.ue_repository d.rnti ue found in
        let (base, e) = total ue (good address ue at) in
        let q = with_qos F config clock dl index ue base qos d in
        (
          (q.0, record (q.1) { priority_metric = with_boosts F config o ue (q.1) }),
          rw (found, prioritise) (rw (e, prioritise) refl),
        )
  ]

  -- All decisions get a priority.
  calculate_priorities_returns :
      (index : ℕ) (qos : QosEngine F.D) (ds : List (SchedulingDecision F.D))
      → (r : QosEngine F.D × List (SchedulingDecision F.D)) × (calculate_priorities F config policy
            o clock cell dl index qos ds
          ≡ some r)
        × (length (r.1) ≡ length ds)
  unfolding calculate_priorities
  calculate_priorities_returns index qos [] = ((qos, []), refl, refl)
  calculate_priorities_returns index qos (d ∷ ds) =
      let (r, e) = prioritise_returns index qos d in
      let (rs, f, same) = calculate_priorities_returns (index + 1) (r.0) ds in
      (
        (rs.0, r.1 ∷ rs.1),
        rw (e, calculate_priorities) (rw (f, calculate_priorities) refl),
        ap suc same,
      )

module _ (F : Floats) where
  length-insert_by_priority :
      (d : SchedulingDecision F.D) (es : List (SchedulingDecision F.D))
      → length (insert_by_priority F d es) ≡ suc (length es)
  unfolding insert_by_priority
  length-insert_by_priority d [] = refl
  length-insert_by_priority d (e ∷ es) =
      if-elim (λ (x : List (SchedulingDecision F.D)). length x ≡ suc (suc (length es)))
        (F.gtb e.priority_metric d.priority_metric) _ _
        (λ h. ap suc (length-insert_by_priority d es)) (λ h. refl)

  length-sort_by_priority :
      (ds : List (SchedulingDecision F.D)) → length (sort_by_priority F ds) ≡ length ds
  unfolding sort_by_priority
  length-sort_by_priority [] = refl
  length-sort_by_priority (d ∷ ds) =
      length-insert_by_priority d (sort_by_priority F ds) ∙ ap suc (length-sort_by_priority ds)

-- Each decision is for a UE that is found by its RNTI.
abbrev pub AreFound : {D : Type 0} → CellContext D → List (SchedulingDecision D) → Type 0
AreFound {D} cell ds =
    All (λ d. (ue : UeContext D) × (find_ue cell.ue_repository d.rnti ≡ some ue)) ds

-- What the first loop decides.
abbrev pub decisions :
    (E : Environment)
    → Engine E
    → CellContext E.floats.D
    → Bool
    → List (SchedulingDecision E.floats.D)
decisions E s cell dl =
    decisions_of (decide E.blank_decision s.config dl)
      (get_eligible_ues s.config s.slice_orchestrator cell dl)

module _ (E : Environment) (clock : Clock) (s : Engine E) (cell : CellContext E.floats.D)
    (dl : Bool) (ok : IsWorkable cell dl) (total : IsTotal s.policy_manager cell dl) where
  serves_first :
      (limit : ℕ) (ds : List (SchedulingDecision E.floats.D)) (p p' : Progress E.floats.D)
      → IsServing dl limit cell p
      → p.cell ≡ cell
      → p.successful ≡ []
      → AreFound cell ds
      → 1 ≤ length ds
      → 1 ≤ limit
      → HasRun (grid_of dl cell.current_slot) 1
      → grant_all (clock.history dl) limit dl ds p ≡ some p'
      → 1 ≤ length p'.successful
  serves_first limit [] p p' serving here empty found some_ds some_room free e =
      absurd (omega arith)
  serves_first limit (d ∷ ds) p p' serving here empty ((ue, found), all) some_ds some_room free e =
      grant_all_serves (clock.history dl) dl limit cell ok d ds p p' ue serving empty some_room
        (ap (λ (c : CellContext E.floats.D). find_ue c.ue_repository d.rnti) here ∙ found)
        (subst (λ (c : CellContext E.floats.D). HasRun (grid_of dl c.current_slot) 1) (sym here)
          free)
        e

  finish_returns :
      (limit : ℕ) (ds : List (SchedulingDecision E.floats.D))
      → (r : Result E) × (finish E clock s cell dl limit ds ≡ some r)
        × (AreFound cell ds
            → 1 ≤ length ds
            → 1 ≤ limit
            → HasRun (grid_of dl cell.current_slot) 1
            → 1 ≤ length (r.2))
  unfolding finish
  finish_returns limit ds =
      let (ranked, f, same) =
        calculate_priorities_returns E.floats s.config s.policy_manager s.slice_orchestrator clock
          cell dl ok.good_channels total 0 s.qos_engine ds in
      let ordered = sort_by_priority E.floats (ranked.1) in
      let p0 : Progress E.floats.D = record {
        cell = cell;
        policy_manager = s.policy_manager;
        allocation_failures = s.stats.allocation_failures;
        successful = [];
      } in
      let serving =
        start-IsServing (clock.history dl) dl limit cell
          (narrow (clock.history dl) dl limit cell ok) p0 refl refl in
      let (p, g, _) = grant_all_returns (clock.history dl) dl limit cell ok ordered p0 serving in
      (
        (
          record s {
            qos_engine = ranked.0;
            policy_manager = p.policy_manager;
            stats = record s.stats { allocation_failures = p.allocation_failures };
          },
          p.cell,
          p.successful,
        ),
        rw (f, finish) (rw (g, finish) refl),
        λ found some_ds some_room free.
            serves_first limit ordered p0 p serving refl refl
              (sort_by_priority-AllAbout E.floats
                (λ a. (ue : UeContext E.floats.D) × (find_ue cell.ue_repository (a.0) ≡ some ue))
                (ranked.1)
                (calculate_priorities-AllAbout E.floats
                  (λ a. (ue : UeContext E.floats.D) × (find_ue cell.ue_repository (a.0) ≡ some ue))
                  s.config s.policy_manager s.slice_orchestrator clock cell dl 0 s.qos_engine ds
                  ranked found f))
              (subst (λ n. 1 ≤ n) (sym (length-sort_by_priority E.floats (ranked.1) ∙ same))
                some_ds)
              some_room free g,
      )

  finish_returns_at :
      (r : Option (Result E))
      → r ≡ finish E clock s cell dl (limit_of E dl s.config) (decisions E s cell dl)
      → (x : Result E) × (r ≡ some x)
        × (AreFound cell (decisions E s cell dl)
            → 1 ≤ length (decisions E s cell dl)
            → 1 ≤ limit_of E dl s.config
            → HasRun (grid_of dl cell.current_slot) 1
            → 1 ≤ length (x.2))
  finish_returns_at r e =
      let (x, f, live) = finish_returns (limit_of E dl s.config) (decisions E s cell dl) in
      (x, e ∙ f, live)

schedule_result :
    (E : Environment) (clock : Clock) (s : Engine E) (cell : CellContext E.floats.D) (dl : Bool)
    (ok : IsWorkable cell dl) (total : IsTotal s.policy_manager cell dl)
    → (r : Result E) × (schedule E dl clock s cell ≡ some r)
      × (AreFound cell (decisions E s cell dl)
          → 1 ≤ length (decisions E s cell dl)
          → 1 ≤ limit_of E dl s.config
          → HasRun (grid_of dl cell.current_slot) 1
          → 1 ≤ length (r.2))
unfolding schedule_dl schedule_ul
schedule_result E clock s cell true ok total =
    finish_returns_at E clock s cell true ok total (schedule_dl E clock s cell) refl
schedule_result E clock s cell false ok total =
    finish_returns_at E clock s cell false ok total (schedule_ul E clock s cell) refl

module _ (E : Environment) (clock : Clock) (s : Engine E) (cell : CellContext E.floats.D)
    (dl : Bool) (ok : IsWorkable cell dl) (total : IsTotal s.policy_manager cell dl) where
  -- Where the policy has a priority for every UE with a good channel, the cell has 1 to 273 blocks and
  -- up to 8 layers and all its UEs reported a CQI of 5 or more, the scheduling of one direction
  -- returns.
  pub schedule_returns : (r : Result E) × (schedule E dl clock s cell ≡ some r)
  schedule_returns = let (r, e, _) = schedule_result E clock s cell dl ok total in (r, e)

  -- Where the policy has a priority for every UE with a good channel, the cell has 1 to 273 blocks and
  -- up to 8 layers and all its UEs reported a CQI of 5 or more, if something was decided, and only for
  -- UEs that are found by their RNTI, the limit of the direction is not zero and a block is free in all
  -- the symbols 2 to 13, then the scheduling of the direction returns and has granted at least one
  -- decision.
  pub schedule_serves :
      AreFound cell (decisions E s cell dl)
      → 1 ≤ length (decisions E s cell dl)
      → 1 ≤ limit_of E dl s.config
      → HasRun (grid_of dl cell.current_slot) 1
      → (r : Result E) × (schedule E dl clock s cell ≡ some r) × (1 ≤ length (r.2))
  schedule_serves found some_ds some_room free =
      let (r, e, live) = schedule_result E clock s cell dl ok total in
      (r, e, live found some_ds some_room free)
