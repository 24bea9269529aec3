-- ===== src/Engine/Schedule/Ranking.antt =====
-- `calculate_priorities`, the sort and the loop of `schedule_dl` and `schedule_ul`: the decisions that
-- come out are among those that went in, for the same UE, of the same type and for the same process.
use nr5g_basic_scheduler.Base.{
  ℕ, ◌+◌, ◌≡◌, refl, sym, ap, ◌∙◌, subst, inl, inr, Bool, true, false, leb, some, List, [], ◌∷◌,
  ◌++◌, length, All, Bool-cases, Option-cases, if-elim, some_unique, none_some,
}
use nr5g_basic_scheduler.Base.Floats.{Floats}
use nr5g_basic_scheduler.Slice.{Orchestrator}
use nr5g_basic_scheduler.Qos.{QosEngine}
use nr5g_basic_scheduler.Ue.{UeContext, UeRepository}
use nr5g_basic_scheduler.Cell.{CellConfig, CellContext}
use nr5g_basic_scheduler.Engine.Types.{DecisionType, SchedulerConfig, SchedulingDecision, find_ue}
use nr5g_basic_scheduler.Engine.Allocator.{allocate}
use nr5g_basic_scheduler.Engine.Allocator.Keeping.{subject, allocate-Keeps}
use nr5g_basic_scheduler.Engine.Policy.{PolicyObject}
use nr5g_basic_scheduler.Engine.State.{Environment, Clock, Engine}
use nr5g_basic_scheduler.Engine.Schedule.{
  with_qos, with_boosts, prioritise, calculate_priorities, insert_by_priority, sort_by_priority,
  Progress, note_result, grant_all, finish,
}

All-append :
    {A : Type 0} (P : A → Type 0) (xs : List A) (x : A) → All P xs → P x → All P (xs ++ x ∷ [])
All-append P [] x all last = (last, tt)
All-append P (y ∷ xs) x (first, all) last = (first, All-append P xs x all last)

module _ (F : Floats) where
  subject-with_qos :
      (config : SchedulerConfig F.D) (clock : Clock) (dl : Bool) (index : ℕ) (ue : UeContext F.D)
      (base : F.D) (qos : QosEngine F.D) (d : SchedulingDecision F.D)
      → subject ((with_qos F config clock dl index ue base qos d).1) ≡ subject d
  unfolding with_qos
  subject-with_qos config clock dl index ue base qos d =
      if-elim (λ (x : QosEngine F.D × SchedulingDecision F.D). subject (x.1) ≡ subject d)
        config.enable_qos _ _ (λ h. refl) (λ h. refl)

  -- A priority is another member of the decision.
  prioritise-subject :
      (config : SchedulerConfig F.D) (policy : PolicyObject F.D) (o : Orchestrator F.D)
      (clock : Clock) (cell : CellContext F.D) (dl : Bool) (index : ℕ) (qos : QosEngine F.D)
      (d : SchedulingDecision F.D) (r : QosEngine F.D × SchedulingDecision F.D)
      → prioritise F config policy o clock cell dl index qos d ≡ some r
      → subject (r.1) ≡ subject d
  unfolding prioritise
  prioritise-subject config policy o clock cell dl index qos d r e =
      elim (Option-cases (find_ue cell.ue_repository d.rnti)) [
        | inl gone ↦
            let lowest : QosEngine F.D × SchedulingDecision F.D =
              (qos, record d { priority_metric = F.ratio 0 1 }) in
            let same : lowest ≡ r = some_unique (rw (gone, prioritise) refl) e in
            ap (λ (x : QosEngine F.D × SchedulingDecision F.D). subject (x.1)) (sym same)
        | inr (ue, found) ↦
            elim (Option-cases (policy.methods.calculate_priority policy.state ue cell dl)) [
              | inl undefined ↦
                  none_some (rw (found, prioritise) (rw (undefined, prioritise) refl)) e
              | inr (base, f) ↦
                  let q = with_qos F config clock dl index ue base qos d in
                  let ranked : QosEngine F.D × SchedulingDecision F.D =
                    (q.0, record (q.1) { priority_metric = with_boosts F config o ue (q.1) }) in
                  let same : ranked ≡ r =
                    some_unique (rw (found, prioritise) (rw (f, prioritise) refl)) e in
                  ap (λ (x : QosEngine F.D × SchedulingDecision F.D). subject (x.1)) (sym same)
                  ∙ subject-with_qos config clock dl index ue base qos d
            ]
      ]

module _ (F : Floats) (P : ℕ × DecisionType × ℕ → Type 0) where
  abbrev pub AllAbout : List (SchedulingDecision F.D) → Type 0
  AllAbout ds = All (λ d. P (subject d)) ds

  pub calculate_priorities-AllAbout :
      (config : SchedulerConfig F.D) (policy : PolicyObject F.D) (o : Orchestrator F.D)
      (clock : Clock) (cell : CellContext F.D) (dl : Bool) (index : ℕ) (qos : QosEngine F.D)
      (ds : List (SchedulingDecision F.D)) (r : QosEngine F.D × List (SchedulingDecision F.D))
      → AllAbout ds
      → calculate_priorities F config policy o clock cell dl index qos ds ≡ some r
      → AllAbout (r.1)
  unfolding calculate_priorities
  calculate_priorities-AllAbout config policy o clock cell dl index qos [] r all e =
      let nothing : QosEngine F.D × List (SchedulingDecision F.D) = (qos, []) in
      let same : nothing ≡ r = some_unique refl e in
      subst (λ (x : QosEngine F.D × List (SchedulingDecision F.D)). AllAbout (x.1)) same tt
  calculate_priorities-AllAbout config policy o clock cell dl index qos (d ∷ ds) r (about, all) e =
      elim (Option-cases (prioritise F config policy o clock cell dl index qos d)) [
        | inl undefined ↦ none_some (rw (undefined, calculate_priorities) refl) e
        | inr ((qos', d'), f) ↦
            elim (Option-cases
              (calculate_priorities F config policy o clock cell dl (index + 1) qos' ds)) [
                | inl undefined ↦
                    none_some
                      (rw (f, calculate_priorities) (rw (undefined, calculate_priorities) refl)) e
                | inr ((qos'', ds'), g) ↦
                    let result : QosEngine F.D × List (SchedulingDecision F.D) =
                      (qos'', d' ∷ ds') in
                    let same : result ≡ r =
                      some_unique (rw (f, calculate_priorities) (rw (g, calculate_priorities) refl))
                        e in
                    subst (λ (x : QosEngine F.D × List (SchedulingDecision F.D)). AllAbout (x.1))
                      same
                      (
                        subst P
                            (sym (
                              prioritise-subject F config policy o clock cell dl index qos d
                                (qos', d') f))
                            about,
                        calculate_priorities-AllAbout config policy o clock cell dl (index + 1) qos'
                            ds (qos'', ds') all g,
                      )
              ]
      ]

  insert_by_priority-AllAbout :
      (d : SchedulingDecision F.D) (es : List (SchedulingDecision F.D))
      → P (subject d)
      → AllAbout es
      → AllAbout (insert_by_priority F d es)
  unfolding insert_by_priority
  insert_by_priority-AllAbout d [] about all = (about, tt)
  insert_by_priority-AllAbout d (e ∷ es) about (first, all) =
      if-elim AllAbout (F.gtb e.priority_metric d.priority_metric) _ _
        (λ h. (first, insert_by_priority-AllAbout d es about all)) (λ h. (about, (first, all)))

  pub sort_by_priority-AllAbout :
      (ds : List (SchedulingDecision F.D)) → AllAbout ds → AllAbout (sort_by_priority F ds)
  unfolding sort_by_priority
  sort_by_priority-AllAbout [] all = tt
  sort_by_priority-AllAbout (d ∷ ds) (about, all) =
      insert_by_priority-AllAbout d (sort_by_priority F ds) about (sort_by_priority-AllAbout ds all)

  -- What holds after every round of the loop.
  record IsAbout (config : CellConfig) (repository : UeRepository F.D) (p : Progress F.D)
      : Type 0 where
    same_config : p.cell.config ≡ config
    same_repository : p.cell.ue_repository ≡ repository
    about : AllAbout p.successful

  round-IsAbout :
      {config : CellConfig} {repository : UeRepository F.D} (now : ℕ) (dl : Bool)
      (d : SchedulingDecision F.D) (p : Progress F.D)
      (r : SchedulingDecision F.D × CellContext F.D × Bool)
      → P (subject d)
      → IsAbout config repository p
      → allocate d p.cell dl ≡ some r
      → IsAbout config repository (note_result now p r)
  unfolding note_result
  round-IsAbout now dl d p (d', cell', true) about ok e =
      let (same, config, repository) = allocate-Keeps d p.cell dl (d', cell', true) e in
      record {
        same_config = config ∙ ok.same_config;
        same_repository = repository ∙ ok.same_repository;
        about = All-append (λ x. P (subject x)) p.successful d' ok.about (subst P (sym same) about);
      }
  round-IsAbout now dl d p (d', cell', false) about ok e =
      let (same, config, repository) = allocate-Keeps d p.cell dl (d', cell', false) e in
      record {
        same_config = config ∙ ok.same_config;
        same_repository = repository ∙ ok.same_repository;
        about = ok.about;
      }

  grant_all-IsAbout :
      {config : CellConfig} {repository : UeRepository F.D} (clock : ℕ → ℕ) (dl : Bool) (limit : ℕ)
      (ds : List (SchedulingDecision F.D)) (p p' : Progress F.D)
      → AllAbout ds
      → IsAbout config repository p
      → grant_all clock limit dl ds p ≡ some p'
      → IsAbout config repository p'
  unfolding grant_all
  grant_all-IsAbout clock dl limit [] p p' all ok e =
      let same : p ≡ p' = some_unique refl e in subst (IsAbout _ _) same ok
  grant_all-IsAbout clock dl limit (d ∷ ds) p p' (about, all) ok e =
      elim (Bool-cases (leb limit (length p.successful))) [
        | inl full ↦
            let same : p ≡ p' = some_unique (rw (full, grant_all) refl) e in
            subst (IsAbout _ _) same ok
        | inr room ↦ elim (Option-cases (allocate d p.cell dl)) [
          | inl undefined ↦ none_some (rw (room, grant_all) (rw (undefined, grant_all) refl)) e
          | inr (r, f) ↦
              let now = clock (length p.successful) in
              grant_all-IsAbout clock dl limit ds (note_result now p r) p' all
                (round-IsAbout now dl d p r about ok f)
                (sym (rw (room, grant_all) (rw (f, grant_all) refl)) ∙ e)
        ]
      ]

module _ (E : Environment) where
  abbrev Result : Type 1
  Result = Engine E × CellContext E.floats.D × List (SchedulingDecision E.floats.D)

  -- The decisions that come out are about what those that went in were about; the cell keeps its
  -- configuration and its UEs, and the engine its cells.
  pub finish_about :
      (P : ℕ × DecisionType × ℕ → Type 0) (clock : Clock) (s : Engine E)
      (cell : CellContext E.floats.D) (dl : Bool) (limit : ℕ)
      (ds : List (SchedulingDecision E.floats.D)) (r : Result)
      → AllAbout E.floats P ds
      → finish E clock s cell dl limit ds ≡ some r
      → AllAbout E.floats P (r.2)
        × ((r.1).config ≡ cell.config)
        × ((r.1).ue_repository ≡ cell.ue_repository)
        × ((r.0).cells ≡ s.cells)
  unfolding finish
  finish_about P clock s cell dl limit ds r all e =
      elim (Option-cases (
        calculate_priorities E.floats s.config s.policy_manager s.slice_orchestrator clock cell dl 0
          s.qos_engine ds)) [
            | inl undefined ↦ none_some (rw (undefined, finish) refl) e
            | inr ((qos, ranked), f) ↦
                let ordered = sort_by_priority E.floats ranked in
                let p0 : Progress E.floats.D = record {
                  cell = cell;
                  policy_manager = s.policy_manager;
                  allocation_failures = s.stats.allocation_failures;
                  successful = [];
                } in
                let about = sort_by_priority-AllAbout E.floats P ranked (
                  calculate_priorities-AllAbout E.floats P s.config s.policy_manager
                    s.slice_orchestrator clock cell dl 0 s.qos_engine ds (qos, ranked) all f) in
                elim (Option-cases (grant_all (clock.history dl) limit dl ordered p0)) [
                  | inl undefined ↦ none_some (rw (f, finish) (rw (undefined, finish) refl)) e
                  | inr (p, g) ↦
                      let result : Result = (
                        record s {
                          qos_engine = qos;
                          policy_manager = p.policy_manager;
                          stats = record s.stats { allocation_failures = p.allocation_failures };
                        },
                        p.cell,
                        p.successful,
                      ) in
                      let same : result ≡ r =
                        some_unique (rw (f, finish) (rw (g, finish) refl)) e in
                      let ok =
                        grant_all-IsAbout E.floats P (clock.history dl) dl limit ordered p0 p about
                          (record { same_config = refl; same_repository = refl; about = tt }) g in
                      subst
                        (λ (x : Result).
                          AllAbout E.floats P (x.2)
                          × ((x.1).config ≡ cell.config)
                          × ((x.1).ue_repository ≡ cell.ue_repository)
                          × ((x.0).cells ≡ s.cells))
                        same (ok.about, ok.same_config, ok.same_repository, refl)
                ]
          ]
