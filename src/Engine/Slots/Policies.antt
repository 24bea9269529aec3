-- ===== src/Engine/Slots/Policies.antt =====
-- `schedule_dl` and `schedule_ul` of scheduler_engine.cpp change the state of the policy, not the
-- policy.
use nr5g_basic_scheduler.Base.{
  ℕ, ◌≡◌, refl, sym, ap, ◌∙◌, inl, inr, Bool, true, false, leb, some, none, List, [], ◌∷◌, length,
  if-elim, step-elim, Option-cases, some_unique, none_some,
}
use nr5g_basic_scheduler.Cell.{CellContext}
use nr5g_basic_scheduler.Engine.Types.{SchedulingDecision, find_ue}
use nr5g_basic_scheduler.Engine.Allocator.{allocate}
use nr5g_basic_scheduler.Engine.Policy.{PolicyObject}
use nr5g_basic_scheduler.Engine.State.{Environment, Clock, Engine}
use nr5g_basic_scheduler.Engine.Schedule.{
  calculate_priorities, sort_by_priority, Progress, note_history, note_result, grant_all, finish,
  schedule_dl, schedule_ul,
}
use nr5g_basic_scheduler.Engine.Schedule.Safety.{Result, schedule}

module _ {D : Type 0} where
  note_history_methods :
      (now : ℕ) (cell : CellContext D) (d : SchedulingDecision D) (policy : PolicyObject D)
      → (note_history now cell d policy).methods ≡ policy.methods
  unfolding note_history
  note_history_methods now cell d policy = elim (Option-cases (find_ue cell.ue_repository d.rnti)) [
    | inl gone ↦ rw (gone, note_history) refl
    | inr (ue, found) ↦ rw (found, note_history) refl
  ]

  note_result_methods :
      (now : ℕ) (p : Progress D) (r : SchedulingDecision D × CellContext D × Bool)
      → (note_result now p r).policy_manager.methods ≡ p.policy_manager.methods
  unfolding note_result
  note_result_methods now p (d, cell, true) = note_history_methods now cell d p.policy_manager
  note_result_methods now p (d, cell, false) = refl

  grant_all_methods :
      (clock : ℕ → ℕ) (limit : ℕ) (dl : Bool) (ds : List (SchedulingDecision D)) (p p' : Progress D)
      → grant_all clock limit dl ds p ≡ some p'
      → p'.policy_manager.methods ≡ p.policy_manager.methods
  unfolding grant_all
  grant_all_methods clock limit dl [] p p' =
      λ e. ap (λ (q : Progress D). q.policy_manager.methods) (sym (some_unique refl e))
  grant_all_methods clock limit dl (d ∷ ds) p p' =
      if-elim (λ o. o ≡ some p' → p'.policy_manager.methods ≡ p.policy_manager.methods)
        (leb limit (length p.successful)) _ _
        (λ _ e. ap (λ (q : Progress D). q.policy_manager.methods) (sym (some_unique refl e)))
        λ _.
          step-elim (λ q. q.policy_manager.methods ≡ p.policy_manager.methods)
            (allocate d p.cell dl) none _ p' (λ _ e. none_some refl e)
            (λ r f e.
              grant_all_methods clock limit dl ds (note_result (clock (length p.successful)) p r) p'
                e
              ∙ note_result_methods (clock (length p.successful)) p r)

module _ (E : Environment) where
  finish_methods :
      (clock : Clock) (s : Engine E) (cell : CellContext E.floats.D) (dl : Bool) (limit : ℕ)
      (decisions : List (SchedulingDecision E.floats.D)) (r : Result E)
      → finish E clock s cell dl limit decisions ≡ some r
      → (r.0).policy_manager.methods ≡ s.policy_manager.methods
  unfolding finish
  finish_methods clock s cell dl limit decisions r =
      step-elim (λ (x : Result E). (x.0).policy_manager.methods ≡ s.policy_manager.methods)
        (calculate_priorities E.floats s.config s.policy_manager s.slice_orchestrator clock cell dl
          0 s.qos_engine decisions)
        none _ r (λ _ e. none_some refl e)
        λ ranked f.
          step-elim (λ (x : Result E). (x.0).policy_manager.methods ≡ s.policy_manager.methods)
            (grant_all (clock.history dl) limit dl (sort_by_priority E.floats (ranked.1)) (record {
              cell = cell;
              policy_manager = s.policy_manager;
              allocation_failures = s.stats.allocation_failures;
              successful = [];
            }))
            none _ r (λ _ e. none_some refl e)
            (λ p g e.
              ap (λ (x : Result E). (x.0).policy_manager.methods) (sym (some_unique refl e))
              ∙ grant_all_methods (clock.history dl) limit dl (sort_by_priority E.floats (ranked.1))
                  _ p g)

  pub schedule_methods :
      (clock : Clock) (s : Engine E) (cell : CellContext E.floats.D) (dl : Bool) (r : Result E)
      → schedule E dl clock s cell ≡ some r
      → (r.0).policy_manager.methods ≡ s.policy_manager.methods
  unfolding schedule_dl schedule_ul
  schedule_methods clock s cell true r e = finish_methods clock s cell true _ _ r e
  schedule_methods clock s cell false r e = finish_methods clock s cell false _ _ r e
