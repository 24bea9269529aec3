-- ===== src/Engine/Idle/Handling.antt =====
-- The handlers of scheduler_engine.cpp keep all HARQ processes idle.
use nr5g_basic_scheduler.Base.{
  ℕ, ◌≡◌, refl, sym, ap, subst, inl, inr, Bool, true, false, get_elem?, get_elem?-set_cases,
  get_elem?-append_cases, Option-cases,
}
use nr5g_basic_scheduler.Base.Table.{lookup, lookup-insert_cases}
use nr5g_basic_scheduler.Harq.{
  HarqEntity, HarqFeedback, process_feedback, is_idle, is_pending, HarqState, idle, pending,
  nack_received, complete,
}
use nr5g_basic_scheduler.Harq.Feedback.{process_feedback_idle}
use nr5g_basic_scheduler.Ue.{
  UeContext, UeRepository, create_ue, remove_ue, find_by_rnti, process_harq_feedback,
}
use nr5g_basic_scheduler.Cell.{CellContext}
use nr5g_basic_scheduler.Mac.{UeConfigRequest}
use nr5g_basic_scheduler.Engine.State.{Environment, Engine}
use nr5g_basic_scheduler.Engine.Changes.{set_ue, configured}
use nr5g_basic_scheduler.Engine.Events.{in_cell, change_ue, create_configured}
use nr5g_basic_scheduler.Engine.Idle.{IsIdle, IsIdleUe, AreIdle, AllIdle}

not_pending : (s : HarqState) → is_idle s ≡ true → is_pending s ≡ false
not_pending idle h = refl
not_pending pending h = cc
not_pending nack_received h = refl
not_pending complete h = refl

-- Feedback changes nothing in an idle entity, nor in a UE of idle entities.
process_feedback-IsIdle :
    (e : HarqEntity) (fb : HarqFeedback) → IsIdle e → process_feedback e fb ≡ e
process_feedback-IsIdle e fb ok =
    process_feedback_idle e fb ok.entity.size (λ i p at. not_pending p.state (ok.idle i p at))

pub process_harq_feedback-IsIdleUe :
    {D : Type 0} (ue : UeContext D) (dl : Bool) (fb : HarqFeedback)
    → IsIdleUe ue
    → process_harq_feedback ue dl fb ≡ ue
unfolding process_harq_feedback
process_harq_feedback-IsIdleUe ue true fb (down, up) =
    ap (λ e. record ue { dl_harq = e }) (process_feedback-IsIdle ue.dl_harq fb down)
process_harq_feedback-IsIdleUe ue false fb (down, up) =
    ap (λ e. record ue { ul_harq = e }) (process_feedback-IsIdle ue.ul_harq fb up)

module _ {D : Type 0} where
  -- Two UEs with the same HARQ entities.
  abbrev pub IsAlike : UeContext D → UeContext D → Type 0
  IsAlike ue ue' = (ue'.dl_harq ≡ ue.dl_harq) × (ue'.ul_harq ≡ ue.ul_harq)

  pub IsAlike-IsIdleUe : (ue ue' : UeContext D) → IsAlike ue ue' → IsIdleUe ue → IsIdleUe ue'
  IsAlike-IsIdleUe ue ue' (down, up) (idle_down, idle_up) =
      (subst IsIdle (sym down) idle_down, subst IsIdle (sym up) idle_up)

  set_ue-AreIdle :
      (r : UeRepository D) (p : ℕ) (ue : UeContext D)
      → AreIdle r
      → IsIdleUe ue
      → AreIdle (set_ue r p ue)
  unfolding set_ue
  set_ue-AreIdle r p ue ok idle_ue q v at = elim (get_elem?-set_cases r.heap p q ue v at) [
    | inl here ↦ subst IsIdleUe (sym here) idle_ue
    | inr other ↦ ok q v other
  ]

  pub remove_ue-AreIdle : (r : UeRepository D) (rnti : ℕ) → AreIdle r → AreIdle (remove_ue r rnti)
  unfolding remove_ue
  remove_ue-AreIdle r rnti ok = elim (Option-cases (lookup rnti r.ue_by_rnti)) [
    | inl gone ↦ rw (gone, remove_ue) ok
    | inr (p, here) ↦ elim (Option-cases (get_elem? r.heap p)) [
      | inl gone ↦ rw (here, remove_ue) (rw (gone, remove_ue) ok)
      | inr (ue, found) ↦ rw (here, remove_ue) (rw (found, remove_ue) ok)
    ]
  ]

module _ (E : Environment) where
  change_ue-AreIdle :
      (rnti : ℕ) (f : UeContext E.floats.D → UeContext E.floats.D) (r : UeRepository E.floats.D)
      → ((ue : UeContext E.floats.D) → IsIdleUe ue → IsIdleUe (f ue))
      → AreIdle r
      → AreIdle (change_ue E rnti f r)
  unfolding change_ue
  change_ue-AreIdle rnti f r keeps ok = elim (Option-cases (find_by_rnti r rnti)) [
    | inl gone ↦ rw (gone, change_ue) ok
    | inr (p, here) ↦ elim (Option-cases (get_elem? r.heap p)) [
      | inl gone ↦ rw (here, change_ue) (rw (gone, change_ue) ok)
      | inr (ue, found) ↦
          rw (here, change_ue)
            (rw (found, change_ue) (set_ue-AreIdle r p (f ue) ok (keeps ue (ok p ue found))))
    ]
  ]

  create_ue-AreIdle :
      (r : UeRepository E.floats.D) (rnti : ℕ)
      → IsIdleUe E.blank_ue
      → AreIdle r
      → AreIdle ((create_ue E.blank_ue r rnti).0)
  unfolding create_ue
  create_ue-AreIdle r rnti fresh ok p ue at = elim (get_elem?-append_cases r.heap _ p ue at) [
    | inl new ↦ subst IsIdleUe (sym new) fresh
    | inr old ↦ ok p ue old
  ]

  pub create_configured-AreIdle :
      (config : UeConfigRequest E.floats.D) (r : UeRepository E.floats.D)
      → IsIdleUe E.blank_ue
      → AreIdle r
      → AreIdle (create_configured E config r)
  unfolding create_configured configured
  create_configured-AreIdle config r fresh ok =
      let made = create_ue E.blank_ue r config.rnti in
      let idle_made = create_ue-AreIdle r config.rnti fresh ok in
      elim (Option-cases (get_elem? ((made.0).heap) (made.1))) [
        | inl gone ↦ rw (gone, create_configured) idle_made
        | inr (ue, found) ↦
            rw (found, create_configured)
              (set_ue-AreIdle (made.0) (made.1) (configured config ue) idle_made
                (idle_made (made.1) ue found))
      ]

  -- A change to a repository that keeps it idle keeps all cells so.
  pub in_cell-AllIdle :
      (s : Engine E) (cell_id : ℕ) (f : UeRepository E.floats.D → UeRepository E.floats.D)
      → ((r : UeRepository E.floats.D) → AreIdle r → AreIdle (f r))
      → AllIdle s
      → AllIdle (in_cell E s cell_id f)
  unfolding in_cell
  in_cell-AllIdle s cell_id f keeps ok = elim (Option-cases (lookup cell_id s.cells)) [
    | inl gone ↦ rw (gone, in_cell) ok
    | inr (cell, here) ↦
        rw (here, in_cell)
          λ k c e.
            elim (lookup-insert_cases cell_id k
              (record cell { ue_repository = f cell.ue_repository }) c s.cells e) [
                | inl new ↦
                    subst (λ (x : CellContext E.floats.D). AreIdle x.ue_repository) (sym new)
                      (keeps cell.ue_repository (ok cell_id cell here))
                | inr old ↦ ok k c old
              ]
  ]

  -- A change of UEs that leaves their HARQ entities alone.
  pub change_in_cell-AllIdle :
      (s : Engine E) (cell_id rnti : ℕ) (f : UeContext E.floats.D → UeContext E.floats.D)
      → ((ue : UeContext E.floats.D) → IsIdleUe ue → IsIdleUe (f ue))
      → AllIdle s
      → AllIdle (in_cell E s cell_id (change_ue E rnti f))
  change_in_cell-AllIdle s cell_id rnti f keeps ok =
      in_cell-AllIdle s cell_id (change_ue E rnti f) (λ r. change_ue-AreIdle rnti f r keeps) ok
