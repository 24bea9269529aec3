-- ===== src/Engine/Idle/Deciding.antt =====
-- `schedule_dl` and `schedule_ul` of scheduler_engine.cpp, for UEs whose HARQ processes are idle.
use nr5g_basic_scheduler.Base.{
  ℕ, suc, ◌+◌, ◌≡◌, refl, sym, ap, ◌∙◌, inl, inr, Bool, true, false, not, max, ◌&&◌, ◌==◌, some,
  none, List, [], ◌∷◌, All, get_elem?, arith, Bool-cases, some_unique, none_some,
}
use nr5g_basic_scheduler.Harq.{
  HarqState, idle, pending, nack_received, complete, Process, HarqEntity, is_idle, is_nack_received,
  retx_from, get_retx_process, free_from, get_free_process,
}
use nr5g_basic_scheduler.Ue.{UeContext, total_dl_buffer, total_ul_buffer}
use nr5g_basic_scheduler.Cell.{CellContext}
use nr5g_basic_scheduler.Engine.Types.{DecisionType, new_tx, SchedulerConfig, SchedulingDecision}
use nr5g_basic_scheduler.Engine.Allocator.Keeping.{subject}
use nr5g_basic_scheduler.Engine.State.{Environment, Clock, Engine}
use nr5g_basic_scheduler.Engine.Eligible.{
  harq_of, retx_decision, new_decision, dl_decision, ul_decision,
}
use nr5g_basic_scheduler.Engine.Schedule.Choosing.{decide, IsChosen, schedule-IsChosen}
use nr5g_basic_scheduler.Engine.Schedule.Safety.{schedule}
use nr5g_basic_scheduler.Engine.Idle.{IsIdle, IsIdleUe, AreIdle}

not_nack : (s : HarqState) → is_idle s ≡ true → is_nack_received s ≡ false
not_nack idle h = refl
not_nack pending h = cc
not_nack nack_received h = cc
not_nack complete h = cc

retx_from_idle :
    (i : ℕ) (e : List Process)
    → ((j : ℕ) (p : Process) → get_elem? e j ≡ some p → is_idle p.state ≡ true)
    → retx_from i none e ≡ none
unfolding retx_from
retx_from_idle i [] all = refl
retx_from_idle i (p ∷ ps) all =
    rw (not_nack p.state (all 0 p refl)) (retx_from_idle (i + 1) ps (λ j q at. all (suc j) q at))

-- An idle entity has nothing to retransmit, and its first process is free.
pub get_retx_process_idle : (e : HarqEntity) → IsIdle e → get_retx_process e ≡ none
unfolding get_retx_process
get_retx_process_idle e ok = retx_from_idle 0 e ok.idle

get_free_process_idle :
    (e : HarqEntity)
    → IsIdle e
    → (p : Process) × (get_free_process e ≡ some 0) × (get_elem? e 0 ≡ some p) × (p.id ≡ 0)
unfolding get_free_process free_from
get_free_process_idle [] ok = let size = ok.entity.size in absurd (omega arith)
get_free_process_idle (p ∷ ps) ok =
    (p, rw (ok.idle 0 p refl) refl, refl, ok.entity.indexed 0 p refl)

harq_of-IsIdle : {D : Type 0} (dl : Bool) (ue : UeContext D) → IsIdleUe ue → IsIdle (harq_of dl ue)
harq_of-IsIdle true ue (down, up) = down
harq_of-IsIdle false ue (down, up) = up

module _ {D : Type 0} (blank : SchedulingDecision D) (config : SchedulerConfig D) (ue : UeContext D)
    (ok : IsIdleUe ue) where
  -- New data, in process 0.
  abbrev IsNew : SchedulingDecision D → Type 0
  IsNew d = (d.type ≡ new_tx) × (d.harq_id ≡ 0)

  new_decision_idle :
      (dl : Bool) (bytes : ℕ) (d : SchedulingDecision D)
      → new_decision blank dl ue bytes ≡ some d
      → IsNew d
  unfolding new_decision
  new_decision_idle dl bytes d e =
      let (p, free, first, named) =
        get_free_process_idle (harq_of dl ue) (harq_of-IsIdle dl ue ok) in
      let made : SchedulingDecision D = record blank {
        rnti = ue.rnti;
        type = new_tx;
        harq_id = p.id;
        buffer_bytes = bytes;
      } in
      let same : made ≡ d =
        some_unique (rw (free, new_decision) (rw (first, new_decision) refl)) e in
      (
        ap (λ (x : SchedulingDecision D). x.type) (sym same),
        ap (λ (x : SchedulingDecision D). x.harq_id) (sym same) ∙ named,
      )

  retx_decision_idle : (dl : Bool) → retx_decision blank config dl ue ≡ none
  unfolding retx_decision
  retx_decision_idle dl =
      let nothing = get_retx_process_idle (harq_of dl ue) (harq_of-IsIdle dl ue ok) in
      rw (nothing, retx_decision) refl

  -- What is decided for an idle UE.
  pub decide_idle :
      (dl : Bool) (d : SchedulingDecision D) → decide blank config dl ue ≡ some d → IsNew d
  unfolding dl_decision ul_decision
  decide_idle true d e = elim (Bool-cases (total_dl_buffer ue == 0)) [
    | inl empty ↦
        none_some (rw (retx_decision_idle true, dl_decision) (rw (empty, dl_decision) refl)) e
    | inr full ↦
        new_decision_idle true (total_dl_buffer ue) d
          (sym (rw (retx_decision_idle true, dl_decision) (rw (full, dl_decision) refl)) ∙ e)
  ]
  decide_idle false d e =
      elim (Bool-cases (total_ul_buffer ue == 0 && not ue.ul_buffer_status.sr_pending)) [
        | inl empty ↦
            none_some (rw (retx_decision_idle false, ul_decision) (rw (empty, ul_decision) refl)) e
        | inr full ↦
            new_decision_idle false (max (total_ul_buffer ue) 100) d
              (sym (rw (retx_decision_idle false, ul_decision) (rw (full, ul_decision) refl)) ∙ e)
      ]

module _ (E : Environment) where
  -- Where the scheduling of one direction of a cell returns, all of whose UEs have idle HARQ
  -- processes, every decision is for new data and names process 0.
  pub schedule_idle :
      (clock : Clock) (s : Engine E) (cell : CellContext E.floats.D) (dl : Bool) (s' : Engine E)
      (cell' : CellContext E.floats.D) (ds : List (SchedulingDecision E.floats.D))
      → AreIdle cell.ue_repository
      → schedule E dl clock s cell ≡ some (s', cell', ds)
      → All (λ d. (d.type ≡ new_tx) × (d.harq_id ≡ 0)) ds
  schedule_idle clock s cell dl s' cell' ds idle_ues e =
      each ds ((schedule-IsChosen E clock s cell dl s' cell' ds e).0)
    where
      one :
          (d : SchedulingDecision E.floats.D)
          → IsChosen E.blank_decision s.config s.slice_orchestrator cell dl (subject d)
          → (d.type ≡ new_tx) × (d.harq_id ≡ 0)
      one d c =
          let (new, first) =
            decide_idle E.blank_decision s.config c.ue (idle_ues c.address c.ue c.present) dl
              c.decision c.decided in
          (
            sym (ap (λ (x : ℕ × DecisionType × ℕ). x.1) c.subject_is) ∙ new,
            sym (ap (λ (x : ℕ × DecisionType × ℕ). x.2) c.subject_is) ∙ first,
          )

      each :
          (ds : List (SchedulingDecision E.floats.D))
          → All
              (λ d. IsChosen E.blank_decision s.config s.slice_orchestrator cell dl (subject d))
              ds
          → All (λ d. (d.type ≡ new_tx) × (d.harq_id ≡ 0)) ds
      each [] all = tt
      each (d ∷ ds) (c, all) = (one d c, each ds all)
