-- ===== src/Engine/Idle/Feedback.antt =====
-- `on_harq_feedback` of scheduler_engine.cpp in the states that an engine gets to.
use nr5g_basic_scheduler.Base.{
  ℕ, ◌≡◌, refl, ap, ◌∙◌, inl, inr, some, get_elem?, set, set_same, Option-cases,
}
use nr5g_basic_scheduler.Base.Table.{lookup, insert, insert_same}
use nr5g_basic_scheduler.Timing.{absolute_slot}
use nr5g_basic_scheduler.Harq.{HarqFeedback}
use nr5g_basic_scheduler.Ue.{UeContext, UeRepository, find_by_rnti}
use nr5g_basic_scheduler.Cell.{CellContext}
use nr5g_basic_scheduler.Engine.Tracker.{get_all_for_slot}
use nr5g_basic_scheduler.Engine.State.{Environment, Engine}
use nr5g_basic_scheduler.Engine.Changes.{set_ue, match_feedback}
use nr5g_basic_scheduler.Engine.Events.{in_cell, change_ue, on_harq_feedback}
use nr5g_basic_scheduler.Engine.Idle.{IsIdleUe}
use nr5g_basic_scheduler.Engine.Idle.Handling.{process_harq_feedback-IsIdleUe}
use nr5g_basic_scheduler.Engine.Idle.Reaching.{Reached, AllIdle-Reached}

module _ (E : Environment) where
  change_ue_same :
      (rnti : ℕ) (f : UeContext E.floats.D → UeContext E.floats.D) (r : UeRepository E.floats.D)
      → ((p : ℕ) (ue : UeContext E.floats.D) → get_elem? r.heap p ≡ some ue → f ue ≡ ue)
      → change_ue E rnti f r ≡ r
  unfolding change_ue set_ue
  change_ue_same rnti f r same = elim (Option-cases (find_by_rnti r rnti)) [
    | inl gone ↦ rw (gone, change_ue) refl
    | inr (p, here) ↦ elim (Option-cases (get_elem? r.heap p)) [
      | inl gone ↦ rw (here, change_ue) (rw (gone, change_ue) refl)
      | inr (ue, found) ↦
          rw (here, change_ue)
            (rw (found, change_ue)
              (ap (λ heap. record r { heap = heap })
                (ap (set r.heap p) (same p ue found) ∙ set_same r.heap p ue found)))
    ]
  ]

  in_cell_same :
      (s : Engine E) (cell_id : ℕ) (f : UeRepository E.floats.D → UeRepository E.floats.D)
      → ((cell : CellContext E.floats.D)
          → lookup cell_id s.cells ≡ some cell
          → f cell.ue_repository ≡ cell.ue_repository)
      → (in_cell E s cell_id f).cells ≡ s.cells
  unfolding in_cell
  in_cell_same s cell_id f same = elim (Option-cases (lookup cell_id s.cells)) [
    | inl gone ↦ rw (gone, in_cell) refl
    | inr (cell, here) ↦
        rw (here, in_cell)
          (ap (λ r. insert cell_id (record cell { ue_repository = r }) s.cells) (same cell here)
            ∙ insert_same cell_id cell s.cells here)
  ]

  -- In every state that an engine gets to, HARQ feedback of any kind, positive or negative, leaves all
  -- cells with all their UEs and HARQ processes as they were, if a new UE has idle processes.
  pub on_harq_feedback_ignored :
      (s : Engine E) (cell_id : ℕ) (feedback : HarqFeedback)
      → IsIdleUe E.blank_ue
      → Reached E s
      → (on_harq_feedback E s cell_id feedback).cells ≡ s.cells
  unfolding on_harq_feedback
  on_harq_feedback_ignored s cell_id feedback fresh reached =
      let ok = AllIdle-Reached E s fresh reached in
      let slot = absolute_slot feedback.feedback_time in
      elim (Option-cases
        (match_feedback s.cells cell_id feedback.harq_id (get_all_for_slot s.harq_tracker slot))) [
          | inl nothing ↦ rw (nothing, on_harq_feedback) refl
          | inr (p, found) ↦
              rw (found, on_harq_feedback)
                (in_cell_same s cell_id _ λ cell here.
                  change_ue_same p.rnti _ cell.ue_repository λ i ue at.
                    process_harq_feedback-IsIdleUe ue p.is_downlink feedback
                      (ok cell_id cell here i ue at))
        ]
