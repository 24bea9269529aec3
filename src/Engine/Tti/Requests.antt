-- ===== src/Engine/Tti/Requests.antt =====
-- `build_dl_tti_request` of scheduler_engine.cpp: what it sends and what it waits for.
use nr5g_basic_scheduler.Base.{
  ℕ, ◌+◌, ◌^◌, ◌<◌, ◌≡◌, refl, sym, ap, ◌∙◌, subst, inl, inr, true, ltb, ◌==◌, some, List, [], ◌∷◌,
  ◌++◌, map, arith, Bool-cases, if-elim, ◌%◌,
}
use nr5g_basic_scheduler.Base.Table.{Table, lookup}
use nr5g_basic_scheduler.Timing.{FrameTiming, absolute_slot, advanced}
use nr5g_basic_scheduler.Ue.{UeContext}
use nr5g_basic_scheduler.Cell.{CellContext}
use nr5g_basic_scheduler.Phy.{PdschPdu, DlTtiRequest}
use nr5g_basic_scheduler.Engine.Tracker.{
  PendingFeedback, HarqTimingTracker, push, drop_old, register_pending, get_all_for_slot,
}
use nr5g_basic_scheduler.Engine.Routing.{
  IsAbove, IsSorted, entries_of, get_all_lem, lookup-push, lookup-drop_old,
}
use nr5g_basic_scheduler.Engine.Types.{SchedulingDecision, find_ue}
use nr5g_basic_scheduler.Engine.Schedule.Liveness.{AreFound}
use nr5g_basic_scheduler.Engine.State.{Environment, Engine, dl_to_phy, dl_result}
use nr5g_basic_scheduler.Engine.Changes.{match_feedback}
use nr5g_basic_scheduler.Engine.Tti.{
  pdsch_of, feedback_for, Built, add_pdsch, add_all, call_if, k1_offset, build_dl_tti_request,
}

push-IsAbove :
    (k slot : ℕ) (info : PendingFeedback) (t : HarqTimingTracker)
    → IsAbove k t
    → k < slot
    → IsAbove k (push slot info t)
unfolding push
push-IsAbove k slot info [] above h = (h, tt)
push-IsAbove k slot info ((j, entries) ∷ t) (l, above) h =
    if-elim (IsAbove k) (j == slot) _ _ (λ _. (l, above))
      λ _.
        if-elim (IsAbove k) (ltb slot j) _ _ (λ _. (h, (l, above)))
          (λ _. (l, push-IsAbove k slot info t above h))

IsAbove-lower : (k j : ℕ) (t : HarqTimingTracker) → k < j → IsAbove j t → IsAbove k t
IsAbove-lower k j [] h above = tt
IsAbove-lower k j ((i, entries) ∷ t) h (l, above) = (omega arith, IsAbove-lower k j t h above)

push-IsSorted :
    (slot : ℕ) (info : PendingFeedback) (t : HarqTimingTracker)
    → IsSorted t
    → IsSorted (push slot info t)
unfolding push
push-IsSorted slot info [] sorted = (tt, tt)
push-IsSorted slot info ((j, entries) ∷ t) (above, sorted) = elim (Bool-cases (j == slot)) [
  | inl here ↦ rw here (above, sorted)
  | inr other ↦ elim (Bool-cases (ltb slot j)) [
    | inl before ↦
        let less : slot < j = ground arith in
        rw (other, before) ((less, IsAbove-lower slot j t less above), (above, sorted))
    | inr behind ↦
        rw (other, behind)
          (push-IsAbove j slot info t above (ground arith), push-IsSorted slot info t sorted)
  ]
]

drop_old-IsSorted : (slot : ℕ) (t : HarqTimingTracker) → IsSorted t → IsSorted (drop_old slot t)
unfolding drop_old
drop_old-IsSorted slot [] sorted = tt
drop_old-IsSorted slot ((j, entries) ∷ t) (above, sorted) =
    if-elim IsSorted (ltb ((j + 100) % 2 ^ 32) slot) _ _ (λ _. drop_old-IsSorted slot t sorted)
      (λ _. (above, sorted))

-- A registration is put behind the others of its slot.
register_pending-IsSorted :
    (t : HarqTimingTracker) (slot : ℕ) (info : PendingFeedback)
    → IsSorted t
    → IsSorted (register_pending t slot info)
unfolding register_pending
register_pending-IsSorted t slot info sorted =
    drop_old-IsSorted slot (push slot info t) (push-IsSorted slot info t sorted)

get_all-register_pending :
    (t : HarqTimingTracker) (slot : ℕ) (info : PendingFeedback)
    → IsSorted t
    → slot + 100 < 2 ^ 32
    → get_all_for_slot (register_pending t slot info) slot ≡ get_all_for_slot t slot ++ info ∷ []
unfolding register_pending
get_all-register_pending t slot info sorted fits =
    get_all_lem (drop_old slot (push slot info t)) slot
    ∙ ap entries_of (lookup-drop_old slot (push slot info t) fits ∙ lookup-push slot info t sorted)
    ∙ ap (λ es. es ++ info ∷ []) (sym (get_all_lem t slot))

append_nil : {A : Type 0} (xs : List A) → xs ++ [] ≡ xs
append_nil [] = refl
append_nil (x ∷ xs) = ap (λ t. x ∷ t) (append_nil xs)

append_assoc :
    {A : Type 0} (xs : List A) (y : A) (ys : List A) → (xs ++ y ∷ []) ++ ys ≡ xs ++ y ∷ ys
append_assoc [] y ys = refl
append_assoc (x ∷ xs) y ys = ap (λ t. x ∷ t) (append_assoc xs y ys)

module _ {D : Type 0} (blank : PdschPdu) (cell : CellContext D) (timing : FrameTiming) where
  abbrev feedback_slot : ℕ
  feedback_slot = absolute_slot (advanced timing k1_offset)

  -- The loop over the decisions.
  add_all_lem :
      (ds : List (SchedulingDecision D)) (b : Built PdschPdu D)
      → AreFound cell ds
      → IsSorted b.tracker
      → feedback_slot + 100 < 2 ^ 32
      → let b' = add_all (add_pdsch blank cell timing) ds b in
        (b'.pdus ≡ b.pdus ++ map (pdsch_of blank) ds)
        × (get_all_for_slot b'.tracker feedback_slot
            ≡ get_all_for_slot b.tracker feedback_slot
              ++ map (feedback_for cell.config.cell_id true timing) ds)
  unfolding add_all add_pdsch
  add_all_lem [] b known sorted fits =
      (sym (append_nil b.pdus), sym (append_nil (get_all_for_slot b.tracker feedback_slot)))
  add_all_lem (d ∷ ds) b ((ue, found), known) sorted fits =
      let info = feedback_for cell.config.cell_id true timing d in
      let b1 = add_pdsch blank cell timing d b in
      let grown : b1.pdus ≡ b.pdus ++ pdsch_of blank d ∷ [] = rw (found, add_pdsch) refl in
      let pending : b1.tracker ≡ register_pending b.tracker feedback_slot info =
        rw (found, add_pdsch) refl in
      let (sent, awaited) =
        add_all_lem ds b1 known
          (subst IsSorted (sym pending)
            (register_pending-IsSorted b.tracker feedback_slot info sorted))
          fits in
      (
        sent
            ∙ ap (λ xs. xs ++ map (pdsch_of blank) ds) grown
            ∙ append_assoc b.pdus (pdsch_of blank d) (map (pdsch_of blank) ds),
        awaited
            ∙ ap (λ xs. xs ++ map (feedback_for cell.config.cell_id true timing) ds)
                (ap (λ t. get_all_for_slot t feedback_slot) pending
                  ∙ get_all-register_pending b.tracker feedback_slot info sorted fits)
            ∙ append_assoc (get_all_for_slot b.tracker feedback_slot) info
                (map (feedback_for cell.config.cell_id true timing) ds),
      )

module _ (E : Environment) where
  -- For decisions about UEs of the cell and slots that stay 100 below the end of the 32-bit numbers,
  -- the downlink request has one block for each decision, in their order, for the slot of the cell; the
  -- PHY gets it first, then the callback, each if it is there; and in the fourth slot after it the
  -- feedback for each decision is awaited, in their order and behind what was awaited before.
  pub build_dl_tti_request_pending :
      (s : Engine E) (cell : CellContext E.floats.D) (ds : List (SchedulingDecision E.floats.D))
      → AreFound cell ds
      → IsSorted s.harq_tracker
      → feedback_slot E.blank_pdsch cell cell.current_slot.timing + 100 < 2 ^ 32
      → let s' = (build_dl_tti_request E s cell ds).0 in
        let timing = cell.current_slot.timing in
        let cell_id = cell.config.cell_id in
        let request : DlTtiRequest = record {
          timing = timing;
          cell_id = cell_id;
          pdcch_pdus = [];
          pdsch_pdus = map (pdsch_of E.blank_pdsch) ds;
          csirs_pdus = [];
          ssb_pdus = [];
        } in
        (s'.outputs
          ≡ call_if s.dl_result_callback
              (dl_result cell_id request)
              (call_if s.phy_interface (dl_to_phy request) s.outputs))
        × (get_all_for_slot s'.harq_tracker (absolute_slot (advanced timing 4))
            ≡ get_all_for_slot s.harq_tracker (absolute_slot (advanced timing 4))
              ++ map (feedback_for cell_id true timing) ds)
  unfolding build_dl_tti_request
  build_dl_tti_request_pending s cell ds known sorted fits =
      let timing = cell.current_slot.timing in
      let cell_id = cell.config.cell_id in
      let (sent, awaited) =
        add_all_lem E.blank_pdsch cell timing ds
          (record {
            pdus = [];
            tracker = s.harq_tracker;
            stats = s.stats;
            slot = cell.current_slot;
          })
          known sorted fits in
      (
        ap
            (λ pdus.
              let request : DlTtiRequest = record {
                timing = timing;
                cell_id = cell_id;
                pdcch_pdus = [];
                pdsch_pdus = pdus;
                csirs_pdus = [];
                ssb_pdus = [];
              } in
              call_if s.dl_result_callback (dl_result cell_id request)
                (call_if s.phy_interface (dl_to_phy request) s.outputs))
            sent,
        awaited,
      )

  match_feedback_head :
      (cells : Table (CellContext E.floats.D)) (cell : CellContext E.floats.D)
      (ue : UeContext E.floats.D) (p : PendingFeedback) (ps : List PendingFeedback)
      → lookup p.cell_id cells ≡ some cell
      → find_ue cell.ue_repository p.rnti ≡ some ue
      → match_feedback cells p.cell_id p.harq_id (p ∷ ps) ≡ some p
  unfolding match_feedback
  match_feedback_head cells cell ue p ps here found =
      let own_cell : (p.cell_id == p.cell_id) ≡ true = ground arith in
      let own_process : (p.harq_id == p.harq_id) ≡ true = ground arith in
      rw (own_cell, own_process) (rw (here, match_feedback) (rw (found, match_feedback) refl))

  -- For the decisions of a slot whose feedback nothing else awaits, all about UEs of the cell, any
  -- feedback in that slot for the first decision's process number is taken for the first decision's UE,
  -- whichever of the other UEs was sent a block with that number too.
  pub match_feedback_first :
      (s : Engine E) (cell : CellContext E.floats.D) (d : SchedulingDecision E.floats.D)
      (ds : List (SchedulingDecision E.floats.D))
      → AreFound cell (d ∷ ds)
      → IsSorted s.harq_tracker
      → feedback_slot E.blank_pdsch cell cell.current_slot.timing + 100 < 2 ^ 32
      → get_all_for_slot s.harq_tracker (absolute_slot (advanced cell.current_slot.timing 4)) ≡ []
      → lookup cell.config.cell_id s.cells ≡ some cell
      → let s' = (build_dl_tti_request E s cell (d ∷ ds)).0 in
        let timing = cell.current_slot.timing in
        match_feedback s.cells cell.config.cell_id d.harq_id
          (get_all_for_slot s'.harq_tracker (absolute_slot (advanced timing 4)))
        ≡ some (feedback_for cell.config.cell_id true timing d)
  unfolding feedback_for
  match_feedback_first s cell d ds known sorted fits nothing here =
      let timing = cell.current_slot.timing in
      let (_, awaited) = build_dl_tti_request_pending s cell (d ∷ ds) known sorted fits in
      let ((ue, found), _) = known in
      ap (match_feedback s.cells cell.config.cell_id d.harq_id) (
        awaited
        ∙ ap (λ xs. xs ++ map (feedback_for cell.config.cell_id true timing) (d ∷ ds)) nothing)
      ∙ match_feedback_head s.cells cell ue (feedback_for cell.config.cell_id true timing d)
          (map (feedback_for cell.config.cell_id true timing) ds) here found
