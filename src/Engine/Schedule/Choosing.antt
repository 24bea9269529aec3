-- ===== src/Engine/Schedule/Choosing.antt =====
-- `get_eligible_ues` and the first loop of `schedule_dl` and `schedule_ul` of scheduler_engine.cpp: for
-- whom the decisions are.
use nr5g_basic_scheduler.Base.{
  ℕ, ◌≡◌, refl, inl, inr, Bool, true, false, Option, some, List, [], ◌∷◌, All, get_elem?, arith,
  if-elim, Option-cases,
}
use nr5g_basic_scheduler.Base.Table.{Table}
use nr5g_basic_scheduler.Slice.{Orchestrator}
use nr5g_basic_scheduler.Slice.Watch.{is_scheduling_allowed}
use nr5g_basic_scheduler.Ue.{UeContext, is_in_active_time}
use nr5g_basic_scheduler.Cell.{CellContext}
use nr5g_basic_scheduler.Engine.Types.{DecisionType, SchedulerConfig, SchedulingDecision}
use nr5g_basic_scheduler.Engine.Allocator.Keeping.{subject}
use nr5g_basic_scheduler.Engine.State.{Environment, Clock, Engine}
use nr5g_basic_scheduler.Engine.Eligible.{
  ues_at, has_work, is_eligible, keep_eligible, get_eligible_ues, dl_decision, ul_decision,
  decisions_of,
}
use nr5g_basic_scheduler.Engine.Schedule.{schedule_dl, schedule_ul}
use nr5g_basic_scheduler.Engine.Schedule.Safety.{schedule}
use nr5g_basic_scheduler.Engine.Schedule.Ranking.{finish_about}

-- What the first loop decides for a UE.
abbrev pub decide :
    {D : Type 0}
    → SchedulingDecision D
    → SchedulerConfig D
    → Bool
    → UeContext D
    → Option (SchedulingDecision D)
decide blank config true = dl_decision blank config
decide blank config false = ul_decision blank config

-- The table has an entry for the key with the value.
pub data IsEntry {V : Type 0} (k : ℕ) (v : V) : Table V → Type 0 where
  at_head : {t : Table V} → IsEntry k v ((k, v) ∷ t)
  in_tail : {e : ℕ × V} {t : Table V} → IsEntry k v t → IsEntry k v (e ∷ t)

module _ {D : Type 0} (blank : SchedulingDecision D) (config : SchedulerConfig D)
    (o : Orchestrator D) (cell : CellContext D) (dl : Bool) where
  -- A UE that the cell's index of RNTIs leads to, that is awake, has data, a request or a
  -- retransmission, and is allowed by its slice where slices count, and what was decided for it.
  pub record IsChosen (about : ℕ × DecisionType × ℕ) : Type 0 where
    pub ue : UeContext D
    pub address : ℕ
    pub key : ℕ
    pub registered : IsEntry key address cell.ue_repository.ue_by_rnti
    pub present : get_elem? cell.ue_repository.heap address ≡ some ue
    pub awake : is_in_active_time ue ≡ true
    pub working : has_work dl ue ≡ true
    pub allowed : config.enable_slicing ≡ true → is_scheduling_allowed o ue.rnti 1 dl ≡ true
    pub decision : SchedulingDecision D
    pub decided : decide blank config dl ue ≡ some decision
    pub subject_is : subject decision ≡ about

  abbrev IsPresent : UeContext D → Type 0
  IsPresent ue =
      (k : ℕ) × (p : ℕ) × IsEntry k p cell.ue_repository.ue_by_rnti
      × (get_elem? cell.ue_repository.heap p ≡ some ue)

  ues_at-IsPresent :
      (t : Table ℕ)
      → ((k p : ℕ) → IsEntry k p t → IsEntry k p cell.ue_repository.ue_by_rnti)
      → All IsPresent (ues_at cell.ue_repository.heap t)
  unfolding ues_at
  ues_at-IsPresent [] within = tt
  ues_at-IsPresent ((rnti, p) ∷ t) within =
      let rest = ues_at-IsPresent t (λ k q e. within k q (in_tail e)) in
      elim (Option-cases (get_elem? cell.ue_repository.heap p)) [
        | inl gone ↦ rw (gone, ues_at) rest
        | inr (ue, found) ↦ rw (found, ues_at) ((rnti, p, within rnti p at_head, found), rest)
      ]

  abbrev IsKept : UeContext D → Type 0
  IsKept ue = IsPresent ue × (is_eligible config o dl ue ≡ true)

  keep_eligible-IsKept :
      (ues : List (UeContext D)) → All IsPresent ues → All IsKept (keep_eligible config o dl ues)
  unfolding keep_eligible
  keep_eligible-IsKept [] all = tt
  keep_eligible-IsKept (ue ∷ ues) (here, all) =
      if-elim (All IsKept) (is_eligible config o dl ue) _ _
        (λ h. ((here, h), keep_eligible-IsKept ues all)) (λ h. keep_eligible-IsKept ues all)

  chosen :
      (ue : UeContext D) (d : SchedulingDecision D)
      → IsKept ue
      → decide blank config dl ue ≡ some d
      → IsChosen (subject d)
  unfolding is_eligible
  chosen ue d ((k, p, entry, found), eligible) e = record {
    ue = ue;
    address = p;
    key = k;
    registered = entry;
    present = found;
    awake = ground arith;
    working = ground arith;
    allowed = λ h. ground arith;
    decision = d;
    decided = e;
    subject_is = refl;
  }

  decisions_of-IsChosen :
      (ues : List (UeContext D))
      → All IsKept ues
      → All (λ d. IsChosen (subject d)) (decisions_of (decide blank config dl) ues)
  unfolding decisions_of
  decisions_of-IsChosen [] all = tt
  decisions_of-IsChosen (ue ∷ ues) (kept, all) = elim (Option-cases (decide blank config dl ue)) [
    | inl e ↦ rw (e, decisions_of) (decisions_of-IsChosen ues all)
    | inr (d, e) ↦ rw (e, decisions_of) (chosen ue d kept e, decisions_of-IsChosen ues all)
  ]

  pub decisions-IsChosen :
      All
        (λ d. IsChosen (subject d))
        (decisions_of (decide blank config dl) (get_eligible_ues config o cell dl))
  unfolding get_eligible_ues
  decisions-IsChosen =
      decisions_of-IsChosen _
        (keep_eligible-IsKept _ (ues_at-IsPresent cell.ue_repository.ue_by_rnti (λ k p e. e)))

module _ (E : Environment) where
  -- Where the scheduling of one direction returns, each decision is for a UE that the cell's index of
  -- RNTIs leads to and that is awake, has something to send or to ask for and is allowed by its slice,
  -- and is of the type and for the process that the first loop decided for that UE; the cell keeps its
  -- configuration and its UEs, and the engine its cells.
  pub schedule-IsChosen :
      (clock : Clock) (s : Engine E) (cell : CellContext E.floats.D) (dl : Bool) (s' : Engine E)
      (cell' : CellContext E.floats.D) (ds : List (SchedulingDecision E.floats.D))
      → schedule E dl clock s cell ≡ some (s', cell', ds)
      → All (λ d. IsChosen E.blank_decision s.config s.slice_orchestrator cell dl (subject d)) ds
        × (cell'.config ≡ cell.config)
        × (cell'.ue_repository ≡ cell.ue_repository)
        × (s'.cells ≡ s.cells)
  unfolding schedule_dl schedule_ul
  schedule-IsChosen clock s cell true s' cell' ds e =
      finish_about E (IsChosen E.blank_decision s.config s.slice_orchestrator cell true) clock s
        cell true s.config.max_pdsch_per_tti _ (s', cell', ds)
        (decisions-IsChosen E.blank_decision s.config s.slice_orchestrator cell true) e
  schedule-IsChosen clock s cell false s' cell' ds e =
      finish_about E (IsChosen E.blank_decision s.config s.slice_orchestrator cell false) clock s
        cell false s.config.max_pusch_per_tti _ (s', cell', ds)
        (decisions-IsChosen E.blank_decision s.config s.slice_orchestrator cell false) e
