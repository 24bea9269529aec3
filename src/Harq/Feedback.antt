-- ===== src/Harq/Feedback.antt =====
-- `HarqEntity::process_feedback` and `pending_count` of ue_context.hpp.
use nr5g_basic_scheduler.Base.{
  ℕ, zero, suc, ◌+◌, ◌≤◌, ◌<◌, ◌≡◌, refl, sym, ap, subst, ◌∙◌, ◌⊎◌, inl, inr, true, false, not,
  ◌&&◌, some, List, [], ◌∷◌, length, get_elem?, set, length-set, get_elem?-set_self,
  get_elem?_below, get_elem?-set_ne, get_elem?_bound, set_same, leb, ◌==◌, if◌then◌else◌, arith,
  Bool-cases,
}
use nr5g_basic_scheduler.Harq.{
  idle, nack_received, is_idle, HarqFeedback, Process, HarqEntity, is_pending, is_outstanding,
  max_processes, feedback_on, process_feedback, reset, pending_count, fresh_from, fresh_entity,
}

-- Sixteen processes, each under its own index.
pub record IsEntity (e : HarqEntity) : Type 0 where
  pub size : length e ≡ max_processes
  pub indexed : (i : ℕ) (p : Process) → get_elem? e i ≡ some p → p.id ≡ i

-- The two ways that `process_feedback` goes.
pub process_feedback_cases :
    (e : HarqEntity) (fb : HarqFeedback)
    → length e ≡ max_processes
    → ((max_processes ≤ fb.harq_id) × (process_feedback e fb ≡ e))
      ⊎ ((p : Process) × (get_elem? e fb.harq_id ≡ some p)
          × (process_feedback e fb ≡ set e fb.harq_id (feedback_on fb p)))
unfolding process_feedback
process_feedback_cases e fb size = elim (Bool-cases (leb max_processes fb.harq_id)) [
  | inl past ↦ inl (ground arith, rw past)
  | inr inside ↦
      let (p, at) = get_elem?_below e fb.harq_id (ground arith) in
      inr (p, at, rw inside (rw (at, process_feedback)))
]

feedback_on_lem :
    (fb : HarqFeedback) (p : Process)
    → feedback_on fb p ≡ (
        if is_pending p.state
        then (if fb.ack
            then record p { state = idle; tx_count = 0; rv_index = 0; ndi = not p.ndi }
            else record p { state = nack_received })
        else p)
unfolding feedback_on reset
feedback_on_lem fb p = ground arith

-- In a full array, feedback changes the process that it names and no other: one that waits for
-- feedback becomes idle, with its counts at zero and its new-data indicator toggled, on an ACK, and
-- is marked for retransmission otherwise; one that does not wait stays as it was.
pub process_feedback_at :
    (e : HarqEntity) (fb : HarqFeedback) (i : ℕ) (p : Process)
    → length e ≡ max_processes
    → get_elem? e i ≡ some p
    → get_elem? (process_feedback e fb) i
      ≡ some (
          if i == fb.harq_id && is_pending p.state
          then (if fb.ack
              then record p { state = idle; tx_count = 0; rv_index = 0; ndi = not p.ndi }
              else record p { state = nack_received })
          else p)
process_feedback_at e fb i p size at = elim (process_feedback_cases e fb size) [
  | inl (past, f) ↦
      let inside : i < 16 = omega (arith, get_elem?_bound e i p at) in
      let other : (i == fb.harq_id) ≡ false = ground arith in
      ap (λ x. get_elem? x i) f ∙ at ∙ rw other refl
  | inr (q, here, f) ↦ elim (Bool-cases (i == fb.harq_id)) [
    | inl named ↦
        let same_id : fb.harq_id ≡ i = ground arith in
        let same : q ≡ p = same_process q here same_id in
        ap (λ x. get_elem? x i) f
        ∙ ap (λ k. get_elem? (set e k (feedback_on fb q)) i) same_id
        ∙ get_elem?-set_self e i (feedback_on fb q) (get_elem?_bound e i p at)
        ∙ ap some (ap (feedback_on fb) same ∙ feedback_on_lem fb p)
        ∙ rw named refl
    | inr other ↦
        ap (λ x. get_elem? x i) f
        ∙ get_elem?-set_ne e (feedback_on fb q) (λ x. ground arith)
        ∙ at
        ∙ rw other refl
  ]
]
  where
    same_process : (q : Process) → get_elem? e fb.harq_id ≡ some q → fb.harq_id ≡ i → q ≡ p
    same_process q here same_id =
        let both : some q ≡ some p = sym here ∙ ap (get_elem? e) same_id ∙ at in cc

-- Feedback changes nothing in an entity none of whose processes waits for feedback.
pub process_feedback_idle :
    (e : HarqEntity) (fb : HarqFeedback)
    → length e ≡ max_processes
    → ((i : ℕ) (p : Process) → get_elem? e i ≡ some p → is_pending p.state ≡ false)
    → process_feedback e fb ≡ e
process_feedback_idle e fb size none_waits = elim (process_feedback_cases e fb size) [
  | inl (past, f) ↦ f
  | inr (p, here, f) ↦
      let not_waits : is_pending p.state ≡ false = none_waits fb.harq_id p here in
      f
      ∙ ap (set e fb.harq_id) (feedback_on_lem fb p ∙ rw not_waits refl)
      ∙ set_same e fb.harq_id p here
]

pending_count-set :
    (e : List Process) (i : ℕ) (p q : Process)
    → get_elem? e i ≡ some p
    → pending_count (set e i q) + (if is_outstanding p.state then 1 else 0)
      ≡ pending_count e + (if is_outstanding q.state then 1 else 0)
unfolding pending_count
pending_count-set [] i p q at = cc
pending_count-set (r ∷ e) zero p q at =
    let same : r ≡ p = cc in rw (ap (λ (x : Process). x.state) same) (omega arith)
pending_count-set (r ∷ e) (suc i) p q at = omega (arith, pending_count-set e i p q at)

outstanding_after :
    (fb : HarqFeedback) (p : Process)
    → (if is_outstanding ((feedback_on fb p).state) then 1 else 0)
        + (if is_pending p.state && fb.ack then 1 else 0)
      ≡ (if is_outstanding p.state then 1 else 0)
unfolding feedback_on reset
outstanding_after fb p = ground arith

-- Feedback to a process that waits for it lowers the number of outstanding processes by one on an
-- ACK and keeps it otherwise, and feedback to any other process keeps it.
pub pending_count-process_feedback :
    (e : HarqEntity) (fb : HarqFeedback) (p : Process)
    → length e ≡ max_processes
    → get_elem? e fb.harq_id ≡ some p
    → pending_count (process_feedback e fb) + (if is_pending p.state && fb.ack then 1 else 0)
      ≡ pending_count e
pending_count-process_feedback e fb p size at = elim (process_feedback_cases e fb size) [
  | inl (past, f) ↦ absurd (omega (arith, get_elem?_bound e fb.harq_id p at))
  | inr (q, here, f) ↦
      let same : q ≡ p = let both : some q ≡ some p = sym here ∙ at in cc in
      ap (λ x. pending_count x + (if is_pending p.state && fb.ack then 1 else 0))
        (f ∙ ap (λ x. set e fb.harq_id (feedback_on fb x)) same)
      ∙ omega
          (arith, pending_count-set e fb.harq_id p (feedback_on fb p) at, outstanding_after fb p)
]

feedback_on_id : (fb : HarqFeedback) (p : Process) → (feedback_on fb p).id ≡ p.id
unfolding feedback_on reset
feedback_on_id fb p = ground arith

IsEntity-set :
    (e : HarqEntity) (i : ℕ) (p q : Process)
    → get_elem? e i ≡ some p
    → q.id ≡ p.id
    → IsEntity e
    → IsEntity (set e i q)
IsEntity-set e i p q at keeps ok = record {
  size = length-set e i q ∙ ok.size;
  indexed = λ j r found. elim (Bool-cases (i == j)) [
    | inl named ↦
        let same_id : i ≡ j = ground arith in
        let written : get_elem? (set e i q) j ≡ some q =
          ap (λ k. get_elem? (set e k q) j) same_id
          ∙ get_elem?-set_self e j q
              (subst (λ k. k < length e) same_id (get_elem?_bound e i p at)) in
        let same : q ≡ r = let both : some q ≡ some r = sym written ∙ found in cc in
        ap (λ (x : Process). x.id) (sym same) ∙ keeps ∙ ok.indexed i p at ∙ same_id
    | inr other ↦ ok.indexed j r (sym (get_elem?-set_ne e q (λ x. ground arith)) ∙ found)
  ];
}

-- Feedback keeps an entity of sixteen processes, each under its own index.
process_feedback-IsEntity :
    (e : HarqEntity) (fb : HarqFeedback) → IsEntity e → IsEntity (process_feedback e fb)
process_feedback-IsEntity e fb ok = elim (process_feedback_cases e fb ok.size) [
  | inl (past, f) ↦ subst IsEntity (sym f) ok
  | inr (p, here, f) ↦
      subst IsEntity (sym f)
        (IsEntity-set e fb.harq_id p (feedback_on fb p) here (feedback_on_id fb p) ok)
]

length-fresh_from : (blank : Process) (id n : ℕ) → length (fresh_from blank id n) ≡ n
unfolding fresh_from
length-fresh_from blank id zero = refl
length-fresh_from blank id (suc n) = ap suc (length-fresh_from blank (id + 1) n)

get_elem?-fresh_from :
    (blank : Process) (id n i : ℕ) (p : Process)
    → get_elem? (fresh_from blank id n) i ≡ some p
    → (p.id ≡ id + i) × (is_idle p.state ≡ true)
unfolding fresh_from
get_elem?-fresh_from blank id zero i p at = cc
get_elem?-fresh_from blank id (suc n) zero p at =
    let same : record blank { id = id; state = idle; tx_count = 0; rv_index = 0; ndi = false } ≡ p =
      cc in
    (
      ap (λ (x : Process). x.id) (sym same) ∙ omega arith,
      ap (λ (x : Process). is_idle x.state) (sym same),
    )
get_elem?-fresh_from blank id (suc n) (suc i) p at =
    let (named, free) = get_elem?-fresh_from blank (id + 1) n i p at in (omega arith, free)

-- A new entity has sixteen processes, each under its own index and idle.
pub fresh_entity-IsEntity :
    (blank : Process)
    → IsEntity (fresh_entity blank)
      × ((i : ℕ) (p : Process) → get_elem? (fresh_entity blank) i ≡ some p → is_idle p.state ≡ true)
unfolding fresh_entity
fresh_entity-IsEntity blank = (
  record {
    size = length-fresh_from blank 0 max_processes;
    indexed = λ i p at. (get_elem?-fresh_from blank 0 max_processes i p at).0 ∙ omega arith;
  },
  λ i p at. (get_elem?-fresh_from blank 0 max_processes i p at).1,
)
