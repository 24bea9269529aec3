-- ===== src/Harq/Select.antt =====
-- `HarqEntity::get_free_process` and `get_retx_process` of ue_context.hpp.
use nr5g_basic_scheduler.Base.{
  ℕ, zero, suc, ◌+◌, ◌≤◌, ◌<◌, ◌≡◌, refl, sym, ap, subst, ◌∙◌, ◌⊎◌, inl, inr, Bool, true, false,
  ◌&&◌, Option, none, some, List, [], ◌∷◌, get_elem?, if◌then◌else◌, arith, Bool-cases,
}
use nr5g_basic_scheduler.Timing.{absolute_slot}
use nr5g_basic_scheduler.Harq.{
  Process, HarqEntity, is_idle, is_nack_received, can_retransmit, free_from, get_free_process,
  retx_from, get_retx_process, older,
}

-- No process of the list, or none before the index, passes the test.
abbrev pub NoneIn : (Process → Bool) → List Process → Type 0
NoneIn test ps = (j : ℕ) (q : Process) → get_elem? ps j ≡ some q → test q ≡ false

abbrev pub NoneBefore : (Process → Bool) → ℕ → List Process → Type 0
NoneBefore test k ps = (j : ℕ) (q : Process) → j < k → get_elem? ps j ≡ some q → test q ≡ false

module _ (test : Process → Bool) (p : Process) (ps : List Process) (fails : test p ≡ false) where
  NoneIn-cons : NoneIn test ps → NoneIn test (p ∷ ps)
  NoneIn-cons all zero q e = let same : p ≡ q = cc in ap test (sym same) ∙ fails
  NoneIn-cons all (suc j) q e = all j q e

  NoneBefore-cons : (k : ℕ) → NoneBefore test k ps → NoneBefore test (suc k) (p ∷ ps)
  NoneBefore-cons k all zero q h e = let same : p ≡ q = cc in ap test (sym same) ∙ fails
  NoneBefore-cons k all (suc j) q h e = all j q (omega arith) e

abbrev idle_test : Process → Bool
idle_test p = is_idle p.state

-- A search for the first idle process, from index `base` on.
free_from_cases :
    (base : ℕ) (ps : List Process)
    → ((k : ℕ) × (p : Process) × (free_from base ps ≡ some (base + k))
        × (get_elem? ps k ≡ some p)
        × (is_idle p.state ≡ true)
        × NoneBefore (λ q. is_idle q.state) k ps)
      ⊎ ((free_from base ps ≡ none) × NoneIn (λ q. is_idle q.state) ps)
unfolding free_from
free_from_cases base [] = inr (refl, λ j q e. cc)
free_from_cases base (p ∷ ps) = elim (Bool-cases (is_idle p.state)) [
  | inl free ↦ inl (zero, p, rw free (ap some (omega arith)), refl, free, λ j q h e. elim h [ ])
  | inr busy ↦ elim (free_from_cases (base + 1) ps) [
    | inl (k, found, e, at, free, before) ↦ inl (
      suc k,
      found,
      rw (busy, free_from) (e ∙ ap some (omega arith)),
      at,
      free,
      NoneBefore-cons idle_test p ps busy k before,
    )
    | inr (e, all) ↦ inr (rw (busy, free_from) e, NoneIn-cons idle_test p ps busy all)
  ]
]

-- `get_free_process` returns the first idle process, or nothing where no process is idle.
pub get_free_process_first :
    (e : HarqEntity)
    → ((k : ℕ) × (p : Process) × (get_free_process e ≡ some k)
        × (get_elem? e k ≡ some p)
        × (is_idle p.state ≡ true)
        × NoneBefore (λ q. is_idle q.state) k e)
      ⊎ ((get_free_process e ≡ none) × NoneIn (λ q. is_idle q.state) e)
unfolding get_free_process
get_free_process_first e = elim (free_from_cases 0 e) [
  | inl (k, p, f, at, free, before) ↦ inl (k, p, f ∙ ap some (omega arith), at, free, before)
  | inr none_idle ↦ inr none_idle
]

-- The process found was sent no later than the slot.
abbrev SentBy : Option (ℕ × Process) → ℕ → Type 0
SentBy none n = ⊥
SentBy (some (k, q)) n = absolute_slot q.tx_time ≤ n

abbrev next_oldest : ℕ → Option (ℕ × Process) → Process → Option (ℕ × Process)
next_oldest i oldest p =
    if is_nack_received p.state && can_retransmit p && older p oldest then some (i, p) else oldest

SentBy-next_oldest :
    (i : ℕ) (oldest : Option (ℕ × Process)) (p : Process) (n : ℕ)
    → SentBy oldest n
    → SentBy (next_oldest i oldest p) n
SentBy-next_oldest i none p n s = absurd s
SentBy-next_oldest i (some (k, q)) p n s = ground arith

SentBy-self :
    (i : ℕ) (oldest : Option (ℕ × Process)) (p : Process)
    → can_retransmit p ≡ true
    → SentBy (next_oldest i oldest p) (absolute_slot p.tx_time)
unfolding can_retransmit
SentBy-self i none p c = ground arith
SentBy-self i (some (k, q)) p c = ground arith

SentBy-retx_from :
    (i : ℕ) (oldest : Option (ℕ × Process)) (ps : List Process) (n : ℕ)
    → SentBy oldest n
    → SentBy (retx_from i oldest ps) n
unfolding retx_from
SentBy-retx_from i oldest [] n s = s
SentBy-retx_from i oldest (p ∷ ps) n s =
    SentBy-retx_from (i + 1) (next_oldest i oldest p) ps n (SentBy-next_oldest i oldest p n s)

retx_from_least :
    (i : ℕ) (oldest : Option (ℕ × Process)) (ps : List Process) (j : ℕ) (p : Process)
    → get_elem? ps j ≡ some p
    → can_retransmit p ≡ true
    → SentBy (retx_from i oldest ps) (absolute_slot p.tx_time)
unfolding retx_from
retx_from_least i oldest [] j p e c = cc
retx_from_least i oldest (q ∷ ps) zero p e c =
    let same : q ≡ p = cc in
    subst (λ x. SentBy (retx_from (i + 1) (next_oldest i oldest q) ps) (absolute_slot x.tx_time))
      same
      (SentBy-retx_from (i + 1) (next_oldest i oldest q) ps _
        (SentBy-self i oldest q (ap can_retransmit same ∙ c)))
retx_from_least i oldest (q ∷ ps) (suc j) p e c =
    retx_from_least (i + 1) (next_oldest i oldest q) ps j p e c

-- What the loop returns it was given, or is a process of the list that can be sent again.
abbrev FoundAt : ℕ → List Process → Option (ℕ × Process) → Type 0
FoundAt i ps r =
    (j : ℕ) × (q : Process) × (r ≡ some (i + j, q))
    × (get_elem? ps j ≡ some q)
    × (can_retransmit q ≡ true)

retx_from_sound :
    (i : ℕ) (oldest : Option (ℕ × Process)) (ps : List Process)
    → (retx_from i oldest ps ≡ oldest) ⊎ FoundAt i ps (retx_from i oldest ps)
unfolding retx_from
retx_from_sound i oldest [] = inl refl
retx_from_sound i oldest (p ∷ ps) = elim (retx_from_sound (i + 1) (next_oldest i oldest p) ps) [
  | inr (j, q, e, at, c) ↦ inr (suc j, q, e ∙ ap (λ n. some (n, q)) (omega arith), at, c)
  | inl e ↦ elim (Bool-cases (is_nack_received p.state && can_retransmit p && older p oldest)) [
    | inl chosen ↦
        let first : next_oldest i oldest p ≡ some (i + 0, p) =
          rw chosen (ap (λ n. some (n, p)) (omega arith)) in
        inr (zero, p, e ∙ first, refl, ground arith)
    | inr passed ↦ inl (e ∙ rw passed)
  ]
]

-- `get_retx_process` returns a process that can be sent again and was sent no later than any other
-- such process, by its absolute slot; or nothing, where no process can be sent again.
pub get_retx_process_oldest :
    (e : HarqEntity)
    → ((k : ℕ) × (p : Process) × (get_retx_process e ≡ some (k, p))
        × (get_elem? e k ≡ some p)
        × (can_retransmit p ≡ true)
        × ((j : ℕ) (q : Process)
            → get_elem? e j ≡ some q
            → can_retransmit q ≡ true
            → absolute_slot p.tx_time ≤ absolute_slot q.tx_time))
      ⊎ ((get_retx_process e ≡ none) × NoneIn can_retransmit e)
unfolding get_retx_process
get_retx_process_oldest e = elim (retx_from_sound 0 none e) [
  | inr (j, p, f, at, c) ↦ inl (
    j,
    p,
    f ∙ ap (λ n. some (n, p)) (omega arith),
    at,
    c,
    λ i q at' c'.
        subst (λ r. SentBy r (absolute_slot q.tx_time)) f (retx_from_least 0 none e i q at' c'),
  )
  | inl f ↦ inr (f, λ j q at. not_sent e f j q at)
]
  where
    not_sent : (e : HarqEntity) → retx_from 0 none e ≡ none → NoneIn can_retransmit e
    not_sent e f j q at = elim (Bool-cases (can_retransmit q)) [
      | inl c ↦
          absurd
            (subst (λ r. SentBy r (absolute_slot q.tx_time)) f (retx_from_least 0 none e j q at c))
      | inr c ↦ c
    ]
