-- ===== src/Engine/Tracker.antt =====
-- `HarqTimingTracker` of nr_scheduler/src/scheduler_engine.cpp. Its `std::map` is an association list
-- in ascending order of the slots.
use nr5g_basic_scheduler.Base.{
  ℕ, ◌+◌, ◌%◌, ◌^◌, Bool, ltb, ◌==◌, ◌&&◌, if◌then◌else◌, Option, none, some, List, [], ◌∷◌, ◌++◌,
  length,
}
use nr5g_basic_scheduler.Base.Table.{Table, lookup, insert, erase}

pub record PendingFeedback : Type 0 where
  pub cell_id : ℕ
  pub rnti : ℕ
  pub harq_id : ℕ
  pub is_downlink : Bool
  pub tx_slot : ℕ

abbrev pub HarqTimingTracker : Type 0
HarqTimingTracker = Table (List PendingFeedback)

-- `pending_[slot].push_back(info)`
unfoldable pub push : (slot : ℕ) → PendingFeedback → HarqTimingTracker → HarqTimingTracker
push slot info [] = (slot, info ∷ []) ∷ []
push slot info ((k, entries) ∷ t) =
    let rest = push slot info t in
    if k == slot
    then (k, entries ++ info ∷ []) ∷ t
    else if ltb slot k
    then (slot, info ∷ []) ∷ (k, entries) ∷ t
    else (k, entries) ∷ rest

-- The loop that drops the oldest slots, in 32 bits.
unfoldable pub drop_old : (expected_slot : ℕ) → HarqTimingTracker → HarqTimingTracker
drop_old expected_slot [] = []
drop_old expected_slot ((k, entries) ∷ t) =
    let rest = drop_old expected_slot t in
    if ltb ((k + 100) % 2 ^ 32) expected_slot then rest else (k, entries) ∷ t

unfoldable pub register_pending :
    HarqTimingTracker → (expected_slot : ℕ) → PendingFeedback → HarqTimingTracker
unfolding push drop_old
register_pending t expected_slot info = drop_old expected_slot (push expected_slot info t)

unfoldable pub matches : (rnti : ℕ) → Option ℕ → PendingFeedback → Bool
matches rnti none p = p.rnti == rnti
matches rnti (some id) p = p.rnti == rnti && p.harq_id == id

-- The first entry that matches, and the others.
unfoldable pub take_first :
    (PendingFeedback → Bool)
    → List PendingFeedback
    → Option (PendingFeedback × List PendingFeedback)
take_first test [] = none
take_first test (p ∷ ps) =
    let rest = take_first test ps in
    if test p
    then some (p, ps)
    else elim rest [ none ↦ none | some (q, others) ↦ some (q, p ∷ others) ]

unfoldable pub put_back : (slot : ℕ) → List PendingFeedback → HarqTimingTracker → HarqTimingTracker
put_back slot entries t = if length entries == 0 then erase slot t else insert slot entries t

unfoldable pub find_and_remove :
    HarqTimingTracker
    → (feedback_slot rnti : ℕ) → Option ℕ
    → HarqTimingTracker × Option PendingFeedback
unfolding matches take_first put_back
find_and_remove t slot rnti harq_id = elim (lookup slot t) [
  | none ↦ (t, none)
  | some entries ↦ elim (take_first (matches rnti harq_id) entries) [
    | none ↦ (t, none)
    | some (p, others) ↦ (put_back slot others t, some p)
  ]
]

unfoldable pub get_all_for_slot : HarqTimingTracker → ℕ → List PendingFeedback
get_all_for_slot t slot = elim (lookup slot t) [ none ↦ [] | some entries ↦ entries ]

unfoldable pub remove_of : (rnti : ℕ) → List PendingFeedback → List PendingFeedback
remove_of rnti [] = []
remove_of rnti (p ∷ ps) = let rest = remove_of rnti ps in if p.rnti == rnti then rest else p ∷ rest

unfoldable pub clear_for_ue : HarqTimingTracker → (rnti : ℕ) → HarqTimingTracker
unfolding remove_of
clear_for_ue [] rnti = []
clear_for_ue ((slot, entries) ∷ t) rnti = (slot, remove_of rnti entries) ∷ clear_for_ue t rnti
