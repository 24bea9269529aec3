-- ===== src/Engine/Routing.antt =====
-- `register_pending` and `find_and_remove` of scheduler_engine.cpp: how feedback is matched.
use nr5g_basic_scheduler.Base.{
  ℕ, suc, ◌+◌, ◌%◌, ◌^◌, ◌≤◌, ◌<◌, ◌≡◌, refl, sym, ap, ◌∙◌, inl, inr, true, false, ltb, ◌==◌,
  Option, none, some, List, [], ◌∷◌, ◌++◌, length, All, arith, Bool-cases, Option-cases,
}
use nr5g_basic_scheduler.Base.Table.{lookup, insert, erase, lookup-insert, lookup-erase}
use nr5g_basic_scheduler.Engine.Tracker.{
  PendingFeedback, HarqTimingTracker, push, drop_old, register_pending, matches, take_first,
  put_back, find_and_remove, get_all_for_slot,
}

-- The order of a `std::map`: every slot is smaller than those behind it.
abbrev pub IsAbove : ℕ → HarqTimingTracker → Type 0
IsAbove k [] = Unit
IsAbove k ((j, entries) ∷ t) = (k < j) × IsAbove k t

abbrev pub IsSorted : HarqTimingTracker → Type 0
IsSorted [] = Unit
IsSorted ((k, entries) ∷ t) = IsAbove k t × IsSorted t

own_key : (k : ℕ) → (k == k) ≡ true
own_key k = ground arith

lookup-IsAbove :
    (k slot : ℕ) (t : HarqTimingTracker) → IsAbove k t → slot ≤ k → lookup slot t ≡ none
lookup-IsAbove k slot [] above h = refl
lookup-IsAbove k slot ((j, entries) ∷ t) (l, above) h =
    let other : (j == slot) ≡ false = ground arith in rw other (lookup-IsAbove k slot t above h)

abbrev pub entries_of : Option (List PendingFeedback) → List PendingFeedback
entries_of none = []
entries_of (some entries) = entries

pub get_all_lem :
    (t : HarqTimingTracker) (slot : ℕ) → get_all_for_slot t slot ≡ entries_of (lookup slot t)
unfolding get_all_for_slot
get_all_lem t slot = elim (Option-cases (lookup slot t)) [
  | inl e ↦ rw (e, get_all_for_slot) refl
  | inr (entries, e) ↦ rw (e, get_all_for_slot) refl
]

pub lookup-push :
    (slot : ℕ) (info : PendingFeedback) (t : HarqTimingTracker)
    → IsSorted t
    → lookup slot (push slot info t) ≡ some (entries_of (lookup slot t) ++ info ∷ [])
unfolding push
lookup-push slot info [] sorted = rw (own_key slot) refl
lookup-push slot info ((k, entries) ∷ t) (above, sorted) = elim (Bool-cases (k == slot)) [
  | inl here ↦ rw here (rw here refl)
  | inr other ↦ elim (Bool-cases (ltb slot k)) [
    | inl before ↦
        rw (other, before, own_key slot)
          (ap (λ o. some (entries_of o ++ info ∷ []))
            (sym (lookup-IsAbove k slot t above (ground arith))))
    | inr behind ↦ rw (other, behind) (rw other (lookup-push slot info t sorted))
  ]
]

pub lookup-drop_old :
    (slot : ℕ) (t : HarqTimingTracker)
    → slot + 100 < 2 ^ 32
    → lookup slot (drop_old slot t) ≡ lookup slot t
unfolding drop_old
lookup-drop_old slot [] h = refl
lookup-drop_old slot ((k, entries) ∷ t) h = elim (Bool-cases (ltb ((k + 100) % 2 ^ 32) slot)) [
  | inr kept ↦ rw kept refl
  | inl old ↦
      let other : (k == slot) ≡ false = ground arith in rw (old, other) (lookup-drop_old slot t h)
]

module _ (rnti : ℕ) (harq_id : Option ℕ) where
  -- None of the entries matches.
  abbrev pub HasNoMatch : List PendingFeedback → Type 0
  HasNoMatch entries = All (λ p. matches rnti harq_id p ≡ false) entries

  take_first-append :
      (entries : List PendingFeedback) (p : PendingFeedback)
      → HasNoMatch entries
      → matches rnti harq_id p ≡ true
      → take_first (matches rnti harq_id) (entries ++ p ∷ []) ≡ some (p, entries)
  unfolding take_first
  take_first-append [] p none_before h = rw h refl
  take_first-append (q ∷ entries) p (fails, none_before) h =
      rw fails (rw (take_first-append entries p none_before h) refl)

lookup-put_back :
    (slot : ℕ) (entries : List PendingFeedback) (t : HarqTimingTracker)
    → entries_of (lookup slot (put_back slot entries t)) ≡ entries
unfolding put_back
lookup-put_back slot [] t =
    let gone : lookup slot (erase slot t) ≡ none =
      lookup-erase slot slot t ∙ rw (own_key slot) refl in
    ap entries_of gone
lookup-put_back slot (p ∷ entries) t =
    let written : lookup slot (insert slot (p ∷ entries) t) ≡ some (p ∷ entries) =
      lookup-insert slot slot (p ∷ entries) t ∙ rw (own_key slot) refl in
    let some_left : (suc (length entries) == 0) ≡ false = ground arith in
    rw some_left (ap entries_of written)

matches_own : (p : PendingFeedback) → matches p.rnti (some p.harq_id) p ≡ true
unfolding matches
matches_own p = rw (own_key p.rnti, own_key p.harq_id) refl

-- What was registered for a slot is found by that slot and its UE and process, and is gone from the
-- slot after, which has what it had before: if nothing else there is for that UE and process, and
-- the slot is not within 100 of the end of the 32-bit numbers.
pub find_and_remove-register_pending :
    (t : HarqTimingTracker) (slot : ℕ) (p : PendingFeedback)
    → IsSorted t
    → slot + 100 < 2 ^ 32
    → HasNoMatch p.rnti (some p.harq_id) (get_all_for_slot t slot)
    → let r = find_and_remove (register_pending t slot p) slot p.rnti (some p.harq_id) in
      (r.1 ≡ some p) × (get_all_for_slot (r.0) slot ≡ get_all_for_slot t slot)
unfolding find_and_remove register_pending
find_and_remove-register_pending t slot p sorted fits none_before =
    let before = get_all_for_slot t slot in
    let registered = register_pending t slot p in
    let there : lookup slot registered ≡ some (before ++ p ∷ []) =
      lookup-drop_old slot (push slot p t) fits
      ∙ lookup-push slot p t sorted
      ∙ ap (λ es. some (es ++ p ∷ [])) (sym (get_all_lem t slot)) in
    let taken = take_first-append p.rnti (some p.harq_id) before p none_before (matches_own p) in
    let found : find_and_remove registered slot p.rnti (some p.harq_id)
        ≡ (put_back slot before registered, some p) =
      rw (there, find_and_remove) (rw (taken, find_and_remove) refl) in
    (
      ap (λ (r : HarqTimingTracker × Option PendingFeedback). r.1) found,
      ap (λ (r : HarqTimingTracker × Option PendingFeedback). get_all_for_slot (r.0) slot) found
          ∙ get_all_lem (put_back slot before registered) slot
          ∙ lookup-put_back slot before registered,
    )
