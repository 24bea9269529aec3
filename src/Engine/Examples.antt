-- ===== src/Engine/Examples.antt =====
-- Tests of the tracker, and its theorem at a concrete input.
use nr5g_basic_scheduler.Base.{ℕ, ◌≡◌, refl, true, some, [], ◌∷◌, map, arith}
use nr5g_basic_scheduler.Engine.Tracker.{
  PendingFeedback, HarqTimingTracker, register_pending, find_and_remove, get_all_for_slot,
  clear_for_ue, matches,
}
use nr5g_basic_scheduler.Engine.Routing.{find_and_remove-register_pending}

abbrev feedback : (rnti harq_id tx_slot : ℕ) → PendingFeedback
feedback rnti harq_id tx_slot = record {
  cell_id = 1;
  rnti = rnti;
  harq_id = harq_id;
  is_downlink = true;
  tx_slot = tx_slot;
}

abbrev tracker : HarqTimingTracker
tracker = (20, feedback 17 0 16 ∷ []) ∷ (204, feedback 17 3 200 ∷ feedback 18 0 200 ∷ []) ∷ []

-- Slot 20 is more than 100 slots old.
drops_slot_20 : map (λ s. s.0) (register_pending tracker 130 (feedback 18 1 126)) ≡ 130 ∷ 204 ∷ []
unfolding register_pending
drops_slot_20 = refl

clears_one_ue : clear_for_ue tracker 17 ≡ (20, []) ∷ (204, feedback 18 0 200 ∷ []) ∷ []
unfolding clear_for_ue
clears_one_ue = refl

find_and_remove-register_pending_example :
    ((find_and_remove (register_pending tracker 204 (feedback 17 4 200)) 204 17 (some 4)).1
      ≡ some (feedback 17 4 200))
    × (get_all_for_slot
          ((find_and_remove (register_pending tracker 204 (feedback 17 4 200)) 204 17 (some 4)).0)
          204
        ≡ get_all_for_slot tracker 204)
unfolding get_all_for_slot matches
find_and_remove-register_pending_example =
    find_and_remove-register_pending tracker 204 (feedback 17 4 200) ((omega arith, tt), (tt, tt))
      (omega arith) (refl, (refl, tt))
