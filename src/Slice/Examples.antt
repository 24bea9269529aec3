-- ===== src/Slice/Examples.antt =====
-- Tests of the slice orchestrator, and its theorems at concrete inputs. `thousandths` stands for
-- `double`: numbers in steps of a thousandth, rounded down.
use nr5g_basic_scheduler.Base.{ℕ, ◌≤◌, ◌<◌, ◌≡◌, refl, true, false, some, [], ◌∷◌, arith}
use nr5g_basic_scheduler.Base.Table.{Table, lookup}
use nr5g_basic_scheduler.Timing.{FrameTiming}
use nr5g_basic_scheduler.Base.Thousandths.{thousandths}
use nr5g_basic_scheduler.Slice.{
  SliceConfig, SliceState, SliceResourceBudget, no_budget, remaining, remaining_dl, Orchestrator,
}
use nr5g_basic_scheduler.Slice.Manage.{create_slice, associate_ue}
use nr5g_basic_scheduler.Slice.Budgets.{calculate_budgets, sum_shares}
use nr5g_basic_scheduler.Slice.Borrow.{request_resources}
use nr5g_basic_scheduler.Slice.Watch.{get_slices_by_priority}
use nr5g_basic_scheduler.Slice.Templates.{
  create_embb_template, create_urllc_template, create_mmtc_template,
}
use nr5g_basic_scheduler.Slice.Association.{
  IsConsistent, here, there, by_create, by_associate, IsConsistent-Reached,
}
use nr5g_basic_scheduler.Slice.FirstPass.{total_guaranteed}
use nr5g_basic_scheduler.Slice.Guarantee.{SharesFit, IsServed, calculate_budgets-IsServed}
use nr5g_basic_scheduler.Slice.Lending.{IsSound}
use nr5g_basic_scheduler.Slice.Request.{IsGranted, request_resources-IsGranted}

abbrev embb_slice : SliceConfig ℕ
unfolding create_embb_template
embb_slice = create_embb_template thousandths 1 []

abbrev urllc_slice : SliceConfig ℕ
unfolding create_urllc_template
urllc_slice = create_urllc_template thousandths 2 []

abbrev mmtc_slice : SliceConfig ℕ
unfolding create_mmtc_template
mmtc_slice = create_mmtc_template thousandths 3 []

abbrev slot_0 : FrameTiming
slot_0 = record { sfn = 0; slot = 0; symbol = 0; slots_per_frame = 20 }

abbrev blank : SliceState ℕ
blank = record {
  slice_id = 0;
  active = false;
  current_rbs_dl = 0;
  current_rbs_ul = 0;
  current_rate_dl_bps = 0;
  current_rate_ul_bps = 0;
  connected_ues = 0;
  active_ues = 0;
  avg_latency_ms = 0;
  resource_utilization = 0;
  sla_violations = 0;
  current_window = record {
    bytes_dl = 0;
    bytes_ul = 0;
    ues_scheduled_dl = 0;
    ues_scheduled_ul = 0;
    window_start = 0;
  };
}

abbrev fresh : Orchestrator ℕ
fresh = record {
  slice_configs = [];
  slice_states = [];
  ue_slice_map = [];
  current_budgets = [];
  shared_pool_dl = 0;
  shared_pool_ul = 0;
  stats = record {
    total_sla_violations = 0;
    resource_borrowing_events = 0;
    total_utilization = 0;
    utilization_samples = 0;
  };
  current_timing = slot_0;
}

abbrev three_slices : Table (SliceConfig ℕ)
three_slices = (1, embb_slice) ∷ (2, urllc_slice) ∷ (3, mmtc_slice) ∷ []

abbrev budget : ℕ → ℕ → ℕ → SliceResourceBudget
budget id available used = record no_budget {
  slice_id = id;
  available_rbs_dl = available;
  used_rbs_dl = used;
}

-- A UE on slice 1, which has used 8 of its 10 blocks.
abbrev loaded : Orchestrator ℕ
loaded = record fresh {
  slice_configs = three_slices;
  ue_slice_map = (17, 1) ∷ [];
  current_budgets = (1, budget 1 10 8) ∷ (2, budget 2 20 0) ∷ (3, budget 3 5 1) ∷ [];
}

by_priority : get_slices_by_priority loaded ≡ 2 ∷ 1 ∷ 3 ∷ []
unfolding get_slices_by_priority embb_slice urllc_slice mmtc_slice
by_priority = refl

-- Slice 1 needs 9 blocks and has 2: it borrows the 4 that slice 3 has left, and none of slice 2.
borrows_four : (request_resources loaded 1 9 true).1 ≡ 6
unfolding request_resources remaining remaining_dl embb_slice urllc_slice mmtc_slice
borrows_four = refl

no_such_slice : (associate_ue blank fresh 17 1).1 ≡ false
unfolding associate_ue
no_such_slice = refl

fresh-IsConsistent : IsConsistent fresh
fresh-IsConsistent = record { same_slices = λ k. refl; known_slices = λ rnti k e. cc }

IsConsistent-Reached_example :
    IsConsistent ((associate_ue blank ((create_slice blank fresh embb_slice).0) 17 1).0)
IsConsistent-Reached_example =
    IsConsistent-Reached blank fresh fresh-IsConsistent
      (there (there here (by_create blank embb_slice)) (by_associate 17 1))

shares_fit : SharesFit thousandths three_slices embb_slice
unfolding sum_shares embb_slice urllc_slice mmtc_slice
shares_fit pool = omega arith

calculate_budgets-IsServed_example :
    (b : SliceResourceBudget) × (lookup 1
        ((calculate_budgets thousandths loaded 106).0.current_budgets)
      ≡ some b)
    × IsServed thousandths 106 three_slices embb_slice b
unfolding total_guaranteed embb_slice urllc_slice mmtc_slice
calculate_budgets-IsServed_example =
    calculate_budgets-IsServed thousandths loaded 106 1 embb_slice (refl, (refl, (refl, tt)))
      (omega arith) (omega arith) refl shares_fit

request_resources-IsGranted_example :
    IsGranted true 1 9 (budget 1 10 8) loaded (request_resources loaded 1 9 true)
request_resources-IsGranted_example =
    request_resources-IsGranted loaded 1 9 true (budget 1 10 8) embb_slice refl refl
      (
        sound 10 8 (omega arith) (omega arith),
        (sound 20 0 (omega arith) (omega arith), (sound 5 1 (omega arith) (omega arith), tt)),
      )
      (omega arith)
  where
    sound : (a u : ℕ) {id : ℕ} → u ≤ a → a < 65536 → IsSound true (budget id a u)
    sound a u h k = record { within = h; fits = k }
