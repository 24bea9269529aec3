-- ===== src/Slice/Watch.antt =====
-- Scheduling support, SLA monitoring and the slot hooks of
-- nr_scheduler/src/slice_orchestrator.cpp.
use nr5g_basic_scheduler.Base.{
  ℕ, ◌+◌, ◌%◌, ◌^◌, Bool, true, not, ltb, leb, ◌==◌, if◌then◌else◌, Option, none, some, List, [],
  ◌∷◌, length, map,
}
use nr5g_basic_scheduler.Base.Table.{Table, lookup, insert}
use nr5g_basic_scheduler.Timing.{FrameTiming}
use nr5g_basic_scheduler.Base.Floats.{Floats, number}
use nr5g_basic_scheduler.Slice.{
  SliceConfig, SliceState, SliceResourceBudget, remaining, Orchestrator,
}

-- `used_rbs_* += rbs`
unfoldable pub spend : Bool → SliceResourceBudget → ℕ → SliceResourceBudget
spend dl b rbs =
    if dl
    then record b { used_rbs_dl = (b.used_rbs_dl + rbs) % 2 ^ 16 }
    else record b { used_rbs_ul = (b.used_rbs_ul + rbs) % 2 ^ 16 }

-- A change to the entry of a map, where it has one.
unfoldable pub modify {ℓ} : {V : Type ℓ} → ℕ → (V → V) → Table V → Table V
modify k f t = elim (lookup k t) [ none ↦ t | some v ↦ insert k (f v) t ]

module _ {D : Type 0} where
  unfoldable pub is_scheduling_allowed : Orchestrator D → (rnti rbs : ℕ) → Bool → Bool
  is_scheduling_allowed o rnti rbs dl = elim (lookup rnti o.ue_slice_map) [
    | none ↦ true
    | some slice_id ↦ elim (lookup slice_id o.current_budgets) [
      | none ↦ true
      | some budget ↦ leb rbs (remaining dl budget)
    ]
  ]

  unfoldable pub get_slice_state : Orchestrator D → ℕ → Option (SliceState D)
  get_slice_state o slice_id = lookup slice_id o.slice_states

  unfoldable pub note_scheduling : Bool → SliceState D → (rbs bytes : ℕ) → SliceState D
  note_scheduling dl s rbs bytes =
      let w = s.current_window in
      if dl
      then record s {
        current_rbs_dl = rbs;
        current_window = record w {
          bytes_dl = (w.bytes_dl + bytes) % 2 ^ 64;
          ues_scheduled_dl = (w.ues_scheduled_dl + 1) % 2 ^ 32;
        };
      }
      else record s {
        current_rbs_ul = rbs;
        current_window = record w {
          bytes_ul = (w.bytes_ul + bytes) % 2 ^ 64;
          ues_scheduled_ul = (w.ues_scheduled_ul + 1) % 2 ^ 32;
        };
      }

  unfoldable pub report_scheduling : Orchestrator D → (rnti rbs bytes : ℕ) → Bool → Orchestrator D
  unfolding modify spend note_scheduling
  report_scheduling o rnti rbs bytes dl = elim (lookup rnti o.ue_slice_map) [
    | none ↦ o
    | some slice_id ↦ record o {
      current_budgets = modify slice_id (λ b. spend dl b rbs) o.current_budgets;
      slice_states = modify slice_id (λ s. note_scheduling dl s rbs bytes) o.slice_states;
    }
  ]

  unfoldable pub clear_rbs : Table (SliceState D) → Table (SliceState D)
  clear_rbs [] = []
  clear_rbs ((id, s) ∷ t) = (id, record s { current_rbs_dl = 0; current_rbs_ul = 0 }) ∷ clear_rbs t

  unfoldable pub on_slot_start : Orchestrator D → FrameTiming → Orchestrator D
  unfolding clear_rbs
  on_slot_start o timing = record o {
    current_timing = timing;
    slice_states = clear_rbs o.slice_states;
  }

-- An insertion sort by the numbers, for the order of `std::sort`, which leaves open how it orders
-- slices of one priority.
unfoldable pub insert_by_priority : ℕ × ℕ → List (ℕ × ℕ) → List (ℕ × ℕ)
insert_by_priority (id, p) [] = (id, p) ∷ []
insert_by_priority (id, p) ((j, q) ∷ t) =
    if leb p q then (id, p) ∷ (j, q) ∷ t else (j, q) ∷ insert_by_priority (id, p) t

unfoldable pub sort_by_priority : List (ℕ × ℕ) → List (ℕ × ℕ)
unfolding insert_by_priority
sort_by_priority [] = []
sort_by_priority (s ∷ t) = insert_by_priority s (sort_by_priority t)

unfoldable pub priorities : {D : Type 0} → Table (SliceConfig D) → List (ℕ × ℕ)
priorities [] = []
priorities ((id, config) ∷ t) = (id, config.sla.slice_priority) ∷ priorities t

unfoldable pub get_slices_by_priority : {D : Type 0} → Orchestrator D → List ℕ
unfolding sort_by_priority priorities
get_slices_by_priority o = map (λ s. s.0) (sort_by_priority (priorities o.slice_configs))

module _ (F : Floats) where
  unfoldable pub get_priority_boost : Orchestrator F.D → ℕ → F.D
  get_priority_boost o rnti = elim (lookup rnti o.ue_slice_map) [
    | none ↦ number F 1
    | some slice_id ↦ elim (lookup slice_id o.slice_configs) [
      | none ↦ number F 1
      | some config ↦ F.div (number F 256) (number F config.sla.slice_priority)
    ]
  ]

  unfoldable pub violating : Table (SliceConfig F.D) → Table (SliceState F.D) → List ℕ
  violating configs [] = []
  violating configs ((id, s) ∷ t) =
      let rest = violating configs t in
      elim (lookup id configs) [
        | none ↦ rest
        | some config ↦
            if F.gtb s.avg_latency_ms (number F config.sla.max_latency_ms) then id ∷ rest else rest
      ]

  unfoldable pub check_sla_compliance : Orchestrator F.D → List ℕ
  unfolding violating
  check_sla_compliance o = violating o.slice_configs o.slice_states

  unfoldable pub slot_utilization : Table SliceResourceBudget → F.D → F.D
  slot_utilization [] total = total
  slot_utilization ((id, b) ∷ t) total = slot_utilization t (
      if ltb 0 b.available_rbs_dl
      then F.add total (F.div (number F b.used_rbs_dl) (number F b.available_rbs_dl))
      else total)

  -- It holds the mutex, which is not recursive, and `check_sla_compliance` takes it again. C++ leaves
  -- this undefined: `relocks` says whether the lock succeeds, and `none` is that it does not.
  unfoldable pub on_slot_end : (relocks : Bool) → Orchestrator F.D → Option (Orchestrator F.D)
  unfolding slot_utilization check_sla_compliance
  on_slot_end relocks o =
      let sum = slot_utilization o.current_budgets (number F 0) in
      let mean =
        if length o.current_budgets == 0
        then sum
        else F.div sum (number F (length o.current_budgets)) in
      if not relocks
      then none
      else some (record o {
        stats = record o.stats {
          total_utilization = F.add o.stats.total_utilization mean;
          utilization_samples = (o.stats.utilization_samples + 1) % 2 ^ 64;
          total_sla_violations =
              (o.stats.total_sla_violations + length (check_sla_compliance o)) % 2 ^ 64;
        };
      })
