-- ===== src/Slice/Stats.antt =====
-- `SliceOrchestrator::get_statistics` of nr_scheduler/src/slice_orchestrator.cpp.
use nr5g_basic_scheduler.Base.{ℕ, ◌+◌, ◌%◌, ◌^◌, ltb, if◌then◌else◌, [], ◌∷◌, length}
use nr5g_basic_scheduler.Base.Int.{abs, pos_part}
use nr5g_basic_scheduler.Base.Table.{Table}
use nr5g_basic_scheduler.Base.Floats.{Floats, number}
use nr5g_basic_scheduler.Slice.{SliceResourceBudget, Orchestrator}

pub record SliceStatistics (D : Type 0) : Type 0 where
  pub total_slices : ℕ
  pub active_slices : ℕ
  pub total_sla_violations : ℕ
  pub avg_resource_utilization : D
  pub resource_borrowing_events : ℕ
  pub isolation_efficiency : D

module _ (F : Floats) where
  unfoldable pub total_borrowed : F.D → Table SliceResourceBudget → F.D
  total_borrowed total [] = total
  total_borrowed total ((id, b) ∷ t) =
      total_borrowed (F.add total (number F (pos_part (abs b.borrowed_rbs)))) t

  unfoldable pub total_used : F.D → Table SliceResourceBudget → F.D
  total_used total [] = total
  total_used total ((id, b) ∷ t) =
      total_used (F.add total (number F (b.used_rbs_dl + b.used_rbs_ul))) t

  -- The mean of no samples is what the member held before, which nothing initialises.
  unfoldable pub get_statistics : (blank : F.D) → Orchestrator F.D → SliceStatistics F.D
  unfolding total_borrowed total_used
  get_statistics blank o =
      let borrowed = total_borrowed (number F 0) o.current_budgets in
      let used = total_used (number F 0) o.current_budgets in
      record {
        total_slices = length o.slice_configs % 2 ^ 32;
        active_slices = length o.slice_states % 2 ^ 32;
        total_sla_violations = o.stats.total_sla_violations;
        avg_resource_utilization =
            if ltb 0 o.stats.utilization_samples
            then F.div o.stats.total_utilization (number F o.stats.utilization_samples)
            else blank;
        resource_borrowing_events = o.stats.resource_borrowing_events;
        isolation_efficiency =
            if F.gtb used (number F 0)
            then F.sub (number F 1) (F.div borrowed used)
            else number F 1;
      }
