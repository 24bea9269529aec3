-- ===== src/Qos/Stats.antt =====
-- `QosEngine::get_statistics` of nr_scheduler/src/qos_engine.cpp.
use nr5g_basic_scheduler.Base.{ℕ, ◌+◌, ◌%◌, ◌^◌, not, ltb, if◌then◌else◌, [], ◌∷◌}
use nr5g_basic_scheduler.Base.Table.{Table}
use nr5g_basic_scheduler.Base.Floats.{Floats, number}
use nr5g_basic_scheduler.Qos.{
  is_guaranteed, current_rate_bps, QosEngineConfig, QosFlowState, QosEngine,
}

pub record QosStatistics (D : Type 0) : Type 0 where
  pub total_flows : ℕ
  pub gbr_flows : ℕ
  pub delay_critical_events : ℕ
  pub pdb_violations : ℕ
  pub mbr_throttle_events : ℕ
  pub avg_delay_margin : D
  pub gbr_satisfaction_ratio : D

-- The flows with a guaranteed rate, and those of them that get it.
pub record GbrCount : Type 0 where
  pub total_gbr : ℕ
  pub satisfied : ℕ

module _ (F : Floats) where
  -- For doubles that are numbers, `>=` is what `<` is not.
  unfoldable pub count_flow : QosEngineConfig F.D → QosFlowState F.D → GbrCount → GbrCount
  count_flow config flow n =
      let wanted = F.mul (number F flow.params.gbr_dl_bps) config.gbr_enforcement_strictness in
      if not (is_guaranteed flow.params.characteristics.resource_type) then n else record {
        total_gbr = (n.total_gbr + 1) % 2 ^ 64;
        satisfied =
            if F.gtb wanted (number F (current_rate_bps flow.dl_gbr_tracker))
            then n.satisfied
            else (n.satisfied + 1) % 2 ^ 64;
      }

  unfoldable pub count_flows : QosEngineConfig F.D → Table (QosFlowState F.D) → GbrCount → GbrCount
  unfolding count_flow
  count_flows config [] n = n
  count_flows config ((qfi, flow) ∷ t) n = count_flows config t (count_flow config flow n)

  unfoldable pub count_gbr :
      QosEngineConfig F.D → Table (Table (QosFlowState F.D)) → GbrCount → GbrCount
  unfolding count_flows
  count_gbr config [] n = n
  count_gbr config ((rnti, ue_flows) ∷ t) n = count_gbr config t (count_flows config ue_flows n)

  -- The mean of no samples is what the member held before, which nothing initialises.
  unfoldable pub get_statistics : (blank : F.D) → QosEngine F.D → QosStatistics F.D
  unfolding count_gbr
  get_statistics blank e =
      let n = count_gbr e.config e.flows (record { total_gbr = 0; satisfied = 0 }) in
      record {
        total_flows = e.stats.total_flows;
        gbr_flows = e.stats.gbr_flows;
        delay_critical_events = e.stats.delay_critical_events;
        pdb_violations = e.stats.pdb_violations;
        mbr_throttle_events = e.stats.mbr_throttle_events;
        avg_delay_margin =
            if ltb 0 e.stats.delay_samples
            then F.div e.stats.total_delay_margin (number F e.stats.delay_samples)
            else blank;
        gbr_satisfaction_ratio =
            if ltb 0 n.total_gbr
            then F.div (number F n.satisfied) (number F n.total_gbr)
            else number F 1;
      }
