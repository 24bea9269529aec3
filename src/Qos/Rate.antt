-- ===== src/Qos/Rate.antt =====
-- The queries of nr_scheduler/src/qos_engine.cpp on rates and delays.
use nr5g_basic_scheduler.Base.{
  ℕ, Bool, false, not, ◌||◌, if◌then◌else◌, none, some, List, [], ◌∷◌, ◌++◌,
}
use nr5g_basic_scheduler.Base.Int.{ℤ, pos, sub_ℕ}
use nr5g_basic_scheduler.Base.Table.{Table}
use nr5g_basic_scheduler.Base.Floats.{Floats, number}
use nr5g_basic_scheduler.Qos.{
  is_guaranteed, current_rate_bps, is_critical, QosEngineConfig, QosFlowState, QosEngine,
}
use nr5g_basic_scheduler.Qos.Flows.{find_flow, gbr_tracker_of}

module _ {D : Type 0} where
  unfoldable pub get_current_rate : QosEngine D → (rnti qfi : ℕ) → Bool → ℕ
  unfolding find_flow gbr_tracker_of
  get_current_rate e rnti qfi dl = elim (find_flow e rnti qfi) [
    | none ↦ 0
    | some flow ↦ current_rate_bps (gbr_tracker_of dl flow)
  ]

  -- Rates stay below 2 ^ 63, so that the casts to `int64_t` keep them.
  unfoldable pub get_gbr_deficit : QosEngine D → (rnti qfi : ℕ) → Bool → ℤ
  unfolding find_flow gbr_tracker_of
  get_gbr_deficit e rnti qfi dl = elim (find_flow e rnti qfi) [
    | none ↦ pos 0
    | some flow ↦
        if is_guaranteed flow.params.characteristics.resource_type
        then sub_ℕ (if dl then flow.params.gbr_dl_bps else flow.params.gbr_ul_bps)
            (current_rate_bps (gbr_tracker_of dl flow))
        else pos 0
  ]

  -- The flows that pass a test, under their UEs.
  unfoldable pub select_flows : (QosFlowState D → Bool) → ℕ → Table (QosFlowState D) → List (ℕ × ℕ)
  select_flows test rnti [] = []
  select_flows test rnti ((qfi, flow) ∷ t) =
      let rest = select_flows test rnti t in if test flow then (rnti, qfi) ∷ rest else rest

  unfoldable pub select_ues :
      (QosFlowState D → Bool) → Table (Table (QosFlowState D)) → List (ℕ × ℕ)
  unfolding select_flows
  select_ues test [] = []
  select_ues test ((rnti, ue_flows) ∷ t) = select_flows test rnti ue_flows ++ select_ues test t

module _ (F : Floats) where
  -- Each flow is tested at a reading of the clock; one reading stands for all of them.
  unfoldable pub get_delay_critical_flows : QosEngine F.D → (now : ℕ) → List (ℕ × ℕ)
  unfolding select_ues
  get_delay_critical_flows e now =
      select_ues
        (λ flow. is_critical F flow.dl_delay_tracker now || is_critical F flow.ul_delay_tracker now)
        e.flows

  unfoldable pub has_deficit : QosEngineConfig F.D → QosFlowState F.D → Bool
  has_deficit config flow =
      let below : ℕ → ℕ → Bool = λ gbr rate.
        F.gtb (F.mul (number F gbr) config.gbr_enforcement_strictness) (number F rate) in
      if not (is_guaranteed flow.params.characteristics.resource_type)
      then false
      else below flow.params.gbr_dl_bps (current_rate_bps flow.dl_gbr_tracker)
        || below flow.params.gbr_ul_bps (current_rate_bps flow.ul_gbr_tracker)

  unfoldable pub get_gbr_deficit_flows : QosEngine F.D → List (ℕ × ℕ)
  unfolding select_ues has_deficit
  get_gbr_deficit_flows e = select_ues (has_deficit e.config) e.flows
