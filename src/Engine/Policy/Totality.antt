-- ===== src/Engine/Policy/Totality.antt =====
-- The four policies of scheduler_engine.cpp give every UE with a good channel a priority.
use nr5g_basic_scheduler.Base.{
  is_some, value_of, ◌/◌, ◌≤◌, ◌≡◌, refl, inl, inr, Bool, true, ◌==◌, some, arith, Bool-cases,
}
use nr5g_basic_scheduler.Base.Floats.{Floats}
use nr5g_basic_scheduler.Tbs.{tbs_table_lookup}
use nr5g_basic_scheduler.Tbs.Lookup.{tbs_table_lookup_defined}
use nr5g_basic_scheduler.Ue.{UeContext, effective_cqi, mcs_from_cqi}
use nr5g_basic_scheduler.Cell.{CellContext}
use nr5g_basic_scheduler.Engine.Types.{
  Strategy, round_robin, proportional_fair, max_throughput, qos_aware, custom,
}
use nr5g_basic_scheduler.Engine.Schedule.Liveness.{IsTotal}
use nr5g_basic_scheduler.Engine.Allocator.Serving.{mcs_range}
use nr5g_basic_scheduler.Engine.Policy.{
  ProportionalFair, QosAware, round_robin_policy, max_throughput_policy, proportional_fair_policy,
  qos_aware_policy, buffer_of, estimate_instantaneous_rate, fair_priority, qos_aware_priority,
  create_policy_manager,
}

module _ (F : Floats) (ue : UeContext F.D) (cell : CellContext F.D) (good : 5 ≤ effective_cqi ue)
    (fits : cell.config.num_rbs / 4 ≤ 273) where
  rate_defined : is_some (estimate_instantaneous_rate F ue cell) ≡ true
  unfolding estimate_instantaneous_rate tbs_table_lookup
  rate_defined =
      let mcs = mcs_from_cqi ue in
      let rbs = cell.config.num_rbs / 4 in
      let (low, high) = mcs_range ue good in
      elim (Bool-cases (rbs == 0)) [
        | inl empty ↦
            let nothing : tbs_table_lookup mcs rbs 1 12 12 ≡ some 0 = ground arith in
            rw (nothing, estimate_instantaneous_rate) refl
        | inr some_rbs ↦
            let (tbs, e, _) =
              tbs_table_lookup_defined mcs rbs 1 low high (ground arith) fits (omega arith)
                (omega arith) in
            rw (e, estimate_instantaneous_rate) refl
      ]

  fair_defined :
      (p : ProportionalFair F.D) (dl : Bool) → is_some (fair_priority F p ue cell dl) ≡ true
  unfolding fair_priority
  fair_defined p dl = elim (Bool-cases (buffer_of dl ue == 0)) [
    | inl empty ↦ rw (empty, fair_priority) refl
    | inr full ↦
        let (rate, e) = value_of (estimate_instantaneous_rate F ue cell) rate_defined in
        rw (full, fair_priority) (rw (e, fair_priority) refl)
  ]

  qos_aware_defined :
      (p : QosAware F.D) (dl : Bool) → is_some (qos_aware_priority F p ue cell dl) ≡ true
  unfolding qos_aware_priority
  qos_aware_defined p dl =
      let (x, e) =
        value_of (fair_priority F p.pf_policy ue cell dl) (fair_defined p.pf_policy dl) in
      rw (e, qos_aware_priority) refl

-- Every policy that `create_policy_manager` makes has, in every state, a priority for every UE that
-- reported a CQI of 5 or more, in a cell of up to 1095 blocks.
pub create_policy_manager-IsTotal :
    (F : Floats) (strategy : Strategy) (state : (create_policy_manager F strategy).methods.State)
    (cell : CellContext F.D) (dl : Bool)
    → cell.config.num_rbs / 4 ≤ 273
    → IsTotal
        (record { methods = (create_policy_manager F strategy).methods; state = state })
        cell
        dl
unfolding create_policy_manager round_robin_policy max_throughput_policy proportional_fair_policy
    qos_aware_policy
create_policy_manager-IsTotal F round_robin state cell dl fits ue good = (_, refl)
create_policy_manager-IsTotal F max_throughput state cell dl fits ue good = (_, refl)
create_policy_manager-IsTotal F proportional_fair state cell dl fits ue good =
    value_of (fair_priority F state ue cell dl) (fair_defined F ue cell good fits state dl)
create_policy_manager-IsTotal F custom state cell dl fits ue good =
    value_of (fair_priority F state ue cell dl) (fair_defined F ue cell good fits state dl)
create_policy_manager-IsTotal F qos_aware state cell dl fits ue good =
    value_of (qos_aware_priority F state ue cell dl)
      (qos_aware_defined F ue cell good fits state dl)
