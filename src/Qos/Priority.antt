-- ===== src/Qos/Priority.antt =====
-- `calculate_priority` of nr_scheduler/src/qos_engine.cpp. It reads the clock twice: for the urgency
-- and for the bucket.
use nr5g_basic_scheduler.Base.{
  ℕ, ◌+◌, ◌-◌, ◌/◌, ◌%◌, ◌^◌, min, Bool, false, ltb, if◌then◌else◌, none, some,
}
use nr5g_basic_scheduler.Base.Int.{ℤ, pos_part, neg_part}
use nr5g_basic_scheduler.Base.Floats.{Floats, number}
use nr5g_basic_scheduler.Qos.{
  is_guaranteed, update, current_rate_bps, urgency, QosEngineConfig, QosFlowState, QosStats,
  QosEngine,
}
use nr5g_basic_scheduler.Qos.Flows.{
  find_flow, put_flow, bucket_of, with_bucket, gbr_tracker_of, delay_tracker_of,
}

pub record QosPriorityResult (D : Type 0) : Type 0 where
  pub base_priority : D
  pub gbr_factor : D
  pub delay_factor : D
  pub final_priority : D
  pub is_gbr : Bool
  pub is_delay_critical : Bool
  pub min_bytes_required : ℕ
  pub max_bytes_allowed : ℕ

-- `static_cast<uint32_t>` of an `int64_t`
unfoldable pub to_u32 : ℤ → ℕ
to_u32 z = (pos_part z % 2 ^ 32 + 2 ^ 32 - neg_part z % 2 ^ 32) % 2 ^ 32

-- `max_bytes_allowed` of a flow under the maximum rate.
unfoldable pub throttled : (buffer_bytes : ℕ) → ℤ → ℕ
unfolding to_u32
throttled buffer_bytes tokens = min buffer_bytes (to_u32 tokens)

module _ (F : Floats) where
  -- The result without a flow.
  unfoldable pub default_priority : ℕ → QosPriorityResult F.D
  default_priority buffer_bytes = record {
    base_priority = number F 1;
    gbr_factor = number F 1;
    delay_factor = number F 1;
    final_priority = number F 1;
    is_gbr = false;
    is_delay_critical = false;
    min_bytes_required = 0;
    max_bytes_allowed = buffer_bytes;
  }

  -- The factor for the guaranteed rate, and the least number of bytes.
  unfoldable pub gbr_boost : QosEngineConfig F.D → Bool → QosFlowState F.D → F.D × ℕ
  unfolding gbr_tracker_of
  gbr_boost config dl flow =
      let current_rate = current_rate_bps (gbr_tracker_of dl flow) in
      let gbr = if dl then flow.params.gbr_dl_bps else flow.params.gbr_ul_bps in
      if F.gtb (F.mul (number F gbr) config.gbr_enforcement_strictness) (number F current_rate)
      then (
        F.add (number F 1) (
            F.mul (F.sub (number F 1) (F.div (number F current_rate) (number F gbr)))
              config.gbr_deficit_weight),
        gbr / 8000 % 2 ^ 32,
      )
      else (number F 1, 0)

  unfoldable pub flow_priority :
      QosEngineConfig F.D
      → Bool
      → QosFlowState F.D
      → (buffer_bytes urgency_now bucket_now : ℕ) → QosPriorityResult F.D
  unfolding gbr_boost throttled bucket_of delay_tracker_of
  flow_priority config dl flow buffer_bytes urgency_now bucket_now =
      let chars = flow.params.characteristics in
      let guaranteed = is_guaranteed chars.resource_type in
      let base = F.div (number F 128) (number F chars.priority_level) in
      let (boost, least) = if guaranteed then gbr_boost config dl flow else (number F 1, 0) in
      let u = urgency F (delay_tracker_of dl flow) urgency_now in
      let late = F.gtb u config.delay_margin_factor in
      let delay =
        if late
        then F.add (number F 1)
            (F.mul (F.sub u config.delay_margin_factor) config.delay_urgency_weight)
        else number F 1 in
      record {
        base_priority = base;
        gbr_factor = boost;
        delay_factor = delay;
        final_priority = F.mul (F.mul base boost) delay;
        is_gbr = guaranteed;
        is_delay_critical = late;
        min_bytes_required = least;
        max_bytes_allowed =
            if config.enable_mbr_enforcement
            then throttled buffer_bytes ((update (bucket_of dl flow) bucket_now).tokens)
            else buffer_bytes;
      }

  -- The events that it counts.
  unfoldable pub count_events :
      QosStats F.D
      → QosPriorityResult F.D
      → (has_pending_data : Bool) → (urgency : F.D) → (buffer_bytes : ℕ) → QosStats F.D
  count_events s r has_pending_data u buffer_bytes = record s {
    delay_critical_events =
        if r.is_delay_critical
        then (s.delay_critical_events + 1) % 2 ^ 64
        else s.delay_critical_events;
    mbr_throttle_events =
        if ltb r.max_bytes_allowed buffer_bytes
        then (s.mbr_throttle_events + 1) % 2 ^ 64
        else s.mbr_throttle_events;
    total_delay_margin =
        if has_pending_data
        then F.add s.total_delay_margin (F.sub (number F 1) u)
        else s.total_delay_margin;
    delay_samples = if has_pending_data then (s.delay_samples + 1) % 2 ^ 64 else s.delay_samples;
  }

  unfoldable pub calculate_priority :
      QosEngine F.D
      → (rnti qfi : ℕ) → Bool
      → (buffer_bytes urgency_now bucket_now : ℕ) → QosEngine F.D × QosPriorityResult F.D
  unfolding default_priority flow_priority count_events find_flow put_flow with_bucket
  calculate_priority e rnti qfi dl buffer_bytes urgency_now bucket_now =
      elim (find_flow e rnti qfi) [
        | none ↦ (e, default_priority buffer_bytes)
        | some flow ↦
            let result = flow_priority e.config dl flow buffer_bytes urgency_now bucket_now in
            let tracker = delay_tracker_of dl flow in
            let counted =
              count_events e.stats result tracker.has_pending_data (urgency F tracker urgency_now)
                buffer_bytes in
            (
              record (put_flow e rnti qfi (
                  if e.config.enable_mbr_enforcement
                  then with_bucket dl flow (update (bucket_of dl flow) bucket_now)
                  else flow)) { stats = counted },
              result,
            )
      ]
