-- ===== src/Engine/Policy.antt =====
-- `IPolicyManager` of nr_scheduler/include/engine/scheduler_engine.hpp and its four implementations in
-- nr_scheduler/src/scheduler_engine.cpp. A `none` is an undefined block size. A `time_point` is a
-- number of nanoseconds, and a reading of the clock is an argument.
pub mod Totality
use nr5g_basic_scheduler.Base.{
  ℕ, ◌+◌, ◌-◌, ◌*◌, ◌/◌, ◌%◌, ◌^◌, Bool, true, false, ltb, ◌==◌, if◌then◌else◌, Option, none, some,
  List, [], ◌∷◌, ◌++◌, length,
}
use nr5g_basic_scheduler.Base.Table.{Table, lookup, insert}
use nr5g_basic_scheduler.Base.Floats.{Floats, number, larger, smaller}
use nr5g_basic_scheduler.Timing.{FrameTiming, absolute_slot}
use nr5g_basic_scheduler.Tbs.{tbs_table_lookup}
use nr5g_basic_scheduler.Qos.{is_gbr}
use nr5g_basic_scheduler.Ue.{
  UeContext, LogicalChannelConfig, total_dl_buffer, total_ul_buffer, effective_cqi, mcs_from_cqi,
}
use nr5g_basic_scheduler.Cell.{CellContext}
use nr5g_basic_scheduler.Engine.Types.{Strategy, round_robin, max_throughput, qos_aware}

-- The interface, over the state of the class that implements it.
pub record IPolicyManager (D : Type 0) : Type 1 where
  pub State : Type 0
  pub calculate_priority : State → UeContext D → CellContext D → Bool → Option D
  pub update_history : (now : ℕ) → State → UeContext D → (bytes_scheduled : ℕ) → State
  pub on_slot_start : State → FrameTiming → State

-- An object of some class that implements it.
pub record PolicyObject (D : Type 0) : Type 1 where
  pub methods : IPolicyManager D
  pub state : methods.State

-- `is_downlink ? ue.total_dl_buffer() : ue.total_ul_buffer()`
unfoldable pub buffer_of : {D : Type 0} → Bool → UeContext D → ℕ
buffer_of true ue = total_dl_buffer ue
buffer_of false ue = total_ul_buffer ue

-- Pairs of a time and a number of bytes, the oldest first.
pub record RateHistory (D : Type 0) : Type 0 where
  pub samples : List (ℕ × ℕ)
  pub cached_avg_rate : D

pub record ProportionalFair (D : Type 0) : Type 0 where
  pub alpha : D
  pub window_ms : ℕ
  pub rate_history : Table (RateHistory D)

unfoldable pub prune : (cutoff : ℕ) → List (ℕ × ℕ) → List (ℕ × ℕ)
prune cutoff [] = []
prune cutoff ((time, bytes) ∷ samples) =
    let rest = prune cutoff samples in if ltb time cutoff then rest else (time, bytes) ∷ samples

unfoldable pub sum_bytes : (total : ℕ) → List (ℕ × ℕ) → ℕ
sum_bytes total [] = total
sum_bytes total ((time, bytes) ∷ samples) = sum_bytes ((total + bytes) % 2 ^ 64) samples

-- The time of the last sample.
unfoldable pub last_time : ℕ → List (ℕ × ℕ) → ℕ
last_time time [] = time
last_time time ((next, bytes) ∷ samples) = last_time next samples

module _ (F : Floats) where
  unfoldable pub compute_avg_rate : List (ℕ × ℕ) → F.D
  unfolding sum_bytes last_time
  compute_avg_rate [] = number F 1
  compute_avg_rate ((time, bytes) ∷ samples) =
      let duration_ms = (last_time time samples - time) / 1000000 in
      if ltb (length samples) 1
      then number F 1
      else if duration_ms == 0
      then number F 1
      else F.div (F.mul (number F (sum_bytes 0 ((time, bytes) ∷ samples))) (number F 8000))
          (number F duration_ms)

  unfoldable pub get_average_rate : ProportionalFair F.D → (rnti : ℕ) → F.D
  get_average_rate p rnti = elim (lookup rnti p.rate_history) [
    | none ↦ number F 1
    | some history ↦ history.cached_avg_rate
  ]

  unfoldable pub estimate_instantaneous_rate : UeContext F.D → CellContext F.D → Option F.D
  estimate_instantaneous_rate ue cell =
      elim (tbs_table_lookup (mcs_from_cqi ue) (cell.config.num_rbs / 4) 1 12 12) [
        | none ↦ none
        | some tbs ↦ some (F.mul (number F tbs) (number F 1000))
      ]

  unfoldable pub fair_priority :
      ProportionalFair F.D → UeContext F.D → CellContext F.D → Bool → Option F.D
  unfolding buffer_of estimate_instantaneous_rate get_average_rate
  fair_priority p ue cell dl =
      let buffer = buffer_of dl ue in
      if buffer == 0 then some (number F 0) else elim (estimate_instantaneous_rate ue cell) [
        | none ↦ none
        | some inst_rate ↦
            let history_rate = get_average_rate p ue.rnti in
            let avg_rate = if F.gtb (number F 1) history_rate then number F 1 else history_rate in
            some (
              F.mul (F.div inst_rate (F.pow avg_rate p.alpha))
                (F.log2 (F.add (number F 1) (F.div (number F buffer) (number F 1000)))))
      ]

  unfoldable pub fair_update :
      (now : ℕ) → ProportionalFair F.D → UeContext F.D → (bytes : ℕ) → ProportionalFair F.D
  unfolding prune compute_avg_rate
  fair_update now p ue bytes =
      let old : List (ℕ × ℕ) = elim (lookup ue.rnti p.rate_history) [
        | none ↦ []
        | some history ↦ history.samples
      ] in
      let samples = prune (now - p.window_ms * 1000000) (old ++ (now, bytes) ∷ []) in
      record p {
        rate_history =
            insert ue.rnti
              (record { samples = samples; cached_avg_rate = compute_avg_rate samples })
              p.rate_history;
      }

  unfoldable pub proportional_fair_policy : IPolicyManager F.D
  unfolding fair_priority fair_update
  proportional_fair_policy = record {
    State = ProportionalFair F.D;
    calculate_priority = fair_priority;
    update_history = fair_update;
    on_slot_start = λ p timing. p;
  }

pub record RoundRobin : Type 0 where
  pub current_slot : ℕ
  pub last_scheduled : Table ℕ

module _ (F : Floats) where
  -- The number of slots since the UE's last turn, in 32 bits.
  unfoldable pub round_robin_priority : RoundRobin → UeContext F.D → Bool → F.D
  unfolding buffer_of
  round_robin_priority p ue dl =
      if buffer_of dl ue == 0 then number F 0 else elim (lookup ue.rnti p.last_scheduled) [
        | none ↦ number F 1000
        | some slot ↦ number F ((p.current_slot + 2 ^ 32 - slot) % 2 ^ 32)
      ]

  unfoldable pub round_robin_update : RoundRobin → UeContext F.D → RoundRobin
  round_robin_update p ue = record p {
    last_scheduled = insert ue.rnti p.current_slot p.last_scheduled;
  }

  unfoldable pub round_robin_slot : RoundRobin → FrameTiming → RoundRobin
  round_robin_slot p timing = record p { current_slot = absolute_slot timing }

  unfoldable pub round_robin_policy : IPolicyManager F.D
  unfolding round_robin_priority round_robin_update round_robin_slot
  round_robin_policy = record {
    State = RoundRobin;
    calculate_priority = λ p ue cell dl. some (round_robin_priority p ue dl);
    update_history = λ now p ue bytes. round_robin_update p ue;
    on_slot_start = round_robin_slot;
  }

  unfoldable pub throughput_priority : UeContext F.D → Bool → F.D
  unfolding buffer_of effective_cqi smaller
  throughput_priority ue dl =
      let buffer = buffer_of dl ue in
      if buffer == 0
      then number F 0
      else F.mul (number F (effective_cqi ue))
          (smaller F (F.div (number F buffer) (number F 1000)) (number F 10))

  unfoldable pub max_throughput_policy : IPolicyManager F.D
  unfolding throughput_priority
  max_throughput_policy = record {
    State = Unit;
    calculate_priority = λ p ue cell dl. some (throughput_priority ue dl);
    update_history = λ now p ue bytes. p;
    on_slot_start = λ p timing. p;
  }

pub record QosAware (D : Type 0) : Type 0 where
  pub pf_policy : ProportionalFair D
  pub qos_weight : D

module _ (F : Floats) where
  -- The loop over the logical channels.
  unfoldable pub qos_boost : (boost : F.D) → Table (LogicalChannelConfig F.D) → F.D
  unfolding larger
  qos_boost boost [] = boost
  qos_boost boost ((lc_id, lc) ∷ channels) =
      let raised = larger F boost (F.div (number F 17) (number F (lc.priority + 1))) in
      qos_boost
        (elim lc.qos_params [
          | none ↦ raised
          | some params ↦
              if is_gbr params.characteristics.resource_type
              then F.mul raised (F.ratio 15 10)
              else raised
        ])
        channels

  unfoldable pub qos_aware_priority :
      QosAware F.D → UeContext F.D → CellContext F.D → Bool → Option F.D
  unfolding fair_priority qos_boost
  qos_aware_priority p ue cell dl = elim (fair_priority F p.pf_policy ue cell dl) [
    | none ↦ none
    | some pf_priority ↦
        some (F.mul pf_priority (F.pow (qos_boost (number F 1) ue.logical_channels) p.qos_weight))
  ]

  unfoldable pub qos_aware_policy : IPolicyManager F.D
  unfolding qos_aware_priority fair_update
  qos_aware_policy = record {
    State = QosAware F.D;
    calculate_priority = qos_aware_priority;
    update_history =
        λ now p ue bytes. record p { pf_policy = fair_update F now p.pf_policy ue bytes };
    on_slot_start = λ p timing. p;
  }

  abbrev pub fair_with : (alpha : F.D) → ProportionalFair F.D
  fair_with alpha = record { alpha = alpha; window_ms = 1000; rate_history = [] }

  unfoldable pub create_policy_manager : Strategy → PolicyObject F.D
  unfolding round_robin_policy max_throughput_policy proportional_fair_policy qos_aware_policy
  create_policy_manager round_robin = record {
    methods = round_robin_policy F;
    state = record { current_slot = 0; last_scheduled = [] };
  }
  create_policy_manager max_throughput = record { methods = max_throughput_policy F; state = tt }
  create_policy_manager qos_aware = record {
    methods = qos_aware_policy;
    state = record { pf_policy = fair_with (F.ratio 8 10); qos_weight = number F 2 };
  }
  create_policy_manager _ = record {
    methods = proportional_fair_policy F;
    state = fair_with (number F 1);
  }
