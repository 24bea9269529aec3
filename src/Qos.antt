-- ===== src/Qos.antt =====
-- The QoS types of nr_scheduler/include/core/nr_types.hpp and
-- nr_scheduler/include/services/qos_engine.hpp, with the functions of the three trackers. A
-- `steady_clock::time_point` is a number of nanoseconds, which never falls; where the code reads the
-- clock, the model takes the reading. `int64_t` counts of bytes are integers: they leave their range
-- only after hours without an update.
pub mod Table5qi
pub mod Flows
pub mod Traffic
pub mod Priority
pub mod Rate
pub mod Counting
pub mod Limits
pub mod Throttle
pub mod Stats
mod Examples
use nr5g_basic_scheduler.Base.{
  ℕ, zero, suc, ◌+◌, ◌-◌, ◌*◌, ◌/◌, ◌%◌, ◌^◌, Bool, true, false, ltb, ◌==◌, if◌then◌else◌, ◌||◌,
  Option, none, some, List, [], ◌∷◌, ◌++◌, length, arith,
}
use nr5g_basic_scheduler.Base.Int.{ℤ, pos, ◌+ℤ◌, ◌-ℤ◌, ltb_ℤ}
use nr5g_basic_scheduler.Base.Table.{Table}
use nr5g_basic_scheduler.Base.Floats.{Floats, number}

pub data QosResourceType : Type 0 where
  gbr non_gbr delay_c : QosResourceType

-- `resource_type == GBR`, and `GBR` or `DelayC`
abbrev pub is_gbr : QosResourceType → Bool
is_gbr gbr = true
is_gbr _ = false

abbrev pub is_delay_c : QosResourceType → Bool
is_delay_c delay_c = true
is_delay_c _ = false

abbrev pub is_guaranteed : QosResourceType → Bool
is_guaranteed t = is_gbr t || is_delay_c t

pub record QosCharacteristics (D : Type 0) : Type 0 where
  pub fiveqi : ℕ
  pub resource_type : QosResourceType
  pub priority_level : ℕ
  pub packet_delay_budget_ms : ℕ
  pub packet_error_rate : D
  pub averaging_window_ms : ℕ
  pub max_data_burst_volume : ℕ

pub record QosFlowParams (D : Type 0) : Type 0 where
  pub qfi : ℕ
  pub characteristics : QosCharacteristics D
  pub gbr_dl_bps : ℕ
  pub gbr_ul_bps : ℕ
  pub mbr_dl_bps : ℕ
  pub mbr_ul_bps : ℕ

pub record QosEngineConfig (D : Type 0) : Type 0 where
  pub gbr_enforcement_strictness : D
  pub gbr_measurement_window_ms : ℕ
  pub delay_margin_factor : D
  pub delay_check_granularity_ms : ℕ
  pub enable_mbr_enforcement : Bool
  pub token_bucket_depth_ms : ℕ
  pub use_dynamic_priority : Bool
  pub delay_urgency_weight : D
  pub gbr_deficit_weight : D

pub record TokenBucket : Type 0 where
  pub tokens : ℤ
  pub bucket_size : ℕ
  pub fill_rate_bps : ℕ
  pub last_update : ℕ

unfoldable pub min_ℤ : ℤ → ℤ → ℤ
min_ℤ a b = if ltb_ℤ b a then b else a

-- As long as the product and the sum fit in `int64_t`; past that C++ leaves the result undefined.
unfoldable pub update : TokenBucket → (now : ℕ) → TokenBucket
unfolding ◌+ℤ◌ min_ℤ
update b now =
    let elapsed = (now - b.last_update) / 1000 in
    let new_tokens = b.fill_rate_bps * elapsed / 1000000 in
    record b { tokens = min_ℤ (b.tokens +ℤ pos new_tokens) (pos b.bucket_size); last_update = now }

unfoldable pub consume : TokenBucket → ℕ → TokenBucket × Bool
unfolding ◌-ℤ◌
consume b bytes =
    if ltb_ℤ b.tokens (pos bytes)
    then (b, false)
    else (record b { tokens = b.tokens -ℤ pos bytes }, true)

-- A sample is its time and its bytes; the oldest comes first.
pub record GbrTracker : Type 0 where
  pub history : List (ℕ × ℕ)
  pub window_ms : ℕ

-- `while (!history.empty() && history.front().first < cutoff)`, with the cutoff before `now`.
unfoldable pub prune : (now window_ns : ℕ) → List (ℕ × ℕ) → List (ℕ × ℕ)
prune now window_ns [] = []
prune now window_ns ((t, bytes) ∷ samples) =
    let rest = prune now window_ns samples in
    if ltb (t + window_ns) now then rest else (t, bytes) ∷ samples

unfoldable pub add_sample : GbrTracker → (now bytes : ℕ) → GbrTracker
unfolding prune
add_sample g now bytes = record g {
  history = prune now (g.window_ms * 1000000) (g.history ++ (now, bytes) ∷ []);
}

unfoldable pub total_bytes : List (ℕ × ℕ) → ℕ
total_bytes [] = 0
total_bytes ((t, bytes) ∷ samples) = (bytes + total_bytes samples) % 2 ^ 64

unfoldable pub newest_from : ℕ → List (ℕ × ℕ) → ℕ
newest_from t [] = t
newest_from t ((u, bytes) ∷ samples) = newest_from u samples

unfoldable pub current_rate_bps : GbrTracker → ℕ
unfolding total_bytes newest_from
current_rate_bps g = elim g.history [
  | [] ↦ 0
  | (oldest, bytes) ∷ samples ↦
      let duration = (newest_from oldest samples - oldest) / 1000000 in
      if length samples == 0
      then 0
      else if duration == 0
      then 0
      else total_bytes ((oldest, bytes) ∷ samples) * 8000 % 2 ^ 64 / duration
]

pub record DelayTracker : Type 0 where
  pub pdb_ms : ℕ
  pub oldest_packet_arrival : ℕ
  pub has_pending_data : Bool

unfoldable pub packet_arrived : DelayTracker → (now : ℕ) → DelayTracker
packet_arrived d now =
    if d.has_pending_data
    then d
    else record d { oldest_packet_arrival = now; has_pending_data = true }

unfoldable pub packet_transmitted : DelayTracker → DelayTracker
packet_transmitted d = record d { has_pending_data = false }

unfoldable pub urgency : (F : Floats) → DelayTracker → (now : ℕ) → F.D
urgency F d now =
    if d.has_pending_data
    then F.div (number F ((now - d.oldest_packet_arrival) / 1000000)) (number F d.pdb_ms)
    else number F 0

unfoldable pub is_critical : (F : Floats) → DelayTracker → (now : ℕ) → Bool
unfolding urgency
is_critical F d now = F.gtb (urgency F d now) (F.ratio 8 10)

pub record QosFlowState (D : Type 0) : Type 0 where
  pub qfi : ℕ
  pub params : QosFlowParams D
  pub dl_bucket : TokenBucket
  pub ul_bucket : TokenBucket
  pub dl_gbr_tracker : GbrTracker
  pub ul_gbr_tracker : GbrTracker
  pub dl_delay_tracker : DelayTracker
  pub ul_delay_tracker : DelayTracker
  pub total_dl_bytes : ℕ
  pub total_ul_bytes : ℕ
  pub pdb_violations : ℕ
  pub gbr_violations : ℕ

pub record QosStats (D : Type 0) : Type 0 where
  pub total_flows : ℕ
  pub gbr_flows : ℕ
  pub delay_critical_events : ℕ
  pub pdb_violations : ℕ
  pub mbr_throttle_events : ℕ
  pub total_delay_margin : D
  pub delay_samples : ℕ

pub record QosEngine (D : Type 0) : Type 0 where
  pub config : QosEngineConfig D
  pub flows : Table (Table (QosFlowState D))
  pub stats : QosStats D
