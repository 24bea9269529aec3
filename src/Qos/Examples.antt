-- ===== src/Qos/Examples.antt =====
-- Tests of the QoS engine, and its theorems at concrete inputs. `thousandths` stands for `double`:
-- numbers in steps of a thousandth, rounded down.
use nr5g_basic_scheduler.Base.{ℕ, ◌+◌, ◌-◌, ◌*◌, ◌≤◌, ◌≡◌, refl, true, false, [], ◌∷◌, arith}
use nr5g_basic_scheduler.Base.Int.{ℤ, pos, negsuc, ◌-ℤ◌, ◌+ℤ◌}
use nr5g_basic_scheduler.Base.Thousandths.{thousandths}
use nr5g_basic_scheduler.Qos.{
  delay_c, QosFlowParams, QosEngineConfig, TokenBucket, update, consume, min_ℤ, GbrTracker,
  add_sample, current_rate_bps, QosFlowState, QosEngine,
}
use nr5g_basic_scheduler.Qos.Flows.{register_flow, remove_flow, find_flow, bucket_of}
use nr5g_basic_scheduler.Qos.Traffic.{report_transmission, get_allowed_bytes}
use nr5g_basic_scheduler.Qos.Priority.{calculate_priority}
use nr5g_basic_scheduler.Qos.Counting.{remove_flow-register_flow}
use nr5g_basic_scheduler.Qos.Limits.{begun, updated, consumed, consume_bounded}
use nr5g_basic_scheduler.Qos.Throttle.{
  calculate_priority_overdrawn, get_allowed_bytes-report_transmission,
}

abbrev config : QosEngineConfig ℕ
config = record {
  gbr_enforcement_strictness = 950;
  gbr_measurement_window_ms = 100;
  delay_margin_factor = 800;
  delay_check_granularity_ms = 1;
  enable_mbr_enforcement = true;
  token_bucket_depth_ms = 10;
  use_dynamic_priority = true;
  delay_urgency_weight = 2000;
  gbr_deficit_weight = 1500;
}

-- A delay-critical flow of at most 8 megabits per second.
abbrev params : QosFlowParams ℕ
params = record {
  qfi = 5;
  characteristics = record {
    fiveqi = 82;
    resource_type = delay_c;
    priority_level = 19;
    packet_delay_budget_ms = 10;
    packet_error_rate = 0;
    averaging_window_ms = 0;
    max_data_burst_volume = 0;
  };
  gbr_dl_bps = 4000000;
  gbr_ul_bps = 4000000;
  mbr_dl_bps = 8000000;
  mbr_ul_bps = 8000000;
}

abbrev empty_engine : QosEngine ℕ
empty_engine = record {
  config = config;
  flows = [];
  stats = record {
    total_flows = 0;
    gbr_flows = 0;
    delay_critical_events = 0;
    pdb_violations = 0;
    mbr_throttle_events = 0;
    total_delay_margin = 0;
    delay_samples = 0;
  };
}

abbrev bucket : ℤ → TokenBucket
bucket tokens = record {
  tokens = tokens;
  bucket_size = 10000;
  fill_rate_bps = 8000000;
  last_update = 0;
}

abbrev flow : ℤ → QosFlowState ℕ
flow tokens = record {
  qfi = 5;
  params = params;
  dl_bucket = bucket tokens;
  ul_bucket = bucket tokens;
  dl_gbr_tracker = record { history = []; window_ms = 100 };
  ul_gbr_tracker = record { history = []; window_ms = 100 };
  dl_delay_tracker = record { pdb_ms = 10; oldest_packet_arrival = 0; has_pending_data = false };
  ul_delay_tracker = record { pdb_ms = 10; oldest_packet_arrival = 0; has_pending_data = false };
  total_dl_bytes = 0;
  total_ul_bytes = 0;
  pdb_violations = 0;
  gbr_violations = 0;
}

abbrev one_flow : ℤ → QosEngine ℕ
one_flow tokens = record empty_engine { flows = (17, (5, flow tokens) ∷ []) ∷ [] }

-- Two samples 50 milliseconds apart; a third, after the window of the first, drops that.
abbrev tracker : GbrTracker
tracker = record { history = (0, 1000) ∷ (50000000, 1000) ∷ []; window_ms = 100 }

rate_of_two : current_rate_bps tracker ≡ 320000
unfolding current_rate_bps
rate_of_two = refl

drops_the_oldest :
    (add_sample tracker 120000000 500).history ≡ (50000000, 1000) ∷ (120000000, 500) ∷ []
unfolding add_sample
drops_the_oldest = refl

remove_flow-register_flow_example :
    ((r q : ℕ)
      → find_flow (remove_flow (register_flow empty_engine 17 params 3) 17 5) r q
        ≡ find_flow empty_engine r q)
    × ((remove_flow (register_flow empty_engine 17 params 3) 17 5).stats.total_flows ≡ 0)
    × ((remove_flow (register_flow empty_engine 17 params 3) 17 5).stats.gbr_flows ≡ 1)
unfolding find_flow
remove_flow-register_flow_example =
    remove_flow-register_flow empty_engine 17 3 params refl (omega arith) (omega arith)

abbrev after_run : TokenBucket
unfolding update consume
after_run = update ((consume (bucket (pos 10000)) 6000).0) 500000

consume_bounded_example :
    (left : ℕ) × (after_run.tokens ≡ pos left)
    × (left ≤ (bucket (pos 10000)).bucket_size)
    × (1000000000 * (6000 + left) ≤ 1000000000 * 10000 + 8000000 * (500000 - 0))
unfolding update consume after_run min_ℤ ◌+ℤ◌ ◌-ℤ◌
consume_bounded_example =
    consume_bounded (bucket (pos 10000)) 10000 {n = 6000} {b = after_run} refl (omega arith) (
      updated {n = 6000} {b = (consume (bucket (pos 10000)) 6000).0} 500000
        (consumed {n = 0} {b = bucket (pos 10000)} 6000 begun) (omega arith) (omega arith))

calculate_priority_overdrawn_example :
    (calculate_priority thousandths
      (one_flow (negsuc 4999))
      17
      5
      true
      60000
      0
      0).1.max_bytes_allowed
    ≡ 60000
unfolding find_flow update bucket_of
calculate_priority_overdrawn_example =
    calculate_priority_overdrawn thousandths (one_flow (negsuc 4999)) 17 5 true 60000 0 0
      (flow (negsuc 4999)) 4999 refl refl refl (omega arith) (omega arith)

get_allowed_bytes-report_transmission_example :
    (get_allowed_bytes (report_transmission (one_flow (pos 9000)) 17 5 true 4000 0 0) 17 5 true 0).1
    ≡ (get_allowed_bytes (one_flow (pos 9000)) 17 5 true 0).1 - 4000
unfolding find_flow update bucket_of
get_allowed_bytes-report_transmission_example =
    get_allowed_bytes-report_transmission (one_flow (pos 9000)) 17 5 true 4000 0 0 (flow (pos 9000))
      refl (omega arith)
