-- ===== src/Qos/Flows.antt =====
-- The operations of nr_scheduler/src/qos_engine.cpp that add, remove and find flows.
use nr5g_basic_scheduler.Base.{
  ℕ, ◌+◌, ◌-◌, ◌*◌, ◌/◌, ◌%◌, ◌^◌, Bool, true, false, if◌then◌else◌, Option, none, some, [], ◌∷◌,
}
use nr5g_basic_scheduler.Base.Int.{pos}
use nr5g_basic_scheduler.Base.Table.{Table, lookup, insert, erase}
use nr5g_basic_scheduler.Qos.{
  is_gbr, is_guaranteed, QosFlowParams, QosEngineConfig, TokenBucket, GbrTracker, DelayTracker,
  QosFlowState, QosStats, QosEngine,
}

-- `init_bucket`
unfoldable pub init_bucket : (rate_bps depth_ms now : ℕ) → TokenBucket
init_bucket rate_bps depth_ms now =
    let size = rate_bps * depth_ms % 2 ^ 64 / 8000 in
    record { fill_rate_bps = rate_bps; bucket_size = size; tokens = pos size; last_update = now }

-- A tracker before any packet; its time of arrival is not set, and not read until it is.
abbrev pub new_delay_tracker : ℕ → DelayTracker
new_delay_tracker pdb_ms = record {
  pdb_ms = pdb_ms;
  oldest_packet_arrival = 0;
  has_pending_data = false;
}

module _ {D : Type 0} where
  unfoldable pub new_flow : QosEngineConfig D → QosFlowParams D → (now : ℕ) → QosFlowState D
  unfolding init_bucket
  new_flow config params now =
      let limited = is_guaranteed params.characteristics.resource_type in
      let depth = config.token_bucket_depth_ms in
      let pdb = params.characteristics.packet_delay_budget_ms in
      let gbr_tracker : GbrTracker = record {
        history = [];
        window_ms = config.gbr_measurement_window_ms;
      } in
      record {
        qfi = params.qfi;
        params = params;
        dl_bucket = init_bucket (if limited then params.mbr_dl_bps else 1000000000) depth now;
        ul_bucket = init_bucket (if limited then params.mbr_ul_bps else 1000000000) depth now;
        dl_gbr_tracker = gbr_tracker;
        ul_gbr_tracker = gbr_tracker;
        dl_delay_tracker = new_delay_tracker pdb;
        ul_delay_tracker = new_delay_tracker pdb;
        total_dl_bytes = 0;
        total_ul_bytes = 0;
        pdb_violations = 0;
        gbr_violations = 0;
      }

  -- `flows[rnti]`, which is empty for a UE without flows.
  unfoldable pub flows_of : Table (Table (QosFlowState D)) → ℕ → Table (QosFlowState D)
  flows_of flows rnti = elim (lookup rnti flows) [ none ↦ [] | some ue_flows ↦ ue_flows ]

  unfoldable pub register_flow : QosEngine D → ℕ → QosFlowParams D → (now : ℕ) → QosEngine D
  unfolding new_flow flows_of
  register_flow e rnti params now = record e {
    flows =
        insert rnti (insert params.qfi (new_flow e.config params now) (flows_of e.flows rnti))
          e.flows;
    stats = record e.stats {
      gbr_flows =
          if is_guaranteed params.characteristics.resource_type
          then (e.stats.gbr_flows + 1) % 2 ^ 64
          else e.stats.gbr_flows;
      total_flows = (e.stats.total_flows + 1) % 2 ^ 64;
    };
  }

  -- What one flow takes off the counters.
  unfoldable pub uncount : QosFlowState D → QosStats D → QosStats D
  uncount flow s = record s {
    gbr_flows =
        if is_gbr flow.params.characteristics.resource_type
        then (s.gbr_flows + 2 ^ 64 - 1) % 2 ^ 64
        else s.gbr_flows;
    total_flows = (s.total_flows + 2 ^ 64 - 1) % 2 ^ 64;
  }

  unfoldable pub remove_flow : QosEngine D → (rnti qfi : ℕ) → QosEngine D
  unfolding uncount
  remove_flow e rnti qfi = elim (lookup rnti e.flows) [
    | none ↦ e
    | some ue_flows ↦ elim (lookup qfi ue_flows) [
      | none ↦ e
      | some flow ↦ record e {
        flows = insert rnti (erase qfi ue_flows) e.flows;
        stats = uncount flow e.stats;
      }
    ]
  ]

  unfoldable pub uncount_all : Table (QosFlowState D) → QosStats D → QosStats D
  unfolding uncount
  uncount_all [] s = s
  uncount_all ((qfi, flow) ∷ t) s = uncount_all t (uncount flow s)

  unfoldable pub remove_ue_flows : QosEngine D → ℕ → QosEngine D
  unfolding uncount_all
  remove_ue_flows e rnti = elim (lookup rnti e.flows) [
    | none ↦ e
    | some ue_flows ↦ record e { flows = erase rnti e.flows; stats = uncount_all ue_flows e.stats }
  ]

  -- The two lookups that the other operations begin with.
  unfoldable pub find_flow : QosEngine D → (rnti qfi : ℕ) → Option (QosFlowState D)
  find_flow e rnti qfi = elim (lookup rnti e.flows) [
    | none ↦ none
    | some ue_flows ↦ lookup qfi ue_flows
  ]

  -- The engine with a flow changed through a reference.
  unfoldable pub put_flow : QosEngine D → (rnti qfi : ℕ) → QosFlowState D → QosEngine D
  unfolding flows_of
  put_flow e rnti qfi flow = record e {
    flows = insert rnti (insert qfi flow (flows_of e.flows rnti)) e.flows;
  }

  -- `is_downlink ? flow.dl_bucket : flow.ul_bucket`, read and written.
  unfoldable pub bucket_of : Bool → QosFlowState D → TokenBucket
  bucket_of dl flow = if dl then flow.dl_bucket else flow.ul_bucket

  unfoldable pub with_bucket : Bool → QosFlowState D → TokenBucket → QosFlowState D
  with_bucket true flow b = record flow { dl_bucket = b }
  with_bucket false flow b = record flow { ul_bucket = b }

  unfoldable pub gbr_tracker_of : Bool → QosFlowState D → GbrTracker
  gbr_tracker_of dl flow = if dl then flow.dl_gbr_tracker else flow.ul_gbr_tracker

  unfoldable pub delay_tracker_of : Bool → QosFlowState D → DelayTracker
  delay_tracker_of dl flow = if dl then flow.dl_delay_tracker else flow.ul_delay_tracker

  unfoldable pub with_delay_tracker : Bool → QosFlowState D → DelayTracker → QosFlowState D
  with_delay_tracker true flow d = record flow { dl_delay_tracker = d }
  with_delay_tracker false flow d = record flow { ul_delay_tracker = d }
