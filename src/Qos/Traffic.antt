-- ===== src/Qos/Traffic.antt =====
-- The operations of nr_scheduler/src/qos_engine.cpp while data arrives and leaves: rates, delays and
-- the slot tick.
use nr5g_basic_scheduler.Base.{
  ℕ, ◌+◌, ◌-◌, ◌%◌, ◌^◌, Bool, true, false, if◌then◌else◌, none, some, [], ◌∷◌,
}
use nr5g_basic_scheduler.Base.Int.{pos, pos_part, ◌-ℤ◌}
use nr5g_basic_scheduler.Base.Table.{Table}
use nr5g_basic_scheduler.Base.Floats.{Floats, number}
use nr5g_basic_scheduler.Qos.{
  QosEngineConfig, update, add_sample, packet_arrived, packet_transmitted, urgency, QosFlowState,
  QosEngine,
}
use nr5g_basic_scheduler.Qos.Flows.{
  find_flow, put_flow, bucket_of, with_bucket, delay_tracker_of, with_delay_tracker,
}

module _ {D : Type 0} where
  -- `UINT32_MAX` without a flow.
  unfoldable pub get_allowed_bytes :
      QosEngine D → (rnti qfi : ℕ) → Bool → (now : ℕ) → QosEngine D × ℕ
  unfolding find_flow put_flow bucket_of with_bucket update
  get_allowed_bytes e rnti qfi dl now = elim (find_flow e rnti qfi) [
    | none ↦ (e, 2 ^ 32 - 1)
    | some flow ↦
        let bucket = update (bucket_of dl flow) now in
        (put_flow e rnti qfi (with_bucket dl flow bucket), pos_part bucket.tokens % 2 ^ 32)
  ]

  -- The changes to the flow: the bucket, which may go below zero, the tracker and the count.
  unfoldable pub transmitted :
      Bool → QosFlowState D → (bytes bucket_now sample_now : ℕ) → QosFlowState D
  unfolding update ◌-ℤ◌ add_sample
  transmitted true flow bytes bucket_now sample_now =
      let b = update flow.dl_bucket bucket_now in
      record flow {
        dl_bucket = record b { tokens = b.tokens -ℤ pos bytes };
        dl_gbr_tracker = add_sample flow.dl_gbr_tracker sample_now bytes;
        total_dl_bytes = (flow.total_dl_bytes + bytes) % 2 ^ 64;
      }
  transmitted false flow bytes bucket_now sample_now =
      let b = update flow.ul_bucket bucket_now in
      record flow {
        ul_bucket = record b { tokens = b.tokens -ℤ pos bytes };
        ul_gbr_tracker = add_sample flow.ul_gbr_tracker sample_now bytes;
        total_ul_bytes = (flow.total_ul_bytes + bytes) % 2 ^ 64;
      }

  unfoldable pub report_transmission :
      QosEngine D → (rnti qfi : ℕ) → Bool → (bytes bucket_now sample_now : ℕ) → QosEngine D
  unfolding find_flow put_flow transmitted
  report_transmission e rnti qfi dl bytes bucket_now sample_now = elim (find_flow e rnti qfi) [
    | none ↦ e
    | some flow ↦ put_flow e rnti qfi (transmitted dl flow bytes bucket_now sample_now)
  ]

  unfoldable pub notify_data_arrival : QosEngine D → (rnti qfi : ℕ) → Bool → (now : ℕ) → QosEngine D
  unfolding find_flow put_flow delay_tracker_of with_delay_tracker packet_arrived
  notify_data_arrival e rnti qfi dl now = elim (find_flow e rnti qfi) [
    | none ↦ e
    | some flow ↦
        put_flow e rnti qfi
          (with_delay_tracker dl flow (packet_arrived (delay_tracker_of dl flow) now))
  ]

  unfoldable pub tick_flows : (now : ℕ) → Table (QosFlowState D) → Table (QosFlowState D)
  unfolding update
  tick_flows now [] = []
  tick_flows now ((qfi, flow) ∷ t) =
      (
        qfi,
        record flow {
          dl_bucket = update flow.dl_bucket now;
          ul_bucket = update flow.ul_bucket now;
        },
      )
      ∷ tick_flows now t

  unfoldable pub tick_ues :
      (now : ℕ) → Table (Table (QosFlowState D)) → Table (Table (QosFlowState D))
  unfolding tick_flows
  tick_ues now [] = []
  tick_ues now ((rnti, ue_flows) ∷ t) = (rnti, tick_flows now ue_flows) ∷ tick_ues now t

  unfoldable pub on_slot_tick : QosEngine D → (now : ℕ) → QosEngine D
  unfolding tick_ues
  on_slot_tick e now = record e { flows = tick_ues now e.flows }

  unfoldable pub update_config : QosEngine D → QosEngineConfig D → QosEngine D
  update_config e config = record e { config = config }

module _ (F : Floats) where
  unfoldable pub notify_data_transmitted :
      QosEngine F.D → (rnti qfi : ℕ) → Bool → (now : ℕ) → QosEngine F.D
  unfolding find_flow put_flow delay_tracker_of with_delay_tracker packet_transmitted urgency
  notify_data_transmitted e rnti qfi dl now = elim (find_flow e rnti qfi) [
    | none ↦ e
    | some flow ↦
        let tracker = delay_tracker_of dl flow in
        let late = F.gtb (urgency F tracker now) (number F 1) in
        let counted = with_delay_tracker dl flow (packet_transmitted tracker) in
        put_flow
          (if late
            then record e {
              stats = record e.stats { pdb_violations = (e.stats.pdb_violations + 1) % 2 ^ 64 };
            }
            else e)
          rnti qfi
          (if late
            then record counted { pdb_violations = (flow.pdb_violations + 1) % 2 ^ 32 }
            else counted)
  ]

  unfoldable pub reset_statistics : QosEngine F.D → QosEngine F.D
  reset_statistics e = record e {
    stats = record {
      total_flows = 0;
      gbr_flows = 0;
      delay_critical_events = 0;
      pdb_violations = 0;
      mbr_throttle_events = 0;
      total_delay_margin = number F 0;
      delay_samples = 0;
    };
  }
