-- ===== src/Engine/Tti.antt =====
-- `build_dl_tti_request` and `build_ul_tti_request` of nr_scheduler/src/scheduler_engine.cpp.
pub mod Requests
use nr5g_basic_scheduler.Base.{
  ℕ, ◌+◌, ◌%◌, ◌^◌, Bool, true, false, if◌then◌else◌, none, some, List, [], ◌∷◌, ◌++◌,
}
use nr5g_basic_scheduler.Timing.{FrameTiming, absolute_slot, advanced}
use nr5g_basic_scheduler.Cell.{SlotContext, CellContext}
use nr5g_basic_scheduler.Phy.{PdschPdu, PuschPdu, DlTtiRequest, UlTtiRequest}
use nr5g_basic_scheduler.Engine.Tracker.{PendingFeedback, HarqTimingTracker, register_pending}
use nr5g_basic_scheduler.Engine.Types.{SchedulingDecision, Statistics, is_retx, find_ue}
use nr5g_basic_scheduler.Engine.State.{
  Environment, Engine, Output, dl_to_phy, ul_to_phy, dl_result, ul_result,
}

module _ {D : Type 0} where
  unfoldable pub pdsch_of : PdschPdu → SchedulingDecision D → PdschPdu
  pdsch_of blank d = record blank {
    rnti = d.rnti;
    rb_allocation = d.resources.rb_range;
    symbol_allocation = d.resources.symbol_range;
    mcs = d.tb_config.mcs_index;
    rv = d.tb_config.rv_index;
    ndi = d.tb_config.ndi;
    harq_id = d.harq_id;
    num_layers = d.tb_config.num_layers;
    tb_size = d.tb_config.tb_size_bytes;
  }

  unfoldable pub pusch_of : PuschPdu → SchedulingDecision D → PuschPdu
  pusch_of blank d = record blank {
    rnti = d.rnti;
    rb_allocation = d.resources.rb_range;
    symbol_allocation = d.resources.symbol_range;
    mcs = d.tb_config.mcs_index;
    rv = d.tb_config.rv_index;
    ndi = d.tb_config.ndi;
    harq_id = d.harq_id;
    num_layers = d.tb_config.num_layers;
    tb_size = d.tb_config.tb_size_bytes;
  }

  unfoldable pub feedback_for :
      (cell_id : ℕ) → Bool → FrameTiming → SchedulingDecision D → PendingFeedback
  feedback_for cell_id dl timing d = record {
    cell_id = cell_id;
    rnti = d.rnti;
    harq_id = d.harq_id;
    is_downlink = dl;
    tx_slot = absolute_slot timing;
  }

  unfoldable pub count_dl : SchedulingDecision D → Statistics D → Statistics D
  count_dl d stats = record stats {
    dl_bytes_scheduled = (stats.dl_bytes_scheduled + d.tb_config.tb_size_bytes) % 2 ^ 64;
    dl_ues_scheduled = (stats.dl_ues_scheduled + 1) % 2 ^ 64;
    dl_retransmissions =
        if is_retx d.type
        then (stats.dl_retransmissions + 1) % 2 ^ 64
        else stats.dl_retransmissions;
  }

  unfoldable pub count_ul : SchedulingDecision D → Statistics D → Statistics D
  count_ul d stats = record stats {
    ul_bytes_scheduled = (stats.ul_bytes_scheduled + d.tb_config.tb_size_bytes) % 2 ^ 64;
    ul_ues_scheduled = (stats.ul_ues_scheduled + 1) % 2 ^ 64;
    ul_retransmissions =
        if is_retx d.type
        then (stats.ul_retransmissions + 1) % 2 ^ 64
        else stats.ul_retransmissions;
  }

  unfoldable pub count_slot_dl : SchedulingDecision D → SlotContext → SlotContext
  count_slot_dl d slot = record slot {
    dl_bytes_scheduled = (slot.dl_bytes_scheduled + d.tb_config.tb_size_bytes) % 2 ^ 32;
    ues_scheduled_dl = (slot.ues_scheduled_dl + 1) % 2 ^ 16;
  }

  unfoldable pub count_slot_ul : SchedulingDecision D → SlotContext → SlotContext
  count_slot_ul d slot = record slot {
    ul_bytes_scheduled = (slot.ul_bytes_scheduled + d.tb_config.tb_size_bytes) % 2 ^ 32;
    ues_scheduled_ul = (slot.ues_scheduled_ul + 1) % 2 ^ 16;
  }

-- How many slots after the downlink block, and after the uplink block, its feedback is expected.
abbrev pub k1_offset : ℕ
k1_offset = 4

abbrev pub crc_offset : ℕ
crc_offset = 2

-- What the loops over the decisions build and change.
pub record Built (Pdu D : Type 0) : Type 0 where
  pub pdus : List Pdu
  pub tracker : HarqTimingTracker
  pub stats : Statistics D
  pub slot : SlotContext

module _ {D : Type 0} where
  unfoldable pub add_pdsch :
      PdschPdu
      → CellContext D
      → FrameTiming
      → SchedulingDecision D
      → Built PdschPdu D
      → Built PdschPdu D
  unfolding pdsch_of feedback_for count_dl count_slot_dl
  add_pdsch blank cell timing d b = elim (find_ue cell.ue_repository d.rnti) [
    | none ↦ b
    | some ue ↦ record {
      pdus = b.pdus ++ pdsch_of blank d ∷ [];
      tracker =
          register_pending b.tracker (absolute_slot (advanced timing k1_offset))
            (feedback_for cell.config.cell_id true timing d);
      stats = count_dl d b.stats;
      slot = count_slot_dl d b.slot;
    }
  ]

  unfoldable pub add_pusch :
      PuschPdu
      → CellContext D
      → FrameTiming
      → SchedulingDecision D
      → Built PuschPdu D
      → Built PuschPdu D
  unfolding pusch_of feedback_for count_ul count_slot_ul
  add_pusch blank cell timing d b = elim (find_ue cell.ue_repository d.rnti) [
    | none ↦ b
    | some ue ↦ record {
      pdus = b.pdus ++ pusch_of blank d ∷ [];
      tracker =
          register_pending b.tracker (absolute_slot (advanced timing crc_offset))
            (feedback_for cell.config.cell_id false timing d);
      stats = count_ul d b.stats;
      slot = count_slot_ul d b.slot;
    }
  ]

-- A loop over the decisions.
unfoldable pub add_all :
    {D B : Type 0} → (SchedulingDecision D → B → B) → List (SchedulingDecision D) → B → B
add_all add [] b = b
add_all add (d ∷ ds) b = add_all add ds (add d b)

-- A call that is made where the PHY or the callback is there.
unfoldable pub call_if : Bool → Output → List Output → List Output
call_if present output outputs = if present then outputs ++ output ∷ [] else outputs

module _ (E : Environment) where
  unfoldable pub build_dl_tti_request :
      Engine E
      → CellContext E.floats.D
      → List (SchedulingDecision E.floats.D)
      → Engine E × CellContext E.floats.D
  unfolding add_pdsch add_all call_if
  build_dl_tti_request s cell decisions =
      let timing = cell.current_slot.timing in
      let cell_id = cell.config.cell_id in
      let b = add_all (add_pdsch E.blank_pdsch cell timing) decisions (record {
        pdus = [];
        tracker = s.harq_tracker;
        stats = s.stats;
        slot = cell.current_slot;
      }) in
      let request : DlTtiRequest = record {
        timing = timing;
        cell_id = cell_id;
        pdcch_pdus = [];
        pdsch_pdus = b.pdus;
        csirs_pdus = [];
        ssb_pdus = [];
      } in
      (
        record s {
          harq_tracker = b.tracker;
          stats = b.stats;
          outputs =
              call_if s.dl_result_callback (dl_result cell_id request)
                (call_if s.phy_interface (dl_to_phy request) s.outputs);
        },
        record cell { current_slot = b.slot },
      )

  unfoldable pub build_ul_tti_request :
      Engine E
      → CellContext E.floats.D
      → List (SchedulingDecision E.floats.D)
      → Engine E × CellContext E.floats.D
  unfolding add_pusch add_all call_if
  build_ul_tti_request s cell decisions =
      let timing = advanced cell.current_slot.timing s.config.scheduling_offset_slots in
      let cell_id = cell.config.cell_id in
      let b = add_all (add_pusch E.blank_pusch cell timing) decisions (record {
        pdus = [];
        tracker = s.harq_tracker;
        stats = s.stats;
        slot = cell.current_slot;
      }) in
      let request : UlTtiRequest = record {
        timing = timing;
        cell_id = cell_id;
        pusch_pdus = b.pdus;
        pucch_pdus = [];
        srs_pdus = [];
        prach_pdus = [];
      } in
      (
        record s {
          harq_tracker = b.tracker;
          stats = b.stats;
          outputs =
              call_if s.ul_result_callback (ul_result cell_id request)
                (call_if s.phy_interface (ul_to_phy request) s.outputs);
        },
        record cell { current_slot = b.slot },
      )
