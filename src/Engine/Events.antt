-- ===== src/Engine/Events.antt =====
-- The other operations of `SchedulerEngine` in nr_scheduler/src/scheduler_engine.cpp: cells, the start
-- and the stop, the handlers of events, the configuration and the counters. `none` is undefined
-- behaviour.
use nr5g_basic_scheduler.Base.{
  ◌∷◌, ◌++◌, ℕ, ◌+◌, ◌%◌, ◌^◌, Bool, true, false, not, ltb, ◌&&◌, if◌then◌else◌, Option, none, some,
  [], get_elem?,
}
use nr5g_basic_scheduler.Base.Table.{lookup, has, insert, erase}
use nr5g_basic_scheduler.Timing.{absolute_slot}
use nr5g_basic_scheduler.Harq.{HarqFeedback}
use nr5g_basic_scheduler.Slice.{Orchestrator}
use nr5g_basic_scheduler.Slice.Manage.{associate_ue, disassociate_ue}
use nr5g_basic_scheduler.Qos.{QosEngine}
use nr5g_basic_scheduler.Qos.Flows.{remove_ue_flows}
use nr5g_basic_scheduler.Ue.{
  UeContext, UeRepository, ChannelQualityInfo, create_ue, remove_ue, find_by_rnti, update_dl_buffer,
  process_harq_feedback,
}
use nr5g_basic_scheduler.Cell.{CellConfig, new_cell}
use nr5g_basic_scheduler.Mac.{
  UeConfigRequest, UeReleaseRequest, DlDataNotification, BufferStatusReport, SchedulingRequest,
  PowerHeadroomReport, Event,
}
use nr5g_basic_scheduler.Mac
use nr5g_basic_scheduler.Engine.Tracker.{get_all_for_slot, find_and_remove}
use nr5g_basic_scheduler.Engine.Types.{SchedulerConfig, find_ue}
use nr5g_basic_scheduler.Engine.Policy.{PolicyObject, create_policy_manager}
use nr5g_basic_scheduler.Engine.State.{register_slot_callback, Environment, Clock, Engine}
use nr5g_basic_scheduler.Engine.Slots.{on_slot_indication}
use nr5g_basic_scheduler.Engine.Changes.{
  set_ue, configured, reported, count_nack, match_feedback, no_statistics,
}

module _ (E : Environment) where
  -- The constructor, with the two services as their constructors make them.
  unfoldable pub new_engine :
      SchedulerConfig E.floats.D → QosEngine E.floats.D → Orchestrator E.floats.D → Engine E
  unfolding create_policy_manager no_statistics
  new_engine config qos slices = record {
    config = config;
    running = false;
    cells = [];
    policy_manager = create_policy_manager E.floats config.strategy;
    qos_engine = qos;
    slice_orchestrator = slices;
    harq_tracker = [];
    managers = [];
    phy_interface = false;
    dl_result_callback = false;
    ul_result_callback = false;
    stats = no_statistics E.floats;
    outputs = [];
  }

  unfoldable pub add_cell : Engine E → CellConfig → Engine E × Bool
  unfolding new_cell
  add_cell s config = if has config.cell_id s.cells then (s, false) else (
    record s {
      managers = insert config.cell_id E.new_managers s.managers;
      cells = insert config.cell_id (new_cell E.no_slot config) s.cells;
    },
    true,
  )

  unfoldable pub remove_cell : Engine E → (cell_id : ℕ) → Engine E
  remove_cell s cell_id = record s {
    cells = erase cell_id s.cells;
    managers = erase cell_id s.managers;
  }

  unfoldable pub set_phy_interface : Engine E → Bool → Engine E
  set_phy_interface s phy = record s { phy_interface = phy }

  unfoldable pub set_policy_manager : Engine E → PolicyObject E.floats.D → Engine E
  set_policy_manager s policy = record s { policy_manager = policy }

  -- The callback that the PHY gets is `on_slot_indication`.
  unfoldable pub start : Engine E → Engine E × Bool
  start s = if s.running then (s, false) else (
    record s {
      running = true;
      outputs = if s.phy_interface then s.outputs ++ register_slot_callback ∷ [] else s.outputs;
    },
    true,
  )

  unfoldable pub stop : Engine E → Engine E
  stop s = record s { running = false }

  -- A change to the repository of a cell, and to a UE of it, where they are there.
  unfoldable pub in_cell :
      Engine E → (cell_id : ℕ) → (UeRepository E.floats.D → UeRepository E.floats.D) → Engine E
  in_cell s cell_id f = elim (lookup cell_id s.cells) [
    | none ↦ s
    | some cell ↦ record s {
      cells = insert cell_id (record cell { ue_repository = f cell.ue_repository }) s.cells;
    }
  ]

  unfoldable pub change_ue :
      (rnti : ℕ)
      → (UeContext E.floats.D → UeContext E.floats.D)
      → UeRepository E.floats.D
      → UeRepository E.floats.D
  unfolding set_ue
  change_ue rnti f r = elim (find_by_rnti r rnti) [
    | none ↦ r
    | some p ↦ elim (get_elem? r.heap p) [ none ↦ r | some ue ↦ set_ue r p (f ue) ]
  ]

  -- `create_ue` and the members that the handler writes.
  unfoldable pub create_configured :
      UeConfigRequest E.floats.D → UeRepository E.floats.D → UeRepository E.floats.D
  unfolding create_ue configured set_ue
  create_configured config r =
      let (r', p) = create_ue E.blank_ue r config.rnti in
      elim (get_elem? r'.heap p) [ none ↦ r' | some ue ↦ set_ue r' p (configured config ue) ]

  unfoldable pub on_ue_config : Engine E → UeConfigRequest E.floats.D → Engine E
  unfolding in_cell create_configured
  on_ue_config s config =
      let s' = in_cell s config.cell_id (create_configured config) in
      if has config.cell_id s.cells && s.config.enable_slicing
      then record s' {
        slice_orchestrator =
            (associate_ue E.no_slice_state s'.slice_orchestrator config.rnti config.slice_id).0;
      }
      else s'

  unfoldable pub on_ue_release : Engine E → UeReleaseRequest → Engine E
  unfolding in_cell
  on_ue_release s release =
      let s' = in_cell s release.cell_id (λ r. remove_ue r release.rnti) in
      if has release.cell_id s.cells
      then record s' {
        qos_engine = remove_ue_flows s'.qos_engine release.rnti;
        slice_orchestrator = disassociate_ue E.no_slice_state s'.slice_orchestrator release.rnti;
      }
      else s'

  unfoldable pub on_dl_data : Engine E → DlDataNotification → Engine E
  unfolding in_cell change_ue
  on_dl_data s n =
      in_cell s n.cell_id (change_ue n.rnti (λ ue. update_dl_buffer ue n.lc_id n.buffer_bytes))

  -- Whether there is a UE to write to.
  unfoldable pub knows_ue : Engine E → (cell_id rnti : ℕ) → Bool
  knows_ue s cell_id rnti = elim (lookup cell_id s.cells) [
    | none ↦ false
    | some cell ↦ elim (find_ue cell.ue_repository rnti) [ none ↦ false | some ue ↦ true ]
  ]

  -- `none` is a write past the eight logical channel groups.
  unfoldable pub on_bsr : Engine E → BufferStatusReport → Option (Engine E)
  unfolding in_cell change_ue knows_ue reported
  on_bsr s bsr =
      if knows_ue s bsr.cell_id bsr.rnti && not (ltb bsr.lcg_id 8)
      then none
      else some (in_cell s bsr.cell_id (change_ue bsr.rnti (reported bsr)))

  unfoldable pub on_sr : Engine E → SchedulingRequest → Engine E
  unfolding in_cell change_ue
  on_sr s sr = in_cell s sr.cell_id (
      change_ue sr.rnti
        (λ ue. record ue { ul_buffer_status = record ue.ul_buffer_status { sr_pending = true } }))

  unfoldable pub on_phr : Engine E → PowerHeadroomReport → Engine E
  unfolding in_cell change_ue
  on_phr s phr =
      in_cell s phr.cell_id
        (change_ue phr.rnti (λ ue. record ue { phr = phr.phr_value; p_cmax = phr.pcmax }))

  unfoldable pub on_csi_update : Engine E → (rnti cell_id : ℕ) → ChannelQualityInfo → Engine E
  unfolding in_cell change_ue
  on_csi_update s rnti cell_id cqi =
      in_cell s cell_id (change_ue rnti (λ ue. record ue { dl_channel_quality = cqi }))

  unfoldable pub on_harq_feedback : Engine E → (cell_id : ℕ) → HarqFeedback → Engine E
  unfolding in_cell change_ue match_feedback count_nack
  on_harq_feedback s cell_id feedback =
      let slot = absolute_slot feedback.feedback_time in
      elim (match_feedback s.cells cell_id feedback.harq_id
        (get_all_for_slot s.harq_tracker slot)) [
          | none ↦ record s {
            stats = record s.stats { harq_timeouts = (s.stats.harq_timeouts + 1) % 2 ^ 64 };
          }
          | some p ↦
              let s' =
                in_cell s cell_id
                  (change_ue p.rnti (λ ue. process_harq_feedback ue p.is_downlink feedback)) in
              record s' {
                harq_tracker =
                    (find_and_remove s'.harq_tracker slot p.rnti (some feedback.harq_id)).0;
                stats = if not feedback.ack then count_nack p.is_downlink s'.stats else s'.stats;
              }
        ]

  unfoldable pub register_dl_result_callback : Engine E → Bool → Engine E
  register_dl_result_callback s callback = record s { dl_result_callback = callback }

  unfoldable pub register_ul_result_callback : Engine E → Bool → Engine E
  register_ul_result_callback s callback = record s { ul_result_callback = callback }

  unfoldable pub reset_statistics : Engine E → Engine E
  unfolding no_statistics
  reset_statistics s = record s { stats = no_statistics E.floats }

  unfoldable pub update_config : Engine E → SchedulerConfig E.floats.D → Engine E
  unfolding create_policy_manager
  update_config s config = record s {
    config = config;
    policy_manager = create_policy_manager E.floats config.strategy;
  }

  -- The handler of an event; that of a random access does nothing.
  unfoldable pub handle : Clock → Engine E → Event E.floats.D → Option (Engine E)
  unfolding on_slot_indication on_ue_config on_ue_release on_dl_data on_bsr on_sr on_phr
      on_csi_update on_harq_feedback
  handle clock s (Mac.on_slot_indication cell_id timing) =
      on_slot_indication E clock s cell_id timing
  handle clock s (Mac.on_ue_config config) = some (on_ue_config s config)
  handle clock s (Mac.on_ue_release release) = some (on_ue_release s release)
  handle clock s (Mac.on_dl_data n) = some (on_dl_data s n)
  handle clock s (Mac.on_bsr bsr) = on_bsr s bsr
  handle clock s (Mac.on_sr sr) = some (on_sr s sr)
  handle clock s (Mac.on_phr phr) = some (on_phr s phr)
  handle clock s (Mac.on_csi_update rnti cell_id cqi) = some (on_csi_update s rnti cell_id cqi)
  handle clock s (Mac.on_harq_feedback cell_id feedback) =
      some (on_harq_feedback s cell_id feedback)
  handle clock s (Mac.on_rach_indication cell_id rach) = some s
