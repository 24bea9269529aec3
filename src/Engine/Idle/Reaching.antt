-- ===== src/Engine/Idle/Reaching.antt =====
-- The states that a scheduler engine gets into, from its constructor on (scheduler_engine.cpp).
use nr5g_basic_scheduler.Base.{
  ℕ, ◌≡◌, refl, sym, ap, subst, inl, inr, Bool, not, ltb, ◌&&◌, Option, some, if-elim, Option-cases,
  some_unique, none_some,
}
use nr5g_basic_scheduler.Base.Table.{has, lookup-insert_cases, lookup-erase-some}
use nr5g_basic_scheduler.Timing.{absolute_slot}
use nr5g_basic_scheduler.Harq.{HarqFeedback}
use nr5g_basic_scheduler.Slice.{Orchestrator}
use nr5g_basic_scheduler.Qos.{QosEngine}
use nr5g_basic_scheduler.Ue.{empty_repository, remove_ue, update_dl_buffer, process_harq_feedback}
use nr5g_basic_scheduler.Cell.{CellConfig, CellContext, new_cell}
use nr5g_basic_scheduler.Mac.{
  UeConfigRequest, UeReleaseRequest, BufferStatusReport, Event, on_slot_indication, on_ue_config,
  on_ue_release, on_dl_data, on_bsr, on_sr, on_phr, on_csi_update, on_harq_feedback,
  on_rach_indication,
}
use nr5g_basic_scheduler.Engine.Tracker.{get_all_for_slot}
use nr5g_basic_scheduler.Engine.Types.{SchedulerConfig}
use nr5g_basic_scheduler.Engine.Policy.{PolicyObject}
use nr5g_basic_scheduler.Engine.State.{Environment, Clock, Engine}
use nr5g_basic_scheduler.Engine.Changes.{match_feedback, reported}
use nr5g_basic_scheduler.Engine.Events.{
  in_cell, change_ue, create_configured, knows_ue, handle, new_engine, add_cell, remove_cell,
  set_policy_manager, update_config, set_phy_interface, register_dl_result_callback,
  register_ul_result_callback, start, stop, reset_statistics,
}
use nr5g_basic_scheduler.Engine.Events
use nr5g_basic_scheduler.Engine.Idle.{IsIdleUe, AreIdle, AllIdle}
use nr5g_basic_scheduler.Engine.Idle.Serving.{on_slot_indication-AllIdle}
use nr5g_basic_scheduler.Engine.Idle.Handling.{
  process_harq_feedback-IsIdleUe, remove_ue-AreIdle, create_configured-AreIdle, in_cell-AllIdle,
  change_in_cell-AllIdle,
}

module _ (E : Environment) where
  on_ue_config-AllIdle :
      (s : Engine E) (config : UeConfigRequest E.floats.D)
      → IsIdleUe E.blank_ue
      → AllIdle s
      → AllIdle (Events.on_ue_config E s config)
  unfolding Events.on_ue_config
  on_ue_config-AllIdle s config fresh ok =
      let kept =
        in_cell-AllIdle E s config.cell_id (create_configured E config)
          (λ r. create_configured-AreIdle E config r fresh) ok in
      if-elim (λ (x : Engine E). AllIdle x) (has config.cell_id s.cells && s.config.enable_slicing)
        _ _ (λ _. kept) (λ _. kept)

  on_ue_release-AllIdle :
      (s : Engine E) (release : UeReleaseRequest)
      → AllIdle s
      → AllIdle (Events.on_ue_release E s release)
  unfolding Events.on_ue_release
  on_ue_release-AllIdle s release ok =
      let kept =
        in_cell-AllIdle E s release.cell_id (λ r. remove_ue r release.rnti)
          (λ r. remove_ue-AreIdle r release.rnti) ok in
      if-elim (λ (x : Engine E). AllIdle x) (has release.cell_id s.cells) _ _ (λ _. kept)
        (λ _. kept)

  on_bsr-AllIdle :
      (s s' : Engine E) (bsr : BufferStatusReport)
      → AllIdle s
      → Events.on_bsr E s bsr ≡ some s'
      → AllIdle s'
  unfolding Events.on_bsr reported
  on_bsr-AllIdle s s' bsr ok =
      if-elim (λ (o : Option (Engine E)). o ≡ some s' → AllIdle s')
        (knows_ue E s bsr.cell_id bsr.rnti && not (ltb bsr.lcg_id 8)) _ _ (λ _ e. cc)
        (λ _ e.
          subst AllIdle (some_unique refl e)
            (change_in_cell-AllIdle E s bsr.cell_id bsr.rnti (reported bsr) (λ ue idle. idle) ok))

  on_harq_feedback-AllIdle :
      (s : Engine E) (cell_id : ℕ) (feedback : HarqFeedback)
      → AllIdle s
      → AllIdle (Events.on_harq_feedback E s cell_id feedback)
  unfolding Events.on_harq_feedback
  on_harq_feedback-AllIdle s cell_id feedback ok =
      let slot = absolute_slot feedback.feedback_time in
      elim (Option-cases
        (match_feedback s.cells cell_id feedback.harq_id (get_all_for_slot s.harq_tracker slot))) [
          | inl nothing ↦ rw (nothing, Events.on_harq_feedback) ok
          | inr (p, found) ↦
              rw (found, Events.on_harq_feedback)
                (change_in_cell-AllIdle E s cell_id p.rnti
                  (λ ue. process_harq_feedback ue p.is_downlink feedback)
                  (λ ue idle.
                    subst IsIdleUe
                      (sym (process_harq_feedback-IsIdleUe ue p.is_downlink feedback idle)) idle)
                  ok)
        ]

  -- No event makes a HARQ process of an engine leave the idle state, if a new UE has idle processes.
  pub handle-AllIdle :
      (clock : Clock) (s s' : Engine E) (event : Event E.floats.D)
      → IsIdleUe E.blank_ue
      → AllIdle s
      → handle E clock s event ≡ some s'
      → AllIdle s'
  unfolding handle Events.on_dl_data Events.on_sr Events.on_phr Events.on_csi_update
      update_dl_buffer
  handle-AllIdle clock s s' (on_slot_indication cell_id timing) fresh ok e =
      on_slot_indication-AllIdle E clock s s' cell_id timing ok e
  handle-AllIdle clock s s' (on_ue_config config) fresh ok e =
      subst AllIdle (some_unique refl e) (on_ue_config-AllIdle s config fresh ok)
  handle-AllIdle clock s s' (on_ue_release release) fresh ok e =
      subst AllIdle (some_unique refl e) (on_ue_release-AllIdle s release ok)
  handle-AllIdle clock s s' (on_dl_data n) fresh ok e =
      subst AllIdle (some_unique refl e)
        (change_in_cell-AllIdle E s n.cell_id n.rnti _ (λ ue idle. idle) ok)
  handle-AllIdle clock s s' (on_bsr bsr) fresh ok e = on_bsr-AllIdle s s' bsr ok e
  handle-AllIdle clock s s' (on_sr sr) fresh ok e =
      subst AllIdle (some_unique refl e)
        (change_in_cell-AllIdle E s sr.cell_id sr.rnti _ (λ ue idle. idle) ok)
  handle-AllIdle clock s s' (on_phr phr) fresh ok e =
      subst AllIdle (some_unique refl e)
        (change_in_cell-AllIdle E s phr.cell_id phr.rnti _ (λ ue idle. idle) ok)
  handle-AllIdle clock s s' (on_csi_update rnti cell_id cqi) fresh ok e =
      subst AllIdle (some_unique refl e)
        (change_in_cell-AllIdle E s cell_id rnti _ (λ ue idle. idle) ok)
  handle-AllIdle clock s s' (on_harq_feedback cell_id feedback) fresh ok e =
      subst AllIdle (some_unique refl e) (on_harq_feedback-AllIdle s cell_id feedback ok)
  handle-AllIdle clock s s' (on_rach_indication cell_id rach) fresh ok e =
      subst AllIdle (some_unique refl e) ok

-- What a run of the engine gets to: from the constructor on by handlers of events, by cells that are
-- added and removed, and by changes to the policy and the configuration and to the rest.
pub data Reached (E : Environment) : Engine E → Type 1 where
  created :
      (config : SchedulerConfig E.floats.D) (qos : QosEngine E.floats.D)
      (slices : Orchestrator E.floats.D)
      → Reached E (new_engine E config qos slices)
  handled :
      {s s' : Engine E} (clock : Clock) (event : Event E.floats.D)
      → Reached E s
      → handle E clock s event ≡ some s'
      → Reached E s'
  cell_added :
      {s : Engine E} (config : CellConfig) → Reached E s → Reached E ((add_cell E s config).0)
  cell_removed : {s : Engine E} (cell_id : ℕ) → Reached E s → Reached E (remove_cell E s cell_id)
  policy_set :
      {s : Engine E} (policy : PolicyObject E.floats.D)
      → Reached E s
      → Reached E (set_policy_manager E s policy)
  configured_anew :
      {s : Engine E} (config : SchedulerConfig E.floats.D)
      → Reached E s
      → Reached E (update_config E s config)
  phy_set : {s : Engine E} (phy : Bool) → Reached E s → Reached E (set_phy_interface E s phy)
  dl_callback_set :
      {s : Engine E} (callback : Bool)
      → Reached E s
      → Reached E (register_dl_result_callback E s callback)
  ul_callback_set :
      {s : Engine E} (callback : Bool)
      → Reached E s
      → Reached E (register_ul_result_callback E s callback)
  started : {s : Engine E} → Reached E s → Reached E ((start E s).0)
  stopped : {s : Engine E} → Reached E s → Reached E (stop E s)
  counters_reset : {s : Engine E} → Reached E s → Reached E (reset_statistics E s)

module _ (E : Environment) where
  new_cell-AreIdle :
      (config : CellConfig) → AreIdle ((new_cell {D = E.floats.D} E.no_slot config).ue_repository)
  unfolding new_cell empty_repository
  new_cell-AreIdle config p ue at = none_some refl at

  -- In every state that an engine gets to, all HARQ processes of all UEs are idle, if those of a new
  -- UE are: the scheduler never records that it sent a block.
  pub AllIdle-Reached : (s : Engine E) → IsIdleUe E.blank_ue → Reached E s → AllIdle s
  unfolding new_engine add_cell remove_cell set_policy_manager update_config set_phy_interface
      register_dl_result_callback register_ul_result_callback start stop reset_statistics
  AllIdle-Reached s fresh (created config qos slices) = λ k c e. cc
  AllIdle-Reached s fresh (handled {s = before} clock event r e) =
      handle-AllIdle E clock before s event fresh (AllIdle-Reached before fresh r) e
  AllIdle-Reached s fresh (cell_added {s = before} config r) =
      let ok = AllIdle-Reached before fresh r in
      if-elim (λ (x : Engine E × Bool). AllIdle (x.0)) (has config.cell_id before.cells) _ _
        (λ _. ok)
        (λ _ k c e.
          elim (lookup-insert_cases config.cell_id k (new_cell E.no_slot config) c before.cells e) [
            | inl new ↦
                subst AreIdle (ap (λ (x : CellContext E.floats.D). x.ue_repository) (sym new))
                  (new_cell-AreIdle config)
            | inr old ↦ ok k c old
          ])
  AllIdle-Reached s fresh (cell_removed {s = before} cell_id r) =
      let ok = AllIdle-Reached before fresh r in
      λ k c e. ok k c (lookup-erase-some cell_id k c before.cells e)
  AllIdle-Reached s fresh (policy_set {s = before} policy r) = AllIdle-Reached before fresh r
  AllIdle-Reached s fresh (configured_anew {s = before} config r) = AllIdle-Reached before fresh r
  AllIdle-Reached s fresh (phy_set {s = before} phy r) = AllIdle-Reached before fresh r
  AllIdle-Reached s fresh (dl_callback_set {s = before} c r) = AllIdle-Reached before fresh r
  AllIdle-Reached s fresh (ul_callback_set {s = before} c r) = AllIdle-Reached before fresh r
  AllIdle-Reached s fresh (started {s = before} r) =
      if-elim (λ (x : Engine E × Bool). AllIdle (x.0)) before.running _ _
        (λ _. AllIdle-Reached before fresh r) (λ _. AllIdle-Reached before fresh r)
  AllIdle-Reached s fresh (stopped {s = before} r) = AllIdle-Reached before fresh r
  AllIdle-Reached s fresh (counters_reset {s = before} r) = AllIdle-Reached before fresh r
