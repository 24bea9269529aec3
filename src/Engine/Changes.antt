-- ===== src/Engine/Changes.antt =====
-- What the handlers of nr_scheduler/src/scheduler_engine.cpp write to one object.
use nr5g_basic_scheduler.Base.{
  ℕ, ◌+◌, ◌%◌, ◌^◌, Bool, true, false, not, ◌==◌, if◌then◌else◌, Option, none, some, List, [], ◌∷◌,
  set,
}
use nr5g_basic_scheduler.Base.Table.{Table, lookup, insert}
use nr5g_basic_scheduler.Base.Floats.{Floats, number}
use nr5g_basic_scheduler.Ue.{UeContext, UeRepository, LogicalChannelConfig}
use nr5g_basic_scheduler.Cell.{CellContext}
use nr5g_basic_scheduler.Mac.{UeConfigRequest, BufferStatusReport}
use nr5g_basic_scheduler.Engine.Tracker.{PendingFeedback}
use nr5g_basic_scheduler.Engine.Types.{Statistics, find_ue}

-- The entry of the table with a change to it.
unfoldable pub set_ue : {D : Type 0} → UeRepository D → (p : ℕ) → UeContext D → UeRepository D
set_ue r p ue = record r { heap = set r.heap p ue }

unfoldable pub add_channels :
    {D : Type 0}
    → List (LogicalChannelConfig D)
    → Table (LogicalChannelConfig D)
    → Table (LogicalChannelConfig D)
add_channels [] t = t
add_channels (lc ∷ lcs) t = add_channels lcs (insert lc.lc_id lc t)

unfoldable pub configured : {D : Type 0} → UeConfigRequest D → UeContext D → UeContext D
unfolding add_channels
configured config ue = record ue {
  slice_id = config.slice_id;
  dl_bwps = config.dl_bwps;
  ul_bwps = config.ul_bwps;
  drx_config = config.drx_config;
  logical_channels = add_channels config.logical_channels ue.logical_channels;
}

unfoldable pub reported : {D : Type 0} → BufferStatusReport → UeContext D → UeContext D
reported bsr ue = record ue {
  ul_buffer_status = record ue.ul_buffer_status {
    lcg_buffer_bytes = set ue.ul_buffer_status.lcg_buffer_bytes bsr.lcg_id bsr.buffer_size_bytes;
    report_time = bsr.report_time;
  };
}

-- The counters after a change to one.
unfoldable pub count_nack : {D : Type 0} → Bool → Statistics D → Statistics D
count_nack true stats = record stats {
  dl_retransmissions = (stats.dl_retransmissions + 1) % 2 ^ 64;
}
count_nack false stats = record stats {
  ul_retransmissions = (stats.ul_retransmissions + 1) % 2 ^ 64;
}

-- The first entry for the cell and the process whose UE is still there.
unfoldable pub match_feedback :
    {D : Type 0}
    → Table (CellContext D)
    → (cell_id harq_id : ℕ) → List PendingFeedback
    → Option PendingFeedback
match_feedback cells cell_id harq_id [] = none
match_feedback cells cell_id harq_id (p ∷ ps) =
    let rest = match_feedback cells cell_id harq_id ps in
    if not (p.cell_id == cell_id)
    then rest
    else if not (p.harq_id == harq_id)
    then rest
    else elim (lookup cell_id cells) [
      | none ↦ rest
      | some cell ↦ elim (find_ue cell.ue_repository p.rnti) [ none ↦ rest | some ue ↦ some p ]
    ]

unfoldable pub no_statistics : (F : Floats) → Statistics F.D
no_statistics F = record {
  slots_processed = 0;
  slots_skipped = 0;
  avg_slot_processing_us = number F 0;
  max_slot_processing_us = number F 0;
  dl_bytes_scheduled = 0;
  dl_ues_scheduled = 0;
  dl_retransmissions = 0;
  dl_resource_utilization = number F 0;
  ul_bytes_scheduled = 0;
  ul_ues_scheduled = 0;
  ul_retransmissions = 0;
  ul_resource_utilization = number F 0;
  qos_violations = 0;
  avg_delay_budget_margin_ms = number F 0;
  allocation_failures = 0;
  harq_timeouts = 0;
}
