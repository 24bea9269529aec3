-- ===== src/Engine/Samples.antt =====
-- An engine with one cell of twenty blocks and two UEs, for the tests.
use nr5g_basic_scheduler.Base.{ℕ, true, false, none, [], ◌∷◌}
use nr5g_basic_scheduler.Base.Int.{negsuc}
use nr5g_basic_scheduler.Base.Thousandths.{thousandths}
use nr5g_basic_scheduler.Timing.{khz30}
use nr5g_basic_scheduler.Grid.{empty_grid}
use nr5g_basic_scheduler.Cce.{empty_pool}
use nr5g_basic_scheduler.Slice.{SliceState, Orchestrator}
use nr5g_basic_scheduler.Qos.{QosEngine}
use nr5g_basic_scheduler.Ue.{UeContext}
use nr5g_basic_scheduler.Cell.{fdd, CellConfig, SlotContext, CellContext, new_cell}
use nr5g_basic_scheduler.Phy.{PdschPdu, PuschPdu}
use nr5g_basic_scheduler.Engine.Types.{round_robin, none_yet, SchedulerConfig, SchedulingDecision}
use nr5g_basic_scheduler.Engine.State.{Environment, Clock, Engine}
use nr5g_basic_scheduler.Engine.Events.{new_engine}
use nr5g_basic_scheduler.Engine.Blanks.{at_slot, nowhere, no_block, quality, blank_ue}

abbrev pub cell_config : CellConfig
cell_config = record {
  cell_id = 1;
  pci = 1;
  frequency_khz = 3500000;
  bandwidth_mhz = 8;
  num_rbs = 20;
  duplex_mode = fdd;
  numerology = record {
    scs = khz30;
    cyclic_prefix = 0;
    slots_per_frame = 20;
    symbols_per_slot = 14;
  };
  tdd_pattern = none;
  coreset0_num_rbs = 48;
  coreset0_num_symbols = 2;
  max_ues = 100;
  max_pdsch_per_slot = 16;
  max_pusch_per_slot = 16;
  max_pdcch_per_slot = 16;
  num_tx_antennas = 4;
  num_rx_antennas = 4;
  max_layers = 4;
  ref_signal_power_dbm = negsuc 59;
}

unfoldable pub slot_8 : SlotContext
unfolding empty_grid empty_pool
slot_8 = record {
  timing = at_slot 8;
  dl_grid = empty_grid 20 14;
  ul_grid = empty_grid 20 14;
  cce_pool = empty_pool 96;
  can_schedule_dl = true;
  can_schedule_ul = true;
  tdd_config = record { num_dl_symbols = 14; num_guard_symbols = 0; num_ul_symbols = 14 };
  remaining_pdsch = 16;
  remaining_pusch = 16;
  remaining_pdcch = 16;
  dl_bytes_scheduled = 0;
  ul_bytes_scheduled = 0;
  ues_scheduled_dl = 0;
  ues_scheduled_ul = 0;
}

abbrev pub ue_with : (rnti ue_id bytes : ℕ) → UeContext ℕ
ue_with rnti ue_id bytes = record blank_ue {
  rnti = rnti;
  ue_id = ue_id;
  dl_channel_quality = quality 10;
  dl_buffer_bytes = (4, bytes) ∷ [];
}

unfoldable pub cell : CellContext ℕ
unfolding new_cell
cell = record (new_cell slot_8 cell_config) {
  ue_repository = record {
    heap = ue_with 17 1 300 ∷ ue_with 18 2 200 ∷ [];
    next_ue_id = 3;
    ue_by_rnti = (17, 0) ∷ (18, 1) ∷ [];
    ue_by_id = (1, 0) ∷ (2, 1) ∷ [];
  };
}

abbrev pub scheduler_config : SchedulerConfig ℕ
scheduler_config = record {
  strategy = round_robin;
  scheduling_offset_slots = 2;
  harq_ack_offset_slots = 4;
  max_pdsch_per_tti = 16;
  max_pusch_per_tti = 16;
  max_pdcch_per_tti = 16;
  alpha_fairness = 0;
  history_window_ms = 1000;
  enable_qos = true;
  gbr_weight = 2000;
  delay_weight = 1500;
  max_harq_retx = 4;
  harq_retx_priority = true;
  enable_slicing = false;
  enable_scheduling_log = false;
  log_level = 2;
}

abbrev pub qos_engine : QosEngine ℕ
qos_engine = record {
  config = record {
    gbr_enforcement_strictness = 950;
    gbr_measurement_window_ms = 100;
    delay_margin_factor = 800;
    delay_check_granularity_ms = 1;
    enable_mbr_enforcement = true;
    token_bucket_depth_ms = 10;
    use_dynamic_priority = true;
    delay_urgency_weight = 2000;
    gbr_deficit_weight = 1500;
  };
  flows = [];
  stats = record {
    total_flows = 0;
    gbr_flows = 0;
    delay_critical_events = 0;
    pdb_violations = 0;
    mbr_throttle_events = 0;
    total_delay_margin = 0;
    delay_samples = 0;
  };
}

abbrev pub slices : Orchestrator ℕ
slices = record {
  slice_configs = [];
  slice_states = [];
  ue_slice_map = [];
  current_budgets = [];
  shared_pool_dl = 0;
  shared_pool_ul = 0;
  stats = record {
    total_sla_violations = 0;
    resource_borrowing_events = 0;
    total_utilization = 0;
    utilization_samples = 0;
  };
  current_timing = at_slot 0;
}

abbrev pub no_slice_state : SliceState ℕ
no_slice_state = record {
  slice_id = 0;
  active = false;
  current_rbs_dl = 0;
  current_rbs_ul = 0;
  current_rate_dl_bps = 0;
  current_rate_ul_bps = 0;
  connected_ues = 0;
  active_ues = 0;
  avg_latency_ms = 0;
  resource_utilization = 0;
  sla_violations = 0;
  current_window = record {
    bytes_dl = 0;
    bytes_ul = 0;
    ues_scheduled_dl = 0;
    ues_scheduled_ul = 0;
    window_start = 0;
  };
}

abbrev pub blank_decision : SchedulingDecision ℕ
blank_decision = record {
  rnti = 0;
  type = none_yet;
  resources = nowhere;
  tb_config = no_block;
  harq_id = 0;
  priority_metric = 0;
  buffer_bytes = 0;
  qos_priority = 0;
  lc_bytes = [];
}

abbrev pub blank_pdsch : PdschPdu
blank_pdsch = record {
  rnti = 0;
  bwp_start = 0;
  bwp_size = 0;
  rb_allocation = record { start_rb = 0; num_rbs = 0 };
  symbol_allocation = record { start_symbol = 0; num_symbols = 0 };
  mcs = 0;
  mcs_table = 0;
  rv = 0;
  ndi = false;
  harq_id = 0;
  num_layers = 0;
  dmrs_symbols = 0;
  dmrs_ports = 0;
  tb_size = 0;
  tb_data = [];
}

abbrev pub blank_pusch : PuschPdu
blank_pusch = record {
  rnti = 0;
  bwp_start = 0;
  bwp_size = 0;
  rb_allocation = record { start_rb = 0; num_rbs = 0 };
  symbol_allocation = record { start_symbol = 0; num_symbols = 0 };
  mcs = 0;
  mcs_table = 0;
  rv = 0;
  ndi = false;
  harq_id = 0;
  num_layers = 0;
  dmrs_symbols = 0;
  dmrs_ports = 0;
  tb_size = 0;
  uci_on_pusch = false;
}

-- The channel managers are counted resets.
abbrev pub environment : Environment
environment = record {
  floats = thousandths;
  relocks = true;
  blank_ue = blank_ue;
  no_slot = slot_8;
  no_slice_state = no_slice_state;
  blank_decision = blank_decision;
  blank_pdsch = blank_pdsch;
  blank_pusch = blank_pusch;
  Managers = ℕ;
  new_managers = 0;
  reset_managers = λ n. n;
}

abbrev pub clock : Clock
clock = record {
  tick = 0;
  urgency = λ dl i. 0;
  bucket = λ dl i. 0;
  history = λ dl i. 0;
  processing_us = 50;
}

unfoldable pub engine : Engine environment
unfolding new_engine
engine = record (new_engine environment scheduler_config qos_engine slices) {
  cells = (1, cell) ∷ [];
  managers = (1, 0) ∷ [];
}
