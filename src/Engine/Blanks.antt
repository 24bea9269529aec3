-- ===== src/Engine/Blanks.antt =====
-- Blank values and a UE without data, for the tests.
use nr5g_basic_scheduler.Base.{ℕ, false, none, [], ◌∷◌}
use nr5g_basic_scheduler.Base.Int.{pos}
use nr5g_basic_scheduler.Timing.{FrameTiming}
use nr5g_basic_scheduler.Resources.{TimeFrequencyResource}
use nr5g_basic_scheduler.Harq.{idle, Process, TransportBlockConfig, fresh_entity}
use nr5g_basic_scheduler.Ue.{ChannelQualityInfo, UeContext}

abbrev pub at_slot : (slot : ℕ) → FrameTiming
at_slot slot = record { sfn = 0; slot = slot; symbol = 0; slots_per_frame = 20 }

abbrev pub nowhere : TimeFrequencyResource
nowhere = record {
  rb_range = record { start_rb = 0; num_rbs = 0 };
  symbol_range = record { start_symbol = 0; num_symbols = 0 };
}

abbrev pub no_block : TransportBlockConfig
no_block = record {
  tb_size_bytes = 0;
  mcs_index = 0;
  mcs_table = 0;
  rv_index = 0;
  ndi = false;
  num_layers = 0;
}

abbrev pub blank_process : Process
blank_process = record {
  id = 0;
  state = idle;
  tx_count = 0;
  rv_index = 0;
  ndi = false;
  tb_config = no_block;
  allocation = nowhere;
  tx_time = at_slot 0;
  feedback_expected = at_slot 0;
}

abbrev pub quality : (cqi : ℕ) → ChannelQualityInfo
quality cqi = record {
  wideband_cqi = cqi;
  rank_indicator = 1;
  subband_cqi = [];
  pmi = none;
  report_time = at_slot 0;
}

unfoldable pub blank_ue : UeContext ℕ
unfolding fresh_entity
blank_ue = record {
  rnti = 0;
  ue_id = 0;
  slice_id = 0;
  dl_bwps = [];
  ul_bwps = [];
  active_dl_bwp_id = 0;
  active_ul_bwp_id = 0;
  logical_channels = [];
  drx_config = record {
    enabled = false;
    on_duration_ms = 0;
    inactivity_timer_ms = 0;
    harq_rtt_timer_ms = 0;
    short_cycle_ms = 0;
    long_cycle_ms = 0;
    short_cycle_timer = 0;
    slot_offset = 0;
  };
  drx_state = record {
    active_time = false;
    on_duration_start = at_slot 0;
    inactivity_expiry = at_slot 0;
    in_short_cycle = false;
    short_cycle_count = 0;
  };
  dl_harq = fresh_entity blank_process;
  ul_harq = fresh_entity blank_process;
  dl_channel_quality = quality 0;
  ul_channel_quality = quality 0;
  ul_buffer_status = record {
    lcg_buffer_bytes = 0 ∷ 0 ∷ 0 ∷ 0 ∷ 0 ∷ 0 ∷ 0 ∷ 0 ∷ [];
    report_time = at_slot 0;
    sr_pending = false;
  };
  dl_buffer_bytes = [];
  serving_beam_dl = none;
  serving_beam_ul = none;
  timing_advance = 0;
  ta_update_time = at_slot 0;
  p_cmax = pos 23;
  phr = pos 0;
}
