-- ===== src/Ue/Examples.antt =====
-- Tests of the repository of UEs, and its theorems at concrete inputs.
use nr5g_basic_scheduler.Base.{ℕ, ◌≡◌, ◌≢◌, refl, false, none, some, [], ◌∷◌, map, arith}
use nr5g_basic_scheduler.Base.Int.{pos}
use nr5g_basic_scheduler.Timing.{FrameTiming}
use nr5g_basic_scheduler.Ue.{
  ChannelQualityInfo, UeContext, UeRepository, mcs_from_cqi, update_dl_buffer, total_dl_buffer,
  create_ue, remove_ue, find_by_rnti, find_by_id,
}
use nr5g_basic_scheduler.Ue.Index.{
  IsIndexed, create_ue-IsIndexed, remove_ue-IsIndexed, remove_ue-create_ue_twice,
}

abbrev at_start : FrameTiming
at_start = record { sfn = 0; slot = 0; symbol = 0; slots_per_frame = 20 }

abbrev no_quality : ChannelQualityInfo
no_quality = record {
  wideband_cqi = 0;
  rank_indicator = 0;
  subband_cqi = [];
  pmi = none;
  report_time = at_start;
}

abbrev blank : UeContext ℕ
blank = record {
  rnti = 0;
  ue_id = 0;
  slice_id = 0;
  dl_bwps = [];
  ul_bwps = [];
  active_dl_bwp_id = 0;
  active_ul_bwp_id = 0;
  logical_channels = [];
  drx_config = record {
    enabled = false;
    on_duration_ms = 0;
    inactivity_timer_ms = 0;
    harq_rtt_timer_ms = 0;
    short_cycle_ms = 0;
    long_cycle_ms = 0;
    short_cycle_timer = 0;
    slot_offset = 0;
  };
  drx_state = record {
    active_time = false;
    on_duration_start = at_start;
    inactivity_expiry = at_start;
    in_short_cycle = false;
    short_cycle_count = 0;
  };
  dl_harq = [];
  ul_harq = [];
  dl_channel_quality = no_quality;
  ul_channel_quality = no_quality;
  ul_buffer_status = record { lcg_buffer_bytes = []; report_time = at_start; sr_pending = false };
  dl_buffer_bytes = [];
  serving_beam_dl = none;
  serving_beam_ul = none;
  timing_advance = 0;
  ta_update_time = at_start;
  p_cmax = pos 23;
  phr = pos 0;
}

abbrev with_cqi : ℕ → UeContext ℕ
with_cqi n = record blank { dl_channel_quality = record no_quality { wideband_cqi = n } }

mcs_of_cqi : map (λ n. mcs_from_cqi (with_cqi n)) (0 ∷ 7 ∷ 15 ∷ 16 ∷ []) ≡ 0 ∷ 11 ∷ 28 ∷ 28 ∷ []
unfolding mcs_from_cqi
mcs_of_cqi = refl

buffers_add_up :
    total_dl_buffer (update_dl_buffer (update_dl_buffer (update_dl_buffer blank 4 100) 5 20) 4 0)
    ≡ 20
unfolding total_dl_buffer update_dl_buffer
buffers_add_up = refl

abbrev nobody : UeRepository ℕ
nobody = record { heap = []; next_ue_id = 1; ue_by_rnti = []; ue_by_id = [] }

nobody-IsIndexed : IsIndexed nobody
unfolding find_by_rnti find_by_id
nobody-IsIndexed = record { agree = λ rnti p e. cc; back = λ id p e. cc; below = λ id p e. cc }

create_ue-IsIndexed_example :
    IsIndexed ((create_ue blank nobody 17).0)
    × (find_by_rnti ((create_ue blank nobody 17).0) 17 ≡ some ((create_ue blank nobody 17).1))
    × (find_by_id ((create_ue blank nobody 17).0) 1 ≡ some ((create_ue blank nobody 17).1))
    × (find_by_id nobody 1 ≡ none)
unfolding find_by_rnti
create_ue-IsIndexed_example =
    create_ue-IsIndexed blank nobody 17 nobody-IsIndexed refl (omega arith)

abbrev ue_1 : UeContext ℕ
ue_1 = record blank { rnti = 17; ue_id = 1 }

abbrev somebody : UeRepository ℕ
somebody = record {
  heap = ue_1 ∷ [];
  next_ue_id = 2;
  ue_by_rnti = (17, 0) ∷ [];
  ue_by_id = (1, 0) ∷ [];
}

somebody-IsIndexed : IsIndexed somebody
unfolding create_ue find_by_rnti
somebody-IsIndexed = (create_ue-IsIndexed blank nobody 17 nobody-IsIndexed refl (omega arith)).0

remove_ue-IsIndexed_example :
    IsIndexed (remove_ue somebody 17)
    × (find_by_rnti (remove_ue somebody 17) 17 ≡ none)
    × (find_by_id (remove_ue somebody 17) 1 ≡ none)
unfolding find_by_rnti
remove_ue-IsIndexed_example = remove_ue-IsIndexed somebody 17 0 ue_1 somebody-IsIndexed refl refl

abbrev once : UeRepository ℕ
unfolding create_ue
once = (create_ue blank nobody 17).0

abbrev twice : UeRepository ℕ
unfolding create_ue
twice = (create_ue blank once 17).0

remove_ue-create_ue_twice_example :
    (find_by_rnti (remove_ue twice 17) 17 ≡ none)
    × (find_by_id twice 2 ≡ some 1)
    × (find_by_id (remove_ue twice 17) 2 ≡ none)
    × (find_by_id (remove_ue twice 17) 1 ≡ some 0)
    × ((k : ℕ) → find_by_rnti (remove_ue twice 17) k ≢ some 0)
unfolding create_ue once twice
remove_ue-create_ue_twice_example =
    remove_ue-create_ue_twice blank nobody 17 nobody-IsIndexed (omega arith)
