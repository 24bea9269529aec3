-- ===== src/Slice/Templates.antt =====
-- The predefined slices of nr_scheduler/src/slice_orchestrator.cpp. `cells` and `sd` stay empty.
use nr5g_basic_scheduler.Base.{ℕ, true, false, none, List, [], ◌∷◌}
use nr5g_basic_scheduler.Base.Floats.{Floats}
use nr5g_basic_scheduler.Slice.{SliceConfig, embb, urllc, mmtc}

module _ (F : Floats) where
  unfoldable pub create_embb_template : ℕ → List ℕ → SliceConfig F.D
  create_embb_template id name = record {
    slice_id = id;
    slice_name = name;
    slice_type = embb;
    sst = 1;
    sd = none;
    sla = record {
      guaranteed_rbs = 10;
      max_rbs = 0;
      resource_share = F.ratio 5 10;
      guaranteed_rate_bps = 10000000;
      max_rate_bps = 1000000000;
      max_latency_ms = 100;
      target_latency_ms = 50;
      target_reliability = F.ratio 99 100;
      slice_priority = 100;
      strict_isolation = false;
      preemption_capable = false;
      preemptible = true;
    };
    allowed_5qi = 6 ∷ 7 ∷ 8 ∷ 9 ∷ [];
    cells = [];
  }

  unfoldable pub create_urllc_template : ℕ → List ℕ → SliceConfig F.D
  create_urllc_template id name = record {
    slice_id = id;
    slice_name = name;
    slice_type = urllc;
    sst = 2;
    sd = none;
    sla = record {
      guaranteed_rbs = 20;
      max_rbs = 50;
      resource_share = F.ratio 3 10;
      guaranteed_rate_bps = 1000000;
      max_rate_bps = 10000000;
      max_latency_ms = 10;
      target_latency_ms = 1;
      target_reliability = F.ratio 99999 100000;
      slice_priority = 10;
      strict_isolation = true;
      preemption_capable = true;
      preemptible = false;
    };
    allowed_5qi = 82 ∷ 83 ∷ 84 ∷ 85 ∷ [];
    cells = [];
  }

  unfoldable pub create_mmtc_template : ℕ → List ℕ → SliceConfig F.D
  create_mmtc_template id name = record {
    slice_id = id;
    slice_name = name;
    slice_type = mmtc;
    sst = 3;
    sd = none;
    sla = record {
      guaranteed_rbs = 5;
      max_rbs = 30;
      resource_share = F.ratio 2 10;
      guaranteed_rate_bps = 100000;
      max_rate_bps = 1000000;
      max_latency_ms = 1000;
      target_latency_ms = 500;
      target_reliability = F.ratio 99 100;
      slice_priority = 150;
      strict_isolation = false;
      preemption_capable = false;
      preemptible = true;
    };
    allowed_5qi = 9 ∷ [];
    cells = [];
  }
