-- ===== src/Cell/Examples.antt =====
-- Tests of the cell's slots, and their theorem at a concrete input.
use nr5g_basic_scheduler.Base.{ℕ, ◌≡◌, refl, inr, true, false, some, [], ◌∷◌, map, arith}
use nr5g_basic_scheduler.Base.Int.{negsuc}
use nr5g_basic_scheduler.Timing.{FrameTiming, khz30}
use nr5g_basic_scheduler.Grid.{ResourceGrid}
use nr5g_basic_scheduler.Cell.{
  tdd, TddSlotConfig, TddPattern, get_config, is_special, CellConfig, SlotContext, initialize,
}
use nr5g_basic_scheduler.Cell.Slots.{IsConfigured, IsReady, initialize-IsReady}

abbrev slot_config : (dl guard ul : ℕ) → TddSlotConfig
slot_config dl guard ul = record {
  num_dl_symbols = dl;
  num_guard_symbols = guard;
  num_ul_symbols = ul;
}

-- Three slots down, one special, one up.
abbrev pattern : TddPattern
pattern = record {
  periodicity_slots = 5;
  slot_configs =
      slot_config 14 0 0
      ∷ slot_config 14 0 0
      ∷ slot_config 14 0 0
      ∷ slot_config 10 2 2
      ∷ slot_config 0 0 14
      ∷ [];
}

abbrev cell : CellConfig
cell = record {
  cell_id = 1;
  pci = 1;
  frequency_khz = 3500000;
  bandwidth_mhz = 100;
  num_rbs = 273;
  duplex_mode = tdd;
  numerology = record {
    scs = khz30;
    cyclic_prefix = 0;
    slots_per_frame = 20;
    symbols_per_slot = 14;
  };
  tdd_pattern = some pattern;
  coreset0_num_rbs = 48;
  coreset0_num_symbols = 2;
  max_ues = 100;
  max_pdsch_per_slot = 16;
  max_pusch_per_slot = 16;
  max_pdcch_per_slot = 16;
  num_tx_antennas = 4;
  num_rx_antennas = 4;
  max_layers = 4;
  ref_signal_power_dbm = negsuc 59;
}

abbrev slot_9 : FrameTiming
slot_9 = record { sfn = 3; slot = 9; symbol = 0; slots_per_frame = 20 }

-- A slot in which everything is taken.
abbrev full_grid : ResourceGrid
full_grid = record { num_rbs = 273; num_symbols = 14; taken = λ sym rb. true }

abbrev last_slot : SlotContext
last_slot = record {
  timing = slot_9;
  dl_grid = full_grid;
  ul_grid = full_grid;
  cce_pool = record { num_cces = 96; allocated_count = 96; used = λ i. true };
  can_schedule_dl = true;
  can_schedule_ul = false;
  tdd_config = slot_config 14 0 0;
  remaining_pdsch = 0;
  remaining_pusch = 0;
  remaining_pdcch = 0;
  dl_bytes_scheduled = 1000;
  ul_bytes_scheduled = 1000;
  ues_scheduled_dl = 3;
  ues_scheduled_ul = 3;
}

one_special_slot : map is_special pattern.slot_configs ≡ false ∷ false ∷ false ∷ true ∷ false ∷ []
unfolding is_special
one_special_slot = refl

wraps_round : get_config pattern 8 ≡ some (slot_config 10 2 2)
unfolding get_config
wraps_round = refl

cell-IsConfigured : IsConfigured cell
cell-IsConfigured = record {
  elements_fit = omega arith;
  duplex = inr (pattern, refl, refl, omega arith, omega arith);
}

initialize-IsReady_example :
    (s : SlotContext) × (initialize cell slot_9 last_slot ≡ some s) × IsReady cell slot_9 s
initialize-IsReady_example = initialize-IsReady cell slot_9 last_slot cell-IsConfigured
