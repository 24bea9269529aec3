-- ===== src/Channels/Examples.antt =====
-- Tests of the channel structs, and their theorem at a concrete input.
use nr5g_basic_scheduler.Base.{ℕ, ◌+◌, ◌<◌, ◌≡◌, refl, true, false, some, [], ◌∷◌, map, arith}
use nr5g_basic_scheduler.Channels.Pdcch.{SearchSpaceConfig, ue_specific, should_monitor}
use nr5g_basic_scheduler.Channels.Pdsch.{popcount}
use nr5g_basic_scheduler.Channels.Pucch.{format2, uci_bits, SrConfig, is_sr_occasion}
use nr5g_basic_scheduler.Channels.Occasions.{HasChance, is_sr_occasion_once}

abbrev sr : SrConfig
sr = record { sr_resource_id = 0; pucch_resource_id = 0; periodicity_slots = 40; offset_slots = 3 }

two_occasions :
    map (λ slot. is_sr_occasion sr 2 slot 20) (2 ∷ 3 ∷ 4 ∷ [])
    ≡ some false ∷ some true ∷ some false ∷ []
unfolding is_sr_occasion
two_occasions = refl

bits_of_sixteen : map (uci_bits format2 16) (1 ∷ 2 ∷ []) ≡ 0 ∷ 0 ∷ []
unfolding uci_bits
bits_of_sixteen = refl

counts_ones : popcount 16 2052 ≡ 2
unfolding popcount
counts_ones = refl

-- From the last slots of frame 1023 into frame 0 and on.
is_sr_occasion_once_example :
    (j : ℕ) × (j < 40)
    × HasChance sr 20 (20470 + j)
    × ((i : ℕ) → i < 40 → HasChance sr 20 (20470 + i) → i ≡ j)
is_sr_occasion_once_example =
    is_sr_occasion_once sr 20 512 refl (omega arith) (omega arith) 20470 (omega arith)

-- With a period that does not divide the slots of 1024 frames, two slots in a row are occasions.
abbrev sr_3 : SrConfig
sr_3 = record { sr_resource_id = 0; pucch_resource_id = 0; periodicity_slots = 3; offset_slots = 0 }

twice_in_a_row :
    is_sr_occasion sr_3 1023 9 10 ∷ is_sr_occasion sr_3 0 0 10 ∷ [] ≡ some true ∷ some true ∷ []
unfolding is_sr_occasion
twice_in_a_row = refl

abbrev space : SearchSpaceConfig
space = record {
  search_space_id = 0;
  coreset_id = 0;
  type = ue_specific;
  monitoring_slot_periodicity = 4;
  monitoring_slot_offset = 1;
  monitoring_symbols_within_slot = 0;
  aggregation_levels = [];
  dci_formats = [];
}

-- With twenty slots in a frame, slot 15 of frame 2 and slot 5 of frame 3 are ten slots apart.
one_for_both :
    should_monitor space 2 15 ∷ should_monitor space 3 5 ∷ [] ≡ some false ∷ some false ∷ []
unfolding should_monitor
one_for_both = refl
