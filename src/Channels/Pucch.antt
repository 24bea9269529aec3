-- ===== src/Channels/Pucch.antt =====
-- The structs of nr_scheduler/include/channels/pucch_manager.hpp with their functions. `none` is a
-- remainder by zero or a signed overflow.
use nr5g_basic_scheduler.Base.{
  ℕ, ◌+◌, ◌*◌, ◌%◌, ◌^◌, Bool, ltb, ◌==◌, if◌then◌else◌, Option, none, some, List,
}
use nr5g_basic_scheduler.Base.Int.{ℤ}
use nr5g_basic_scheduler.Timing.{FrameTiming}

pub data PucchFormat : Type 0 where
  format0 format1 format2 format3 format4 : PucchFormat

-- The union of the members that belong to a format.
pub data FormatSpecific : Type 0 where
  format0_1 : (initial_cyclic_shift time_domain_occ : ℕ) → FormatSpecific
  format3_4 : (occ_index occ_length : ℕ) → FormatSpecific

pub record PucchResourceConfig : Type 0 where
  pub resource_id : ℕ
  pub format : PucchFormat
  pub start_prb : ℕ
  pub num_prbs : ℕ
  pub start_symbol : ℕ
  pub num_symbols : ℕ
  pub format_specific : FormatSpecific
  pub intra_slot_hopping : Bool
  pub second_hop_prb : ℕ

-- Products of an `int`, cut to 8 bits.
unfoldable pub uci_bits : PucchFormat → (num_prbs num_symbols : ℕ) → ℕ
uci_bits format0 num_prbs num_symbols = 2
uci_bits format1 num_prbs num_symbols = 2
uci_bits format2 num_prbs num_symbols = num_prbs * num_symbols * 16 % 2 ^ 8
uci_bits format3 num_prbs num_symbols = num_prbs * num_symbols * 24 % 2 ^ 8
uci_bits format4 num_prbs num_symbols = num_prbs * num_symbols * 24 % 2 ^ 8

unfoldable pub max_uci_bits : PucchResourceConfig → ℕ
unfolding uci_bits
max_uci_bits c = uci_bits c.format c.num_prbs c.num_symbols

pub data Selection : Type 0 where
  first_available cyclic_shift_based resource_indicator : Selection

pub record PucchResourceSet : Type 0 where
  pub resource_set_id : ℕ
  pub resource_ids : List ℕ
  pub max_payload_bits : ℕ
  pub selection_method : Selection

pub record PucchAllocation : Type 0 where
  pub rnti : ℕ
  pub timing : FrameTiming
  pub resource_id : ℕ
  pub format : PucchFormat
  pub start_prb : ℕ
  pub num_prbs : ℕ
  pub start_symbol : ℕ
  pub num_symbols : ℕ
  pub initial_cyclic_shift : ℕ
  pub time_domain_occ : ℕ
  pub has_sr : Bool
  pub harq_ack_bits : ℕ
  pub csi_part1_bits : ℕ
  pub csi_part2_bits : ℕ
  pub intra_slot_hopping : Bool
  pub second_hop_prb : ℕ
  pub tpc_command : ℤ

-- In 8 bits.
unfoldable pub total_uci_bits : PucchAllocation → ℕ
total_uci_bits a =
    ((if a.has_sr then 1 else 0) + a.harq_ack_bits + a.csi_part1_bits + a.csi_part2_bits) % 2 ^ 8

pub record SrConfig : Type 0 where
  pub sr_resource_id : ℕ
  pub pucch_resource_id : ℕ
  pub periodicity_slots : ℕ
  pub offset_slots : ℕ

unfoldable pub is_sr_occasion : SrConfig → (sfn slot slots_per_frame : ℕ) → Option Bool
is_sr_occasion c sfn slot slots_per_frame =
    if c.periodicity_slots == 0
    then none
    else if ltb (sfn * slots_per_frame + slot) (2 ^ 31)
    then some ((sfn * slots_per_frame + slot) % c.periodicity_slots == c.offset_slots)
    else none

pub record CsiReportConfig : Type 0 where
  pub report_config_id : ℕ
  pub pucch_resource_id : ℕ
  pub periodicity_slots : ℕ
  pub offset_slots : ℕ
  pub report_cqi : Bool
  pub report_ri : Bool
  pub report_pmi : Bool
  pub report_cri : Bool
  pub report_li : Bool
  pub wideband_cqi : Bool
  pub num_subbands : ℕ

-- Every sum is cut to 8 bits.
unfoldable pub plus_if : Bool → (bits n : ℕ) → ℕ
plus_if reported bits n = if reported then (bits + n) % 2 ^ 8 else bits

unfoldable pub estimate_payload_bits : CsiReportConfig → ℕ
unfolding plus_if
estimate_payload_bits c =
    let cqi = plus_if c.report_cqi 0 (if c.wideband_cqi then 4 else 4 + c.num_subbands * 4) in
    plus_if c.report_li
      (plus_if c.report_cri (plus_if c.report_pmi (plus_if c.report_ri cqi 2) 4) 3) 2
