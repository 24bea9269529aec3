-- ===== src/Ue.antt =====
-- UEs: the classes UeContext and UeRepository of nr_scheduler/include/core/ue_context.hpp, with the
-- channel and buffer types of nr_scheduler/include/core/nr_types.hpp. A shared pointer to a UE is its
-- address in a list of all UEs that were made.
pub mod Index
mod Examples
use nr5g_basic_scheduler.Base.{
  ℕ, zero, suc, ◌+◌, ◌-◌, ◌%◌, ◌^◌, Bool, true, false, not, ltb, ◌==◌, ◌||◌, if◌then◌else◌, Option,
  none, some, List, [], ◌∷◌, ◌++◌, length, get_elem?, get_or, set, arith,
}
use nr5g_basic_scheduler.Base.Int.{ℤ, pos, ltb_ℤ}
use nr5g_basic_scheduler.Base.Table.{Table, lookup, insert, erase}
use nr5g_basic_scheduler.Timing.{FrameTiming, SubcarrierSpacing, diff}
use nr5g_basic_scheduler.Harq.{HarqEntity, HarqFeedback, process_feedback}
use nr5g_basic_scheduler.Qos.{QosFlowParams}

pub record BwpConfig : Type 0 where
  pub bwp_id : ℕ
  pub start_rb : ℕ
  pub num_rbs : ℕ
  pub scs : SubcarrierSpacing
  pub is_active : Bool

pub record ChannelQualityInfo : Type 0 where
  pub wideband_cqi : ℕ
  pub rank_indicator : ℕ
  pub subband_cqi : List ℕ
  pub pmi : Option ℕ
  pub report_time : FrameTiming

-- `ChannelQualityInfo::is_valid`, whose call of `diff` has an argument too many, read without it.
unfoldable pub is_fresh : ChannelQualityInfo → FrameTiming → ℕ → Bool
is_fresh q now validity_slots = not (ltb_ℤ (pos validity_slots) (diff now q.report_time))

pub record BufferStatus : Type 0 where
  pub lcg_buffer_bytes : List ℕ
  pub report_time : FrameTiming
  pub sr_pending : Bool

-- A sum in 32 bits.
unfoldable pub sum_u32 : ℕ → List ℕ → ℕ
sum_u32 total [] = total
sum_u32 total (n ∷ ns) = sum_u32 ((total + n) % 2 ^ 32) ns

unfoldable pub total_buffer : BufferStatus → ℕ
unfolding sum_u32
total_buffer b = sum_u32 0 b.lcg_buffer_bytes

pub record LogicalChannelConfig (D : Type 0) : Type 0 where
  pub lc_id : ℕ
  pub lcg_id : ℕ
  pub priority : ℕ
  pub prioritized_bit_rate_bps : ℕ
  pub bucket_size_duration_ms : ℕ
  pub qos_params : Option (QosFlowParams D)

pub record DrxConfig : Type 0 where
  pub enabled : Bool
  pub on_duration_ms : ℕ
  pub inactivity_timer_ms : ℕ
  pub harq_rtt_timer_ms : ℕ
  pub short_cycle_ms : ℕ
  pub long_cycle_ms : ℕ
  pub short_cycle_timer : ℕ
  pub slot_offset : ℕ

pub record DrxState : Type 0 where
  pub active_time : Bool
  pub on_duration_start : FrameTiming
  pub inactivity_expiry : FrameTiming
  pub in_short_cycle : Bool
  pub short_cycle_count : ℕ

pub record UeContext (D : Type 0) : Type 0 where
  pub rnti : ℕ
  pub ue_id : ℕ
  pub slice_id : ℕ
  pub dl_bwps : List BwpConfig
  pub ul_bwps : List BwpConfig
  pub active_dl_bwp_id : ℕ
  pub active_ul_bwp_id : ℕ
  pub logical_channels : Table (LogicalChannelConfig D)
  pub drx_config : DrxConfig
  pub drx_state : DrxState
  pub dl_harq : HarqEntity
  pub ul_harq : HarqEntity
  pub dl_channel_quality : ChannelQualityInfo
  pub ul_channel_quality : ChannelQualityInfo
  pub ul_buffer_status : BufferStatus
  pub dl_buffer_bytes : Table ℕ
  pub serving_beam_dl : Option ℕ
  pub serving_beam_ul : Option ℕ
  pub timing_advance : ℕ
  pub ta_update_time : FrameTiming
  pub p_cmax : ℤ
  pub phr : ℤ

-- `active_dl_bwp` and `active_ul_bwp`, over the list and the identifier that each takes.
unfoldable pub find_bwp : List BwpConfig → ℕ → Option BwpConfig
find_bwp [] id = none
find_bwp (bwp ∷ bwps) id = if bwp.bwp_id == id then some bwp else find_bwp bwps id

unfoldable pub values : Table ℕ → List ℕ
values [] = []
values ((k, v) ∷ t) = v ∷ values t

module _ {D : Type 0} where
  unfoldable pub active_dl_bwp : UeContext D → Option BwpConfig
  unfolding find_bwp
  active_dl_bwp ue = find_bwp ue.dl_bwps ue.active_dl_bwp_id

  unfoldable pub active_ul_bwp : UeContext D → Option BwpConfig
  unfolding find_bwp
  active_ul_bwp ue = find_bwp ue.ul_bwps ue.active_ul_bwp_id

  unfoldable pub total_dl_buffer : UeContext D → ℕ
  unfolding sum_u32 values
  total_dl_buffer ue = sum_u32 0 (values ue.dl_buffer_bytes)

  unfoldable pub total_ul_buffer : UeContext D → ℕ
  unfolding total_buffer
  total_ul_buffer ue = total_buffer ue.ul_buffer_status

  unfoldable pub has_pending_data : UeContext D → Bool
  unfolding total_dl_buffer total_ul_buffer
  has_pending_data ue =
      ltb 0 (total_dl_buffer ue) || ltb 0 (total_ul_buffer ue) || ue.ul_buffer_status.sr_pending

  unfoldable pub is_in_active_time : UeContext D → Bool
  is_in_active_time ue = if not ue.drx_config.enabled then true else ue.drx_state.active_time

  unfoldable pub effective_cqi : UeContext D → ℕ
  effective_cqi ue = ue.dl_channel_quality.wideband_cqi

  unfoldable pub mcs_from_cqi : UeContext D → ℕ
  unfolding effective_cqi
  mcs_from_cqi ue =
      let cqi = effective_cqi ue in
      if ltb cqi 16
      then get_or (0 ∷ 0 ∷ 1 ∷ 3 ∷ 5 ∷ 7 ∷ 9 ∷ 11 ∷ 13 ∷ 15 ∷ 18 ∷ 20 ∷ 22 ∷ 24 ∷ 26 ∷ 28 ∷ []) cqi
          28
      else 28

  unfoldable pub update_dl_buffer : UeContext D → (lc_id bytes : ℕ) → UeContext D
  update_dl_buffer ue lc_id bytes = record ue {
    dl_buffer_bytes =
        if bytes == 0
        then erase lc_id ue.dl_buffer_bytes
        else insert lc_id bytes ue.dl_buffer_bytes;
  }

  unfoldable pub update_ul_buffer : UeContext D → BufferStatus → UeContext D
  update_ul_buffer ue bsr = record ue { ul_buffer_status = bsr }

  unfoldable pub process_harq_feedback : UeContext D → Bool → HarqFeedback → UeContext D
  process_harq_feedback ue is_dl fb =
      if is_dl
      then record ue { dl_harq = process_feedback ue.dl_harq fb }
      else record ue { ul_harq = process_feedback ue.ul_harq fb }

pub record UeRepository (D : Type 0) : Type 0 where
  pub heap : List (UeContext D)
  pub next_ue_id : ℕ
  pub ue_by_rnti : Table ℕ
  pub ue_by_id : Table ℕ

module _ {D : Type 0} where
  unfoldable pub empty_repository : UeRepository D
  empty_repository = record { heap = []; next_ue_id = 1; ue_by_rnti = []; ue_by_id = [] }

  -- `blank` is a `UeContext` as `std::make_shared` makes it.
  unfoldable pub create_ue : UeContext D → UeRepository D → ℕ → UeRepository D × ℕ
  create_ue blank r rnti =
      let ue = length r.heap in
      (
        record {
          heap = r.heap ++ record blank { rnti = rnti; ue_id = r.next_ue_id } ∷ [];
          next_ue_id = (r.next_ue_id + 1) % 2 ^ 32;
          ue_by_rnti = insert rnti ue r.ue_by_rnti;
          ue_by_id = insert r.next_ue_id ue r.ue_by_id;
        },
        ue,
      )

  -- The entry's pointer is never null, and always leads to a UE.
  unfoldable pub remove_ue : UeRepository D → ℕ → UeRepository D
  remove_ue r rnti = elim (lookup rnti r.ue_by_rnti) [
    | none ↦ r
    | some p ↦ elim (get_elem? r.heap p) [
      | none ↦ r
      | some ue ↦ record r {
        ue_by_id = erase ue.ue_id r.ue_by_id;
        ue_by_rnti = erase rnti r.ue_by_rnti;
      }
    ]
  ]

  unfoldable pub find_by_rnti : UeRepository D → ℕ → Option ℕ
  find_by_rnti r rnti = lookup rnti r.ue_by_rnti

  unfoldable pub find_by_id : UeRepository D → ℕ → Option ℕ
  find_by_id r ue_id = lookup ue_id r.ue_by_id

  unfoldable pub count : UeRepository D → ℕ
  count r = length r.ue_by_rnti
