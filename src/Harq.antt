-- ===== src/Harq.antt =====
-- `HarqEntity<16>` of nr_scheduler/include/core/ue_context.hpp, with the HARQ types of nr_types.hpp.
-- A pointer to a process is its index in the array.
pub mod Select
pub mod Feedback
mod Examples
use nr5g_basic_scheduler.Base.{
  ℕ, zero, suc, ◌+◌, ◌%◌, ◌≡◌, Bool, true, false, not, ◌&&◌, ◌||◌, ltb, leb, if◌then◌else◌, Option,
  none, some, List, [], ◌∷◌, length, get_elem?, get_or, set,
}
use nr5g_basic_scheduler.Timing.{FrameTiming, absolute_slot}
use nr5g_basic_scheduler.Resources.{TimeFrequencyResource}

pub data HarqState : Type 0 where
  idle pending nack_received complete : HarqState

abbrev pub is_idle : HarqState → Bool
is_idle idle = true
is_idle _ = false

abbrev pub is_pending : HarqState → Bool
is_pending pending = true
is_pending _ = false

abbrev pub is_nack_received : HarqState → Bool
is_nack_received nack_received = true
is_nack_received _ = false

pub record HarqFeedback : Type 0 where
  pub harq_id : ℕ
  pub ack : Bool
  pub dtx : Bool
  pub feedback_time : FrameTiming

pub record TransportBlockConfig : Type 0 where
  pub tb_size_bytes : ℕ
  pub mcs_index : ℕ
  pub mcs_table : ℕ
  pub rv_index : ℕ
  pub ndi : Bool
  pub num_layers : ℕ

pub record Process : Type 0 where
  pub id : ℕ
  pub state : HarqState
  pub tx_count : ℕ
  pub rv_index : ℕ
  pub ndi : Bool
  pub tb_config : TransportBlockConfig
  pub allocation : TimeFrequencyResource
  pub tx_time : FrameTiming
  pub feedback_expected : FrameTiming

abbrev pub max_tx : ℕ
max_tx = 4

abbrev pub max_processes : ℕ
max_processes = 16

unfoldable pub can_retransmit : Process → Bool
can_retransmit p = ltb p.tx_count max_tx && is_nack_received p.state

unfoldable pub reset : Process → Process
reset p = record p { state = idle; tx_count = 0; rv_index = 0; ndi = not p.ndi }

unfoldable pub next_rv : Process → ℕ
next_rv p = get_or (0 ∷ 2 ∷ 3 ∷ 1 ∷ []) (p.tx_count % 4) 0

abbrev pub HarqEntity : Type 0
HarqEntity = List Process

-- The constructor. `blank` stands for the members that it leaves without a value.
unfoldable pub fresh_from : Process → (id rounds : ℕ) → HarqEntity
fresh_from blank id zero = []
fresh_from blank id (suc rounds) =
    record blank { id = id; state = idle; tx_count = 0; rv_index = 0; ndi = false }
    ∷ fresh_from blank (id + 1) rounds

unfoldable pub fresh_entity : Process → HarqEntity
unfolding fresh_from
fresh_entity blank = fresh_from blank 0 max_processes

-- The loop of `get_free_process`, at index `i`.
unfoldable pub free_from : ℕ → List Process → Option ℕ
free_from i [] = none
free_from i (p ∷ ps) = if is_idle p.state then some i else free_from (i + 1) ps

unfoldable pub get_free_process : HarqEntity → Option ℕ
unfolding free_from
get_free_process e = free_from 0 e

-- The loop of `get_retx_process`, at index `i`, with the oldest process so far.
abbrev pub older : Process → Option (ℕ × Process) → Bool
older p none = true
older p (some (i, q)) = ltb (absolute_slot p.tx_time) (absolute_slot q.tx_time)

unfoldable pub retx_from : ℕ → Option (ℕ × Process) → List Process → Option (ℕ × Process)
unfolding can_retransmit
retx_from i oldest [] = oldest
retx_from i oldest (p ∷ ps) =
    retx_from (i + 1)
      (if is_nack_received p.state && can_retransmit p && older p oldest
        then some (i, p)
        else oldest)
      ps

unfoldable pub get_retx_process : HarqEntity → Option (ℕ × Process)
unfolding retx_from
get_retx_process e = retx_from 0 none e

unfoldable pub get_process : HarqEntity → ℕ → Option Process
get_process e id = if ltb id max_processes then get_elem? e id else none

-- What `process_feedback` does to the process that it addresses.
unfoldable pub feedback_on : HarqFeedback → Process → Process
unfolding reset
feedback_on fb p =
    if not (is_pending p.state)
    then p
    else if fb.ack
    then reset p
    else record p { state = nack_received }

unfoldable pub process_feedback : HarqEntity → HarqFeedback → HarqEntity
unfolding feedback_on
process_feedback e fb =
    if leb max_processes fb.harq_id
    then e
    else elim (get_elem? e fb.harq_id) [ none ↦ e | some p ↦ set e fb.harq_id (feedback_on fb p) ]

abbrev pub is_outstanding : HarqState → Bool
is_outstanding s = is_pending s || is_nack_received s

unfoldable pub pending_count : HarqEntity → ℕ
pending_count [] = 0
pending_count (p ∷ ps) = (if is_outstanding p.state then 1 else 0) + pending_count ps
