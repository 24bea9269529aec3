-- ===== src/Qos/Throttle.antt =====
-- `get_allowed_bytes` and `calculate_priority` of qos_engine.cpp: how much a flow may send.
use nr5g_basic_scheduler.Base.{
  ℕ, ◌-◌, ◌*◌, ◌/◌, ◌%◌, ◌^◌, ◌≤◌, ◌<◌, ◌≡◌, refl, ap, ◌∙◌, Bool, true, false, some, arith,
}
use nr5g_basic_scheduler.Base.Int.{ℤ, pos, negsuc, pos_part, ◌+ℤ◌, ◌-ℤ◌}
use nr5g_basic_scheduler.Base.Floats.{Floats}
use nr5g_basic_scheduler.Qos.{TokenBucket, update, min_ℤ, QosFlowState, QosEngine}
use nr5g_basic_scheduler.Qos.Flows.{find_flow, put_flow, bucket_of}
use nr5g_basic_scheduler.Qos.Traffic.{transmitted, get_allowed_bytes, report_transmission}
use nr5g_basic_scheduler.Qos.Priority.{calculate_priority, flow_priority, throttled, to_u32}
use nr5g_basic_scheduler.Qos.Counting.{find_flow-put_flow, own_key}

throttled_overdrawn :
    (buffer_bytes k : ℕ)
    → k < 2 ^ 31
    → buffer_bytes ≤ 2 ^ 31
    → throttled buffer_bytes (negsuc k) ≡ buffer_bytes
unfolding throttled to_u32
throttled_overdrawn buffer_bytes k h l = omega arith

-- Where maximum rates are enforced and the flow's bucket is overdrawn when it is brought up to date, by
-- at most 2 ^ 31 bytes, a buffer of at most 2 ^ 31 bytes is not throttled at all: `calculate_priority`
-- allows the whole of it.
pub calculate_priority_overdrawn :
    (F : Floats) (e : QosEngine F.D) (rnti qfi : ℕ) (dl : Bool)
    (buffer_bytes urgency_now bucket_now : ℕ) (flow : QosFlowState F.D) (k : ℕ)
    → find_flow e rnti qfi ≡ some flow
    → e.config.enable_mbr_enforcement ≡ true
    → (update (bucket_of dl flow) bucket_now).tokens ≡ negsuc k
    → k < 2 ^ 31
    → buffer_bytes ≤ 2 ^ 31
    → (calculate_priority F e rnti qfi dl buffer_bytes urgency_now bucket_now).1.max_bytes_allowed
      ≡ buffer_bytes
unfolding calculate_priority flow_priority
calculate_priority_overdrawn F e rnti qfi dl buffer_bytes urgency_now bucket_now flow k found
      limited over h l =
    rw (found, calculate_priority)
      (rw limited (ap (throttled buffer_bytes) over ∙ throttled_overdrawn buffer_bytes k h l))

get_allowed_bytes_lem :
    {D : Type 0} (e : QosEngine D) (rnti qfi : ℕ) (dl : Bool) (now : ℕ) (flow : QosFlowState D)
    → find_flow e rnti qfi ≡ some flow
    → (get_allowed_bytes e rnti qfi dl now).1
      ≡ pos_part ((update (bucket_of dl flow) now).tokens) % 2 ^ 32
unfolding get_allowed_bytes
get_allowed_bytes_lem e rnti qfi dl now flow found = rw (found, get_allowed_bytes) refl

full_or_less : (t : ℤ) (size : ℕ) → pos_part (min_ℤ t (pos size)) ≤ size
unfolding min_ℤ
full_or_less t size = ground arith

took :
    (m : ℤ) (bytes size none_new : ℕ)
    → none_new ≡ 0
    → pos_part m ≤ size
    → pos_part (min_ℤ (m -ℤ pos bytes +ℤ pos none_new) (pos size)) ≡ pos_part m - bytes
unfolding min_ℤ ◌+ℤ◌ ◌-ℤ◌
took m bytes size none_new e h = ground arith

-- A bucket that gave bytes, brought up to date at the same time again.
update-spent :
    (b : TokenBucket) (bytes now : ℕ)
    → let c = update b now in
      pos_part ((update (record c { tokens = c.tokens -ℤ pos bytes }) now).tokens)
      ≡ pos_part c.tokens - bytes
unfolding update
update-spent b bytes now =
    let elapsed : (now - now) / 1000 ≡ 0 = omega arith in
    let new : b.fill_rate_bps * ((now - now) / 1000) / 1000000 ≡ 0 =
      ap (λ x. b.fill_rate_bps * x / 1000000) elapsed ∙ omega arith in
    took _ bytes b.bucket_size _ new (full_or_less _ b.bucket_size)

spent :
    {D : Type 0} (dl : Bool) (flow : QosFlowState D) (bytes now sample_now : ℕ)
    → pos_part ((update (bucket_of dl (transmitted dl flow bytes now sample_now)) now).tokens)
      ≡ pos_part ((update (bucket_of dl flow) now).tokens) - bytes
unfolding bucket_of transmitted
spent true flow bytes now sample_now = update-spent flow.dl_bucket bytes now
spent false flow bytes now sample_now = update-spent flow.ul_bucket bytes now

-- Directly after a transmission a flow may send what it could before it, less the bytes sent, or
-- nothing where it sent more; all of it in 32 bits.
pub get_allowed_bytes-report_transmission :
    {D : Type 0} (e : QosEngine D) (rnti qfi : ℕ) (dl : Bool) (bytes now sample_now : ℕ)
    (flow : QosFlowState D)
    → find_flow e rnti qfi ≡ some flow
    → pos_part ((update (bucket_of dl flow) now).tokens) < 2 ^ 32
    → (get_allowed_bytes (report_transmission e rnti qfi dl bytes now sample_now) rnti qfi dl now).1
      ≡ (get_allowed_bytes e rnti qfi dl now).1 - bytes
unfolding report_transmission
get_allowed_bytes-report_transmission e rnti qfi dl bytes now sample_now flow found small =
    let after = transmitted dl flow bytes now sample_now in
    let there : find_flow (put_flow e rnti qfi after) rnti qfi ≡ some after =
      find_flow-put_flow e rnti qfi rnti qfi after ∙ rw (own_key rnti) (rw (own_key qfi) refl) in
    let reported : report_transmission e rnti qfi dl bytes now sample_now
        ≡ put_flow e rnti qfi after =
      rw (found, report_transmission) refl in
    ap (λ x. (get_allowed_bytes x rnti qfi dl now).1) reported
    ∙ get_allowed_bytes_lem (put_flow e rnti qfi after) rnti qfi dl now after there
    ∙ ap (λ n. n % 2 ^ 32) (spent dl flow bytes now sample_now)
    ∙ omega (arith, get_allowed_bytes_lem e rnti qfi dl now flow found)
