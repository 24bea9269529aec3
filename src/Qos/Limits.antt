-- ===== src/Qos/Limits.antt =====
-- `TokenBucket` of qos_engine.hpp: how much it lets through.
use native.Mathlib.Nat.{mul-le-mul_left}
use nr5g_basic_scheduler.Base.{
  false, ℕ, ◌+◌, ◌-◌, ◌*◌, ◌/◌, ◌%◌, ◌^◌, ◌≤◌, ◌<◌, ◌≡◌, refl, ap, ◌∙◌, Bool, if◌then◌else◌,
  if-elim, arith,
}
use nr5g_basic_scheduler.Base.Int.{ℤ, pos, negsuc, pos_part, neg_part, ltb_ℤ, ◌+ℤ◌, ◌-ℤ◌}
use nr5g_basic_scheduler.Qos.{TokenBucket, update, consume, min_ℤ}
use nr5g_basic_scheduler.Qos.Flows.{init_bucket}

-- Updates and consumptions of a bucket, with the bytes that went through. At an update the 64-bit
-- product and sum of the code do not overflow.
pub data Run (start : TokenBucket) : ℕ → TokenBucket → Type 0 where
  begun : Run start 0 start
  updated :
      {n : ℕ} {b : TokenBucket} (now : ℕ)
      → Run start n b
      → b.last_update ≤ now
      → pos_part b.tokens + b.fill_rate_bps * ((now - b.last_update) / 1000) < 2 ^ 63
      → Run start n (update b now)
  consumed :
      {n : ℕ} {b : TokenBucket} (bytes : ℕ)
      → Run start n b
      → Run start (if (consume b bytes).1 then n + bytes else n) ((consume b bytes).0)

-- The integer n is at most the integer a and the bytes that `rate` fills in `ns` nanoseconds.
record IsBounded (start : TokenBucket) (n : ℕ) (b : TokenBucket) : Type 0 where
  same_rate : b.fill_rate_bps ≡ start.fill_rate_bps
  later : start.last_update ≤ b.last_update
  bounded :
      1000000000 * (n + pos_part b.tokens + neg_part start.tokens)
      ≤ 1000000000 * (pos_part start.tokens + neg_part b.tokens)
        + start.fill_rate_bps * (b.last_update - start.last_update)

filled : (rate dt : ℕ) → 1000000000 * (rate * (dt / 1000) / 1000000) ≤ rate * dt
filled rate dt =
    let whole : dt / 1000 * 1000 ≤ dt = omega arith in omega (arith, mul-le-mul_left rate whole)

add-le :
    (t : ℤ) (new size : ℕ)
    → pos_part (min_ℤ (t +ℤ pos new) (pos size)) + neg_part t
      ≤ pos_part t + new + neg_part (min_ℤ (t +ℤ pos new) (pos size))
unfolding min_ℤ ◌+ℤ◌
add-le t new size = ground arith

update-IsBounded :
    (start : TokenBucket) (n : ℕ) (b : TokenBucket) (now : ℕ)
    → b.last_update ≤ now
    → IsBounded start n b
    → IsBounded start n (update b now)
unfolding update
update-IsBounded start n b now l ok =
    let rate = b.fill_rate_bps in
    let dt = now - b.last_update in
    let before = ok.bounded in
    let earlier = ok.later in
    let new = filled rate dt in
    let more = add-le b.tokens (rate * (dt / 1000) / 1000000) b.bucket_size in
    let own : rate * dt ≡ start.fill_rate_bps * dt = ap (λ r. r * dt) ok.same_rate in
    let parts : now - start.last_update ≡ dt + (b.last_update - start.last_update) = omega arith in
    let split = ap (λ x. start.fill_rate_bps * x) parts in
    record { same_rate = ok.same_rate; later = omega arith; bounded = omega arith }

sub-lem :
    (t : ℤ) (bytes : ℕ)
    → pos_part (t -ℤ pos bytes) + bytes + neg_part t ≡ pos_part t + neg_part (t -ℤ pos bytes)
unfolding ◌-ℤ◌
sub-lem t bytes = ground arith

consume-IsBounded :
    (start : TokenBucket) (n : ℕ) (b : TokenBucket) (bytes : ℕ)
    → IsBounded start n b
    → IsBounded start (if (consume b bytes).1 then n + bytes else n) ((consume b bytes).0)
unfolding consume
consume-IsBounded start n b bytes ok =
    if-elim (λ (r : TokenBucket × Bool). IsBounded start (if r.1 then n + bytes else n) (r.0))
      (ltb_ℤ b.tokens (pos bytes)) _ _ (λ short. ok)
      (λ enough.
        let before = ok.bounded in
        let taken = sub-lem b.tokens bytes in
        record { same_rate = ok.same_rate; later = ok.later; bounded = omega arith })

Run-IsBounded :
    (start : TokenBucket) {n : ℕ} {b : TokenBucket} → Run start n b → IsBounded start n b
Run-IsBounded start begun = record { same_rate = refl; later = omega arith; bounded = omega arith }
Run-IsBounded start (updated {n = n} {b = b} now r l small) =
    update-IsBounded start n b now l (Run-IsBounded start r)
Run-IsBounded start (consumed {n = n} {b = b} bytes r) =
    consume-IsBounded start n b bytes (Run-IsBounded start r)

-- The tokens are not negative and at most the size of the bucket.
record IsCapped (start b : TokenBucket) : Type 0 where
  same_size : b.bucket_size ≡ start.bucket_size
  nonneg : neg_part b.tokens ≡ 0
  capped : pos_part b.tokens ≤ b.bucket_size

min_ℤ_capped :
    (t : ℤ) (new size : ℕ)
    → neg_part t ≡ 0
    → (neg_part (min_ℤ (t +ℤ pos new) (pos size)) ≡ 0)
      × (pos_part (min_ℤ (t +ℤ pos new) (pos size)) ≤ size)
unfolding min_ℤ ◌+ℤ◌
min_ℤ_capped t new size h = (ground arith, ground arith)

update-IsCapped :
    (start b : TokenBucket) (now : ℕ) → IsCapped start b → IsCapped start (update b now)
unfolding update
update-IsCapped start b now ok =
    let elapsed = (now - b.last_update) / 1000 in
    let (n, c) =
      min_ℤ_capped b.tokens (b.fill_rate_bps * elapsed / 1000000) b.bucket_size ok.nonneg in
    record { same_size = ok.same_size; nonneg = n; capped = c }

taken_capped :
    (t : ℤ) (bytes size : ℕ)
    → ltb_ℤ t (pos bytes) ≡ false
    → pos_part t ≤ size
    → (neg_part (t -ℤ pos bytes) ≡ 0) × (pos_part (t -ℤ pos bytes) ≤ size)
unfolding ◌-ℤ◌
taken_capped t bytes size enough h = (ground arith, ground arith)

consume-IsCapped :
    (start b : TokenBucket) (bytes : ℕ) → IsCapped start b → IsCapped start ((consume b bytes).0)
unfolding consume
consume-IsCapped start b bytes ok =
    if-elim (λ (r : TokenBucket × Bool). IsCapped start (r.0)) (ltb_ℤ b.tokens (pos bytes)) _ _
      (λ short. ok)
      (λ enough.
        let (n, c) = taken_capped b.tokens bytes b.bucket_size enough ok.capped in
        record { same_size = ok.same_size; nonneg = n; capped = c })

Run-IsCapped :
    (start : TokenBucket) {n : ℕ} {b : TokenBucket}
    → IsCapped start start
    → Run start n b
    → IsCapped start b
Run-IsCapped start ok begun = ok
Run-IsCapped start ok (updated {b = b} now r l small) =
    update-IsCapped start b now (Run-IsCapped start ok r)
Run-IsCapped start ok (consumed {b = b} bytes r) =
    consume-IsCapped start b bytes (Run-IsCapped start ok r)

nonneg_pos : (t : ℤ) → neg_part t ≡ 0 → t ≡ pos (pos_part t)
nonneg_pos (pos n) h = refl
nonneg_pos (negsuc n) h = absurd (omega arith)

-- However updates and consumptions follow each other, while no 64-bit product or sum overflows: a
-- bucket that starts with `full` tokens, at most its size, always has between 0 and its size. What it
-- lets through, with the tokens that are left, is at most `full` and, for the time up to the last
-- update, one byte per second for each unit of its fill rate.
pub consume_bounded :
    (start : TokenBucket) (full : ℕ) {n : ℕ} {b : TokenBucket}
    → start.tokens ≡ pos full
    → full ≤ start.bucket_size
    → Run start n b
    → (left : ℕ) × (b.tokens ≡ pos left)
      × (left ≤ start.bucket_size)
      × (1000000000 * (n + left)
          ≤ 1000000000 * full + start.fill_rate_bps * (b.last_update - start.last_update))
consume_bounded start full {n} {b} s h r =
    let bound = (Run-IsBounded start r).bounded in
    let p : pos_part start.tokens ≡ full = ap pos_part s in
    let q : neg_part start.tokens ≡ 0 = ap neg_part s in
    let ok = Run-IsCapped start (record { same_size = refl; nonneg = q; capped = omega arith }) r in
    let size = ok.same_size in
    let few = ok.capped in
    let q' = ok.nonneg in (pos_part b.tokens, nonneg_pos b.tokens q', omega arith, omega arith)

-- A bucket made for a rate in bits per second and a depth in milliseconds holds the bytes of that
-- depth, but is full again, after it was emptied, in an eighth of it.
update_refills :
    (rate_bps depth_ms now : ℕ)
    → rate_bps * depth_ms < 2 ^ 64
    → let b = init_bucket rate_bps depth_ms now in
      (b.bucket_size ≡ rate_bps * depth_ms / 8000)
      × ((update (record b { tokens = pos 0 }) (now + 125000 * depth_ms)).tokens ≡ b.tokens)
unfolding init_bucket update min_ℤ ◌+ℤ◌
update_refills rate_bps depth_ms now small =
    let elapsed : (now + 125000 * depth_ms - now) / 1000 ≡ 125 * depth_ms = omega arith in
    let new : rate_bps * ((now + 125000 * depth_ms - now) / 1000) / 1000000
        ≡ rate_bps * depth_ms % 2 ^ 64 / 8000 =
      ap (λ x. rate_bps * x / 1000000) elapsed ∙ omega arith in
    (
      omega arith,
      ap (λ x. min_ℤ (pos 0 +ℤ pos x) (pos (rate_bps * depth_ms % 2 ^ 64 / 8000))) new
          ∙ same (rate_bps * depth_ms % 2 ^ 64 / 8000),
    )
  where
    same : (n : ℕ) → min_ℤ (pos 0 +ℤ pos n) (pos n) ≡ pos n
    same n = ground arith
