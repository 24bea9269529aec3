-- ===== src/Cce/Counting.antt =====
-- The counter of a `CcePool` of cell_context.hpp, through its operations.
use nr5g_basic_scheduler.Base.{
  ℕ, zero, suc, ◌+◌, ◌%◌, ◌≤◌, ◌<◌, ◌≡◌, refl, sym, ap, ap₂, ◌∙◌, fun_ext, subst, inl, inr, min,
  Bool, true, false, ◌&&◌, ltb, leb, ◌==◌, if◌then◌else◌, Option, none, some, arith, Bool-cases,
}
use nr5g_basic_scheduler.Cce.Blocks.{IsBlockFree, written, granted, IsFirstBlock, allocate_first}
use nr5g_basic_scheduler.Cce.{
  AggregationLevel, al_value, CcePool, max_cces, allocate, clear_from, deallocate, available,
  can_allocate, count_used, IsCounted,
}

count_used-le : (u : ℕ → Bool) (n : ℕ) → count_used u n ≤ n
unfolding count_used
count_used-le u zero = omega arith
count_used-le u (suc n) = ground (arith, count_used-le u n)

count_used-written :
    (p : CcePool) (start n m : ℕ)
    → IsBlockFree p start n
    → count_used (written true p start n).used m + min m start
      ≡ count_used p.used m + min m (start + n)
unfolding count_used
count_used-written p start n zero free = omega arith
count_used-written p start n (suc m) free =
    ground (arith, count_used-written p start n m free, free m)

granted-IsCounted :
    (p : CcePool) (start n : ℕ)
    → IsCounted p
    → start + n ≤ p.num_cces
    → IsBlockFree p start n
    → IsCounted (granted p start n)
granted-IsCounted p start n c h free =
    let grown = count_used-written p start n p.num_cces free in
    let small = count_used-le (written true p start n).used p.num_cces in
    record {
      fits = c.fits;
      rest_free = λ i k. ground (arith, c.rest_free i);
      counted = let e = c.counted in let f = c.fits in omega arith;
    }

-- A counted pool stays so when `allocate` returns, whether or not it found a block.
pub allocate-IsCounted :
    (p : CcePool) (a : AggregationLevel) {q : CcePool} {r : Option ℕ}
    → IsCounted p
    → allocate p a ≡ some (q, r)
    → IsCounted q
allocate-IsCounted p a c e = elim (allocate_first p a c.fits) [
  | inl (start, f, b) ↦
      let counted = granted-IsCounted p start (al_value a) c b.within b.free in
      subst IsCounted (cc) counted
  | inr (f, _) ↦ subst IsCounted (cc) c
]

-- One used element cleared lowers the count by one.
count_used-cleared :
    (u : ℕ → Bool) (i m : ℕ)
    → u i ≡ true
    → count_used (λ j. if j == i then false else u j) m + (if ltb i m then 1 else 0)
      ≡ count_used u m
unfolding count_used
count_used-cleared u i zero h = ground arith
count_used-cleared u i (suc m) h = elim (Bool-cases (m == i)) [
  | inl here ↦
      let same : m ≡ i = ground arith in ground (arith, count_used-cleared u i m h, ap u same)
  | inr away ↦ ground (arith, count_used-cleared u i m h)
]

-- The pool with one element cleared and the counter lowered.
abbrev cleared : CcePool → ℕ → CcePool
cleared p i = record p {
  used = λ j. if j == i then false else p.used j;
  allocated_count = (p.allocated_count + 255) % 256;
}

cleared-IsCounted :
    (p : CcePool) (i : ℕ) → IsCounted p → i < p.num_cces → p.used i ≡ true → IsCounted (cleared p i)
cleared-IsCounted p i c h u =
    let e = c.counted in
    let f = c.fits in
    let less = count_used-cleared p.used i p.num_cces u in
    let small = count_used-le p.used p.num_cces in
    record { fits = f; rest_free = λ j k. ground (arith, c.rest_free j); counted = ground arith }

-- What clearing `n` elements from `i` on does to a counted pool.
pub record IsCleared (p : CcePool) (i n : ℕ) (q : CcePool) : Type 0 where
  pub still_counted : IsCounted q
  pub same_size : q.num_cces ≡ p.num_cces
  pub bits : (j : ℕ) → q.used j ≡ (if leb i j && ltb j (i + n) then false else p.used j)

module _ (p : CcePool) (i : ℕ) where
  later_cleared :
      (q : CcePool) (n : ℕ) → IsCleared (cleared p i) (i + 1) n q → IsCleared p i (suc n) q
  later_cleared q n c = record {
    still_counted = c.still_counted;
    same_size = c.same_size;
    bits = λ j. ground (arith, c.bits j);
  }

  later_skipped :
      (q : CcePool) (n : ℕ) → p.used i ≡ false → IsCleared p (i + 1) n q → IsCleared p i (suc n) q
  later_skipped q n free c = record {
    still_counted = c.still_counted;
    same_size = c.same_size;
    bits = λ j. elim (Bool-cases (j == i)) [
      | inl here ↦
          let same : j ≡ i = ground arith in
          let unused : p.used j ≡ false = ap p.used same ∙ free in ground (arith, c.bits j)
      | inr away ↦ ground (arith, c.bits j)
    ];
  }

clear_from-IsCleared :
    (p : CcePool) (i n : ℕ)
    → IsCounted p
    → (q : CcePool) × (clear_from p i n ≡ some q) × IsCleared p i n q
unfolding clear_from
clear_from-IsCleared p i zero c =
    (p, refl, record { still_counted = c; same_size = refl; bits = λ j. ground arith })
clear_from-IsCleared p i (suc n) c = elim (Bool-cases (ltb i p.num_cces)) [
  | inr past ↦ (
    p,
    rw (past, clear_from),
    record { still_counted = c; same_size = refl; bits = λ j. ground (arith, c.rest_free j) },
  )
  | inl inside ↦
      let f = c.fits in
      let open_ : ltb i max_cces ≡ true = ground arith in
      elim (Bool-cases (p.used i)) [
        | inr free ↦
            let (q, e, v) = clear_from-IsCleared p (i + 1) n c in
            (
              q,
              rw (inside, clear_from) (rw (open_, clear_from) (rw (free, clear_from) e)),
              later_skipped p i q n free v,
            )
        | inl taken ↦
            let (q, e, v) =
              clear_from-IsCleared (cleared p i) (i + 1) n
                (cleared-IsCounted p i c (ground arith) taken) in
            (
              q,
              rw (inside, clear_from)
                  (rw (open_, clear_from) (rw (taken, clear_from) (rw (open_, clear_from) e))),
              later_cleared p i q n v,
            )
      ]
]

-- On a counted pool `deallocate` returns, for every start and level, also for elements that are free
-- or past the pool: just the elements of the block are cleared, and the pool stays counted.
deallocate-IsCleared :
    (p : CcePool) (start : ℕ) (a : AggregationLevel)
    → IsCounted p
    → (q : CcePool) × (deallocate p start a ≡ some q) × IsCleared p start (al_value a) q
unfolding deallocate
deallocate-IsCleared p start a c = clear_from-IsCleared p start (al_value a) c

counted_path :
    (p q : CcePool)
    → IsCounted p
    → IsCounted q
    → q.num_cces ≡ p.num_cces
    → ((j : ℕ) → q.used j ≡ p.used j)
    → q ≡ p
counted_path p q c d size bits =
    let same : q.used ≡ p.used = fun_ext bits in
    let count : q.allocated_count ≡ p.allocated_count =
      d.counted ∙ ap₂ count_used same size ∙ sym c.counted in
    λ i. record { num_cces = size i; allocated_count = count i; used = same i }

allocated_block :
    (p : CcePool) (a : AggregationLevel) (start : ℕ) {q : CcePool}
    → IsCounted p
    → allocate p a ≡ some (q, some start)
    → (q ≡ granted p start (al_value a)) × IsFirstBlock p a start
allocated_block p a start {q} c e = elim (allocate_first p a c.fits) [
  | inl (s, f, b) ↦ let same : s ≡ start = cc in (cc, subst (IsFirstBlock p a) same b)
  | inr (f, _) ↦ cc
]

restored :
    (p : CcePool) (a : AggregationLevel) (start : ℕ) {q : CcePool} (r : CcePool)
    → IsCounted p
    → allocate p a ≡ some (q, some start)
    → IsCleared q start (al_value a) r
    → (r.num_cces ≡ p.num_cces) × ((j : ℕ) → r.used j ≡ p.used j)
restored p a start {q} r c e v =
    let (g, b) = allocated_block p a start c e in
    let bit : (j : ℕ) → q.used j ≡ (granted p start (al_value a)).used j =
      λ j. ap (λ (x : CcePool). x.used j) g in
    (
      v.same_size ∙ ap (λ (x : CcePool). x.num_cces) g,
      λ j. ground (arith, v.bits j, bit j, b.free j),
    )

-- Giving back the block that `allocate` took restores a counted pool whole.
pub deallocate-allocate_block :
    (p : CcePool) (a : AggregationLevel) (start : ℕ) {q : CcePool}
    → IsCounted p
    → allocate p a ≡ some (q, some start)
    → deallocate q start a ≡ some p
deallocate-allocate_block p a start {q} c e =
    let (r, f, v) = deallocate-IsCleared q start a (allocate-IsCounted p a c e) in
    let (size, bits) = restored p a start r c e v in
    f ∙ ap some (counted_path p r c v.still_counted size bits)

-- What is available and what is used make up the pool.
pub available-count_used :
    (p : CcePool) → IsCounted p → available p + count_used p.used p.num_cces ≡ p.num_cces
unfolding available
available-count_used p c =
    let f = c.fits in
    let e = c.counted in let small = count_used-le p.used p.num_cces in omega arith

-- Where `can_allocate` fails on a counted pool, `allocate` finds no block and changes nothing.
pub allocate-can_allocate :
    (p : CcePool) (a : AggregationLevel)
    → IsCounted p
    → can_allocate p a ≡ false
    → allocate p a ≡ some (p, none)
unfolding can_allocate
allocate-can_allocate p a c none_left = elim (allocate_first p a c.fits) [
  | inr (full, _) ↦ full
  | inl (start, _, b) ↦
      let within = b.within in
      let whole = available-count_used p c in
      let grown = count_used-written p start (al_value a) p.num_cces b.free in
      let most = count_used-le (written true p start (al_value a)).used p.num_cces in
      absurd (ground arith)
]
