-- ===== src/Cce/Blocks.antt =====
-- `CcePool::allocate` of cell_context.hpp: the search for a block.
use native.Mathlib.Nat.{add-mod_right, zero-mod}
use nr5g_basic_scheduler.Base.{
  ℕ, zero, suc, ◌+◌, ◌%◌, ◌≤◌, ◌<◌, ◌≡◌, refl, sym, ap, subst, ◌∙◌, fun_ext, ◌⊎◌, inl, inr, Bool,
  true, false, ◌&&◌, ltb, leb, ◌==◌, if◌then◌else◌, Option, none, some, arith, Bool-cases,
}
use nr5g_basic_scheduler.Cce.{
  AggregationLevel, al1, al2, al4, al8, al16, al_value, CcePool, max_cces, test_cce, block_free,
  set_block, allocate_from, allocate,
}

abbrev pub IsBlockFree : CcePool → (start n : ℕ) → Type 0
IsBlockFree p start n = (i : ℕ) → start ≤ i → i < start + n → p.used i ≡ false

block_free_cases :
    (p : CcePool) (i n : ℕ)
    → i + n ≤ max_cces
    → ((block_free p i n ≡ some true) × IsBlockFree p i n)
      ⊎ ((block_free p i n ≡ some false) × (¬ IsBlockFree p i n))
unfolding block_free
block_free_cases p i zero h = inl (refl, λ j p q. absurd (omega arith))
block_free_cases p i (suc n) h =
    let read : test_cce p i ≡ some (p.used i) = ground arith in
    elim (Bool-cases (p.used i)) [
      | inl taken ↦ inr (
        rw (read, block_free) (rw (taken, block_free)),
        λ all. let clash = all i (omega arith) (omega arith) in cc,
      )
      | inr free ↦ elim (block_free_cases p (i + 1) n (omega arith)) [
        | inl (e, all) ↦ inl (
          rw (read, block_free) (rw (free, block_free) e),
          λ j q r. elim (Bool-cases (j == i)) [
            | inl first ↦ let same : j ≡ i = ground arith in rw same free
            | inr later ↦ all j (ground arith) (omega arith)
          ],
        )
        | inr (e, taken) ↦ inr (
          rw (read, block_free) (rw (free, block_free) e),
          λ all. taken (λ j q r. all j (omega arith) (omega arith)),
        )
      ]
    ]

-- The pool with a block of elements written, the counter left alone.
abbrev pub written : Bool → CcePool → (start n : ℕ) → CcePool
written v p start n = record p {
  used = λ j. if leb start j && ltb j (start + n) then v else p.used j;
}

abbrev cell_written : CcePool → ℕ → CcePool
cell_written p i = record p { used = λ j. if j == i then true else p.used j }

pool_path :
    (p : CcePool) (f h : ℕ → Bool)
    → ((i : ℕ) → f i ≡ h i)
    → record p { used = f } ≡ record p { used = h }
pool_path p f h e = ap (λ u. record p { used = u }) (fun_ext e)

set_block_lem :
    (p : CcePool) (i n : ℕ) → i + n ≤ max_cces → set_block p i n ≡ some (written true p i n)
unfolding set_block
set_block_lem p i zero h = ap some (pool_path p p.used _ (λ j. ground arith))
set_block_lem p i (suc n) h =
    let inside : ltb i max_cces ≡ true = ground arith in
    rw (inside, set_block)
      (set_block_lem (cell_written p i) (i + 1) n (omega arith)
        ∙ ap some (pool_path p _ _ (λ j. ground arith)))

-- The pool after a block of `n` elements is taken.
abbrev pub granted : CcePool → (start n : ℕ) → CcePool
granted p start n = record (written true p start n) {
  allocated_count = (p.allocated_count + n) % 256;
}

-- Two aligned starts less than a block apart are the same.
aligned_eq :
    (a : AggregationLevel) (s t : ℕ)
    → s % al_value a ≡ 0
    → t % al_value a ≡ 0
    → s ≤ t
    → t < s + al_value a
    → t ≡ s
unfolding al_value
aligned_eq al1 s t h k l m = omega arith
aligned_eq al2 s t h k l m = omega arith
aligned_eq al4 s t h k l m = omega arith
aligned_eq al8 s t h k l m = omega arith
aligned_eq al16 s t h k l m = omega arith

pub al_value-pos : (a : AggregationLevel) → (1 ≤ al_value a) × (al_value a ≤ 16)
unfolding al_value
al_value-pos al1 = omega arith
al_value-pos al2 = omega arith
al_value-pos al4 = omega arith
al_value-pos al8 = omega arith
al_value-pos al16 = omega arith

module _ (p : CcePool) (a : AggregationLevel) where
  -- No aligned block that starts below the bound is free.
  abbrev pub NoneBelow : ℕ → Type 0
  NoneBelow bound = (s : ℕ) → s % al_value a ≡ 0 → s < bound → ¬ IsBlockFree p s (al_value a)

  -- The block is aligned, within the pool, free, and no aligned block before it is free.
  pub record IsFirstBlock (start : ℕ) : Type 0 where
    pub aligned : start % al_value a ≡ 0
    pub within : start + al_value a ≤ p.num_cces
    pub free : IsBlockFree p start (al_value a)
    pub first : NoneBelow start

  abbrev pub IsFull : Type 0
  IsFull =
      (s : ℕ) → s % al_value a ≡ 0 → s + al_value a ≤ p.num_cces → ¬ IsBlockFree p s (al_value a)

  abbrev pub AllocateCases : Option (CcePool × Option ℕ) → Type 0
  AllocateCases r =
      ((start : ℕ) × (r ≡ some (granted p start (al_value a), some start)) × IsFirstBlock start)
      ⊎ ((r ≡ some (p, none)) × IsFull)

  below_next :
      (start : ℕ)
      → start % al_value a ≡ 0
      → NoneBelow start
      → (¬ IsBlockFree p start (al_value a))
      → NoneBelow (start + al_value a)
  below_next start aligned below taken s h k = elim (Bool-cases (ltb s start)) [
    | inl early ↦ below s h (ground arith)
    | inr late ↦
        let same : s ≡ start = aligned_eq a start s aligned h (ground arith) k in
        subst (λ n. ¬ IsBlockFree p n (al_value a)) (sym same) taken
  ]

  allocate_from_cases :
      (start fuel : ℕ)
      → p.num_cces ≤ max_cces
      → start % al_value a ≡ 0
      → start ≤ p.num_cces
      → p.num_cces < start + fuel
      → NoneBelow start
      → AllocateCases (allocate_from p (al_value a) start fuel)
  unfolding allocate_from
  allocate_from_cases start zero fits aligned l f below = absurd (omega arith)
  allocate_from_cases start (suc fuel) fits aligned l f below =
      elim (Bool-cases (leb (start + al_value a) p.num_cces)) [
        | inr past ↦ rw (past, allocate_from) (inr (refl, λ s h k. below s h (ground arith)))
        | inl within ↦ elim (block_free_cases p start (al_value a) (ground arith)) [
          | inl (e, free) ↦
              let taken = set_block_lem p start (al_value a) (ground arith) in
              inl (
                start,
                rw (within, allocate_from) (rw (e, allocate_from) (rw (taken, allocate_from))),
                record { aligned = aligned; within = ground arith; free = free; first = below },
              )
          | inr (e, taken) ↦
              let pos = al_value-pos a in
              rw (within, allocate_from)
                (rw (e, allocate_from)
                  (allocate_from_cases (start + al_value a) fuel fits
                    (add-mod_right start (al_value a) ∙ aligned) (ground arith) (ground arith)
                    (below_next start aligned below taken)))
        ]
      ]

  -- On a pool that fits its bitset `allocate` returns. It takes the first free aligned block within
  -- the pool, writes no other element, and adds the block to the counter; or no aligned block within
  -- the pool is free, and it changes nothing.
  pub allocate_first : p.num_cces ≤ max_cces → AllocateCases (allocate p a)
  unfolding allocate
  allocate_first fits =
      allocate_from_cases 0 (p.num_cces + 1) fits (zero-mod (al_value a)) (omega arith)
        (omega arith) (λ s h k. elim k [ ])
