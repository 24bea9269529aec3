-- ===== src/Cce/Examples.antt =====
-- A pool of 16 elements of which two are taken.
use nr5g_basic_scheduler.Base.{ℕ, ◌≡◌, refl, true, ◌||◌, ◌==◌, Option, some, none, arith}
use nr5g_basic_scheduler.Cce.Blocks.{AllocateCases, allocate_first}
use nr5g_basic_scheduler.Cce.Counting.{allocate-IsCounted, deallocate-allocate_block}
use nr5g_basic_scheduler.Cce.{
  al4, al8, al16, CcePool, allocate, deallocate, can_allocate, count_used, IsCounted,
}

abbrev pool : CcePool
pool = record { num_cces = 16; allocated_count = 2; used = λ i. i == 1 || i == 6 }

pool-IsCounted : IsCounted pool
unfolding count_used
pool-IsCounted = record { fits = omega arith; rest_free = λ i h. ground arith; counted = refl }

-- The pool that a call returns.
abbrev pool_of : Option (CcePool × Option ℕ) → CcePool
pool_of none = pool
pool_of (some (p, start)) = p

took : allocate pool al4 ≡ some (pool_of (allocate pool al4), some 8)
unfolding allocate
took = refl

-- Fourteen elements are free, but the pool has no free block of sixteen, and of eight only one.
fragmented : (allocate pool al16 ≡ some (pool, none)) × (can_allocate pool al8 ≡ true)
unfolding allocate can_allocate
fragmented = (refl, refl)

-- A pool larger than the bitset ends the program once the first 128 elements are taken.
fault : allocate (record { num_cces = 144; allocated_count = 128; used = λ i. true }) al16 ≡ none
unfolding allocate
fault = refl

allocate_first_example : AllocateCases pool al4 (allocate pool al4)
allocate_first_example = allocate_first pool al4 (omega arith)

allocate-IsCounted_example : IsCounted (pool_of (allocate pool al4))
allocate-IsCounted_example = allocate-IsCounted pool al4 pool-IsCounted took

deallocate-allocate_block_example : deallocate (pool_of (allocate pool al4)) 8 al4 ≡ some pool
deallocate-allocate_block_example = deallocate-allocate_block pool al4 8 pool-IsCounted took

abbrev busy_pool : CcePool
busy_pool = record { num_cces = 4; allocated_count = 2; used = λ i. i == 1 || i == 2 }

busy_pool-IsCounted : IsCounted busy_pool
unfolding count_used
busy_pool-IsCounted = record { fits = omega arith; rest_free = λ i h. ground arith; counted = refl }
