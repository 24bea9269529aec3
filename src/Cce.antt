-- ===== src/Cce.antt =====
-- `class CcePool` of nr_scheduler/include/core/cell_context.hpp, with `AggregationLevel` of
-- nr_types.hpp. The bitset is a function to bits. `none` is a call that does not return, for a bit
-- past the bitset's 128: the exception ends the program, since the methods are `noexcept`.
pub mod Blocks
pub mod Counting
mod Examples
use nr5g_basic_scheduler.Base.{
  ℕ, zero, suc, ◌+◌, ◌-◌, ◌%◌, ◌≤◌, ◌≡◌, Bool, true, false, ◌&&◌, ltb, leb, ◌==◌, if◌then◌else◌,
  Option, none, some, ◌>>=◌,
}

pub data AggregationLevel : Type 0 where
  al1 al2 al4 al8 al16 : AggregationLevel

-- The cast to a byte.
unfoldable pub al_value : AggregationLevel → ℕ
al_value al1 = 1
al_value al2 = 2
al_value al4 = 4
al_value al8 = 8
al_value al16 = 16

abbrev pub max_cces : ℕ
max_cces = 128

pub record CcePool : Type 0 where
  pub num_cces : ℕ
  pub allocated_count : ℕ
  pub used : ℕ → Bool

-- The constructor, which resets.
unfoldable pub empty_pool : ℕ → CcePool
empty_pool n = record { num_cces = n; allocated_count = 0; used = λ i. false }

unfoldable pub reset : CcePool → CcePool
reset p = record p { allocated_count = 0; used = λ i. false }

unfoldable pub test_cce : CcePool → ℕ → Option Bool
test_cce p i = if ltb i max_cces then some (p.used i) else none

unfoldable pub put_cce : Bool → CcePool → ℕ → Option CcePool
put_cce v p i =
    if ltb i max_cces then some (record p { used = λ j. if j == i then v else p.used j }) else none

-- The loop that looks for a used element among the next `rounds`.
unfoldable pub block_free : CcePool → (i rounds : ℕ) → Option Bool
unfolding test_cce
block_free p i zero = some true
block_free p i (suc rounds) = elim (test_cce p i) [
  | none ↦ none
  | some taken ↦ elim taken [ true ↦ some false | false ↦ block_free p (i + 1) rounds ]
]

unfoldable pub set_block : CcePool → (i rounds : ℕ) → Option CcePool
unfolding put_cce
set_block p i zero = some p
set_block p i (suc rounds) = elim (put_cce true p i) [
  | none ↦ none
  | some p' ↦ set_block p' (i + 1) rounds
]

-- The search over the aligned starts, on fuel for the starts that are left. The byte that counts
-- them never wraps, since a start goes on only while its block ends by `num_cces`.
unfoldable pub allocate_from : CcePool → (al start fuel : ℕ) → Option (CcePool × Option ℕ)
unfolding block_free set_block
allocate_from p al start zero = none
allocate_from p al start (suc fuel) = elim (leb (start + al) p.num_cces) [
  | false ↦ some (p, none)
  | true ↦ elim (block_free p start al) [
    | none ↦ none
    | some available ↦ elim available [
      | false ↦ allocate_from p al (start + al) fuel
      | true ↦ do
        p' ← set_block p start al
        some (record p' { allocated_count = (p'.allocated_count + al) % 256 }, some start)
    ]
  ]
]

unfoldable pub allocate : CcePool → AggregationLevel → Option (CcePool × Option ℕ)
unfolding allocate_from al_value
allocate p al = allocate_from p (al_value al) 0 (p.num_cces + 1)

-- The loop of `deallocate`, from element `i` on.
unfoldable pub clear_from : CcePool → (i rounds : ℕ) → Option CcePool
unfolding test_cce put_cce
clear_from p i zero = some p
clear_from p i (suc rounds) = elim (ltb i p.num_cces) [
  | false ↦ some p
  | true ↦ elim (test_cce p i) [
    | none ↦ none
    | some taken ↦ elim taken [
      | false ↦ clear_from p (i + 1) rounds
      | true ↦ elim (put_cce false p i) [
        | none ↦ none
        | some p' ↦
            clear_from (record p' { allocated_count = (p'.allocated_count + 255) % 256 }) (i + 1)
              rounds
      ]
    ]
  ]
]

unfoldable pub deallocate : CcePool → ℕ → AggregationLevel → Option CcePool
unfolding clear_from al_value
deallocate p start_cce al = clear_from p start_cce (al_value al)

unfoldable pub available : CcePool → ℕ
available p = (p.num_cces + 256 - p.allocated_count) % 256

unfoldable pub can_allocate : CcePool → AggregationLevel → Bool
unfolding available al_value
can_allocate p al = leb (al_value al) (available p)

-- The number of used elements below a bound.
unfoldable pub count_used : (ℕ → Bool) → ℕ → ℕ
count_used used zero = 0
count_used used (suc n) = (if used n then 1 else 0) + count_used used n

-- The pool fits its bitset, no element past the pool is used, and the counter counts.
pub record IsCounted (p : CcePool) : Type 0 where
  pub fits : p.num_cces ≤ max_cces
  pub rest_free : (i : ℕ) → p.num_cces ≤ i → p.used i ≡ false
  pub counted : p.allocated_count ≡ count_used p.used p.num_cces
