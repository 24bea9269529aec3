-- ===== src/Base/Thousandths.antt =====
-- A stand-in for `double`, for tests: numbers in steps of a thousandth, rounded down.
use nr5g_basic_scheduler.Base.{ℕ, zero, suc, ◌+◌, ◌-◌, ◌*◌, ◌/◌, min, ltb, if◌then◌else◌}
use nr5g_basic_scheduler.Base.Floats.{Floats}

-- `a` to the power of `n`.
abbrev power : (a n : ℕ) → ℕ
power a zero = 1000
power a (suc n) = power a n * a / 1000

-- The rounds in which `n` can be halved.
abbrev halvings : (fuel n : ℕ) → ℕ
halvings zero n = 0
halvings (suc fuel) n = let rest = halvings fuel (n / 2) in if ltb n 2 then 0 else suc rest

abbrev pub thousandths : Floats
thousandths = record {
  D = ℕ;
  ratio = λ a b. a * 1000 / b;
  add = λ a b. a + b;
  sub = λ a b. a - b;
  mul = λ a b. a * b / 1000;
  div = λ a b. a * 1000 / b;
  gtb = λ a b. ltb b a;
  to_u16 = λ a. min (a / 1000) 65535;
  pow = λ a b. power a (b / 1000);
  log2 = λ a. halvings 64 (a / 1000) * 1000;
}
