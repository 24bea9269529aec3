-- ===== src/Base/Floats.antt =====
-- The operations on `double` that the source uses, which the language leaves to IEEE 754 hardware: a
-- constant or a number as a fraction, sums, differences, products, quotients, `>`, and the cast to
-- `uint16_t`, with `std::pow` and `std::log2`.
use Prim.Native.Nat.{ℕ}
use mathlib.Core.Bool.{Bool}
use nr5g_basic_scheduler.Base.Tests.{if◌then◌else◌}

pub record Floats : Type 1 where
  pub D : Type 0
  pub ratio : ℕ → ℕ → D
  pub add : D → D → D
  pub sub : D → D → D
  pub mul : D → D → D
  pub div : D → D → D
  pub gtb : D → D → Bool
  pub to_u16 : D → ℕ
  pub pow : D → D → D
  pub log2 : D → D

abbrev pub number : (F : Floats) → ℕ → F.D
number F n = F.ratio n 1

-- `std::max` and `std::min`, which give the first argument where the two are equal.
unfoldable pub larger : (F : Floats) → F.D → F.D → F.D
larger F a b = if F.gtb b a then b else a

unfoldable pub smaller : (F : Floats) → F.D → F.D → F.D
smaller F a b = if F.gtb a b then b else a
