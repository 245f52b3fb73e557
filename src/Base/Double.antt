-- ===== src/Base/Double.antt =====
-- `double` as far as the sources use it: a type of numbers with its operations, which a module takes
-- as a parameter. What a theorem needs of them is a hypothesis of that theorem.
use Prim.Native.Nat.{ℕ}
use mathlib.Core.Bool.{Bool}
use mathlib.Core.List.{List}
use cascade.Base.Tests.{if◌then◌else◌}

pub record Doubles : Type 1 where
  pub Double : Type 0
  pub of_nat : ℕ → Double
  pub add : Double → Double → Double
  pub sub : Double → Double → Double
  pub mul : Double → Double → Double
  pub div : Double → Double → Double
  -- `<`
  pub less : Double → Double → Bool
  -- `<=`
  pub leq : Double → Double → Bool
  -- `std::ostream << double`
  pub print : Double → List ℕ

module _ (D : Doubles) where
  -- `std::min`
  abbrev pub lesser : D.Double → D.Double → D.Double
  lesser a b = if D.less b a then b else a
