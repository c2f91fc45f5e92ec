-- ===== src/Lava/UnitDomain.antt =====
-- lava/include/lava/unit.hpp: the domain of one value, which stands for every integer. Its backward operations
-- are those of `domain_mixin`, lava/include/lava/support/base.hpp, which only print a warning.
use lart.Common.{done, Run}
use lart.Lava.Tristate.{maybe_value}
use lart.Lava.Product.{Domain}

-- `empty_storage`.
pub data Unity : Type 0 where
  unit : Unity

-- The operands that a backward operation of `domain_mixin` leaves.
abbrev pub report : {V : Type 0} → V → V → Run (V × V)
report a b = done (a, b)

unfoldable pub unit_domain : (Op Cast : Type 0) → Domain Op Cast
unit_domain Op Cast = record {
  value = Unity;
  lift = λ x. done unit;
  any = done unit;
  any_between = λ x y. done unit;
  clone = λ v. done unit;
  binary = λ op a b. done unit;
  unary = λ op w a. done unit;
  backward = λ op r a b. report a b;
  backward_unary = λ op r a. done a;
  to_tristate = λ v. done maybe_value;
  assume = λ v c. done v;
}
