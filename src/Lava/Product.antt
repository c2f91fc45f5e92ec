-- ===== src/Lava/Product.antt =====
-- lava/include/lava/support/product.hpp: two domains side by side. A domain is what the combinator calls
-- of it; an operation changes an operand in place, or yields a value. The names of
-- the operations are given.
use lart.Common.{ℕ, Bool, Run, done, undefined, ◌>>=◌}
use lart.Common.Int.{ℤ}
use lart.Lava.Tristate.{Tristate}

pub record Domain (Op Cast : Type 0) : Type 1 where
  pub value : Type 0
  pub lift : ℤ → Run value
  pub any : Run value
  pub any_between : ℤ → ℤ → Run value
  pub clone : value → Run value
  pub binary : Op → value → value → Run value
  pub unary : Cast → ℕ → value → Run value
  pub backward : Op → value → value → value → Run (value × value)
  pub backward_unary : Cast → value → value → Run value
  pub to_tristate : value → Run Tristate
  pub assume : value → Bool → Run value

pub data Strategy : Type 0 where
  to_tristate_first to_tristate_second to_tristate_disabled : Strategy

module _ {Op Cast : Type 0} (A B : Domain Op Cast) where
  abbrev pub Pair : Type 0
  Pair = A.value × B.value

  abbrev pub both : Run A.value → Run B.value → Run Pair
  both m n = m >>= λ a. n >>= λ b. done (a, b)

  unfoldable pub to_tristate : Strategy → Pair → Run Tristate
  to_tristate to_tristate_first v = A.to_tristate v.0
  to_tristate to_tristate_second v = B.to_tristate v.1
  to_tristate to_tristate_disabled v = undefined

  unfoldable pub bin : Op → Pair → Pair → Run Pair
  bin op a b = both (A.binary op a.0 b.0) (B.binary op a.1 b.1)

  -- The operands that a backward operation leaves.
  unfoldable pub bin_bop : Op → Pair → Pair → Pair → Run (Pair × Pair)
  bin_bop op r a b = A.backward op r.0 a.0 b.0 >>= λ p.
      B.backward op r.1 a.1 b.1 >>= λ q. done ((p.0, q.0), (p.1, q.1))

  unfoldable pub un : Cast → ℕ → Pair → Run Pair
  un op w a = both (A.unary op w a.0) (B.unary op w a.1)

  unfoldable pub un_bop : Cast → Pair → Pair → Run Pair
  un_bop op r a = both (A.backward_unary op r.0 a.0) (B.backward_unary op r.1 a.1)

  unfoldable pub assume : Pair → Bool → Run Pair
  assume a c = both (A.assume a.0 c) (B.assume a.1 c)

  -- The product as a domain.
  unfoldable pub product : Strategy → Domain Op Cast
  unfolding to_tristate bin bin_bop un un_bop assume
  product strategy = record {
    value = Pair;
    lift = λ x. both (A.lift x) (B.lift x);
    any = both A.any B.any;
    any_between = λ x y. both (A.any_between x y) (B.any_between x y);
    clone = λ v. both (A.clone v.0) (B.clone v.1);
    binary = bin;
    unary = un;
    backward = bin_bop;
    backward_unary = un_bop;
    to_tristate = to_tristate strategy;
    assume = assume;
  }
