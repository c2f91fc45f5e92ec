-- ===== src/Lava/Zero/Tables.antt =====
-- What each table of lava/include/lava/zero.hpp takes in, by which operands make a result 0.
use lart.Common.{ℕ, ◌≡◌, ◌≢◌, done, arith, ◌==◌, ltb, leb}
use lart.Lava.Zero.{Zero, add_lut, mul_lut, div, shift_lut, eq_lut, ne_lut, ugt_lut, uge_lut}
use lart.Lava.Zero.Words.{Contains, of_bool}

-- Which of the operands' values decide whether a result is 0. For the tables of addition and of `!=`:
pub record Sumlike (x y z : ℕ) : Type 0 where
  pub both : x ≡ 0 → y ≡ 0 → z ≡ 0
  pub right : x ≡ 0 → y ≢ 0 → z ≢ 0
  pub left : x ≢ 0 → y ≡ 0 → z ≢ 0

pub record Shiftlike (x y z : ℕ) : Type 0 where
  pub nothing : x ≡ 0 → z ≡ 0
  pub unmoved : x ≢ 0 → y ≡ 0 → z ≢ 0

module _ (a b : Zero) (x y z : ℕ) (r : Zero) (hx : Contains a x) (hy : Contains b y) where
  pub add_lut_holds : Sumlike x y z → add_lut a b ≡ done r → Contains r z
  unfolding add_lut
  add_lut_holds f h = ground arith

  pub ne_lut_holds : Sumlike x y z → ne_lut a b ≡ done r → Contains r z
  unfolding ne_lut
  ne_lut_holds f h = ground arith

  pub shift_lut_holds : Shiftlike x y z → shift_lut a b ≡ done r → Contains r z
  unfolding shift_lut
  shift_lut_holds f h = ground arith

  pub div_holds : (x ≡ 0 → z ≡ 0) → div a b ≡ done r → Contains r z
  unfolding div
  div_holds f h = ground arith

  pub mul_lut_holds : (x ≡ 0 → z ≡ 0) → (y ≡ 0 → z ≡ 0) → mul_lut a b ≡ done r → Contains r z
  unfolding mul_lut
  mul_lut_holds f g h = ground arith

  pub eq_lut_holds : z ≡ of_bool (x == y) → eq_lut a b ≡ done r → Contains r z
  unfolding eq_lut
  eq_lut_holds e h = ground arith

module _ (a b : Zero) (x y z : ℕ) (r : Zero) (hx : Contains a x) (hy : Contains b y) where
  pub ugt_lut_holds : z ≡ of_bool (ltb y x) → ugt_lut a b ≡ done r → Contains r z
  unfolding ugt_lut
  ugt_lut_holds e h = ground arith

  pub uge_lut_holds : z ≡ of_bool (leb y x) → uge_lut a b ≡ done r → Contains r z
  unfolding uge_lut
  uge_lut_holds e h = ground arith
