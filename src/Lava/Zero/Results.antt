-- ===== src/Lava/Zero/Results.antt =====
-- When the machine operations that lava/include/lava/zero.hpp abstracts yield 0.
use native.Mathlib.Nat.{
  mod-eq_of_lt, mul-add-mod_self_left, zero-mul, zero-mod, mul-one, zero-div, div-one,
}
use lart.Common.{ℕ, ◌+◌, ◌-◌, ◌*◌, ◌/◌, ◌%◌, ◌^◌, ◌<◌, ◌≡◌, ◌≢◌, arith, not, ◌==◌, sym, ap, ◌∙◌}
use lart.Lava.Zero.Words.{of_bool}
use lart.Lava.Zero.Tables.{Sumlike, Shiftlike}

module _ (m x y : ℕ) (lx : x < m) (ly : y < m) where
  sum_left : x ≡ 0 → (x + y) % m ≡ y
  sum_left e = let plain : x + y ≡ y = omega arith in rw plain (mod-eq_of_lt ly)

  sum_right : y ≡ 0 → (x + y) % m ≡ x
  sum_right e = let plain : x + y ≡ x = omega arith in rw plain (mod-eq_of_lt lx)

  pub sum_lem : Sumlike x y ((x + y) % m)
  sum_lem = record {
    both = λ e f. omega (arith, sum_left e);
    right = λ e f g. f (omega (arith, sum_left e));
    left = λ e f g. e (omega (arith, sum_right f));
  }

  difference_left : x ≡ 0 → y ≢ 0 → (x + m - y) % m ≡ m - y
  difference_left e f =
      let plain : x + m - y ≡ m - y = omega arith in rw plain (mod-eq_of_lt (omega arith))

  difference_right : y ≡ 0 → (x + m - y) % m ≡ x
  difference_right e =
      let plain : x + m - y ≡ m * 1 + x = omega arith in
      rw (plain, mul-add-mod_self_left m 1 x) (mod-eq_of_lt lx)

  pub difference_lem : Sumlike x y ((x + m - y) % m)
  difference_lem = record {
    both = λ e f. omega (arith, difference_right f);
    right = λ e f g. omega (arith, difference_left e f);
    left = λ e f g. e (omega (arith, difference_right f));
  }

  pub shl_lem : Shiftlike x y ((x * 2 ^ y) % m)
  shl_lem = record {
    nothing = λ e. rw e (rw (zero-mul, zero-mod));
    unmoved = λ e f g. e (
        sym (mod-eq_of_lt lx)
        ∙ ap (λ k. k % m) (sym (mul-one x))
        ∙ ap (λ k. (x * 2 ^ k) % m) (sym f)
        ∙ g);
  }

pub lshr_lem : (x y : ℕ) → Shiftlike x y (x / 2 ^ y)
lshr_lem x y = record {
  nothing = λ e. rw e (zero-div (2 ^ y));
  unmoved = λ e f g. e (sym (div-one x) ∙ ap (λ k. x / 2 ^ k) (sym f) ∙ g);
}

pub equality_lem : (x y : ℕ) → Sumlike x y (of_bool (not (x == y)))
equality_lem x y = record {
  both = λ e f. ground arith;
  right = λ e f. ground arith;
  left = λ e f. ground arith;
}
