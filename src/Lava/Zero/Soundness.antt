-- ===== src/Lava/Zero/Soundness.antt =====
-- The operations of lava/include/lava/zero.hpp against those on machine words.
use native.Mathlib.Nat.{zero-mul, mul-zero, zero-mod, zero-div}
use lart.Common.{ℕ, ◌*◌, ◌%◌, ◌<◌, ◌≡◌, refl, Bool, true, false, Run, done, arith, not, ◌&&◌}
use lart.Lava.Zero.{
  sdiv, srem, is_nonzero, and_lut, or_lut, xor_lut, sgt_lut, sge_lut, Zero, zero, nonzero, BinaryOp,
  add, sub, mul, udiv, urem, shl, lshr, eq, ne, ugt, uge, ult, ule, apply, add_lut, mul_lut, div,
  shift_lut, eq_lut, ne_lut, ugt_lut, uge_lut,
}
use lart.Lava.Zero.Words.{Contains, Yields}
use lart.Lava.Zero.Tables.{
  add_lut_holds, ne_lut_holds, shift_lut_holds, div_holds, mul_lut_holds, eq_lut_holds,
  ugt_lut_holds, uge_lut_holds,
}
use lart.Lava.Zero.Results.{sum_lem, difference_lem, shl_lem, lshr_lem, equality_lem}

-- Where an operation on two abstract words yields a value, that value stands for what the machine's
-- unsigned operation yields on any two words of theirs: sums, differences, quotients, remainders,
-- shifts and the unsigned comparisons.
pub zero_apply_sound :
    (m : ℕ) (o : BinaryOp) (a b r : Zero) (x y z : ℕ)
    → x < m
    → y < m
    → Contains a x
    → Contains b y
    → Yields m o x y z
    → apply o a b ≡ done r
    → Contains r z
unfolding apply
zero_apply_sound m add a b r x y z lx ly hx hy e h =
    add_lut_holds a b x y z r hx hy (rw e (sum_lem m x y lx ly)) h
zero_apply_sound m sub a b r x y z lx ly hx hy e h =
    add_lut_holds a b x y z r hx hy (rw e (difference_lem m x y lx ly)) h
zero_apply_sound m udiv a b r x y z lx ly hx hy e h =
    div_holds a b x y z r hx hy (λ n. rw e (rw n (zero-div y))) h
zero_apply_sound m urem a b r x y z lx ly hx hy e h =
    div_holds a b x y z r hx hy (λ n. rw e (rw n (zero-mod y))) h
zero_apply_sound m shl a b r x y z lx ly hx hy e h =
    shift_lut_holds a b x y z r hx hy (rw e (shl_lem m x y lx ly)) h
zero_apply_sound m lshr a b r x y z lx ly hx hy e h =
    shift_lut_holds a b x y z r hx hy (rw e (lshr_lem x y)) h
zero_apply_sound m eq a b r x y z lx ly hx hy e h = eq_lut_holds a b x y z r hx hy e h
zero_apply_sound m ne a b r x y z lx ly hx hy e h =
    ne_lut_holds a b x y z r hx hy (rw e (equality_lem x y)) h
zero_apply_sound m ugt a b r x y z lx ly hx hy e h = ugt_lut_holds a b x y z r hx hy e h
zero_apply_sound m uge a b r x y z lx ly hx hy e h = uge_lut_holds a b x y z r hx hy e h
zero_apply_sound m ult a b r x y z lx ly hx hy e h = ugt_lut_holds b a y x z r hy hx e h
zero_apply_sound m ule a b r x y z lx ly hx hy e h = uge_lut_holds b a y x z r hy hx e h
zero_apply_sound m _ a b r x y z lx ly hx hy e h = absurd e

abbrev pub is_done : Run Zero → Bool
is_done (done r) = true
is_done _ = false

abbrev pub is_division : BinaryOp → Bool
is_division udiv = true
is_division sdiv = true
is_division urem = true
is_division srem = true
is_division _ = false

-- On values that stand for some word every operation yields a value, except a division or a remainder
-- by a value that is not known to differ from 0.
zero_apply_defined :
    (o : BinaryOp) (a b : Zero) (x y : ℕ)
    → Contains a x
    → Contains b y
    → is_done (apply o a b) ≡ not (is_division o && not (is_nonzero b))
unfolding apply add_lut div shift_lut and_lut or_lut xor_lut eq_lut ne_lut ugt_lut uge_lut sgt_lut
    sge_lut
zero_apply_defined o a b x y hx hy = ground arith

-- The table of products, which no operation reads, takes in every product of two words.
mul_lut_sound :
    (m : ℕ) (a b r : Zero) (x y : ℕ)
    → Contains a x
    → Contains b y
    → mul_lut a b ≡ done r
    → Contains r ((x * y) % m)
mul_lut_sound m a b r x y hx hy h =
    mul_lut_holds a b x y _ r hx hy (λ e. rw e (rw (zero-mul, zero-mod)))
      (λ e. rw e (rw (mul-zero, zero-mod))) h

-- As it is written, `op_mul` takes the product of 0 and a word that is not 0 for a word that is not 0.
pub op_mul_unsound :
    (m x y : ℕ)
    → Contains zero x
    → Contains nonzero y
    → (apply mul zero nonzero ≡ done nonzero) × ¬ Contains nonzero ((x * y) % m)
unfolding apply add_lut
op_mul_unsound m x y hx hy =
    let nothing : x ≡ 0 = ground arith in
    (refl, λ h. let k = (rw (nothing, zero-mul, zero-mod) at h) in ground arith)
