-- ===== src/Lava/Bound/Saturation.antt =====
-- `sup::bound` of lava/include/lava/support/interval.hpp computes on integers and saturates at the
-- infinities.
use native.Mathlib.Nat.{div-lt_iff_lt-mul}
use lart.Common.{ℕ, suc, zero, ◌*◌, ◌/◌, ◌<◌, ◌≡◌, true, if◌then◌else◌, ltb, done, arith}
use lart.Common.Int.{ℤ, pos, negsuc, ◌+ℤ◌, ◌*ℤ◌, leb_ℤ}
use lart.Lava.Bound.{max, min, is_finite, add, mul, mul_overflows, none, minus}
use lart.Lava.Bound.Range.{InRange}

-- The guard of `operator*=` tests a quotient in place of the product.
div-lt_to : (m a b : ℕ) → m / suc b < a → m < a * suc b
div-lt_to m a b = (div-lt_iff_lt-mul (omega arith)).0

div-lt_from : (m a b : ℕ) → m < a * suc b → m / suc b < a
div-lt_from m a b = (div-lt_iff_lt-mul (omega arith)).1

module _ (limit : ℕ) where
  abbrev pub clamp : ℤ → ℤ
  clamp v = if leb_ℤ (max limit) v then max limit else if leb_ℤ v (min limit) then min limit else v

  -- The sum of two finite bounds is the sum of the integers, saturated at the infinities: it is never
  -- cancelled and never overflows.
  pub add_saturates :
      (v o : ℤ)
      → InRange limit v
      → InRange limit o
      → is_finite limit v ≡ true
      → is_finite limit o ≡ true
      → add limit v o ≡ done (clamp (v +ℤ o))
  unfolding add
  add_saturates v o hv ho fv fo = ground arith

  mul_pos_pos :
      (a b : ℕ)
      → suc a < limit
      → suc b < limit
      → mul limit (pos (suc a)) (pos (suc b)) ≡ clamp (pos (suc a * suc b))
  unfolding mul mul_overflows
  mul_pos_pos a b ha hb = ground (arith, div-lt_to limit (suc a) b, div-lt_from limit (suc a) b)

  mul_neg_neg :
      (a b : ℕ)
      → a < limit
      → b < limit
      → mul limit (negsuc a) (negsuc b) ≡ clamp (pos (suc a * suc b))
  unfolding mul mul_overflows
  mul_neg_neg a b ha hb = ground (arith, div-lt_to limit (suc a) b, div-lt_from limit (suc a) b)

  mul_neg_pos :
      (a b : ℕ)
      → a < limit
      → suc b < limit
      → mul limit (negsuc a) (pos (suc b)) ≡ clamp (negsuc a *ℤ pos (suc b))
  unfolding mul mul_overflows
  mul_neg_pos a b ha hb =
      ground (arith, div-lt_to (suc limit) (suc a) b, div-lt_from (suc limit) (suc a) b)

  overflows_pos_neg :
      (a b : ℕ)
      → mul_overflows limit (pos (suc a)) (negsuc b)
        ≡ (if ltb (suc limit) (suc b * suc a) then minus else none)
  unfolding mul_overflows
  overflows_pos_neg a b =
      ground (arith, div-lt_to (suc limit) (suc b) a, div-lt_from (suc limit) (suc b) a)

  mul_pos_neg :
      (a b : ℕ)
      → suc a < limit
      → b < limit
      → mul limit (pos (suc a)) (negsuc b) ≡ clamp (pos (suc a) *ℤ negsuc b)
  unfolding mul
  mul_pos_neg a b ha hb = ground (arith, overflows_pos_neg a b)

  -- The product of two finite bounds is the product of the integers, saturated at the infinities.
  pub mul_saturates :
      (v o : ℤ)
      → InRange limit v
      → InRange limit o
      → is_finite limit v ≡ true
      → is_finite limit o ≡ true
      → mul limit v o ≡ clamp (v *ℤ o)
  unfolding mul ◌*ℤ◌
  mul_saturates (pos zero) (pos b) hv ho fv fo = ground arith
  mul_saturates (pos zero) (negsuc b) hv ho fv fo = ground arith
  mul_saturates (pos (suc a)) (pos zero) hv ho fv fo = ground arith
  mul_saturates (negsuc a) (pos zero) hv ho fv fo = ground arith
  mul_saturates (pos (suc a)) (pos (suc b)) hv ho fv fo =
      mul_pos_pos a b (ground arith) (ground arith)
  mul_saturates (pos (suc a)) (negsuc b) hv ho fv fo = mul_pos_neg a b (ground arith) (ground arith)
  mul_saturates (negsuc a) (pos (suc b)) hv ho fv fo = mul_neg_pos a b (ground arith) (ground arith)
  mul_saturates (negsuc a) (negsuc b) hv ho fv fo = mul_neg_neg a b (ground arith) (ground arith)
