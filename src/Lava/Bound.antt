-- ===== src/Lava/Bound.antt =====
-- lava/include/lava/support/interval.hpp, `sup::bound`: a machine integer whose extreme values stand
-- for the infinities. The parameter `limit` is the largest value of the underlying type, and the least
-- one is below its negation by 1, so that a bound is a ℤ in that range.
use lart.Common.{
  ℕ, ◌+◌, Bool, true, false, ◌&&◌, ◌||◌, not, if◌then◌else◌, Run, done, cancelled, undefined,
}
use lart.Common.Int.{ℤ, pos, negsuc, ◌+ℤ◌, ◌-ℤ◌, ◌*ℤ◌, ◌/ℤ◌, ◌%ℤ◌, negate, ltb_ℤ, leb_ℤ, eq_ℤ}
pub mod Range
pub mod Saturation
mod Tests

-- `enum overflow`.
pub data Overflow : Type 0 where
  none plus minus : Overflow

module _ (limit : ℕ) where
  abbrev pub max : ℤ
  max = pos limit

  abbrev pub min : ℤ
  min = negsuc limit

  abbrev pub is_infinite : ℤ → Bool
  is_infinite v = eq_ℤ v max || eq_ℤ v min

  abbrev pub is_finite : ℤ → Bool
  is_finite v = not (is_infinite v)

  -- `operator-`, of one operand.
  unfoldable pub minus_bound : ℤ → ℤ
  unfolding negate
  minus_bound v = if eq_ℤ v min then max else if eq_ℤ v max then min else negate v

  -- The local `overflows` of `operator+=`.
  unfoldable pub add_overflows : ℤ → ℤ → Overflow
  unfolding ◌-ℤ◌
  add_overflows a b =
      if ltb_ℤ (pos 0) b && ltb_ℤ (pos 0) a
      then (if leb_ℤ (max -ℤ a) b then plus else none)
      else if ltb_ℤ b (pos 0) && ltb_ℤ a (pos 0)
      then (if leb_ℤ b (min -ℤ a) then minus else none)
      else none

  -- The value that is stored where an operation overflows, and where it does not.
  abbrev pub settle : Overflow → ℤ → ℤ
  settle none v = v
  settle plus v = max
  settle minus v = min

  unfoldable pub add : ℤ → ℤ → Run ℤ
  unfolding add_overflows ◌+ℤ◌
  add v o =
      if is_finite v && is_finite o
      then done (settle (add_overflows v o) (v +ℤ o))
      else if is_finite v && is_infinite o
      then done o
      else if is_infinite v && is_finite o
      then done v
      else if is_infinite o && not (eq_ℤ v o)
      then cancelled
      else done v

  unfoldable pub sub : ℤ → ℤ → Run ℤ
  unfolding add minus_bound
  sub v o = add v (minus_bound o)

  -- The local `overflows` of `operator*=`.
  unfoldable pub mul_overflows : ℤ → ℤ → Overflow
  unfolding negate ◌/ℤ◌
  mul_overflows a b =
      if ltb_ℤ a (pos 0) && (ltb_ℤ b (pos 0) && ltb_ℤ (max /ℤ negate b) (negate a))
      then plus
      else if ltb_ℤ a (pos 0) && (ltb_ℤ (pos 0) b && ltb_ℤ a (min /ℤ b))
      then minus
      else if ltb_ℤ (pos 0) a && (ltb_ℤ b (pos 0) && ltb_ℤ b (min /ℤ a))
      then minus
      else if ltb_ℤ (pos 0) a && (ltb_ℤ (pos 0) b && ltb_ℤ (max /ℤ b) a)
      then plus
      else none

  abbrev pub differ : Bool → Bool → Bool
  differ true y = not y
  differ false y = y

  unfoldable pub mul : ℤ → ℤ → ℤ
  unfolding ◌*ℤ◌
  mul v o =
      if eq_ℤ o (pos 0)
      then pos 0
      else if eq_ℤ v (pos 0)
      then v
      else if is_finite v && is_finite o
      then settle (mul_overflows v o) (v *ℤ o)
      else if differ (ltb_ℤ (pos 0) v) (ltb_ℤ (pos 0) o)
      then min
      else max

  -- A division by 0 of finite values is undefined.
  unfoldable pub div : ℤ → ℤ → Run ℤ
  unfolding minus_bound ◌/ℤ◌
  div v o =
      if is_finite v && is_finite o
      then (if eq_ℤ o (pos 0) then undefined else done (v /ℤ o))
      else if is_finite v && is_infinite o
      then done (pos 0)
      else if is_infinite v && is_finite o
      then done (if ltb_ℤ o (pos 0) then minus_bound v else v)
      else cancelled

  -- The test for 0 comes after the remainder is taken.
  unfoldable pub rem : ℤ → ℤ → Run ℤ
  unfolding ◌%ℤ◌
  rem v o =
      if is_finite v && is_finite o
      then (if eq_ℤ o (pos 0) then undefined else done (v %ℤ o))
      else if eq_ℤ o (pos 0)
      then cancelled
      else done v
