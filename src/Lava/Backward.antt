-- ===== src/Lava/Backward.antt =====
-- lava/include/lava/interval.hpp: how the interval domain narrows a value to a branch, and the operands of a
-- comparison to its result. The answer of `__lart_choose` is the argument `choice`.
use lart.Common.{
  ltb, ◌%◌, ◌-◌, ◌^◌, ℕ, ◌+◌, ◌*◌, Bool, ◌&&◌, if◌then◌else◌, Run, done, cancelled, ◌>>=◌,
}
use lart.Common.Int.{negsuc, ℤ, pos, ◌+ℤ◌, ◌-ℤ◌, ltb_ℤ, leb_ℤ, eq_ℤ}
use lart.Lava.Bound
pub mod Separation
pub mod Operands
pub mod Addends
pub mod Equations
pub mod Branches
pub mod Losses
mod Tests
use lart.Lava.Interval.{Interval, interval, is_bottom, meet, meet_low, meet_high, of_bool}

unfoldable pub intersect : Interval → Interval → Run Interval
intersect i other = let m = meet i other in if is_bottom m then cancelled else done m

unfoldable pub assume : Interval → Bool → Run Interval
unfolding intersect
assume i constraint = intersect i (of_bool constraint)

unfoldable pub validity_check : Interval → Run Interval
validity_check i = if is_bottom i then cancelled else done i

-- `increment` and `decrement` act on the machine integer, infinite or not.
unfoldable pub exclude : Interval → ℤ → Run Interval
unfolding validity_check
exclude i b = validity_check (
    interval (if eq_ℤ i.low b then i.low +ℤ pos 1 else i.low)
      (if eq_ℤ i.high b then i.high -ℤ pos 1 else i.high))

abbrev pub choose_bound : ℤ
choose_bound = pos 200

-- A number below 2 ^ 32 as an `int`.
abbrev pub of_word : ℕ → ℤ
of_word n = if ltb n (2 ^ 31) then pos n else negsuc (2 ^ 32 - 1 - n)

-- The conversion to `int`.
unfoldable pub as_int : ℤ → ℤ
as_int (pos n) = of_word (n % 2 ^ 32)
as_int (negsuc n) = of_word (2 ^ 32 - 1 - n % 2 ^ 32)

-- `__lart_choose` of a number of answers: any of them, counted from 0, on a path of its own. There is no path
-- for an answer that is not below the number.
unfoldable pub choose : ℤ → ℕ → Run ℕ
choose range answer = if ltb_ℤ (pos answer) range then done answer else cancelled

module _ (limit : ℕ) where
  -- `bound_type( size )`: the number of integers in an interval, as a signed number of the bound's width.
  unfoldable pub signed_size : Interval → ℤ
  signed_size i =
      let size = (i.high -ℤ i.low) +ℤ pos 1 in
      if ltb_ℤ (pos limit) size then size -ℤ pos (2 * (limit + 1)) else size

  -- The number of answers that `separate` asks for: `strict ? int( size + 1 ) : int( size )`.
  unfoldable pub answers : Bool → Interval → ℤ
  unfolding signed_size as_int
  answers strict i = as_int (if strict then signed_size i +ℤ pos 1 else signed_size i)

  -- The end of `bgt_`, where the operands may still overlap.
  unfoldable pub separate : ℕ → Bool → Interval → Interval → Run (Interval × Interval)
  unfolding intersect choose answers
  separate answer strict a b = do
    choice ← choose (answers strict (meet a b)) answer
    delim ← Bound.add limit (pos choice) (meet a b).low
    a' ← intersect a (interval delim a.high)
    last ← if strict then Bound.sub limit delim (pos 1) else done delim
    b' ← intersect b (interval b.low last)
    done (a', b')

  unfoldable pub bgt_tail : ℕ → Bool → Interval → Interval → Run (Interval × Interval)
  unfolding separate signed_size
  bgt_tail choice strict a b =
      if is_bottom (meet a b)
      then done (a, b)
      else if ltb_ℤ choose_bound (signed_size (meet a b))
      then done (a, b)
      else separate choice strict a b

  unfoldable pub bgt : ℕ → Bool → Interval → Interval → Run (Interval × Interval)
  unfolding exclude bgt_tail meet_low meet_high
  bgt choice strict a b = do
    a' ← if strict then exclude (meet_low a b.low) b.low else done (meet_low a b.low)
    b' ← if strict then exclude (meet_high b a'.high) a'.high else done (meet_high b a'.high)
    bgt_tail choice strict a' b'

  unfoldable pub beq_impl : ℕ → Interval → Interval → Run (Interval × Interval)
  unfolding intersect
  beq_impl choice a b = do
    a1 ← intersect a b
    b1 ← intersect b a1
    size ← Bound.sub limit a1.high a1.low
    if ltb_ℤ (pos 0) size && leb_ℤ size choose_bound
        then (do
          x ← Bound.add limit a1.low (pos choice)
          a2 ← intersect a1 (interval x x)
          y ← Bound.add limit b1.low (pos choice)
          b2 ← intersect b1 (interval y y)
          done (a2, b2))
        else done (a1, b1)
