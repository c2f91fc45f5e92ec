-- ===== src/Lava/IntervalDomain.antt =====
-- lava/include/lava/interval.hpp: the values of the interval domain and its forward operations. A value is made by
-- a constructor that gives the path up on an empty interval.
use lart.Common.{ℕ, Bool, if◌then◌else◌, List, [], ◌∷◌, Run, done, cancelled, ◌>>=◌}
use lart.Common.Int.{ℤ, pos, ◌+ℤ◌}
use lart.Lava.Tristate.{Tristate}
use lart.Lava.Bound
use lart.Lava.Interval
use lart.Lava.Interval.{Interval, interval, is_bottom, of_tristate, bottom}
pub mod Values
pub mod Forward
mod Tests

-- `interval( sup::interval )`, also of two bounds.
unfoldable pub of_interval : Interval → Run Interval
of_interval i = if is_bottom i then cancelled else done i

-- `lift` of an integral value.
unfoldable pub lift : ℤ → Run Interval
unfolding of_interval
lift v = of_interval (interval v v)

-- The value that an answer of `__lart_choose( size )` selects.
unfoldable pub lower : ℕ → Interval → ℤ
unfolding ◌+ℤ◌
lower choice i = i.low +ℤ pos choice

unfoldable pub clone : Interval → Run Interval
unfolding of_interval
clone i = of_interval (interval i.low i.high)

-- The loop of `any` over a list of arguments.
unfoldable pub join_all : Interval → List ℤ → Interval
unfolding Interval.join
join_all res [] = res
join_all res (v ∷ vs) = join_all (Interval.join res (interval v v)) vs

unfoldable pub any_of : List ℤ → Run Interval
unfolding of_interval join_all
any_of args = of_interval (join_all bottom args)

unfoldable pub any_between : ℤ → ℤ → Run Interval
unfolding of_interval
any_between from to = of_interval (interval from to)

-- The binary operations that are not shifts.
pub data Operation : Type 0 where
  op_join op_meet op_add op_sub op_mul op_sdiv op_udiv op_srem op_urem : Operation
  op_eq op_ne op_ugt op_uge op_ult op_ule op_sgt op_sge op_slt op_sle : Operation
  op_and op_or op_xor : Operation

-- The casts, which ignore the width.
pub data Cast : Type 0 where
  op_sext op_trunc op_zext op_zfit : Cast

unfoldable pub cast : Cast → Interval → Run Interval
unfolding clone
cast op_sext i = clone i
cast op_trunc i = clone i
cast op_zext i = clone i
cast op_zfit i = clone i

module _ (limit : ℕ) where
  unfoldable pub any : Run Interval
  unfolding of_interval
  any = of_interval (interval (Bound.min limit) (Bound.max limit))

  -- The bitwise operations, as written: from plus infinity to minus infinity.
  abbrev pub backwards : Interval
  backwards = interval (Bound.max limit) (Bound.min limit)

  unfoldable pub apply : Operation → Interval → Interval → Run Interval
  unfolding of_interval of_tristate Interval.join Interval.meet Interval.add Interval.sub
      Interval.mul Interval.div Interval.rem Interval.eq Interval.ne Interval.gt Interval.ge
      Interval.lt Interval.le
  apply op_join a b = of_interval (Interval.join a b)
  apply op_meet a b = of_interval (Interval.meet a b)
  apply op_add a b = Interval.add limit a b >>= of_interval
  apply op_sub a b = Interval.sub limit a b >>= of_interval
  apply op_mul a b = of_interval (Interval.mul limit a b)
  apply op_sdiv a b = Interval.div limit a b >>= of_interval
  apply op_udiv a b = Interval.div limit a b >>= of_interval
  apply op_srem a b = Interval.rem limit a b >>= of_interval
  apply op_urem a b = Interval.rem limit a b >>= of_interval
  apply op_eq a b = done (of_tristate (Interval.eq a b))
  apply op_ne a b = done (of_tristate (Interval.ne a b))
  apply op_ugt a b = done (of_tristate (Interval.gt a b))
  apply op_uge a b = done (of_tristate (Interval.ge a b))
  apply op_ult a b = done (of_tristate (Interval.lt a b))
  apply op_ule a b = done (of_tristate (Interval.le a b))
  apply op_sgt a b = done (of_tristate (Interval.gt a b))
  apply op_sge a b = done (of_tristate (Interval.ge a b))
  apply op_slt a b = done (of_tristate (Interval.lt a b))
  apply op_sle a b = done (of_tristate (Interval.le a b))
  apply op_and a b = of_interval backwards
  apply op_or a b = of_interval backwards
  apply op_xor a b = of_interval backwards
