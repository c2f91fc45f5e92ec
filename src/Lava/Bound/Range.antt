-- ===== src/Lava/Bound/Range.antt =====
-- `sup::bound` of lava/include/lava/support/interval.hpp: no operation leaves the machine's range.
use lart.Common.{ℕ, Run, done, cancelled, undefined, arith}
use lart.Common.Int.{ℤ, ◌≤ℤ◌}
use lart.Lava.Bound.{max, min, add, minus_bound}

module _ (limit : ℕ) where
  -- A value of the underlying type.
  pub record InRange (v : ℤ) : Type 0 where
    pub above : min limit ≤ℤ v
    pub below : v ≤ℤ max limit

  abbrev pub AllDone : Run ℤ → (ℤ → Type 0) → Type 0
  AllDone (done v) P = P v
  AllDone cancelled P = Unit {0}
  AllDone undefined P = Unit {0}

  pub minus_bound-InRange : (v : ℤ) → InRange v → InRange (minus_bound limit v)
  unfolding minus_bound
  minus_bound-InRange v h = ground arith

  pub add-InRange : (v o : ℤ) → InRange v → InRange o → AllDone (add limit v o) InRange
  unfolding add
  add-InRange v o h k = ground arith
