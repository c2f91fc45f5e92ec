-- ===== src/Lava/Interval/Meaning.antt =====
-- The integers that an interval of lava/include/lava/support/interval.hpp stands for: the least value
-- of the machine's range bounds nothing from below, and the greatest one nothing from above.
use lart.Common.{ℕ, ◌≡◌, ◌⊎◌, ◌≢◌}
use lart.Common.Int.{ℤ, ◌≤ℤ◌}
use lart.Lava.Bound.{min, max}
use lart.Lava.Bound.Range.{InRange}
use lart.Lava.Interval.{Interval}

module _ (limit : ℕ) where
  abbrev pub Above : ℤ → ℤ → Type 0
  Above low x = (low ≡ min limit) ⊎ (low ≤ℤ x)

  abbrev pub Below : ℤ → ℤ → Type 0
  Below high x = (high ≡ max limit) ⊎ (x ≤ℤ high)

  pub record Contains (i : Interval) (x : ℤ) : Type 0 where
    pub above : Above i.low x
    pub below : Below i.high x

  -- Both bounds are values of the machine's type.
  pub record IsMachine (i : Interval) : Type 0 where
    pub low_range : InRange limit i.low
    pub high_range : InRange limit i.high

  -- A lower bound may be minus infinity only, and an upper one plus infinity only.
  pub record IsProper (i : Interval) : Type 0 where
    pub machine : IsMachine i
    pub low_finite : i.low ≢ max limit
    pub high_finite : i.high ≢ min limit
