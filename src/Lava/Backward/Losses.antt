-- ===== src/Lava/Backward/Losses.antt =====
-- Where the backward operations of lava/include/lava/interval.hpp lose integers.
use lart.Common.{◌≡◌, arith, true, false, if◌then◌else◌, done, cancelled}
use lart.Common.Int.{pos}
use lart.Lava.Interval.{Interval, interval, is_bottom, meet, of_bool, includes_bound}
use lart.Lava.Backward.{intersect, assume}

-- Assuming that a value is true keeps 1 alone, and none of the other integers that `to_tristate` calls true; it
-- gives the path up if the value does not hold 1. Assuming that it is false keeps 0 alone.
pub assume_one :
    (i : Interval)
    → is_bottom i ≡ false
    → (assume i true
        ≡ (if includes_bound i (pos 1) then done (interval (pos 1) (pos 1)) else cancelled))
      × (assume i false
          ≡ (if includes_bound i (pos 0) then done (interval (pos 0) (pos 0)) else cancelled))
unfolding assume intersect meet of_bool
assume_one i h = (ground (arith, h), ground (arith, h))
