-- ===== src/Lava/IntervalDomain/Tests.antt =====
-- Values and operations of the interval domain of lava/include/lava/interval.hpp.
use lart.Common.{◌≡◌, inr, refl, arith, true, [], ◌∷◌, Memᴰ, done}
use lart.Common.Int.{ℤ, pos, negsuc, ltb_ℤ}
use lart.Lava.Interval.{Interval, interval, includes_bound}
use lart.Lava.Interval.Meaning.{Contains, IsProper}
use lart.Lava.IntervalDomain.{any_of, apply, op_slt}
use lart.Lava.IntervalDomain.Values.{any_of_holds}
use lart.Lava.IntervalDomain.Forward.{compares_sound}

abbrev small : Interval
small = interval (pos 1) (pos 5)

abbrev shifted : Interval
shifted = interval (pos 3) (pos 9)

any_of_holds_example :
    (r : Interval) × (any_of (pos 3 ∷ negsuc 1 ∷ []) ≡ done r)
    × ((w : ℤ) → Memᴰ w (pos 3 ∷ negsuc 1 ∷ []) → includes_bound r w ≡ true)
    × Memᴰ r.low (pos 3 ∷ negsuc 1 ∷ [])
    × Memᴰ r.high (pos 3 ∷ negsuc 1 ∷ [])
any_of_holds_example = any_of_holds (pos 3) (negsuc 1 ∷ [])

small-IsProper : IsProper 127 small
small-IsProper = ground arith

shifted-IsProper : IsProper 127 shifted
shifted-IsProper = ground arith

small-Contains : Contains 127 small (pos 2)
small-Contains = record { above = inr (omega arith); below = inr (omega arith) }

shifted-Contains : Contains 127 shifted (pos 8)
shifted-Contains = record { above = inr (omega arith); below = inr (omega arith) }

compares_sound_example :
    (r : Interval) × (apply 127 op_slt small shifted ≡ done r) × (includes_bound r (pos 1) ≡ true)
compares_sound_example =
    compares_sound 127 op_slt ltb_ℤ small shifted (pos 2) (pos 8) refl small-IsProper
      shifted-IsProper small-Contains shifted-Contains
