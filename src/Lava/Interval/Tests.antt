-- ===== src/Lava/Interval/Tests.antt =====
-- Runs of `sup::interval`, lava/include/lava/support/interval.hpp, over eight bits, and its theorems there.
use lart.Common.{◌≡◌, refl, inl, inr, not, done, cancelled, arith}
use lart.Common.Int.{pos, negsuc, ◌+ℤ◌, ◌*ℤ◌, leb_ℤ, ltb_ℤ, eq_ℤ}
use lart.Lava.Tristate.Meaning.{Denotes}
use lart.Lava.Bound
use lart.Lava.Interval.{Interval, interval, add, mul, div, eq, ne, lt, gt, le, ge}
use lart.Lava.Interval.Meaning.{Contains, IsMachine, IsProper}
use lart.Lava.Interval.Compare.{comparisons_sound}
use lart.Lava.Interval.Sums.{add_sound}
use lart.Lava.Interval.Products.{mul_sound}

-- From -4 up to 6, and from 3 with no upper bound.
abbrev bounded : Interval
bounded = interval (negsuc 3) (pos 6)

abbrev open_above : Interval
open_above = interval (pos 3) (pos 127)

mul_runs :
    (mul 127 bounded open_above ≡ interval (negsuc 127) (pos 127))
    × (mul 127 (interval (negsuc 3) (negsuc 1)) (interval (pos 3) (pos 5))
        ≡ interval (negsuc 19) (negsuc 5))
    × (div 127 bounded bounded ≡ cancelled)
unfolding mul Bound.mul Bound.mul_overflows div
mul_runs = (refl, refl, refl)

bounded-IsMachine : IsMachine 127 bounded
bounded-IsMachine = omega arith

open_above-IsMachine : IsMachine 127 open_above
open_above-IsMachine = omega arith

bounded-IsProper : IsProper 127 bounded
bounded-IsProper = record {
  machine = bounded-IsMachine;
  low_finite = λ e. ground arith;
  high_finite = λ e. ground arith;
}

open_above-IsProper : IsProper 127 open_above
open_above-IsProper = record {
  machine = open_above-IsMachine;
  low_finite = λ e. ground arith;
  high_finite = λ e. ground arith;
}

bounded-Contains : Contains 127 bounded (negsuc 1)
bounded-Contains = record { above = inr (omega arith); below = inr (omega arith) }

open_above-Contains : Contains 127 open_above (pos 900)
open_above-Contains = record { above = inr (omega arith); below = inl refl }

mul_sound_example : Contains 127 (mul 127 bounded open_above) (negsuc 1 *ℤ pos 900)
mul_sound_example =
    mul_sound 127 bounded open_above (negsuc 1) (pos 900) (omega arith) bounded-IsProper
      open_above-IsProper bounded-Contains open_above-Contains

add_sound_example :
    (s : Interval) × (add 127 bounded open_above ≡ done s) × Contains 127 s (negsuc 1 +ℤ pos 900)
add_sound_example =
    add_sound 127 bounded open_above (negsuc 1) (pos 900) bounded-IsProper open_above-IsProper
      bounded-Contains open_above-Contains

comparisons_sound_example :
    Denotes (eq bounded open_above) (eq_ℤ (negsuc 1) (pos 900))
    × Denotes (ne bounded open_above) (not (eq_ℤ (negsuc 1) (pos 900)))
    × Denotes (lt bounded open_above) (ltb_ℤ (negsuc 1) (pos 900))
    × Denotes (gt bounded open_above) (ltb_ℤ (pos 900) (negsuc 1))
    × Denotes (le bounded open_above) (leb_ℤ (negsuc 1) (pos 900))
    × Denotes (ge bounded open_above) (leb_ℤ (pos 900) (negsuc 1))
comparisons_sound_example =
    comparisons_sound 127 bounded open_above (negsuc 1) (pos 900) bounded-IsProper
      open_above-IsProper bounded-Contains open_above-Contains
