-- ===== src/Lava/Backward/Tests.antt =====
-- Runs of the backward operations of lava/include/lava/interval.hpp.
use lart.Common.{ℕ, ◌≡◌, refl, arith, true, done}
use lart.Common.Int.{pos, ◌-ℤ◌, ◌+ℤ◌, ◌≤ℤ◌}
use lart.Lava.Bound
use lart.Lava.Interval.{Interval, interval, meet}
use lart.Lava.Backward.{bgt, beq_impl}
use lart.Lava.Backward.Branches.{Bounded, Keeps, bgt-Keeps}
use lart.Lava.Backward.Operands.{to_correct, badd}
use lart.Lava.Backward.Addends.{badd-Keeps}
use lart.Lava.Backward.Equations.{beq_loses}

abbrev small : Interval
small = interval (pos 1) (pos 5)

abbrev shifted : Interval
shifted = interval (pos 3) (pos 9)

small-Bounded : Bounded 32767 (omega arith) small
small-Bounded = record {
  low_within = (omega arith, omega arith);
  high_within = (omega arith, omega arith);
}

shifted-Bounded : Bounded 32767 (omega arith) shifted
shifted-Bounded = record {
  low_within = (omega arith, omega arith);
  high_within = (omega arith, omega arith);
}

-- For the operands 1 to 2 of an equation there is one choice, 0, and the pair of 2 and 2 is not kept.
beq_runs :
    (beq_impl 32767 0 (interval (pos 1) (pos 2)) (interval (pos 1) (pos 2))
      ≡ done (interval (pos 1) (pos 1), interval (pos 1) (pos 1)))
unfolding beq_impl meet Bound.sub
beq_runs = refl

bgt-Keeps_example :
    (choice : ℕ) × Keeps 32767 (omega arith) (bgt 32767 choice true small shifted) (pos 5) (pos 3)
bgt-Keeps_example =
    bgt-Keeps 32767 (omega arith) small shifted (pos 5) (pos 3) small-Bounded shifted-Bounded refl
      refl (omega arith) (unfold ◌-ℤ◌ in omega arith)

badd-Keeps_example :
    (i : ℕ) × (j : ℕ) × Keeps 32767
      (omega arith)
      (badd 32767 i j (interval (pos 8) (pos 11)) small shifted)
      (pos 4)
      (pos 5)
    × (to_correct (pos 8 -ℤ (pos 1 +ℤ pos 3)) ≡ true → pos i ≤ℤ (pos 8 -ℤ (pos 1 +ℤ pos 3)))
    × (to_correct ((pos 5 +ℤ pos 9) -ℤ pos 11) ≡ true → pos j ≤ℤ ((pos 5 +ℤ pos 9) -ℤ pos 11))
badd-Keeps_example =
    badd-Keeps 32767 (omega arith) 20 (interval (pos 8) (pos 11)) small shifted (pos 4) (pos 5)
      (omega arith) ((omega arith, omega arith), (omega arith, omega arith))
      ((omega arith, omega arith), (omega arith, omega arith))
      ((omega arith, omega arith), (omega arith, omega arith)) refl refl (unfold ◌+ℤ◌ in refl)

beq_loses_example : ¬ Keeps 32767 (omega arith) (beq_impl 32767 2 small small) (pos 5) (pos 5)
beq_loses_example =
    beq_loses 32767 (omega arith) 5 2 (pos 1) (pos 5) (omega arith, omega arith)
      (omega arith, omega arith) (omega arith) (unfold ◌-ℤ◌ in omega arith)
      (unfold ◌-ℤ◌ in omega arith)
