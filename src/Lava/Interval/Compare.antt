-- ===== src/Lava/Interval/Compare.antt =====
-- The comparisons of `sup::interval`, lava/include/lava/support/interval.hpp, and its reading as a
-- truth value.
use lart.Common.{ℕ, ◌<◌, ◌≡◌, refl, Bool, not, arith}
use lart.Common.Int.{ℤ, pos, ltb_ℤ, leb_ℤ, eq_ℤ, ◌<ℤ◌}
use lart.Lava.Tristate.{Tristate, not_t}
use lart.Lava.Tristate.Meaning.{Denotes}
use lart.Lava.Interval.{Interval, eq, ne, lt, gt, le, ge, to_tristate, of_tristate}
use lart.Lava.Interval.Meaning.{Contains, IsMachine, IsProper}

negated : (t : Tristate) (b c : Bool) → Denotes t b → not b ≡ c → Denotes (not_t t) c
unfolding not_t
negated t b c h e = ground arith

not-ltb : (x y : ℤ) → not (ltb_ℤ y x) ≡ leb_ℤ x y
not-ltb x y = ground arith

-- What the comparisons need of two intervals and of an integer of each.
record Facts (l r : Interval) (x y : ℤ) : Type 0 where
  left : l.low ≡ l.high → x ≡ l.low
  right : r.low ≡ r.high → y ≡ r.low
  before : l.high <ℤ r.low → x <ℤ y
  after : r.high <ℤ l.low → y <ℤ x

module _ (l r : Interval) (x y : ℤ) (f : Facts l r x y) where
  eq_sound : Denotes (eq l r) (eq_ℤ x y)
  unfolding eq
  eq_sound = ground arith

  lt_sound : Denotes (lt l r) (ltb_ℤ x y)
  unfolding lt
  lt_sound = ground arith

  gt_sound : Denotes (gt l r) (ltb_ℤ y x)
  unfolding gt
  gt_sound = ground arith

module _ (limit : ℕ) where
  only : (l : Interval) (x : ℤ) → IsProper limit l → Contains limit l x → l.low ≡ l.high → x ≡ l.low
  only l x hl hx e = ground arith

  apart :
      (l r : Interval) (x y : ℤ)
      → IsMachine limit l
      → IsMachine limit r
      → Contains limit l x
      → Contains limit r y
      → l.high <ℤ r.low
      → x <ℤ y
  apart l r x y hl hr hx hy h = ground arith

  -- Each of the six comparisons of two proper intervals allows the outcome that it has on any two
  -- integers of theirs.
  pub comparisons_sound :
      (l r : Interval) (x y : ℤ)
      → IsProper limit l
      → IsProper limit r
      → Contains limit l x
      → Contains limit r y
      → Denotes (eq l r) (eq_ℤ x y)
        × Denotes (ne l r) (not (eq_ℤ x y))
        × Denotes (lt l r) (ltb_ℤ x y)
        × Denotes (gt l r) (ltb_ℤ y x)
        × Denotes (le l r) (leb_ℤ x y)
        × Denotes (ge l r) (leb_ℤ y x)
  unfolding ne le ge
  comparisons_sound l r x y hl hr hx hy =
      let f : Facts l r x y = record {
        left = only l x hl hx;
        right = only r y hr hy;
        before = apart l r x y hl.machine hr.machine hx hy;
        after = apart r l y x hr.machine hl.machine hy hx;
      } in
      (
        eq_sound l r x y f,
        negated (eq l r) _ _ (eq_sound l r x y f) refl,
        lt_sound l r x y f,
        gt_sound l r x y f,
        negated (gt l r) _ _ (gt_sound l r x y f) (not-ltb x y),
        negated (lt l r) _ _ (lt_sound l r x y f) (not-ltb y x),
      )

  -- An interval read as a truth value allows that of each of its integers.
  interval_to_tristate_sound :
      (i : Interval) (x : ℤ)
      → 0 < limit
      → IsMachine limit i
      → Contains limit i x
      → Denotes (to_tristate i) (not (eq_ℤ x (pos 0)))
  unfolding to_tristate
  interval_to_tristate_sound i x big hi hx = ground arith

-- A truth value that is stored as an interval and read again is the same one.
tristate_roundtrip : (t : Tristate) → to_tristate (of_tristate t) ≡ t
unfolding to_tristate of_tristate
tristate_roundtrip t = ground arith
