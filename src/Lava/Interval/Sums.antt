-- ===== src/Lava/Interval/Sums.antt =====
-- Sums and differences of intervals, lava/include/lava/support/interval.hpp.
use lart.Common.{ℕ, suc, ◌<◌, ◌≡◌, refl, ◌≢◌, ◌⊎◌, inl, inr, true, done, arith}
use lart.Common.Int.{ℤ, pos, negsuc, ◌+ℤ◌, ◌-ℤ◌, negate}
use lart.Lava.Bound
use lart.Lava.Bound.Range.{InRange, minus_bound-InRange}
use lart.Lava.Bound.Saturation.{clamp, add_saturates}
use lart.Lava.Interval.{Interval, interval, add, sub}
use lart.Lava.Interval.Meaning.{Contains, IsProper, Above, Below}

pub sub-negate : (x y : ℤ) → x -ℤ y ≡ x +ℤ negate y
unfolding ◌-ℤ◌ ◌+ℤ◌ negate
sub-negate x y = ground arith

module _ (limit : ℕ) where
  lower_cases :
      (a : ℤ) → a ≢ Bound.max limit → (a ≡ Bound.min limit) ⊎ (Bound.is_finite limit a ≡ true)
  lower_cases a h = ground arith

  upper_cases :
      (a : ℤ) → a ≢ Bound.min limit → (a ≡ Bound.max limit) ⊎ (Bound.is_finite limit a ≡ true)
  upper_cases a h = ground arith

  add-min :
      (c : ℤ) → c ≢ Bound.max limit → Bound.add limit (Bound.min limit) c ≡ done (Bound.min limit)
  unfolding Bound.add
  add-min c h = ground arith

  add-min_right :
      (a : ℤ)
      → Bound.is_finite limit a ≡ true
      → Bound.add limit a (Bound.min limit) ≡ done (Bound.min limit)
  unfolding Bound.add
  add-min_right a h = ground arith

  add-max :
      (c : ℤ) → c ≢ Bound.min limit → Bound.add limit (Bound.max limit) c ≡ done (Bound.max limit)
  unfolding Bound.add
  add-max c h = ground arith

  add-max_right :
      (a : ℤ)
      → Bound.is_finite limit a ≡ true
      → Bound.add limit a (Bound.max limit) ≡ done (Bound.max limit)
  unfolding Bound.add
  add-max_right a h = ground arith

  add-Above :
      (a c x y : ℤ)
      → InRange limit a
      → InRange limit c
      → a ≢ Bound.max limit
      → c ≢ Bound.max limit
      → Above limit a x
      → Above limit c y
      → (s : ℤ) × (Bound.add limit a c ≡ done s) × Above limit s (x +ℤ y)
  add-Above a c x y ra rc na nc ha hc = elim (lower_cases a na) [
    | inl e ↦ (Bound.min limit, rw e (add-min c nc), inl refl)
    | inr fa ↦ elim (lower_cases c nc) [
      | inl e ↦ (Bound.min limit, rw e (add-min_right a fa), inl refl)
      | inr fc ↦
          (clamp limit (a +ℤ c), add_saturates limit a c ra rc fa fc, unfold ◌+ℤ◌ in ground arith)
    ]
  ]

  add-Below :
      (a c x y : ℤ)
      → InRange limit a
      → InRange limit c
      → a ≢ Bound.min limit
      → c ≢ Bound.min limit
      → Below limit a x
      → Below limit c y
      → (s : ℤ) × (Bound.add limit a c ≡ done s) × Below limit s (x +ℤ y)
  add-Below a c x y ra rc na nc ha hc = elim (upper_cases a na) [
    | inl e ↦ (Bound.max limit, rw e (add-max c nc), inl refl)
    | inr fa ↦ elim (upper_cases c nc) [
      | inl e ↦ (Bound.max limit, rw e (add-max_right a fa), inl refl)
      | inr fc ↦
          (clamp limit (a +ℤ c), add_saturates limit a c ra rc fa fc, unfold ◌+ℤ◌ in ground arith)
    ]
  ]

  -- The sum of two proper intervals is never cancelled, and holds the sum of any two integers of theirs.
  pub add_sound :
      (l r : Interval) (x y : ℤ)
      → IsProper limit l
      → IsProper limit r
      → Contains limit l x
      → Contains limit r y
      → (s : Interval) × (add limit l r ≡ done s) × Contains limit s (x +ℤ y)
  unfolding add
  add_sound l r x y hl hr hx hy =
      let (low, el, above) =
        add-Above l.low r.low x y hl.machine.low_range hr.machine.low_range hl.low_finite
          hr.low_finite hx.above hy.above in
      let (high, eh, below) =
        add-Below l.high r.high x y hl.machine.high_range hr.machine.high_range hl.high_finite
          hr.high_finite hx.below hy.below in
      (interval low high, rw (el, eh), record { above = above; below = below })

  -- The negation of an integer lies above the negated upper bound, and below the negated lower one.
  negate-Above :
      (b y : ℤ)
      → InRange limit b
      → Below limit b y
      → Above limit (Bound.minus_bound limit b) (negate y)
  unfolding Bound.minus_bound negate
  negate-Above b y hb h = ground arith

  negate-Below :
      (b y : ℤ)
      → InRange limit b
      → b ≢ Bound.max limit
      → Above limit b y
      → Below limit (Bound.minus_bound limit b) (negate y)
  unfolding Bound.minus_bound negate
  negate-Below b y hb nb h = ground arith

  minus_bound_lower :
      (b : ℤ)
      → InRange limit b
      → b ≢ Bound.min limit
      → b ≢ negate (pos limit)
      → Bound.minus_bound limit b ≢ Bound.max limit
  unfolding Bound.minus_bound negate
  minus_bound_lower b hb h k = ground arith

  minus_bound_upper :
      (b : ℤ) → InRange limit b → b ≢ Bound.max limit → Bound.minus_bound limit b ≢ Bound.min limit
  unfolding Bound.minus_bound negate
  minus_bound_upper b hb h = ground arith

  -- The difference of two proper intervals, of which the second does not end at the negation of the
  -- greatest value, is never cancelled, and holds the difference of any two integers of theirs.
  pub sub_sound :
      (l r : Interval) (x y : ℤ)
      → IsProper limit l
      → IsProper limit r
      → r.high ≢ negate (pos limit)
      → Contains limit l x
      → Contains limit r y
      → (s : Interval) × (sub limit l r ≡ done s) × Contains limit s (x -ℤ y)
  unfolding sub Bound.sub
  sub_sound l r x y hl hr edge hx hy =
      let lr = hr.machine.low_range in
      let hr' = hr.machine.high_range in
      let (low, el, above) =
        add-Above l.low (Bound.minus_bound limit r.high) x (negate y) hl.machine.low_range
          (minus_bound-InRange limit r.high hr') hl.low_finite
          (minus_bound_lower r.high hr' hr.high_finite edge) hx.above
          (negate-Above r.high y hr' hy.below) in
      let (high, eh, below) =
        add-Below l.high (Bound.minus_bound limit r.low) x (negate y) hl.machine.high_range
          (minus_bound-InRange limit r.low lr) hl.high_finite
          (minus_bound_upper r.low lr hr.low_finite) hx.below
          (negate-Below r.low y lr hr.low_finite hy.above) in
      (
        interval low high,
        rw (el, eh),
        rw (sub-negate x y) (record { above = above; below = below }),
      )

  minus_bound_edge : 0 < limit → Bound.minus_bound limit (negate (pos limit)) ≡ Bound.max limit
  unfolding Bound.minus_bound negate
  minus_bound_edge big = ground arith

  -- Where the second interval is the negation of the greatest value alone, a difference is lost: the
  -- result is plus infinity on both ends, which does not hold the difference of the integers.
  pub sub_edge :
      (n : ℕ)
      → suc n < limit
      → (sub limit
            (interval (negsuc n) (negsuc n))
            (interval (negate (pos limit)) (negate (pos limit)))
          ≡ done (interval (Bound.max limit) (Bound.max limit)))
        × ¬ Contains limit
            (interval (Bound.max limit) (Bound.max limit))
            (negsuc n -ℤ negate (pos limit))
  unfolding sub Bound.sub
  sub_edge n big = (
    rw (minus_bound_edge (omega arith)) (rw (add-max_right (negsuc n) (ground arith))),
    λ h. unfold ◌-ℤ◌ negate in ground arith,
  )
