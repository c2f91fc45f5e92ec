-- ===== src/Lava/Interval/Lattice.antt =====
-- The set operations of `sup::interval`, lava/include/lava/support/interval.hpp.
use lart.Common.{
  ℕ, ◌<◌, ◌∙◌, Bool-cases, ◌≡◌, ◌⊎◌, ◌≢◌, inl, inr, refl, true, false, ◌&&◌, not, done, arith,
}
use lart.Common.Int.{ℤ, pos, negsuc, ◌+ℤ◌, leb_ℤ, eq_ℤ, eq_ℤ_iff}
use lart.Lava.Bound
use lart.Lava.Bound.{is_finite}
use lart.Lava.Bound.Saturation.{clamp, add_saturates}
use lart.Lava.Bound.Range.{InRange}
use lart.Lava.Interval.{
  Interval, interval, meet, join, includes, excludes, intersects, exclude, join_high, join_low,
  meet_low, meet_high, is_bottom, includes_bound,
}
use lart.Lava.Interval.Meaning.{Contains, IsMachine, Above, Below}

module _ (limit : ℕ) where
  -- `meet` holds exactly the integers that both intervals hold.
  pub meet_iff :
      (l r : Interval) (x : ℤ)
      → IsMachine limit l
      → IsMachine limit r
      → (Contains limit (meet l r) x → Contains limit l x × Contains limit r x)
        × (Contains limit l x → Contains limit r x → Contains limit (meet l r) x)
  unfolding meet
  meet_iff l r x hl hr = (λ h. ground arith, λ h k. ground arith)

  -- `join` holds the integers of both intervals.
  pub join_upper :
      (l r : Interval) (x : ℤ)
      → IsMachine limit l
      → IsMachine limit r
      → Contains limit l x ⊎ Contains limit r x
      → Contains limit (join l r) x
  unfolding join
  join_upper l r x hl hr h = ground arith

  -- Moving a finite lower bound up by one, and a finite upper bound down.
  step_up :
      (b x : ℤ)
      → 1 < limit
      → InRange limit b
      → is_finite limit b ≡ true
      → Above limit b x
      → x ≢ b
      → (c : ℤ) × (Bound.add limit b (pos 1) ≡ done c) × Above limit c x
  step_up b x big hb fb e ne = (
    clamp limit (b +ℤ pos 1),
    add_saturates limit b (pos 1) hb (ground arith) fb (ground arith),
    unfold ◌+ℤ◌ in ground arith,
  )

  sub-one : (b : ℤ) → 1 < limit → Bound.sub limit b (pos 1) ≡ Bound.add limit b (negsuc 0)
  unfolding Bound.sub
  sub-one b big = let one : Bound.minus_bound limit (pos 1) ≡ negsuc 0 = ground arith in rw one

  step_down :
      (b x : ℤ)
      → 1 < limit
      → InRange limit b
      → is_finite limit b ≡ true
      → Below limit b x
      → x ≢ b
      → (c : ℤ) × (Bound.sub limit b (pos 1) ≡ done c) × Below limit c x
  step_down b x big hb fb e ne = (
    clamp limit (b +ℤ negsuc 0),
    sub-one b big ∙ add_saturates limit b (negsuc 0) hb (ground arith) fb (ground arith),
    unfold ◌+ℤ◌ in ground arith,
  )

  -- In a type with a greatest value above 1, excluding a finite bound yields an interval that keeps
  -- every other integer.
  exclude_keeps :
      (i : Interval) (b x : ℤ)
      → 1 < limit
      → InRange limit b
      → is_finite limit b ≡ true
      → Contains limit i x
      → x ≢ b
      → (j : Interval) × (exclude limit i b ≡ done j) × Contains limit j x
  unfolding exclude
  exclude_keeps i b x big hb fb h ne = elim (Bool-cases (eq_ℤ i.low b)) [
    | inl at_low ↦
        let same_low = (eq_ℤ_iff i.low b).0 at_low in
        let (c, e, above) = step_up b x big hb fb (rw same_low at h.above) ne in
        (
          interval c i.high,
          rw at_low (rw same_low (rw e)),
          record { above = above; below = h.below },
        )
    | inr other ↦ elim (Bool-cases (eq_ℤ i.high b)) [
      | inl at_high ↦
          let same_high = (eq_ℤ_iff i.high b).0 at_high in
          let (c, e, below) = step_down b x big hb fb (rw same_high at h.below) ne in
          (
            interval i.low c,
            rw (other, at_high) (rw same_high (rw e)),
            record { above = h.above; below = below },
          )
      | inr neither ↦ (i, rw (other, neither), h)
    ]
  ]

-- `join` is the least interval that includes both, unless one is empty.
pub join_least :
    (l r i : Interval)
    → is_bottom l ≡ false
    → is_bottom r ≡ false
    → includes i (join l r) ≡ (includes i l && includes i r)
unfolding join includes
join_least l r i hl hr = ground arith

-- Two intervals exclude one another exactly if they do not intersect, and then their meet is empty.
excludes_iff :
    (l r : Interval)
    → is_bottom l ≡ false
    → is_bottom r ≡ false
    → (excludes l r ≡ not (intersects l r)) × (is_bottom (meet l r) ≡ excludes l r)
unfolding excludes intersects meet
excludes_iff l r hl hr = ground arith

-- The one-sided updates bound what they say they bound, except `join_high`, which raises the lower
-- bound and leaves the upper one as it was.
one_sided :
    (i : Interval) (b x : ℤ)
    → (includes_bound (meet_low i b) x ≡ (includes_bound i x && leb_ℤ b x))
      × (includes_bound (meet_high i b) x ≡ (includes_bound i x && leb_ℤ x b))
      × (includes_bound i x ≡ true → includes_bound (join_low i b) x ≡ true)
      × ((join_high i b).high ≡ i.high)
      × (includes_bound (join_high i b) x ≡ (includes_bound i x && leb_ℤ b x))
unfolding meet_low meet_high join_low join_high
one_sided i b x = (ground arith, ground arith, λ h. ground arith, refl, ground arith)
