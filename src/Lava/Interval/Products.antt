-- ===== src/Lava/Interval/Products.antt =====
-- Products of intervals, lava/include/lava/support/interval.hpp.
use lart.Common.{ℕ, ◌<◌, inl, inr, Bool-cases, if◌then◌else◌, arith}
use lart.Common.Int.{ℤ, ◌*ℤ◌, ◌≤ℤ◌, ◌<ℤ◌, eq_ℤ, eq_ℤ_iff}
use lart.Common.Products.{corners_low, corners_high}
use lart.Lava.Bound
use lart.Lava.Bound.Saturation.{clamp}
use lart.Lava.Interval.{Interval, minmax, least, greatest, mul}
use lart.Lava.Interval.Meaning.{Contains, IsProper, Above, Below}
use lart.Lava.Interval.Multiplication.{Stands, beyond, mul-Stands}

least_four :
    (p q r s : ℤ) → let m = (minmax p q r s).low in (m ≤ℤ p) × (m ≤ℤ q) × (m ≤ℤ r) × (m ≤ℤ s)
least_four p q r s = ground arith

greatest_four :
    (p q r s : ℤ) → let m = (minmax p q r s).high in (p ≤ℤ m) × (q ≤ℤ m) × (r ≤ℤ m) × (s ≤ℤ m)
greatest_four p q r s = ground arith

least_four_above : (p q r s m : ℤ) → m ≤ℤ p → m ≤ℤ q → m ≤ℤ r → m ≤ℤ s → m ≤ℤ (minmax p q r s).low
least_four_above p q r s m hp hq hr hs = ground arith

greatest_four_below :
    (p q r s m : ℤ) → p ≤ℤ m → q ≤ℤ m → r ≤ℤ m → s ≤ℤ m → (minmax p q r s).high ≤ℤ m
greatest_four_below p q r s m hp hq hr hs = ground arith

module _ (limit : ℕ) where
  -- An integer that a lower bound stands for, below a given one, and one for an upper bound.
  abbrev lower_end : ℤ → ℤ → ℤ
  lower_end b x = if eq_ℤ b (Bound.min limit) then least x (Bound.min limit) else b

  abbrev upper_end : ℤ → ℤ → ℤ
  upper_end b x = if eq_ℤ b (Bound.max limit) then greatest x (beyond limit) else b

  lower_end_lem :
      (i : Interval) (x : ℤ)
      → IsProper limit i
      → Contains limit i x
      → Stands limit i.low (lower_end i.low x) × (lower_end i.low x ≤ℤ x)
  lower_end_lem i x hi h = ground arith

  upper_end_lem :
      (i : Interval) (x : ℤ)
      → IsProper limit i
      → Contains limit i x
      → Stands limit i.high (upper_end i.high x) × (x ≤ℤ upper_end i.high x)
  upper_end_lem i x hi h = ground arith

  under_clamp : (m p : ℤ) → Bound.min limit <ℤ m → m ≤ℤ clamp limit p → m ≤ℤ p
  under_clamp m p h k = ground arith

  over_clamp : (m p : ℤ) → m <ℤ Bound.max limit → clamp limit p ≤ℤ m → p ≤ℤ m
  over_clamp m p h k = ground arith

  -- A value below four saturated integers is a lower bound of what is at least one of the four.
  Above-of_least :
      (p q r s z m : ℤ)
      → Bound.min limit ≤ℤ m
      → (m ≤ℤ clamp limit p) × (m ≤ℤ clamp limit q) × (m ≤ℤ clamp limit r) × (m ≤ℤ clamp limit s)
      → ((m ≤ℤ p) × (m ≤ℤ q) × (m ≤ℤ r) × (m ≤ℤ s) → m ≤ℤ z)
      → Above limit m z
  Above-of_least p q r s z m lo (hp, hq, hr, hs) h = elim (Bool-cases (eq_ℤ m (Bound.min limit))) [
    | inl e ↦ inl ((eq_ℤ_iff _ _).0 e)
    | inr other ↦
        let inside : Bound.min limit <ℤ m = ground arith in
        inr (
          h (
            under_clamp m p inside hp,
            under_clamp m q inside hq,
            under_clamp m r inside hr,
            under_clamp m s inside hs,
          ))
  ]

  Below-of_greatest :
      (p q r s z m : ℤ)
      → m ≤ℤ Bound.max limit
      → (clamp limit p ≤ℤ m) × (clamp limit q ≤ℤ m) × (clamp limit r ≤ℤ m) × (clamp limit s ≤ℤ m)
      → ((p ≤ℤ m) × (q ≤ℤ m) × (r ≤ℤ m) × (s ≤ℤ m) → z ≤ℤ m)
      → Below limit m z
  Below-of_greatest p q r s z m hi (hp, hq, hr, hs) h =
      elim (Bool-cases (eq_ℤ m (Bound.max limit))) [
        | inl e ↦ inl ((eq_ℤ_iff _ _).0 e)
        | inr other ↦
            let inside : m <ℤ Bound.max limit = ground arith in
            inr (
              h (
                over_clamp m p inside hp,
                over_clamp m q inside hq,
                over_clamp m r inside hr,
                over_clamp m s inside hs,
              ))
      ]

  clamp_range : (p : ℤ) → (Bound.min limit ≤ℤ clamp limit p) × (clamp limit p ≤ℤ Bound.max limit)
  clamp_range p = ground arith

  least_range :
      (p q r s : ℤ)
      → let i = minmax (clamp limit p) (clamp limit q) (clamp limit r) (clamp limit s) in
        (Bound.min limit ≤ℤ i.low) × (i.high ≤ℤ Bound.max limit)
  least_range p q r s = (
    least_four_above (clamp limit p) (clamp limit q) (clamp limit r) (clamp limit s)
        (Bound.min limit) (clamp_range p).0 (clamp_range q).0 (clamp_range r).0 (clamp_range s).0,
    greatest_four_below (clamp limit p) (clamp limit q) (clamp limit r) (clamp limit s)
        (Bound.max limit) (clamp_range p).1 (clamp_range q).1 (clamp_range r).1 (clamp_range s).1,
  )

  -- The box of the saturated corners holds the product of any two integers between them.
  box_sound :
      (a b c d x y : ℤ)
      → a ≤ℤ x
      → x ≤ℤ b
      → c ≤ℤ y
      → y ≤ℤ d
      → Contains limit
          (minmax
            (clamp limit (a *ℤ c))
            (clamp limit (a *ℤ d))
            (clamp limit (b *ℤ c))
            (clamp limit (b *ℤ d)))
          (x *ℤ y)
  box_sound a b c d x y ax xb cy yd =
      let p = a *ℤ c in
      let q = a *ℤ d in
      let r = b *ℤ c in
      let s = b *ℤ d in
      let i = minmax (clamp limit p) (clamp limit q) (clamp limit r) (clamp limit s) in
      let range = least_range p q r s in
      record {
        above =
            Above-of_least p q r s (x *ℤ y) i.low range.0
              (least_four (clamp limit p) (clamp limit q) (clamp limit r) (clamp limit s))
              (corners_low a b c d x y ax xb cy yd i.low);
        below =
            Below-of_greatest p q r s (x *ℤ y) i.high range.1
              (greatest_four (clamp limit p) (clamp limit q) (clamp limit r) (clamp limit s))
              (corners_high a b c d x y ax xb cy yd i.high);
      }

  -- The product of two proper intervals holds the product of any two integers of theirs, also where
  -- bounds are infinite or the product of bounds leaves the machine's range.
  pub mul_sound :
      (l r : Interval) (x y : ℤ)
      → 0 < limit
      → IsProper limit l
      → IsProper limit r
      → Contains limit l x
      → Contains limit r y
      → Contains limit (mul limit l r) (x *ℤ y)
  unfolding mul
  mul_sound l r x y big hl hr hx hy =
      let (sa, ax) = lower_end_lem l x hl hx in
      let (sb, xb) = upper_end_lem l x hl hx in
      let (sc, cy) = lower_end_lem r y hr hy in
      let (sd, yd) = upper_end_lem r y hr hy in
      rw
        (
          mul-Stands limit l.low r.low (lower_end l.low x) (lower_end r.low y) big
              hl.machine.low_range hr.machine.low_range sa sc,
          mul-Stands limit l.low r.high (lower_end l.low x) (upper_end r.high y) big
              hl.machine.low_range hr.machine.high_range sa sd,
          mul-Stands limit l.high r.low (upper_end l.high x) (lower_end r.low y) big
              hl.machine.high_range hr.machine.low_range sb sc,
          mul-Stands limit l.high r.high (upper_end l.high x) (upper_end r.high y) big
              hl.machine.high_range hr.machine.high_range sb sd,
        )
        (box_sound (lower_end l.low x) (upper_end l.high x) (lower_end r.low y) (upper_end r.high y)
          x y ax xb cy yd)
