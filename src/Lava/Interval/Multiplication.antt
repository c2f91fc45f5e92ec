-- ===== src/Lava/Interval/Multiplication.antt =====
-- Products of bounds that may be infinite, lava/include/lava/support/interval.hpp.
use lart.Common.{ℕ, suc, ◌<◌, ◌≡◌, sym, ap, ◌∙◌, ◌⊎◌, inl, inr, true, false, Bool-cases, arith}
use lart.Common.Int.{ℤ, pos, negsuc, negate, pos_part, neg_part, eq_of_parts, int_laws, ◌*ℤ◌, ◌≤ℤ◌}
use lart.Common.Products.{*ℤ_mono, *ℤ_anti, *ℤ_comm, *ℤ_parts}
use lart.Lava.Bound
use lart.Lava.Bound.Range.{InRange}
use lart.Lava.Bound.Saturation.{clamp, mul_saturates}

one-*ℤ : (x : ℤ) → pos 1 *ℤ x ≡ x
one-*ℤ x = omega (arith, eq_of_parts, *ℤ_parts (pos 1) x)

minus_one-*ℤ : (x : ℤ) → negsuc 0 *ℤ x ≡ negate x
unfolding negate
minus_one-*ℤ x = omega (int_laws, *ℤ_parts (negsuc 0) x)

-- A factor that is not 0 takes an integer no nearer to 0.
away_pos : (x y : ℤ) → pos 0 ≤ℤ x → pos 1 ≤ℤ y → x ≤ℤ x *ℤ y
away_pos x y hx hy =
    rw (*ℤ_comm x y)
      (omega (arith, ap pos_part (one-*ℤ x), ap neg_part (one-*ℤ x), *ℤ_mono (pos 1) y x hy hx))

module _ (limit : ℕ) where
  abbrev pub beyond : ℤ
  beyond = pos (suc limit)

  -- The integers that a bound stands for: itself, or anything beyond the range where it is infinite.
  pub record Stands (b x : ℤ) : Type 0 where
    pub equal : Bound.is_finite limit b ≡ true → x ≡ b
    pub low : b ≡ Bound.min limit → x ≤ℤ Bound.min limit
    pub high : b ≡ Bound.max limit → beyond ≤ℤ x

  -- The product of an integer beyond the range with any but 0 is beyond it.
  far_pos : (x y : ℤ) → beyond ≤ℤ x → pos 1 ≤ℤ y → beyond ≤ℤ x *ℤ y
  far_pos x y hx hy = omega (arith, away_pos x y (omega arith) hy)

  far_pos_neg : (x y : ℤ) → beyond ≤ℤ x → y ≤ℤ negsuc 0 → x *ℤ y ≤ℤ Bound.min limit
  far_pos_neg x y hx hy =
      let fact = *ℤ_mono y (negsuc 0) x hy (omega arith) in
      omega (arith, *ℤ_parts x y, *ℤ_parts y x, *ℤ_parts (negsuc 0) x, fact)

  far_neg_pos : (x y : ℤ) → x ≤ℤ Bound.min limit → pos 1 ≤ℤ y → x *ℤ y ≤ℤ Bound.min limit
  far_neg_pos x y hx hy =
      let fact = *ℤ_anti (pos 1) y x hy (omega arith) in
      omega (arith, *ℤ_parts x y, *ℤ_parts y x, *ℤ_parts (pos 1) x, fact)

  far_neg : (x y : ℤ) → x ≤ℤ Bound.min limit → y ≤ℤ negsuc 0 → beyond ≤ℤ x *ℤ y
  far_neg x y hx hy =
      let fact = *ℤ_anti y (negsuc 0) x hy (omega arith) in
      omega (arith, *ℤ_parts x y, *ℤ_parts y x, *ℤ_parts (negsuc 0) x, fact)

  clamp_high : (z : ℤ) → beyond ≤ℤ z → clamp limit z ≡ Bound.max limit
  clamp_high z h = ground arith

  clamp_low : (z : ℤ) → z ≤ℤ Bound.min limit → clamp limit z ≡ Bound.min limit
  clamp_low z h = ground arith

  Stands-sign :
      (c y : ℤ)
      → 0 < limit
      → Stands c y
      → ((c ≡ pos 0) × (y ≡ pos 0))
        ⊎ (((pos 1 ≤ℤ c) × (pos 1 ≤ℤ y)) ⊎ ((c ≤ℤ negsuc 0) × (y ≤ℤ negsuc 0)))
  Stands-sign c y big s = ground arith

  infinite_cases :
      (b : ℤ) → Bound.is_finite limit b ≡ false → (b ≡ Bound.max limit) ⊎ (b ≡ Bound.min limit)
  infinite_cases b h = ground arith

  mul-max :
      (c : ℤ)
      → 0 < limit
      → (pos 1 ≤ℤ c → Bound.mul limit (Bound.max limit) c ≡ Bound.max limit)
        × (c ≤ℤ negsuc 0 → Bound.mul limit (Bound.max limit) c ≡ Bound.min limit)
  unfolding Bound.mul
  mul-max c big = (λ h. ground arith, λ h. ground arith)

  mul-min :
      (c : ℤ)
      → (pos 1 ≤ℤ c → Bound.mul limit (Bound.min limit) c ≡ Bound.min limit)
        × (c ≤ℤ negsuc 0 → Bound.mul limit (Bound.min limit) c ≡ Bound.max limit)
  unfolding Bound.mul
  mul-min c = (λ h. ground arith, λ h. ground arith)

  mul_zero : (b : ℤ) → Bound.mul limit b (pos 0) ≡ pos 0
  unfolding Bound.mul
  mul_zero b = ground arith

  clamp_zero : (x : ℤ) → 0 < limit → clamp limit (x *ℤ pos 0) ≡ pos 0
  clamp_zero x big =
      let zero_product : x *ℤ pos 0 ≡ pos 0 = omega (arith, eq_of_parts, *ℤ_parts x (pos 0)) in
      rw zero_product (ground arith)

  infinite-Stands :
      (b c x y : ℤ)
      → 0 < limit
      → Bound.is_finite limit b ≡ false
      → Stands b x
      → Stands c y
      → Bound.mul limit b c ≡ clamp limit (x *ℤ y)
  infinite-Stands b c x y big inf sx sy = elim (Stands-sign c y big sy) [
    | inl zeros ↦ rw (zeros.0, zeros.1) (mul_zero b ∙ sym (clamp_zero x big))
    | inr (inl ones) ↦ elim (infinite_cases b inf) [
      | inl e ↦
          rw (clamp_high (x *ℤ y) (far_pos x y (sx.high e) ones.1))
            (rw e ((mul-max c big).0 ones.0))
      | inr e ↦
          rw (clamp_low (x *ℤ y) (far_neg_pos x y (sx.low e) ones.1)) (rw e ((mul-min c).0 ones.0))
    ]
    | inr (inr ones) ↦ elim (infinite_cases b inf) [
      | inl e ↦
          rw (clamp_low (x *ℤ y) (far_pos_neg x y (sx.high e) ones.1))
            (rw e ((mul-max c big).1 ones.0))
      | inr e ↦
          rw (clamp_high (x *ℤ y) (far_neg x y (sx.low e) ones.1)) (rw e ((mul-min c).1 ones.0))
    ]
  ]

  infinite_comm :
      (b c : ℤ) → Bound.is_finite limit c ≡ false → Bound.mul limit b c ≡ Bound.mul limit c b
  unfolding Bound.mul
  infinite_comm b c h = ground arith

  -- A product of bounds is the saturated product of any two integers that they stand for.
  pub mul-Stands :
      (b c x y : ℤ)
      → 0 < limit
      → InRange limit b
      → InRange limit c
      → Stands b x
      → Stands c y
      → Bound.mul limit b c ≡ clamp limit (x *ℤ y)
  mul-Stands b c x y big hb hc sx sy = elim (Bool-cases (Bound.is_finite limit b)) [
    | inr inf ↦ infinite-Stands b c x y big inf sx sy
    | inl fb ↦ elim (Bool-cases (Bound.is_finite limit c)) [
      | inr inf ↦
          infinite_comm b c inf
          ∙ infinite-Stands c b y x big inf sy sx
          ∙ ap (clamp limit) (*ℤ_comm y x)
      | inl fc ↦ rw (sx.equal fb, sy.equal fc) (mul_saturates limit b c hb hc fb fc)
    ]
  ]
