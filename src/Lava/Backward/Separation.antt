-- ===== src/Lava/Backward/Separation.antt =====
-- What the backward comparison of lava/include/lava/interval.hpp keeps.
use lart.Common.{
  ℕ, suc, ◌-◌, ◌+◌, ◌<◌, ◌≡◌, ◌⊎◌, inl, inr, refl, ap, ◌∙◌, arith, true, false, if◌then◌else◌, done,
  Bool-cases,
}
use lart.Common.Int.{
  ℤ, pos, negsuc, pos_part, neg_part, ◌+ℤ◌, ◌-ℤ◌, negate, ◌≤ℤ◌, ◌<ℤ◌, ltb_ℤ, eq_ℤ, +ℤ_parts,
  -ℤ_parts, eq_of_parts,
}
use lart.Lava.Bound
use lart.Lava.Bound.Saturation.{clamp, add_saturates}
use lart.Lava.Interval.{
  Interval, interval, meet, meet_low, meet_high, includes_bound, least, greatest,
}
use lart.Lava.Backward.{intersect, exclude, validity_check}

pub exclude_low :
    (a : Interval) (b x : ℤ)
    → includes_bound a x ≡ true
    → b <ℤ x
    → exclude (meet_low a b) b ≡ done (interval (greatest a.low (b +ℤ pos 1)) a.high)
unfolding exclude validity_check meet_low ◌+ℤ◌ ◌-ℤ◌
exclude_low a b x h k = ground arith

pub one_below : (h y : ℤ) → y <ℤ h → y ≤ℤ (h -ℤ pos 1)
one_below h y k = omega (arith, -ℤ_parts h (pos 1), k)

high_part :
    (u h : ℤ)
    → (if eq_ℤ (least u h) h then least u h -ℤ pos 1 else least u h) ≡ least u (h -ℤ pos 1)
unfolding ◌-ℤ◌
high_part u h = ground arith

least_lower : (u v y : ℤ) → y ≤ℤ u → y ≤ℤ v → y ≤ℤ least u v
least_lower u v y h k = ground arith

not_below : (t l y : ℤ) → y ≤ℤ t → l ≤ℤ y → ltb_ℤ t l ≡ false
not_below t l y h k = ground arith

pub exclude_high :
    (b : Interval) (h y : ℤ)
    → includes_bound b y ≡ true
    → y <ℤ h
    → exclude (meet_high b h) h ≡ done (interval b.low (least b.high (h -ℤ pos 1)))
unfolding exclude validity_check meet_high
exclude_high b h y i k =
    let apart : eq_ℤ b.low h ≡ false = ground (arith, i, k) in
    let bound = least_lower b.high (h -ℤ pos 1) y (ground (arith, i)) (one_below h y k) in
    let full : ltb_ℤ (least b.high (h -ℤ pos 1)) b.low ≡ false =
      not_below (least b.high (h -ℤ pos 1)) b.low y bound (ground (arith, i)) in
    rw (apart, high_part b.high h, full) refl

pub intersect_keeps :
    (i o : Interval) (x : ℤ)
    → includes_bound i x ≡ true
    → includes_bound o x ≡ true
    → (r : Interval) × (intersect i o ≡ done r) × (includes_bound r x ≡ true)
unfolding intersect meet
intersect_keeps i o x h k =
    (interval (greatest i.low o.low) (least i.high o.high), ground arith, ground arith)

gap : ℤ → ℤ → ℕ
gap low y = suc (pos_part y + neg_part low - (pos_part low + neg_part y))

gap_parts : (low y : ℤ) → low ≤ℤ y → (low +ℤ pos (gap low y)) ≡ (y +ℤ pos 1)
unfolding gap
gap_parts low y h =
    eq_of_parts _ _ (omega (arith, h, +ℤ_parts low (pos (gap low y)), +ℤ_parts y (pos 1)))

module _ (limit : ℕ) (wide : 200 < limit) where
  -- A finite bound.
  abbrev pub Within : ℤ → Type 0
  Within v = (Bound.min limit <ℤ v) × (v <ℤ Bound.max limit)

  clamp-Within : (v : ℤ) → Within v → clamp limit v ≡ v
  clamp-Within v h = ground arith

  pub add-Within :
      (v o : ℤ) → Within v → Within o → Within (v +ℤ o) → Bound.add limit v o ≡ done (v +ℤ o)
  add-Within v o hv ho hs =
      (add_saturates limit v o (ground (arith, hv)) (ground (arith, ho)) (ground (arith, hv))
          (ground (arith, ho))
        ∙ ap (λ w. done w) (clamp-Within (v +ℤ o) hs))

  minus_one : Bound.minus_bound limit (pos 1) ≡ negsuc 0
  unfolding Bound.minus_bound negate
  minus_one = ground (arith, wide)

  clamp_pred : (v : ℤ) → Within v → clamp limit (v +ℤ negsuc 0) ≡ v -ℤ pos 1
  unfolding ◌+ℤ◌ ◌-ℤ◌
  clamp_pred v h = ground (arith, wide)

  pub sub_one : (v : ℤ) → Within v → Bound.sub limit v (pos 1) ≡ done (v -ℤ pos 1)
  unfolding Bound.sub
  sub_one v h = rw minus_one (
      add_saturates limit v (negsuc 0) (ground (arith, h)) (ground (arith, wide))
        (ground (arith, h)) (ground (arith, wide))
      ∙ ap (λ w. done w) (clamp_pred v h))

  -- A delimiter that is at most `x` and above `y`, and the choice that leads to it.
  pub record Delimiter (low x y : ℤ) : Type 0 where
    pub choice : ℕ
    pub starts : low ≤ℤ (low +ℤ pos choice)
    pub below : (low +ℤ pos choice) ≤ℤ x
    pub above : y <ℤ (low +ℤ pos choice)
    pub near : (choice ≡ 0) ⊎ ((low +ℤ pos choice) ≡ (y +ℤ pos 1))

  pub delimiter : (low x y : ℤ) → low ≤ℤ x → y <ℤ x → Delimiter low x y
  delimiter low x y h k = elim (Bool-cases (ltb_ℤ y low)) [
    | inl e ↦
        (let p = +ℤ_parts low (pos 0) in
          record {
            choice = 0;
            starts = omega (arith, p);
            below = omega (arith, p, h);
            above = ground (arith, p, e);
            near = inl refl;
          })
    | inr e ↦
        (let n = gap_parts low y (ground (arith, e)) in
          let p = +ℤ_parts y (pos 1) in
          record {
            choice = gap low y;
            starts = rw n (ground (arith, p, e));
            below = rw n (omega (arith, p, k));
            above = rw n (omega (arith, p));
            near = inr n;
          })
  ]
