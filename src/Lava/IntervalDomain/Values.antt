-- ===== src/Lava/IntervalDomain/Values.antt =====
-- What the constructors of lava/include/lava/interval.hpp hold, and what `lower` chooses from.
use mathlib.Core.List.Memᴰ
use lart.Common.{
  ℕ, ◌+◌, ◌-◌, ◌≡◌, ◌⊎◌, ◌↔◌, inl, inr, refl, ◌∙◌, true, false, List, [], ◌∷◌, Memᴰ, done, arith,
}
use lart.Common.Int.{
  ℤ, pos, pos_part, neg_part, ◌+ℤ◌, ◌-ℤ◌, ◌<ℤ◌, ◌≤ℤ◌, +ℤ_parts, -ℤ_parts, eq_of_parts,
}
use lart.Lava.Interval.{Interval, interval, is_bottom, includes_bound, join}
use lart.Lava.IntervalDomain.{lower, join_all, any_of, of_interval}

module _ (i : Interval) (x : ℤ) where
  lower_inside :
      (c : ℕ) → pos c <ℤ ((i.high -ℤ i.low) +ℤ pos 1) → lower c i ≡ x → includes_bound i x ≡ true
  unfolding lower
  lower_inside c h e = rw (← e) (
      ground
        (arith, +ℤ_parts i.low (pos c), -ℤ_parts i.high i.low, +ℤ_parts (i.high -ℤ i.low) (pos 1)))

  offset : ℕ
  offset = pos_part x + neg_part i.low - (pos_part i.low + neg_part x)

  -- `lower` selects just the integers of an interval, when the answer is below the number of them.
  pub lower_exact :
      (includes_bound i x ≡ true)
      ↔ ((c : ℕ) × (pos c <ℤ ((i.high -ℤ i.low) +ℤ pos 1)) × (lower c i ≡ x))
  unfolding lower offset
  lower_exact = (
    (λ h.
        let above : i.low ≤ℤ x = ground (arith, h) in
        let below : x ≤ℤ i.high = ground (arith, h) in
        (
          offset,
          omega (arith, -ℤ_parts i.high i.low, +ℤ_parts (i.high -ℤ i.low) (pos 1)),
          eq_of_parts _ _ (omega (arith, +ℤ_parts i.low (pos offset))),
        )),
    λ (c, h, e). lower_inside c h e,
  )

module _ (res : Interval) (v : ℤ) (full : is_bottom res ≡ false) where
  grown_full : is_bottom (join res (interval v v)) ≡ false
  unfolding join
  grown_full = ground (arith, full)

  grown_new : includes_bound (join res (interval v v)) v ≡ true
  unfolding join
  grown_new = ground (arith, full)

  grown_old :
      (x : ℤ) → includes_bound res x ≡ true → includes_bound (join res (interval v v)) x ≡ true
  unfolding join
  grown_old x h = ground (arith, full, h)

  grown_low : ((join res (interval v v)).low ≡ res.low) ⊎ ((join res (interval v v)).low ≡ v)
  unfolding join
  grown_low = ground (arith, full)

  grown_high : ((join res (interval v v)).high ≡ res.high) ⊎ ((join res (interval v v)).high ≡ v)
  unfolding join
  grown_high = ground (arith, full)

-- The join of an interval and a list of integers.
record Hull (res : Interval) (vs : List ℤ) (r : Interval) : Type 0 where
  full : is_bottom r ≡ false
  kept : (x : ℤ) → includes_bound res x ≡ true → includes_bound r x ≡ true
  listed : (w : ℤ) → Memᴰ w vs → includes_bound r w ≡ true
  low_from : (r.low ≡ res.low) ⊎ Memᴰ r.low vs
  high_from : (r.high ≡ res.high) ⊎ Memᴰ r.high vs

join_all-Hull :
    (vs : List ℤ) (res : Interval) → is_bottom res ≡ false → Hull res vs (join_all res vs)
unfolding join_all
join_all-Hull [] res h = record {
  full = h;
  kept = λ x k. k;
  listed = λ w m. absurd (Memᴰ.not-nil m);
  low_from = inl refl;
  high_from = inl refl;
}
join_all-Hull (v ∷ vs) res h =
    let next = join res (interval v v) in
    let hull = join_all-Hull vs next (grown_full res v h) in
    record {
      full = hull.full;
      kept = λ x k. hull.kept x (grown_old res v h x k);
      listed = λ w m. elim (Memᴰ.cases_cons m) [
        | inl e ↦ hull.kept w (rw e (grown_new res v h))
        | inr n ↦ hull.listed w n
      ];
      low_from = elim hull.low_from [
        | inl e ↦ elim (grown_low res v h) [ inl d ↦ inl (e ∙ d) | inr d ↦ inr (Memᴰ.head (e ∙ d)) ]
        | inr m ↦ inr (Memᴰ.tail m)
      ];
      high_from = elim hull.high_from [
        | inl e ↦ elim (grown_high res v h) [
          | inl d ↦ inl (e ∙ d)
          | inr d ↦ inr (Memᴰ.head (e ∙ d))
        ]
        | inr m ↦ inr (Memᴰ.tail m)
      ];
    }

-- `any` of a list of arguments that is not empty ends in the least interval that holds them: it holds each,
-- and its bounds are among them.
pub any_of_holds :
    (v : ℤ) (vs : List ℤ)
    → (r : Interval) × (any_of (v ∷ vs) ≡ done r)
      × ((w : ℤ) → Memᴰ w (v ∷ vs) → includes_bound r w ≡ true)
      × Memᴰ r.low (v ∷ vs)
      × Memᴰ r.high (v ∷ vs)
unfolding any_of of_interval join_all join
any_of_holds v vs =
    let one : is_bottom (interval v v) ≡ false = ground arith in
    let hull = join_all-Hull vs (interval v v) one in
    (
      join_all (interval v v) vs,
      rw hull.full refl,
      (λ w m. elim (Memᴰ.cases_cons m) [
        | inl e ↦ hull.kept w (rw e (ground arith))
        | inr n ↦ hull.listed w n
      ]),
      elim hull.low_from [ inl e ↦ Memᴰ.head e | inr m ↦ Memᴰ.tail m ],
      elim hull.high_from [ inl e ↦ Memᴰ.head e | inr m ↦ Memᴰ.tail m ],
    )
