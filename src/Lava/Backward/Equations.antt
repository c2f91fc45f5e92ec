-- ===== src/Lava/Backward/Equations.antt =====
-- The backward equation of lava/include/lava/interval.hpp on equal operands.
use lart.Common.{ℕ, ◌+◌, ◌*◌, ◌<◌, ◌≡◌, refl, true, ◌&&◌, done, arith}
use lart.Common.Int.{ℤ, pos, ◌+ℤ◌, ◌-ℤ◌, ◌≤ℤ◌, ◌<ℤ◌, ltb_ℤ, leb_ℤ, +ℤ_parts, -ℤ_parts}
use lart.Lava.Interval.{interval, meet}
use lart.Lava.Backward.{intersect, choose_bound, beq_impl}
use lart.Lava.Backward.Branches.{Keeps}
use lart.Lava.Backward.Addends.{IsSmall, add_small, sub_small}

intersect_self : (l h : ℤ) → l ≤ℤ h → intersect (interval l h) (interval l h) ≡ done (interval l h)
unfolding intersect meet
intersect_self l h p = ground arith

intersect_point :
    (l h v : ℤ) → l ≤ℤ v → v ≤ℤ h → intersect (interval l h) (interval v v) ≡ done (interval v v)
unfolding intersect meet
intersect_point l h v p q = ground arith

module _ (limit : ℕ) (wide : 200 < limit) where
  beq_point :
      (n c : ℕ) (l h : ℤ)
      → IsSmall n l
      → IsSmall n h
      → 400 + 2 * n < limit
      → (h -ℤ l) ≤ℤ choose_bound
      → pos c <ℤ (h -ℤ l)
      → beq_impl limit c (interval l h) (interval l h)
        ≡ done (interval (l +ℤ pos c) (l +ℤ pos c), interval (l +ℤ pos c) (l +ℤ pos c))
  unfolding beq_impl
  beq_point n c l h sl sh w few top =
      let le : l ≤ℤ h = omega (arith, -ℤ_parts h l) in
      let self = intersect_self l h le in
      let size = sub_small limit wide n n h l sh sl (omega arith) in
      let test : (ltb_ℤ (pos 0) (h -ℤ l) && leb_ℤ (h -ℤ l) choose_bound) ≡ true = ground arith in
      let moved =
        add_small limit wide n 200 l (pos c) sl (omega arith, omega arith) (omega arith) in
      let point =
        intersect_point l h (l +ℤ pos c) (omega (arith, +ℤ_parts l (pos c)))
          (omega (arith, +ℤ_parts l (pos c), -ℤ_parts h l)) in
      rw self (rw self (rw size (rw test (rw moved (rw point refl)))))

  -- As written, `beq_impl` on two equal intervals of at most 201 integers, with the bounds at most `n` in
  -- magnitude and twice `n` and 400 below the greatest value of the type: none of the answers that
  -- `__lart_choose` may give keeps the greatest integer of both.
  pub beq_loses :
      (n c : ℕ) (l h : ℤ)
      → IsSmall n l
      → IsSmall n h
      → 400 + 2 * n < limit
      → (h -ℤ l) ≤ℤ choose_bound
      → pos c <ℤ (h -ℤ l)
      → ¬ Keeps limit wide (beq_impl limit c (interval l h) (interval l h)) h h
  beq_loses n c l h sl sh w few top (r, e, ka, kb) =
      let point : r ≡ (interval (l +ℤ pos c) (l +ℤ pos c), interval (l +ℤ pos c) (l +ℤ pos c)) =
        cc (e, beq_point n c l h sl sh w few top) in
      ground (arith, rw point at ka, +ℤ_parts l (pos c), -ℤ_parts h l)
