-- ===== src/Lava/Backward/Addends.antt =====
-- The backward sum of lava/include/lava/interval.hpp keeps every pair of integers whose sum the result holds.
use lart.Common.{
  ℕ, ◌+◌, ◌-◌, ◌*◌, ◌≤◌, ◌<◌, ◌≡◌, inl, inr, refl, sym, ap, ◌∙◌, true, false, Bool-cases, done,
  arith,
}
use lart.Common.Int.{
  ℤ, pos, pos_part, neg_part, ◌+ℤ◌, ◌-ℤ◌, negate, ◌≤ℤ◌, ◌<ℤ◌, leb_ℤ, +ℤ_parts, -ℤ_parts,
}
use lart.Lava.Bound
use lart.Lava.Interval.{
  Interval, interval, includes_bound, greatest, least, meet_low, meet_high, add, eq,
}
use lart.Lava.Interval.Sums.{sub-negate}
use lart.Lava.Tristate.{to_bool}
use lart.Lava.Backward.Operands.{to_correct, badd_low, badd_high, badd}
use lart.Lava.Backward.Separation.{add-Within}
use lart.Lava.Backward.Branches.{Keeps, inside_low, inside_high}

-- An integer whose magnitude is at most `n`.
abbrev pub IsSmall : ℕ → ℤ → Type 0
IsSmall n v = (pos_part v ≤ n + neg_part v) × (neg_part v ≤ n + pos_part v)

-- How far an integer is from a lower one.
distance : ℤ → ℤ → ℕ
distance l x = pos_part x + neg_part l - (pos_part l + neg_part x)

-- An answer that is allowed moves the lower bounds to integers that are at most `x` and `y`.
low_answer :
    (l m r x y : ℤ)
    → l ≤ℤ x
    → m ≤ℤ y
    → r ≤ℤ (x +ℤ y)
    → pos 0 <ℤ (r -ℤ (l +ℤ m))
    → (i : ℕ) × (pos i ≤ℤ (r -ℤ (l +ℤ m)))
      × ((l +ℤ pos i) ≤ℤ x)
      × (((m +ℤ (r -ℤ (l +ℤ m))) -ℤ pos i) ≤ℤ y)
unfolding distance
low_answer l m r x y h k s d =
    let diff = r -ℤ (l +ℤ m) in
    elim (Bool-cases (leb_ℤ (pos (distance l x)) diff)) [
      | inl c ↦
          let i = distance l x in
          (
            i,
            ground arith,
            omega (arith, +ℤ_parts l (pos i)),
            omega (
              arith,
              +ℤ_parts l m,
              -ℤ_parts r (l +ℤ m),
              +ℤ_parts x y,
              +ℤ_parts m diff,
              -ℤ_parts (m +ℤ diff) (pos i),
            ),
          )
      | inr c ↦
          let i = distance (pos 0) diff in
          (
            i,
            omega arith,
            ground (arith, +ℤ_parts l (pos i)),
            omega (
              arith,
              +ℤ_parts l m,
              -ℤ_parts r (l +ℤ m),
              +ℤ_parts x y,
              +ℤ_parts m diff,
              -ℤ_parts (m +ℤ diff) (pos i),
            ),
          )
    ]

high_answer :
    (u v r x y : ℤ)
    → x ≤ℤ u
    → y ≤ℤ v
    → (x +ℤ y) ≤ℤ r
    → pos 0 <ℤ ((u +ℤ v) -ℤ r)
    → (i : ℕ) × (pos i ≤ℤ ((u +ℤ v) -ℤ r))
      × (x ≤ℤ (u -ℤ pos i))
      × (y ≤ℤ ((v -ℤ ((u +ℤ v) -ℤ r)) +ℤ pos i))
unfolding distance
high_answer u v r x y h k s d =
    let diff = (u +ℤ v) -ℤ r in
    elim (Bool-cases (leb_ℤ (pos (distance x u)) diff)) [
      | inl c ↦
          let i = distance x u in
          (
            i,
            ground arith,
            omega (arith, -ℤ_parts u (pos i)),
            omega (
              arith,
              +ℤ_parts u v,
              -ℤ_parts (u +ℤ v) r,
              +ℤ_parts x y,
              -ℤ_parts v diff,
              +ℤ_parts (v -ℤ diff) (pos i),
            ),
          )
      | inr c ↦
          let i = distance (pos 0) diff in
          (
            i,
            omega arith,
            ground (arith, -ℤ_parts u (pos i)),
            omega (
              arith,
              +ℤ_parts u v,
              -ℤ_parts (u +ℤ v) r,
              +ℤ_parts x y,
              -ℤ_parts v diff,
              +ℤ_parts (v -ℤ diff) (pos i),
            ),
          )
    ]

negate_parts : (o : ℤ) → pos_part (negate o) + pos_part o ≡ neg_part (negate o) + neg_part o
unfolding negate
negate_parts o = omega (arith, -ℤ_parts (pos 0) o)

module _ (limit : ℕ) (wide : 200 < limit) where
  pub add_small :
      (n m : ℕ) (v o : ℤ)
      → IsSmall n v
      → IsSmall m o
      → n + m < limit
      → Bound.add limit v o ≡ done (v +ℤ o)
  add_small n m v o (h, h') (k, k') w =
      add-Within limit wide v o (omega arith, omega arith) (omega arith, omega arith)
        (omega (arith, +ℤ_parts v o), omega (arith, +ℤ_parts v o))

  minus_bound_small :
      (m : ℕ) (o : ℤ) → IsSmall m o → m < limit → Bound.minus_bound limit o ≡ negate o
  unfolding Bound.minus_bound
  minus_bound_small m o (k, k') w = ground arith

  pub sub_small :
      (n m : ℕ) (v o : ℤ)
      → IsSmall n v
      → IsSmall m o
      → n + m < limit
      → Bound.sub limit v o ≡ done (v -ℤ o)
  unfolding Bound.sub
  sub_small n m v o h (k, k') w = rw (minus_bound_small m o (k, k') (omega arith)) (
      add_small n m v (negate o) h (omega (arith, negate_parts o), omega (arith, negate_parts o)) w
      ∙ ap (λ (z : ℤ). done z) (sym (sub-negate v o)))

  -- The correction of the lower bounds keeps the pair, for some allowed answer.
  badd_low-Keeps :
      (n : ℕ) (a b : Interval) (r x y : ℤ)
      → IsSmall n a.low
      → IsSmall n b.low
      → IsSmall n r
      → 400 + 4 * n < limit
      → includes_bound a x ≡ true
      → includes_bound b y ≡ true
      → r ≤ℤ (x +ℤ y)
      → (i : ℕ) × (a' : Interval) × (b' : Interval) × (to_correct (r -ℤ (a.low +ℤ b.low)) ≡ true
          → pos i ≤ℤ (r -ℤ (a.low +ℤ b.low)))
        × (badd_low limit i (r -ℤ (a.low +ℤ b.low)) a b ≡ done (a', b'))
        × (includes_bound a' x ≡ true)
        × (includes_bound b' y ≡ true)
        × (a'.high ≡ a.high)
        × (b'.high ≡ b.high)
  unfolding badd_low meet_low
  badd_low-Keeps n a b r x y sa sb sr w ha hb s =
      elim (Bool-cases (to_correct (r -ℤ (a.low +ℤ b.low)))) [
        | inl c ↦
            let (i, top, xa, yb) =
              low_answer a.low b.low r x y (ground (arith, ha)) (ground (arith, hb)) s
                (ground (arith, c)) in
            let diff = r -ℤ (a.low +ℤ b.low) in
            let moved = b.low +ℤ diff in
            let sd : IsSmall 200 diff = ground (arith, c) in
            let si : IsSmall 200 (pos i) = (omega arith, omega arith) in
            let sm : IsSmall (n + 200) moved =
              (omega (arith, +ℤ_parts b.low diff), omega (arith, +ℤ_parts b.low diff)) in
            let e1 = add_small n 200 a.low (pos i) sa si (omega arith) in
            let e2 = add_small n 200 b.low diff sb sd (omega arith) in
            let e3 = sub_small (n + 200) 200 moved (pos i) sm si (omega arith) in
            (
              i,
              interval (greatest a.low (a.low +ℤ pos i)) a.high,
              interval (greatest b.low (moved -ℤ pos i)) b.high,
              (λ t. top),
              rw c (rw e1 (rw e2 (rw e3 refl))),
              inside_low a.low (a.low +ℤ pos i) a.high x (ground (arith, ha)) xa
                  (ground (arith, ha)),
              inside_low b.low (moved -ℤ pos i) b.high y (ground (arith, hb)) yb
                  (ground (arith, hb)),
              refl,
              refl,
            )
        | inr c ↦ (0, a, b, (λ t. absurd (cc (c, t))), rw c refl, ha, hb, refl, refl)
      ]

  badd_high-Keeps :
      (n : ℕ) (a b : Interval) (r x y : ℤ)
      → IsSmall n a.high
      → IsSmall n b.high
      → IsSmall n r
      → 400 + 4 * n < limit
      → includes_bound a x ≡ true
      → includes_bound b y ≡ true
      → (x +ℤ y) ≤ℤ r
      → (i : ℕ) × (a' : Interval) × (b' : Interval) × (to_correct ((a.high +ℤ b.high) -ℤ r) ≡ true
          → pos i ≤ℤ ((a.high +ℤ b.high) -ℤ r))
        × (badd_high limit i ((a.high +ℤ b.high) -ℤ r) a b ≡ done (a', b'))
        × (includes_bound a' x ≡ true)
        × (includes_bound b' y ≡ true)
  unfolding badd_high meet_high
  badd_high-Keeps n a b r x y sa sb sr w ha hb s =
      elim (Bool-cases (to_correct ((a.high +ℤ b.high) -ℤ r))) [
        | inl c ↦
            let (i, top, xa, yb) =
              high_answer a.high b.high r x y (ground (arith, ha)) (ground (arith, hb)) s
                (ground (arith, c)) in
            let diff = (a.high +ℤ b.high) -ℤ r in
            let moved = b.high -ℤ diff in
            let sd : IsSmall 200 diff = ground (arith, c) in
            let si : IsSmall 200 (pos i) = (omega arith, omega arith) in
            let sm : IsSmall (n + 200) moved =
              (omega (arith, -ℤ_parts b.high diff), omega (arith, -ℤ_parts b.high diff)) in
            let e1 = sub_small n 200 a.high (pos i) sa si (omega arith) in
            let e2 = sub_small n 200 b.high diff sb sd (omega arith) in
            let e3 = add_small (n + 200) 200 moved (pos i) sm si (omega arith) in
            (
              i,
              interval a.low (least a.high (a.high -ℤ pos i)),
              interval b.low (least b.high (moved +ℤ pos i)),
              (λ t. top),
              rw c (rw e1 (rw e2 (rw e3 refl))),
              inside_high a.low a.high (a.high -ℤ pos i) x (ground (arith, ha)) (ground (arith, ha))
                  xa,
              inside_high b.low b.high (moved +ℤ pos i) y (ground (arith, hb)) (ground (arith, hb))
                  yb,
            )
        | inr c ↦ (0, a, b, (λ t. absurd (cc (c, t))), rw c refl, ha, hb)
      ]

  -- The same for operands that the first correction has changed.
  badd_high-Keeps_after :
      (n : ℕ) (a b : Interval) (u v r x y : ℤ)
      → a.high ≡ u
      → b.high ≡ v
      → IsSmall n u
      → IsSmall n v
      → IsSmall n r
      → 400 + 4 * n < limit
      → includes_bound a x ≡ true
      → includes_bound b y ≡ true
      → (x +ℤ y) ≤ℤ r
      → (i : ℕ) × (p : Interval × Interval) × (to_correct ((u +ℤ v) -ℤ r) ≡ true
          → pos i ≤ℤ ((u +ℤ v) -ℤ r))
        × (badd_high limit i ((u +ℤ v) -ℤ r) a b ≡ done p)
        × (includes_bound p.0 x ≡ true)
        × (includes_bound p.1 y ≡ true)
  badd_high-Keeps_after n a b u v r x y eu ev su sv sr w ha hb s =
      let (i, a', b', top, e, ka, kb) =
        badd_high-Keeps n a b r x y (rw eu su) (rw ev sv) sr w ha hb s in
      rw (sym eu, sym ev) (i, (a', b'), top, e, ka, kb)

  badd_steps :
      (i j : ℕ) (r a b box a' b' : Interval) (dl dh : ℤ) (p : Interval × Interval)
      → add limit a b ≡ done box
      → to_bool (eq box r) ≡ false
      → Bound.sub limit r.low box.low ≡ done dl
      → Bound.sub limit box.high r.high ≡ done dh
      → badd_low limit i dl a b ≡ done (a', b')
      → badd_high limit j dh a' b' ≡ done p
      → badd limit i j r a b ≡ done p
  unfolding badd
  badd_steps i j r a b box a' b' dl dh p total c d1 d2 e1 e2 =
      rw total (rw c (rw d1 (rw d2 (rw e1 e2))))

  -- Both bounds of an interval are at most `n` in magnitude.
  abbrev pub IsSmallBox : ℕ → Interval → Type 0
  IsSmallBox n a = IsSmall n a.low × IsSmall n a.high

  sum_done :
      (n : ℕ) (a b : Interval)
      → IsSmallBox n a
      → IsSmallBox n b
      → 400 + 4 * n < limit
      → add limit a b ≡ done (interval (a.low +ℤ b.low) (a.high +ℤ b.high))
  unfolding add
  sum_done n a b (al, ah) (bl, bh) w =
      rw (add_small n n a.low b.low al bl (omega arith))
        (rw (add_small n n a.high b.high ah bh (omega arith)) refl)

  -- Narrowing the operands of a sum to its result, `badd_`: every pair of integers of the operands whose sum the result
  -- holds is kept by some answers that are allowed. The bounds of the operands and of the result are
  -- at most `n` in magnitude, with four times `n` and 400 below the greatest value of the type.
  pub badd-Keeps :
      (n : ℕ) (r a b : Interval) (x y : ℤ)
      → 400 + 4 * n < limit
      → IsSmallBox n r
      → IsSmallBox n a
      → IsSmallBox n b
      → includes_bound a x ≡ true
      → includes_bound b y ≡ true
      → includes_bound r (x +ℤ y) ≡ true
      → (i : ℕ) × (j : ℕ) × Keeps limit wide (badd limit i j r a b) x y
        × (to_correct (r.low -ℤ (a.low +ℤ b.low)) ≡ true → pos i ≤ℤ (r.low -ℤ (a.low +ℤ b.low)))
        × (to_correct ((a.high +ℤ b.high) -ℤ r.high) ≡ true
            → pos j ≤ℤ ((a.high +ℤ b.high) -ℤ r.high))
  unfolding badd
  badd-Keeps n r a b x y w (rl, rh) (al, ah) (bl, bh) ha hb hr =
      let box = interval (a.low +ℤ b.low) (a.high +ℤ b.high) in
      let total = sum_done n a b (al, ah) (bl, bh) w in
      let sl : IsSmall (n + n) box.low =
        (omega (arith, +ℤ_parts a.low b.low), omega (arith, +ℤ_parts a.low b.low)) in
      let sh : IsSmall (n + n) box.high =
        (omega (arith, +ℤ_parts a.high b.high), omega (arith, +ℤ_parts a.high b.high)) in
      let d1 = sub_small n (n + n) r.low box.low rl sl (omega arith) in
      let d2 = sub_small (n + n) n box.high r.high sh rh (omega arith) in
      let (i, a1, b1, i_top, e1, ka, kb, ua, ub) =
        badd_low-Keeps n a b r.low x y al bl rl w ha hb (ground (arith, hr)) in
      let (j, p, j_top, e2, ka', kb') =
        badd_high-Keeps_after n a1 b1 a.high b.high r.high x y ua ub ah bh rh w ka kb
          (ground (arith, hr)) in
      elim (Bool-cases (to_bool (eq box r))) [
        | inl c ↦ (i, j, ((a, b), rw total (rw c refl), ha, hb), i_top, j_top)
        | inr c ↦ (
          i,
          j,
          (p, badd_steps i j r a b box a1 b1 _ _ p total c d1 d2 e1 e2, ka', kb'),
          i_top,
          j_top,
        )
      ]
