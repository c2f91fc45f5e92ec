-- ===== src/Lava/Backward/Branches.antt =====
-- The branch on a comparison that came out true, in lava/include/lava/interval.hpp.
use lart.Common.{
  ltb, ◌%◌, ◌^◌, ℕ, ◌<◌, ◌≤◌, ◌≡◌, ◌⊎◌, inl, inr, refl, ap, ◌∙◌, arith, true, false, Run, done,
  Bool-cases,
}
use lart.Common.Int.{
  negsuc, ℤ, pos, pos_part, neg_part, eq_of_parts, ◌+ℤ◌, ◌-ℤ◌, ◌≤ℤ◌, ◌<ℤ◌, ltb_ℤ, +ℤ_parts,
  -ℤ_parts,
}
use lart.Lava.Bound
use lart.Lava.Interval.{Interval, interval, is_bottom, meet, includes_bound, least, greatest}
use lart.Lava.Backward.{choose_bound, as_int, choose, answers, signed_size, separate, bgt_tail, bgt}
use lart.Lava.Backward.Separation.{
  exclude_low, exclude_high, intersect_keeps, one_below, Within, add-Within, sub_one, Delimiter,
  delimiter,
}

as_int-small : (v : ℤ) → pos 0 ≤ℤ v → v ≤ℤ pos 201 → as_int v ≡ v
unfolding as_int
as_int-small (pos n) h k =
    let e : n % 2 ^ 32 ≡ n = omega (arith, k) in
    let s : ltb n (2 ^ 31) ≡ true = ground (arith, k) in rw (e, s) refl
as_int-small (negsuc n) h k = absurd (omega (arith, h))

not_empty : (lo hi : ℤ) → is_bottom (interval lo hi) ≡ false → lo ≤ℤ hi
not_empty lo hi h = ground (arith, h)

at_most : (n v : ℤ) → ltb_ℤ n v ≡ false → v ≤ℤ n
at_most n v h = ground arith

pub inside_low :
    (u v h x : ℤ) → u ≤ℤ x → v ≤ℤ x → x ≤ℤ h → includes_bound (interval (greatest u v) h) x ≡ true
inside_low u v h x p q r = ground arith

pub inside_high :
    (l u v y : ℤ) → l ≤ℤ y → y ≤ℤ u → y ≤ℤ v → includes_bound (interval l (least u v)) y ≡ true
inside_high l u v y p q r = ground arith

module _ (limit : ℕ) (wide : 200 < limit) where
  pub record Bounded (i : Interval) : Type 0 where
    pub low_within : Within limit wide i.low
    pub high_within : Within limit wide i.high

  -- What a pair of integers is kept by.
  abbrev pub Keeps : Run (Interval × Interval) → ℤ → ℤ → Type 0
  Keeps result x y =
      (r : Interval × Interval) × (result ≡ done r)
      × (includes_bound r.0 x ≡ true)
      × (includes_bound r.1 y ≡ true)

  size_exact :
      (lo hi : ℤ)
      → (hi -ℤ lo) <ℤ pos limit
      → signed_size limit (interval lo hi) ≡ ((hi -ℤ lo) +ℤ pos 1)
  unfolding signed_size
  size_exact lo hi w =
      let exact : ltb_ℤ (pos limit) ((hi -ℤ lo) +ℤ pos 1) ≡ false =
        ground (arith, w, +ℤ_parts (hi -ℤ lo) (pos 1)) in
      rw exact refl

  answers_exact :
      (lo hi : ℤ)
      → (hi -ℤ lo) <ℤ pos limit
      → signed_size limit (interval lo hi) ≤ℤ pos 200
      → lo ≤ℤ hi
      → answers limit true (interval lo hi) ≡ (((hi -ℤ lo) +ℤ pos 1) +ℤ pos 1)
  unfolding answers
  answers_exact lo hi w s h =
      let size = size_exact lo hi w in
      let few = rw size at s in
      rw size (
        as_int-small (((hi -ℤ lo) +ℤ pos 1) +ℤ pos 1)
          (omega (
            arith,
            h,
            -ℤ_parts hi lo,
            +ℤ_parts (hi -ℤ lo) (pos 1),
            +ℤ_parts ((hi -ℤ lo) +ℤ pos 1) (pos 1),
          ))
          (omega (arith, few, +ℤ_parts ((hi -ℤ lo) +ℤ pos 1) (pos 1))))

  choice_inside :
      (lo hi y : ℤ) (c : ℕ)
      → lo ≤ℤ hi
      → y ≤ℤ hi
      → (c ≡ 0) ⊎ ((lo +ℤ pos c) ≡ (y +ℤ pos 1))
      → pos c <ℤ (((hi -ℤ lo) +ℤ pos 1) +ℤ pos 1)
  choice_inside lo hi y c l h (inl z) = omega (
    arith,
    z,
    l,
    -ℤ_parts hi lo,
    +ℤ_parts (hi -ℤ lo) (pos 1),
    +ℤ_parts ((hi -ℤ lo) +ℤ pos 1) (pos 1),
  )
  choice_inside lo hi y c l h (inr e) = omega (
    arith,
    h,
    -ℤ_parts hi lo,
    +ℤ_parts (hi -ℤ lo) (pos 1),
    +ℤ_parts ((hi -ℤ lo) +ℤ pos 1) (pos 1),
    +ℤ_parts lo (pos c),
    +ℤ_parts y (pos 1),
    ap pos_part e,
    ap neg_part e,
  )

  meet_held :
      (a b : Interval) (x y : ℤ)
      → includes_bound a x ≡ true
      → includes_bound b y ≡ true
      → meet a b ≡ interval (greatest a.low b.low) (least a.high b.high)
  unfolding meet
  meet_held a b x y h k = ground (arith, h, k)

  narrower : (l h l' h' : ℤ) → (h -ℤ l) <ℤ pos limit → l ≤ℤ l' → h' ≤ℤ h → (h' -ℤ l') <ℤ pos limit
  narrower l h l' h' w p q = omega (arith, w, p, q, -ℤ_parts h l, -ℤ_parts h' l')

  overlap :
      (a b : Interval) (x y : ℤ)
      → includes_bound a x ≡ true
      → includes_bound b y ≡ true
      → y <ℤ x
      → (a.high -ℤ a.low) <ℤ pos limit
      → ((least a.high b.high -ℤ greatest a.low b.low) <ℤ pos limit)
        × (y ≤ℤ least a.high b.high)
        × (greatest a.low b.low ≤ℤ x)
  overlap a b x y ha hb k w = (
    narrower a.low a.high (greatest a.low b.low) (least a.high b.high) w (ground arith)
        (ground arith),
    ground (arith, ha, hb, k),
    ground (arith, ha, hb, k),
  )

  -- The choice is one of the answers asked for, of which there are few.
  small_choice :
      (a b : Interval) (x y : ℤ) (c : ℕ)
      → includes_bound a x ≡ true
      → includes_bound b y ≡ true
      → y <ℤ x
      → is_bottom (meet a b) ≡ false
      → (signed_size limit (meet a b) ≤ℤ pos 200)
      → (a.high -ℤ a.low) <ℤ pos limit
      → (c ≡ 0) ⊎ (((meet a b).low +ℤ pos c) ≡ (y +ℤ pos 1))
      → (c ≤ 200) × (choose (answers limit true (meet a b)) c ≡ done c)
  unfolding choose
  small_choice a b x y c ha hb k full s w near =
      let held = meet_held a b x y ha hb in
      let lo = greatest a.low b.low in
      let hi = least a.high b.high in
      let (fits, top, low) = overlap a b x y ha hb k w in
      let few = rw held at s in
      let room : lo ≤ℤ hi = not_empty lo hi (rw held at full) in
      let all = answers_exact lo hi fits few room in
      let size = rw (size_exact lo hi fits) at few in
      let inside = choice_inside lo hi y c room top (rw held at near) in
      let asked : ltb_ℤ (pos c) (((hi -ℤ lo) +ℤ pos 1) +ℤ pos 1) ≡ true = ground (arith, inside) in
      (
        omega (arith, inside, size, +ℤ_parts ((hi -ℤ lo) +ℤ pos 1) (pos 1)),
        rw (held, all, asked) refl,
      )

  within_below :
      (b : Interval) (d y : ℤ)
      → includes_bound b y ≡ true
      → y ≤ℤ (d -ℤ pos 1)
      → includes_bound (interval b.low (d -ℤ pos 1)) y ≡ true
  within_below b d y h k = ground (arith, h, k)

  separate-Keeps :
      (a b : Interval) (x y : ℤ) (d : Delimiter limit wide (meet a b).low x y)
      → Bounded a
      → Bounded b
      → includes_bound a x ≡ true
      → includes_bound b y ≡ true
      → y <ℤ x
      → d.choice ≤ 200
      → choose (answers limit true (meet a b)) d.choice ≡ done d.choice
      → Within limit wide (meet a b).low
      → Keeps (separate limit d.choice true a b) x y
  unfolding separate
  separate-Keeps a b x y d ba bb ha hb k c q m =
      let xa : x ≤ℤ a.high = ground (arith, ha) in
      let delim = (meet a b).low +ℤ pos d.choice in
      let wd : Within limit wide delim =
        (omega (arith, d.starts, m.0), omega (arith, d.below, xa, ba.high_within.1)) in
      let comm : (pos d.choice +ℤ (meet a b).low) ≡ delim = eq_of_parts _ _ (
        omega (
          arith,
          +ℤ_parts (pos d.choice) (meet a b).low,
          +ℤ_parts (meet a b).low (pos d.choice),
        )) in
      let added : Bound.add limit (pos d.choice) (meet a b).low ≡ done delim =
        add-Within limit wide (pos d.choice) (meet a b).low (omega (arith), omega (arith, c, wide))
          m (rw comm wd)
        ∙ ap (λ v. done v) comm in
      let (a', ea, ka) =
        intersect_keeps a (interval delim a.high) x ha (ground (arith, d.below, xa)) in
      let (b', eb, kb) =
        intersect_keeps b (interval b.low (delim -ℤ pos 1)) y hb
          (within_below b delim y hb (one_below delim y d.above)) in
      ((a', b'), rw (q, added, ea, sub_one limit wide delim wd, eb) refl, ka, kb)

  greatest-Within :
      (u v : ℤ) → Within limit wide u → Within limit wide v → Within limit wide (greatest u v)
  greatest-Within u v h k = ground (arith, h, k)

  least-Within :
      (u v : ℤ) → Within limit wide u → Within limit wide v → Within limit wide (least u v)
  least-Within u v h k = ground (arith, h, k)

  tail-Keeps :
      (a b : Interval) (x y : ℤ)
      → Bounded a
      → Bounded b
      → includes_bound a x ≡ true
      → includes_bound b y ≡ true
      → y <ℤ x
      → (a.high -ℤ a.low) <ℤ pos limit
      → (choice : ℕ) × Keeps (bgt_tail limit choice true a b) x y
  unfolding bgt_tail
  tail-Keeps a b x y ba bb ha hb k w = elim (Bool-cases (is_bottom (meet a b))) [
    | inl e ↦ (0, ((a, b), rw e refl, ha, hb))
    | inr e ↦ elim (Bool-cases (ltb_ℤ choose_bound (signed_size limit (meet a b)))) [
      | inl f ↦ (0, ((a, b), rw (e, f) refl, ha, hb))
      | inr f ↦
          (let held = meet_held a b x y ha hb in
            let few : signed_size limit (meet a b) ≤ℤ pos 200 = at_most choose_bound _ f in
            let low : (meet a b).low ≤ℤ x = rw held ((overlap a b x y ha hb k w).2) in
            let d = delimiter limit wide (meet a b).low x y low k in
            let (small, asked) = small_choice a b x y d.choice ha hb k e few w d.near in
            let kept =
              separate-Keeps a b x y d ba bb ha hb k small asked
                (rw held (greatest-Within a.low b.low ba.low_within bb.low_within)) in
            (d.choice, (kept.0, rw (e, f) kept.1, kept.2, kept.3)))
    ]
  ]

  -- Branching on a comparison `a > b` that came out true: for every pair of integers of the operands with the
  -- first greater, one of the answers that the code asks for,
  -- from 0 to the number of integers in the overlap of the operands, keeps the pair. The bounds are finite, and the first operand holds fewer integers
  -- than the greatest one of the type, which is above the bound on choices.
  pub bgt-Keeps :
      (a b : Interval) (x y : ℤ)
      → Bounded a
      → Bounded b
      → includes_bound a x ≡ true
      → includes_bound b y ≡ true
      → y <ℤ x
      → (a.high -ℤ a.low) <ℤ pos limit
      → (choice : ℕ) × Keeps (bgt limit choice true a b) x y
  unfolding bgt
  bgt-Keeps a b x y ba bb ha hb k w =
      rw
        (
          exclude_low a b.low x ha (ground (arith, hb, k)),
          exclude_high b a.high y hb (ground (arith, ha, k)),
        )
        (let p = +ℤ_parts b.low (pos 1) in
          let q = -ℤ_parts a.high (pos 1) in
          let yb : b.low ≤ℤ y = ground (arith, hb) in
          let xa : x ≤ℤ a.high = ground (arith, ha) in
          let ax : a.low ≤ℤ x = ground (arith, ha) in
          let by : y ≤ℤ b.high = ground (arith, hb) in
          let next : Within limit wide (b.low +ℤ pos 1) =
            (omega (arith, p, bb.low_within.0), omega (arith, p, yb, k, xa, ba.high_within.1)) in
          let last : Within limit wide (a.high -ℤ pos 1) =
            (omega (arith, q, yb, k, xa, bb.low_within.0), omega (arith, q, ba.high_within.1)) in
          tail-Keeps (interval (greatest a.low (b.low +ℤ pos 1)) a.high)
            (interval b.low (least b.high (a.high -ℤ pos 1))) x y
            (record {
              low_within = greatest-Within a.low (b.low +ℤ pos 1) ba.low_within next;
              high_within = ba.high_within;
            })
            (record {
              low_within = bb.low_within;
              high_within = least-Within b.high (a.high -ℤ pos 1) bb.high_within last;
            })
            (inside_low a.low (b.low +ℤ pos 1) a.high x ax (omega (arith, p, yb, k)) xa)
            (inside_high b.low b.high (a.high -ℤ pos 1) y yb by (omega (arith, q, k, xa))) k
            (narrower a.low a.high (greatest a.low (b.low +ℤ pos 1)) a.high w (ground arith)
              (ground arith)))
