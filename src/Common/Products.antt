-- ===== src/Common/Products.antt =====
-- Products of integers and the order: multiplication by a factor of known sign, and the corners of a box.
use native.Mathlib.Nat.{mul-le-mul_right}
use lart.Common.{suc, zero, ◌+◌, ◌*◌, ◌≡◌, ◌⊎◌, inl, inr, arith}
use lart.Common.Int.{ℤ, pos, negsuc, ◌*ℤ◌, ◌≤ℤ◌, eq_of_parts, pos_part, neg_part}

-- The parts of a product, in a form that arithmetic reads.
pub *ℤ_parts :
    (a b : ℤ)
    → pos_part (a *ℤ b) + (pos_part a * neg_part b + neg_part a * pos_part b)
      ≡ neg_part (a *ℤ b) + (pos_part a * pos_part b + neg_part a * neg_part b)
unfolding ◌*ℤ◌
*ℤ_parts (pos a) (pos b) = omega arith
*ℤ_parts (pos a) (negsuc b) = ground arith
*ℤ_parts (negsuc a) (pos b) = ground arith
*ℤ_parts (negsuc a) (negsuc b) = omega arith

pub *ℤ_comm : (a b : ℤ) → a *ℤ b ≡ b *ℤ a
*ℤ_comm a b = omega (arith, eq_of_parts, *ℤ_parts a b, *ℤ_parts b a)

pub *ℤ_mono : (a b c : ℤ) → a ≤ℤ b → pos 0 ≤ℤ c → a *ℤ c ≤ℤ b *ℤ c
*ℤ_mono a b (pos c) h k =
    omega (arith, *ℤ_parts a (pos c), *ℤ_parts b (pos c), mul-le-mul_right c h)
*ℤ_mono a b (negsuc c) h k = absurd (omega arith)

pub *ℤ_anti : (a b c : ℤ) → a ≤ℤ b → c ≤ℤ pos 0 → b *ℤ c ≤ℤ a *ℤ c
*ℤ_anti a b (pos zero) h k = omega (arith, *ℤ_parts a (pos 0), *ℤ_parts b (pos 0))
*ℤ_anti a b (pos (suc c)) h k = absurd (omega arith)
*ℤ_anti a b (negsuc c) h k =
    omega (arith, *ℤ_parts a (negsuc c), *ℤ_parts b (negsuc c), mul-le-mul_right (suc c) h)

≤ℤ_trans : (a b c : ℤ) → a ≤ℤ b → b ≤ℤ c → a ≤ℤ c
≤ℤ_trans a b c h k = omega arith

-- A product with one factor from a range is between the products with the ends of the range.
between :
    (a b x y : ℤ)
    → a ≤ℤ x
    → x ≤ℤ b
    → ((a *ℤ y ≤ℤ x *ℤ y) × (x *ℤ y ≤ℤ b *ℤ y)) ⊎ ((b *ℤ y ≤ℤ x *ℤ y) × (x *ℤ y ≤ℤ a *ℤ y))
between a b x (pos n) h k =
    inl (*ℤ_mono a x (pos n) h (omega arith), *ℤ_mono x b (pos n) k (omega arith))
between a b x (negsuc n) h k =
    inr (*ℤ_anti x b (negsuc n) k (omega arith), *ℤ_anti a x (negsuc n) h (omega arith))

between_right :
    (a c d y : ℤ)
    → c ≤ℤ y
    → y ≤ℤ d
    → ((a *ℤ c ≤ℤ a *ℤ y) × (a *ℤ y ≤ℤ a *ℤ d)) ⊎ ((a *ℤ d ≤ℤ a *ℤ y) × (a *ℤ y ≤ℤ a *ℤ c))
between_right a c d y h k = rw (*ℤ_comm a c, *ℤ_comm a d, *ℤ_comm a y) (between c d y a h k)

-- The product of two integers of a box is at least one of the four corners, and at most one of them.
module _ (a b c d x y : ℤ) (ax : a ≤ℤ x) (xb : x ≤ℤ b) (cy : c ≤ℤ y) (yd : y ≤ℤ d) where
  pub corners_low :
      (l : ℤ) → (l ≤ℤ a *ℤ c) × (l ≤ℤ a *ℤ d) × (l ≤ℤ b *ℤ c) × (l ≤ℤ b *ℤ d) → l ≤ℤ x *ℤ y
  corners_low l lo =
      omega (arith, between a b x y ax xb, between_right a c d y cy yd, between_right b c d y cy yd)

  pub corners_high :
      (u : ℤ) → (a *ℤ c ≤ℤ u) × (a *ℤ d ≤ℤ u) × (b *ℤ c ≤ℤ u) × (b *ℤ d ≤ℤ u) → x *ℤ y ≤ℤ u
  corners_high u hi =
      omega (arith, between a b x y ax xb, between_right a c d y cy yd, between_right b c d y cy yd)
