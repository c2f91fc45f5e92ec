-- ===== src/Lava/Constant/Words.antt =====
-- The machine words that the values of lava/include/lava/constant.hpp stand for.
use lart.Common.{
  ℕ, zero, ◌+◌, ◌-◌, ◌*◌, ◌/◌, ◌%◌, ◌<◌, ◌^◌, ◌≡◌, Bool, true, false, not, ltb, leb, ◌==◌,
}
use lart.Lava.Constant.{BinaryOp, add, sub, mul, udiv, urem, eq, ne, ult, ugt, ule, uge}

pub data Width : Type 0 where
  w8 w16 w32 w64 : Width

abbrev pub bits : Width → ℕ
bits w8 = 8
bits w16 = 16
bits w32 = 32
bits w64 = 64

abbrev pub modulus : Width → ℕ
modulus w8 = 2 ^ 8
modulus w16 = 2 ^ 16
modulus w32 = 2 ^ 32
modulus w64 = 2 ^ 64

-- The word of a value: its lowest bits.
abbrev pub word : Width → ℕ → ℕ
word w v = v % modulus w

abbrev pub number_of : Bool → ℕ
number_of true = 1
number_of false = 0

-- The unsigned operation on words of the modulus `m`. No claim is made of a quotient by 0, and of the
-- operations that are not named.
abbrev pub Machine : ℕ → BinaryOp → ℕ → ℕ → ℕ → Type 0
Machine m add x y z = z ≡ (x + y) % m
Machine m sub x y z = z ≡ (x + m - y) % m
Machine m mul x y z = z ≡ (x * y) % m
Machine m udiv x y z = z ≡ x / y
Machine m urem x y z = z ≡ x % y
Machine m eq x y z = z ≡ number_of (x == y)
Machine m ne x y z = z ≡ number_of (not (x == y))
Machine m ult x y z = z ≡ number_of (ltb x y)
Machine m ugt x y z = z ≡ number_of (ltb y x)
Machine m ule x y z = z ≡ number_of (leb x y)
Machine m uge x y z = z ≡ number_of (leb y x)
Machine m _ x y z = Unit

-- The operations on which the claim is made, at a width and on a second word.
abbrev pub Covered : Width → BinaryOp → ℕ → Type 0
Covered w add y = Unit
Covered w sub y = Unit
Covered w16 mul y = ⊥
Covered w mul y = Unit
Covered w udiv y = zero < y
Covered w urem y = zero < y
Covered w eq y = Unit
Covered w ne y = Unit
Covered w ult y = Unit
Covered w ugt y = Unit
Covered w ule y = Unit
Covered w uge y = Unit
Covered w _ y = ⊥
