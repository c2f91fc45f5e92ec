-- ===== src/Lava/Zero/Words.antt =====
-- The machine words that a value of lava/include/lava/zero.hpp stands for, and the operations on them.
-- A word is a number below the modulus `m`, 2 to the power of the width.
use lart.Common.{ℕ, ◌+◌, ◌-◌, ◌*◌, ◌/◌, ◌%◌, ◌^◌, ◌≡◌, Bool, true, false, not, ltb, leb, ◌==◌}
use lart.Lava.Zero.{
  Zero, zero, nonzero, unknown, bottom, BinaryOp, add, sub, udiv, urem, shl, lshr, eq, ne, ugt, uge,
  ult, ule,
}

abbrev pub contains : Zero → ℕ → Bool
contains zero n = n == 0
contains nonzero n = not (n == 0)
contains unknown n = true
contains bottom n = false

abbrev pub Contains : Zero → ℕ → Type 0
Contains z n = contains z n ≡ true

abbrev pub of_bool : Bool → ℕ
of_bool true = 1
of_bool false = 0

-- What the machine's unsigned operation yields; no claim is made of the others.
abbrev pub Yields : ℕ → BinaryOp → ℕ → ℕ → ℕ → Type 0
Yields m add x y z = z ≡ (x + y) % m
Yields m sub x y z = z ≡ (x + m - y) % m
Yields m udiv x y z = z ≡ x / y
Yields m urem x y z = z ≡ x % y
Yields m shl x y z = z ≡ (x * 2 ^ y) % m
Yields m lshr x y z = z ≡ x / 2 ^ y
Yields m eq x y z = z ≡ of_bool (x == y)
Yields m ne x y z = z ≡ of_bool (not (x == y))
Yields m ugt x y z = z ≡ of_bool (ltb y x)
Yields m uge x y z = z ≡ of_bool (leb y x)
Yields m ult x y z = z ≡ of_bool (ltb x y)
Yields m ule x y z = z ≡ of_bool (leb x y)
Yields m _ x y z = ⊥
