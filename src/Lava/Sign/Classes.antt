-- ===== src/Lava/Sign/Classes.antt =====
-- The operations of lava/include/lava/sign.hpp on classes of integers: which class a sum, a product and
-- a comparison may have, given the classes of the operands.
use lart.Common.{ℕ, zero, suc, ◌+◌, ◌*◌, ◌≡◌, Bool, true, false, ◌&&◌, not, arith}
use lart.Common.Int.{ℤ, pos, negsuc, ◌+ℤ◌, ◌*ℤ◌, ltb_ℤ, eq_ℤ}
use lart.Lava.Sign.Meaning.{Class, minus, nought, plus, class, of_bool}
use lart.Lava.Sign.Tables.{ClassOp}

abbrev pub is_class : Class → Class → Bool
is_class minus minus = true
is_class nought nought = true
is_class plus plus = true
is_class _ _ = false

abbrev pub add_classes : ClassOp
add_classes minus plus e = true
add_classes plus minus e = true
add_classes nought d e = is_class d e
add_classes minus _ e = is_class minus e
add_classes plus _ e = is_class plus e

abbrev pub mul_class : Class → Class → Class
mul_class nought d = nought
mul_class c nought = nought
mul_class minus minus = plus
mul_class plus plus = plus
mul_class _ _ = minus

abbrev pub mul_classes : ClassOp
mul_classes c d e = is_class (mul_class c d) e

-- A truth value is stored as 0 or 1.
abbrev pub eq_classes : ClassOp
eq_classes c d minus = false
eq_classes c d nought = not (is_class c d && is_class c nought)
eq_classes c d plus = is_class c d

abbrev pub ne_classes : ClassOp
ne_classes c d minus = false
ne_classes c d nought = eq_classes c d plus
ne_classes c d plus = eq_classes c d nought

abbrev pub lt_classes : ClassOp
lt_classes c d minus = false
lt_classes c nought nought = not (is_class c minus)
lt_classes c nought plus = is_class c minus
lt_classes c plus nought = is_class c plus
lt_classes c plus plus = true
lt_classes c minus nought = true
lt_classes c minus plus = is_class c minus

pub add_classes_lem : (x y : ℤ) → add_classes (class x) (class y) (class (x +ℤ y)) ≡ true
unfolding ◌+ℤ◌
add_classes_lem x y = ground arith

mul-suc-suc : (a b : ℕ) → suc a * suc b ≡ suc (a * b + a + b)
mul-suc-suc a b = omega arith

pub mul_classes_lem : (x y : ℤ) → mul_classes (class x) (class y) (class (x *ℤ y)) ≡ true
unfolding ◌*ℤ◌
mul_classes_lem (pos zero) y = ground arith
mul_classes_lem (negsuc a) (pos zero) = ground arith
mul_classes_lem (pos (suc a)) (pos zero) = ground arith
mul_classes_lem (pos (suc a)) (pos (suc b)) = rw (mul-suc-suc a b)
mul_classes_lem (pos (suc a)) (negsuc b) = rw (mul-suc-suc a b) (ground arith)
mul_classes_lem (negsuc a) (pos (suc b)) = rw (mul-suc-suc a b) (ground arith)
mul_classes_lem (negsuc a) (negsuc b) = rw (mul-suc-suc a b)

pub eq_classes_lem : (x y : ℤ) → eq_classes (class x) (class y) (class (of_bool (eq_ℤ x y))) ≡ true
eq_classes_lem x y = ground arith

pub ne_classes_lem :
    (x y : ℤ) → ne_classes (class x) (class y) (class (of_bool (not (eq_ℤ x y)))) ≡ true
ne_classes_lem x y = ground arith

pub lt_classes_lem : (x y : ℤ) → lt_classes (class x) (class y) (class (of_bool (ltb_ℤ x y))) ≡ true
lt_classes_lem x y = ground arith
