-- ===== src/Lava/Sign/Exact.antt =====
-- Operations of lava/include/lava/sign.hpp whose results have nothing to spare.
use lart.Common.{◌≡◌, sym, ◌∙◌, if◌then◌else◌, Bool, true, false, not, arith}
use lart.Common.Int.{ℤ, pos, negsuc, ◌*ℤ◌, ◌≤ℤ◌, eq_ℤ}
use lart.Lava.Sign.{Sign, mul, eq, ne, apply, mul_lut, eq_lut, ne_lut, lift, any}
use lart.Lava.Sign.Meaning.{Class, minus, nought, plus, has, class, contains, Contains, of_bool}
use lart.Lava.Sign.Classes.{is_class, mul_classes, eq_classes}
use lart.Lava.Sign.Soundness.{has-image, mul_table, eq_table}
use lart.Lava.Sign.Tables.{image-elim}

representative : Class → ℤ
representative minus = negsuc 0
representative nought = pos 0
representative plus = pos 1

-- A second integer of each class that has two.
another : Class → ℤ
another minus = negsuc 1
another nought = pos 0
another plus = pos 2

representative-Contains : (a : Sign) (c : Class) → has a c ≡ true → Contains a (representative c)
unfolding representative
representative-Contains a c h = ground arith

another-Contains : (a : Sign) (c : Class) → has a c ≡ true → Contains a (another c)
unfolding another
another-Contains a c h = ground arith

class-representative :
    (c d e : Class) → mul_classes c d e ≡ true → class (representative c *ℤ representative d) ≡ e
unfolding representative ◌*ℤ◌
class-representative c d e h = ground arith

-- The product of two signs has no integer to spare: each is of one sign with the product of two
-- integers of the operands.
pub mul_exact :
    (a b : Sign) (z : ℤ)
    → Contains (apply mul a b) z
    → (x : ℤ) × (y : ℤ) × Contains a x × Contains b y × (class (x *ℤ y) ≡ class z)
unfolding apply
mul_exact a b z h =
    let reached = sym (has-image mul_classes mul_lut mul_table a b (class z)) ∙ h in
    let (c, d, hc, hd, hop) = image-elim mul_classes a b (class z) reached in
    (
      representative c,
      representative d,
      representative-Contains a c hc,
      representative-Contains b d hd,
      class-representative c d (class z) hop,
    )

-- Two integers of given classes whose comparison for equality comes out as `t`, if there are any.
eq_witness :
    (c d : Class) (t : Bool)
    → eq_classes c d (class (of_bool t)) ≡ true
    → eq_ℤ (representative c) (if t then representative d else another d) ≡ t
unfolding representative another
eq_witness c d t h = ground arith

either-Contains :
    (a : Sign) (c : Class) (t : Bool)
    → has a c ≡ true
    → Contains a (if t then representative c else another c)
either-Contains a c true h = representative-Contains a c h
either-Contains a c false h = another-Contains a c h

-- The result of `op_eq` holds a truth value exactly if it is that of a comparison of two integers of
-- the operands; `op_ne` holds it exactly if its negation is.
eq_exact :
    (a b : Sign) (t : Bool)
    → (Contains (apply eq a b) (of_bool t)
        → (x : ℤ) × (y : ℤ) × Contains a x × Contains b y × (eq_ℤ x y ≡ t))
      × (contains (apply ne a b) (of_bool (not t)) ≡ contains (apply eq a b) (of_bool t))
unfolding apply
eq_exact a b t = (
  λ h.
      let reached = sym (has-image eq_classes eq_lut eq_table a b _) ∙ h in
      let (c, d, hc, hd, hop) = image-elim eq_classes a b (class (of_bool t)) reached in
      (
        representative c,
        (if t then representative d else another d),
        representative-Contains a c hc,
        either-Contains b d t hd,
        eq_witness c d t hop,
      ),
  unfold eq_lut ne_lut in ground arith,
)

-- `lift` yields a sign that holds the integer lifted, and only integers of its class.
lift_exact : (v x : ℤ) → contains (lift v) x ≡ is_class (class v) (class x)
unfolding lift
lift_exact v x = ground arith

-- An integer of the range from `from` to `to` that is of the class `c`, if there is one.
in_range : (from to : ℤ) → Class → ℤ
in_range from to minus = from
in_range from to nought = pos 0
in_range from to plus = to

-- `any( from, to )` holds every integer of the range, and only integers of the sign of one of them.
any_exact :
    (from to x : ℤ)
    → (from ≤ℤ x → x ≤ℤ to → Contains (any from to) x)
      × (Contains (any from to) x → (y : ℤ) × (from ≤ℤ y) × (y ≤ℤ to) × (class y ≡ class x))
unfolding any in_range
any_exact from to x = (
  λ h k. ground arith,
  λ h. (in_range from to (class x), ground arith, ground arith, ground arith),
)
