-- ===== src/Lava/Sign/Soundness.antt =====
-- The forward operations of lava/include/lava/sign.hpp take in every result on integers.
use lart.Common.{◌≡◌, refl, ◌∙◌, Bool, true, false, not}
use lart.Common.Int.{ℤ, ◌+ℤ◌, ◌*ℤ◌, ltb_ℤ, eq_ℤ}
use lart.Lava.Sign.{
  Sign, gtz, nez, BinaryOp, add, mul, eq, ne, sgt, slt, apply, add_lut, mul_lut, eq_lut, ne_lut,
  slt_lut,
}
use lart.Lava.Sign.Meaning.{Class, has, Contains, of_bool}
use lart.Lava.Sign.Classes.{
  add_classes, mul_classes, eq_classes, ne_classes, lt_classes, add_classes_lem, mul_classes_lem,
  eq_classes_lem, ne_classes_lem, lt_classes_lem,
}
use lart.Lava.Sign.Tables.{
  ClassOp, never, table, table_lem, sound_at, sound_at_lem, image, image-intro, exact_at, same_lem,
}

-- The one pair at which the table of `op_add` leaves out a sum.
abbrev pub gtz_nez : Sign → Sign → Bool
gtz_nez gtz nez = true
gtz_nez _ _ = false

pub add_table : table gtz_nez (sound_at add_classes add_lut) ≡ true
unfolding add_lut
add_table = refl

pub mul_table : table never (exact_at mul_classes mul_lut) ≡ true
unfolding mul_lut
mul_table = refl

pub eq_table : table never (exact_at eq_classes eq_lut) ≡ true
unfolding eq_lut
eq_table = refl

pub ne_table : table never (exact_at ne_classes ne_lut) ≡ true
unfolding ne_lut
ne_table = refl

pub lt_table : table never (sound_at lt_classes slt_lut) ≡ true
unfolding slt_lut
lt_table = refl

-- What an operation may yield. For the operations that the domain does not track, anything.
abbrev pub Yields : BinaryOp → ℤ → ℤ → ℤ → Type 0
Yields add x y z = z ≡ x +ℤ y
Yields mul x y z = z ≡ x *ℤ y
Yields eq x y z = z ≡ of_bool (eq_ℤ x y)
Yields ne x y z = z ≡ of_bool (not (eq_ℤ x y))
Yields sgt x y z = z ≡ of_bool (ltb_ℤ y x)
Yields slt x y z = z ≡ of_bool (ltb_ℤ x y)
Yields _ x y z = Unit {0}

abbrev pub skipped : BinaryOp → Sign → Sign → Bool
skipped add a b = gtz_nez a b
skipped _ a b = false

module _ (op : ClassOp) (lut : Sign → Sign → Sign)
    (exact : table never (exact_at op lut) ≡ true) where
  pub has-image : (a b : Sign) (e : Class) → has (lut a b) e ≡ image op a b e
  has-image a b e = same_lem _ _ (table_lem never (exact_at op lut) a b e exact refl)

  exact_sound :
      (a b : Sign) (c d e : Class)
      → has a c ≡ true
      → has b d ≡ true
      → op c d e ≡ true
      → has (lut a b) e ≡ true
  exact_sound a b c d e hc hd he = has-image a b e ∙ image-intro op a b c d e hc hd he

module _ (op : ClassOp) (skip : Sign → Sign → Bool) (lut : Sign → Sign → Sign)
    (sound : table skip (sound_at op lut) ≡ true) where
  skipping_sound :
      (a b : Sign) (c d e : Class)
      → skip a b ≡ false
      → has a c ≡ true
      → has b d ≡ true
      → op c d e ≡ true
      → has (lut a b) e ≡ true
  skipping_sound a b c d e s =
      sound_at_lem op lut a b c d e (table_lem skip (sound_at op lut) a b e sound s)

-- Every integer that an operation may yield on integers of the operands is one of the result, for
-- every operation and all operands but the addition of `nez` to `gtz`.
pub apply_sound :
    (o : BinaryOp) (a b : Sign) (x y z : ℤ)
    → skipped o a b ≡ false
    → Contains a x
    → Contains b y
    → Yields o x y z
    → Contains (apply o a b) z
unfolding apply
apply_sound add a b x y z s hx hy hz =
    rw hz
      (skipping_sound add_classes gtz_nez add_lut add_table a b _ _ _ s hx hy (add_classes_lem x y))
apply_sound mul a b x y z s hx hy hz =
    rw hz (exact_sound mul_classes mul_lut mul_table a b _ _ _ hx hy (mul_classes_lem x y))
apply_sound eq a b x y z s hx hy hz =
    rw hz (exact_sound eq_classes eq_lut eq_table a b _ _ _ hx hy (eq_classes_lem x y))
apply_sound ne a b x y z s hx hy hz =
    rw hz (exact_sound ne_classes ne_lut ne_table a b _ _ _ hx hy (ne_classes_lem x y))
apply_sound sgt a b x y z s hx hy hz =
    rw hz
      (skipping_sound lt_classes never slt_lut lt_table b a _ _ _ refl hy hx (lt_classes_lem y x))
apply_sound slt a b x y z s hx hy hz =
    rw hz
      (skipping_sound lt_classes never slt_lut lt_table a b _ _ _ refl hx hy (lt_classes_lem x y))
apply_sound _ a b x y z s hx hy hz = refl
