-- ===== src/Lava/Sign/Tables.antt =====
-- Checking the tables of lava/include/lava/sign.hpp entry by entry: a test that evaluates to `true`
-- over all signs and all classes gives the statement about every entry.
use lart.Common.{◌≡◌, Bool, true, false, ◌&&◌, ◌||◌, not, inl, inr, Bool-cases, arith}
use lart.Lava.Sign.{Sign, bot, ltz, gtz, eqz, nez, gez, lez, top}
use lart.Lava.Sign.Meaning.{Class, minus, nought, plus, has}

abbrev pub all_signs : (Sign → Bool) → Bool
all_signs p = p bot && (p ltz && (p gtz && (p eqz && (p nez && (p gez && (p lez && p top))))))

abbrev pub all_classes : (Class → Bool) → Bool
all_classes p = p minus && (p nought && p plus)

abbrev pub any_class : (Class → Bool) → Bool
any_class p = p minus || (p nought || p plus)

pub all_signs_lem : (p : Sign → Bool) (s : Sign) → all_signs p ≡ true → p s ≡ true
all_signs_lem p s h = ground arith

pub all_classes_lem : (p : Class → Bool) (c : Class) → all_classes p ≡ true → p c ≡ true
all_classes_lem p c h = ground arith

-- Which classes a result may have, given those of the operands.
abbrev pub ClassOp : Type 0
ClassOp = Class → Class → Class → Bool

abbrev pub implies : Bool → Bool → Bool
implies a b = not a || b

abbrev pub same : Bool → Bool → Bool
same true y = y
same false y = not y

pub same_lem : (a b : Bool) → same a b ≡ true → a ≡ b
same_lem a b h = ground arith

or_right : (a b : Bool) → (a || b) ≡ true → a ≡ false → b ≡ true
or_right a b h e = ground arith

modus_ponens :
    (a b c r : Bool) → implies (a && (b && c)) r ≡ true → a ≡ true → b ≡ true → c ≡ true → r ≡ true
modus_ponens a b c r h ha hb hc = ground arith

-- A test of each entry that is not skipped, at each class.
module _ (skip : Sign → Sign → Bool) (p : Sign → Sign → Class → Bool) where
  abbrev cell : Sign → Sign → Bool
  cell a b = skip a b || all_classes (p a b)

  abbrev line : Sign → Bool
  line a = all_signs (cell a)

  abbrev pub table : Bool
  table = all_signs line

  pub table_lem : (a b : Sign) (e : Class) → table ≡ true → skip a b ≡ false → p a b e ≡ true
  table_lem a b e h s =
      all_classes_lem (p a b) e
        (or_right (skip a b) _ (all_signs_lem (cell a) b (all_signs_lem line a h)) s)

-- The class `e` belongs to the set that the operation reaches.
abbrev pub image : ClassOp → Sign → Sign → Class → Bool
image op a b e = any_class λ c. any_class λ d. has a c && (has b d && op c d e)

pub image-intro :
    (op : ClassOp) (a b : Sign) (c d e : Class)
    → has a c ≡ true
    → has b d ≡ true
    → op c d e ≡ true
    → image op a b e ≡ true
image-intro op a b c d e hc hd he = ground arith

any_class-elim : (p : Class → Bool) → any_class p ≡ true → (c : Class) × (p c ≡ true)
any_class-elim p h = elim (Bool-cases (p minus)) [
  | inl e ↦ (minus, e)
  | inr e ↦ elim (Bool-cases (p nought)) [ inl f ↦ (nought, f) | inr f ↦ (plus, ground arith) ]
]

pub image-elim :
    (op : ClassOp) (a b : Sign) (e : Class)
    → image op a b e ≡ true
    → (c : Class) × (d : Class) × (has a c ≡ true) × (has b d ≡ true) × (op c d e ≡ true)
image-elim op a b e h =
    let (c, hc) = any_class-elim (λ c. any_class λ d. has a c && (has b d && op c d e)) h in
    let (d, hd) = any_class-elim (λ d. has a c && (has b d && op c d e)) hc in
    (c, d, ground arith, ground arith, ground arith)

module _ (op : ClassOp) (lut : Sign → Sign → Sign) where
  -- The entry takes in the class `e` if the operation reaches it.
  abbrev sound_from : Sign → Sign → Class → Class → Class → Bool
  sound_from a b e c d = implies (has a c && (has b d && op c d e)) (has (lut a b) e)

  abbrev sound_left : Sign → Sign → Class → Class → Bool
  sound_left a b e c = all_classes (sound_from a b e c)

  abbrev pub sound_at : Sign → Sign → Class → Bool
  sound_at a b e = all_classes (sound_left a b e)

  -- The entry is exactly that set.
  abbrev pub exact_at : Sign → Sign → Class → Bool
  exact_at a b e = same (has (lut a b) e) (image op a b e)

  pub sound_at_lem :
      (a b : Sign) (c d e : Class)
      → sound_at a b e ≡ true
      → has a c ≡ true
      → has b d ≡ true
      → op c d e ≡ true
      → has (lut a b) e ≡ true
  sound_at_lem a b c d e h hc hd he =
      modus_ponens (has a c) (has b d) (op c d e) _
        (all_classes_lem (sound_from a b e c) d (all_classes_lem (sound_left a b e) c h)) hc hd he

-- The entry is the given operation on the two sets.
abbrev pub pointwise_at : (Bool → Bool → Bool) → (Sign → Sign → Sign) → Sign → Sign → Class → Bool
pointwise_at op lut a b c = same (has (lut a b) c) (op (has a c) (has b c))

-- No entry is skipped.
abbrev pub never : Sign → Sign → Bool
never a b = false
