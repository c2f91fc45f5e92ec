-- ===== src/Runtime/Shadow/Bytes.antt =====
-- What the loops of runtime/native/shadow.cpp leave in the shadow of each byte.
use lart.Common.{
  ℕ, zero, suc, ◌+◌, ◌^◌, ◌<◌, ◌≤◌, ◌≡◌, refl, ap, ◌∙◌, arith, Bool, true, false, ◌||◌, ◌==◌,
  if◌then◌else◌, none, some, Bool-cases, inl, inr, ◌⊎◌,
}
use lart.Runtime.Shadow.{Memory, byte_at, put, set_byte, set_bytes, erase_bytes}

-- Whether a byte is among those that a loop visits.
abbrev pub covered : ℕ → ℕ → ℕ → ℕ → Bool
covered zero offset addr x = false
covered (suc left) offset addr x = (x == byte_at addr offset) || covered left (suc offset) addr x

pub if-or :
    {A : Type 0} (a b : Bool) (x y : A)
    → (if b then x else if a then x else y) ≡ (if a || b then x else y)
if-or true true x y = refl
if-or true false x y = refl
if-or false true x y = refl
if-or false false x y = refl

set_byte-shadow :
    (label byte x : ℕ) (m : Memory)
    → (set_byte label byte m).shadow x ≡ (if x == byte then some label else m.shadow x)
unfolding set_byte
set_byte-shadow label byte x m = elim (Bool-cases (m.allocated byte)) [
  | inl e ↦ rw e refl
  | inr e ↦ rw e refl
]

set_byte-info : (label byte : ℕ) (m : Memory) → (set_byte label byte m).shadow_info ≡ m.shadow_info
unfolding set_byte
set_byte-info label byte m = elim (Bool-cases (m.allocated byte)) [
  | inl e ↦ rw e refl
  | inr e ↦ rw e refl
]

pub set_bytes-shadow :
    (left offset label addr x : ℕ) (m : Memory)
    → (set_bytes left offset label addr m).shadow x
      ≡ (if covered left offset addr x then some label else m.shadow x)
unfolding set_bytes
set_bytes-shadow zero offset label addr x m = refl
set_bytes-shadow (suc left) offset label addr x m =
    set_bytes-shadow left (suc offset) label addr x (set_byte label (byte_at addr offset) m)
    ∙ rw (set_byte-shadow label (byte_at addr offset) x m) (
        if-or (x == byte_at addr offset) (covered left (suc offset) addr x) (some label)
          (m.shadow x))

pub set_bytes-info :
    (left offset label addr : ℕ) (m : Memory)
    → (set_bytes left offset label addr m).shadow_info ≡ m.shadow_info
unfolding set_bytes
set_bytes-info zero offset label addr m = refl
set_bytes-info (suc left) offset label addr m =
    set_bytes-info left (suc offset) label addr (set_byte label (byte_at addr offset) m)
    ∙ set_byte-info label (byte_at addr offset) m

pub erase_bytes-shadow :
    (left offset addr x : ℕ) (m : Memory)
    → (erase_bytes left offset addr m).shadow x
      ≡ (if covered left offset addr x then none else m.shadow x)
unfolding erase_bytes
erase_bytes-shadow zero offset addr x m = refl
erase_bytes-shadow (suc left) offset addr x m =
    erase_bytes-shadow left (suc offset) addr x
      (record m { shadow = put (byte_at addr offset) none m.shadow })
    ∙ if-or (x == byte_at addr offset) (covered left (suc offset) addr x) none (m.shadow x)

pub erase_bytes-info :
    (left offset addr : ℕ) (m : Memory)
    → (erase_bytes left offset addr m).shadow_info ≡ m.shadow_info
unfolding erase_bytes
erase_bytes-info zero offset addr m = refl
erase_bytes-info (suc left) offset addr m = erase_bytes-info left (suc offset) addr _

or_right : (a b : Bool) → b ≡ true → (a || b) ≡ true
or_right a b h = ground arith

-- A byte of the range is visited.
pub covered_inside :
    (left offset addr i : ℕ)
    → i < left
    → covered left offset addr (byte_at addr (offset + i)) ≡ true
covered_inside zero offset addr i h = absurd (ground arith)
covered_inside (suc left) offset addr zero h =
    let e : byte_at addr (offset + 0) ≡ byte_at addr offset =
      ap (λ i. byte_at addr i) (omega arith) in
    ground (arith, e)
covered_inside (suc left) offset addr (suc i) h =
    let e : byte_at addr (offset + suc i) ≡ byte_at addr (suc offset + i) =
      ap (λ i. byte_at addr i) (omega arith) in
    rw e (or_right _ _ (covered_inside left (suc offset) addr i (omega (arith, h))))

byte_at-in_range : (addr i : ℕ) → addr + i < 2 ^ 64 → byte_at addr i ≡ addr + i
byte_at-in_range addr i h = omega (arith, h)

-- And no other is.
pub covered_outside :
    (left offset addr x : ℕ)
    → addr + (offset + left) ≤ 2 ^ 64
    → ((x < addr + offset) ⊎ (addr + (offset + left) ≤ x))
    → covered left offset addr x ≡ false
covered_outside zero offset addr x h k = refl
covered_outside (suc left) offset addr x h k =
    let rest = covered_outside left (suc offset) addr x (omega (arith, h)) (side k) in
    let e = byte_at-in_range addr offset (omega (arith, h)) in ground (arith, rest, e, h, k)
  where
    side :
        (x < addr + offset) ⊎ (addr + (offset + suc left) ≤ x)
        → (x < addr + suc offset) ⊎ (addr + (suc offset + left) ≤ x)
    side (inl a) = inl (omega (arith, a))
    side (inr b) = inr (omega (arith, b))
