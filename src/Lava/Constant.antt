-- ===== src/Lava/Constant.antt =====
-- lava/include/lava/constant.hpp: concrete numbers as an abstract domain, with `call` of
-- lava/include/lava/support/base.hpp, which computes in the C++ type of the operands' width.
-- A type narrower than 32 bits is promoted to `int`.
use lart.Common.{
  ℕ, suc, zero, ◌+◌, ◌-◌, ◌*◌, ◌/◌, ◌%◌, ◌^◌, Bool, true, false, not, ◌&&◌, ◌||◌, ltb, leb, ◌==◌,
  if◌then◌else◌, Run, done, cancelled, undefined, ◌>>=◌,
}
use lart.Common.Int.{ℤ, pos, negsuc, ◌+ℤ◌, ◌-ℤ◌, ◌*ℤ◌, ◌/ℤ◌, ◌%ℤ◌, ltb_ℤ, leb_ℤ, eq_ℤ}
use lart.Lava.Tristate.{Tristate, false_value, true_value}
use Prim.Native.Nat.{bit_and, bit_or, bit_xor}
pub mod Words
pub mod Soundness
pub mod Values
mod Tests

pub data Ty : Type 0 where
  bv fp ptr : Ty

pub record Constant : Type 0 where
  pub value : ℕ
  pub ty : Ty
  pub bw : ℕ

pub data BinaryOp : Type 0 where
  add sub mul sdiv udiv srem urem and or xor eq ne ult ugt ule uge slt sgt sle sge : BinaryOp

-- The signedness of `wts` and `wtu`.
abbrev pub is_signed : BinaryOp → Bool
is_signed sdiv = true
is_signed srem = true
is_signed slt = true
is_signed sgt = true
is_signed sle = true
is_signed sge = true
is_signed _ = false

-- `number< s, w >`.
abbrev pub is_number : ℕ → Bool
is_number bw = bw == 1 || bw == 8 || bw == 16 || bw == 32 || bw == 64

abbrev pub to_signed : ℕ → ℕ → ℤ
to_signed bw n = if ltb n (2 ^ (bw - 1)) then pos n else negsuc (2 ^ bw - 1 - n)

-- `cast< s, w >` of a `uint64_t`; a number of width 1 is a `bool`.
abbrev pub cast : Bool → ℕ → ℕ → ℤ
cast signedness bw v =
    if bw == 1
    then pos (if v == 0 then 0 else 1)
    else if signedness
    then to_signed bw (v % 2 ^ bw)
    else pos (v % 2 ^ bw)

abbrev pub of_bool : Bool → ℤ
of_bool true = pos 1
of_bool false = pos 0

abbrev pub wrap : ℕ → ℤ → ℕ
wrap w (pos n) = n % 2 ^ w
wrap w (negsuc n) = 2 ^ w - 1 - n % 2 ^ w

-- A signed type of `w` bits has no room for a number outside its range.
abbrev pub fit : ℕ → ℤ → Run ℤ
fit w (pos n) = if ltb n (2 ^ (w - 1)) then done (pos n) else undefined
fit w (negsuc n) = if ltb n (2 ^ (w - 1)) then done (negsuc n) else undefined

-- The result in the type that C++ computes in.
abbrev pub typed : Bool → ℕ → ℤ → Run ℤ
typed signedness bw r =
    if ltb bw 32 then fit 32 r else if signedness then fit bw r else done (pos (wrap bw r))

-- The operation on the numbers; dividing by zero is undefined, and so is a remainder whose quotient has no room. The bitwise operations are only used on
-- unsigned numbers.
abbrev pub operate : ℕ → BinaryOp → ℤ → ℤ → Run ℤ
operate bw add a b = done (a +ℤ b)
operate bw sub a b = done (a -ℤ b)
operate bw mul a b = done (a *ℤ b)
operate bw sdiv a b = if eq_ℤ b (pos 0) then undefined else done (a /ℤ b)
operate bw udiv a b = if eq_ℤ b (pos 0) then undefined else done (a /ℤ b)
operate bw srem a b =
    if eq_ℤ b (pos 0) then undefined else typed true bw (a /ℤ b) >>= λ q. done (a %ℤ b)
operate bw urem a b = if eq_ℤ b (pos 0) then undefined else done (a %ℤ b)
operate bw and (pos a) (pos b) = done (pos (bit_and a b))
operate bw and a b = undefined
operate bw or (pos a) (pos b) = done (pos (bit_or a b))
operate bw or a b = undefined
operate bw xor (pos a) (pos b) = done (pos (bit_xor a b))
operate bw xor a b = undefined
operate bw eq a b = done (of_bool (eq_ℤ a b))
operate bw ne a b = done (of_bool (not (eq_ℤ a b)))
operate bw ult a b = done (of_bool (ltb_ℤ a b))
operate bw ugt a b = done (of_bool (ltb_ℤ b a))
operate bw ule a b = done (of_bool (leb_ℤ a b))
operate bw uge a b = done (of_bool (leb_ℤ b a))
operate bw slt a b = done (of_bool (ltb_ℤ a b))
operate bw sgt a b = done (of_bool (ltb_ℤ b a))
operate bw sle a b = done (of_bool (leb_ℤ a b))
operate bw sge a b = done (of_bool (leb_ℤ b a))

-- The conversion of the result to `uint64_t`.
abbrev pub finish : Bool → ℕ → ℤ → Run ℕ
finish signedness bw r = typed signedness bw r >>= λ n. done (wrap 64 n)

-- `call` of the operation.
unfoldable pub call : BinaryOp → ℕ → ℕ → ℕ → Run ℕ
unfolding ◌+ℤ◌ ◌-ℤ◌ ◌*ℤ◌ ◌/ℤ◌ ◌%ℤ◌
call op bw v u =
    if is_number bw
    then operate bw op (cast (is_signed op) bw v) (cast (is_signed op) bw u)
      >>= finish (is_signed op) bw
    else undefined

abbrev pub is_fp : Ty → Bool
is_fp fp = true
is_fp _ = false

abbrev pub is_ptr : Ty → Bool
is_ptr ptr = true
is_ptr _ = false

-- `with_type`; a failed assertion and `fail` are undefined.
unfoldable pub with_type : BinaryOp → Constant → Constant → Run Constant
with_type op a b =
    if not (a.bw == b.bw)
    then undefined
    else if is_fp a.ty || is_fp b.ty
    then undefined
    else call op a.bw a.value b.value >>= λ v.
        done (record { value = v; ty = if is_ptr a.ty || is_ptr b.ty then ptr else bv; bw = a.bw })

unfoldable pub to_tristate : Constant → Tristate
to_tristate c = if c.value == 0 then false_value else true_value

abbrev pub of_expect : Bool → ℕ
of_expect true = 1
of_expect false = 0

unfoldable pub assume : Constant → Bool → Run Constant
assume c expect = if c.value == of_expect expect then done c else cancelled

-- `1ull << ( bw - 1 )`, for at most 64 bits.
unfoldable pub mask : ℕ → ℕ
mask zero = 0
mask (suc n) = bit_or (2 ^ n) (mask n)

-- As written, the width of the result is the operand's.
unfoldable pub set_bw : Constant → ℕ → Constant
unfolding mask
set_bw c bw = record { value = bit_and c.value (mask bw); ty = c.ty; bw = c.bw }
