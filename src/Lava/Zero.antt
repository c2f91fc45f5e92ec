-- ===== src/Lava/Zero.antt =====
-- lava/include/lava/zero.hpp: the domain that tells 0 from the other machine words. The tables have
-- three rows and three columns, so that the value `bottom` reads past their end.
use lart.Common.{ℕ, Bool, true, false, not, if◌then◌else◌, Run, done, cancelled, undefined, ◌>>=◌}
use lart.Lava.Tristate.{Tristate, false_value, true_value, maybe_value}
pub mod Words
pub mod Tables
pub mod Results
pub mod Soundness
pub mod Branch
mod Tests

pub data Zero : Type 0 where
  zero nonzero unknown bottom : Zero

unfoldable pub is_bottom : Zero → Bool
is_bottom bottom = true
is_bottom _ = false

unfoldable pub is_zero : Zero → Bool
is_zero zero = true
is_zero _ = false

unfoldable pub is_nonzero : Zero → Bool
is_nonzero nonzero = true
is_nonzero _ = false

-- `lift`, of an integer or a pointer: a word is given by its value.
unfoldable pub lift : ℕ → Zero
lift ℕ.zero = zero
lift (ℕ.suc n) = nonzero

-- An array of three, indexed by the enumeration.
unfoldable pub row : Zero → Zero → Zero → Zero → Run Zero
row a b c zero = done a
row a b c nonzero = done b
row a b c unknown = done c
row a b c bottom = undefined

abbrev pub Table : Type 0
Table = Zero → Zero → Run Zero

unfoldable pub add_lut : Table
unfolding row
add_lut zero = row zero nonzero unknown
add_lut nonzero = row nonzero unknown unknown
add_lut unknown = row unknown unknown unknown
add_lut bottom = λ b. undefined

unfoldable pub mul_lut : Table
unfolding row
mul_lut zero = row zero zero zero
mul_lut nonzero = row zero unknown unknown
mul_lut unknown = row zero unknown unknown
mul_lut bottom = λ b. undefined

-- `mixin::fail` traps, which is not told from undefined behaviour here.
unfoldable pub div : Table
unfolding is_nonzero is_zero
div a b = if not (is_nonzero b) then undefined else if is_zero a then done zero else done unknown

unfoldable pub shift_lut : Table
unfolding row
shift_lut zero = row zero zero zero
shift_lut nonzero = row nonzero unknown unknown
shift_lut unknown = row unknown unknown unknown
shift_lut bottom = λ b. undefined

unfoldable pub and_lut : Table
unfolding row
and_lut zero = row zero zero zero
and_lut nonzero = row zero unknown unknown
and_lut unknown = row zero unknown unknown
and_lut bottom = λ b. undefined

unfoldable pub or_lut : Table
unfolding row
or_lut zero = row zero nonzero unknown
or_lut nonzero = row nonzero nonzero nonzero
or_lut unknown = row unknown nonzero unknown
or_lut bottom = λ b. undefined

unfoldable pub xor_lut : Table
unfolding row
xor_lut zero = row zero nonzero unknown
xor_lut nonzero = row nonzero unknown unknown
xor_lut unknown = row unknown unknown unknown
xor_lut bottom = λ b. undefined

unfoldable pub eq_lut : Table
unfolding row
eq_lut zero = row nonzero zero unknown
eq_lut nonzero = row zero unknown unknown
eq_lut unknown = row unknown unknown unknown
eq_lut bottom = λ b. undefined

unfoldable pub ne_lut : Table
unfolding row
ne_lut zero = row zero nonzero unknown
ne_lut nonzero = row nonzero unknown unknown
ne_lut unknown = row unknown unknown unknown
ne_lut bottom = λ b. undefined

unfoldable pub ugt_lut : Table
unfolding row
ugt_lut zero = row zero zero zero
ugt_lut nonzero = row nonzero unknown unknown
ugt_lut unknown = row unknown unknown unknown
ugt_lut bottom = λ b. undefined

unfoldable pub uge_lut : Table
unfolding row
uge_lut zero = row nonzero zero unknown
uge_lut nonzero = row nonzero unknown unknown
uge_lut unknown = row nonzero unknown unknown
uge_lut bottom = λ b. undefined

unfoldable pub sgt_lut : Table
unfolding row
sgt_lut zero = row zero unknown unknown
sgt_lut nonzero = row unknown unknown unknown
sgt_lut unknown = row unknown unknown unknown
sgt_lut bottom = λ b. undefined

unfoldable pub sge_lut : Table
unfolding row
sge_lut zero = row nonzero unknown unknown
sge_lut nonzero = row unknown unknown unknown
sge_lut unknown = row unknown unknown unknown
sge_lut bottom = λ b. undefined

-- The binary operations.
pub data BinaryOp : Type 0 where
  add sub mul udiv sdiv urem srem shl ashr lshr and or xor : BinaryOp
  eq ne ugt uge ult ule sgt sge slt sle : BinaryOp

-- `op_add`, `op_sub` and so on, by the operation's name. As written, `op_mul` reads `add_lut`.
unfoldable pub apply : BinaryOp → Table
apply add a b = add_lut a b
apply sub a b = add_lut a b
apply mul a b = add_lut a b
apply udiv a b = div a b
apply sdiv a b = div a b
apply urem a b = div a b
apply srem a b = div a b
apply shl a b = shift_lut a b
apply ashr a b = shift_lut a b
apply lshr a b = shift_lut a b
apply and a b = and_lut a b
apply or a b = or_lut a b
apply xor a b = xor_lut a b
apply eq a b = eq_lut a b
apply ne a b = ne_lut a b
apply ugt a b = ugt_lut a b
apply uge a b = uge_lut a b
apply ult a b = ugt_lut b a
apply ule a b = uge_lut b a
apply sgt a b = sgt_lut a b
apply sge a b = sge_lut a b
apply slt a b = sgt_lut b a
apply sle a b = sge_lut b a

-- `op_trunc` and `op_zfit`; `op_sext` and `op_zext` copy their operand.
unfoldable pub op_trunc : Zero → Zero
unfolding is_zero
op_trunc z = if is_zero z then zero else unknown

-- The value that `intersect` stores.
unfoldable pub narrowed : Zero → Zero → Zero
unfolding is_nonzero is_zero
narrowed zero b = if not (is_nonzero b) then zero else bottom
narrowed nonzero b = if not (is_zero b) then nonzero else bottom
narrowed unknown b = b
narrowed bottom b = b

unfoldable pub intersect : Zero → Zero → Run Zero
unfolding narrowed is_bottom
intersect z b = let v = narrowed z b in if is_bottom v then cancelled else done v

unfoldable pub assume : Zero → Bool → Run Zero
unfolding intersect is_bottom
assume z constraint = intersect z (if constraint then nonzero else zero) >>= λ v.
    if is_bottom v then cancelled else done v

unfoldable pub to_tristate : Zero → Run Tristate
to_tristate zero = done false_value
to_tristate nonzero = done true_value
to_tristate unknown = done maybe_value
to_tristate bottom = cancelled

unfoldable pub op_load : Zero → Run Zero
unfolding is_nonzero
op_load p = if is_nonzero p then done unknown else undefined
