-- ===== src/Lava/Sign.antt =====
-- lava/include/lava/sign.hpp: the sign domain, its tables and its operations.
-- `enum value_type` is the data type, a look-up table is a function of its row and its column, and
-- an operation that returns `{}` yields what the default constructor of `sign_storage` stores, `top`.
use lart.Common.{ℕ, Bool, true, false, Option, none, some, ◌&&◌, if◌then◌else◌}
use lart.Common.Int.{ℤ, pos, ltb_ℤ, eq_ℤ}
use lart.Lava.Tristate.{Tristate, false_value, true_value, maybe_value}
pub mod Meaning
pub mod Tables
pub mod Lattice
pub mod Classes
pub mod Soundness
pub mod Exact
pub mod Branch
mod Tests

pub data Sign : Type 0 where
  bot ltz gtz eqz nez gez lez top : Sign

-- The aliases `tru`, `fls` and `may` of the enumeration.
abbrev pub tru : Sign
tru = gtz

abbrev pub fls : Sign
fls = eqz

abbrev pub may : Sign
may = gez

-- An array of eight signs, indexed by a sign in the order of the enumeration.
unfoldable pub row : Sign → Sign → Sign → Sign → Sign → Sign → Sign → Sign → Sign → Sign
row a b c d e f g h bot = a
row a b c d e f g h ltz = b
row a b c d e f g h gtz = c
row a b c d e f g h eqz = d
row a b c d e f g h nez = e
row a b c d e f g h gez = f
row a b c d e f g h lez = g
row a b c d e f g h top = h

-- The columns are bot, ltz, gtz, eqz, nez, gez, lez and top.
unfoldable pub add_lut : Sign → Sign → Sign
unfolding row
add_lut bot = row bot bot bot bot bot bot bot bot
add_lut ltz = row bot ltz top ltz top top ltz top
add_lut gtz = row bot top gtz top gtz gtz top top
add_lut eqz = row bot ltz gtz eqz nez gez lez top
add_lut nez = row bot top top nez top top top top
add_lut gez = row bot top gez gez top gez top top
add_lut lez = row bot lez top lez top top lez top
add_lut top = row bot top top top top top top top

unfoldable pub mul_lut : Sign → Sign → Sign
unfolding row
mul_lut bot = row bot bot bot bot bot bot bot bot
mul_lut ltz = row bot gtz ltz eqz nez lez gez top
mul_lut gtz = row bot ltz gtz eqz nez gez lez top
mul_lut eqz = row bot eqz eqz eqz eqz eqz eqz eqz
mul_lut nez = row bot nez nez eqz nez top top top
mul_lut gez = row bot lez gez eqz top gez lez top
mul_lut lez = row bot gez lez eqz top lez gez top
mul_lut top = row bot top top eqz top top top top

unfoldable pub eq_lut : Sign → Sign → Sign
unfolding row
eq_lut bot = row bot bot bot bot bot bot bot bot
eq_lut ltz = row bot may fls fls may fls may may
eq_lut gtz = row bot fls may fls may may fls may
eq_lut eqz = row bot fls fls tru fls may may may
eq_lut nez = row bot may may fls may may may may
eq_lut gez = row bot fls may may may may may may
eq_lut lez = row bot may fls may may may may may
eq_lut top = row bot may may may may may may may

unfoldable pub ne_lut : Sign → Sign → Sign
unfolding row
ne_lut bot = row bot bot bot bot bot bot bot bot
ne_lut ltz = row bot may tru tru may tru may may
ne_lut gtz = row bot tru may tru may may tru may
ne_lut eqz = row bot tru tru fls tru may may may
ne_lut nez = row bot may may tru may may may may
ne_lut gez = row bot tru may may may may may may
ne_lut lez = row bot may tru may may may may may
ne_lut top = row bot may may may may may may may

unfoldable pub slt_lut : Sign → Sign → Sign
unfolding row
slt_lut bot = row bot bot bot bot bot bot bot bot
slt_lut ltz = row bot may tru tru may tru may may
slt_lut gtz = row bot fls may fls may may fls may
slt_lut eqz = row bot fls tru fls may may may may
slt_lut nez = row bot may may may may may may may
slt_lut gez = row bot fls may may may may may may
slt_lut lez = row bot may tru may may may may may
slt_lut top = row bot may may may may may may may

unfoldable pub meet : Sign → Sign → Sign
unfolding row
meet bot = row bot bot bot bot bot bot bot bot
meet ltz = row bot ltz bot bot ltz bot ltz ltz
meet gtz = row bot bot gtz bot gtz gtz bot gtz
meet eqz = row bot bot bot eqz bot eqz eqz eqz
meet nez = row bot ltz gtz bot nez gtz ltz nez
meet gez = row bot bot gtz eqz gtz gez eqz gez
meet lez = row bot ltz bot eqz ltz eqz lez lez
meet top = row bot ltz gtz eqz nez gez lez top

unfoldable pub join : Sign → Sign → Sign
unfolding row
join bot = row bot ltz gtz eqz nez gez lez top
join ltz = row ltz ltz nez lez nez top lez top
join gtz = row gtz nez gtz gez nez gez top top
join eqz = row eqz lez gez eqz top gez lez top
join nez = row nez nez nez top nez top top top
join gez = row gez top gez gez top gez top top
join lez = row lez lez top lez top top lez top
join top = row top top top top top top top top

unfoldable pub complement : Sign → Sign
complement bot = top
complement ltz = gez
complement gtz = lez
complement eqz = nez
complement nez = eqz
complement gez = ltz
complement lez = gtz
complement top = bot

unfoldable pub setminus : Sign → Sign → Sign
unfolding row
setminus bot = row bot bot bot bot bot bot bot bot
setminus ltz = row ltz bot ltz ltz bot ltz bot bot
setminus gtz = row gtz gtz bot gtz bot bot gtz bot
setminus eqz = row eqz eqz eqz bot bot bot bot bot
setminus nez = row nez gtz ltz nez bot ltz gtz bot
setminus gez = row gez gez eqz gtz eqz bot gtz bot
setminus lez = row lez eqz lez ltz eqz ltz bot bot
setminus top = row top gez lez nez eqz ltz gtz bot

-- `lift` of a `bool`, which is also `from_bool`, and of an integer.
unfoldable pub from_bool : Bool → Sign
from_bool b = if b then tru else fls

unfoldable pub lift : ℤ → Sign
lift v = if eq_ℤ v (pos 0) then eqz else if ltb_ℤ v (pos 0) then ltz else gtz

-- `any( from, to )`.
unfoldable pub any : ℤ → ℤ → Sign
any from to =
    if ltb_ℤ to from
    then bot
    else if eq_ℤ from (pos 0)
    then (if eq_ℤ to (pos 0) then eqz else gez)
    else if eq_ℤ to (pos 0)
    then lez
    else if ltb_ℤ to (pos 0)
    then ltz
    else if ltb_ℤ (pos 0) from
    then gtz
    else top

unfoldable pub assume : Sign → Bool → Sign
unfolding from_bool
assume s constraint = meet s (from_bool constraint)

-- `none` is `mixin::fail`, which traps.
unfoldable pub to_tristate : Sign → Option Tristate
to_tristate bot = none
to_tristate ltz = some true_value
to_tristate gtz = some true_value
to_tristate eqz = some false_value
to_tristate nez = some true_value
to_tristate gez = some maybe_value
to_tristate lez = some maybe_value
to_tristate top = some maybe_value

-- The binary operations on integers.
pub data BinaryOp : Type 0 where
  add sub mul udiv sdiv urem srem shl lshr ashr and or xor : BinaryOp
  eq ne ugt uge ult ule sgt sge slt sle : BinaryOp

-- `op_add`, `op_sub` and so on, by the operation's name.
unfoldable pub apply : BinaryOp → Sign → Sign → Sign
apply add a b = add_lut a b
apply mul a b = mul_lut a b
apply eq a b = eq_lut a b
apply ne a b = ne_lut a b
apply sgt a b = slt_lut b a
apply slt a b = slt_lut a b
apply _ a b = top

-- `r.value() == se::tru`.
unfoldable pub is_tru : Sign → Bool
is_tru gtz = true
is_tru _ = false

-- `bop_sgt` and `bop_ne`: the operands after the result `r` is known.
unfoldable pub bop_sgt : Sign → Sign → Sign → Sign × Sign
unfolding is_tru
bop_sgt r a b = if is_tru r then (setminus a b, b) else (a, b)

unfoldable pub bop_ne : Sign → Sign → Sign → Sign × Sign
unfolding is_tru
bop_ne r a b = if is_tru r then (setminus a b, b) else (a, b)
