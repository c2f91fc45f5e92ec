-- ===== src/Lava/Sign/Meaning.antt =====
-- The integers that an abstract value of lava/include/lava/sign.hpp stands for. The domain does not
-- track a width, so they are the unbounded ones.
use lart.Common.{zero, suc, ◌≡◌, Bool, true, false}
use lart.Common.Int.{ℤ, pos, negsuc}
use lart.Lava.Sign.{Sign, bot, ltz, gtz, eqz, nez, gez, lez, top}

-- The three classes of integers that the domain tells apart.
pub data Class : Type 0 where
  minus nought plus : Class

abbrev pub class : ℤ → Class
class (pos zero) = nought
class (pos (suc n)) = plus
class (negsuc n) = minus

abbrev pub has : Sign → Class → Bool
has bot c = false
has ltz minus = true
has ltz nought = false
has ltz plus = false
has gtz minus = false
has gtz nought = false
has gtz plus = true
has eqz minus = false
has eqz nought = true
has eqz plus = false
has nez minus = true
has nez nought = false
has nez plus = true
has gez minus = false
has gez nought = true
has gez plus = true
has lez minus = true
has lez nought = true
has lez plus = false
has top c = true

abbrev pub contains : Sign → ℤ → Bool
contains s x = has s (class x)

abbrev pub Contains : Sign → ℤ → Type 0
Contains s x = contains s x ≡ true

-- The integer that a truth value is stored as, and the test that C makes of an integer.
abbrev pub of_bool : Bool → ℤ
of_bool true = pos 1
of_bool false = pos 0

abbrev pub truth : ℤ → Bool
truth (pos zero) = false
truth (pos (suc n)) = true
truth (negsuc n) = true
