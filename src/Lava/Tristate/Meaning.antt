-- ===== src/Lava/Tristate/Meaning.antt =====
-- Which truth values a tristate of lava/include/lava/support/tristate.hpp stands for.
use lart.Common.{◌≡◌, Bool, true, false, not, ◌&&◌, ◌||◌}
use lart.Lava.Tristate.{Tristate, false_value, true_value, maybe_value}

-- A tristate as the set of the values that it stands for.
abbrev pub denotes : Tristate → Bool → Bool
denotes false_value b = not b
denotes true_value b = b
denotes maybe_value b = true

abbrev pub Denotes : Tristate → Bool → Type 0
Denotes t b = denotes t b ≡ true

abbrev pub same : Bool → Bool → Bool
same true y = y
same false y = not y

-- Whether a binary operation yields `c` on some values that two tristates stand for.
abbrev pub outcome : (Bool → Bool → Bool) → Tristate → Tristate → Bool → Bool
outcome op a b c = at true true || at true false || at false true || at false false
  where
    at : Bool → Bool → Bool
    at x y = denotes a x && denotes b y && same (op x y) c
