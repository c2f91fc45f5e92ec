-- ===== src/Lava/Tristate.antt =====
-- lava/include/lava/support/tristate.hpp: the truth values that a branch on an abstract value has.
-- The overloads that take a `bool` or the `maybe` tag stand in Lava/Tristate/Overloads.antt.
use lart.Common.{Bool, true, false, ◌&&◌, ◌||◌, if◌then◌else◌}
pub mod Meaning
pub mod Laws
pub mod Overloads
mod Tests

pub data Tristate : Type 0 where
  false_value true_value maybe_value : Tristate

-- `explicit tristate( bool )`, and the free function `lift`.
unfoldable pub lift : Bool → Tristate
lift v = if v then true_value else false_value

-- `explicit operator bool`.
unfoldable pub to_bool : Tristate → Bool
to_bool true_value = true
to_bool _ = false

unfoldable pub maybe : Tristate → Bool
maybe maybe_value = true
maybe _ = false

unfoldable pub not_t : Tristate → Tristate
not_t false_value = true_value
not_t true_value = false_value
not_t maybe_value = maybe_value

unfoldable pub and_t : Tristate → Tristate → Tristate
unfolding to_bool not_t
and_t a b =
    if to_bool (not_t a) || to_bool (not_t b)
    then false_value
    else if to_bool a && to_bool b
    then true_value
    else maybe_value

unfoldable pub or_t : Tristate → Tristate → Tristate
unfolding to_bool not_t
or_t a b =
    if to_bool (not_t a) && to_bool (not_t b)
    then false_value
    else if to_bool a || to_bool b
    then true_value
    else maybe_value

unfoldable pub eq_t : Tristate → Tristate → Tristate
unfolding maybe and_t or_t not_t
eq_t a b = if maybe a || maybe b then maybe_value else or_t (and_t a b) (and_t (not_t a) (not_t b))

unfoldable pub ne_t : Tristate → Tristate → Tristate
unfolding maybe and_t or_t not_t
ne_t a b =
    if maybe a || maybe b then maybe_value else or_t (not_t (and_t a b)) (and_t (not_t a) (not_t b))

-- `lower`: a `maybe` is decided by `__lart_choose( 2 )`, whose answer is the first argument.
unfoldable pub lower : Bool → Tristate → Bool
unfolding maybe to_bool
lower choice t = if maybe t then choice else to_bool t
