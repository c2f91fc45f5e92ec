-- ===== src/Lartcc/Layer.antt =====
-- lartcc/include/cc/tristate.hpp and `type_layer` of lartcc/include/cc/dfa.hpp: what is known of one
-- level of a value's type.
use lart.Common.{Bool, true, false, if◌then◌else◌}
pub mod Laws

pub data Tristate : Type 0 where
  no yes maybe : Tristate

unfoldable pub of_bool : Bool → Tristate
of_bool v = if v then yes else no

-- `operator bool`: everything but `no`.
unfoldable pub to_bool : Tristate → Bool
to_bool no = false
to_bool _ = true

-- The comparison of two values that `join` makes.
abbrev pub same : Tristate → Tristate → Bool
same no no = true
same no yes = false
same no maybe = false
same yes no = false
same yes yes = true
same yes maybe = false
same maybe no = false
same maybe yes = false
same maybe maybe = true

unfoldable pub join : Tristate → Tristate → Tristate
join a b = if same a b then a else maybe

pub record Layer : Type 0 where
  pub pointer : Tristate
  pub abstract : Tristate

abbrev pub layer : Tristate → Tristate → Layer
layer p a = record { pointer = p; abstract = a }

unfoldable pub join_layer : Layer → Layer → Layer
unfolding join
join_layer a b = layer (join a.pointer b.pointer) (join a.abstract b.abstract)
