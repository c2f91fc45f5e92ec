-- ===== src/Lava/Tristate/Overloads.antt =====
-- lava/include/lava/support/tristate.hpp: the overloads of the connectives with a `bool` or the tag `maybe` on one
-- side, named after the place of that operand.
use lart.Common.{◌≡◌, arith, Bool, if◌then◌else◌}
use lart.Lava.Tristate.{
  Tristate, false_value, true_value, maybe_value, lift, to_bool, not_t, and_t, or_t, eq_t, ne_t,
}

unfoldable pub and_bool : Tristate → Bool → Tristate
and_bool a b = if b then a else false_value

unfoldable pub bool_and : Bool → Tristate → Tristate
bool_and a b = if a then b else false_value

unfoldable pub maybe_and : Tristate → Tristate
unfolding to_bool not_t
maybe_and b = if to_bool (not_t b) then false_value else maybe_value

unfoldable pub and_maybe : Tristate → Tristate
unfolding to_bool not_t
and_maybe a = if to_bool (not_t a) then false_value else maybe_value

unfoldable pub or_bool : Tristate → Bool → Tristate
or_bool a b = if b then true_value else a

unfoldable pub bool_or : Bool → Tristate → Tristate
bool_or a b = if a then true_value else b

unfoldable pub maybe_or : Tristate → Tristate
unfolding to_bool
maybe_or b = if to_bool b then true_value else maybe_value

unfoldable pub or_maybe : Tristate → Tristate
unfolding to_bool
or_maybe a = if to_bool a then true_value else maybe_value

unfoldable pub eq_bool : Tristate → Bool → Tristate
unfolding eq_t lift
eq_bool a b = eq_t a (lift b)

unfoldable pub bool_eq : Bool → Tristate → Tristate
unfolding eq_t lift
bool_eq a b = eq_t (lift a) b

unfoldable pub maybe_eq : Tristate → Tristate
unfolding eq_t
maybe_eq b = eq_t maybe_value b

unfoldable pub eq_maybe : Tristate → Tristate
unfolding eq_t
eq_maybe a = eq_t a maybe_value

unfoldable pub ne_bool : Tristate → Bool → Tristate
unfolding ne_t lift
ne_bool a b = ne_t a (lift b)

unfoldable pub bool_ne : Bool → Tristate → Tristate
unfolding ne_t lift
bool_ne a b = ne_t (lift a) b

unfoldable pub maybe_ne : Tristate → Tristate
unfolding ne_t
maybe_ne b = ne_t maybe_value b

unfoldable pub ne_maybe : Tristate → Tristate
unfolding ne_t
ne_maybe a = ne_t a maybe_value

-- The overloads of `&&` and `||` agree with the operators on two tristates, and the comparisons with the tag
-- `maybe` are never definite.
overloads_agree :
    (a : Tristate) (b : Bool)
    → (and_bool a b ≡ and_t a (lift b))
      × (bool_and b a ≡ and_t (lift b) a)
      × (maybe_and a ≡ and_t maybe_value a)
      × (and_maybe a ≡ and_t a maybe_value)
      × (or_bool a b ≡ or_t a (lift b))
      × (bool_or b a ≡ or_t (lift b) a)
      × (maybe_or a ≡ or_t maybe_value a)
      × (or_maybe a ≡ or_t a maybe_value)
      × (maybe_eq a ≡ maybe_value)
      × (eq_maybe a ≡ maybe_value)
      × (maybe_ne a ≡ maybe_value)
      × (ne_maybe a ≡ maybe_value)
unfolding and_bool bool_and maybe_and and_maybe or_bool bool_or maybe_or or_maybe and_t or_t lift
    maybe_eq eq_maybe maybe_ne ne_maybe
overloads_agree a b = ground arith
