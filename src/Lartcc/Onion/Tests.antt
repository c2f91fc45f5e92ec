-- ===== src/Lartcc/Onion/Tests.antt =====
-- Runs of the operations of lartcc/include/cc/dfa.hpp on small types.
use lart.Common.{◌≡◌, refl, true, false, [], ◌∷◌}
use lart.Lartcc.Layer.{no, yes, maybe, join, layer}
use lart.Lartcc.Onion.{
  Onion, of_nesting, make_abstract_pointer, join_onion, maybe_abstract, maybe_pointer,
  is_abstract_pointer,
}
use lart.Lartcc.Onion.Laws.{join_semilattice}

abbrev scalar_type : Onion
scalar_type = layer no no ∷ []

abbrev abstract_type : Onion
abstract_type = layer no yes ∷ []

-- A pointer to an abstract value.
abbrev pointer_type : Onion
pointer_type = layer yes no ∷ layer no yes ∷ []

join_runs : join_onion pointer_type scalar_type ≡ layer maybe maybe ∷ []
unfolding join_onion
join_runs = refl

make_runs : make_abstract_pointer (of_nesting 1) ≡ layer yes yes ∷ layer maybe maybe ∷ []
unfolding make_abstract_pointer of_nesting
make_runs = refl

maybe_runs : maybe_abstract pointer_type ≡ true
unfolding maybe_abstract join
maybe_runs = refl

maybe_pointer_runs : maybe_pointer abstract_type ≡ false
unfolding maybe_pointer join
maybe_pointer_runs = refl

is_abstract_pointer_runs : is_abstract_pointer pointer_type ≡ false
unfolding is_abstract_pointer
is_abstract_pointer_runs = refl

join_semilattice_example :
    (join_onion pointer_type pointer_type ≡ pointer_type)
    × (join_onion pointer_type scalar_type ≡ join_onion scalar_type pointer_type)
    × (join_onion (join_onion pointer_type scalar_type) abstract_type
        ≡ join_onion pointer_type (join_onion scalar_type abstract_type))
join_semilattice_example = join_semilattice pointer_type scalar_type abstract_type
