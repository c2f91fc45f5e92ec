-- ===== src/Lartcc/Layer/Laws.antt =====
-- `join` of lartcc/include/cc/tristate.hpp and of the layers of lartcc/include/cc/dfa.hpp as the joins of
-- semilattices.
use lart.Common.{◌≡◌, arith}
use lart.Lartcc.Layer.{Tristate, maybe, join, Layer, join_layer}

pub join_idem : (a : Tristate) → join a a ≡ a
unfolding join
join_idem a = ground arith

pub join_comm : (a b : Tristate) → join a b ≡ join b a
unfolding join
join_comm a b = ground arith

pub join_assoc : (a b c : Tristate) → join (join a b) c ≡ join a (join b c)
unfolding join
join_assoc a b c = ground arith

pub join-maybe : (a : Tristate) → join a maybe ≡ maybe
unfolding join
join-maybe a = ground arith

pub maybe-join : (a : Tristate) → join maybe a ≡ maybe
unfolding join
maybe-join a = ground arith

pub join_layer_idem : (a : Layer) → join_layer a a ≡ a
unfolding join_layer
join_layer_idem a = simp (join_idem)

pub join_layer_comm : (a b : Layer) → join_layer a b ≡ join_layer b a
unfolding join_layer
join_layer_comm a b = rw (join_comm a.pointer b.pointer, join_comm a.abstract b.abstract)

pub join_layer_assoc :
    (a b c : Layer) → join_layer (join_layer a b) c ≡ join_layer a (join_layer b c)
unfolding join_layer
join_layer_assoc a b c = simp (join_assoc)

pub join_layer_left_comm :
    (a b c : Layer) → join_layer a (join_layer b c) ≡ join_layer b (join_layer a c)
join_layer_left_comm a b c =
    rw (← join_layer_assoc a b c, join_layer_comm a b) (join_layer_assoc b a c)

pub ruleset layer_laws = (join_layer_comm, join_layer_assoc, join_layer_left_comm, join_layer_idem)
