-- ===== src/Lartcc/Onion/Laws.antt =====
-- What `join`, `wrap` and `peel` of lartcc/include/cc/dfa.hpp promise.
use lart.Common.{◌≡◌, refl, arith, true, [], ◌∷◌}
use lart.Lartcc.Onion.{Onion, join_onion, wrap, peel, peel_asserts, is_abstract}
use lart.Lartcc.Onion.Semilattice.{join_onion_comm, join_onion_assoc, join_onion_idem}
use lart.Lartcc.Onion.Solid.{solid, wrap-solid, join_onion-solid, solid-peel_asserts}
use lart.Lartcc.Onion.Spread.{above-is_abstract}

-- `join` of types is idempotent, commutative and associative, also where the types differ in their number of
-- layers and the layers that one has alone are folded into the front layer.
pub join_semilattice :
    (a b c : Onion)
    → (join_onion a a ≡ a)
      × (join_onion a b ≡ join_onion b a)
      × (join_onion (join_onion a b) c ≡ join_onion a (join_onion b c))
join_semilattice a b c = (join_onion_idem a, join_onion_comm a b, join_onion_assoc a b c)

peeled : (o : Onion) → solid o ≡ true → peel (wrap o) ≡ o
unfolding peel wrap
peeled [] h = absurd (unfold solid in ground arith)
peeled (x ∷ xs) h = refl

-- Peeling what has been wrapped gives the type back, and the assertion of `peel` holds, for a type with
-- a layer.
peel-wrap : (o : Onion) → solid o ≡ true → (peel (wrap o) ≡ o) × (peel_asserts (wrap o) ≡ true)
peel-wrap o h = (peeled o h, solid-peel_asserts (wrap o) (wrap-solid o h))

absorbed : (a b : Onion) → join_onion (join_onion a b) b ≡ join_onion a b
absorbed a b = rw (join_onion_assoc a b b, join_onion_idem b) refl

-- On types whose layers above the front may be pointers, `join` yields such a type, and it is abstract if one
-- of the two is.
join-keeps :
    (a b : Onion)
    → solid a ≡ true
    → solid b ≡ true
    → is_abstract b ≡ true
    → (solid (join_onion a b) ≡ true) × (is_abstract (join_onion a b) ≡ true)
join-keeps a b h k l = (
  join_onion-solid a b h k,
  above-is_abstract (join_onion a b) b (join_onion-solid a b h k) (absorbed a b) l,
)
