-- ===== src/Lartcc/Onion.antt =====
-- `type_onion` of lartcc/include/cc/dfa.hpp: the layers of a value's type, one for each level of pointers.
-- The vector is listed from its back, the outermost layer, to its front, the value at the bottom of
-- the pointers. A vector without layers, on which the code has no behaviour, is left as it is.
use lart.Common.{
  ℕ, zero, suc, Bool, true, false, not, ltb, if◌then◌else◌, List, [], ◌∷◌, length, drop,
}
use lart.Lartcc.Layer.{Tristate, no, yes, maybe, to_bool, join, Layer, layer, join_layer}
pub mod Merge
pub mod Semilattice
pub mod Order
pub mod Solid
pub mod Spread
pub mod Laws
mod Tests

abbrev pub Onion : Type 0
Onion = List Layer

-- `type_onion( size_t )`: a scalar below `ptr_nest` pointers.
unfoldable pub of_nesting : ℕ → Onion
of_nesting zero = layer no no ∷ []
of_nesting (suc ptr_nest) = layer yes no ∷ of_nesting ptr_nest

abbrev pub on_back : (Layer → Layer) → Onion → Onion
on_back f [] = []
on_back f (x ∷ xs) = f x ∷ xs

abbrev pub on_front : (Layer → Layer) → Onion → Onion
on_front f [] = []
on_front f (x ∷ []) = f x ∷ []
on_front f (x ∷ y ∷ ys) = x ∷ on_front f (y ∷ ys)

unfoldable pub make_abstract : Onion → Onion
make_abstract o = on_back (λ x. record x { abstract = yes }) o

unfoldable pub make_pointer : Onion → Onion
make_pointer o = on_back (λ x. record x { pointer = yes }) o

unfoldable pub make_abstract_pointer : Onion → Onion
unfolding make_abstract make_pointer
make_abstract_pointer o =
    on_front (λ x. record x { pointer = maybe; abstract = maybe }) (make_pointer (make_abstract o))

-- The loops of `maybe_abstract` and `maybe_pointer`.
abbrev pub joined_abstract : Onion → Tristate
joined_abstract [] = no
joined_abstract (x ∷ xs) = join (joined_abstract xs) x.abstract

abbrev pub joined_pointer : Onion → Tristate
joined_pointer [] = no
joined_pointer (x ∷ xs) = join (joined_pointer xs) x.pointer

unfoldable pub maybe_abstract : Onion → Bool
unfolding to_bool
maybe_abstract o = to_bool (joined_abstract o)

unfoldable pub maybe_pointer : Onion → Bool
unfolding to_bool
maybe_pointer o = to_bool (joined_pointer o)

unfoldable pub wrap : Onion → Onion
wrap o = layer yes no ∷ o

unfoldable pub peel : Onion → Onion
peel [] = []
peel (x ∷ []) = record x { pointer = maybe } ∷ []
peel (x ∷ y ∷ ys) = y ∷ ys

-- The assertion of `peel`.
unfoldable pub peel_asserts : Onion → Bool
unfolding to_bool
peel_asserts [] = true
peel_asserts (x ∷ []) = true
peel_asserts (x ∷ y ∷ ys) = to_bool x.pointer

-- The first loop of `join`: the layers that only the longer vector has go into the front layer.
abbrev pub absorb : Layer → Onion → Layer
absorb x [] = x
absorb x (y ∷ ys) = join_layer (absorb x ys) y

-- The second loop of `join`.
abbrev pub zip_join : Onion → Onion → Onion
zip_join [] ys = []
zip_join (x ∷ xs) [] = x ∷ xs
zip_join (x ∷ xs) (y ∷ ys) = join_layer x y ∷ zip_join xs ys

-- `join` after the swap, on a first vector that is no longer than the second one.
unfoldable pub join_ordered : Onion → Onion → Onion
unfolding join_layer
join_ordered a b =
    if ltb (length a) (length b)
    then zip_join (on_front (λ x. record (absorb x (drop (length a) b)) { pointer = maybe }) a) b
    else zip_join a b

unfoldable pub join_onion : Onion → Onion → Onion
unfolding join_ordered
join_onion a b = if ltb (length b) (length a) then join_ordered b a else join_ordered a b

-- `is_abstract` and `is_abstract_pointer` of lartcc/dfa.cpp.
unfoldable pub is_abstract : Onion → Bool
unfolding to_bool
is_abstract [] = false
is_abstract (x ∷ xs) = to_bool x.abstract

unfoldable pub is_abstract_pointer : Onion → Bool
unfolding to_bool is_abstract
is_abstract_pointer [] = false
is_abstract_pointer (x ∷ xs) = if to_bool x.pointer then is_abstract (x ∷ xs) else false
