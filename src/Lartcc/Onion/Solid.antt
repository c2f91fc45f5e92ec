-- ===== src/Lartcc/Onion/Solid.antt =====
-- The types that the operations of lartcc/include/cc/dfa.hpp build: they have a layer, and every layer
-- above the front one may be a pointer.
use lart.Common.{ℕ, zero, suc, ◌≡◌, refl, arith, Bool, true, false, ◌&&◌, [], ◌∷◌, length}
use lart.Lartcc.Layer.{Layer, to_bool, join, maybe, join_layer}
use lart.Lartcc.Onion.{
  Onion, of_nesting, on_front, make_abstract, make_pointer, make_abstract_pointer, wrap, peel,
  peel_asserts, join_onion,
}
use lart.Lartcc.Onion.Merge.{merge}
use lart.Lartcc.Onion.Semilattice.{merge-cons, join_onion-merge}

unfoldable pub solid : Onion → Bool
unfolding to_bool
solid [] = false
solid (x ∷ []) = true
solid (x ∷ y ∷ ys) = to_bool x.pointer && solid (y ∷ ys)

pub of_nesting-solid : (n : ℕ) → solid (of_nesting n) ≡ true
unfolding solid of_nesting
of_nesting-solid zero = refl
of_nesting-solid (suc zero) = refl
of_nesting-solid (suc (suc n)) = of_nesting-solid (suc n)

pub make_abstract-solid : (o : Onion) → solid o ≡ true → solid (make_abstract o) ≡ true
unfolding solid make_abstract
make_abstract-solid [] h = h
make_abstract-solid (x ∷ []) h = refl
make_abstract-solid (x ∷ y ∷ ys) h = h

on_front-solid : (f : Layer → Layer) (o : Onion) → solid o ≡ true → solid (on_front f o) ≡ true
unfolding solid
on_front-solid f [] h = h
on_front-solid f (x ∷ []) h = refl
on_front-solid f (x ∷ y ∷ []) h = h
on_front-solid f (x ∷ y ∷ z ∷ zs) h = ground (arith, on_front-solid f (y ∷ z ∷ zs))

make_pointer-solid : (o : Onion) → solid o ≡ true → solid (make_pointer o) ≡ true
unfolding solid make_pointer
make_pointer-solid [] h = h
make_pointer-solid (x ∷ []) h = refl
make_pointer-solid (x ∷ y ∷ ys) h = ground arith

pub make_abstract_pointer-solid :
    (o : Onion) → solid o ≡ true → solid (make_abstract_pointer o) ≡ true
unfolding make_abstract_pointer
make_abstract_pointer-solid o h =
    on_front-solid (λ x. record x { pointer = maybe; abstract = maybe })
      (make_pointer (make_abstract o))
      (make_pointer-solid (make_abstract o) (make_abstract-solid o h))

pub wrap-solid : (o : Onion) → solid o ≡ true → solid (wrap o) ≡ true
unfolding solid wrap
wrap-solid [] h = absurd (ground arith)
wrap-solid (x ∷ xs) h = h

pub peel-solid : (o : Onion) → solid o ≡ true → solid (peel o) ≡ true
unfolding solid peel
peel-solid [] h = h
peel-solid (x ∷ []) h = refl
peel-solid (x ∷ y ∷ ys) h = ground arith

pub solid-peel_asserts : (o : Onion) → solid o ≡ true → peel_asserts o ≡ true
unfolding solid peel_asserts
solid-peel_asserts [] h = refl
solid-peel_asserts (x ∷ []) h = refl
solid-peel_asserts (x ∷ y ∷ ys) h = ground arith

join-to_bool : (a b : Layer) → to_bool a.pointer ≡ true → to_bool (join_layer a b).pointer ≡ true
unfolding to_bool join_layer join
join-to_bool a b h = ground arith

solid-cons :
    (h p : Layer) (m ps : Onion)
    → m ≡ p ∷ ps
    → to_bool h.pointer ≡ true
    → solid m ≡ true
    → solid (h ∷ m) ≡ true
unfolding solid
solid-cons h p [] ps e k l = absurd (ground arith)
solid-cons h p (x ∷ xs) ps e k l = ground arith

merge-solid : (a b : Onion) → solid a ≡ true → solid b ≡ true → solid (merge a b) ≡ true
unfolding solid merge
merge-solid [] b h k = h
merge-solid (x ∷ xs) [] h k = absurd (ground arith)
merge-solid (x ∷ []) (y ∷ ys) h k = refl
merge-solid (x ∷ x' ∷ xs) (y ∷ []) h k = refl
merge-solid (x ∷ x' ∷ xs) (y ∷ y' ∷ ys) h k =
    let (p, ps, e) = merge-cons x' xs y' ys in
    solid-cons (join_layer x y) p (merge (x' ∷ xs) (y' ∷ ys)) ps e (join-to_bool x y (ground arith))
      (merge-solid (x' ∷ xs) (y' ∷ ys) (ground arith) (ground arith))

pub join_onion-solid :
    (a b : Onion) → solid a ≡ true → solid b ≡ true → solid (join_onion a b) ≡ true
join_onion-solid a b h k = rw (join_onion-merge a b) (merge-solid a b h k)

merge-length : (a b : Onion) → length a ≡ 1 → solid b ≡ true → length (merge a b) ≡ 1
unfolding solid merge
merge-length [] b h k = absurd (ground arith)
merge-length (x ∷ []) [] h k = absurd (ground arith)
merge-length (x ∷ []) (y ∷ ys) h k = refl
merge-length (x ∷ x' ∷ xs) b h k = absurd (ground arith)

pub join_onion-length : (a b : Onion) → length a ≡ 1 → solid b ≡ true → length (join_onion a b) ≡ 1
join_onion-length a b h k = rw (join_onion-merge a b) (merge-length a b h k)
