-- ===== src/Lartcc/Onion/Merge.antt =====
-- `join` of the onions of lartcc/include/cc/dfa.hpp layer by layer, from the back, without the two loops.
use lart.Common.{
  suc, Bool, ◌≡◌, refl, ap, ◌∙◌, arith, true, false, [], ◌∷◌, length, ltb, if◌then◌else◌,
}
use lart.Lartcc.Layer.{maybe, Layer, join_layer}
use lart.Lartcc.Layer.Laws.{layer_laws, join-maybe, maybe-join, join_layer_comm}
use lart.Lartcc.Onion.{Onion, absorb, join_ordered}

-- A layer that may be a pointer, whatever it was.
unfoldable pub loose : Layer → Layer
loose x = record x { pointer = maybe }

-- All layers in one.
abbrev pub collapse : Layer → Onion → Layer
collapse x [] = x
collapse x (y ∷ ys) = loose (join_layer x (collapse y ys))

unfoldable pub merge : Onion → Onion → Onion
unfolding join_layer
merge [] ys = []
merge (x ∷ xs) [] = []
merge (x ∷ []) (y ∷ ys) = join_layer x (collapse y ys) ∷ []
merge (x ∷ x' ∷ xs) (y ∷ []) = join_layer (collapse x (x' ∷ xs)) y ∷ []
merge (x ∷ x' ∷ xs) (y ∷ y' ∷ ys) = join_layer x y ∷ merge (x' ∷ xs) (y' ∷ ys)

pub loose-join_layer : (x y : Layer) → join_layer (loose x) y ≡ loose (join_layer x y)
unfolding join_layer loose
loose-join_layer x y = simp (maybe-join)

pub join_layer-loose : (x y : Layer) → join_layer x (loose y) ≡ loose (join_layer x y)
unfolding join_layer loose
join_layer-loose x y = simp (join-maybe)

pub loose-loose : (x : Layer) → loose (loose x) ≡ loose x
unfolding loose
loose-loose x = refl

pub ruleset loose_laws = (layer_laws, loose-join_layer, join_layer-loose, loose-loose)

loose_fold :
    (x y z : Layer) → loose (join_layer (join_layer x z) y) ≡ join_layer x (loose (join_layer y z))
loose_fold x y z = simp (loose_laws)

absorb-collapse :
    (x y z : Layer) (zs : Onion)
    → loose (join_layer (join_layer (absorb x zs) z) y) ≡ join_layer x (collapse y (z ∷ zs))
absorb-collapse x y z [] = loose_fold x y z
absorb-collapse x y z (w ∷ ws) =
    rw (← loose-join_layer (join_layer (join_layer (absorb x ws) w) z) y, absorb-collapse x z w ws)
      (simp (loose_laws))

if-cons :
    (c : Bool) (x : Layer) (a b : Onion) → (if c then x ∷ a else x ∷ b) ≡ x ∷ (if c then a else b)
if-cons true x a b = refl
if-cons false x a b = refl

join_ordered-cons :
    (x x' : Layer) (xs : Onion) (y y' : Layer) (ys : Onion)
    → join_ordered (x ∷ x' ∷ xs) (y ∷ y' ∷ ys) ≡ join_layer x y ∷ join_ordered (x' ∷ xs) (y' ∷ ys)
join_ordered-cons x x' xs y y' ys =
    let e : ltb (suc (suc (length xs))) (suc (suc (length ys)))
        ≡ ltb (suc (length xs)) (suc (length ys)) =
      ground arith in
    unfold join_ordered in
    rw e (if-cons (ltb (suc (length xs)) (suc (length ys))) (join_layer x y) _ _)

pub join_ordered-merge :
    (a b : Onion) → ltb (length b) (length a) ≡ false → join_ordered a b ≡ merge a b
unfolding join_ordered merge loose
join_ordered-merge [] b h = unfold join_ordered in ground arith
join_ordered-merge (x ∷ xs) [] h = absurd (ground arith)
join_ordered-merge (x ∷ []) (y ∷ []) h = refl
join_ordered-merge (x ∷ []) (y ∷ z ∷ zs) h =
    let lt : ltb 1 (suc (suc (length zs))) ≡ true = ground arith in
    unfold join_ordered merge in
    rw lt (
      ap (λ l. l ∷ []) (loose-join_layer (join_layer (absorb x zs) z) y ∙ absorb-collapse x y z zs))
join_ordered-merge (x ∷ x' ∷ xs) (y ∷ []) h = absurd (ground arith)
join_ordered-merge (x ∷ x' ∷ xs) (y ∷ y' ∷ ys) h =
    let ih = join_ordered-merge (x' ∷ xs) (y' ∷ ys) (ground arith) in
    unfold merge in join_ordered-cons x x' xs y y' ys ∙ ap (λ l. join_layer x y ∷ l) ih
