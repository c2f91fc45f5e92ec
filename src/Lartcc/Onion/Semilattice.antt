-- ===== src/Lartcc/Onion/Semilattice.antt =====
-- `join` of the onions of lartcc/include/cc/dfa.hpp as the join of a semilattice.
use lart.Common.{◌≡◌, refl, sym, ap, ◌∙◌, arith, [], ◌∷◌, length, ltb, if-cases}
use lart.Lartcc.Layer.{no, Layer, layer, join_layer}
use lart.Lartcc.Layer.Laws.{join_layer_comm, join_layer_assoc, join_layer_idem}
use lart.Lartcc.Onion.{Onion, join_onion}
use lart.Lartcc.Onion.Merge.{merge, collapse, loose, loose_laws, join_ordered-merge}

pub merge_comm : (a b : Onion) → merge a b ≡ merge b a
unfolding merge
merge_comm [] [] = refl
merge_comm [] (y ∷ []) = refl
merge_comm [] (y ∷ y' ∷ ys) = refl
merge_comm (x ∷ []) [] = refl
merge_comm (x ∷ x' ∷ xs) [] = refl
merge_comm (x ∷ []) (y ∷ []) = ap (λ l. l ∷ []) (join_layer_comm x y)
merge_comm (x ∷ []) (y ∷ y' ∷ ys) = ap (λ l. l ∷ []) (join_layer_comm x (collapse y (y' ∷ ys)))
merge_comm (x ∷ x' ∷ xs) (y ∷ []) = ap (λ l. l ∷ []) (join_layer_comm (collapse x (x' ∷ xs)) y)
merge_comm (x ∷ x' ∷ xs) (y ∷ y' ∷ ys) =
    rw (join_layer_comm x y, merge_comm (x' ∷ xs) (y' ∷ ys)) refl

merge_idem : (a : Onion) → merge a a ≡ a
unfolding merge
merge_idem [] = refl
merge_idem (x ∷ []) = ap (λ l. l ∷ []) (join_layer_idem x)
merge_idem (x ∷ x' ∷ xs) = rw (join_layer_idem x, merge_idem (x' ∷ xs)) refl

nil-merge : (a : Onion) → merge [] a ≡ []
unfolding merge
nil-merge a = refl

merge-nil : (a : Onion) → merge a [] ≡ []
unfolding merge
merge-nil a = merge_comm a []

-- An onion that is not empty is given by its back and the rest, and so is the merge of two.
rearrange :
    (a b c d : Layer)
    → loose (join_layer (join_layer a c) (join_layer b d))
      ≡ join_layer (loose (join_layer a b)) (loose (join_layer c d))
rearrange a b c d = simp (loose_laws)

pub merge-cons :
    (x : Layer) (xs : Onion) (y : Layer) (ys : Onion)
    → (p : Layer) × (ps : Onion) × (merge (x ∷ xs) (y ∷ ys) ≡ p ∷ ps)
unfolding merge
merge-cons x [] y ys = (join_layer x (collapse y ys), [], refl)
merge-cons x (x' ∷ xs) y [] = (join_layer (collapse x (x' ∷ xs)) y, [], refl)
merge-cons x (x' ∷ xs) y (y' ∷ ys) = (join_layer x y, merge (x' ∷ xs) (y' ∷ ys), refl)

abbrev gather : Onion → Layer
gather [] = layer no no
gather (x ∷ xs) = collapse x xs

gather-cons :
    (h p : Layer) (m ps : Onion) → m ≡ p ∷ ps → gather (h ∷ m) ≡ loose (join_layer h (gather m))
gather-cons h p m ps e = rw e refl

gather-merge :
    (x : Layer) (xs : Onion) (y : Layer) (ys : Onion)
    → gather (merge (x ∷ xs) (y ∷ ys)) ≡ join_layer (collapse x xs) (collapse y ys)
unfolding merge
gather-merge x [] y ys = refl
gather-merge x (x' ∷ xs) y [] = refl
gather-merge x (x' ∷ xs) y (y' ∷ ys) =
    let (p, ps, e) = merge-cons x' xs y' ys in
    gather-cons (join_layer x y) p _ ps e ∙ rw (gather-merge x' xs y' ys) (rearrange x _ y _)

merge-gather :
    (x p : Layer) (m ps : Onion) → m ≡ p ∷ ps → merge (x ∷ []) m ≡ join_layer x (gather m) ∷ []
unfolding merge
merge-gather x p m ps e = rw e refl

merge-cons-left :
    (h p z z' : Layer) (m ps zs : Onion)
    → m ≡ p ∷ ps
    → merge (h ∷ m) (z ∷ z' ∷ zs) ≡ join_layer h z ∷ merge m (z' ∷ zs)
unfolding merge
merge-cons-left h p z z' m ps zs e = rw e refl

merge-cons-right :
    (x x' h p : Layer) (xs m ps : Onion)
    → m ≡ p ∷ ps
    → merge (x ∷ x' ∷ xs) (h ∷ m) ≡ join_layer x h ∷ merge (x' ∷ xs) m
unfolding merge
merge-cons-right x x' h p xs m ps e = rw e refl

-- Associativity, where one of the onions has a single layer.
merge_single :
    (x y : Layer) (ys : Onion) (z : Layer) (zs : Onion)
    → merge (merge (x ∷ []) (y ∷ ys)) (z ∷ zs) ≡ merge (x ∷ []) (merge (y ∷ ys) (z ∷ zs))
unfolding merge
merge_single x y ys z zs =
    let (p, ps, e) = merge-cons y ys z zs in
    sym (
      merge-gather x p _ ps e
      ∙ ap (λ l. l ∷ [])
          (ap (λ l. join_layer x l) (gather-merge y ys z zs)
            ∙ sym (join_layer_assoc x (collapse y ys) (collapse z zs))))

merge_assoc : (a b c : Onion) → merge (merge a b) c ≡ merge a (merge b c)
unfolding merge
merge_assoc [] b c = simp (nil-merge)
merge_assoc (x ∷ xs) [] c = simp (nil-merge)
merge_assoc (x ∷ xs) (y ∷ ys) [] = simp (merge-nil)
merge_assoc (x ∷ []) (y ∷ ys) (z ∷ zs) = merge_single x y ys z zs
merge_assoc (x ∷ x' ∷ xs) (y ∷ ys) (z ∷ []) = cc (
  merge_comm (x ∷ x' ∷ xs) (y ∷ ys),
  merge_comm (merge (x ∷ x' ∷ xs) (y ∷ ys)) (z ∷ []),
  merge_comm (y ∷ ys) (z ∷ []),
  merge_comm (x ∷ x' ∷ xs) (merge (y ∷ ys) (z ∷ [])),
  merge_single z y ys x (x' ∷ xs),
)
merge_assoc (x ∷ x' ∷ xs) (y ∷ []) (z ∷ z' ∷ zs) = cc (
  merge_comm (x ∷ x' ∷ xs) (y ∷ []),
  merge_comm (x ∷ x' ∷ xs) (z ∷ z' ∷ zs),
  merge_comm (x ∷ x' ∷ xs) (merge (y ∷ []) (z ∷ z' ∷ zs)),
  merge_single y x (x' ∷ xs) z (z' ∷ zs),
  merge_single y z (z' ∷ zs) x (x' ∷ xs),
)
merge_assoc (x ∷ x' ∷ xs) (y ∷ y' ∷ ys) (z ∷ z' ∷ zs) =
    let (p, ps, e) = merge-cons x' xs y' ys in
    let (q, qs, f) = merge-cons y' ys z' zs in
    let ih = merge_assoc (x' ∷ xs) (y' ∷ ys) (z' ∷ zs) in
    (merge-cons-left (join_layer x y) p z z' _ ps zs e
      ∙ rw (join_layer_assoc x y z, ih) (sym (merge-cons-right x x' (join_layer y z) q xs _ qs f)))

pub join_onion-merge : (a b : Onion) → join_onion a b ≡ merge a b
unfolding join_onion
join_onion-merge a b =
    if-cases (ltb (length b) (length a))
      (λ e. join_ordered-merge b a (ground arith) ∙ merge_comm b a) (λ e. join_ordered-merge a b e)

pub join_onion_comm : (a b : Onion) → join_onion a b ≡ join_onion b a
join_onion_comm a b = rw (join_onion-merge a b, join_onion-merge b a) (merge_comm a b)

pub join_onion_idem : (a : Onion) → join_onion a a ≡ a
join_onion_idem a = rw (join_onion-merge a a) (merge_idem a)

pub join_onion_assoc :
    (a b c : Onion) → join_onion (join_onion a b) c ≡ join_onion a (join_onion b c)
join_onion_assoc a b c = simp (join_onion-merge, merge_assoc)
