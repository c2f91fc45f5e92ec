-- ===== src/Lartcc/Onion/Spread.antt =====
-- Abstraction in the types of lartcc/include/cc/dfa.hpp: it is never joined away, and it passes through memory.
use lart.Common.{ℕ, zero, suc, ◌≡◌, refl, sym, ap, ◌∙◌, arith, true, false, [], ◌∷◌, drop}
use lart.Lartcc.Layer.{yes, no, Layer, layer, to_bool, join, join_layer}
use lart.Lartcc.Onion.{
  Onion, of_nesting, make_abstract, make_pointer, make_abstract_pointer, wrap, peel, join_onion,
  is_abstract,
}
use lart.Lartcc.Onion.Merge.{merge, collapse, loose}
use lart.Lartcc.Onion.Semilattice.{merge_comm, join_onion-merge, join_onion_comm}
use lart.Lartcc.Onion.Solid.{solid}

join-abstract : (x y : Layer) → to_bool x.abstract ≡ true → to_bool (join_layer x y).abstract ≡ true
unfolding to_bool join_layer join
join-abstract x y h = ground arith

abstract-join : (x y : Layer) → to_bool y.abstract ≡ true → to_bool (join_layer x y).abstract ≡ true
unfolding to_bool join_layer join
abstract-join x y h = ground arith

collapse-abstract :
    (x : Layer) (xs : Onion) → to_bool x.abstract ≡ true → to_bool (collapse x xs).abstract ≡ true
unfolding loose
collapse-abstract x [] h = h
collapse-abstract x (y ∷ ys) h = join-abstract x (collapse y ys) h

merge-is_abstract :
    (a b : Onion) → solid b ≡ true → is_abstract a ≡ true → is_abstract (merge a b) ≡ true
unfolding merge is_abstract solid
merge-is_abstract [] b k h = h
merge-is_abstract (x ∷ xs) [] k h = absurd (ground arith)
merge-is_abstract (x ∷ []) (y ∷ ys) k h = join-abstract x (collapse y ys) h
merge-is_abstract (x ∷ x' ∷ xs) (y ∷ []) k h =
    join-abstract (collapse x (x' ∷ xs)) y (collapse-abstract x (x' ∷ xs) h)
merge-is_abstract (x ∷ x' ∷ xs) (y ∷ y' ∷ ys) k h = join-abstract x y h

-- A type that has taken in an abstract one is abstract.
pub above-is_abstract :
    (t c : Onion)
    → solid t ≡ true
    → join_onion t c ≡ t
    → is_abstract c ≡ true
    → is_abstract t ≡ true
above-is_abstract t c k e h =
    cc (join_onion_comm c t, join_onion-merge c t, merge-is_abstract c t k h, e)

merge-wrap :
    (p : Onion) (w y : Layer) (ys : Onion)
    → solid p ≡ true
    → is_abstract (y ∷ ys) ≡ true
    → merge p (w ∷ y ∷ ys) ≡ p
    → is_abstract (peel p) ≡ true
unfolding merge is_abstract peel
merge-wrap [] w y ys k h e = absurd (unfold solid in ground arith)
merge-wrap (x ∷ []) w y ys k h e =
    sym (ap is_abstract e)
    ∙ abstract-join x (collapse w (y ∷ ys))
        (unfold loose in abstract-join w (collapse y ys) (collapse-abstract y ys h))
merge-wrap (x ∷ x' ∷ xs) w y ys k h e =
    sym (ap (λ o. is_abstract (drop 1 o)) e)
    ∙ ap is_abstract (merge_comm (x' ∷ xs) (y ∷ ys))
    ∙ merge-is_abstract (y ∷ ys) (x' ∷ xs) (unfold solid in ground arith) h

-- What has been stored is abstract when it is loaded.
pub peel-is_abstract :
    (p v : Onion)
    → solid p ≡ true
    → join_onion p (wrap v) ≡ p
    → is_abstract v ≡ true
    → is_abstract (peel p) ≡ true
peel-is_abstract p [] k e h = absurd (unfold is_abstract in ground arith)
peel-is_abstract p (y ∷ ys) k e h =
    unfold wrap in
    merge-wrap p (layer yes no) y ys k h (sym (join_onion-merge p (layer yes no ∷ y ∷ ys)) ∙ e)

pub of_nesting-is_abstract : (n : ℕ) → is_abstract (of_nesting n) ≡ false
unfolding is_abstract of_nesting to_bool
of_nesting-is_abstract zero = refl
of_nesting-is_abstract (suc n) = refl

pub peel-of_nesting : (n : ℕ) → is_abstract (peel (of_nesting n)) ≡ false
unfolding is_abstract of_nesting peel to_bool
peel-of_nesting zero = refl
peel-of_nesting (suc zero) = refl
peel-of_nesting (suc (suc n)) = refl

pub make_abstract-is_abstract : (o : Onion) → solid o ≡ true → is_abstract (make_abstract o) ≡ true
unfolding is_abstract make_abstract to_bool solid
make_abstract-is_abstract [] h = absurd (ground arith)
make_abstract-is_abstract (x ∷ xs) h = refl

pub make_abstract_pointer-is_abstract :
    (o : Onion) → solid o ≡ true → is_abstract (make_abstract_pointer o) ≡ true
unfolding is_abstract make_abstract_pointer make_abstract make_pointer to_bool solid
make_abstract_pointer-is_abstract [] h = absurd (ground arith)
make_abstract_pointer-is_abstract (x ∷ []) h = refl
make_abstract_pointer-is_abstract (x ∷ y ∷ ys) h = refl
