-- ===== src/Lartcc/Onion/Order.antt =====
-- How `join` of lartcc/include/cc/dfa.hpp moves a type: it loses layers or certainty, and nothing else.
use lart.Common.{ℕ, suc, ◌+◌, ◌≤◌, ◌<◌, ◌≡◌, ◌⊎◌, inl, inr, refl, ap, arith, [], ◌∷◌}
use lart.Lartcc.Layer.{Tristate, no, yes, maybe, join, Layer, join_layer}
use lart.Lartcc.Onion.{Onion, join_onion}
use lart.Lartcc.Onion.Merge.{merge, collapse, loose}
use lart.Lartcc.Onion.Semilattice.{join_onion-merge}

-- What a type can still lose.
abbrev pub doubt : Tristate → ℕ
doubt no = 1
doubt yes = 1
doubt maybe = 0

abbrev pub rank_layer : Layer → ℕ
rank_layer x = doubt x.pointer + doubt x.abstract

abbrev pub rank : Onion → ℕ
rank [] = 0
rank (x ∷ xs) = suc (rank_layer x + rank xs)

join-doubt : (a b : Tristate) → (join a b ≡ a) ⊎ (doubt (join a b) < doubt a)
unfolding join
join-doubt no no = inl refl
join-doubt no yes = inr (omega arith)
join-doubt no maybe = inr (omega arith)
join-doubt yes no = inr (omega arith)
join-doubt yes yes = inl refl
join-doubt yes maybe = inr (omega arith)
join-doubt maybe b = ground arith

join-rank_layer :
    (x y : Layer) → (join_layer x y ≡ x) ⊎ (rank_layer (join_layer x y) < rank_layer x)
unfolding join_layer
join-rank_layer x y = elim (join-doubt x.pointer y.pointer) [
  | inl p ↦ elim (join-doubt x.abstract y.abstract) [
    | inl a ↦ inl (rw (p, a) refl)
    | inr a ↦ inr (omega (arith, ap doubt p, a))
  ]
  | inr p ↦ elim (join-doubt x.abstract y.abstract) [
    | inl a ↦ inr (omega (arith, ap doubt a, p))
    | inr a ↦ inr (omega (arith, p, a))
  ]
]

join-rank_le : (x y : Layer) → rank_layer (join_layer x y) ≤ rank_layer x
join-rank_le x y = elim (join-rank_layer x y) [
  | inl e ↦ omega (arith, ap rank_layer e)
  | inr l ↦ omega (arith, l)
]

loose-rank : (x : Layer) → rank_layer (loose x) ≤ rank_layer x
unfolding loose
loose-rank x = omega arith

collapse-rank : (x : Layer) (xs : Onion) → rank_layer (collapse x xs) ≤ rank_layer x
collapse-rank x [] = omega arith
collapse-rank x (y ∷ ys) =
    omega (arith, loose-rank (join_layer x (collapse y ys)), join-rank_le x (collapse y ys))

merge-rank : (a b : Onion) → (merge a b ≡ a) ⊎ (rank (merge a b) < rank a)
unfolding merge
merge-rank [] b = inl refl
merge-rank (x ∷ []) [] = inr (omega arith)
merge-rank (x ∷ x' ∷ xs) [] = inr (omega arith)
merge-rank (x ∷ []) (y ∷ ys) = elim (join-rank_layer x (collapse y ys)) [
  | inl e ↦ inl (rw e refl)
  | inr l ↦ inr (omega (arith, l))
]
merge-rank (x ∷ x' ∷ xs) (y ∷ []) =
    inr (omega (arith, join-rank_le (collapse x (x' ∷ xs)) y, collapse-rank x (x' ∷ xs)))
merge-rank (x ∷ x' ∷ xs) (y ∷ y' ∷ ys) = elim (merge-rank (x' ∷ xs) (y' ∷ ys)) [
  | inl e ↦ elim (join-rank_layer x y) [
    | inl p ↦ inl (rw (p, e) refl)
    | inr p ↦ inr (omega (arith, p, ap rank e))
  ]
  | inr l ↦ inr (omega (arith, l, join-rank_le x y))
]

pub join_onion-rank : (a b : Onion) → (join_onion a b ≡ a) ⊎ (rank (join_onion a b) < rank a)
join_onion-rank a b = rw (join_onion-merge a b) (merge-rank a b)
