-- ===== src/Lartcc/Dataflow/Potential.antt =====
-- What bounds the work list of lartcc/dfa.cpp: an edge that changes a type uses up some of what the types
-- of the values can still lose, and this pays for the edges that it pushes.
use lart.Common.{
  ℕ, zero, suc, ◌+◌, ◌≤◌, ◌<◌, ◌≡◌, inl, inr, arith, true, ◌==◌, List, [], ◌∷◌, length, Memᴰ,
  Bool-cases,
}
use mathlib.Core.List.Memᴰ
use lart.Lartcc.Onion.{Onion}
use lart.Lartcc.Onion.Order.{rank}
use lart.Lartcc.Dataflow.{Value, Edge, Types, assign}

abbrev pub weight : ℕ → ℕ → ℕ
weight zero w = 0
weight (suc k) w = w + weight k w

weight_mono : (j k w : ℕ) → j ≤ k → weight j w ≤ weight k w
weight_mono zero k w h = omega arith
weight_mono (suc j) zero w h = absurd (ground arith)
weight_mono (suc j) (suc k) w h = omega (arith, weight_mono j k w (omega (arith, h)))

weight-lt : (j k w : ℕ) → j < k → w + weight j w ≤ weight k w
weight-lt j zero w h = absurd (ground arith)
weight-lt j (suc k) w h = omega (arith, weight_mono j k w (omega (arith, h)))

module _ (edges : Value → List Edge) where
  -- What the types of the values `vs` can pay for.
  abbrev pub potential : List Value → Types → ℕ
  potential [] types = 0
  potential (v ∷ vs) types = weight (rank (types v)) (length (edges v)) + potential vs types

  module _ (u : Value) (t : Onion) (types : Types) (less : rank t < rank (types u)) where
    weight_at :
        (v : Value)
        → weight (rank (assign u t types v)) (length (edges v))
          ≤ weight (rank (types v)) (length (edges v))
    weight_at v = elim (Bool-cases (v == u)) [
      | inl e ↦
          (let k : v ≡ u = ground (arith, e) in
            rw e
              (rw k (omega (arith, weight-lt (rank t) (rank (types u)) (length (edges u)) less))))
      | inr e ↦ rw e (omega arith)
    ]

    weight_at_u :
        length (edges u) + weight (rank (assign u t types u)) (length (edges u))
        ≤ weight (rank (types u)) (length (edges u))
    weight_at_u =
        let e : (u == u) ≡ true = ground arith in
        rw e (weight-lt (rank t) (rank (types u)) (length (edges u)) less)

    potential-assign_le : (vs : List Value) → potential vs (assign u t types) ≤ potential vs types
    potential-assign_le [] = omega arith
    potential-assign_le (v ∷ vs) = omega (arith, weight_at v, potential-assign_le vs)

    pub potential-assign :
        (vs : List Value)
        → Memᴰ u vs
        → length (edges u) + potential vs (assign u t types) ≤ potential vs types
    potential-assign [] m = absurd (Memᴰ.not-nil m)
    potential-assign (v ∷ vs) (Memᴰ.head e) =
        rw (← e) (omega (arith, weight_at_u, potential-assign_le vs))
    potential-assign (v ∷ vs) (Memᴰ.tail m) = omega (arith, weight_at v, potential-assign vs m)
