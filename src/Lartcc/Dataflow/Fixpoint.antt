-- ===== src/Lartcc/Dataflow/Fixpoint.antt =====
-- The loop of lartcc/dfa.cpp ends, and its result is closed under the edges of the program.
use lart.Common.{
  ℕ, zero, suc, ◌+◌, ◌≤◌, ◌≡◌, inl, inr, refl, sym, ap, ◌∙◌, arith, Bool, ◌==◌, Option, some, List,
  [], ◌∷◌, ◌++◌, length, length-append, Memᴰ, Bool-cases,
}
use mathlib.Core.List.Memᴰ
use lart.Lartcc.Onion.{Onion, join_onion}
use lart.Lartcc.Onion.Semilattice.{join_onion_comm, join_onion_assoc, join_onion_idem}
use lart.Lartcc.Dataflow.{Value, Edge, Types, assign, run}
use lart.Lartcc.Dataflow.Potential.{potential, potential-assign}
use lart.Lartcc.Dataflow.Invariant.{flow, Tracked, process-cases, same_kept}
use lart.Lartcc.Dataflow.Step.{changed_kept}

-- Types that have moved up only.
abbrev pub Above : Types → Types → Type 0
Above upper lower = (v : Value) → join_onion (upper v) (lower v) ≡ upper v

Above-refl : (types : Types) → Above types types
Above-refl types v = join_onion_idem (types v)

-- What is below the join of two types, taken from above.
below_join : (u t c : Onion) → join_onion u (join_onion t c) ≡ u → join_onion u t ≡ u
below_join u t c h =
    ap (λ x. join_onion x t) (sym h)
    ∙ join_onion_assoc u (join_onion t c) t
    ∙ ap (λ x. join_onion u x)
        (join_onion_comm (join_onion t c) t
          ∙ sym (join_onion_assoc t t c)
          ∙ ap (λ x. join_onion x c) (join_onion_idem t))
    ∙ h

Above-assign :
    (upper types : Types) (u : Value) (c : Onion)
    → Above upper (assign u (join_onion (types u) c) types)
    → Above upper types
Above-assign upper types u c h v = elim (Bool-cases (v == u)) [
  | inl s ↦
      (let k : types v ≡ types u = ap types (ground (arith, s)) in
        rw k (below_join (upper v) (types u) c (rw s at (h v))))
  | inr s ↦ rw s at (h v)
]

module _ (is_cmp : Value → Bool) (nesting : Value → ℕ) (edges : Value → List Edge)
    (values : List Value) where
  -- The program is finite: `values` has the target of every edge.
  abbrev pub Closed : Type 0
  Closed = (v : Value) (e : Edge) → Memᴰ e (edges v) → Memᴰ e.to values

  abbrev pub Outcome : Option Types → Types → Type 0
  Outcome result types =
      (final : Types) × (result ≡ some final)
      × Tracked is_cmp nesting edges [] final
      × Above final types

  targets_append :
      (u : Value) (es : List Edge)
      → Closed
      → ((f : Edge) → Memᴰ f es → Memᴰ f.to values)
      → (f : Edge) → Memᴰ f (es ++ edges u)
      → Memᴰ f.to values
  targets_append u es closed h f m = elim (Memᴰ.append_cases es m) [
    | inl l ↦ h f l
    | inr r ↦ closed u f r
  ]

  pub run-Outcome :
      (fuel : ℕ) (wl : List Edge) (types : Types)
      → Closed
      → ((f : Edge) → Memᴰ f wl → Memᴰ f.to values)
      → Tracked is_cmp nesting edges wl types
      → length wl + potential edges values types ≤ fuel
      → Outcome (run is_cmp nesting edges fuel wl types) types
  unfolding run
  run-Outcome fuel [] types closed targets kept enough = (types, refl, kept, Above-refl types)
  run-Outcome zero (e ∷ es) types closed targets kept enough = absurd (ground (arith, enough))
  run-Outcome (suc fuel) (e ∷ es) types closed targets kept enough =
      elim (process-cases is_cmp nesting edges e es types (kept.fits e.to)) [
        | inl (s, p) ↦ rw p (
            run-Outcome fuel es types closed (λ f m. targets f (Memᴰ.tail m))
              (same_kept is_cmp nesting edges e es types kept s) (omega (arith, enough)))
        | inr (less, p) ↦ rw p (
            let rest =
              run-Outcome fuel (es ++ edges e.to)
                (assign e.to (join_onion (types e.to) (flow is_cmp nesting edges e types)) types)
                closed (targets_append e.to es closed (λ f m. targets f (Memᴰ.tail m)))
                (changed_kept is_cmp nesting edges e es types kept)
                (omega (
                  arith,
                  enough,
                  length-append es (edges e.to),
                  potential-assign edges e.to _ types less values (targets e (Memᴰ.head refl)),
                )) in
            (rest.0, rest.1, rest.2, Above-assign rest.0 types e.to _ rest.3))
      ]
