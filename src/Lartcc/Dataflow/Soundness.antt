-- ===== src/Lartcc/Dataflow/Soundness.antt =====
-- The analysis of lartcc/dfa.cpp as a whole, on a program with finitely many values and edges.
use lart.Common.{
  ℕ, ◌+◌, ◌≤◌, ◌≡◌, ◌⊎◌, inl, inr, ⊎_map, refl, sym, ap, subst, ◌∙◌, Bool, true, false, some, List,
  [], ◌∷◌, length, Memᴰ,
}
use mathlib.Core.List.Memᴰ
use lart.Lartcc.Layer.{to_bool}
use lart.Lartcc.Onion.{Onion, of_nesting, join_onion, wrap, peel, peel_asserts, is_abstract}
use lart.Lartcc.Onion.Solid.{of_nesting-solid, solid-peel_asserts}
use lart.Lartcc.Onion.Spread.{
  above-is_abstract, peel-is_abstract, of_nesting-is_abstract, peel-of_nesting,
}
use lart.Lartcc.Dataflow.{
  Value, Edge, uniform, load, store, Kind, Types, State, state, initial, start, run, run_from,
  process,
}
use lart.Lartcc.Dataflow.Potential.{potential}
use lart.Lartcc.Dataflow.Invariant.{flow, flow_by, Settled, Tracked, process-cases, same_kept}
use lart.Lartcc.Dataflow.Step.{changed_kept}
use lart.Lartcc.Dataflow.Fixpoint.{Outcome, run-Outcome}
use lart.Lartcc.Dataflow.Roots.{Ready, start-Ready, start-roots, start-targets}

module _ (is_cmp : Value → Bool) (nesting : Value → ℕ) (edges : Value → List Edge) where
  -- One step of the loop keeps the invariant: every type has layers that may be pointers above its front,
  -- a comparison has one layer, and an edge of a value with a changed type waits or has had its effect.
  -- The assertion of `peel` holds on the source of the edge.
  pub process_tracks :
      (e : Edge) (es : List Edge) (types : Types)
      → Tracked is_cmp nesting edges (e ∷ es) types
      → Tracked is_cmp nesting edges
          (process is_cmp nesting edges e (state es types)).worklist
          (process is_cmp nesting edges e (state es types)).types
        × (peel_asserts (types e.from) ≡ true)
  process_tracks e es types h = (
    elim (process-cases is_cmp nesting edges e es types (h.fits e.to)) [
      | inl (s, p) ↦ rw p (same_kept is_cmp nesting edges e es types h s)
      | inr (l, p) ↦ rw p (changed_kept is_cmp nesting edges e es types h)
    ],
    solid-peel_asserts (types e.from) (h.fits e.from).firm,
  )

uniform-is_abstract :
    (cmp : Bool) (from : Onion) → is_abstract (flow_by uniform cmp from) ≡ is_abstract from
unfolding flow_by is_abstract to_bool
uniform-is_abstract true [] = refl
uniform-is_abstract true (x ∷ xs) = refl
uniform-is_abstract false from = refl

waited : {A B : Type 0} {e : Edge} → A ⊎ (Memᴰ e [] ⊎ B) → A ⊎ B
waited (inl a) = inl a
waited (inr (inl m)) = absurd (Memᴰ.not-nil m)
waited (inr (inr b)) = inr b

module _ (is_cmp : Value → Bool) (nesting : Value → ℕ) (edges : Value → List Edge)
    (values : List Value) (scalar_cmp : (v : Value) → is_cmp v ≡ true → nesting v ≡ 0)
    (closed : (v : Value) (e : Edge) → Memᴰ e (edges v) → Memᴰ e.to values)
    (roots : List (Value × Kind)) where
  abbrev pub started : State
  started = start is_cmp nesting edges roots (state [] (initial is_cmp nesting edges))

  -- The number of steps that suffices.
  abbrev pub enough : ℕ
  enough = length started.worklist + potential edges values started.types

  initial-Ready : Ready is_cmp nesting edges (state [] (initial is_cmp nesting edges))
  initial-Ready = record {
    fits = λ v. record {
      firm = of_nesting-solid (nesting v);
      flat = λ c. ap (λ n. length (of_nesting n)) (scalar_cmp v c) ∙ (unfold of_nesting in refl);
    };
    waits = λ v e m f. inl refl;
  }

  started-Ready : Ready is_cmp nesting edges started
  started-Ready = start-Ready is_cmp nesting edges roots _ initial-Ready

  pub started-Tracked : Tracked is_cmp nesting edges started.worklist started.types
  started-Tracked = record {
    fits = started-Ready.fits;
    waits = λ v e m f. ⊎_map (λ i. i) (λ w. inl w) (started-Ready.waits v e m f);
  }

  module _ (fuel : ℕ) (fuelled : enough ≤ fuel) where
    outcome :
        Outcome is_cmp nesting edges values
          (run is_cmp nesting edges fuel started.worklist started.types)
          started.types
    outcome =
        run-Outcome is_cmp nesting edges values fuel started.worklist started.types closed
          (start-targets is_cmp nesting edges values roots _ closed
            (λ f m. absurd (Memᴰ.not-nil m)))
          started-Tracked fuelled

    -- On a program with finitely many values, in which no comparison is a pointer, the loop
    -- over the work list ends: as many steps suffice as there are edges waiting at first and
    -- edges that the types of the values can still pay for.
    pub analysis_ends : (final : Types) × (run_from is_cmp nesting edges fuel roots ≡ some final)
    unfolding run_from
    analysis_ends = (outcome.0, outcome.1)

    module _ (final : Types) (result : run_from is_cmp nesting edges fuel roots ≡ some final) where
      finished : outcome.0 ≡ final
      unfolding run_from
      finished = cc (outcome.1, result)

      final-Tracked : Tracked is_cmp nesting edges [] final
      final-Tracked = rw (← finished) outcome.2

      -- On a program with finitely many values, in which no comparison is a pointer, and with
      -- at least the fuel named by `enough`, every root of the analysis is abstract in its
      -- result.
      pub roots_abstract :
          (root : Value × Kind) → Memᴰ root roots → is_abstract (final root.0) ≡ true
      roots_abstract root m =
          above-is_abstract (final root.0) (started.types root.0) (final-Tracked.fits root.0).firm
            (subst (λ t. join_onion (t root.0) (started.types root.0) ≡ t root.0) finished
              (outcome.3 root.0))
            (start-roots is_cmp nesting edges roots _ root initial-Ready m)

      settled :
          (e : Edge)
          → Memᴰ e (edges e.from)
          → (final e.from ≡ of_nesting (nesting e.from)) ⊎ Settled is_cmp nesting edges final e
      settled e m = waited (final-Tracked.waits e.from e m refl)

      -- An edge whose effect is abstract has an abstract target.
      spreads :
          (e : Edge)
          → Settled is_cmp nesting edges final e
          → is_abstract (flow is_cmp nesting edges e final) ≡ true
          → is_abstract (final e.to) ≡ true
      spreads e d h =
          above-is_abstract (final e.to) (flow is_cmp nesting edges e final)
            (final-Tracked.fits e.to).firm d h

      -- On a program with finitely many values, in which no comparison is a pointer, and with
      -- at least the fuel named by `enough`, the target of a uniform edge of an abstract value
      -- is abstract in the result of the analysis.
      pub uniform_flows :
          (e : Edge)
          → Memᴰ e (edges e.from)
          → e.ty ≡ uniform
          → is_abstract (final e.from) ≡ true
          → is_abstract (final e.to) ≡ true
      uniform_flows e m t h = elim (settled e m) [
        | inl i ↦ absurd (cc (h, ap is_abstract i, of_nesting-is_abstract (nesting e.from)))
        | inr d ↦ spreads e d (
            ap (λ y. is_abstract (flow_by y (is_cmp e.to) (final e.from))) t
            ∙ uniform-is_abstract (is_cmp e.to) (final e.from)
            ∙ h)
      ]

      stored :
          (s : Edge)
          → Memᴰ s (edges s.from)
          → s.ty ≡ store
          → is_abstract (final s.from) ≡ true
          → is_abstract (peel (final s.to)) ≡ true
      unfolding wrap flow_by
      stored s m t h = elim (settled s m) [
        | inl i ↦ absurd (cc (h, ap is_abstract i, of_nesting-is_abstract (nesting s.from)))
        | inr d ↦
            peel-is_abstract (final s.to) (final s.from) (final-Tracked.fits s.to).firm
              (subst
                (λ y. join_onion (final s.to) (flow_by y (is_cmp s.to) (final s.from)) ≡ final s.to)
                t d)
              h
      ]

      -- On a program with finitely many values, in which no comparison is a pointer, and with
      -- at least the fuel named by `enough`, a value that is loaded from where an abstract
      -- value may be stored is abstract in the result of the analysis: the store is an edge
      -- from the value to the place, and the load an edge from the place.
      pub memory_flows :
          (s l : Edge)
          → Memᴰ s (edges s.from)
          → Memᴰ l (edges l.from)
          → s.ty ≡ store
          → l.ty ≡ load
          → s.to ≡ l.from
          → is_abstract (final s.from) ≡ true
          → is_abstract (final l.to) ≡ true
      unfolding flow_by
      memory_flows s l ms ml ts tl same h =
          let place = stored s ms ts h in
          elim (settled l ml) [
            | inl i ↦ absurd (
                cc (
                  place,
                  ap (λ o. is_abstract (peel o)) i,
                  ap (λ o. is_abstract (peel o)) (ap final same),
                  peel-of_nesting (nesting l.from),
                ))
            | inr d ↦ spreads l d (
                ap (λ y. is_abstract (flow_by y (is_cmp l.to) (final l.from))) tl
                ∙ ap (λ v. is_abstract (peel (final v))) (sym same)
                ∙ place)
          ]
