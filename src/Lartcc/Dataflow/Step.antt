-- ===== src/Lartcc/Dataflow/Step.antt =====
-- One step of the loop of lartcc/dfa.cpp keeps its invariant and uses up its potential.
use lart.Common.{
  ℕ, ◌≡◌, ◌⊎◌, inl, inr, ⊎_map, refl, sym, ap, subst, arith, Bool, true, false, ◌==◌, List, ◌∷◌,
  ◌++◌, Memᴰ, Bool-cases,
}
use mathlib.Core.List.Memᴰ
use lart.Lartcc.Onion.{Onion, join_onion}
use lart.Lartcc.Onion.Semilattice.{join_onion_comm, join_onion_assoc, join_onion_idem}
use lart.Lartcc.Dataflow.{Value, Edge, Types, assign}
use lart.Lartcc.Dataflow.Invariant.{flow, flow_by-solid, Fits, Settled, Tracked, join-Fits}

-- What has been joined to a type stays joined to it.
stays : (t a b : Onion) → join_onion t b ≡ t → join_onion (join_onion t a) b ≡ join_onion t a
stays t a b h = rw (join_onion_assoc t a b, join_onion_comm a b, ← join_onion_assoc t b a, h) refl

joins : (t a : Onion) → join_onion (join_onion t a) a ≡ join_onion t a
joins t a = rw (join_onion_assoc t a a, join_onion_idem a) refl

module _ (is_cmp : Value → Bool) (nesting : Value → ℕ) (edges : Value → List Edge) (e : Edge)
    (es : List Edge) (types : Types) (kept : Tracked is_cmp nesting edges (e ∷ es) types) where
  abbrev next : Onion
  next = join_onion (types e.to) (flow is_cmp nesting edges e types)

  abbrev after : Types
  after = assign e.to next types

  next-Fits : Fits is_cmp nesting edges e.to next
  next-Fits =
      join-Fits is_cmp nesting edges e.to (types e.to) (flow is_cmp nesting edges e types)
        (kept.fits e.to) (flow_by-solid e.ty (is_cmp e.to) (types e.from) (kept.fits e.from).firm)

  after-Fits : (v : Value) → Fits is_cmp nesting edges v (after v)
  after-Fits v = elim (Bool-cases (v == e.to)) [
    | inl s ↦ (let k : v ≡ e.to = ground (arith, s) in rw s (rw k next-Fits))
    | inr s ↦ rw s (kept.fits v)
  ]

  Settled-after :
      (f : Edge)
      → (f.from == e.to) ≡ false
      → Settled is_cmp nesting edges types f
      → Settled is_cmp nesting edges after f
  Settled-after f ne d = elim (Bool-cases (f.to == e.to)) [
    | inl s ↦
        (let k : types f.to ≡ types e.to = ap types (ground (arith, s)) in
          rw (s, ne)
            (stays (types e.to) (flow is_cmp nesting edges e types)
              (flow is_cmp nesting edges f types) (rw (← k) d)))
    | inr s ↦ rw (s, ne) d
  ]

  Settled-self : (e.from == e.to) ≡ false → Settled is_cmp nesting edges after e
  Settled-self ne =
      (let s : (e.to == e.to) ≡ true = ground arith in
        rw (s, ne) (joins (types e.to) (flow is_cmp nesting edges e types)))

  -- What waits for an edge of a value that is not the target.
  waits_after :
      (v : Value) (f : Edge)
      → f.from ≡ v
      → (v == e.to) ≡ false
      → Memᴰ f (e ∷ es) ⊎ Settled is_cmp nesting edges types f
      → Memᴰ f (es ++ edges e.to) ⊎ Settled is_cmp nesting edges after f
  waits_after v f k ne (inl (Memᴰ.head g)) = inr (
      subst (λ x. Settled is_cmp nesting edges after x) (sym g)
        (Settled-self (ground (arith, ap (λ x. x.from) g))))
  waits_after v f k ne (inl (Memᴰ.tail g)) = inl (Memᴰ.append_left (edges e.to) g)
  waits_after v f k ne (inr d) = inr (Settled-after f (ground arith) d)

  pub changed_kept : Tracked is_cmp nesting edges (es ++ edges e.to) after
  changed_kept = record {
    fits = after-Fits;
    waits = λ v f m k. elim (Bool-cases (v == e.to)) [
      | inl s ↦
          (let g : v ≡ e.to = ground (arith, s) in
            inr (inl (Memᴰ.append_right es (subst (λ x. Memᴰ f (edges x)) g m))))
      | inr s ↦ rw s (⊎_map (λ i. i) (waits_after v f k s) (kept.waits v f m k))
    ];
  }
