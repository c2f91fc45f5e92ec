-- ===== src/Lartcc/Dataflow/Invariant.antt =====
-- What `process` of lartcc/dfa.cpp keeps: every edge of a value whose type has changed is waiting in the
-- work list, or has had its effect.
use lart.Common.{
  ℕ, ◌≡◌, ◌<◌, ◌⊎◌, inl, inr, ⊎_map, refl, sym, subst, arith, Bool, true, false, List, [], ◌∷◌,
  ◌++◌, length, Memᴰ, Bool-cases,
}
use lart.Lartcc.Layer.{Layer, Tristate, same}
use lart.Lartcc.Onion.{Onion, wrap, peel, join_onion}
use lart.Lartcc.Onion.Merge.{merge}
use lart.Lartcc.Onion.Order.{rank, join_onion-rank}
use lart.Lartcc.Onion.Solid.{solid, wrap-solid, peel-solid, join_onion-solid, join_onion-length}
use lart.Lartcc.Dataflow.{
  Value, Edge, Flow, uniform, load, store, Types, assign, state, same_onion, same_layer, back,
  initial, push, push_change, joined_by, joined, process,
}

same_iff : (a b : Tristate) → same a b ≡ true → a ≡ b
same_iff a b h = ground arith

same_layer-eq : (a b : Layer) → same_layer a b ≡ true → a ≡ b
same_layer-eq a b h =
    rw (same_iff a.pointer b.pointer (ground arith), same_iff a.abstract b.abstract (ground arith))
      refl

same_onion-eq : (a b : Onion) → same_onion a b ≡ true → a ≡ b
same_onion-eq [] [] h = refl
same_onion-eq [] (y ∷ ys) h = absurd (ground arith)
same_onion-eq (x ∷ xs) [] h = absurd (ground arith)
same_onion-eq (x ∷ xs) (y ∷ ys) h =
    rw (same_layer-eq x y (ground arith), same_onion-eq xs ys (ground arith)) refl

same_onion_refl : (a : Onion) → same_onion a a ≡ true
same_onion_refl [] = refl
same_onion_refl (x ∷ xs) = ground (arith, same_onion_refl xs)

-- What an edge joins to the type of its target.
unfoldable pub flow_by : Flow → Bool → Onion → Onion
flow_by uniform true from = back from ∷ []
flow_by uniform false from = from
flow_by load cmp from = peel from
flow_by store cmp from = wrap from

pub flow_by-solid :
    (ty : Flow) (cmp : Bool) (from : Onion) → solid from ≡ true → solid (flow_by ty cmp from) ≡ true
unfolding flow_by
flow_by-solid uniform true from h = unfold solid in refl
flow_by-solid uniform false from h = h
flow_by-solid load cmp from h = peel-solid from h
flow_by-solid store cmp from h = wrap-solid from h

joined_by-flow_by :
    (ty : Flow) (cmp : Bool) (to from : Onion)
    → (cmp ≡ true → length to ≡ 1)
    → joined_by ty cmp to from ≡ join_onion to (flow_by ty cmp from)
unfolding joined_by flow_by
joined_by-flow_by uniform true [] from h = absurd (ground (arith, h refl))
joined_by-flow_by uniform true (x ∷ []) from h = unfold join_onion merge in refl
joined_by-flow_by uniform true (x ∷ y ∷ ys) from h = absurd (ground (arith, h refl))
joined_by-flow_by uniform false to from h = refl
joined_by-flow_by load cmp to from h = refl
joined_by-flow_by store cmp to from h = refl

module _ (is_cmp : Value → Bool) (nesting : Value → ℕ) (edges : Value → List Edge) where
  abbrev pub flow : Edge → Types → Onion
  flow e types = flow_by e.ty (is_cmp e.to) (types e.from)

  -- The types that the analysis meets: a comparison is never a pointer.
  pub record Fits (v : Value) (t : Onion) : Type 0 where
    pub firm : solid t ≡ true
    pub flat : is_cmp v ≡ true → length t ≡ 1

  abbrev pub Settled : Types → Edge → Type 0
  Settled types e = join_onion (types e.to) (flow e types) ≡ types e.to

  joined-flow :
      (e : Edge) (types : Types)
      → Fits e.to (types e.to)
      → joined is_cmp nesting edges e types ≡ join_onion (types e.to) (flow e types)
  unfolding joined
  joined-flow e types h = joined_by-flow_by e.ty (is_cmp e.to) (types e.to) (types e.from) h.flat

  pub join-Fits : (v : Value) (t f : Onion) → Fits v t → solid f ≡ true → Fits v (join_onion t f)
  join-Fits v t f h k = record {
    firm = join_onion-solid t f h.firm k;
    flat = λ c. join_onion-length t f (h.flat c) k;
  }

  -- The invariant of the loop.
  pub record Tracked (wl : List Edge) (types : Types) : Type 0 where
    pub fits : (v : Value) → Fits v (types v)
    pub waits :
        (v : Value) (e : Edge)
        → Memᴰ e (edges v)
        → e.from ≡ v
        → (types v ≡ initial is_cmp nesting edges v) ⊎ (Memᴰ e wl ⊎ Settled types e)

  -- The two ways that `process` goes.
  pub process-cases :
      (e : Edge) (es : List Edge) (types : Types)
      → Fits e.to (types e.to)
      → let t = join_onion (types e.to) (flow e types) in
        ((t ≡ types e.to) × (process is_cmp nesting edges e (state es types) ≡ state es types))
        ⊎ ((rank t < rank (types e.to))
            × (process is_cmp nesting edges e (state es types)
                ≡ state (es ++ edges e.to) (assign e.to t types)))
  unfolding process push_change push
  process-cases e es types h =
      elim (Bool-cases (same_onion (types e.to) (join_onion (types e.to) (flow e types)))) [
        | inl s ↦ inl (sym (same_onion-eq _ _ s), rw (joined-flow e types h) (rw s refl))
        | inr s ↦ elim (join_onion-rank (types e.to) (flow e types)) [
          | inl k ↦ absurd (cc (same_onion_refl (types e.to), k, s))
          | inr l ↦ inr (l, rw (joined-flow e types h) (rw s refl))
        ]
      ]

  drop_head :
      (e : Edge) (es : List Edge) (types : Types) (f : Edge)
      → Settled types e
      → Memᴰ f (e ∷ es) ⊎ Settled types f
      → Memᴰ f es ⊎ Settled types f
  drop_head e es types f s (inl (Memᴰ.head g)) = inr (subst (λ x. Settled types x) (sym g) s)
  drop_head e es types f s (inl (Memᴰ.tail g)) = inl g
  drop_head e es types f s (inr d) = inr d

  pub same_kept :
      (e : Edge) (es : List Edge) (types : Types)
      → Tracked (e ∷ es) types
      → Settled types e
      → Tracked es types
  same_kept e es types h s = record {
    fits = h.fits;
    waits = λ v f m k. ⊎_map (λ i. i) (drop_head e es types f s) (h.waits v f m k);
  }
