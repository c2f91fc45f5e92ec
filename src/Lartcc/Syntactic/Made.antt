-- ===== src/Lartcc/Syntactic/Made.antt =====
-- A new call, and the link from the call of a faulting operation, in lartcc/syntactic.cpp.
use mathlib.Core.Option.{some-injective}
use lart.Common.{
  ℕ, suc, ◌≤◌, ◌≡◌, ◌≢◌, refl, sym, subst, ◌∙◌, ◌⊎◌, inl, inr, Bool, ◌==◌, ◌&&◌, Bool-cases,
  Option-cases, some, List, [], ◌∷◌, Segment, Memᴰ, arith,
}
use lart.Lartcc.Dataflow.{Value}
use lart.Lartcc.Operation.{
  Ir, Operation, Place, with_taint_at, concrete_at, abstract_at, returns_value, faultable,
}
use lart.Lartcc.Syntactic.{
  State, new_call, link_faultable, replace_uses, visit_place, visit_places, set_or_store,
}
use lart.Lartcc.Syntactic.Places.{Entry, set_abstract_miss}
use lart.Lartcc.Syntactic.Filling.{IsPatched}
use lart.Lartcc.Syntactic.Walks.{Operands}

-- A state that has the same of what the places depend on is patched as well.
pub IsPatched-same :
    (null p q : Value) (s t : State) (log : List Entry)
    → p ≤ q
    → IsPatched null p s log
    → ((e : Entry) → Memᴰ e log → t.abstract e.concrete ≡ s.abstract e.concrete)
    → ((e : Entry) → Memᴰ e log → t.operand e.call e.position ≡ s.operand e.call e.position)
    → t.places ≡ s.places
    → IsPatched null q t log
IsPatched-same null p q s t log le h abstract_kept operand_kept places_kept = record {
  each = λ e m. elim (h.each e m) [
    | inl (a, k, o) ↦ inl (a, abstract_kept e m ∙ k, operand_kept e m ∙ o)
    | inr (n, o, (x, l, k)) ↦ inr (
      abstract_kept e m ∙ n,
      operand_kept e m ∙ o,
      (x, subst (λ f. Memᴰ (e.call, x) (f e.concrete)) (sym places_kept) l, k),
    )
  ];
  known = λ v c x m. h.known v c x (subst (λ f. Memᴰ (c, x) (f v)) places_kept m);
  unique = h.unique;
  old = λ e m. let (c, v) = h.old e m in (omega arith, omega arith);
}

module _ (ir : Ir) (reached : (Value → ℕ → Value) → (replaced call user : Value) → ℕ → Bool) where
  -- A call is made with the operands that are listed.
  pub new_call-Operands :
      (call vs : List Value) (pos : ℕ) (s : State)
      → Segment call pos vs
      → Operands (new_call ir reached call s).operand s.fresh pos vs
  unfolding new_call
  new_call-Operands call [] pos s h = tt
  new_call-Operands call (v ∷ vs) pos s h =
      (ground (arith, h.0), new_call-Operands call vs (suc pos) s h.1)

  pub new_call_other :
      (call : List Value) (s : State) (u : Value) (i : ℕ)
      → u ≢ s.fresh
      → (new_call ir reached call s).operand u i ≡ s.operand u i
  unfolding new_call
  new_call_other call s u i h = ground arith

  -- A faulting operation's instruction has an abstract value, which its call gets; a value of an entry is neither of
  -- them new.
  pub link_faultable_abstract :
      (o : Operation) (c : Value) (s : State) (a v : Value)
      → s.abstract o.what ≡ some a
      → v ≢ c
      → (link_faultable ir reached o c s).abstract v ≡ s.abstract v
  unfolding link_faultable
  link_faultable_abstract o c s a v h n = ground arith

  linked_value :
      (o : Operation) (c : Value) (s : State) (a v : Value)
      → s.abstract o.what ≡ some a
      → v ≡ c
      → ((link_faultable ir reached o c s).abstract v ≡ s.abstract v)
        ⊎ ((link_faultable ir reached o c s).abstract v ≡ some a)
  unfolding link_faultable faultable
  linked_value o c s a v h e = elim (Bool-cases (returns_value o && faultable ir o)) [
    | inl linked ↦ inr (rw linked (ground arith))
    | inr unlinked ↦ inl (rw unlinked refl)
  ]

  -- The abstract values after it are those before it.
  pub link_faultable_fine :
      (fine : Value → Type 0) (o : Operation) (c : Value) (s : State) (a : Value)
      → s.abstract o.what ≡ some a
      → ((v b : Value) → s.abstract v ≡ some b → fine b)
      → (v b : Value) → (link_faultable ir reached o c s).abstract v ≡ some b
      → fine b
  link_faultable_fine fine o c s a h f v b e = elim (Bool-cases (v == c)) [
    | inl same ↦ elim (linked_value o c s a v h (ground arith)) [
      | inl k ↦ f v b (sym k ∙ e)
      | inr k ↦ subst fine (some-injective a b (sym k ∙ e)) (f o.what a h)
    ]
    | inr other ↦ f v b (sym (link_faultable_abstract o c s a v h (ground arith)) ∙ e)
  ]

  -- Replacing uses of a value that stands in no place.
  pub replace_uses_other :
      (re c : Value) (s : State) (u : Value) (i : ℕ)
      → s.operand u i ≢ re
      → (replace_uses ir reached re c s).operand u i ≡ s.operand u i
  unfolding replace_uses
  replace_uses_other re c s u i h = ground arith

-- What a visit leaves alone.
module _ (c : Value) (q : Place) (v : Value) (s : State) where
  stored_abstract : (set_or_store c q v s).abstract ≡ s.abstract
  unfolding set_or_store
  stored_abstract = ground arith

  stored_fresh : (set_or_store c q v s).fresh ≡ s.fresh
  unfolding set_or_store
  stored_fresh = ground arith

  stored_other : (u : Value) (i : ℕ) → u ≢ c → (set_or_store c q v s).operand u i ≡ s.operand u i
  unfolding set_or_store
  stored_other u i h = elim (Option-cases (s.abstract v)) [
    | inl absent ↦ ground arith
    | inr (a, there) ↦
        let kept = set_abstract_miss c q a s.operand u i (λ b k e. absurd (h (sym e))) in
        ground arith
  ]

visit_place_abstract :
    (c : Value) (p : Place) (s : State) → (visit_place c p s).abstract ≡ s.abstract
visit_place_abstract c (with_taint_at t p b) s =
    stored_abstract c (with_taint_at t p b) (s.operand c p) s
visit_place_abstract c (abstract_at p b) s = stored_abstract c (abstract_at p b) (s.operand c p) s
visit_place_abstract c (concrete_at p) s = refl

visit_place_fresh : (c : Value) (p : Place) (s : State) → (visit_place c p s).fresh ≡ s.fresh
visit_place_fresh c (with_taint_at t p b) s = stored_fresh c (with_taint_at t p b) (s.operand c p) s
visit_place_fresh c (abstract_at p b) s = stored_fresh c (abstract_at p b) (s.operand c p) s
visit_place_fresh c (concrete_at p) s = refl

visit_place_other :
    (c : Value) (p : Place) (s : State) (u : Value) (i : ℕ)
    → u ≢ c
    → (visit_place c p s).operand u i ≡ s.operand u i
visit_place_other c (with_taint_at t p b) s u i h =
    stored_other c (with_taint_at t p b) (s.operand c p) s u i h
visit_place_other c (abstract_at p b) s u i h =
    stored_other c (abstract_at p b) (s.operand c p) s u i h
visit_place_other c (concrete_at p) s u i h = refl

pub visit_places_abstract :
    (c : Value) (ps : List Place) (s : State) → (visit_places c ps s).abstract ≡ s.abstract
unfolding visit_places
visit_places_abstract c [] s = refl
visit_places_abstract c (p ∷ ps) s =
    visit_places_abstract c ps (visit_place c p s) ∙ visit_place_abstract c p s

pub visit_places_fresh :
    (c : Value) (ps : List Place) (s : State) → (visit_places c ps s).fresh ≡ s.fresh
unfolding visit_places
visit_places_fresh c [] s = refl
visit_places_fresh c (p ∷ ps) s =
    visit_places_fresh c ps (visit_place c p s) ∙ visit_place_fresh c p s

pub visit_places_other :
    (c : Value) (ps : List Place) (s : State) (u : Value) (i : ℕ)
    → u ≢ c
    → (visit_places c ps s).operand u i ≡ s.operand u i
unfolding visit_places
visit_places_other c [] s u i h = refl
visit_places_other c (p ∷ ps) s u i h =
    visit_places_other c ps (visit_place c p s) u i h ∙ visit_place_other c p s u i h
