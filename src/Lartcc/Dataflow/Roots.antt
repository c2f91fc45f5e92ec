-- ===== src/Lartcc/Dataflow/Roots.antt =====
-- The roots that lartcc/dfa.cpp starts from are abstract before the loop, and their edges wait in the work list.
use lart.Common.{
  ℕ, suc, ◌≡◌, ◌⊎◌, inl, inr, ⊎_map, refl, sym, ap, subst, ◌∙◌, arith, Bool, true, ◌==◌, List, [],
  ◌∷◌, ◌++◌, length, Memᴰ, Bool-cases,
}
use mathlib.Core.List.Memᴰ
use lart.Lartcc.Layer.{Layer}
use lart.Lartcc.Onion.{
  Onion, on_front, make_abstract, make_pointer, make_abstract_pointer, is_abstract,
}
use lart.Lartcc.Onion.Solid.{solid, make_abstract-solid, make_abstract_pointer-solid}
use lart.Lartcc.Onion.Spread.{make_abstract-is_abstract, make_abstract_pointer-is_abstract}
use lart.Lartcc.Dataflow.{
  Value, Edge, Kind, scalar, pointer, assign, State, state, initial, push, add, start,
}
use lart.Lartcc.Dataflow.Invariant.{Fits}

abbrev pub raised : Kind → Onion → Onion
raised scalar o = make_abstract o
raised pointer o = make_abstract_pointer o

raised-solid : (k : Kind) (o : Onion) → solid o ≡ true → solid (raised k o) ≡ true
raised-solid scalar o h = make_abstract-solid o h
raised-solid pointer o h = make_abstract_pointer-solid o h

raised-is_abstract : (k : Kind) (o : Onion) → solid o ≡ true → is_abstract (raised k o) ≡ true
raised-is_abstract scalar o h = make_abstract-is_abstract o h
raised-is_abstract pointer o h = make_abstract_pointer-is_abstract o h

make_abstract-length : (o : Onion) → length (make_abstract o) ≡ length o
unfolding make_abstract
make_abstract-length [] = refl
make_abstract-length (x ∷ xs) = refl

make_pointer-length : (o : Onion) → length (make_pointer o) ≡ length o
unfolding make_pointer
make_pointer-length [] = refl
make_pointer-length (x ∷ xs) = refl

on_front-length : (f : Layer → Layer) (o : Onion) → length (on_front f o) ≡ length o
on_front-length f [] = refl
on_front-length f (x ∷ []) = refl
on_front-length f (x ∷ y ∷ ys) = ap suc (on_front-length f (y ∷ ys))

raised-length : (k : Kind) (o : Onion) → length (raised k o) ≡ length o
unfolding make_abstract_pointer
raised-length scalar o = make_abstract-length o
raised-length pointer o =
    on_front-length _ (make_pointer (make_abstract o))
    ∙ make_pointer-length (make_abstract o)
    ∙ make_abstract-length o

module _ (is_cmp : Value → Bool) (nesting : Value → ℕ) (edges : Value → List Edge) where
  pub record Ready (s : State) : Type 0 where
    pub fits : (v : Value) → Fits is_cmp nesting edges v (s.types v)
    pub waits :
        (v : Value) (e : Edge)
        → Memᴰ e (edges v)
        → e.from ≡ v
        → (s.types v ≡ initial is_cmp nesting edges v) ⊎ Memᴰ e s.worklist

  abbrev rooted : Value → Kind → State → State
  rooted call k s =
      push is_cmp nesting edges call (record s { types = add is_cmp nesting edges call k s.types })

  rooted-state :
      (call : Value) (k : Kind) (s : State)
      → rooted call k s
        ≡ state (s.worklist ++ edges call) (assign call (raised k (s.types call)) s.types)
  unfolding push add
  rooted-state call scalar s = refl
  rooted-state call pointer s = refl

  raised-Fits :
      (v : Value) (k : Kind) (o : Onion)
      → Fits is_cmp nesting edges v o
      → Fits is_cmp nesting edges v (raised k o)
  raised-Fits v k o h = record {
    firm = raised-solid k o h.firm;
    flat = λ c. raised-length k o ∙ h.flat c;
  }

  rooted-Ready : (call : Value) (k : Kind) (s : State) → Ready s → Ready (rooted call k s)
  rooted-Ready call k s h = subst Ready (sym (rooted-state call k s)) (record {
    fits = λ v. elim (Bool-cases (v == call)) [
      | inl e ↦
          (let g : v ≡ call = ground (arith, e) in
            rw e (rw g (raised-Fits call k (s.types call) (h.fits call))))
      | inr e ↦ rw e (h.fits v)
    ];
    waits = λ v f m g. elim (Bool-cases (v == call)) [
      | inl e ↦
          (let g : v ≡ call = ground (arith, e) in
            inr (Memᴰ.append_right s.worklist (subst (λ x. Memᴰ f (edges x)) g m)))
      | inr e ↦ rw e (⊎_map (λ i. i) (λ w. Memᴰ.append_left (edges call) w) (h.waits v f m g))
    ];
  })

  pub start-Ready :
      (roots : List (Value × Kind)) (s : State)
      → Ready s
      → Ready (start is_cmp nesting edges roots s)
  unfolding start
  start-Ready [] s h = h
  start-Ready ((call, k) ∷ roots) s h =
      start-Ready roots (rooted call k s) (rooted-Ready call k s h)

  rooted-is_abstract :
      (call : Value) (k : Kind) (s : State) (v : Value)
      → Ready s
      → is_abstract (s.types v) ≡ true
      → is_abstract ((rooted call k s).types v) ≡ true
  rooted-is_abstract call k s v h a = rw (rooted-state call k s) (elim (Bool-cases (v == call)) [
    | inl e ↦ rw e (raised-is_abstract k (s.types call) (h.fits call).firm)
    | inr e ↦ rw e a
  ])

  rooted-call :
      (call : Value) (k : Kind) (s : State)
      → Ready s
      → is_abstract ((rooted call k s).types call) ≡ true
  rooted-call call k s h = rw (rooted-state call k s) (
      let e : (call == call) ≡ true = ground arith in
      rw e (raised-is_abstract k (s.types call) (h.fits call).firm))

  start-is_abstract :
      (roots : List (Value × Kind)) (s : State) (v : Value)
      → Ready s
      → is_abstract (s.types v) ≡ true
      → is_abstract ((start is_cmp nesting edges roots s).types v) ≡ true
  unfolding start
  start-is_abstract [] s v h a = a
  start-is_abstract ((call, k) ∷ roots) s v h a =
      start-is_abstract roots (rooted call k s) v (rooted-Ready call k s h)
        (rooted-is_abstract call k s v h a)

  pub start-roots :
      (roots : List (Value × Kind)) (s : State) (root : Value × Kind)
      → Ready s
      → Memᴰ root roots
      → is_abstract ((start is_cmp nesting edges roots s).types root.0) ≡ true
  unfolding start
  start-roots [] s root h m = absurd (Memᴰ.not-nil m)
  start-roots ((call, k) ∷ roots) s root h (Memᴰ.head e) =
      start-is_abstract roots (rooted call k s) root.0 (rooted-Ready call k s h) (
        subst (λ v. is_abstract ((rooted call k s).types v) ≡ true) (sym (ap (λ r. r.0) e))
          (rooted-call call k s h))
  start-roots ((call, k) ∷ roots) s root h (Memᴰ.tail m) =
      start-roots roots (rooted call k s) root (rooted-Ready call k s h) m

  pub start-targets :
      (values : List Value) (roots : List (Value × Kind)) (s : State)
      → ((v : Value) (e : Edge) → Memᴰ e (edges v) → Memᴰ e.to values)
      → ((f : Edge) → Memᴰ f s.worklist → Memᴰ f.to values)
      → (f : Edge) → Memᴰ f (start is_cmp nesting edges roots s).worklist
      → Memᴰ f.to values
  unfolding start push
  start-targets values [] s closed h f m = h f m
  start-targets values ((call, k) ∷ roots) s closed h f m =
      start-targets values roots (rooted call k s) closed
        (λ g n. elim (Memᴰ.append_cases s.worklist n) [ inl l ↦ h g l | inr r ↦ closed call g r ]) f
        m
