-- ===== src/Lartcc/Syntactic/Visits.antt =====
-- The places of a new call in lartcc/syntactic.cpp.
use mathlib.Core.List.Memᴰ
use mathlib.Core.Option.{some-injective}
use lart.Common.{
  ℕ, ◌<◌, ◌≡◌, ◌≢◌, refl, ap, sym, subst, ◌∙◌, ◌⊎◌, inl, inr, ◌==◌, Bool-cases, Option-cases, none,
  some, List, [], ◌∷◌, ◌++◌, Memᴰ, arith,
}
use lart.Lartcc.Dataflow.{Value}
use lart.Lartcc.Operation.{Place}
use lart.Lartcc.Syntactic.{State, update, set_abstract, set_or_store}
use lart.Lartcc.Syntactic.Places.{Entry, abstract_position, set_abstract_hit, set_abstract_miss}
use lart.Lartcc.Syntactic.Filling.{IsPatched, Filled, Waits, entry}

update_at {ℓ} : {A : Type ℓ} (v : Value) (a : A) (f : Value → A) → update v a f v ≡ a
update_at v a f = ground arith

-- No place of the call is an operand from this position on.
abbrev pub IsUnused : Value → ℕ → List Entry → Type 0
IsUnused c pos log = (e : Entry) → Memᴰ e log → e.call ≡ c → e.position < pos

module _ (null bound c v : Value) (p : Place) (b : ℕ) (s : State) (log : List Entry)
    (h : IsPatched null bound s log) (at : abstract_position p ≡ some b) (call_old : c < bound)
    (value_old : v < bound) (unused : (e : Entry) → Memᴰ e log → e.call ≡ c → e.position ≢ b)
    (is_null : s.operand c b ≡ null) where
  unique_entry :
      (e f : Entry)
      → Memᴰ e (entry c b v ∷ log)
      → Memᴰ f (entry c b v ∷ log)
      → e.call ≡ f.call
      → e.position ≡ f.position
      → e.concrete ≡ f.concrete
  unique_entry e f m n hc hp = elim (Memᴰ.cases_cons m) [
    | inl x ↦ elim (Memᴰ.cases_cons n) [
      | inl y ↦ ap (λ w. w.concrete) (x ∙ sym y)
      | inr y ↦ absurd (unused f y (sym hc ∙ ap (λ w. w.call) x) (sym hp ∙ ap (λ w. w.position) x))
    ]
    | inr x ↦ elim (Memᴰ.cases_cons n) [
      | inl y ↦ absurd (unused e x (hc ∙ ap (λ w. w.call) y) (hp ∙ ap (λ w. w.position) y))
      | inr y ↦ h.unique e f x y hc hp
    ]
  ]

  old_entry : (e : Entry) → Memᴰ e (entry c b v ∷ log) → (e.call < bound) × (e.concrete < bound)
  old_entry e m = elim (Memᴰ.cases_cons m) [
    | inl x ↦ subst (λ w. (w.call < bound) × (w.concrete < bound)) (sym x) (call_old, value_old)
    | inr x ↦ h.old e x
  ]

  abbrev set_state : Value → State
  set_state a = record s { operand = set_abstract c p a s.operand }

  set_each :
      (a : Value)
      → s.abstract v ≡ some a
      → (e : Entry) → Memᴰ e (entry c b v ∷ log)
      → Filled (set_state a) e ⊎ Waits null (set_state a) e
  set_each a there e m = elim (Memᴰ.cases_cons m) [
    | inl x ↦
        inl (subst (Filled (set_state a)) (sym x) (a, there, set_abstract_hit c p b a s.operand at))
    | inr x ↦
        let kept : set_abstract c p a s.operand e.call e.position ≡ s.operand e.call e.position =
          set_abstract_miss c p a s.operand e.call e.position
            (λ d k ce de. unused e x (sym ce) (sym de ∙ some-injective d b (sym k ∙ at))) in
        elim (h.each e x) [
          | inl (y, k, o) ↦ inl (y, k, kept ∙ o)
          | inr (n, o, w) ↦ inr (n, kept ∙ o, w)
        ]
  ]

  set-IsPatched :
      (a : Value) → s.abstract v ≡ some a → IsPatched null bound (set_state a) (entry c b v ∷ log)
  set-IsPatched a there = record {
    each = set_each a there;
    known = λ u d q m. let (k, e, l) = h.known u d q m in (k, e, Memᴰ.tail l);
    unique = unique_entry;
    old = old_entry;
  }

  abbrev stored : State
  stored = record s { places = update v (s.places v ++ ((c, p) ∷ [])) s.places }

  still_waits : (u d : Value) (q : Place) → Memᴰ (d, q) (s.places u) → Memᴰ (d, q) (stored.places u)
  still_waits u d q m = elim (Bool-cases (u == v)) [
    | inl same ↦
        let e : u ≡ v = ground arith in
        rw same (Memᴰ.append_left ((c, p) ∷ []) (subst (λ w. Memᴰ (d, q) (s.places w)) e m))
    | inr other ↦ rw other m
  ]

  store_each :
      s.abstract v ≡ none
      → (e : Entry) → Memᴰ e (entry c b v ∷ log)
      → Filled stored e ⊎ Waits null stored e
  store_each absent e m = elim (Memᴰ.cases_cons m) [
    | inl x ↦
        let new : Memᴰ (c, p) (stored.places v) =
          subst (Memᴰ (c, p)) (sym (update_at v (s.places v ++ ((c, p) ∷ [])) s.places))
            (Memᴰ.append_right (s.places v) (Memᴰ.head refl)) in
        inr (subst (Waits null stored) (sym x) (absent, is_null, (p, new, at)))
    | inr x ↦ elim (h.each e x) [
      | inl f ↦ inl f
      | inr (n, o, (q, l, k)) ↦ inr (n, o, (q, still_waits e.concrete e.call q l, k))
    ]
  ]

  store_known :
      (u d : Value) (q : Place)
      → Memᴰ (d, q) (stored.places u)
      → (k : ℕ) × (abstract_position q ≡ some k) × Memᴰ (entry d k u) (entry c b v ∷ log)
  store_known u d q m = elim (Bool-cases (u == v)) [
    | inl same ↦
        let e : u ≡ v = ground arith in
        elim (Memᴰ.append_cases (s.places v) (rw same at m)) [
          | inl l ↦
              let (k, x, y) = h.known v d q l in
              (k, x, Memᴰ.tail (subst (λ w. Memᴰ (entry d k w) log) (sym e) y))
          | inr l ↦
              let new : (d, q) ≡ (c, p) = Memᴰ.eq_of_singleton l in
              (
                b,
                ap (λ w. abstract_position w.1) new ∙ at,
                Memᴰ.head (let call : d ≡ c = ap (λ w. w.0) new in rw (call, e) refl),
              )
        ]
    | inr other ↦ let (k, x, y) = h.known u d q (rw other at m) in (k, x, Memᴰ.tail y)
  ]

  set_or_store_absent : s.abstract v ≡ none → set_or_store c p v s ≡ stored
  unfolding set_or_store
  set_or_store_absent absent = ground arith

  set_or_store_there : (a : Value) → s.abstract v ≡ some a → set_or_store c p v s ≡ set_state a
  unfolding set_or_store
  set_or_store_there a there = ground arith

  store-IsPatched : s.abstract v ≡ none → IsPatched null bound stored (entry c b v ∷ log)
  store-IsPatched absent = record {
    each = store_each absent;
    known = store_known;
    unique = unique_entry;
    old = old_entry;
  }

  pub set_or_store-IsPatched : IsPatched null bound (set_or_store c p v s) (entry c b v ∷ log)
  set_or_store-IsPatched = elim (Option-cases (s.abstract v)) [
    | inl absent ↦
        subst (λ x. IsPatched null bound x (entry c b v ∷ log)) (sym (set_or_store_absent absent))
          (store-IsPatched absent)
    | inr (a, there) ↦
        subst (λ x. IsPatched null bound x (entry c b v ∷ log)) (sym (set_or_store_there a there))
          (set-IsPatched a there)
  ]

  -- Nothing but this operand changes.
  pub set_or_store_miss : (i : ℕ) → i ≢ b → (set_or_store c p v s).operand c i ≡ s.operand c i
  set_or_store_miss i other = elim (Option-cases (s.abstract v)) [
    | inl absent ↦ ap (λ x. x.operand c i) (set_or_store_absent absent)
    | inr (a, there) ↦
        ap (λ x. x.operand c i) (set_or_store_there a there)
        ∙ set_abstract_miss c p a s.operand c i
            (λ d k e di. other (sym di ∙ some-injective d b (sym k ∙ at)))
  ]
