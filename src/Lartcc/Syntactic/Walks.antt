-- ===== src/Lartcc/Syntactic/Walks.antt =====
-- All the places of a new call in lartcc/syntactic.cpp, on the operands that it is made with.
use mathlib.Core.List.Memᴰ
use lart.Common.{
  ℕ, suc, ◌+◌, ◌<◌, ◌≤◌, ◌≡◌, ◌≢◌, refl, ap, sym, subst, ◌∙◌, inl, inr, some, List, [], ◌∷◌, Memᴰ,
  arith,
}
use lart.Lartcc.Dataflow.{Value}
use lart.Lartcc.Operation.{
  Ir, Argument, argument, test, with_taint, concrete, abstract, unpack, Place, with_taint_at,
  abstract_at, places_from, duplicate_all,
}
use lart.Lartcc.Syntactic.{State, set_or_store, visit_places}
use lart.Lartcc.Syntactic.Places.{Entry, abstract_position}
use lart.Lartcc.Syntactic.Filling.{IsPatched, entry}
use lart.Lartcc.Syntactic.Visits.{IsUnused, set_or_store-IsPatched, set_or_store_miss}

-- The operands of a call from a position on.
abbrev pub Operands : (Value → ℕ → Value) → Value → ℕ → List Value → Type 0
Operands f c pos [] = Unit
Operands f c pos (v ∷ vs) = (f c pos ≡ v) × Operands f c (suc pos) vs

-- The places for abstract values that a call has for its arguments from a position on, before those of a list: the third
-- operand of an argument with a taint, and the second of an abstract one.
abbrev pub add_entries : Value → ℕ → List Argument → List Entry → List Entry
add_entries c pos [] log = log
add_entries c pos (argument v test ∷ args) log = add_entries c (pos + 1) args log
add_entries c pos (argument v concrete ∷ args) log = add_entries c (pos + 1) args log
add_entries c pos (argument v abstract ∷ args) log =
    add_entries c (pos + 2) args (entry c (pos + 1) v ∷ log)
add_entries c pos (argument v _ ∷ args) log =
    add_entries c (pos + 3) args (entry c (pos + 2) v ∷ log)

abbrev pub AllBelow : Value → List Argument → Type 0
AllBelow bound [] = Unit
AllBelow bound (argument v t ∷ args) = (v < bound) × AllBelow bound args

pub AllBelow-up : (p q : Value) (args : List Argument) → p ≤ q → AllBelow p args → AllBelow q args
AllBelow-up p q [] le h = tt
AllBelow-up p q (argument v t ∷ args) le h = (omega (arith, h.0), AllBelow-up p q args le h.1)

pub Operands-kept :
    (f g : Value → ℕ → Value) (c : Value) (p pos : ℕ) (vs : List Value)
    → p ≤ pos
    → ((i : ℕ) → p ≤ i → g c i ≡ f c i)
    → Operands f c pos vs
    → Operands g c pos vs
Operands-kept f g c p pos [] le k h = tt
Operands-kept f g c p pos (v ∷ vs) le k h =
    (k pos le ∙ h.0, Operands-kept f g c p (suc pos) vs (omega arith) k h.1)

Operands-at :
    (f : Value → ℕ → Value) (c : Value) (p q : ℕ) (vs : List Value)
    → p ≡ q
    → Operands f c p vs
    → Operands f c q vs
Operands-at f c p q vs e h = subst (λ n. Operands f c n vs) e h

operand_at :
    {v : Value} (f : Value → ℕ → Value) (c : Value) (p q : ℕ) → p ≡ q → f c p ≡ v → f c q ≡ v
operand_at f c p q e h = ap (f c) (sym e) ∙ h

IsUnused-up : (c : Value) (p q : ℕ) (log : List Entry) → p ≤ q → IsUnused c p log → IsUnused c q log
IsUnused-up c p q log le u e m h = omega (arith, u e m h)

IsUnused-cons :
    (c v : Value) (b p q : ℕ) (log : List Entry)
    → p ≤ q
    → b < q
    → IsUnused c p log
    → IsUnused c q (entry c b v ∷ log)
IsUnused-cons c v b p q log le lt u e m h = elim (Memᴰ.cases_cons m) [
  | inl x ↦ subst (λ w. w.position < q) (sym x) lt
  | inr x ↦ omega (arith, u e x h)
]

module _ (ir : Ir) (shadow : Value → Value) (bound c : Value) (call_old : c < bound) where
  -- One place, and what is left for the others.
  visit_one :
      (pos b v q : ℕ) (p : Place) (s : State) (log : List Entry) (vs : List Value)
      → IsPatched ir.null_pointer bound s log
      → abstract_position p ≡ some b
      → pos ≤ b
      → v < bound
      → IsUnused c pos log
      → s.operand c b ≡ ir.null_pointer
      → b < q
      → Operands s.operand c q vs
      → IsPatched ir.null_pointer bound (set_or_store c p v s) (entry c b v ∷ log)
        × IsUnused c q (entry c b v ∷ log)
        × Operands (set_or_store c p v s).operand c q vs
  visit_one pos b v q p s log vs h at le lt u n less o =
      let unused : ((e : Entry) → Memᴰ e log → e.call ≡ c → e.position ≢ b) =
        λ e m k. let small = u e m k in omega arith in
      let miss = set_or_store_miss ir.null_pointer bound c v p b s log h at call_old lt unused n in
      (
        set_or_store-IsPatched ir.null_pointer bound c v p b s log h at call_old lt unused n,
        IsUnused-cons c v b pos q log (omega arith) less u,
        Operands-kept s.operand (set_or_store c p v s).operand c q q vs (omega arith)
            (λ i li. miss i (omega arith)) o,
      )

  pub visit_places-IsPatched :
      (args : List Argument) (pos : ℕ) (s : State) (log : List Entry)
      → IsPatched ir.null_pointer bound s log
      → IsUnused c pos log
      → AllBelow bound args
      → Operands s.operand c pos (duplicate_all ir shadow args)
      → IsPatched ir.null_pointer bound
          (visit_places c (places_from pos args) s)
          (add_entries c pos args log)
  unfolding visit_places places_from
  visit_places-IsPatched [] pos s log h u o d = h
  visit_places-IsPatched (argument v test ∷ args) pos s log h u o d =
      visit_places-IsPatched args (pos + 1) s log h
        (IsUnused-up c pos (pos + 1) log (omega arith) u) o.1
        (Operands-at s.operand c (suc pos) (pos + 1) (duplicate_all ir shadow args) (omega arith)
          d.1)
  visit_places-IsPatched (argument v concrete ∷ args) pos s log h u o d =
      visit_places-IsPatched args (pos + 1) s log h
        (IsUnused-up c pos (pos + 1) log (omega arith) u) o.1
        (Operands-at s.operand c (suc pos) (pos + 1) (duplicate_all ir shadow args) (omega arith)
          d.1)
  visit_places-IsPatched (argument v abstract ∷ args) pos s log h u o d =
      let null_at = operand_at s.operand c (suc pos) (pos + 1) (omega arith) d.1.0 in
      let rest =
        Operands-at s.operand c (suc (suc pos)) (pos + 2) (duplicate_all ir shadow args)
          (omega arith) d.1.1 in
      let (k, n, r) =
        visit_one pos (pos + 1) v (pos + 2) (abstract_at pos (pos + 1)) s log
          (duplicate_all ir shadow args) h refl (omega arith) o.0 u null_at (omega arith) rest in
      subst
        (λ w.
          IsPatched ir.null_pointer bound
            (visit_places c (places_from (pos + 2) args)
              (set_or_store c (abstract_at pos (pos + 1)) w s))
            (add_entries c (pos + 2) args (entry c (pos + 1) v ∷ log)))
        (sym d.0)
        (visit_places-IsPatched args (pos + 2) (set_or_store c (abstract_at pos (pos + 1)) v s)
          (entry c (pos + 1) v ∷ log) k n o.1 r)
  visit_places-IsPatched (argument v with_taint ∷ args) pos s log h u o d =
      let value_at = operand_at s.operand c (suc pos) (pos + 1) (omega arith) d.1.0 in
      let null_at = operand_at s.operand c (suc (suc pos)) (pos + 2) (omega arith) d.1.1.0 in
      let rest =
        Operands-at s.operand c (suc (suc (suc pos))) (pos + 3) (duplicate_all ir shadow args)
          (omega arith) d.1.1.1 in
      let (k, n, r) =
        visit_one pos (pos + 2) v (pos + 3) (with_taint_at pos (pos + 1) (pos + 2)) s log
          (duplicate_all ir shadow args) h refl (omega arith) o.0 u null_at (omega arith) rest in
      subst
        (λ w.
          IsPatched ir.null_pointer bound
            (visit_places c (places_from (pos + 3) args)
              (set_or_store c (with_taint_at pos (pos + 1) (pos + 2)) w s))
            (add_entries c (pos + 3) args (entry c (pos + 2) v ∷ log)))
        (sym value_at)
        (visit_places-IsPatched args (pos + 3)
          (set_or_store c (with_taint_at pos (pos + 1) (pos + 2)) v s) (entry c (pos + 2) v ∷ log) k
          n o.1 r)
  visit_places-IsPatched (argument v unpack ∷ args) pos s log h u o d =
      let value_at = operand_at s.operand c (suc pos) (pos + 1) (omega arith) d.1.0 in
      let null_at = operand_at s.operand c (suc (suc pos)) (pos + 2) (omega arith) d.1.1.0 in
      let rest =
        Operands-at s.operand c (suc (suc (suc pos))) (pos + 3) (duplicate_all ir shadow args)
          (omega arith) d.1.1.1 in
      let (k, n, r) =
        visit_one pos (pos + 2) v (pos + 3) (with_taint_at pos (pos + 1) (pos + 2)) s log
          (duplicate_all ir shadow args) h refl (omega arith) o.0 u null_at (omega arith) rest in
      subst
        (λ w.
          IsPatched ir.null_pointer bound
            (visit_places c (places_from (pos + 3) args)
              (set_or_store c (with_taint_at pos (pos + 1) (pos + 2)) w s))
            (add_entries c (pos + 3) args (entry c (pos + 2) v ∷ log)))
        (sym value_at)
        (visit_places-IsPatched args (pos + 3)
          (set_or_store c (with_taint_at pos (pos + 1) (pos + 2)) v s) (entry c (pos + 2) v ∷ log) k
          n o.1 r)
