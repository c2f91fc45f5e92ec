-- ===== src/Lartcc/Operation/Layout.antt =====
-- Where the arguments of an operation stand among the operands of its call, lartcc/include/cc/arguments.hpp and
-- lartcc/taint.cpp.
use lart.Common.{
  ℕ, suc, ◌+◌, ◌≡◌, if◌then◌else◌, some, List, [], ◌∷◌, get_elem?, Segment, Segment-cons,
  Segment-itself, Segment-at, Bool-cases, inl, inr, arith,
}
use lart.Lartcc.Dataflow.{Value}
use lart.Lartcc.Operation.{
  Ir, Kind, Argument, argument, call_operands, test, with_taint, concrete, abstract, unpack,
  duplicate_all, emits_test_taint, Place, with_taint_at, concrete_at, abstract_at, places_from,
  paired_view,
}

-- The operand of a call at a position.
abbrev pub Holds : List Value → ℕ → Value → Type 0
Holds call i v = get_elem? call i ≡ some v

-- A place shows an argument: where its shadow, the value and the abstract value stand. The argument of a test of taint
-- shows its shadow only.
abbrev pub Shows : Ir → (Value → Value) → List Value → Argument → Place → Type 0
Shows ir shadow call (argument v with_taint) (with_taint_at t c b) =
    Holds call t (shadow v) × Holds call c v × Holds call b ir.null_pointer
Shows ir shadow call (argument v unpack) (with_taint_at t c b) =
    Holds call t (shadow v) × Holds call c v × Holds call b ir.null_pointer
Shows ir shadow call (argument v abstract) (abstract_at c b) =
    Holds call c v × Holds call b ir.null_pointer
Shows ir shadow call (argument v concrete) (concrete_at c) = Holds call c v
Shows ir shadow call (argument v test) (concrete_at c) = Holds call c (shadow v)
Shows ir shadow call _ _ = ⊥

abbrev pub AllShow : Ir → (Value → Value) → List Value → List Argument → List Place → Type 0
AllShow ir shadow call [] [] = Unit
AllShow ir shadow call (a ∷ args) (p ∷ places) =
    Shows ir shadow call a p × AllShow ir shadow call args places
AllShow ir shadow call _ _ = ⊥

module _ (ir : Ir) (shadow : Value → Value) (call : List Value) where
  shown :
      (pos : ℕ) (args : List Argument)
      → Segment call pos (duplicate_all ir shadow args)
      → AllShow ir shadow call args (places_from pos args)
  unfolding places_from
  shown pos [] h = tt
  shown pos (argument v test ∷ args) h =
      (h.0, shown (pos + 1) args (Segment-at call (suc pos) (pos + 1) _ (omega arith) h.1))
  shown pos (argument v concrete ∷ args) h =
      (h.0, shown (pos + 1) args (Segment-at call (suc pos) (pos + 1) _ (omega arith) h.1))
  shown pos (argument v abstract ∷ args) h = (
    (h.0, ground (arith, h.1.0)),
    shown (pos + 2) args (Segment-at call (suc (suc pos)) (pos + 2) _ (omega arith) h.1.1),
  )
  shown pos (argument v with_taint ∷ args) h = (
    (h.0, ground (arith, h.1.0), ground (arith, h.1.1.0)),
    shown (pos + 3) args (Segment-at call (suc (suc (suc pos))) (pos + 3) _ (omega arith) h.1.1.1),
  )
  shown pos (argument v unpack ∷ args) h = (
    (h.0, ground (arith, h.1.0), ground (arith, h.1.1.0)),
    shown (pos + 3) args (Segment-at call (suc (suc (suc pos))) (pos + 3) _ (omega arith) h.1.1.1),
  )

abbrev pub start : Kind → ℕ
start k = if emits_test_taint k then 1 else 0

pub call_operands-Segment :
    (k : Kind) (lifter : Value) (vs : List Value) → Segment (call_operands k lifter vs) (start k) vs
unfolding call_operands
call_operands-Segment k lifter vs = elim (Bool-cases (emits_test_taint k)) [
  | inl e ↦ rw e (Segment-cons lifter vs 0 vs (Segment-itself vs))
  | inr e ↦ rw e (Segment-itself vs)
]

-- Each argument of an operation is shown by the place that `paired_view` makes of it, among the operands that its call
-- is made with, of every kind of operation and for all arguments: its shadow, its value and the
-- pointer that the abstract value is to replace.
pub paired_view_exact :
    (ir : Ir) (shadow : Value → Value) (k : Kind) (lifter : Value) (args : List Argument)
    → AllShow ir shadow
        (call_operands k lifter (duplicate_all ir shadow args))
        args
        (paired_view k args)
unfolding paired_view
paired_view_exact ir shadow k lifter args =
    let vs : List Value = duplicate_all ir shadow args in
    shown ir shadow (call_operands k lifter vs) (start k) args (call_operands-Segment k lifter vs)
