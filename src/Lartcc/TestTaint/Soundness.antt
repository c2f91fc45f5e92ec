-- ===== src/Lartcc/TestTaint/Soundness.antt =====
-- The call that stands for an operation takes the abstract path exactly if an argument is tainted, and then calls the operation
-- of the domain with abstract values: lartcc/include/cc/operation.hpp, lartcc/lifter.cpp and
-- lartcc/backend/native/native.cpp together.
use lart.Common.{
  ◌≡◌, refl, subst, Bool, true, false, ◌||◌, ltb, if◌then◌else◌, inl, inr, Bool-cases, none, some,
  List, [], ◌∷◌, Run, done, ◌>>=◌, Segment, Segment-itself, Segment-cons, arith,
}
use lart.Lartcc.Dataflow.{Value}
use lart.Lartcc.Operation.{
  Ir, Kind, melt, binary, cast, cmp, tobool, assume, alloc, store, load, Operation, Argument,
  arguments_by, arguments, emits_test_taint, default_of, faultable, abstract_pointer_default,
}
use lart.Lartcc.TestTaint.{
  Datum, word, pointer, void, count_taints, default_result, extract_default, get_arg, test_taint,
  test_faultable, lower_test_taint,
}
use lart.Lartcc.TestTaint.Walk.{State, flat_all, passed_all, any_tainted, collect_exact}
use lart.Lartcc.TestTaint.Lifts.{
  IsPlain, lifted_all, AllTainted, chosen, concrete_values, concretes_exact, lifter_exact,
}

only : (b : Bool) → (b || false) ≡ true → b ≡ true
only true h = refl
only false h = h

module _ (ir : Ir) (at_run : Value → State) where
  -- The result on the concrete path.
  abbrev pub fallback : Kind → Value → Datum
  fallback tobool v = (at_run (ir.operand v 0)).concrete_value
  fallback (assume expected) v = void
  fallback store v = void
  fallback _ v = pointer 0

  -- What the arguments of an operation with a test of taints meet.
  abbrev Meets : Kind → Value → Run (List Argument) → Type 0
  Meets k v (done args) =
      IsPlain args
      × (any_tainted at_run args ≡ true
          → ltb 1 (count_taints (lifted_all at_run args)) ≡ false
          → AllTainted at_run args)
      × (default_result (default_of k) (passed_all at_run args) ≡ done (fallback k v))
  Meets k v _ = Unit

  arguments_meet :
      (k : Kind) (v : Value) → emits_test_taint k ≡ true → Meets k v (arguments_by ir k v)
  unfolding default_result extract_default get_arg count_taints
  arguments_meet melt v h = (tt, (λ t c. tt), refl)
  arguments_meet binary v h = (tt, (λ t c. absurd (cc c)), refl)
  arguments_meet cast v h = (tt, (λ t c. (only (at_run (ir.operand v 0)).taint t, tt)), refl)
  arguments_meet cmp v h = (tt, (λ t c. absurd (cc c)), refl)
  arguments_meet tobool v h = (tt, (λ t c. (only (at_run (ir.operand v 0)).taint t, tt)), refl)
  arguments_meet (assume expected) v h = (tt, (λ t c. (only (at_run v).taint t, tt)), refl)
  arguments_meet alloc v h = (tt, (λ t c. tt), refl)
  arguments_meet store v h = (tt, (λ t c. absurd (cc c)), refl)
  arguments_meet load v h = (tt, (λ t c. (only (at_run (ir.operand v 0)).taint t, tt)), refl)
  arguments_meet _ v h = absurd (cc h)

  faultable_emits : (o : Operation) → faultable ir o ≡ true → emits_test_taint o.kind ≡ true
  unfolding faultable
  faultable_emits o h = ground arith

  -- What the test of taints sees of the call.
  seen :
      (l : Datum) (args : List Argument)
      → Segment (l ∷ flat_all at_run args) 1 (flat_all at_run args)
  seen l args =
      Segment-cons l (flat_all at_run args) 0 (flat_all at_run args)
        (Segment-itself (flat_all at_run args))

  module _ (wrap : Datum → Datum) (impl : List Datum → Run Datum) (l : Datum) where
    -- Without the instruction that may fault.
    untested :
        (o : Operation) (args : List Argument)
        → emits_test_taint o.kind ≡ true
        → arguments ir o ≡ done args
        → test_taint wrap impl (default_of o.kind) args (l ∷ flat_all at_run args) ≡ (
            if any_tainted at_run args
            then impl (chosen at_run wrap args)
              >>= (λ r. done (record { returned = r; stashed = none }))
            else done (record { returned = fallback o.kind o.what; stashed = none }))
    unfolding test_taint arguments
    untested o args h e =
        let meets : Meets o.kind o.what (done args) =
          subst (Meets o.kind o.what) e (arguments_meet o.kind o.what h) in
        let given : List Datum = l ∷ flat_all at_run args in
        let all = collect_exact at_run given 1 args false [] (seen l args) in
        elim (Bool-cases (any_tainted at_run args)) [
          | inl some_tainted ↦
              rw (all, some_tainted)
                (rw (lifter_exact at_run wrap impl args meets.0 (meets.1 some_tainted)) refl)
          | inr none_tainted ↦ rw (all, none_tainted) (rw meets.2 refl)
        ]

    -- The call of an operation with a test of taints that is not a division or a remainder, on its arguments as the
    -- compiler passes them: if one of them is tainted, it yields what the operation of the domain yields on the abstract
    -- value of each tainted argument, the wrapped value of each other one that may be tainted, and the concrete
    -- arguments as they are; if none is, the condition for a branch, nothing for an assumption or a store, and the
    -- null pointer otherwise. Nothing is stashed.
    pub test_taint_exact :
        (instruction : List Datum → Run Datum) (o : Operation) (args : List Argument)
        → emits_test_taint o.kind ≡ true
        → faultable ir o ≡ false
        → arguments ir o ≡ done args
        → lower_test_taint wrap impl
            (faultable ir o)
            instruction
            (default_of o.kind)
            args
            (l ∷ flat_all at_run args)
          ≡ (if any_tainted at_run args
              then impl (chosen at_run wrap args)
                >>= (λ r. done (record { returned = r; stashed = none }))
              else done (record { returned = fallback o.kind o.what; stashed = none }))
    unfolding lower_test_taint faultable
    test_taint_exact instruction o args h f e = rw f (untested o args h e)

    -- The call of a division or a remainder, on its arguments as the compiler passes them: if one of them is tainted, it stashes
    -- the result of the domain as tainted and yields 0; if none is, it stashes the null pointer as not tainted and yields
    -- what the instruction yields on the concrete values.
    pub test_faultable_exact :
        (instruction : List Datum → Run Datum) (o : Operation) (args : List Argument)
        → faultable ir o ≡ true
        → arguments ir o ≡ done args
        → test_faultable wrap impl instruction abstract_pointer_default args
            (l ∷ flat_all at_run args)
          ≡ (if any_tainted at_run args
              then impl (chosen at_run wrap args)
                >>= (λ r. done (record { returned = word 0; stashed = some (true, r) }))
              else instruction (concrete_values at_run args)
                >>= (λ r. done (record { returned = r; stashed = some (false, pointer 0) })))
    unfolding test_faultable arguments extract_default
    test_faultable_exact instruction o args h e =
        let meets : Meets o.kind o.what (done args) =
          subst (Meets o.kind o.what) e (arguments_meet o.kind o.what (faultable_emits o h)) in
        let given : List Datum = l ∷ flat_all at_run args in
        let all = collect_exact at_run given 1 args false [] (seen l args) in
        let operands = concretes_exact at_run given 1 args (seen l args) in
        elim (Bool-cases (any_tainted at_run args)) [
          | inl some_tainted ↦
              rw (all, some_tainted)
                (rw (lifter_exact at_run wrap impl args meets.0 (meets.1 some_tainted)) refl)
          | inr none_tainted ↦ rw (all, none_tainted) (rw operands refl)
        ]
