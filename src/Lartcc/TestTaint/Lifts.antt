-- ===== src/Lartcc/TestTaint/Lifts.antt =====
-- What the lifter of lartcc/lifter.cpp calls the operation with.
use lart.Common.{
  ℕ, ◌+◌, ◌≡◌, refl, true, false, ltb, if◌then◌else◌, inl, inr, Bool-cases, List, [], ◌∷◌, ◌++◌,
  map, Run, done, Segment, Segment-itself,
}
use lart.Lartcc.Dataflow.{Value}
use lart.Lartcc.Operation.{Argument, argument, test, with_taint, concrete, abstract, unpack}
use lart.Lartcc.TestTaint.{
  Datum, bit, Lifted, tainted_arg, concrete_arg, lifter_arguments, final, count_taints, concretes,
  lift, lift_all, lifter,
}
use lart.Lartcc.TestTaint.Walk.{State, flat_all, passed_all, one, second, third}

-- None of the arguments is abstract without a taint, as for every operation of the compiler.
abbrev pub IsPlain : List Argument → Type 0
IsPlain [] = Unit
IsPlain (argument v abstract ∷ args) = ⊥
IsPlain (a ∷ args) = IsPlain args

module _ (at_run : Value → State) where
  abbrev pub lifted : Argument → List Lifted
  lifted (argument v test) = []
  lifted (argument v concrete) = concrete_arg (at_run v).concrete_value ∷ []
  lifted (argument v _) =
      tainted_arg (bit (at_run v).taint) (at_run v).concrete_value (at_run v).abstract_value ∷ []

  abbrev pub lifted_all : List Argument → List Lifted
  lifted_all [] = []
  lifted_all (a ∷ args) = lifted a ++ lifted_all args

  -- Every argument that may be tainted is.
  abbrev pub AllTainted : List Argument → Type 0
  AllTainted [] = Unit
  AllTainted (argument v test ∷ args) = AllTainted args
  AllTainted (argument v concrete ∷ args) = AllTainted args
  AllTainted (argument v _ ∷ args) = ((at_run v).taint ≡ true) × AllTainted args

  pub lifted_exact :
      (given : List Datum) (i : ℕ) (args : List Argument)
      → IsPlain args
      → Segment given i (passed_all at_run args)
      → lifter_arguments i args given ≡ done (lifted_all args)
  unfolding lifter_arguments
  lifted_exact given i [] p h = refl
  lifted_exact given i (argument v test ∷ args) p h = lifted_exact given i args p h
  lifted_exact given i (argument v abstract ∷ args) p h = absurd p
  lifted_exact given i (argument v concrete ∷ args) p h =
      let (e, rest) = one given i _ _ h in rw e (rw (lifted_exact given (i + 1) args p rest) refl)
  lifted_exact given i (argument v with_taint ∷ args) p h =
      let (e, d, c, rest) = third given i _ _ _ _ h in
      rw (e, d, c) (rw (lifted_exact given (i + 3) args p rest) refl)
  lifted_exact given i (argument v unpack ∷ args) p h =
      let (e, d, c, rest) = third given i _ _ _ _ h in
      rw (e, d, c) (rw (lifted_exact given (i + 3) args p rest) refl)

  abbrev pub concrete_values : List Argument → List Datum
  concrete_values [] = []
  concrete_values (argument v test ∷ args) = concrete_values args
  concrete_values (argument v _ ∷ args) = (at_run v).concrete_value ∷ concrete_values args

  pub concretes_exact :
      (given : List Datum) (i : ℕ) (args : List Argument)
      → Segment given i (flat_all at_run args)
      → concretes i args given ≡ done (concrete_values args)
  unfolding concretes
  concretes_exact given i [] h = refl
  concretes_exact given i (argument v test ∷ args) h =
      concretes_exact given (i + 1) args (one given i _ _ h).1
  concretes_exact given i (argument v concrete ∷ args) h =
      let (e, rest) = one given i _ _ h in rw e (rw (concretes_exact given (i + 1) args rest) refl)
  concretes_exact given i (argument v abstract ∷ args) h =
      let (e, d, rest) = second given i _ _ _ h in
      rw e (rw (concretes_exact given (i + 2) args rest) refl)
  concretes_exact given i (argument v with_taint ∷ args) h =
      let (e, d, c, rest) = third given i _ _ _ _ h in
      rw d (rw (concretes_exact given (i + 3) args rest) refl)
  concretes_exact given i (argument v unpack ∷ args) h =
      let (e, d, c, rest) = third given i _ _ _ _ h in
      rw d (rw (concretes_exact given (i + 3) args rest) refl)

  module _ (wrap : Datum → Datum) where
    -- What the operation of the domain is to be called with: of an argument that may be tainted the abstract value if it is,
    -- and its wrapped concrete value otherwise.
    abbrev pub chosen : List Argument → List Datum
    chosen [] = []
    chosen (argument v test ∷ args) = chosen args
    chosen (argument v concrete ∷ args) = (at_run v).concrete_value ∷ chosen args
    chosen (argument v _ ∷ args) =
        (if (at_run v).taint then (at_run v).abstract_value else wrap (at_run v).concrete_value)
        ∷ chosen args

    lift_all_exact :
        (impl : List Datum → Run Datum) (args : List Argument)
        → IsPlain args
        → lift_all wrap impl (lifted_all args) ≡ done (chosen args)
    unfolding lift_all lift
    lift_all_exact impl [] p = refl
    lift_all_exact impl (argument v test ∷ args) p = lift_all_exact impl args p
    lift_all_exact impl (argument v abstract ∷ args) p = absurd p
    lift_all_exact impl (argument v concrete ∷ args) p = rw (lift_all_exact impl args p) refl
    lift_all_exact impl (argument v with_taint ∷ args) p = rw (lift_all_exact impl args p) refl
    lift_all_exact impl (argument v unpack ∷ args) p = rw (lift_all_exact impl args p) refl

    final_exact :
        (args : List Argument)
        → IsPlain args
        → AllTainted args
        → map final (lifted_all args) ≡ chosen args
    unfolding final
    final_exact [] p t = refl
    final_exact (argument v test ∷ args) p t = final_exact args p t
    final_exact (argument v abstract ∷ args) p t = absurd p
    final_exact (argument v concrete ∷ args) p t = rw (final_exact args p t) refl
    final_exact (argument v with_taint ∷ args) p t = rw (t.0, final_exact args p t.1) refl
    final_exact (argument v unpack ∷ args) p t = rw (t.0, final_exact args p t.1) refl

    pub lifter_exact :
        (impl : List Datum → Run Datum) (args : List Argument)
        → IsPlain args
        → (ltb 1 (count_taints (lifted_all args)) ≡ false → AllTainted args)
        → lifter wrap impl args (passed_all at_run args) ≡ impl (chosen args)
    unfolding lifter
    lifter_exact impl args p single =
        let seen =
          lifted_exact (passed_all at_run args) 0 args p
            (Segment-itself (passed_all at_run args)) in
        elim (Bool-cases (ltb 1 (count_taints (lifted_all args)))) [
          | inl many ↦ rw seen (rw many (rw (lift_all_exact impl args p) refl))
          | inr few ↦ rw seen (rw few (rw (final_exact args p (single few)) refl))
        ]
