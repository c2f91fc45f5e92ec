-- ===== src/Lartcc/TestTaint/Walk.antt =====
-- The walks over the arguments of a synthesised function, on a call that is made as lartcc/include/cc/arguments.hpp does.
use lart.Common.{
  ℕ, suc, ◌+◌, ◌≡◌, refl, ap, ◌∙◌, Bool, false, ◌||◌, List, [], ◌∷◌, ◌++◌, get_elem?, some, Run,
  done, Segment, Segment-at, arith,
}
use mathlib.Core.Bool.{or_assoc, or-false}
use mathlib.Core.List.{append_assoc, append-nil}
use lart.Lartcc.Dataflow.{Value}
use lart.Lartcc.Operation.{Argument, argument, test, with_taint, concrete, abstract, unpack}
use lart.Lartcc.TestTaint.{Datum, bit, get_arg, collect}

-- What a value is at run time: its shadow, and the two values of which the shadow says one is to be used.
pub record State : Type 0 where
  pub taint : Bool
  pub concrete_value : Datum
  pub abstract_value : Datum

module _ (at_run : Value → State) where
  -- The operands of a test of taints after the lifter.
  abbrev pub flat : Argument → List Datum
  flat (argument v test) = bit (at_run v).taint ∷ []
  flat (argument v concrete) = (at_run v).concrete_value ∷ []
  flat (argument v abstract) = (at_run v).concrete_value ∷ (at_run v).abstract_value ∷ []
  flat (argument v _) =
      bit (at_run v).taint ∷ (at_run v).concrete_value ∷ (at_run v).abstract_value ∷ []

  abbrev pub flat_all : List Argument → List Datum
  flat_all [] = []
  flat_all (a ∷ args) = flat a ++ flat_all args

  -- Of these, those that the lifter is called with.
  abbrev pub passed : Argument → List Datum
  passed (argument v test) = []
  passed (argument v abstract) = (at_run v).abstract_value ∷ []
  passed a = flat a

  abbrev pub passed_all : List Argument → List Datum
  passed_all [] = []
  passed_all (a ∷ args) = passed a ++ passed_all args

  abbrev pub is_tainted : Argument → Bool
  is_tainted (argument v concrete) = false
  is_tainted (argument v abstract) = false
  is_tainted (argument v _) = (at_run v).taint

  abbrev pub any_tainted : List Argument → Bool
  any_tainted [] = false
  any_tainted (a ∷ args) = is_tainted a || any_tainted args

module _ (given : List Datum) (i : ℕ) where
  got : {d : Datum} → get_elem? given i ≡ some d → get_arg given i ≡ done d
  unfolding get_arg
  got h = ground arith

  pub one :
      (d : Datum) (rest : List Datum)
      → Segment given i (d ∷ rest)
      → (get_arg given i ≡ done d) × Segment given (i + 1) rest
  one d rest h = (got h.0, Segment-at given (suc i) (i + 1) rest (omega arith) h.1)

pub second :
    (given : List Datum) (i : ℕ) (c d : Datum) (rest : List Datum)
    → Segment given i (c ∷ d ∷ rest)
    → (get_arg given i ≡ done c) × (get_arg given (i + 1) ≡ done d) × Segment given (i + 2) rest
second given i c d rest h =
    let a = one given i c (d ∷ rest) h in
    let b = one given (i + 1) d rest a.1 in
    (a.0, b.0, Segment-at given (i + 1 + 1) (i + 2) rest (omega arith) b.1)

pub third :
    (given : List Datum) (i : ℕ) (b c d : Datum) (rest : List Datum)
    → Segment given i (b ∷ c ∷ d ∷ rest)
    → (get_arg given i ≡ done b)
      × (get_arg given (i + 1) ≡ done c)
      × (get_arg given (i + 2) ≡ done d)
      × Segment given (i + 3) rest
third given i b c d rest h =
    let x = second given i b c (d ∷ rest) h in
    let y = one given (i + 2) d rest x.2 in
    (x.0, x.1, y.0, Segment-at given (i + 2 + 1) (i + 3) rest (omega arith) y.1)

module _ (at_run : Value → State) (given : List Datum) where
  -- The result of the rest of a walk, after a tainted argument and what it passes on.
  grown :
      (t b c : Bool) (before new later : List Datum)
      → ◌≡◌ {A = Run (Bool × List Datum)}
          (done ((t || b) || c, (before ++ new) ++ later))
          (done (t || (b || c), before ++ (new ++ later)))
  grown t b c before new later = rw (or_assoc t b c, append_assoc before new later) refl

  pub collect_exact :
      (pos : ℕ) (args : List Argument) (tainted : Bool) (before : List Datum)
      → Segment given pos (flat_all at_run args)
      → collect pos args given tainted before
        ≡ done (tainted || any_tainted at_run args, before ++ passed_all at_run args)
  unfolding collect
  collect_exact pos [] tainted before h = rw (or-false tainted, append-nil before) refl
  collect_exact pos (argument v test ∷ args) tainted before h =
      let (e, rest) = one given pos _ _ h in
      rw e (
        collect_exact (pos + 1) args (tainted || (at_run v).taint) before rest
        ∙ ap (λ b. done (b, before ++ passed_all at_run args))
            (or_assoc tainted (at_run v).taint (any_tainted at_run args)))
  collect_exact pos (argument v concrete ∷ args) tainted before h =
      let (e, rest) = one given pos _ _ h in
      rw e (
        collect_exact (pos + 1) args tainted (before ++ ((at_run v).concrete_value ∷ [])) rest
        ∙ ap (λ l. done (tainted || any_tainted at_run args, l))
            (append_assoc before ((at_run v).concrete_value ∷ []) (passed_all at_run args)))
  collect_exact pos (argument v abstract ∷ args) tainted before h =
      let (e, d, rest) = second given pos _ _ _ h in
      rw d (
        collect_exact (pos + 2) args tainted (before ++ ((at_run v).abstract_value ∷ [])) rest
        ∙ ap (λ l. done (tainted || any_tainted at_run args, l))
            (append_assoc before ((at_run v).abstract_value ∷ []) (passed_all at_run args)))
  collect_exact pos (argument v with_taint ∷ args) tainted before h =
      let (e, d, c, rest) = third given pos _ _ _ _ h in
      rw (e, d, c)
        (collect_exact (pos + 3) args (tainted || (at_run v).taint)
            (before ++ flat at_run (argument v with_taint)) rest
          ∙ grown tainted (at_run v).taint (any_tainted at_run args) before
              (flat at_run (argument v with_taint)) (passed_all at_run args))
  collect_exact pos (argument v unpack ∷ args) tainted before h =
      let (e, d, c, rest) = third given pos _ _ _ _ h in
      rw (e, d, c)
        (collect_exact (pos + 3) args (tainted || (at_run v).taint)
            (before ++ flat at_run (argument v with_taint)) rest
          ∙ grown tainted (at_run v).taint (any_tainted at_run args) before
              (flat at_run (argument v with_taint)) (passed_all at_run args))
