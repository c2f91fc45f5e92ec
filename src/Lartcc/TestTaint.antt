-- ===== src/Lartcc/TestTaint.antt =====
-- What the functions do that the compiler synthesises for an operation: the test of taints of
-- lartcc/backend/native/native.cpp, which takes the abstract or the concrete path, and the lifter of
-- lartcc/lifter.cpp, which wraps the concrete arguments and calls the operation of the domain.
-- What a function is called with at run time is a list of data.
use lart.Common.{
  ℕ, zero, suc, ◌+◌, Bool, true, false, ◌||◌, if◌then◌else◌, ltb, Option, none, some, List, [], ◌∷◌,
  ◌++◌, map, get_elem?, Run, done, undefined, ◌>>=◌,
}
use lart.Lartcc.Dataflow.{Value}
use lart.Lartcc.Operation.{
  Argument, argument, test, with_taint, concrete, abstract, unpack, Default,
  abstract_pointer_default, concrete_value, concrete_argument_default,
}
pub mod Walk
pub mod Lifts
pub mod Soundness
mod Tests

pub data Datum : Type 0 where
  bit : Bool → Datum
  word : ℕ → Datum
  pointer : ℕ → Datum
  void : Datum

-- `getArg`; there is no behaviour beyond the last argument.
unfoldable pub get_arg : List Datum → ℕ → Run Datum
get_arg given i = elim (get_elem? given i) [ none ↦ undefined | some d ↦ done d ]

-- A bit that a branch or an `or` reads.
abbrev pub to_bit : Datum → Run Bool
to_bit (bit b) = done b
to_bit _ = undefined

-- `argument` of the lifter.
pub data Lifted : Type 0 where
  tainted_arg : (taint concrete abstract : Datum) → Lifted
  concrete_arg : (concrete : Datum) → Lifted
  abstract_arg : (concrete abstract : Datum) → Lifted

-- `arguments` of the lifter. As written, the index moves by three over the two parts of an abstract argument.
unfoldable pub lifter_arguments : ℕ → List Argument → List Datum → Run (List Lifted)
unfolding get_arg
lifter_arguments i [] given = done []
lifter_arguments i (argument v test ∷ args) given = lifter_arguments i args given
lifter_arguments i (argument v unpack ∷ args) given = do
  t ← get_arg given i
  c ← get_arg given (i + 1)
  a ← get_arg given (i + 2)
  rest ← lifter_arguments (i + 3) args given
  done (tainted_arg t c a ∷ rest)
lifter_arguments i (argument v with_taint ∷ args) given = do
  t ← get_arg given i
  c ← get_arg given (i + 1)
  a ← get_arg given (i + 2)
  rest ← lifter_arguments (i + 3) args given
  done (tainted_arg t c a ∷ rest)
lifter_arguments i (argument v concrete ∷ args) given = do
  c ← get_arg given i
  rest ← lifter_arguments (i + 1) args given
  done (concrete_arg c ∷ rest)
lifter_arguments i (argument v abstract ∷ args) given = do
  c ← get_arg given i
  a ← get_arg given (i + 1)
  rest ← lifter_arguments (i + 3) args given
  done (abstract_arg c a ∷ rest)

unfoldable pub final : Lifted → Datum
final (tainted_arg t c a) = a
final (concrete_arg c) = c
final (abstract_arg c a) = a

unfoldable pub count_taints : List Lifted → ℕ
count_taints [] = 0
count_taints (tainted_arg t c a ∷ args) = suc (count_taints args)
count_taints (concrete_arg c ∷ args) = count_taints args
count_taints (abstract_arg c a ∷ args) = count_taints args

-- The walk over the arguments of a test of taints, from a position: whether one is tainted, and what the
-- lifter is called with.
unfoldable pub collect :
    ℕ → List Argument → List Datum → Bool → List Datum → Run (Bool × List Datum)
unfolding get_arg
collect pos [] given tainted passed = done (tainted, passed)
collect pos (argument v unpack ∷ args) given tainted passed = do
  t ← get_arg given pos
  c ← get_arg given (pos + 1)
  a ← get_arg given (pos + 2)
  b ← to_bit t
  collect (pos + 3) args given (tainted || b) (passed ++ (t ∷ c ∷ a ∷ []))
collect pos (argument v with_taint ∷ args) given tainted passed = do
  t ← get_arg given pos
  c ← get_arg given (pos + 1)
  a ← get_arg given (pos + 2)
  b ← to_bit t
  collect (pos + 3) args given (tainted || b) (passed ++ (t ∷ c ∷ a ∷ []))
collect pos (argument v test ∷ args) given tainted passed = do
  t ← get_arg given pos
  b ← to_bit t
  collect (pos + 1) args given (tainted || b) passed
collect pos (argument v concrete ∷ args) given tainted passed = do
  c ← get_arg given pos
  collect (pos + 1) args given tainted (passed ++ (c ∷ []))
collect pos (argument v abstract ∷ args) given tainted passed = do
  a ← get_arg given (pos + 1)
  collect (pos + 2) args given tainted (passed ++ (a ∷ []))

-- `extract_default`.
unfoldable pub extract_default : Default → List Datum → Run Datum
unfolding get_arg
extract_default abstract_pointer_default passed = done (pointer 0)
extract_default (concrete_value b) passed = done (bit b)
extract_default (concrete_argument_default i) passed = get_arg passed i

unfoldable pub default_result : Option Default → List Datum → Run Datum
unfolding extract_default
default_result none passed = done void
default_result (some d) passed = extract_default d passed

-- The operands that the copy of a faulting instruction is given.
unfoldable pub concretes : ℕ → List Argument → List Datum → Run (List Datum)
unfolding get_arg
concretes pos [] given = done []
concretes pos (argument v test ∷ args) given = concretes (pos + 1) args given
concretes pos (argument v unpack ∷ args) given = do
  c ← get_arg given (pos + 1)
  rest ← concretes (pos + 3) args given
  done (c ∷ rest)
concretes pos (argument v with_taint ∷ args) given = do
  c ← get_arg given (pos + 1)
  rest ← concretes (pos + 3) args given
  done (c ∷ rest)
concretes pos (argument v concrete ∷ args) given = do
  c ← get_arg given pos
  rest ← concretes (pos + 1) args given
  done (c ∷ rest)
concretes pos (argument v abstract ∷ args) given = do
  c ← get_arg given pos
  rest ← concretes (pos + 2) args given
  done (c ∷ rest)

-- What a call has done: the value returned, and what it has stashed with its taint.
pub record Outcome : Type 0 where
  pub returned : Datum
  pub stashed : Option (Bool × Datum)

-- What the functions call: `__lamp_wrap_*`, the operation of the domain, and for a faulting operation the instruction itself.
module _ (wrap : Datum → Datum) (impl : List Datum → Run Datum) where
  -- The block that wraps an argument unless it is tainted.
  unfoldable pub lift : Lifted → Run Datum
  lift (tainted_arg t c a) = to_bit t >>= λ b. done (if b then a else wrap c)
  lift (concrete_arg c) = done c
  lift (abstract_arg c a) = done a

  unfoldable pub lift_all : List Lifted → Run (List Datum)
  unfolding lift
  lift_all [] = done []
  lift_all (x ∷ xs) = lift x >>= λ d. lift_all xs >>= λ ds. done (d ∷ ds)

  -- The function that `generate` makes. With one argument that may be tainted, nothing is lifted.
  unfoldable pub lifter : List Argument → List Datum → Run Datum
  unfolding lift_all lifter_arguments final count_taints
  lifter args given = do
    lifted ← lifter_arguments 0 args given
    finals ← (if ltb 1 (count_taints lifted) then lift_all lifted else done (map final lifted))
    impl finals

  -- The function made for an operation that cannot fault. Its first argument is the lifter.
  unfoldable pub test_taint : Option Default → List Argument → List Datum → Run Outcome
  unfolding lifter collect default_result
  test_taint default args given = do
    seen ← collect 1 args given false []
    r ← (if seen.0 then lifter args seen.1 else default_result default seen.1)
    done (record { returned = r; stashed = none })

  -- The same for a faulting operation, which stashes the abstract result.
  unfoldable pub test_faultable :
      (List Datum → Run Datum) → Default → List Argument → List Datum → Run Outcome
  unfolding lifter collect extract_default concretes
  test_faultable instruction default args given = do
    seen ← collect 1 args given false []
    (if seen.0
        then lifter args seen.1
          >>= (λ r. done (record { returned = word 0; stashed = some (true, r) }))
        else extract_default default seen.1 >>= λ d. concretes 1 args given >>= λ operands.
            instruction operands >>= λ r. done (record { returned = r; stashed = some (false, d) }))

  -- The function that `lower_test_taint` makes, on whether the operation is faultable. Without a default value the
  -- copy of a faulting instruction is not put anywhere, and nothing is stashed on the concrete path.
  unfoldable pub lower_test_taint :
      Bool → (List Datum → Run Datum) → Option Default → List Argument → List Datum → Run Outcome
  unfolding test_taint test_faultable lifter collect
  lower_test_taint false instruction default args given = test_taint default args given
  lower_test_taint true instruction (some default) args given =
      test_faultable instruction default args given
  lower_test_taint true instruction none args given = do
    seen ← collect 1 args given false []
    (if seen.0
        then lifter args seen.1
          >>= (λ r. done (record { returned = word 0; stashed = some (true, r) }))
        else done (record { returned = void; stashed = none }))
