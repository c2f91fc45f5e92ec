-- ===== src/Lartcc/TestTaint/Tests.antt =====
-- The calls for an addition and a division at run time, with one tainted operand and with none.
use lart.Common.{◌+◌, ◌≡◌, refl, true, false, none, some, List, ◌∷◌, Run, done, if◌then◌else◌, ◌==◌}
use lart.Lartcc.Dataflow.{Value}
use lart.Lartcc.Operation.{binary, default_of, faultable, abstract_pointer_default}
use lart.Lartcc.Samples.{module_ir, division_ir, addition, addition_has, division_has, two}
use lart.Lartcc.TestTaint.{Datum, word, pointer, void, lower_test_taint, test_faultable}
use lart.Lartcc.TestTaint.Walk.{State, flat_all}
use lart.Lartcc.TestTaint.Soundness.{test_taint_exact, test_faultable_exact}

-- The value 10 is tainted.
abbrev at_run : Value → State
at_run v =
    if v == 10
    then record { taint = true; concrete_value = word 4; abstract_value = pointer 90 }
    else record { taint = false; concrete_value = word 5; abstract_value = pointer 0 }

abbrev untainted : Value → State
untainted v = record { taint = false; concrete_value = word v; abstract_value = pointer 0 }

abbrev wrap : Datum → Datum
wrap (word n) = pointer (100 + n)
wrap d = d

-- The second argument.
abbrev second_of : List Datum → Run Datum
second_of (x ∷ y ∷ ds) = done y
second_of _ = done void

addition_is_safe : faultable module_ir addition ≡ false
unfolding faultable
addition_is_safe = refl

test_taint_exact_example :
    lower_test_taint wrap second_of
      (faultable module_ir addition)
      second_of
      (default_of binary)
      two
      (word 7 ∷ flat_all at_run two)
    ≡ done (record { returned = pointer 105; stashed = none })
test_taint_exact_example =
    test_taint_exact module_ir at_run wrap second_of (word 7) second_of addition two refl
      addition_is_safe addition_has

untainted_call :
    lower_test_taint wrap second_of
      (faultable module_ir addition)
      second_of
      (default_of binary)
      two
      (word 7 ∷ flat_all untainted two)
    ≡ done (record { returned = pointer 0; stashed = none })
untainted_call =
    test_taint_exact module_ir untainted wrap second_of (word 7) second_of addition two refl
      addition_is_safe addition_has

division_faults : faultable division_ir addition ≡ true
unfolding faultable
division_faults = refl

test_faultable_exact_example :
    test_faultable wrap second_of second_of abstract_pointer_default two
      (word 7 ∷ flat_all untainted two)
    ≡ done (record { returned = word 11; stashed = some (false, pointer 0) })
test_faultable_exact_example =
    test_faultable_exact division_ir untainted wrap second_of (word 7) second_of addition two
      division_faults division_has
