-- ===== src/Lartcc/Selection/Tests.antt =====
-- A store of an abstract value and a load of it.
use lart.Common.{zero, suc, ◌≡◌, refl, inl, Option, none, some, [], ◌∷◌, done, ◌>>=◌}
use lart.Lartcc.Dataflow.{Value}
use lart.Lartcc.Layer.{no, yes, layer}
use lart.Lartcc.Onion.{Onion}
use lart.Lartcc.Operation.{freeze, melt}
use lart.Lartcc.Selection.{
  Class, store_inst, load_inst, argument_value, Code, make_operation, operation_kind,
}
use lart.Lartcc.Selection.Agreement.{passes_agree, matched}

-- The value 2 stores 0 to 1, and 3 loads from 1.
abbrev classes : Value → Class
classes zero = argument_value
classes (suc zero) = argument_value
classes (suc (suc zero)) = store_inst
classes (suc (suc (suc v))) = load_inst

abbrev found : Value → Option Onion
found zero = some (layer no yes ∷ [])
found (suc zero) = some (layer yes no ∷ layer no yes ∷ [])
found (suc (suc zero)) = none
found (suc (suc (suc v))) = some (layer no yes ∷ [])

abbrev code : Code
code = record {
  class = classes;
  pointer_operand = λ v. 1;
  value_operand = λ v. 0;
  operands = λ v. [];
  called_name = λ v. none;
  types = found;
  typed = 0 ∷ 1 ∷ 3 ∷ [];
  stores = 2 ∷ [];
}

passes_agree_example : make_operation code 2 ≡ (operation_kind code 2 >>= λ k. done (matched k))
passes_agree_example = passes_agree code 2 (inl refl)

-- What is made.
made : (make_operation code 2 ≡ done (some freeze)) × (make_operation code 3 ≡ done (some melt))
unfolding make_operation
made = (refl, refl)
