-- ===== src/Lartcc/Samples.antt =====
-- A small module of LLVM code, on which lartcc/include/cc/operation.hpp and the code that uses it are tested.
use lart.Common.{ℕ, ◌+◌, ◌≡◌, refl, true, false, if◌then◌else◌, List, [], ◌∷◌, done}
use lart.Lartcc.Dataflow.{Value}
use lart.Lartcc.Operation.{Ir, Argument, argument, with_taint, binary, melt, Operation, arguments}

-- A module in which the value 12 adds the values 10 and 11; 1 is the null pointer, 2 and 3 the constants of a bit, and
-- 7 a function.
abbrev pub operands : Value → ℕ → Value
operands v i = 10 + i

abbrev pub module_ir : Ir
module_ir = record {
  operand = operands;
  opcode_name = λ v. "add";
  predicate_name = λ v. "eq";
  type_name = λ v. "i32";
  element_bytes = λ v. 4;
  bits = λ v. 32;
  is_int_div_rem = λ v. false;
  null_pointer = 1;
  nullptr = 0;
  function_value = λ name. 7;
  i1 = λ b. if b then 3 else 2;
  i8 = λ n. 4;
  i64 = λ n. 5;
}

abbrev pub addition : Operation
addition = record { kind = binary; what = 12; location = 12 }

abbrev pub melting : Operation
melting = record { kind = melt; what = 12; location = 12 }

abbrev pub two : List Argument
two = argument 10 with_taint ∷ argument 11 with_taint ∷ []

pub addition_has : arguments module_ir addition ≡ done two
unfolding arguments
addition_has = refl

-- The same module, in which the value 12 is a division.
abbrev pub division_ir : Ir
division_ir = record module_ir { is_int_div_rem = λ v. true }

pub division_has : arguments division_ir addition ≡ done two
unfolding arguments
division_has = refl
