-- ===== src/Lartcc/Operation.antt =====
-- lartcc/include/cc/operation.hpp and arguments.hpp: the operations that the compiler puts in for those on abstract
-- values, the arguments of their calls, and what they yield on the concrete path; and the views of these
-- arguments in lartcc/taint.cpp and lartcc/lifter.cpp. LLVM's answers are given as a record.
use Prim.Native.String.{String, ◌++◌ as ◌<>◌}
use lart.Common.{
  ℕ, zero, suc, ◌+◌, ◌%◌, ◌^◌, Bool, true, false, ◌||◌, if◌then◌else◌, Option, none, some, List, [],
  ◌∷◌, ◌++◌, Run, done, undefined, ◌>>=◌,
}
use lart.Lartcc.Dataflow.{Value}
pub mod Layout
mod Tests

-- LLVM's answers on a value. A constant is a value as well.
pub record Ir : Type 0 where
  pub operand : Value → ℕ → Value
  pub opcode_name : Value → String
  pub predicate_name : Value → String
  pub type_name : Value → String
  -- the size of what the pointer of a load or a store points to
  pub element_bytes : Value → ℕ
  pub bits : Value → ℕ
  pub is_int_div_rem : Value → Bool
  pub null_pointer : Value
  -- the null pointer of C++, which is no value
  pub nullptr : Value
  pub function_value : String → Value
  pub i1 : Bool → Value
  pub i8 : ℕ → Value
  pub i64 : ℕ → Value

-- `operation`, with the expected value of an `assume`.
pub data Kind : Type 0 where
  melt freeze binary cast cmp tobool alloc store load stash unstash unstash_taint identity phi
        dump :
      Kind
  assume : (expected : Bool) → Kind

pub record Operation : Type 0 where
  pub kind : Kind
  pub what : Value
  pub location : Value

pub data Argtype : Type 0 where
  test with_taint concrete abstract unpack : Argtype

-- `argument`, a value and its type.
pub data Argument : Type 0 where
  argument : Value → Argtype → Argument

-- `default_wrapper`; the only concrete value is false.
pub data Default : Type 0 where
  abstract_pointer_default : Default
  concrete_value : Bool → Default
  concrete_argument_default : ℕ → Default

-- The template argument of `base` and of `with_taints_base`.
abbrev pub emits_test_taint : Kind → Bool
emits_test_taint melt = true
emits_test_taint binary = true
emits_test_taint cast = true
emits_test_taint cmp = true
emits_test_taint tobool = true
emits_test_taint (assume expected) = true
emits_test_taint alloc = true
emits_test_taint store = true
emits_test_taint load = true
emits_test_taint _ = false

abbrev pub has_taints : Kind → Bool
has_taints freeze = true
has_taints stash = true
has_taints k = emits_test_taint k

abbrev pub default_of : Kind → Option Default
default_of freeze = none
default_of (assume expected) = none
default_of store = none
default_of stash = none
default_of dump = none
default_of unstash_taint = some (concrete_value false)
default_of tobool = some (concrete_argument_default 1)
default_of phi = some (concrete_argument_default 1)
default_of _ = some abstract_pointer_default

abbrev pub tainted : Value → Argument
tainted v = argument v with_taint

abbrev pub plain : Value → Argument
plain v = argument v concrete

module _ (ir : Ir) where
  unfoldable pub faultable : Operation → Bool
  faultable o = elim o.kind [ binary ↦ ir.is_int_div_rem o.what | _ ↦ false ]

  unfoldable pub replaces : Operation → Option Value
  unfolding faultable
  replaces o = elim o.kind [
    | binary ↦ if faultable o then some o.what else none
    | tobool ↦ some (ir.operand o.what 0)
    | _ ↦ none
  ]

  abbrev pub name_by : Kind → Value → String
  name_by melt v = "melt"
  name_by freeze v = "freeze"
  name_by binary v = ir.opcode_name v
  name_by cast v = ir.opcode_name v
  name_by cmp v = ir.predicate_name v
  name_by tobool v = "tobool"
  name_by (assume expected) v = "assume"
  name_by alloc v = "alloca"
  name_by store v = "store"
  name_by load v = "load"
  name_by stash v = "stash." <> ir.type_name v
  name_by unstash v = "unstash"
  name_by unstash_taint v = "unstash_taint"
  name_by identity v = "identity"
  name_by phi v = "phi"
  name_by dump v = "dump"

  unfoldable pub name : Operation → String
  name o = name_by o.kind o.what

  -- The function that carries the operation out.
  abbrev pub impl_by : Kind → Value → Run String
  impl_by melt v = done "__lamp_melt"
  impl_by freeze v = done "__lamp_freeze"
  impl_by binary v = done ("__lamp_" <> ir.opcode_name v)
  impl_by cast v = done ("__lamp_" <> ir.opcode_name v)
  impl_by cmp v = done ("__lamp_" <> ir.predicate_name v)
  impl_by tobool v = done "__lamp_to_bool"
  impl_by (assume expected) v = done "__lamp_assume"
  impl_by alloc v = done "__lamp_alloca"
  impl_by store v = done "__lamp_store"
  impl_by load v = done "__lamp_load"
  impl_by stash v = done "__lart_stash"
  impl_by unstash v = done "__lart_unstash"
  impl_by unstash_taint v = done "__lart_unstash_taint"
  impl_by identity v = undefined
  impl_by phi v = undefined
  impl_by dump v = done "__lamp_dump"

  unfoldable pub impl : Operation → Run String
  impl o = impl_by o.kind o.what

  -- The operands of a load are its pointer, those of a store its value and its pointer, and the first of a
  -- conditional branch its condition.
  abbrev pub arguments_by : Kind → Value → Run (List Argument)
  arguments_by melt v =
      done (argument v test ∷ plain (ir.operand v 0) ∷ plain (ir.i64 (ir.element_bytes v)) ∷ [])
  arguments_by freeze v =
      done (
        tainted (ir.operand v 0)
        ∷ plain (ir.operand v 1)
        ∷ plain (ir.i64 (ir.element_bytes v))
        ∷ [])
  arguments_by binary v = done (tainted (ir.operand v 0) ∷ tainted (ir.operand v 1) ∷ [])
  arguments_by cast v = done (tainted (ir.operand v 0) ∷ plain (ir.i8 (ir.bits v % 2 ^ 8)) ∷ [])
  arguments_by cmp v = done (tainted (ir.operand v 0) ∷ tainted (ir.operand v 1) ∷ [])
  arguments_by tobool v = done (tainted (ir.operand v 0) ∷ [])
  arguments_by (assume expected) v = done (tainted v ∷ plain (ir.i1 expected) ∷ [])
  arguments_by alloc v = done []
  arguments_by store v = done (
      tainted (ir.operand v 1)
      ∷ tainted (ir.operand v 0)
      ∷ plain (ir.i8 (ir.element_bytes v % 2 ^ 8))
      ∷ [])
  arguments_by load v =
      done (tainted (ir.operand v 0) ∷ plain (ir.i8 (ir.element_bytes v % 2 ^ 8)) ∷ [])
  arguments_by stash v = done (tainted v ∷ [])
  arguments_by unstash v = done []
  arguments_by unstash_taint v = done []
  arguments_by identity v = undefined
  arguments_by phi v = undefined
  arguments_by dump v = done (plain v ∷ [])

  unfoldable pub arguments : Operation → Run (List Argument)
  arguments o = arguments_by o.kind o.what

  -- `unique_name_suffix`, the types of the arguments with dots between them.
  abbrev pub joined : List Argument → String
  joined [] = ""
  joined (argument v t ∷ []) = ir.type_name v
  joined (argument v t ∷ a ∷ args) = ir.type_name v <> "." <> joined (a ∷ args)

  unfoldable pub unique_name_suffix : Operation → Run String
  unfolding arguments
  unique_name_suffix o = arguments o >>= λ args. done (joined args)

  unfoldable pub lifter_name : Operation → Run String
  unfolding name unique_name_suffix
  lifter_name o =
      unique_name_suffix o >>= λ suffix. done ("lart.lifter." <> name o <> "." <> suffix)

  unfoldable pub test_taint_name : Operation → Run String
  unfolding name unique_name_suffix
  test_taint_name o =
      unique_name_suffix o >>= λ suffix. done ("lart.test.taint." <> name o <> "." <> suffix)

  -- `duplicated_arguments`: a list of arguments as it is passed to a call, with the shadow of a value
  -- from the map `shadow`.
  abbrev pub duplicate : (Value → Value) → Argument → List Value
  duplicate shadow (argument v abstract) = v ∷ ir.null_pointer ∷ []
  duplicate shadow (argument v unpack) = shadow v ∷ v ∷ ir.null_pointer ∷ []
  duplicate shadow (argument v with_taint) = shadow v ∷ v ∷ ir.null_pointer ∷ []
  duplicate shadow (argument v test) = shadow v ∷ []
  duplicate shadow (argument v concrete) = v ∷ []

  abbrev pub duplicate_all : (Value → Value) → List Argument → List Value
  duplicate_all shadow [] = []
  duplicate_all shadow (a ∷ args) = duplicate shadow a ++ duplicate_all shadow args

  unfoldable pub duplicated_arguments : (Value → Value) → Operation → Run (List Value)
  unfolding arguments
  duplicated_arguments shadow o = arguments o >>= λ args. done (duplicate_all shadow args)

abbrev pub is_abstract : Argument → Bool
is_abstract (argument v abstract) = true
is_abstract (argument v _) = false

unfoldable pub any_abstract : List Argument → Bool
any_abstract [] = false
any_abstract (a ∷ args) = is_abstract a || any_abstract args

unfoldable pub returns_value : Operation → Bool
returns_value o = elim (default_of o.kind) [ none ↦ false | some d ↦ true ]

-- `ir::argument`: the positions of the operands of a call that stand for an argument.
pub data Place : Type 0 where
  with_taint_at : (taint concrete abstract : ℕ) → Place
  concrete_at : (concrete : ℕ) → Place
  abstract_at : (concrete abstract : ℕ) → Place

-- The loop of `paired_view`.
unfoldable pub places_from : ℕ → List Argument → List Place
places_from pos [] = []
places_from pos (argument v abstract ∷ args) =
    abstract_at pos (pos + 1) ∷ places_from (pos + 2) args
places_from pos (argument v unpack ∷ args) =
    with_taint_at pos (pos + 1) (pos + 2) ∷ places_from (pos + 3) args
places_from pos (argument v with_taint ∷ args) =
    with_taint_at pos (pos + 1) (pos + 2) ∷ places_from (pos + 3) args
places_from pos (argument v test ∷ args) = concrete_at pos ∷ places_from (pos + 1) args
places_from pos (argument v concrete ∷ args) = concrete_at pos ∷ places_from (pos + 1) args

-- The operands of the call that stands for an operation: that of a test of taints starts with the lifter.
unfoldable pub call_operands : Kind → Value → List Value → List Value
call_operands k lifter vs = if emits_test_taint k then lifter ∷ vs else vs

-- The lifter is skipped.
unfoldable pub paired_view : Kind → List Argument → List Place
unfolding places_from
paired_view k args = places_from (if emits_test_taint k then 1 else 0) args
