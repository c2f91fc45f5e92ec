-- ===== src/Lartcc/Selection.antt =====
-- Which operation, and which shadow, the compiler makes for a value, from the types that the data flow analysis finds:
-- `make_operation` and `toprocess` of lartcc/syntactic.cpp, and `operation_kind` and `toprocess` of
-- lartcc/shadow.cpp. The map of types is constant here, so that `[]` on a missing key throws, which nothing
-- catches.
use lart.Common.{
  ℕ, Bool, true, false, ◌&&◌, ◌||◌, if◌then◌else◌, Option, none, some, List, [], ◌∷◌, ◌++◌, Run,
  done, undefined, ◌>>=◌,
}
use lart.Lartcc.Dataflow.{Value}
use lart.Lartcc.Edges.{lamp, starts_with}
use lart.Lartcc.Onion.{Onion, peel, peel_asserts, maybe_abstract, is_abstract, is_abstract_pointer}
use lart.Lartcc.Operation.{
  Kind, melt, freeze, binary, cast, cmp, tobool, alloc, store, load, stash, unstash, unstash_taint,
  identity, phi, dump, assume,
}
pub mod Agreement
mod Tests

-- The classes of values that the code tells apart.
pub data Class : Type 0 where
  alloca_inst store_inst load_inst binary_inst cmp_inst call_inst phi_inst other_inst argument_value
        global_value other_value :
      Class
  -- whether it is a bit cast or a cast between pointers and numbers
  cast_inst : (keeps : Bool) → Class

-- What the code asks LLVM for, and the types that the analysis has found.
pub record Code : Type 0 where
  pub class : Value → Class
  pub pointer_operand : Value → Value
  pub value_operand : Value → Value
  pub operands : Value → List Value
  -- the characters of the name of the function called, empty if it has none; `none` for an indirect call
  pub called_name : Value → Option (List ℕ)
  pub types : Value → Option Onion
  -- the keys of the map of types in its order
  pub typed : List Value
  pub stores : List Value

-- `shadow_op_kind`.
pub data ShadowKind : Type 0 where
  source memory global forward store_shadow load_shadow freeze_shadow melt_shadow arg ret :
      ShadowKind

module _ (m : Code) where
  -- `types.count( v ) && f( types[ v ] )`.
  abbrev pub counted : (Onion → Bool) → Value → Bool
  counted f v = elim (m.types v) [ none ↦ false | some t ↦ f t ]

  -- The value of `f( types[ v ] )`.
  abbrev pub at_type : (Onion → Bool) → Value → Run Bool
  at_type f v = elim (m.types v) [ none ↦ undefined | some t ↦ done (f t) ]

  -- `abstract_content`.
  unfoldable pub abstract_content : Value → Run Bool
  unfolding is_abstract peel peel_asserts
  abstract_content v = elim (m.types v) [
    | none ↦ done false
    | some t ↦ if peel_asserts t then done (is_abstract (peel t)) else undefined
  ]

  unfoldable pub abstract_pointer_at : Value → Bool
  unfolding is_abstract_pointer
  abstract_pointer_at p = counted is_abstract_pointer p

  unfoldable pub abstract_value : Value → Bool
  unfolding is_abstract
  abstract_value v = counted is_abstract v

  -- The test for a `freeze`, which reads the content only if the value is not abstract.
  unfoldable pub freezes : Value → Run Bool
  unfolding abstract_content abstract_value
  freezes s =
      if abstract_value (m.value_operand s)
      then done true
      else abstract_content (m.pointer_operand s)

  unfoldable pub make_load : Value → Run (Option Kind)
  unfolding abstract_pointer_at is_abstract
  make_load v =
      if abstract_pointer_at (m.pointer_operand v)
      then done (some load)
      else at_type is_abstract v >>= λ b. done (if b then some melt else none)

  unfoldable pub make_store : Value → Run (Option Kind)
  unfolding abstract_pointer_at freezes
  make_store v =
      if abstract_pointer_at (m.pointer_operand v)
      then done (some store)
      else freezes v >>= λ b. done (if b then some freeze else none)

  unfoldable pub make_operation : Value → Run (Option Kind)
  unfolding make_load make_store is_abstract_pointer
  make_operation v = elim (m.class v) [
    | alloca_inst ↦ at_type is_abstract_pointer v >>= λ b. done (if b then some alloc else none)
    | load_inst ↦ make_load v
    | store_inst ↦ make_store v
    | binary_inst ↦ done (some binary)
    | cmp_inst ↦ done (some cmp)
    | cast_inst keeps ↦ done (some (if keeps then identity else cast))
    | phi_inst ↦ done (some phi)
    | _ ↦ done none
  ]

  unfoldable pub load_kind : Value → Option ShadowKind
  unfolding abstract_pointer_at abstract_value
  load_kind v =
      if abstract_pointer_at (m.pointer_operand v)
      then some load_shadow
      else if abstract_value v
      then some melt_shadow
      else none

  unfoldable pub store_kind : Value → Run (Option ShadowKind)
  unfolding abstract_pointer_at freezes
  store_kind v =
      if abstract_pointer_at (m.pointer_operand v)
      then done (some store_shadow)
      else freezes v >>= λ b. done (if b then some freeze_shadow else none)

  unfoldable pub operation_kind : Value → Run (Option ShadowKind)
  unfolding load_kind store_kind starts_with
  operation_kind v = elim (m.class v) [
    | alloca_inst ↦ done (some memory)
    | store_inst ↦ store_kind v
    | load_inst ↦ done (load_kind v)
    | call_inst ↦ elim (m.called_name v) [
      | none ↦ undefined
      | some name ↦ done (some (if starts_with lamp name then source else forward))
    ]
    | argument_value ↦ done (some arg)
    | global_value ↦ done (some global)
    | _ ↦ done (some forward)
  ]

  -- The shadows to be made, of the abstract values first.
  abbrev pub with_kind :
      Value
      → Run (Option ShadowKind)
      → Run (List (Value × ShadowKind))
      → Run (List (Value × ShadowKind))
  with_kind v k rest =
      k >>= λ found. rest >>= λ vs. done (elim found [ none ↦ vs | some x ↦ (v, x) ∷ vs ])

  unfoldable pub shadows_of_types : List Value → Run (List (Value × ShadowKind))
  unfolding abstract_value operation_kind
  shadows_of_types [] = done []
  shadows_of_types (v ∷ vs) =
      let rest = shadows_of_types vs in
      if abstract_value v then with_kind v (operation_kind v) rest else rest

  unfoldable pub shadows_of_stores : List Value → Run (List (Value × ShadowKind))
  unfolding operation_kind
  shadows_of_stores [] = done []
  shadows_of_stores (v ∷ vs) = with_kind v (operation_kind v) (shadows_of_stores vs)

  unfoldable pub toprocess : Run (List (Value × ShadowKind))
  unfolding shadows_of_types shadows_of_stores
  toprocess =
      shadows_of_types m.typed >>= λ vs. shadows_of_stores m.stores >>= λ ws. done (vs ++ ws)

-- The operation for a load or a store that goes with a shadow.
abbrev pub operation_of : ShadowKind → Option Kind
operation_of store_shadow = some store
operation_of load_shadow = some load
operation_of freeze_shadow = some freeze
operation_of melt_shadow = some melt
operation_of _ = none
