-- ===== src/Lartcc/Edges.antt =====
-- lartcc/dfa.cpp: the edges of a value, from its uses. What the code asks LLVM and the alias analysis of SVF for
-- is a record of answers.
use lart.Common.{
  ℕ, Bool, true, false, ◌&&◌, ◌==◌, if◌then◌else◌, Option, none, some, List, [], ◌∷◌, ◌++◌, map,
  Run, done, undefined, ◌>>=◌,
}
use lart.Lartcc.Dataflow.{Value, Flow, uniform, load, store, Edge}
pub mod Passes
pub mod Uses
pub mod Flows
pub mod Analysis
mod Tests

-- What kind of value LLVM says a value is, as far as the code tells them apart.
pub data Class : Type 0 where
  argument_class alloca_class cmp_class binary_class gep_class phi_class cast_class : Class
  intrinsic_class call_class invoke_class constant_expr global_variable load_class store_class :
      Class
  return_class function_class branch_class constant_data : Class
  -- another instruction, and another value
  instruction_class value_class : Class

-- An entry of the use list of a value: who uses it, and as which operand.
pub record Use : Type 0 where
  pub user : Value
  pub operand : ℕ

-- The answers of LLVM and of the alias analysis. A name is a list of characters by their codes.
pub record Program : Type 0 where
  pub class : Value → Class
  pub uses : Value → List Use
  pub called_operand : Value → Value
  pub called_function : Value → Option Value
  pub name : Value → List ℕ
  pub get_function : List ℕ → Option Value
  pub vararg : Value → Bool
  pub arg : Value → ℕ → Value
  pub value_operand : Value → Value
  pub pointer_operand : Value → Value
  pub pointsto : Value → List Value
  pub return_value : Value → Option Value
  pub function_of : Value → Value

abbrev pub edge : Flow → Value → Value → Edge
edge t l r = record { from = l; to = r; ty = t }

abbrev pub lamp : List ℕ
lamp = 95 ∷ 95 ∷ 108 ∷ 97 ∷ 109 ∷ 112 ∷ []

abbrev pub lamp_fn : List ℕ
lamp_fn = lamp ++ (95 ∷ 102 ∷ 110 ∷ 95 ∷ [])

unfoldable pub starts_with : (prefix name : List ℕ) → Bool
starts_with [] cs = true
starts_with (p ∷ ps) [] = false
starts_with (p ∷ ps) (c ∷ cs) = (p == c) && starts_with ps cs

-- A flow of values that the two lists of edges make together.
abbrev pub both : Run (List Edge) → Run (List Edge) → Run (List Edge)
both a b = do es ← a; fs ← b; done (es ++ fs)

abbrev pub is_store : Class → Bool
is_store store_class = true
is_store _ = false

abbrev pub is_constant_data : Class → Bool
is_constant_data constant_data = true
is_constant_data _ = false

module _ (p : Program) where
  unfoldable pub ignore_function : Value → Bool
  unfolding starts_with
  ignore_function fn = starts_with lamp (p.name fn)

  -- The assertion is that the function has a name.
  unfoldable pub abstract_function : Value → Run (Option Value)
  abstract_function fn = elim (p.name fn) [
    | [] ↦ undefined
    | c ∷ cs ↦ done (p.get_function (lamp_fn ++ (c ∷ cs)))
  ]

  -- An edge to each place that the pointer of a store may mean.
  unfoldable pub store_edges : Value → Value → List Edge
  store_edges v s = map (edge store v) (p.pointsto (p.pointer_operand s))

  -- The case of a return: it asserts that the value is the one returned.
  abbrev pub return_edges : Option Value → Value → Value → Run (List Edge)
  return_edges none lhs rhs = undefined
  return_edges (some v) lhs rhs =
      if lhs == v then done (edge uniform v (p.function_of rhs) ∷ []) else undefined

  unfoldable pub induced_edges_by : Class → Value → Value → Run (List Edge)
  unfolding store_edges
  induced_edges_by argument_class lhs rhs = done (edge uniform lhs rhs ∷ [])
  induced_edges_by alloca_class lhs rhs = done (edge uniform lhs rhs ∷ [])
  induced_edges_by cmp_class lhs rhs = done (edge uniform lhs rhs ∷ [])
  induced_edges_by binary_class lhs rhs = done (edge uniform lhs rhs ∷ [])
  induced_edges_by gep_class lhs rhs = done (edge uniform lhs rhs ∷ [])
  induced_edges_by phi_class lhs rhs = done (edge uniform lhs rhs ∷ [])
  induced_edges_by cast_class lhs rhs = done (edge uniform lhs rhs ∷ [])
  induced_edges_by intrinsic_class lhs rhs = done (edge uniform lhs rhs ∷ [])
  induced_edges_by call_class lhs rhs = done (edge uniform lhs rhs ∷ [])
  induced_edges_by invoke_class lhs rhs = done (edge uniform lhs rhs ∷ [])
  induced_edges_by constant_expr lhs rhs = done (edge uniform lhs rhs ∷ [])
  induced_edges_by global_variable lhs rhs = done (edge uniform lhs rhs ∷ [])
  induced_edges_by load_class lhs rhs = done (edge load lhs rhs ∷ [])
  induced_edges_by store_class lhs rhs =
      done (if lhs == p.value_operand rhs then store_edges lhs rhs else [])
  induced_edges_by return_class lhs rhs = return_edges (p.return_value rhs) lhs rhs
  induced_edges_by function_class lhs rhs = done (edge uniform rhs lhs ∷ [])
  induced_edges_by branch_class lhs rhs = done []
  induced_edges_by constant_data lhs rhs = done []
  induced_edges_by instruction_class lhs rhs = undefined
  induced_edges_by value_class lhs rhs = undefined

  unfoldable pub induced_edges : Value → Value → Run (List Edge)
  unfolding induced_edges_by
  induced_edges lhs rhs = induced_edges_by (p.class rhs) lhs rhs

  -- The body of the loop in `arguse`, for a function called.
  abbrev pub argument_edges : Option Value → Value → Value → ℕ → Run (List Edge)
  argument_edges (some lamp_version) v fn n = undefined
  argument_edges none v fn n = if p.vararg fn then undefined else induced_edges v (p.arg fn n)

  -- `arguse`. An indirect call has no destinations.
  unfoldable pub arguse : Option Value → Value → ℕ → Run (List Edge)
  unfolding induced_edges ignore_function abstract_function
  arguse none v n = undefined
  arguse (some fn) v n =
      if ignore_function fn
      then done []
      else (do lamp_version ← abstract_function fn; argument_edges lamp_version v fn n)

  unfoldable pub calluse : Value → Use → Run (List Edge)
  unfolding induced_edges arguse
  calluse v u =
      if v == p.called_operand u.user
      then induced_edges v u.user
      else arguse (p.called_function u.user) v u.operand

  -- Both kinds of intrinsics are passed over, those that are not kept with a message.
  unfoldable pub forward_by : Class → Value → Use → Run (List Edge)
  unfolding calluse induced_edges
  forward_by intrinsic_class v u = done []
  forward_by call_class v u = calluse v u
  forward_by invoke_class v u = calluse v u
  forward_by argument_class v u = undefined
  forward_by function_class v u = undefined
  forward_by constant_data v u = undefined
  forward_by value_class v u = undefined
  forward_by _ v u = induced_edges v u.user

  unfoldable pub forward_all : Value → List Use → Run (List Edge)
  unfolding forward_by
  forward_all v [] = done []
  forward_all v (u ∷ us) = both (forward_by (p.class u.user) v u) (forward_all v us)

  -- The edges of a value, those that `uses` pushes by itself first.
  unfoldable pub edges : Value → Run (List Edge)
  unfolding forward_all store_edges
  edges v =
      both (done (if is_store (p.class v) then store_edges v v else [])) (forward_all v (p.uses v))

  -- What `push` of a value puts on the work list: nothing for constant data. The program is the one that `prep` leaves,
  -- which `push` runs on the value's function.
  unfoldable pub pushed : Value → Run (List Edge)
  unfolding edges
  pushed v = if is_constant_data (p.class v) then done [] else edges v
