-- ===== src/Lartcc/Generators.antt =====
-- lartcc/include/cc/roots.hpp: the calls that the analysis starts from, found along the users of the functions that make
-- abstract values. LLVM's answers are given: the functions of the module with their attributes, the users
-- of a value and its class. What `sc::llvmcase` does on a value that none of its cases
-- matches is given as `otherwise`.
use lart.Common.{
  ℕ, zero, suc, Bool, true, false, ◌==◌, if◌then◌else◌, Option, none, some, List, [], ◌∷◌, ◌++◌,
}
use lart.Lartcc.Dataflow.{Value, Kind, scalar, pointer}
use lart.Lartcc.Edges.{Class, cast_class, constant_expr, intrinsic_class, call_class, invoke_class}
pub mod Reach
pub mod Search
pub mod Gather
pub mod Origins
mod Tests

-- `roots_map`, a map from calls.
abbrev pub Roots : Type 0
Roots = List (Value × Kind)

-- `result[ root ] = kind`.
unfoldable pub register : Value → Kind → Roots → Roots
register root kind [] = (root, kind) ∷ []
register root kind ((r, k) ∷ rs) =
    let rest = register root kind rs in if r == root then (r, kind) ∷ rs else (r, k) ∷ rest

pub record Module : Type 0 where
  pub functions : List Value
  pub has_scalar_attr : Value → Bool
  pub has_pointer_attr : Value → Bool
  pub users : Value → List Value
  pub class : Value → Class

-- What is done with the value at the front of the work list.
pub data Case : Type 0 where
  follow root unmatched : Case

abbrev pub case_of : Class → Case
case_of cast_class = follow
case_of constant_expr = follow
case_of intrinsic_class = root
case_of call_class = root
case_of invoke_class = root
case_of _ = unmatched

module _ (m : Module) (otherwise : Roots → Roots) where
  unfoldable pub get_abstract_kind : Value → Option Kind
  get_abstract_kind fn =
      if m.has_scalar_attr fn
      then some scalar
      else if m.has_pointer_attr fn
      then some pointer
      else none

  unfoldable pub visit : Case → Value → Kind → List Value → Roots → List Value × Roots
  unfolding register
  visit follow v kind queue roots = (queue ++ m.users v, roots)
  visit root v kind queue roots = (queue, register v kind roots)
  visit unmatched v kind queue roots = (queue, otherwise roots)

  -- The loop over the work list of a generator; `none` is a lack of fuel.
  unfoldable pub trace : ℕ → Kind → List Value → Roots → Option Roots
  unfolding visit
  trace fuel kind [] roots = some roots
  trace zero kind (v ∷ queue) roots = none
  trace (suc fuel) kind (v ∷ queue) roots =
      let s = visit (case_of (m.class v)) v kind queue roots in trace fuel kind s.0 s.1

  abbrev pub and_then : Option Roots → (Roots → Option Roots) → Option Roots
  and_then none f = none
  and_then (some r) f = f r

  -- The search from a function, which `generators` passes over if it has no kind.
  unfoldable pub search : Option Kind → ℕ → Value → Roots → Option Roots
  unfolding trace
  search none fuel fn roots = some roots
  search (some kind) fuel fn roots = trace fuel kind (m.users fn) roots

  unfoldable pub gather_from : ℕ → List Value → Roots → Option Roots
  unfolding search get_abstract_kind
  gather_from fuel [] roots = some roots
  gather_from fuel (fn ∷ fns) roots =
      and_then (search (get_abstract_kind fn) fuel fn roots) (gather_from fuel fns)

  unfoldable pub gather_roots : ℕ → Option Roots
  unfolding gather_from
  gather_roots fuel = gather_from fuel m.functions []
