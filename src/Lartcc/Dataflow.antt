-- ===== src/Lartcc/Dataflow.antt =====
-- lartcc/dfa.cpp and lartcc/include/cc/dfa.hpp: the work list that carries the types of abstract values along
-- the edges of the program. A value is a number. What the code asks LLVM and the alias analysis for
-- is given: `is_cmp` tells the comparisons, `nesting` counts the pointers in a value's LLVM type, and
-- `edges` collects the edges of a value, those that it pushes itself first.
use lart.Common.{
  ℕ, zero, suc, Bool, true, false, not, ◌==◌, ◌&&◌, if◌then◌else◌, Option, none, some, List, [],
  ◌∷◌, ◌++◌,
}
use lart.Lartcc.Layer.{Tristate, no, Layer, layer, same, join_layer}
use lart.Lartcc.Onion.{
  Onion, of_nesting, make_abstract, make_abstract_pointer, wrap, peel, join_onion,
}
pub mod Potential
pub mod Invariant
pub mod Step
pub mod Fixpoint
pub mod Roots
pub mod Soundness
mod Tests

abbrev pub Value : Type 0
Value = ℕ

-- `edge::type`.
pub data Flow : Type 0 where
  uniform load store : Flow

pub record Edge : Type 0 where
  pub from : Value
  pub to : Value
  pub ty : Flow

-- `abstract_kind` of lartcc/include/cc/roots.hpp.
pub data Kind : Type 0 where
  scalar pointer : Kind

abbrev pub same_layer : Layer → Layer → Bool
same_layer a b = same a.pointer b.pointer && same a.abstract b.abstract

abbrev pub same_onion : Onion → Onion → Bool
same_onion [] [] = true
same_onion [] (y ∷ ys) = false
same_onion (x ∷ xs) [] = false
same_onion (x ∷ xs) (y ∷ ys) = same_layer x y && same_onion xs ys

-- `type_map`: an entry that is missing is made by `get` when it is first read, so that a map is a
-- function whose values are those entries at first.
abbrev pub Types : Type 0
Types = Value → Onion

abbrev pub assign : Value → Onion → Types → Types
assign v t types u = if u == v then t else types u

pub record State : Type 0 where
  pub worklist : List Edge
  pub types : Types

abbrev pub state : List Edge → Types → State
state es ts = record { worklist = es; types = ts }

abbrev pub back : Onion → Layer
back [] = layer no no
back (x ∷ xs) = x

-- The cases of `joined` in `process`: by the kind of edge, by whether its target is a comparison, and
-- from the types of the target and of the source.
unfoldable pub joined_by : Flow → Bool → Onion → Onion → Onion
joined_by uniform true to from = join_layer (back to) (back from) ∷ []
joined_by uniform false to from = join_onion to from
joined_by load cmp to from = join_onion to (peel from)
joined_by store cmp to from = join_onion to (wrap from)

module _ (is_cmp : Value → Bool) (nesting : Value → ℕ) (edges : Value → List Edge) where
  -- The types before the analysis.
  abbrev pub initial : Types
  initial v = of_nesting (nesting v)

  -- The edges of a value are those that `push` puts on the work list, none for constant data: `pushed` of
  -- Lartcc/Edges.
  unfoldable pub push : Value → State → State
  push v s = record s { worklist = s.worklist ++ edges v }

  -- `joined` in `process`.
  unfoldable pub joined : Edge → Types → Onion
  unfolding joined_by
  joined e types = joined_by e.ty (is_cmp e.to) (types e.to) (types e.from)

  unfoldable pub push_change : Value → Onion → State → State
  unfolding push
  push_change v t s =
      if not (same_onion (s.types v) t) then push v (record s { types = assign v t s.types }) else s

  unfoldable pub process : Edge → State → State
  unfolding push_change joined
  process e s = push_change e.to (joined e s.types) s

  unfoldable pub add : Value → Kind → Types → Types
  add v scalar types = assign v (make_abstract (types v)) types
  add v pointer types = assign v (make_abstract_pointer (types v)) types

  -- The loop over the roots.
  unfoldable pub start : List (Value × Kind) → State → State
  unfolding add push
  start [] s = s
  start ((call, kind) ∷ roots) s =
      start roots (push call (record s { types = add call kind s.types }))

  -- The loop over the work list, with `pop` in its second argument; `none` is a lack of fuel.
  unfoldable pub run : ℕ → List Edge → Types → Option Types
  unfolding process
  run fuel [] types = some types
  run zero (e ∷ es) types = none
  run (suc fuel) (e ∷ es) types = let s = process e (state es types) in run fuel s.worklist s.types

  unfoldable pub run_from : ℕ → List (Value × Kind) → Option Types
  unfolding start run
  run_from fuel roots = let s = start roots (state [] initial) in run fuel s.worklist s.types
