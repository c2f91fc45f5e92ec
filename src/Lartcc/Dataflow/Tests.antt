-- ===== src/Lartcc/Dataflow/Tests.antt =====
-- A run of the analysis of lartcc/dfa.cpp on a program of four values: the abstract result 0 of a call is copied
-- to 1 and stored to the place 2, from which 3 is loaded.
use lart.Common.{
  ℕ, suc, zero, ◌≡◌, refl, ap, ◌≤◌, arith, Bool, true, false, some, List, [], ◌∷◌, Memᴰ,
}
use mathlib.Core.List.Memᴰ
use lart.Lartcc.Onion.{of_nesting, make_abstract, is_abstract}
use lart.Lartcc.Dataflow.{
  Value, Edge, uniform, load, store, Kind, scalar, Types, state, initial, start, run_from,
}
use lart.Lartcc.Dataflow.Invariant.{Tracked}
use lart.Lartcc.Dataflow.Soundness.{
  analysis_ends, roots_abstract, uniform_flows, memory_flows, enough, started-Tracked,
}

abbrev copy : Edge
copy = record { from = 0; to = 1; ty = uniform }

abbrev store_edge : Edge
store_edge = record { from = 1; to = 2; ty = store }

abbrev load_edge : Edge
load_edge = record { from = 2; to = 3; ty = load }

abbrev flows : Value → List Edge
flows zero = copy ∷ []
flows (suc zero) = store_edge ∷ []
flows (suc (suc zero)) = load_edge ∷ []
flows _ = []

abbrev nested : Value → ℕ
nested (suc (suc zero)) = 1
nested _ = 0

abbrev never : Value → Bool
never v = false

abbrev program : List Value
program = 0 ∷ 1 ∷ 2 ∷ 3 ∷ []

abbrev calls : List (Value × Kind)
calls = (0, scalar) ∷ []

program-Closed : (v : Value) (e : Edge) → Memᴰ e (flows v) → Memᴰ e.to program
program-Closed zero e (Memᴰ.head h) = Memᴰ.tail (Memᴰ.head (ap (λ x. x.to) h))
program-Closed zero e (Memᴰ.tail m) = absurd (Memᴰ.not-nil m)
program-Closed (suc zero) e (Memᴰ.head h) = Memᴰ.tail (Memᴰ.tail (Memᴰ.head (ap (λ x. x.to) h)))
program-Closed (suc zero) e (Memᴰ.tail m) = absurd (Memᴰ.not-nil m)
program-Closed (suc (suc zero)) e (Memᴰ.head h) =
    Memᴰ.tail (Memᴰ.tail (Memᴰ.tail (Memᴰ.head (ap (λ x. x.to) h))))
program-Closed (suc (suc zero)) e (Memᴰ.tail m) = absurd (Memᴰ.not-nil m)
program-Closed (suc (suc (suc n))) e m = absurd (Memᴰ.not-nil m)

no_pointer : (v : Value) → never v ≡ true → nested v ≡ 0
no_pointer v h = absurd (ground arith)

program-enough : enough never nested flows program no_pointer program-Closed calls ≤ 40
unfolding make_abstract of_nesting
program-enough = unfold start in omega arith

analysis_ends_example : (final : Types) × (run_from never nested flows 40 calls ≡ some final)
analysis_ends_example =
    analysis_ends never nested flows program no_pointer program-Closed calls 40 program-enough

ended : (final : Types) × (run_from never nested flows 40 calls ≡ some final)
ended = analysis_ends never nested flows program no_pointer program-Closed calls 40 program-enough

abbrev result : Types
result = ended.0

call_abstract : is_abstract (result 0) ≡ true
call_abstract =
    roots_abstract never nested flows program no_pointer program-Closed calls 40 program-enough
      result ended.1 (0, scalar) (Memᴰ.head refl)

copy_abstract : is_abstract (result 1) ≡ true
copy_abstract =
    uniform_flows never nested flows program no_pointer program-Closed calls 40 program-enough
      result ended.1 copy (Memᴰ.head refl) refl call_abstract

uniform_flows_example : is_abstract (result 1) ≡ true
uniform_flows_example =
    uniform_flows never nested flows program no_pointer program-Closed calls 40 program-enough
      result ended.1 copy (Memᴰ.head refl) refl call_abstract

memory_flows_example : is_abstract (result 3) ≡ true
memory_flows_example =
    memory_flows never nested flows program no_pointer program-Closed calls 40 program-enough result
      ended.1 store_edge load_edge (Memᴰ.head refl) (Memᴰ.head refl) refl refl refl copy_abstract

abbrev started_types : Types
started_types = (start never nested flows calls (state [] (initial never nested flows))).types

started : Tracked never nested flows (copy ∷ []) started_types
unfolding start
started = started-Tracked never nested flows program no_pointer program-Closed calls
