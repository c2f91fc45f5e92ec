-- ===== src/Lartcc/Generators/Tests.antt =====
-- The roots of a module of four values: the generator 0 is used by the cast 1, which is called by 2, and by the
-- branch 3.
use mathlib.Core.List.Memᴰ
use lart.Common.{ℕ, zero, suc, ◌≤◌, Bool, ◌≡◌, refl, arith, true, false, some, List, [], ◌∷◌, Memᴰ}
use lart.Lartcc.Dataflow.{Value, Edge, Types, scalar, start, run_from}
use lart.Lartcc.Onion.{of_nesting, make_abstract, is_abstract}
use lart.Lartcc.Dataflow.Soundness.{analysis_ends}
use lart.Lartcc.Dataflow.Soundness
use lart.Lartcc.Generators.Origins.{generated_abstract}
use lart.Lartcc.Edges.{Class, function_class, cast_class, call_class, branch_class}
use lart.Lartcc.Generators.{Roots, Module, case_of, follow, get_abstract_kind, gather_roots}
use lart.Lartcc.Generators.Reach.{total, IsFound, direct, through}
use lart.Lartcc.Generators.Gather.{Gathered, gather_roots_finds}

abbrev classes : Value → Class
classes zero = function_class
classes (suc zero) = cast_class
classes (suc (suc zero)) = call_class
classes (suc (suc (suc n))) = branch_class

abbrev users : Value → List Value
users zero = 1 ∷ 3 ∷ []
users (suc zero) = 2 ∷ []
users (suc (suc n)) = []

abbrev four : Module
four = record {
  functions = 0 ∷ [];
  has_scalar_attr = λ v. true;
  has_pointer_attr = λ v. false;
  users = users;
  class = classes;
}

abbrev cost : Value → ℕ
cost zero = 4
cost (suc zero) = 2
cost (suc (suc n)) = 1

abbrev same : Roots → Roots
same r = r

gather_runs : gather_roots four same 4 ≡ some ((2, scalar) ∷ [])
unfolding gather_roots
gather_runs = refl

some_cost : (v : Value) → 1 ≤ cost v
some_cost zero = omega arith
some_cost (suc zero) = omega arith
some_cost (suc (suc n)) = omega arith

enough : (v : Value) → case_of (classes v) ≡ follow → suc (total cost (users v)) ≤ cost v
enough zero h = omega arith
enough (suc zero) h = omega arith
enough (suc (suc n)) h = omega arith

affordable : (g : Value) → Memᴰ g (0 ∷ []) → total cost (users g) ≤ 4
affordable zero m = omega arith
affordable (suc zero) m = omega arith
affordable (suc (suc n)) m = omega arith

gather_roots_finds_example :
    (roots : Roots) × (gather_roots four same 4 ≡ some roots)
    × ((c : Value) → Gathered four same (0 ∷ []) [] roots c)
gather_roots_finds_example =
    gather_roots_finds four same (λ r. refl) cost some_cost enough 4 affordable

abbrev flat : Value → ℕ
flat v = 0

abbrev never : Value → Bool
never v = false

abbrev flows : Value → List Edge
flows v = []

abbrev values : List Value
values = 0 ∷ 1 ∷ 2 ∷ 3 ∷ []

no_pointer : (v : Value) → never v ≡ true → flat v ≡ 0
no_pointer v h = refl

closed : (v : Value) (e : Edge) → Memᴰ e (flows v) → Memᴰ e.to values
closed v e m = absurd (Memᴰ.not-nil m)

steps-enough : Soundness.enough never flat flows values no_pointer closed ((2, scalar) ∷ []) ≤ 40
unfolding make_abstract of_nesting
steps-enough = unfold start in omega arith

ended : (final : Types) × (run_from never flat flows 40 ((2, scalar) ∷ []) ≡ some final)
ended = analysis_ends never flat flows values no_pointer closed ((2, scalar) ∷ []) 40 steps-enough

found : IsFound four (users 0) 2
found = (through 1 2 (direct 1 (Memᴰ.head refl)) refl (Memᴰ.head refl), refl)

generated_abstract_example : is_abstract (ended.0 2) ≡ true
unfolding get_abstract_kind
generated_abstract_example =
    generated_abstract four same (λ r. refl) cost some_cost enough 4 affordable ((2, scalar) ∷ [])
      gather_runs never flat flows values no_pointer closed 40 steps-enough ended.0 ended.1 0 scalar
      2 (Memᴰ.head refl) refl found
