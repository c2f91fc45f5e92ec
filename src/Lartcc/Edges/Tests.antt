-- ===== src/Lartcc/Edges/Tests.antt =====
-- The analysis on a program of eight values: the abstract result 0 of a call is passed to the parameter 2 of the
-- function 1 by the call 3; the function returns it by 4 and stores it by 5 to the place 6, from
-- which 7 loads.
use mathlib.Core.List.Memᴰ
use lart.Common.{
  ℕ, suc, zero, ◌≡◌, ◌≤◌, ◌↔◌, refl, sym, subst, arith, Bool, true, false, none, some, List, [],
  ◌∷◌, Memᴰ, done,
}
use lart.Lartcc.Onion.{of_nesting, make_abstract, is_abstract}
use lart.Lartcc.Dataflow.{Value, Edge, uniform, load, store, Kind, scalar, Types, start, run_from}
use lart.Lartcc.Dataflow.Soundness.{analysis_ends, roots_abstract, enough}
use lart.Lartcc.Edges.{
  Class, argument_class, alloca_class, call_class, load_class, store_class, return_class,
  function_class, value_class, Use, Program, edge, ignore_function, abstract_function, pushed,
  edges,
}
use lart.Lartcc.Edges.Flows.{Flows, Supported, silent, result, callee, parameter, edges_exact}
use lart.Lartcc.Edges.Analysis.{is_cmp_class, arguments_flow, stores_flow}

abbrev use_by : Value → ℕ → Use
use_by v n = record { user = v; operand = n }

abbrev entry {ℓ} : {A : Type ℓ} → List A → A → ℕ → A
entry [] d n = d
entry (x ∷ xs) d zero = x
entry (x ∷ xs) d (suc n) = entry xs d n

abbrev classes : List Class
classes =
    call_class ∷ function_class ∷ argument_class ∷ call_class ∷ return_class ∷ store_class
    ∷ alloca_class ∷ load_class ∷ []

abbrev use_lists : List (List Use)
use_lists =
    (use_by 3 0 ∷ [])
    ∷ (use_by 3 1 ∷ [])
    ∷ (use_by 4 0 ∷ use_by 5 0 ∷ [])
    ∷ []
    ∷ []
    ∷ []
    ∷ (use_by 5 1 ∷ use_by 7 0 ∷ [])
    ∷ []

abbrev small : Program
small = record {
  class = entry classes value_class;
  uses = entry use_lists [];
  called_operand = λ v. 1;
  called_function = λ v. some 1;
  name = λ v. 102 ∷ [];
  get_function = λ n. none;
  vararg = λ v. false;
  arg = λ fn n. 2;
  value_operand = λ v. 2;
  pointer_operand = λ v. 6;
  pointsto = λ v. v ∷ [];
  return_value = λ v. some 2;
  function_of = λ v. 1;
}

abbrev found : List (List Edge)
found =
    (edge uniform 0 2 ∷ [])
    ∷ (edge uniform 1 3 ∷ [])
    ∷ (edge uniform 2 1 ∷ edge store 2 6 ∷ [])
    ∷ []
    ∷ []
    ∷ (edge store 5 6 ∷ [])
    ∷ (edge load 6 7 ∷ [])
    ∷ []

abbrev collected : Value → List Edge
collected = entry found []

agrees : (v : Value) → pushed small v ≡ done (collected v)
unfolding pushed
agrees zero = refl
agrees (suc zero) = refl
agrees (suc (suc zero)) = refl
agrees (suc (suc (suc zero))) = refl
agrees (suc (suc (suc (suc zero)))) = refl
agrees (suc (suc (suc (suc (suc zero))))) = refl
agrees (suc (suc (suc (suc (suc (suc zero)))))) = refl
agrees (suc (suc (suc (suc (suc (suc (suc zero))))))) = refl
agrees (suc (suc (suc (suc (suc (suc (suc (suc n)))))))) = refl

by_use :
    (v : Value) (u w : Use)
    → u ≡ w
    → Supported small v w (small.class w.user)
    → Supported small v u (small.class u.user)
by_use v u w h s = subst (λ x. Supported small v x (small.class x.user)) (sym h) s

supported : (v : Value) (u : Use) → Memᴰ u (small.uses v) → Supported small v u (small.class u.user)
unfolding ignore_function abstract_function
supported zero u (Memᴰ.head h) =
    by_use 0 u (use_by 3 0) h
      (parameter call_class 1 refl (λ e. absurd (omega arith)) refl refl refl refl)
supported zero u (Memᴰ.tail m) = absurd (Memᴰ.not-nil m)
supported (suc zero) u (Memᴰ.head h) = by_use 1 u (use_by 3 1) h (callee call_class refl refl)
supported (suc zero) u (Memᴰ.tail m) = absurd (Memᴰ.not-nil m)
supported (suc (suc zero)) u (Memᴰ.head h) = by_use 2 u (use_by 4 0) h (result refl)
supported (suc (suc zero)) u (Memᴰ.tail (Memᴰ.head h)) =
    by_use 2 u (use_by 5 0) h (silent store_class refl)
supported (suc (suc zero)) u (Memᴰ.tail (Memᴰ.tail m)) = absurd (Memᴰ.not-nil m)
supported (suc (suc (suc zero))) u m = absurd (Memᴰ.not-nil m)
supported (suc (suc (suc (suc zero)))) u m = absurd (Memᴰ.not-nil m)
supported (suc (suc (suc (suc (suc zero))))) u m = absurd (Memᴰ.not-nil m)
supported (suc (suc (suc (suc (suc (suc zero)))))) u (Memᴰ.head h) =
    by_use 6 u (use_by 5 1) h (silent store_class refl)
supported (suc (suc (suc (suc (suc (suc zero)))))) u (Memᴰ.tail (Memᴰ.head h)) =
    by_use 6 u (use_by 7 0) h (silent load_class refl)
supported (suc (suc (suc (suc (suc (suc zero)))))) u (Memᴰ.tail (Memᴰ.tail m)) =
    absurd (Memᴰ.not-nil m)
supported (suc (suc (suc (suc (suc (suc (suc n))))))) u m = absurd (Memᴰ.not-nil m)

abbrev program : List Value
program = 2 ∷ 3 ∷ 1 ∷ 6 ∷ 7 ∷ []

target : (e f : Edge) → e ≡ f → Memᴰ f.to program → Memᴰ e.to program
target e f h m = subst (λ x. Memᴰ x.to program) (sym h) m

collected-Closed : (v : Value) (e : Edge) → Memᴰ e (collected v) → Memᴰ e.to program
collected-Closed zero e (Memᴰ.head h) = target e _ h (Memᴰ.head refl)
collected-Closed zero e (Memᴰ.tail m) = absurd (Memᴰ.not-nil m)
collected-Closed (suc zero) e (Memᴰ.head h) = target e _ h (Memᴰ.tail (Memᴰ.head refl))
collected-Closed (suc zero) e (Memᴰ.tail m) = absurd (Memᴰ.not-nil m)
collected-Closed (suc (suc zero)) e (Memᴰ.head h) =
    target e _ h (Memᴰ.tail (Memᴰ.tail (Memᴰ.head refl)))
collected-Closed (suc (suc zero)) e (Memᴰ.tail (Memᴰ.head h)) =
    target e _ h (Memᴰ.tail (Memᴰ.tail (Memᴰ.tail (Memᴰ.head refl))))
collected-Closed (suc (suc zero)) e (Memᴰ.tail (Memᴰ.tail m)) = absurd (Memᴰ.not-nil m)
collected-Closed (suc (suc (suc zero))) e m = absurd (Memᴰ.not-nil m)
collected-Closed (suc (suc (suc (suc zero)))) e m = absurd (Memᴰ.not-nil m)
collected-Closed (suc (suc (suc (suc (suc zero))))) e (Memᴰ.head h) =
    target e _ h (Memᴰ.tail (Memᴰ.tail (Memᴰ.tail (Memᴰ.head refl))))
collected-Closed (suc (suc (suc (suc (suc zero))))) e (Memᴰ.tail m) = absurd (Memᴰ.not-nil m)
collected-Closed (suc (suc (suc (suc (suc (suc zero)))))) e (Memᴰ.head h) =
    target e _ h (Memᴰ.tail (Memᴰ.tail (Memᴰ.tail (Memᴰ.tail (Memᴰ.head refl)))))
collected-Closed (suc (suc (suc (suc (suc (suc zero)))))) e (Memᴰ.tail m) = absurd (Memᴰ.not-nil m)
collected-Closed (suc (suc (suc (suc (suc (suc (suc n))))))) e m = absurd (Memᴰ.not-nil m)

abbrev compare_test : Value → Bool
compare_test v = is_cmp_class (small.class v)

abbrev nested : Value → ℕ
nested = entry (0 ∷ 0 ∷ 0 ∷ 0 ∷ 0 ∷ 0 ∷ 1 ∷ []) 0

no_pointer : (v : Value) → compare_test v ≡ true → nested v ≡ 0
no_pointer zero h = refl
no_pointer (suc zero) h = refl
no_pointer (suc (suc zero)) h = refl
no_pointer (suc (suc (suc zero))) h = refl
no_pointer (suc (suc (suc (suc zero)))) h = refl
no_pointer (suc (suc (suc (suc (suc zero))))) h = refl
no_pointer (suc (suc (suc (suc (suc (suc zero)))))) h = absurd (cc h)
no_pointer (suc (suc (suc (suc (suc (suc (suc n))))))) h = refl

abbrev calls : List (Value × Kind)
calls = (0, scalar) ∷ []

calls-enough : enough compare_test nested collected program no_pointer collected-Closed calls ≤ 90
unfolding make_abstract of_nesting
calls-enough = unfold start in omega arith

ended : (final : Types) × (run_from compare_test nested collected 90 calls ≡ some final)
ended =
    analysis_ends compare_test nested collected program no_pointer collected-Closed calls 90
      calls-enough

abbrev types : Types
types = ended.0

root_abstract : is_abstract (types 0) ≡ true
root_abstract =
    roots_abstract compare_test nested collected program no_pointer collected-Closed calls 90
      calls-enough types ended.1 (0, scalar) (Memᴰ.head refl)

edges_exact_example :
    (es : List Edge) × (edges small 2 ≡ done es) × ((e : Edge) → Memᴰ e es ↔ Flows small 2 e)
edges_exact_example = edges_exact small (λ fn n. refl) 2 (supported 2)

arguments_flow_example : is_abstract (types 2) ≡ true
unfolding ignore_function
arguments_flow_example =
    arguments_flow small (λ fn n. refl) (λ v u n m. supported v u m) collected agrees nested program
      no_pointer collected-Closed calls 90 calls-enough types ended.1 0 (use_by 3 0) 1 refl
      (Memᴰ.head refl) refl (λ e. absurd (omega arith)) refl refl root_abstract

parameter_abstract : is_abstract (types 2) ≡ true
unfolding ignore_function
parameter_abstract =
    arguments_flow small (λ fn n. refl) (λ v u n m. supported v u m) collected agrees nested program
      no_pointer collected-Closed calls 90 calls-enough types ended.1 0 (use_by 3 0) 1 refl
      (Memᴰ.head refl) refl (λ e. absurd (omega arith)) refl refl root_abstract

stores_flow_example : is_abstract (types 7) ≡ true
stores_flow_example =
    stores_flow small (λ fn n. refl) (λ v u n m. supported v u m) collected agrees nested program
      no_pointer collected-Closed calls 90 calls-enough types ended.1 2 (use_by 5 0) 6 (use_by 7 0)
      refl refl (Memᴰ.tail (Memᴰ.head refl)) refl refl (Memᴰ.head refl) (Memᴰ.tail (Memᴰ.head refl))
      refl parameter_abstract
