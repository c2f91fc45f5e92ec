-- ===== src/Lartcc/Edges/Analysis.antt =====
-- The edges of lartcc/dfa.cpp under its work list: abstract values reach the parameters of the functions that they are
-- passed to, the results of calls, and what is loaded from where they are stored.
use lart.Common.{ℕ, ◌≤◌, ◌≡◌, ◌≢◌, refl, sym, subst, Bool, true, false, some, List, Memᴰ, done}
use lart.Lartcc.Onion.{is_abstract}
use lart.Lartcc.Dataflow.{Value, Kind, Types, uniform, load, store, Edge, run_from}
use lart.Lartcc.Dataflow.Soundness.{enough, uniform_flows, memory_flows}
use lart.Lartcc.Edges.{
  Class, argument_class, cmp_class, load_class, store_class, return_class, Use, Program, edge,
  ignore_function, pushed, edges, is_constant_data,
}
use lart.Lartcc.Edges.Passes.{is_call, Passes, loaded, stored, returned, called, passed}
use lart.Lartcc.Edges.Flows.{Flows, used, Supported, edges_exact}

abbrev pub is_cmp_class : Class → Bool
is_cmp_class cmp_class = true
is_cmp_class _ = false

pushed_all :
    (p : Program) (v : Value) → is_constant_data (p.class v) ≡ false → pushed p v ≡ edges p v
unfolding pushed
pushed_all p v n = rw n refl

module _ (p : Program) (args : (fn : Value) (n : ℕ) → p.class (p.arg fn n) ≡ argument_class)
    (supported : (v : Value) (u : Use)
      → is_constant_data (p.class v) ≡ false
      → Memᴰ u (p.uses v)
      → Supported p v u (p.class u.user))
    (collected : Value → List Edge) (agrees : (v : Value) → pushed p v ≡ done (collected v))
    (nesting : Value → ℕ) (values : List Value)
    (scalar_cmp : (v : Value) → is_cmp_class (p.class v) ≡ true → nesting v ≡ 0)
    (closed : (v : Value) (e : Edge) → Memᴰ e (collected v) → Memᴰ e.to values)
    (roots : List (Value × Kind)) where
  abbrev pub compares : Value → Bool
  compares v = is_cmp_class (p.class v)

  in_collected :
      (v : Value) (e : Edge)
      → is_constant_data (p.class v) ≡ false
      → Flows p v e
      → Memᴰ e (collected v)
  in_collected v e n f =
      let (es, r, exact) = edges_exact p args v (λ u m. supported v u n m) in
      let all = pushed_all p v n in
      let same : es ≡ collected v = cc (r, agrees v, all) in subst (Memᴰ e) same ((exact e).1 f)

  use_edge :
      (v : Value) (u : Use) (c : Class) (e : Edge)
      → is_constant_data (p.class v) ≡ false
      → Memᴰ u (p.uses v)
      → p.class u.user ≡ c
      → Passes p v u c e
      → Memᴰ e (collected v)
  use_edge v u c e n m k w = in_collected v e n (used u m (subst (λ x. Passes p v u x e) (sym k) w))

  module _ (fuel : ℕ)
      (fuelled : enough compares nesting collected values scalar_cmp closed roots ≤ fuel)
      (final : Types) (result : run_from compares nesting collected fuel roots ≡ some final) where
    flows :
        (v w : Value)
        → Memᴰ (edge uniform v w) (collected v)
        → is_abstract (final v) ≡ true
        → is_abstract (final w) ≡ true
    flows v w m h =
        uniform_flows compares nesting collected values scalar_cmp closed roots fuel fuelled final
          result (edge uniform v w) m refl h

    -- An abstract value that is no constant data, passed as an argument to a function by a direct call and not itself the
    -- function called, makes the parameter abstract, unless the function is one of LAMP (its name starts with `__lamp`). This holds in the result of the analysis with at
    -- least the fuel named by `enough`, on a program with finitely many values, in which no comparison is a pointer,
    -- the parameters of functions are arguments, and every use of a value that is no constant data is supported
    -- (as `edges_exact` says).
    pub arguments_flow :
        (v : Value) (u : Use) (fn : Value)
        → is_constant_data (p.class v) ≡ false
        → Memᴰ u (p.uses v)
        → is_call (p.class u.user) ≡ true
        → v ≢ p.called_operand u.user
        → p.called_function u.user ≡ some fn
        → ignore_function p fn ≡ false
        → is_abstract (final v) ≡ true
        → is_abstract (final (p.arg fn u.operand)) ≡ true
    arguments_flow v u fn n m c d f i h =
        flows v (p.arg fn u.operand) (use_edge v u _ _ n m refl (passed _ fn c d f i)) h

    -- An abstract value that a function returns makes the results of the function's calls abstract.
    pub returns_flow :
        (v : Value) (r c : Use)
        → is_constant_data (p.class v) ≡ false
        → is_constant_data (p.class (p.function_of r.user)) ≡ false
        → Memᴰ r (p.uses v)
        → p.class r.user ≡ return_class
        → p.return_value r.user ≡ some v
        → Memᴰ c (p.uses (p.function_of r.user))
        → is_call (p.class c.user) ≡ true
        → p.function_of r.user ≡ p.called_operand c.user
        → is_abstract (final v) ≡ true
        → is_abstract (final c.user) ≡ true
    returns_flow v r c x y m k w n i d h =
        flows (p.function_of r.user) c.user (use_edge _ c _ _ y n refl (called _ i d))
          (flows v (p.function_of r.user) (use_edge v r _ _ x m k (returned w)) h)

    -- An abstract value that is stored makes abstract what is loaded from a place that the pointer of the store may mean,
    -- where neither the value nor the place is constant data. This holds in the result of the analysis with at least
    -- the fuel named by `enough`, on a program with finitely many values, in which no comparison is a pointer, the
    -- parameters of functions are arguments, and every use of a value that is no constant data is supported
    -- (as `edges_exact` says).
    pub stores_flow :
        (v : Value) (s : Use) (q : Value) (l : Use)
        → is_constant_data (p.class v) ≡ false
        → is_constant_data (p.class q) ≡ false
        → Memᴰ s (p.uses v)
        → p.class s.user ≡ store_class
        → v ≡ p.value_operand s.user
        → Memᴰ q (p.pointsto (p.pointer_operand s.user))
        → Memᴰ l (p.uses q)
        → p.class l.user ≡ load_class
        → is_abstract (final v) ≡ true
        → is_abstract (final l.user) ≡ true
    stores_flow v s q l x y m k d n i j h =
        memory_flows compares nesting collected values scalar_cmp closed roots fuel fuelled final
          result (edge store v q) (edge load q l.user) (use_edge v s _ _ x m k (stored q d n))
          (use_edge q l _ _ y i j loaded) refl refl refl h
