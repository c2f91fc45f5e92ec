-- ===== src/Lartcc/Generators/Origins.antt =====
-- The analysis of lartcc/dfa.cpp from the roots of lartcc/include/cc/roots.hpp.
use mathlib.Core.Option.{some-injective}
use lart.Common.{
  ℕ, suc, ◌≤◌, ◌≡◌, refl, sym, ap, ◌∙◌, inl, inr, Bool, true, Bool-cases, ◌==◌, some, List, [], ◌∷◌,
  Memᴰ, arith,
}
use lart.Lartcc.Onion.{is_abstract}
use lart.Lartcc.Dataflow.{Value, Kind, Types, Edge, run_from}
use lart.Lartcc.Dataflow.Soundness.{roots_abstract}
use lart.Lartcc.Dataflow.Soundness
use lart.Lartcc.Generators.{Roots, Module, case_of, follow, get_abstract_kind, gather_roots}
use lart.Lartcc.Generators.Reach.{kind_of, IsFound, total}
use lart.Lartcc.Generators.Gather.{gather_roots_finds}

kind_of-Memᴰ : (rs : Roots) (c : Value) (k : Kind) → kind_of rs c ≡ some k → Memᴰ (c, k) rs
kind_of-Memᴰ [] c k h = absurd (cc h)
kind_of-Memᴰ ((r, j) ∷ rs) c k h = elim (Bool-cases (r == c)) [
  | inl e ↦
      let same : r ≡ c = ground arith in
      let kinds : j ≡ k = some-injective j k (rw e at h) in Memᴰ.head (rw (same, kinds) refl)
  | inr e ↦ Memᴰ.tail (kind_of-Memᴰ rs c k (rw e at h))
]

module _ (m : Module) (otherwise : Roots → Roots) (passes : (r : Roots) → otherwise r ≡ r)
    (cost : Value → ℕ) (some_cost : (v : Value) → 1 ≤ cost v)
    (enough : (v : Value) → case_of (m.class v) ≡ follow → suc (total cost (m.users v)) ≤ cost v)
    (fuel : ℕ) (affordable : (g : Value) → Memᴰ g m.functions → total cost (m.users g) ≤ fuel)
    (roots : Roots) (gathered : gather_roots m otherwise fuel ≡ some roots) where
  -- A call that is found from a function with a kind is abstract in the result of the analysis from the roots that
  -- are collected: on a program with finitely many values, in which no comparison is a pointer, with
  -- at least the fuel named by `enough`, and with the hypotheses under which collecting the
  -- roots ends.
  pub generated_abstract :
      (is_cmp : Value → Bool) (nesting : Value → ℕ) (edges : Value → List Edge)
      (values : List Value) (scalar_cmp : (v : Value) → is_cmp v ≡ true → nesting v ≡ 0)
      (closed : (v : Value) (e : Edge) → Memᴰ e (edges v) → Memᴰ e.to values) (steps : ℕ)
      → Soundness.enough is_cmp nesting edges values scalar_cmp closed roots ≤ steps
      → (final : Types) → run_from is_cmp nesting edges steps roots ≡ some final
      → (g : Value) (k : Kind) (c : Value) → Memᴰ g m.functions
      → get_abstract_kind m otherwise g ≡ some k
      → IsFound m (m.users g) c
      → is_abstract (final c) ≡ true
  generated_abstract is_cmp nesting edges values scalar_cmp closed steps s final result g k c i h
        f =
      let (rs, e, got) =
        gather_roots_finds m otherwise passes cost some_cost enough fuel affordable in
      let same : rs ≡ roots = cc (e, gathered) in
      elim (got c) [
        | inl (g', k', i', h', f', d) ↦
            roots_abstract is_cmp nesting edges values scalar_cmp closed roots steps s final result
              (c, k') (kind_of-Memᴰ roots c k' (ap (λ r. kind_of r c) (sym same) ∙ d))
        | inr (n, d) ↦ absurd (n g k i h f)
      ]
