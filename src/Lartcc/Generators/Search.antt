-- ===== src/Lartcc/Generators/Search.antt =====
-- Which calls the search from one generator registers, lartcc/include/cc/roots.hpp.
use mathlib.Core.List.Memᴰ
use lart.Common.{
  ℕ, zero, suc, ◌≤◌, ◌≡◌, ◌≢◌, refl, sym, ap, ◌∙◌, ◌⊎◌, inl, inr, ◌==◌, Bool-cases, some, List, [],
  ◌∷◌, ◌++◌, Memᴰ, arith,
}
use lart.Lartcc.Dataflow.{Value, Kind}
use lart.Lartcc.Generators.{
  Roots, register, Module, Case, follow, root, unmatched, case_of, visit, trace,
}
use lart.Lartcc.Generators.Reach.{
  kind_of, register_same, register_other, direct, IsFound, total, total-append, front, behind,
  none_reached, Case-cases, skip_front, met, met_user,
}

-- What a search has registered for a call: the kind, if it was found, and nothing new otherwise.
abbrev pub Registered : Module → List Value → Kind → Roots → Roots → Value → Type 0
Registered m queue kind before after c =
    (IsFound m queue c × (kind_of after c ≡ some kind))
    ⊎ ((¬ IsFound m queue c) × (kind_of after c ≡ kind_of before c))

moved :
    (m : Module) (queue rest : List Value) (kind : Kind) (before after : Roots) (c : Value)
    → (IsFound m queue c → IsFound m rest c)
    → (IsFound m rest c → IsFound m queue c)
    → Registered m rest kind before after c
    → Registered m queue kind before after c
moved m queue rest kind before after c f g (inl (h, k)) = inl (g h, k)
moved m queue rest kind before after c f g (inr (h, k)) = inr ((λ x. h (f x)), k)

module _ (m : Module) (otherwise : Roots → Roots) (passes : (r : Roots) → otherwise r ≡ r)
    (cost : Value → ℕ) (some_cost : (v : Value) → 1 ≤ cost v)
    (enough : (v : Value)
      → case_of (m.class v) ≡ follow
      → suc (total cost (m.users v)) ≤ cost v) where
  -- A front that is passed over.
  pass_front :
      (v : Value) (queue : List Value) (kind : Kind) (roots after : Roots) (c : Value)
      → case_of (m.class v) ≡ unmatched
      → Registered m queue kind roots after c
      → Registered m (v ∷ queue) kind roots after c
  pass_front v queue kind roots after c u =
      moved m (v ∷ queue) queue kind roots after c
        (skip_front m v queue queue c (λ e. absurd (cc (u, e)))
          (front m v queue queue (λ x i. i) (λ f. absurd (cc (u, f)))))
        (λ (r, k). (behind m v queue queue (met m v queue) c r, k))

  follow_front :
      (v : Value) (queue : List Value) (kind : Kind) (roots after : Roots) (c : Value)
      → case_of (m.class v) ≡ follow
      → Registered m (queue ++ m.users v) kind roots after c
      → Registered m (v ∷ queue) kind roots after c
  follow_front v queue kind roots after c f =
      moved m (v ∷ queue) (queue ++ m.users v) kind roots after c
        (skip_front m v queue (queue ++ m.users v) c (λ e. absurd (cc (f, e)))
          (front m v queue (queue ++ m.users v) (λ x i. Memᴰ.append_left (m.users v) i)
            (λ g x i. Memᴰ.append_right queue i)))
        (λ (r, k). (behind m v queue (queue ++ m.users v) (met_user m v queue f) c r, k))

  root_front :
      (v : Value) (queue : List Value) (kind : Kind) (roots after : Roots) (c : Value)
      → case_of (m.class v) ≡ root
      → Registered m queue kind (register v kind roots) after c
      → Registered m (v ∷ queue) kind roots after c
  root_front v queue kind roots after c t (inl ((r, k), e)) =
      inl ((behind m v queue queue (met m v queue) c r, k), e)
  root_front v queue kind roots after c t (inr (h, e)) = elim (Bool-cases (v == c)) [
    | inl s ↦
        let same : v ≡ c = ground arith in
        inl (
          (direct c (Memᴰ.head (sym same)), rw (← same) t),
          e ∙ ap (λ x. kind_of (register x kind roots) c) same ∙ register_same c kind roots,
        )
    | inr s ↦
        let other : v ≢ c = ground arith in
        inr (
          (λ (r, k). elim (front m v queue queue (λ x i. i) (λ f. absurd (cc (t, f))) c r) [
            | inl d ↦ other (sym d)
            | inr n ↦ h (n, k)
          ]),
          e ∙ register_other v c kind roots other,
        )
  ]

  pub trace_finds :
      (fuel : ℕ) (kind : Kind) (queue : List Value) (roots : Roots)
      → total cost queue ≤ fuel
      → (after : Roots) × (trace m otherwise fuel kind queue roots ≡ some after)
        × ((c : Value) → Registered m queue kind roots after c)
  unfolding trace visit
  trace_finds fuel kind [] roots f = (roots, refl, λ c. inr ((λ (r, k). none_reached m c r), refl))
  trace_finds zero kind (v ∷ queue) roots f = absurd (omega (arith, some_cost v))
  trace_finds (suc fuel) kind (v ∷ queue) roots f =
      let after_case = λ (x : Case).
        let s = visit m otherwise x v kind queue roots in trace m otherwise fuel kind s.0 s.1 in
      elim (Case-cases (case_of (m.class v))) [
        | inl k ↦
            let (after, e, found) =
              trace_finds fuel kind (queue ++ m.users v) roots
                (omega (arith, total-append cost queue (m.users v), enough v k)) in
            (after, ap after_case k ∙ e, λ c. follow_front v queue kind roots after c k (found c))
        | inr (inl k) ↦
            let (after, e, found) =
              trace_finds fuel kind queue (register v kind roots) (omega (arith, some_cost v)) in
            (after, ap after_case k ∙ e, λ c. root_front v queue kind roots after c k (found c))
        | inr (inr k) ↦
            let (after, e, found) =
              trace_finds fuel kind queue roots (omega (arith, some_cost v)) in
            (
              after,
              ap after_case k ∙ ap (λ o. trace m otherwise fuel kind queue o) (passes roots) ∙ e,
              λ c. pass_front v queue kind roots after c k (found c),
            )
      ]
