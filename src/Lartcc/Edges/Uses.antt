-- ===== src/Lartcc/Edges/Uses.antt =====
-- The edges of one use are those of the ways in which the value passes through it.
use mathlib.Core.List.Memᴰ
use lart.Common.{
  ℕ, ◌≡◌, ◌≢◌, refl, sym, ap, subst, ◌∙◌, ◌⊎◌, ◌↔◌, inl, inr, true, false, ◌==◌, if◌then◌else◌,
  Bool-cases, Run, cancelled, undefined, Option-cases, none, some, List, [], ◌∷◌, Memᴰ, done, arith,
}
use lart.Lartcc.Dataflow.{Value, uniform, load, store, Edge}
use lart.Lartcc.Edges.{
  Class, argument_class, alloca_class, cmp_class, binary_class, gep_class, phi_class, cast_class,
  intrinsic_class, call_class, invoke_class, constant_expr, global_variable, load_class,
  store_class, return_class, function_class, branch_class, constant_data, instruction_class,
  value_class, Use, Program, edge, ignore_function, abstract_function, store_edges, return_edges,
  induced_edges_by, induced_edges, arguse, calluse, forward_by,
}
use lart.Lartcc.Edges.Passes.{
  is_plain, is_call, Passes, loaded, stored, returned, called, passed, single, map_cases,
  plain_exact, load_back, store_back, return_back, call_back, silent_back,
}

run_cases {ℓ} :
    {A : Type ℓ} (r : Run A) → ((a : A) × (r ≡ done a)) ⊎ ((r ≡ cancelled) ⊎ (r ≡ undefined))
run_cases (done a) = inl (a, refl)
run_cases cancelled = inr (inl refl)
run_cases undefined = inr (inr refl)

module _ (p : Program) (args : (fn : Value) (n : ℕ) → p.class (p.arg fn n) ≡ argument_class) where
  arguse_cases :
      (fn v : Value) (n : ℕ) (es : List Edge)
      → arguse p (some fn) v n ≡ done es
      → ((ignore_function p fn ≡ true) × (es ≡ []))
        ⊎ ((ignore_function p fn ≡ false) × (es ≡ edge uniform v (p.arg fn n) ∷ []))
  unfolding arguse induced_edges
  arguse_cases fn v n es h = elim (Bool-cases (ignore_function p fn)) [
    | inl i ↦ inl (i, cc (rw i at h))
    | inr i ↦ elim (run_cases (abstract_function p fn)) [
      | inl (none, a) ↦ elim (Bool-cases (p.vararg fn)) [
        | inl b ↦ absurd (cc (rw (i, a, b) at h))
        | inr b ↦ inr (i, cc (rw (i, a, b, args fn n) at h))
      ]
      | inl (some g, a) ↦ absurd (cc (rw (i, a) at h))
      | inr (inl a) ↦ absurd (cc (rw (i, a) at h))
      | inr (inr a) ↦ absurd (cc (rw (i, a) at h))
    ]
  ]

  called_ignored :
      (v : Value) (u : Use) (c : Class) (e : Edge) (fn : Value)
      → Passes p v u c e
      → is_call c ≡ true
      → v ≢ p.called_operand u.user
      → p.called_function u.user ≡ some fn
      → ignore_function p fn ≢ true
  called_ignored v u c e fn w call other f i = elim (call_back p v u c e w call) [
    | inl (a, b) ↦ other a
    | inr (gn, ne, g, j, b) ↦
        let same : gn ≡ fn = cc (f, g) in cc (ap (ignore_function p) same, i, j)
  ]

  call_exact :
      (v : Value) (u : Use) (c : Class) (es : List Edge)
      → is_call c ≡ true
      → ((l r : Value) → induced_edges_by p c l r ≡ done (edge uniform l r ∷ []))
      → p.class u.user ≡ c
      → calluse p v u ≡ done es
      → (e : Edge) → Memᴰ e es ↔ Passes p v u c e
  unfolding calluse induced_edges
  call_exact v u c es call by k h e = elim (Bool-cases (v == p.called_operand u.user)) [
    | inl d ↦
        let list : edge uniform v u.user ∷ [] ≡ es = cc (rw (d, k, by v u.user) at h) in
        let same : v ≡ p.called_operand u.user = ground arith in
        rw (← list) (
          (λ m. subst (Passes p v u c) (sym (single.0 m)) (called c call same)),
          λ w. elim (call_back p v u c e w call) [
            | inl (a, b) ↦ Memᴰ.head b
            | inr (fn, ne, f, i, b) ↦ absurd (ne same)
          ],
        )
    | inr d ↦
        let other : v ≢ p.called_operand u.user = ground arith in
        elim (Option-cases (p.called_function u.user)) [
          | inl f ↦ absurd (cc (rw (d, f) at h))
          | inr (fn, f) ↦ elim (arguse_cases fn v u.operand es (rw (d, f) at h)) [
            | inl (i, list) ↦ rw list (
              (λ m. absurd (Memᴰ.not-nil m)),
              λ w. absurd (called_ignored v u c e fn w call other f i),
            )
            | inr (i, list) ↦ rw list (
              (λ m. subst (Passes p v u c) (sym (single.0 m)) (passed c fn call other f i)),
              λ w. elim (call_back p v u c e w call) [
                | inl (a, b) ↦ absurd (other a)
                | inr (gn, ne, g, j, b) ↦
                    let same : gn ≡ fn = cc (f, g) in
                    Memᴰ.head (b ∙ ap (λ x. edge uniform v (p.arg x u.operand)) same)
              ],
            )
          ]
        ]
  ]

  silent_exact :
      (v : Value) (u : Use) (c : Class) (es : List Edge)
      → (is_plain c ≡ false)
        × (is_call c ≡ false)
        × (c ≢ load_class)
        × (c ≢ store_class)
        × (c ≢ return_class)
      → done [] ≡ done es
      → (e : Edge) → Memᴰ e es ↔ Passes p v u c e
  silent_exact v u c es s d e =
      let list : [] ≡ es = cc d in
      rw (← list) ((λ m. absurd (Memᴰ.not-nil m)), λ w. absurd (silent_back p v u c e w s))

  load_exact :
      (v : Value) (u : Use) (es : List Edge)
      → done (edge load v u.user ∷ []) ≡ done es
      → (e : Edge) → Memᴰ e es ↔ Passes p v u load_class e
  load_exact v u es d e =
      let list : edge load v u.user ∷ [] ≡ es = cc d in
      rw (← list) (
        (λ m. subst (Passes p v u load_class) (sym (single.0 m)) loaded),
        λ w. Memᴰ.head (load_back p v u load_class e w refl),
      )

  store_exact :
      (v : Value) (u : Use) (es : List Edge)
      → done (if v == p.value_operand u.user then store_edges p v u.user else []) ≡ done es
      → (e : Edge) → Memᴰ e es ↔ Passes p v u store_class e
  unfolding store_edges
  store_exact v u es d e = elim (Bool-cases (v == p.value_operand u.user)) [
    | inl c ↦
        let same : v ≡ p.value_operand u.user = ground arith in
        let list : store_edges p v u.user ≡ es = cc (rw c at d) in
        rw (← list) (
          (λ m.
              let (q, n, x) = map_cases (edge store v) _ e m in
              subst (Passes p v u store_class) (sym x) (stored q same n)),
          λ w. (store_back p v u store_class e w refl).1,
        )
    | inr c ↦
        let list : [] ≡ es = cc (rw c at d) in
        rw (← list) (
          (λ m. absurd (Memᴰ.not-nil m)),
          λ w. absurd (ground (arith, c, (store_back p v u store_class e w refl).0)),
        )
  ]

  return_exact :
      (v : Value) (u : Use) (es : List Edge)
      → return_edges p (p.return_value u.user) v u.user ≡ done es
      → (e : Edge) → Memᴰ e es ↔ Passes p v u return_class e
  return_exact v u es d e = elim (Option-cases (p.return_value u.user)) [
    | inl r ↦ absurd (cc (rw r at d))
    | inr (w, r) ↦ elim (Bool-cases (v == w)) [
      | inl c ↦
          let same : w ≡ v = ground arith in
          let list : edge uniform v (p.function_of u.user) ∷ [] ≡ es =
            ap (λ x. edge uniform x (p.function_of u.user) ∷ []) (sym same)
            ∙ (cc (rw (r, c) at d)) in
          rw (← list) (
            (λ m.
                subst (Passes p v u return_class) (sym (single.0 m)) (returned (r ∙ ap some same))),
            λ x. Memᴰ.head (return_back p v u return_class e x refl).1,
          )
      | inr c ↦ absurd (cc (rw (r, c) at d))
    ]
  ]

  pub forward_exact :
      (v : Value) (u : Use) (c : Class) (es : List Edge)
      → p.class u.user ≡ c
      → forward_by p c v u ≡ done es
      → (e : Edge) → Memᴰ e es ↔ Passes p v u c e
  unfolding forward_by induced_edges
  forward_exact v u alloca_class es k h e = plain_exact p v u alloca_class es refl (rw k at h) e
  forward_exact v u cmp_class es k h e = plain_exact p v u cmp_class es refl (rw k at h) e
  forward_exact v u binary_class es k h e = plain_exact p v u binary_class es refl (rw k at h) e
  forward_exact v u gep_class es k h e = plain_exact p v u gep_class es refl (rw k at h) e
  forward_exact v u phi_class es k h e = plain_exact p v u phi_class es refl (rw k at h) e
  forward_exact v u cast_class es k h e = plain_exact p v u cast_class es refl (rw k at h) e
  forward_exact v u constant_expr es k h e = plain_exact p v u constant_expr es refl (rw k at h) e
  forward_exact v u global_variable es k h e =
      plain_exact p v u global_variable es refl (rw k at h) e
  forward_exact v u argument_class es k h e = absurd (cc h)
  forward_exact v u function_class es k h e = absurd (cc h)
  forward_exact v u constant_data es k h e = absurd (cc h)
  forward_exact v u value_class es k h e = absurd (cc h)
  forward_exact v u instruction_class es k h e = absurd (cc (rw k at h))
  forward_exact v u call_class es k h e = call_exact v u call_class es refl (λ l r. refl) k h e
  forward_exact v u invoke_class es k h e = call_exact v u invoke_class es refl (λ l r. refl) k h e
  forward_exact v u intrinsic_class es k h e =
      silent_exact v u intrinsic_class es (refl, refl, (λ w. cc w), (λ w. cc w), λ w. cc w) h e
  forward_exact v u branch_class es k h e =
      silent_exact v u branch_class es (refl, refl, (λ w. cc w), (λ w. cc w), λ w. cc w) (rw k at h)
        e
  forward_exact v u load_class es k h e = load_exact v u es (rw k at h) e
  forward_exact v u store_class es k h e = store_exact v u es (rw k at h) e
  forward_exact v u return_class es k h e = return_exact v u es (rw k at h) e
