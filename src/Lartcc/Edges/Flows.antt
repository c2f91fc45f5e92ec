-- ===== src/Lartcc/Edges/Flows.antt =====
-- Which edges a value has.
use mathlib.Core.List.Memᴰ
use lart.Common.{
  ℕ, ◌≡◌, ◌≢◌, refl, subst, ◌∙◌, ◌⊎◌, ◌↔◌, inl, inr, Bool, true, false, ◌==◌, if◌then◌else◌, none,
  some, List, [], ◌∷◌, ◌++◌, Memᴰ, Run, done, arith,
}
use lart.Lartcc.Dataflow.{Value, uniform, load, store, Edge}
use lart.Lartcc.Edges.{
  Class, argument_class, alloca_class, cmp_class, binary_class, gep_class, phi_class, cast_class,
  intrinsic_class, call_class, invoke_class, constant_expr, global_variable, load_class,
  store_class, return_class, function_class, branch_class, constant_data, instruction_class,
  value_class, Use, Program, edge, both, ignore_function, abstract_function, store_edges,
  induced_edges_by, induced_edges, arguse, calluse, forward_by, forward_all, is_store, edges,
}
use lart.Lartcc.Edges.Passes.{is_plain, is_call, Passes, map_cases}
use lart.Lartcc.Edges.Uses.{forward_exact}

-- The edges of a value: those of its uses and, if it is a store itself, one to each place stored to.
pub data Flows (p : Program) (v : Value) (e : Edge) : Type 0 where
  itself :
      (q : Value)
      → p.class v ≡ store_class
      → Memᴰ q (p.pointsto (p.pointer_operand v))
      → e ≡ edge store v q
      → Flows p v e
  used : (u : Use) → Memᴰ u (p.uses v) → Passes p v u (p.class u.user) e → Flows p v e

-- The classes of users that need no more than their class.
abbrev pub is_silent : Class → Bool
is_silent intrinsic_class = true
is_silent load_class = true
is_silent store_class = true
is_silent branch_class = true
is_silent _ = false

-- The uses that the analysis supports.
pub data Supported (p : Program) (v : Value) (u : Use) : Class → Type 0 where
  plain : (c : Class) → is_plain c ≡ true → Supported p v u c
  silent : (c : Class) → is_silent c ≡ true → Supported p v u c
  result : p.return_value u.user ≡ some v → Supported p v u return_class
  callee : (c : Class) → is_call c ≡ true → v ≡ p.called_operand u.user → Supported p v u c
  ignored :
      (c : Class) (fn : Value)
      → is_call c ≡ true
      → v ≢ p.called_operand u.user
      → p.called_function u.user ≡ some fn
      → ignore_function p fn ≡ true
      → Supported p v u c
  parameter :
      (c : Class) (fn : Value)
      → is_call c ≡ true
      → v ≢ p.called_operand u.user
      → p.called_function u.user ≡ some fn
      → ignore_function p fn ≡ false
      → abstract_function p fn ≡ done none
      → p.vararg fn ≡ false
      → Supported p v u c

both-cases :
    (a b : Run (List Edge)) (es : List Edge)
    → both a b ≡ done es
    → (xs : List Edge) × (ys : List Edge) × (a ≡ done xs) × (b ≡ done ys) × (es ≡ xs ++ ys)
both-cases (done xs) (done ys) es h = (xs, ys, refl, refl, cc h)
both-cases (done xs) Run.cancelled es h = absurd (cc h)
both-cases (done xs) Run.undefined es h = absurd (cc h)
both-cases Run.cancelled b es h = absurd (cc h)
both-cases Run.undefined b es h = absurd (cc h)

store-cases :
    (c : Class)
    → ((c ≡ store_class) × (is_store c ≡ true)) ⊎ ((c ≢ store_class) × (is_store c ≡ false))
store-cases store_class = inl (refl, refl)
store-cases alloca_class = inr ((λ h. cc h), refl)
store-cases cmp_class = inr ((λ h. cc h), refl)
store-cases binary_class = inr ((λ h. cc h), refl)
store-cases gep_class = inr ((λ h. cc h), refl)
store-cases phi_class = inr ((λ h. cc h), refl)
store-cases cast_class = inr ((λ h. cc h), refl)
store-cases constant_expr = inr ((λ h. cc h), refl)
store-cases global_variable = inr ((λ h. cc h), refl)
store-cases argument_class = inr ((λ h. cc h), refl)
store-cases function_class = inr ((λ h. cc h), refl)
store-cases constant_data = inr ((λ h. cc h), refl)
store-cases value_class = inr ((λ h. cc h), refl)
store-cases intrinsic_class = inr ((λ h. cc h), refl)
store-cases call_class = inr ((λ h. cc h), refl)
store-cases invoke_class = inr ((λ h. cc h), refl)
store-cases load_class = inr ((λ h. cc h), refl)
store-cases return_class = inr ((λ h. cc h), refl)
store-cases branch_class = inr ((λ h. cc h), refl)
store-cases instruction_class = inr ((λ h. cc h), refl)

module _ (p : Program) (v : Value) (u : Use) where
  plain_done :
      (c : Class)
      → is_plain c ≡ true
      → p.class u.user ≡ c
      → forward_by p c v u ≡ done (edge uniform v u.user ∷ [])
  unfolding forward_by induced_edges
  plain_done alloca_class h k = rw k refl
  plain_done cmp_class h k = rw k refl
  plain_done binary_class h k = rw k refl
  plain_done gep_class h k = rw k refl
  plain_done phi_class h k = rw k refl
  plain_done cast_class h k = rw k refl
  plain_done constant_expr h k = rw k refl
  plain_done global_variable h k = rw k refl
  plain_done argument_class h k = absurd (cc h)
  plain_done function_class h k = absurd (cc h)
  plain_done constant_data h k = absurd (cc h)
  plain_done value_class h k = absurd (cc h)
  plain_done intrinsic_class h k = absurd (cc h)
  plain_done call_class h k = absurd (cc h)
  plain_done invoke_class h k = absurd (cc h)
  plain_done load_class h k = absurd (cc h)
  plain_done store_class h k = absurd (cc h)
  plain_done return_class h k = absurd (cc h)
  plain_done branch_class h k = absurd (cc h)
  plain_done instruction_class h k = absurd (cc h)

  silent_done :
      (c : Class)
      → is_silent c ≡ true
      → p.class u.user ≡ c
      → (es : List Edge) × (forward_by p c v u ≡ done es)
  unfolding forward_by induced_edges
  silent_done intrinsic_class h k = ([], refl)
  silent_done load_class h k = (edge load v u.user ∷ [], rw k refl)
  silent_done store_class h k =
      (if v == p.value_operand u.user then store_edges p v u.user else [], rw k refl)
  silent_done branch_class h k = ([], rw k refl)
  silent_done alloca_class h k = absurd (cc h)
  silent_done cmp_class h k = absurd (cc h)
  silent_done binary_class h k = absurd (cc h)
  silent_done gep_class h k = absurd (cc h)
  silent_done phi_class h k = absurd (cc h)
  silent_done cast_class h k = absurd (cc h)
  silent_done constant_expr h k = absurd (cc h)
  silent_done global_variable h k = absurd (cc h)
  silent_done argument_class h k = absurd (cc h)
  silent_done function_class h k = absurd (cc h)
  silent_done constant_data h k = absurd (cc h)
  silent_done value_class h k = absurd (cc h)
  silent_done call_class h k = absurd (cc h)
  silent_done invoke_class h k = absurd (cc h)
  silent_done return_class h k = absurd (cc h)
  silent_done instruction_class h k = absurd (cc h)

  -- A call looks at the operand that is called first.
  call_done :
      (c : Class)
      → is_call c ≡ true
      → (forward_by p c v u ≡ calluse p v u)
        × ((r : Value) → induced_edges_by p c v r ≡ done (edge uniform v r ∷ []))
  unfolding forward_by
  call_done call_class h = (refl, λ r. refl)
  call_done invoke_class h = (refl, λ r. refl)
  call_done alloca_class h = absurd (cc h)
  call_done cmp_class h = absurd (cc h)
  call_done binary_class h = absurd (cc h)
  call_done gep_class h = absurd (cc h)
  call_done phi_class h = absurd (cc h)
  call_done cast_class h = absurd (cc h)
  call_done constant_expr h = absurd (cc h)
  call_done global_variable h = absurd (cc h)
  call_done argument_class h = absurd (cc h)
  call_done function_class h = absurd (cc h)
  call_done constant_data h = absurd (cc h)
  call_done value_class h = absurd (cc h)
  call_done intrinsic_class h = absurd (cc h)
  call_done load_class h = absurd (cc h)
  call_done store_class h = absurd (cc h)
  call_done return_class h = absurd (cc h)
  call_done branch_class h = absurd (cc h)
  call_done instruction_class h = absurd (cc h)

  forward_done :
      (args : (fn : Value) (n : ℕ) → p.class (p.arg fn n) ≡ argument_class) (c : Class)
      → Supported p v u c
      → p.class u.user ≡ c
      → (es : List Edge) × (forward_by p c v u ≡ done es)
  unfolding forward_by induced_edges calluse arguse
  forward_done args _ (plain c h) k = (edge uniform v u.user ∷ [], plain_done c h k)
  forward_done args _ (silent c h) k = silent_done c h k
  forward_done args _ (result h) k =
      let self : (v == v) ≡ true = ground arith in
      (edge uniform v (p.function_of u.user) ∷ [], rw (k, h, self) refl)
  forward_done args _ (callee c h d) k =
      let self : (v == p.called_operand u.user) ≡ true = ground arith in
      let (f, i) = call_done c h in (edge uniform v u.user ∷ [], f ∙ rw (self, k) (i u.user))
  forward_done args _ (ignored c fn h d f i) k =
      let other : (v == p.called_operand u.user) ≡ false = ground arith in
      ([], (call_done c h).0 ∙ rw (other, f, i) refl)
  forward_done args _ (parameter c fn h d f i a w) k =
      let other : (v == p.called_operand u.user) ≡ false = ground arith in
      (
        edge uniform v (p.arg fn u.operand) ∷ [],
        (call_done c h).0 ∙ rw (other, f, i, a, w, args fn u.operand) refl,
      )

module _ (p : Program) (args : (fn : Value) (n : ℕ) → p.class (p.arg fn n) ≡ argument_class)
    (v : Value) where
  forward_all_exact :
      (us : List Use)
      → ((u : Use) → Memᴰ u us → Supported p v u (p.class u.user))
      → (es : List Edge) × (forward_all p v us ≡ done es)
        × ((e : Edge) → Memᴰ e es ↔ ((u : Use) × Memᴰ u us × Passes p v u (p.class u.user) e))
  unfolding forward_all
  forward_all_exact [] s =
      ([], refl, λ e. ((λ m. absurd (Memᴰ.not-nil m)), λ (u, m, w). absurd (Memᴰ.not-nil m)))
  forward_all_exact (u ∷ us) s =
      let (xs, d) = forward_done p v u args (p.class u.user) (s u (Memᴰ.head refl)) refl in
      let (ys, r, exact) = forward_all_exact us (λ w m. s w (Memᴰ.tail m)) in
      (
        xs ++ ys,
        rw (d, r) refl,
        λ e. (
          (λ m. elim (Memᴰ.append_cases xs m) [
            | inl n ↦
                (u, Memᴰ.head refl, (forward_exact p args v u (p.class u.user) xs refl d e).0 n)
            | inr n ↦ let (w, m', t) = (exact e).0 n in (w, Memᴰ.tail m', t)
          ]),
          λ (w, m, t). elim (Memᴰ.cases_cons m) [
            | inl n ↦ Memᴰ.append_left ys (
                (forward_exact p args v u (p.class u.user) xs refl d e).1
                  (subst (λ x. Passes p v x (p.class x.user) e) n t))
            | inr n ↦ Memᴰ.append_right xs ((exact e).1 (w, n, t))
          ],
        ),
      )

  own : List Edge
  own = if is_store (p.class v) then store_edges p v v else []

  own_exact :
      (e : Edge)
      → Memᴰ e own ↔ (
          (q : Value) × (p.class v ≡ store_class)
          × Memᴰ q (p.pointsto (p.pointer_operand v))
          × (e ≡ edge store v q))
  unfolding own store_edges
  own_exact e = elim (store-cases (p.class v)) [
    | inl (k, s) ↦ rw s (
      (λ m. let (q, n, x) = map_cases (edge store v) _ e m in (q, k, n, x)),
      λ (q, k', n, x). Memᴰ.cast x (Memᴰ.map (edge store v) n),
    )
    | inr (k, s) ↦ rw s ((λ m. absurd (Memᴰ.not-nil m)), λ (q, k', n, x). absurd (k k'))
  ]

  flows_back :
      (us : List Edge)
      → ((e : Edge) → Memᴰ e us ↔ ((u : Use) × Memᴰ u (p.uses v) × Passes p v u (p.class u.user) e))
      → (e : Edge) → Flows p v e
      → Memᴰ e (own ++ us)
  flows_back us exact e (itself q k n d) = Memᴰ.append_left us ((own_exact e).1 (q, k, n, d))
  flows_back us exact e (used u m w) = Memᴰ.append_right own ((exact e).1 (u, m, w))

  -- Where every use of a value is supported, and the parameters of functions are arguments, the edges of the value
  -- are collected without an error, and are those of the ways in which the value flows. A use as an argument
  -- of a call is supported if the call is direct and the function is one of LAMP, which is passed over, or has a
  -- name, no version in LAMP and no variable arguments; a use by a return if the value is the one returned.
  pub edges_exact :
      ((u : Use) → Memᴰ u (p.uses v) → Supported p v u (p.class u.user))
      → (es : List Edge) × (edges p v ≡ done es) × ((e : Edge) → Memᴰ e es ↔ Flows p v e)
  unfolding edges own
  edges_exact s =
      let (ys, r, exact) = forward_all_exact (p.uses v) s in
      (
        own ++ ys,
        rw r refl,
        λ e. (
          (λ m. elim (Memᴰ.append_cases own m) [
            | inl n ↦ let (q, k, i, d) = (own_exact e).0 n in itself q k i d
            | inr n ↦ let (u, i, t) = (exact e).0 n in used u i t
          ]),
          flows_back ys exact e,
        ),
      )
