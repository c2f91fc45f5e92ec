-- ===== src/Lartcc/Edges/Passes.antt =====
-- How a value passes through one of its uses.
use mathlib.Core.List.Memᴰ
use lart.Common.{
  ◌≡◌, ◌≢◌, refl, sym, subst, ◌⊎◌, ◌↔◌, inl, inr, Bool, true, false, some, List, [], ◌∷◌, map, Memᴰ,
  done,
}
use lart.Lartcc.Dataflow.{Value, uniform, load, store, Edge}
use lart.Lartcc.Edges.{
  Class, argument_class, alloca_class, cmp_class, binary_class, gep_class, phi_class, cast_class,
  intrinsic_class, call_class, invoke_class, constant_expr, global_variable, load_class,
  store_class, return_class, function_class, branch_class, constant_data, instruction_class,
  value_class, Use, Program, edge, ignore_function, store_edges,
}

-- A user of these classes is a value made of its operands.
abbrev pub is_plain : Class → Bool
is_plain alloca_class = true
is_plain argument_class = false
is_plain cmp_class = true
is_plain binary_class = true
is_plain gep_class = true
is_plain phi_class = true
is_plain cast_class = true
is_plain constant_expr = true
is_plain global_variable = true
is_plain _ = false

abbrev pub is_call : Class → Bool
is_call call_class = true
is_call invoke_class = true
is_call _ = false

-- How a value passes through a use by a user of a class, and the edge of that way.
pub data Passes (p : Program) (v : Value) (u : Use) : Class → Edge → Type 0 where
  operand : (c : Class) → is_plain c ≡ true → Passes p v u c (edge uniform v u.user)
  loaded : Passes p v u load_class (edge load v u.user)
  stored :
      (q : Value)
      → v ≡ p.value_operand u.user
      → Memᴰ q (p.pointsto (p.pointer_operand u.user))
      → Passes p v u store_class (edge store v q)
  returned :
      p.return_value u.user ≡ some v
      → Passes p v u return_class (edge uniform v (p.function_of u.user))
  called :
      (c : Class)
      → is_call c ≡ true
      → v ≡ p.called_operand u.user
      → Passes p v u c (edge uniform v u.user)
  passed :
      (c : Class) (fn : Value)
      → is_call c ≡ true
      → v ≢ p.called_operand u.user
      → p.called_function u.user ≡ some fn
      → ignore_function p fn ≡ false
      → Passes p v u c (edge uniform v (p.arg fn u.operand))

pub single : {x e : Edge} → Memᴰ e (x ∷ []) ↔ (e ≡ x)
single = (Memᴰ.eq_of_singleton, λ h. Memᴰ.head h)

pub map_cases :
    (f : Value → Edge) (l : List Value) (e : Edge)
    → Memᴰ e (map f l)
    → (q : Value) × Memᴰ q l × (e ≡ f q)
map_cases f [] e h = absurd (Memᴰ.not-nil h)
map_cases f (q ∷ l) e h = elim (Memᴰ.cases_cons h) [
  | inl k ↦ (q, Memᴰ.head refl, k)
  | inr k ↦ let (r, m, d) = map_cases f l e k in (r, Memᴰ.tail m, d)
]

pub plain_not_call : (c : Class) → is_plain c ≡ true → is_call c ≢ true
plain_not_call alloca_class h k = cc k
plain_not_call cmp_class h k = cc k
plain_not_call binary_class h k = cc k
plain_not_call gep_class h k = cc k
plain_not_call phi_class h k = cc k
plain_not_call cast_class h k = cc k
plain_not_call constant_expr h k = cc k
plain_not_call global_variable h k = cc k
plain_not_call argument_class h k = cc h
plain_not_call function_class h k = cc h
plain_not_call constant_data h k = cc h
plain_not_call value_class h k = cc h
plain_not_call intrinsic_class h k = cc h
plain_not_call call_class h k = cc h
plain_not_call invoke_class h k = cc h
plain_not_call load_class h k = cc h
plain_not_call store_class h k = cc h
plain_not_call return_class h k = cc h
plain_not_call branch_class h k = cc h
plain_not_call instruction_class h k = cc h

module _ (p : Program) (v : Value) (u : Use) where
  pub plain_back :
      (c : Class) (e : Edge)
      → Passes p v u c e
      → is_plain c ≡ true
      → Memᴰ e (edge uniform v u.user ∷ [])
  plain_back _ _ (operand c k) h = Memᴰ.head refl
  plain_back _ _ loaded h = absurd (cc h)
  plain_back _ _ (stored q k m) h = absurd (cc h)
  plain_back _ _ (returned k) h = absurd (cc h)
  plain_back _ _ (called c k d) h = Memᴰ.head refl
  plain_back _ _ (passed c fn k d f i) h = absurd (plain_not_call c h k)

  pub plain_exact :
      (c : Class) (es : List Edge)
      → is_plain c ≡ true
      → done (edge uniform v u.user ∷ []) ≡ done es
      → (e : Edge) → Memᴰ e es ↔ Passes p v u c e
  plain_exact c es h d e =
      let list : edge uniform v u.user ∷ [] ≡ es = cc d in
      rw (← list)
        ((λ m. subst (Passes p v u c) (sym (single.0 m)) (operand c h)), λ k. plain_back c e k h)

  pub load_back :
      (c : Class) (e : Edge) → Passes p v u c e → c ≡ load_class → e ≡ edge load v u.user
  load_back _ _ (operand c k) h = absurd (cc (k, h))
  load_back _ _ loaded h = refl
  load_back _ _ (stored q k m) h = absurd (cc h)
  load_back _ _ (returned k) h = absurd (cc h)
  load_back _ _ (called c k d) h = absurd (cc (k, h))
  load_back _ _ (passed c fn k d f i) h = absurd (cc (k, h))

  pub store_back :
      (c : Class) (e : Edge)
      → Passes p v u c e
      → c ≡ store_class
      → (v ≡ p.value_operand u.user) × Memᴰ e (store_edges p v u.user)
  unfolding store_edges
  store_back _ _ (operand c k) h = absurd (cc (k, h))
  store_back _ _ loaded h = absurd (cc h)
  store_back _ _ (stored q k m) h = (k, Memᴰ.map (edge store v) m)
  store_back _ _ (returned k) h = absurd (cc h)
  store_back _ _ (called c k d) h = absurd (cc (k, h))
  store_back _ _ (passed c fn k d f i) h = absurd (cc (k, h))

  pub return_back :
      (c : Class) (e : Edge)
      → Passes p v u c e
      → c ≡ return_class
      → (p.return_value u.user ≡ some v) × (e ≡ edge uniform v (p.function_of u.user))
  return_back _ _ (operand c k) h = absurd (cc (k, h))
  return_back _ _ loaded h = absurd (cc h)
  return_back _ _ (stored q k m) h = absurd (cc h)
  return_back _ _ (returned k) h = (k, refl)
  return_back _ _ (called c k d) h = absurd (cc (k, h))
  return_back _ _ (passed c fn k d f i) h = absurd (cc (k, h))

  pub call_back :
      (c : Class) (e : Edge)
      → Passes p v u c e
      → is_call c ≡ true
      → ((v ≡ p.called_operand u.user) × (e ≡ edge uniform v u.user))
        ⊎ ((fn : Value) × (v ≢ p.called_operand u.user)
            × (p.called_function u.user ≡ some fn)
            × (ignore_function p fn ≡ false)
            × (e ≡ edge uniform v (p.arg fn u.operand)))
  call_back _ _ (operand c k) h = absurd (plain_not_call c k h)
  call_back _ _ loaded h = absurd (cc h)
  call_back _ _ (stored q k m) h = absurd (cc h)
  call_back _ _ (returned k) h = absurd (cc h)
  call_back _ _ (called c k d) h = inl (d, refl)
  call_back _ _ (passed c fn k d f i) h = inr (fn, d, f, i, refl)

  -- A class from which nothing passes.
  pub silent_back :
      (c : Class) (e : Edge)
      → Passes p v u c e
      → ¬ (
          (is_plain c ≡ false)
          × (is_call c ≡ false)
          × (c ≢ load_class)
          × (c ≢ store_class)
          × (c ≢ return_class))
  silent_back _ _ (operand c k) h = cc (k, h.0)
  silent_back _ _ loaded h = h.2 refl
  silent_back _ _ (stored q k m) h = h.3 refl
  silent_back _ _ (returned k) h = h.4 refl
  silent_back _ _ (called c k d) h = cc (k, h.1)
  silent_back _ _ (passed c fn k d f i) h = cc (k, h.1)
