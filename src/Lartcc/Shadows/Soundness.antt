-- ===== src/Lartcc/Shadows/Soundness.antt =====
-- The shadows that lartcc/shadow.cpp makes tell just which values are tainted, and making them ends.
use mathlib.Core.List.Memᴰ
use lart.Common.{
  ℕ, ◌≡◌, ◌≢◌, refl, sym, subst, ◌∙◌, ◌⊎◌, inl, inr, Bool, true, false, Bool-cases, Option-cases,
  none, some, List, [], ◌∷◌, Memᴰ, done,
}
use lart.Lartcc.Dataflow.{Value}
use lart.Lartcc.Selection.{
  Code, ShadowKind, source, memory, global, forward, store_shadow, load_shadow, freeze_shadow,
  melt_shadow, arg, ret, operation_kind,
}
use lart.Lartcc.Shadows.{
  Shadow, bit, either, test_taint, Ops, Result, keep, is_instruction, or_all, process_forward,
  process_by, process_operation,
}
use lart.Lartcc.Shadows.Taints.{
  IsBit, is_set, or_of-bits, IsForward, Tainted, was_given, was_read, was_made, IsBitKind, Tells,
  IsSound, keep-IsSound,
}
use lart.Lartcc.Shadows.Equations.{
  or-set, either_left, either_right, goes_on, instruction_visits, no_instruction, is_there, is_made,
}

module _ (m : Code) (bytes : Value → ℕ) (tests : Value → ℕ → Bool) (gave : Value → Bool)
    (first : Ops) (good : Value → Type 0) where
  abbrev Taint : Value → Type 0
  Taint = Tainted m bytes tests gave first

  abbrev Sound : Ops → Type 0
  Sound = IsSound m bytes tests gave first good

  -- A visit makes the shadow of a value.
  abbrev Visits : (Value → Ops → Result) → Value → Type 0
  Visits visit v =
      (ops : Ops)
      → Sound ops
      → (x : Shadow) × ((ops' : Ops) × (visit v ops ≡ some (done (x, ops')))
          × Tells m bytes tests gave first v x
          × Sound ops')

  -- A bit that is the disjunction of one at hand and of the taints of a list.
  record IsOr (vs : List Value) (x y : Shadow) : Type 0 where
    is_bit : IsBit y
    sound :
        is_set tests gave y ≡ true
        → (is_set tests gave x ≡ true) ⊎ ((w : Value) × Memᴰ w vs × Taint w)
    complete : (w : Value) → Memᴰ w vs → Taint w → is_set tests gave y ≡ true
    kept : is_set tests gave x ≡ true → is_set tests gave y ≡ true

  IsOr-cons :
      (v : Value) (vs : List Value) (x z y : Shadow)
      → Tells m bytes tests gave first v z
      → IsOr vs (either x z) y
      → IsOr (v ∷ vs) x y
  IsOr-cons v vs x z y t h = record {
    is_bit = h.is_bit;
    sound = λ e. elim (h.sound e) [
      | inl b ↦ elim (or-set (is_set tests gave x) (is_set tests gave z) b) [
        | inl c ↦ inl c
        | inr c ↦ inr (v, Memᴰ.head refl, t.sound c)
      ]
      | inr (w, i, k) ↦ inr (w, Memᴰ.tail i, k)
    ];
    complete = λ w i k. elim (Memᴰ.cases_cons i) [
      | inl same ↦
          let z_set : is_set tests gave z ≡ true = t.complete (subst Taint same k) in
          h.kept (either_right (is_set tests gave x) (is_set tests gave z) z_set)
      | inr rest ↦ h.complete w rest k
    ];
    kept = λ e. h.kept (either_left (is_set tests gave x) (is_set tests gave z) e);
  }

  -- The bits of the operands after the first.
  or_all_tells :
      (visit : Value → Ops → Result) (vs : List Value) (x : Shadow) (ops : Ops)
      → ((v : Value) → Memᴰ v vs → Visits visit v)
      → IsBit x
      → Sound ops
      → (y : Shadow) × ((ops' : Ops) × (or_all visit vs x ops ≡ some (done (y, ops')))
          × Sound ops'
          × IsOr vs x y)
  unfolding or_all
  or_all_tells visit [] x ops all b s = (
    x,
    (
      ops,
      refl,
      s,
      record {
        is_bit = b;
        sound = λ e. inl e;
        complete = λ w i t. absurd (Memᴰ.not-nil i);
        kept = λ e. e;
      },
    ),
  )
  or_all_tells visit (v ∷ vs) x ops all b s =
      let (z, (ops', p, t, s')) = all v (Memᴰ.head refl) ops s in
      let (y, (end, q, s'', h)) =
        or_all_tells visit vs (either x z) ops' (λ w i. all w (Memᴰ.tail i)) tt s' in
      (y, (end, rw (p, or_of-bits x z b t.is_bit) q, s'', IsOr-cons v vs x z y t h))

  -- How a value without a given shadow is tainted.
  tainted_cases :
      (v : Value)
      → Taint v
      → first v ≡ none
      → ((operation_kind m v ≡ done (some melt_shadow))
          × (tests (m.pointer_operand v) (bytes v) ≡ true))
        ⊎ (IsForward m v × ((w : Value) × Memᴰ w (m.operands v) × Taint w))
  tainted_cases v (was_given _ x e b) absent = absurd (cc (e, absent))
  tainted_cases v (was_read _ n k b) absent = inl (k, b)
  tainted_cases v (was_made _ w n f i t) absent = inr (f, (w, i, t))

  -- The shadow of the result of an instruction, from those of its operands.
  Tells-forward :
      (v w : Value) (ws : List Value) (x y : Shadow)
      → first v ≡ none
      → IsForward m v
      → m.operands v ≡ w ∷ ws
      → Tells m bytes tests gave first w x
      → IsOr ws x y
      → Tells m bytes tests gave first v y
  Tells-forward v w ws x y absent f e t h = record {
    is_bit = h.is_bit;
    sound = λ b. elim (h.sound b) [
      | inl c ↦ was_made v w absent f (subst (Memᴰ w) (sym e) (Memᴰ.head refl)) (t.sound c)
      | inr (u, i, k) ↦ was_made v u absent f (subst (Memᴰ u) (sym e) (Memᴰ.tail i)) k
    ];
    complete = λ k. elim (tainted_cases v k absent) [
      | inl (melts, _) ↦ absurd (cc (f.0, melts))
      | inr (_, (u, i, c)) ↦ elim (Memᴰ.cases_cons (subst (Memᴰ u) e i)) [
        | inl same ↦ h.kept (t.complete (subst Taint same c))
        | inr rest ↦ h.complete u rest c
      ]
    ];
  }

  -- The shadow of a value that nothing taints.
  pub Tells-false :
      (v : Value)
      → first v ≡ none
      → operation_kind m v ≢ done (some melt_shadow)
      → (IsForward m v → ⊥)
      → Tells m bytes tests gave first v (bit false)
  Tells-false v absent no_melt no_forward = record {
    is_bit = tt;
    sound = λ e. absurd (cc e);
    complete = λ t. elim (tainted_cases v t absent) [
      | inl (k, _) ↦ absurd (no_melt k)
      | inr (f, _) ↦ absurd (no_forward f)
    ];
  }

  Tells-melt :
      (v : Value)
      → first v ≡ none
      → operation_kind m v ≡ done (some melt_shadow)
      → Tells m bytes tests gave first v (test_taint (m.pointer_operand v) (bytes v))
  Tells-melt v absent k = record {
    is_bit = tt;
    sound = λ e. was_read v absent k e;
    complete =
        λ t. elim (tainted_cases v t absent) [ inl (_, b) ↦ b | inr (f, _) ↦ absurd (cc (f.0, k)) ];
  }

  module _ (visit : Value → Ops → Result) where
    instruction_told :
        (v w : Value) (ws : List Value)
        → first v ≡ none
        → IsForward m v
        → m.operands v ≡ w ∷ ws
        → ((u : Value) → Memᴰ u (m.operands v) → Visits visit u)
        → Visits (process_forward m bytes visit) v
    unfolding process_forward
    instruction_told v w ws absent f e all ops s =
        let (x, (ops', p, t, s')) = all w (subst (Memᴰ w) (sym e) (Memᴰ.head refl)) ops s in
        let (y, (end, q, s'', h)) =
          or_all_tells visit ws x ops' (λ u i. all u (subst (Memᴰ u) (sym e) (Memᴰ.tail i)))
            t.is_bit s' in
        (
          y,
          (
            end,
            instruction_visits m bytes visit v w ws ops f.1 e
                ∙ goes_on (λ r. or_all visit ws r.0 r.1) p
                ∙ q,
            Tells-forward v w ws x y absent f e t h,
            s'',
          ),
        )

    -- Each kind of shadow that is a bit.
    pub told_by_kind :
        (v : Value) (k : ShadowKind)
        → first v ≡ none
        → operation_kind m v ≡ done (some k)
        → IsBitKind (some k)
        → (IsForward m v → (w : Value) × ((ws : List Value) × (m.operands v ≡ w ∷ ws)))
        → (IsForward m v → (u : Value) → Memᴰ u (m.operands v) → Visits visit u)
        → Visits (process_by m bytes visit k) v
    told_by_kind v forward absent e b has all ops s =
        elim (Bool-cases (is_instruction (m.class v))) [
          | inl i ↦
              let (w, (ws, operands)) = has (e, i) in
              instruction_told v w ws absent (e, i) operands (all (e, i)) ops s
          | inr i ↦ (
            bit false,
            (
              ops,
              no_instruction m bytes visit v v [] ops i,
              Tells-false v absent (λ k. absurd (cc (e, k))) (λ f. absurd (cc (f.1, i))),
              s,
            ),
          )
        ]
    told_by_kind v melt_shadow absent e b has all ops s =
        (test_taint (m.pointer_operand v) (bytes v), (ops, refl, Tells-melt v absent e, s))
    told_by_kind v load_shadow absent e b has all ops s = (
      bit false,
      (ops, refl, Tells-false v absent (λ k. absurd (cc (e, k))) (λ f. absurd (cc (f.0, e))), s),
    )
    told_by_kind v arg absent e b has all ops s = (
      bit false,
      (ops, refl, Tells-false v absent (λ k. absurd (cc (e, k))) (λ f. absurd (cc (f.0, e))), s),
    )
    told_by_kind v ret absent e b has all ops s = (
      bit false,
      (ops, refl, Tells-false v absent (λ k. absurd (cc (e, k))) (λ f. absurd (cc (f.0, e))), s),
    )
    told_by_kind v source absent e b has all ops s = absurd b
    told_by_kind v memory absent e b has all ops s = absurd b
    told_by_kind v global absent e b has all ops s = absurd b
    told_by_kind v store_shadow absent e b has all ops s = absurd b
    told_by_kind v freeze_shadow absent e b has all ops s = absurd b

    -- With the shadows that are there already, and with the new one in the map.
    pub told_once :
        (v : Value) (k : ShadowKind) (ops : Ops)
        → good v
        → Sound ops
        → (ops v ≡ none → Visits (process_by m bytes visit k) v)
        → (x : Shadow) × ((ops' : Ops) × (process_operation m bytes visit k v ops
              ≡ some (done (x, ops')))
            × Tells m bytes tests gave first v x
            × Sound ops')
    unfolding process_operation
    told_once v k ops g s made = elim (Option-cases (ops v)) [
      | inl absent ↦
          let (x, (ops', p, t, s')) = made absent ops s in
          (
            x,
            (
              keep v x ops',
              is_made m bytes visit k v ops (x, ops') absent p,
              t,
              keep-IsSound m bytes tests gave first good ops' v x s' t,
            ),
          )
      | inr (x, there) ↦ (x, (ops, is_there m bytes visit k v ops x there, s.told v x g there, s))
    ]
