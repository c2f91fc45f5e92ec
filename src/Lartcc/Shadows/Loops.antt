-- ===== src/Lartcc/Shadows/Loops.antt =====
-- Where the values take their own results, lartcc/shadow.cpp does not end: `process` puts a shadow into the map only
-- after those of the operands.
use mathlib.Core.List.Memᴰ
use mathlib.Core.Option.{some-injective}
use lart.Common.{
  ℕ, zero, suc, ◌≡◌, refl, ap, sym, subst, ◌∙◌, ◌⊎◌, inl, inr, true, ◌==◌, Bool-cases, Option-cases,
  Option, none, some, List, [], ◌∷◌, Memᴰ, Run, done, undefined, cancelled, arith,
}
use lart.Lartcc.Dataflow.{Value}
use lart.Lartcc.Selection.{
  Code, ShadowKind, source, memory, global, forward, store_shadow, load_shadow, freeze_shadow,
  melt_shadow, arg, ret, operation_kind,
}
use lart.Lartcc.Shadows.{
  Shadow, Ops, Result, or_of, is_instruction, ◌followed_by◌, or_all, process_forward, process_by,
  process_operation, process_value,
}
use lart.Lartcc.Shadows.Taints.{IsForward}
use lart.Lartcc.Shadows.Equations.{instruction_visits, no_instruction, is_there, absent_case}
use lart.Lartcc.Shadows.Ends.{kind_none, kind_some}

followed-done {ℓ κ} :
    {A : Type ℓ} {B : Type κ} (r : Option (Run A)) (f : A → Option (Run B)) (b : B)
    → (r followed_by f) ≡ some (done b)
    → (a : A) × (r ≡ some (done a)) × (f a ≡ some (done b))
followed-done none f b h = absurd (cc h)
followed-done (some (done a)) f b h = (a, refl, h)
followed-done (some cancelled) f b h = absurd (cc h)
followed-done (some undefined) f b h = absurd (cc h)

list_cases : (xs : List Value) → (xs ≡ []) ⊎ ((y : Value) × ((ys : List Value) × (xs ≡ y ∷ ys)))
list_cases [] = inl refl
list_cases (x ∷ xs) = inr (x, (xs, refl))

abbrev second_of : Ops → Result → Ops
second_of other (some (done (x, ops))) = ops
second_of other _ = other

-- Values of instructions each of which has one of them as an operand.
pub record IsLoop (m : Code) (loop : Value → Type 0) : Type 0 where
  pub is_forward : (v : Value) → loop v → IsForward m v
  pub takes : (v : Value) → loop v → (w : Value) × Memᴰ w (m.operands v) × loop w

module _ (m : Code) (bytes : Value → ℕ) (loop : Value → Type 0) (looping : IsLoop m loop) where
  -- None of them has a shadow.
  abbrev Clean : Ops → Type 0
  Clean ops = (v : Value) → loop v → ops v ≡ none

  -- A visit that returns is not of one of them, and gives none of them a shadow.
  abbrev Avoids : (Value → Ops → Result) → Type 0
  Avoids visit =
      (v : Value) (ops : Ops) (x : Shadow) (ops' : Ops)
      → Clean ops
      → visit v ops ≡ some (done (x, ops'))
      → (loop v → ⊥) × Clean ops'

  or_all-Avoids :
      (visit : Value → Ops → Result) (vs : List Value) (x y : Shadow) (ops ops' : Ops)
      → Avoids visit
      → Clean ops
      → or_all visit vs x ops ≡ some (done (y, ops'))
      → ((v : Value) → Memᴰ v vs → loop v → ⊥) × Clean ops'
  unfolding or_all
  or_all-Avoids visit [] x y ops ops' a c h =
      ((λ v i l. Memᴰ.not-nil i), subst Clean (ap (λ r. second_of ops r) h) c)
  or_all-Avoids visit (v ∷ vs) x y ops ops' a c h =
      let (r, p, q) = followed-done (visit v ops) _ (y, ops') h in
      let (out, c') = a v ops r.0 r.1 c p in
      let (z, o, rest) = followed-done (some (or_of x r.0)) _ (y, ops') q in
      let (outs, c'') = or_all-Avoids visit vs z y r.1 ops' a c' rest in
      (
        (λ u i l. elim (Memᴰ.cases_cons i) [
          | inl same ↦ out (subst loop same l)
          | inr later ↦ outs u later l
        ]),
        c'',
      )

  no_operands :
      (visit : Value → Ops → Result) (v : Value) (ops : Ops)
      → is_instruction (m.class v) ≡ true
      → m.operands v ≡ []
      → process_forward m bytes visit v ops ≡ some undefined
  unfolding process_forward
  no_operands visit v ops i e = ground arith

  process_forward-Avoids :
      (visit : Value → Ops → Result) → Avoids visit → Avoids (process_forward m bytes visit)
  process_forward-Avoids visit a v ops x ops' c h = elim (Bool-cases (is_instruction (m.class v))) [
    | inr other ↦ (
      (λ l. let f = looping.is_forward v l in absurd (cc (f.1, other))),
      subst Clean (ap (second_of ops) (sym (no_instruction m bytes visit v v [] ops other) ∙ h)) c,
    )
    | inl i ↦ elim (list_cases (m.operands v)) [
      | inl e ↦ absurd (cc (sym (no_operands visit v ops i e) ∙ h))
      | inr (w, (ws, e)) ↦
          let (r, p, q) =
            followed-done (visit w ops) (λ r. or_all visit ws r.0 r.1) (x, ops')
              (sym (instruction_visits m bytes visit v w ws ops i e) ∙ h) in
          let (out, c') = a w ops r.0 r.1 c p in
          let (outs, c'') = or_all-Avoids visit ws r.0 x r.1 ops' a c' q in
          (
            (λ l.
                let (u, k, lu) = looping.takes v l in
                elim (Memᴰ.cases_cons (subst (Memᴰ u) e k)) [
                  | inl same ↦ out (subst loop same lu)
                  | inr later ↦ outs u later lu
                ]),
            c'',
          )
    ]
  ]

  -- Of the kinds of shadow, only that of an instruction visits other values.
  process_by-Avoids :
      (visit : Value → Ops → Result) (k : ShadowKind) (v : Value) (ops : Ops) (x : Shadow)
      (ops' : Ops)
      → Avoids visit
      → operation_kind m v ≡ done (some k)
      → Clean ops
      → process_by m bytes visit k v ops ≡ some (done (x, ops'))
      → (loop v → ⊥) × Clean ops'
  process_by-Avoids visit forward v ops x ops' a e c h =
      process_forward-Avoids visit a v ops x ops' c h
  process_by-Avoids visit source v ops x ops' a e c h =
      ((λ l. absurd (cc ((looping.is_forward v l).0, e))), subst Clean (ap (second_of ops) h) c)
  process_by-Avoids visit memory v ops x ops' a e c h =
      ((λ l. absurd (cc ((looping.is_forward v l).0, e))), subst Clean (ap (second_of ops) h) c)
  process_by-Avoids visit store_shadow v ops x ops' a e c h =
      ((λ l. absurd (cc ((looping.is_forward v l).0, e))), subst Clean (ap (second_of ops) h) c)
  process_by-Avoids visit load_shadow v ops x ops' a e c h =
      ((λ l. absurd (cc ((looping.is_forward v l).0, e))), subst Clean (ap (second_of ops) h) c)
  process_by-Avoids visit freeze_shadow v ops x ops' a e c h =
      ((λ l. absurd (cc ((looping.is_forward v l).0, e))), subst Clean (ap (second_of ops) h) c)
  process_by-Avoids visit melt_shadow v ops x ops' a e c h =
      ((λ l. absurd (cc ((looping.is_forward v l).0, e))), subst Clean (ap (second_of ops) h) c)
  process_by-Avoids visit arg v ops x ops' a e c h =
      ((λ l. absurd (cc ((looping.is_forward v l).0, e))), subst Clean (ap (second_of ops) h) c)
  process_by-Avoids visit ret v ops x ops' a e c h =
      ((λ l. absurd (cc ((looping.is_forward v l).0, e))), subst Clean (ap (second_of ops) h) c)
  process_by-Avoids visit global v ops x ops' a e c h =
      ((λ l. absurd (cc ((looping.is_forward v l).0, e))), subst Clean (ap (second_of ops) h) c)

  process_operation-Avoids :
      (visit : Value → Ops → Result) (k : ShadowKind) (v : Value) (ops : Ops) (x : Shadow)
      (ops' : Ops)
      → Avoids visit
      → operation_kind m v ≡ done (some k)
      → Clean ops
      → process_operation m bytes visit k v ops ≡ some (done (x, ops'))
      → (loop v → ⊥) × Clean ops'
  process_operation-Avoids visit k v ops x ops' a e c h = elim (Option-cases (ops v)) [
    | inr (y, there) ↦ (
      (λ l. absurd (cc (c v l, there))),
      subst Clean (ap (second_of ops) (sym (is_there m bytes visit k v ops y there) ∙ h)) c,
    )
    | inl none_yet ↦
        let (r, p, q) =
          followed-done (process_by m bytes visit k v ops) _ (x, ops')
            (sym (absent_case m bytes visit k v ops none_yet) ∙ h) in
        let (out, c') = process_by-Avoids visit k v ops r.0 r.1 a e c p in
        (
          out,
          subst Clean (ap (second_of ops) q) (λ u l. elim (Bool-cases (u == v)) [
            | inl same ↦ let u_is : u ≡ v = ground arith in absurd (out (subst loop u_is l))
            | inr other ↦ rw other (c' u l)
          ]),
        )
  ]

  -- So no call that returns is of one of them, or gives one of them a shadow on its way.
  process_value-Avoids :
      (fuel v : Value) (ops : Ops) (x : Shadow) (ops' : Ops)
      → Clean ops
      → process_value m bytes fuel v ops ≡ some (done (x, ops'))
      → (loop v → ⊥) × Clean ops'
  unfolding process_value
  process_value-Avoids zero v ops x ops' c h = absurd (cc h)
  process_value-Avoids (suc fuel) v ops x ops' c h =
      let (k, e, q) = followed-done (some (operation_kind m v)) _ (x, ops') h in
      let kind : operation_kind m v ≡ done k = some-injective (operation_kind m v) (done k) e in
      elim (Option-cases k) [
        | inl no_kind ↦
            let none_kind : operation_kind m v ≡ done none = kind ∙ ap done no_kind in
            (
              (λ l. absurd (cc ((looping.is_forward v l).0, none_kind))),
              subst Clean (ap (second_of ops) (sym (kind_none m bytes fuel v ops none_kind) ∙ h)) c,
            )
        | inr (found, is) ↦
            process_operation-Avoids (process_value m bytes fuel) found v ops x ops'
              (λ u o y o' d r. process_value-Avoids fuel u o y o' d r) (kind ∙ ap done is) c
              (sym (kind_some m bytes fuel v ops found (kind ∙ ap done is)) ∙ h)
      ]

  -- Where instructions take each other's results in a circle, as a `phi` of a loop and the number that it counts, and none
  -- of them has a shadow yet, making the shadow of one of them never returns one, whatever the fuel.
  pub loop_never_ends :
      (fuel v : Value) (ops : Ops)
      → loop v
      → ((u : Value) → loop u → ops u ≡ none)
      → ¬ (
          (x : Shadow) × ((ops' : Ops) × (process_value m bytes fuel v ops
              ≡ some (done (x, ops')))))
  loop_never_ends fuel v ops l c (x, (ops', h)) = (process_value-Avoids fuel v ops x ops' c h).0 l
