-- ===== src/Lartcc/Syntactic/Process.antt =====
-- What `process` of lartcc/syntactic.cpp does for an operation, as a whole.
use lart.Common.{
  ℕ, suc, ◌≡◌, ◌≢◌, refl, ap, sym, subst, ◌∙◌, inl, inr, Bool, true, ◌||◌, Bool-cases, Option-cases,
  none, some, List, done, arith,
}
use lart.Lartcc.Dataflow.{Value}
use lart.Lartcc.Operation.{
  Ir, Operation, Argument, arguments, replaces, paired_view, has_taints, any_abstract,
}
use lart.Lartcc.Operation.Layout.{start}
use lart.Lartcc.Syntactic.{
  State, now, new_call, keep_abstract, link_faultable, fill_places, replace, replace_uses,
  process_call,
}
use lart.Lartcc.Syntactic.Places.{Entry}
use lart.Lartcc.Syntactic.Filling.{IsPatched}
use lart.Lartcc.Syntactic.Chains.{IsKept}
use lart.Lartcc.Syntactic.Walks.{add_entries}
use lart.Lartcc.Syntactic.Made.{
  IsPatched-same, new_call_other, replace_uses_other, visit_places_fresh, visit_places_other,
}
use lart.Lartcc.Syntactic.Answers.{reads_operands, arguments_same, replaces_same}
use lart.Lartcc.Syntactic.Calls.{IsReady, Fine, made, shadowed, call_made, kept}
use lart.Lartcc.Syntactic.Patches.{Kept, Fits, links, visits, fills}

module _ (ir : Ir) (reached : (Value → ℕ → Value) → (replaced call user : Value) → ℕ → Bool) where
  fill_places_other :
      (o : Operation) (args : List Argument) (c : Value) (t : State) (u : Value) (i : ℕ)
      → u ≢ c
      → (fill_places ir reached o args c t).operand u i ≡ t.operand u i
  unfolding fill_places
  fill_places_other o args c t u i h = elim (Bool-cases (has_taints o.kind || any_abstract args)) [
    | inl on ↦ rw on (visit_places_other c (paired_view o.kind args) t u i h)
    | inr off ↦ rw off refl
  ]

  fill_places_fresh :
      (o : Operation) (args : List Argument) (c : Value) (t : State)
      → (fill_places ir reached o args c t).fresh ≡ t.fresh
  unfolding fill_places
  fill_places_fresh o args c t = elim (Bool-cases (has_taints o.kind || any_abstract args)) [
    | inl on ↦ rw on (visit_places_fresh c (paired_view o.kind args) t)
    | inr off ↦ rw off refl
  ]

  link_faultable_operand :
      (o : Operation) (c : Value) (t : State)
      → (link_faultable ir reached o c t).operand ≡ t.operand
  unfolding link_faultable
  link_faultable_operand o c t = refl

  link_faultable_fresh :
      (o : Operation) (c : Value) (t : State) → (link_faultable ir reached o c t).fresh ≡ t.fresh
  unfolding link_faultable
  link_faultable_fresh o c t = refl

  replace_fresh :
      (o : Operation) (c : Value) (t : State) → (replace ir reached o c t).fresh ≡ t.fresh
  unfolding replace replace_uses
  replace_fresh o c t = ground arith

  replaces_nothing :
      (o : Operation) (c : Value) (t : State)
      → replaces (now ir reached t) o ≡ none
      → replace ir reached o c t ≡ t
  unfolding replace
  replaces_nothing o c t e = ground arith

  replaces_one :
      (o : Operation) (c : Value) (t : State) (re : Value)
      → replaces (now ir reached t) o ≡ some re
      → replace ir reached o c t ≡ replace_uses ir reached re c t
  unfolding replace
  replaces_one o c t re e = ground arith

  -- The places stay as they are when no abstract value and no null pointer is replaced.
  replace-IsPatched :
      (o : Operation) (c bound : Value) (t : State) (log : List Entry)
      → IsPatched ir.null_pointer bound t log
      → ((re : Value)
          → replaces (now ir reached t) o ≡ some re
          → (ir.null_pointer ≢ re) × ((v a : Value) → t.abstract v ≡ some a → a ≢ re))
      → IsPatched ir.null_pointer bound (replace ir reached o c t) log
  unfolding replace_uses
  replace-IsPatched o c bound t log p h = elim (Option-cases (replaces (now ir reached t) o)) [
    | inl e ↦ subst (λ x. IsPatched ir.null_pointer bound x log) (sym (replaces_nothing o c t e)) p
    | inr (re, e) ↦
        subst (λ x. IsPatched ir.null_pointer bound x log) (sym (replaces_one o c t re e))
          (IsPatched-same ir.null_pointer bound bound t (replace_uses ir reached re c t) log
            (omega arith) p (λ f m. refl)
            (λ f m. replace_uses_other ir reached re c t f.call f.position (elim (p.each f m) [
              | inl (a, there, is) ↦ λ k. (h re e).1 f.concrete a there (sym is ∙ k)
              | inr (absent, is, _) ↦ λ k. (h re e).0 (sym is ∙ k)
            ]))
            refl)
  ]

module _ (ir : Ir) (reached : (Value → ℕ → Value) → (replaced call user : Value) → ℕ → Bool)
    (fuel : ℕ) (log : List Entry) (s : State) (o : Operation) (args : List Argument)
    (ready : IsReady ir fuel log s o args) (patched : IsPatched ir.null_pointer s.fresh s log) where
  -- The operands of the operation's value are not touched before the uses are replaced.
  kept_operand :
      (k : State)
      → IsKept ir.null_pointer
          (suc s.fresh)
          log
          (Fine ir reached fuel log s o args ready patched)
          (made ir reached fuel log s o args ready patched)
          k
      → reads_operands o.kind ≡ true
      → (i : ℕ) → k.operand o.what i ≡ s.operand o.what i
  kept_operand k h reads i =
      let old = ready.value_old in
      h.same_operand o.what i (ready.unlogged reads)
      ∙ new_call_other ir reached _ s o.what i (omega arith)

  composed :
      (k : State)
      → keep_abstract ir reached fuel o s.fresh
          (shadowed ir reached fuel log s o args ready patched)
        ≡ some (done k)
      → arguments (now ir reached k) o ≡ done args
      → process_call ir reached fuel o s
        ≡ some (
            done (
              replace ir reached o s.fresh
                (fill_places ir reached o args s.fresh (link_faultable ir reached o s.fresh k))))
  unfolding process_call
  composed k p a = rw (call_made ir reached fuel log s o args ready patched, p, a) refl

  abbrev filled : State → State
  filled k = fill_places ir reached o args s.fresh (link_faultable ir reached o s.fresh k)

  filled_fresh :
      (k : State)
      → Kept ir reached fuel log s o args ready patched k
      → (filled k).fresh ≡ suc s.fresh
  unfolding new_call
  filled_fresh k h =
      fill_places_fresh ir reached o args s.fresh (link_faultable ir reached o s.fresh k)
      ∙ link_faultable_fresh ir reached o s.fresh k
      ∙ h.same_fresh

  -- What is replaced is the same as before.
  replaces_unchanged :
      (k : State)
      → Kept ir reached fuel log s o args ready patched k
      → replaces (now ir reached (filled k)) o ≡ replaces (now ir reached s) o
  replaces_unchanged k h =
      let old = ready.value_old in
      replaces_same ir s.operand (filled k).operand o (λ reads i.
        fill_places_other ir reached o args s.fresh (link_faultable ir reached o s.fresh k) o.what i
          (omega arith)
        ∙ ap (λ f. f o.what i) (link_faultable_operand ir reached o s.fresh k)
        ∙ kept_operand k h reads i)

  ends :
      (k : State)
      → Kept ir reached fuel log s o args ready patched k
      → Fits ir reached fuel log s o args ready patched
          (filled k)
          (add_entries s.fresh (start o.kind) args log)
      → IsPatched ir.null_pointer
          (suc s.fresh)
          (replace ir reached o s.fresh (filled k))
          (add_entries s.fresh (start o.kind) args log)
  ends k h (p, f) =
      replace-IsPatched ir reached o s.fresh (suc s.fresh) (filled k)
        (add_entries s.fresh (start o.kind) args log) p
        (λ re e.
          let before = sym (replaces_unchanged k h) ∙ e in
          ((ready.unreplaced re before).0, λ v a t. f v a t re before))

  -- All of it, for an operation that is ready.
  pub process_call-IsPatched :
      (s' : State) × (process_call ir reached fuel o s ≡ some (done s'))
      × (s'.fresh ≡ suc s.fresh)
      × IsPatched ir.null_pointer (suc s.fresh) s' (add_entries s.fresh (start o.kind) args log)
  process_call-IsPatched =
      let (k, p, h, same) = kept ir reached fuel log s o args ready patched in
      let fits = links ir reached fuel log s o args ready patched k h same in
      let all =
        fills ir reached fuel log s o args ready patched (link_faultable ir reached o s.fresh k)
          fits (visits ir reached fuel log s o args ready patched k h fits) in
      let asked =
        arguments_same ir s.operand k.operand o (kept_operand k h) ∙ ready.has_arguments in
      (
        replace ir reached o s.fresh (filled k),
        composed k p asked,
        replace_fresh ir reached o s.fresh (filled k) ∙ filled_fresh k h,
        ends k h all,
      )
