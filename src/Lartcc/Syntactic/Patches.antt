-- ===== src/Lartcc/Syntactic/Patches.antt =====
-- What lartcc/syntactic.cpp does for an operation, from the call that is made to the uses that are replaced.
use Prim.Native.String.{◌++◌ as ◌<>◌}
use lart.Common.{
  ℕ, suc, ◌≡◌, refl, ap, sym, subst, ◌∙◌, inl, inr, Bool, true, false, ◌&&◌, ◌||◌, Bool-cases, some,
  List, arith,
}
use lart.Lartcc.Dataflow.{Value}
use lart.Lartcc.Operation.{
  Ir, Operation, Argument, faultable, returns_value, duplicate_all, has_taints, any_abstract,
  paired_view, joined, name,
}
use lart.Lartcc.Operation.Layout.{start, call_operands-Segment}
use lart.Lartcc.Syntactic.{
  State, now, new_call, keep_shadow, link_faultable, fill_places, visit_places,
}
use lart.Lartcc.Syntactic.Places.{Entry}
use lart.Lartcc.Syntactic.Filling.{IsPatched}
use lart.Lartcc.Syntactic.Chains.{IsKept}
use lart.Lartcc.Syntactic.Walks.{
  Operands, Operands-kept, add_entries, AllBelow-up, visit_places-IsPatched,
}
use lart.Lartcc.Syntactic.Made.{
  IsPatched-same, new_call-Operands, link_faultable_abstract, link_faultable_fine,
  visit_places_abstract,
}
use lart.Lartcc.Syntactic.Answers.{none_made}
use lart.Lartcc.Syntactic.Calls.{IsReady, Fine, shadow, call, made, shadowed, fresh-IsUnlogged}

module _ (ir : Ir) (reached : (Value → ℕ → Value) → (replaced call user : Value) → ℕ → Bool) where
  link_nothing :
      (o : Operation) (c : Value) (k : State)
      → (returns_value o && faultable ir o) ≡ false
      → link_faultable ir reached o c k ≡ k
  unfolding link_faultable faultable
  link_nothing o c k e = rw e refl

module _ (ir : Ir) (reached : (Value → ℕ → Value) → (replaced call user : Value) → ℕ → Bool)
    (fuel : ℕ) (log : List Entry) (s : State) (o : Operation) (args : List Argument)
    (ready : IsReady ir fuel log s o args) (patched : IsPatched ir.null_pointer s.fresh s log) where
  abbrev pub Kept : State → Type 0
  Kept k =
      IsKept ir.null_pointer (suc s.fresh) log (Fine ir reached fuel log s o args ready patched)
        (made ir reached fuel log s o args ready patched) k

  abbrev pub Fits : State → List Entry → Type 0
  Fits t l =
      IsPatched ir.null_pointer (suc s.fresh) t l
      × ((v a : Value) → t.abstract v ≡ some a → Fine ir reached fuel log s o args ready patched a)

  -- The links from the call.
  linked :
      (k : State) (a : Value)
      → Kept k
      → k.abstract o.what ≡ some a
      → Fits (link_faultable ir reached o s.fresh k) log
  unfolding link_faultable
  linked k a h there = (
    IsPatched-same ir.null_pointer (suc s.fresh) (suc s.fresh) k
        (link_faultable ir reached o s.fresh k) log (omega arith) h.patched
        (λ e m.
          let less = (patched.old e m).1 in
          link_faultable_abstract ir reached o s.fresh k a e.concrete there (omega arith))
        (λ e m. refl) refl,
    link_faultable_fine ir reached (Fine ir reached fuel log s o args ready patched) o s.fresh k a
        there h.all_fine,
  )

  pub links :
      (k : State)
      → Kept k
      → (returns_value o ≡ true
          → faultable ir o ≡ true
          → k ≡ shadowed ir reached fuel log s o args ready patched)
      → Fits (link_faultable ir reached o s.fresh k) log
  links k h same = elim (Bool-cases (returns_value o && faultable ir o)) [
    | inr unlinked ↦
        subst (λ t. Fits t log) (sym (link_nothing ir reached o s.fresh k unlinked))
          (h.patched, h.all_fine)
    | inl both ↦
        let r : returns_value o ≡ true = ground arith in
        let f : faultable ir o ≡ true = ground arith in
        let (a, there) = ready.linked r f in
        linked k a h (ap (λ t. t.abstract o.what) (same r f) ∙ unfold keep_shadow new_call in there)
  ]

  -- The places of the call are filled in, or wait.
  abbrev pub log_after : List Entry
  log_after = add_entries s.fresh (start o.kind) args log

  abbrev vs : List Value
  vs = duplicate_all (now ir reached s) (shadow ir reached fuel log s o args ready patched) args

  call_at : (k : State) → Kept k → Operands k.operand s.fresh (start o.kind) vs
  call_at k h =
      Operands-kept (made ir reached fuel log s o args ready patched).operand k.operand s.fresh
        (start o.kind) (start o.kind) vs (omega arith)
        (λ i _.
          h.same_operand s.fresh i (fresh-IsUnlogged ir reached fuel log s o args ready patched))
        (new_call-Operands ir reached (call ir reached fuel log s o args ready patched) vs
          (start o.kind) s
          (call_operands-Segment o.kind
            (ir.function_value (
              "lart.lifter." <> name (now ir reached s) o <> "." <> joined (now ir reached s) args))
            vs))

  pub visits :
      (k : State)
      → Kept k
      → Fits (link_faultable ir reached o s.fresh k) log
      → Fits
          (visit_places s.fresh (paired_view o.kind args) (link_faultable ir reached o s.fresh k))
          log_after
  unfolding link_faultable paired_view
  visits k h (p, f) = (
    visit_places-IsPatched (now ir reached s) (shadow ir reached fuel log s o args ready patched)
        (suc s.fresh) s.fresh (omega arith) args (start o.kind)
        (link_faultable ir reached o s.fresh k) log p
        (λ e m same. absurd (fresh-IsUnlogged ir reached fuel log s o args ready patched e m same))
        (AllBelow-up s.fresh (suc s.fresh) args (omega arith) ready.arguments_old) (call_at k h),
    λ v a e. f v a (
        sym (
          ap (λ m. m v)
            (visit_places_abstract s.fresh (paired_view o.kind args)
              (link_faultable ir reached o s.fresh k)))
        ∙ e),
  )

  pub fills :
      (t : State)
      → Fits t log
      → Fits (visit_places s.fresh (paired_view o.kind args) t) log_after
      → Fits (fill_places ir reached o args s.fresh t) log_after
  unfolding fill_places
  fills t p v = elim (Bool-cases (has_taints o.kind || any_abstract args)) [
    | inl on ↦ rw on v
    | inr off ↦
        let no_taints : has_taints o.kind ≡ false = ground arith in
        rw off (
          subst (Fits t)
            (sym (
              none_made (now ir reached s) s.fresh (start o.kind) log o args no_taints
                ready.has_arguments))
            p)
  ]
