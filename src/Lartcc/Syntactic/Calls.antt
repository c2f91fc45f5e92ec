-- ===== src/Lartcc/Syntactic/Calls.antt =====
-- The call that lartcc/syntactic.cpp makes for an operation: that it is made, and that no place is left to wait for an
-- abstract value that is there.
use Prim.Native.String.{◌++◌ as ◌<>◌}
use lart.Common.{
  ℕ, suc, ◌+◌, ◌<◌, ◌≤◌, ◌≡◌, ◌≢◌, refl, ◌∙◌, inl, inr, Bool, true, false, ◌&&◌, not, Bool-cases,
  none, some, List, Memᴰ, done, arith,
}
use lart.Lartcc.Dataflow.{Value}
use lart.Lartcc.Operation.{
  Ir, Operation, Argument, arguments, faultable, replaces, returns_value, duplicate_all,
  call_operands, joined, name, lifter_name, unique_name_suffix, duplicated_arguments,
}
use lart.Lartcc.Syntactic.{
  State, update_places, put, propagate, now, new_call, make_intrinsic, keep_shadow,
  is_unstash_taint, keep_abstract,
}
use lart.Lartcc.Syntactic.Places.{Entry}
use lart.Lartcc.Syntactic.Filling.{IsPatched, IsUnlogged}
use lart.Lartcc.Syntactic.Chains.{Clear, Clear-update, IsKept, put-IsKept, propagate-IsKept}
use lart.Lartcc.Syntactic.Walks.{AllBelow}
use lart.Lartcc.Syntactic.Answers.{reads_operands}
use lart.Lartcc.Syntactic.Made.{IsPatched-same, new_call_other}

-- What an operation meets when its call is made: its value and its arguments are not new, its value is no call with places if the operation reads
-- operands of it;
-- a result that is an abstract value has none yet, nor have its casts; what a faulting operation is linked to is
-- there; and no abstract value is replaced.
pub record IsReady (ir : Ir) (fuel : ℕ) (log : List Entry) (s : State) (o : Operation)
    (args : List Argument) : Type 0 where
  pub has_arguments : arguments (record ir { operand = s.operand }) o ≡ done args
  pub arguments_old : AllBelow s.fresh args
  pub value_old : o.what < s.fresh
  pub enough : s.fresh ≤ o.what + fuel
  pub unlogged : reads_operands o.kind ≡ true → IsUnlogged log o.what
  pub free :
      returns_value o ≡ true
      → is_unstash_taint o.kind ≡ false
      → faultable ir o ≡ false
      → (s.abstract o.what ≡ none) × Clear s.fresh s.identity s.abstract o.what
  pub linked :
      returns_value o ≡ true → faultable ir o ≡ true → (a : Value) × (s.abstract o.what ≡ some a)
  pub unreplaced :
      (re : Value)
      → replaces (record ir { operand = s.operand }) o ≡ some re
      → (ir.null_pointer ≢ re) × (s.fresh ≢ re) × ((v a : Value) → s.abstract v ≡ some a → a ≢ re)

module _ (ir : Ir) (reached : (Value → ℕ → Value) → (replaced call user : Value) → ℕ → Bool)
    (fuel : ℕ) (log : List Entry) (s : State) (o : Operation) (args : List Argument)
    (ready : IsReady ir fuel log s o args) (patched : IsPatched ir.null_pointer s.fresh s log) where
  -- What holds of each abstract value.
  abbrev pub Fine : Value → Type 0
  Fine a = (re : Value) → replaces (now ir reached s) o ≡ some re → a ≢ re

  abbrev pub shadow : Value → Value
  shadow v = elim (s.shadows v) [ none ↦ ir.i1 false | some w ↦ w ]

  abbrev pub call : List Value
  call =
      call_operands o.kind
        (ir.function_value
          ("lart.lifter." <> name (now ir reached s) o <> "." <> joined (now ir reached s) args))
        (duplicate_all (now ir reached s) shadow args)

  abbrev pub made : State
  made = new_call ir reached call s

  pub call_made : make_intrinsic ir reached o s ≡ done made
  unfolding make_intrinsic lifter_name unique_name_suffix duplicated_arguments
  call_made = rw ready.has_arguments refl

  log_old : (e : Entry) → Memᴰ e log → e.call ≢ s.fresh
  log_old e m = let less = (patched.old e m).0 in omega arith

  pub fresh-IsUnlogged : IsUnlogged log s.fresh
  fresh-IsUnlogged e m = log_old e m

  abbrev pub shadowed : State
  shadowed = keep_shadow ir reached o s.fresh made

  shadowed-IsKept : IsKept ir.null_pointer (suc s.fresh) log Fine made shadowed
  unfolding keep_shadow new_call
  shadowed-IsKept = record {
    patched =
        IsPatched-same ir.null_pointer s.fresh (suc s.fresh) s shadowed log (omega arith) patched
          (λ e m. refl) (λ e m. new_call_other ir reached call s e.call e.position (log_old e m))
          refl;
    same_operand = λ u i n. refl;
    all_fine = λ v a e re r. (ready.unreplaced re r).2 v a e;
    same_fresh = refl;
  }

  fresh-Fine : Fine s.fresh
  fresh-Fine re r = (ready.unreplaced re r).1

  stays :
      (returns_value o && not (is_unstash_taint o.kind) && not (faultable ir o)) ≡ false
      → keep_abstract ir reached fuel o s.fresh shadowed ≡ some (done shadowed)
  unfolding keep_abstract faultable
  stays e = rw e refl

  chosen :
      returns_value o ≡ true
      → is_unstash_taint o.kind ≡ false
      → faultable ir o ≡ false
      → keep_abstract ir reached fuel o s.fresh shadowed
        ≡ propagate fuel o.what (put o.what s.fresh shadowed)
  unfolding keep_abstract faultable
  chosen r u f = rw (r, u, f) refl

  puts :
      returns_value o ≡ true
      → is_unstash_taint o.kind ≡ false
      → faultable ir o ≡ false
      → (k : State) × (keep_abstract ir reached fuel o s.fresh shadowed ≡ some (done k))
        × IsKept ir.null_pointer (suc s.fresh) log Fine made k
  unfolding keep_abstract faultable keep_shadow new_call
  puts r u f =
      let (absent, clear) = ready.free r u f in
      let (k, p, kept) =
        propagate-IsKept ir.null_pointer (suc s.fresh) log Fine made s.fresh fuel o.what
          (put o.what s.fresh shadowed) ready.value_old ready.enough
          (unfold put update_places in
            Clear-update s.fresh s.identity s.abstract o.what (some s.fresh) o.what (omega arith)
              clear)
          (put-IsKept ir.null_pointer (suc s.fresh) log Fine made o.what s.fresh shadowed
            shadowed-IsKept absent fresh-Fine) in
      (k, chosen r u f ∙ p, kept)

  -- The state after `keep_abstract`.
  pub kept :
      (k : State) × (keep_abstract ir reached fuel o s.fresh shadowed ≡ some (done k))
      × IsKept ir.null_pointer (suc s.fresh) log Fine made k
      × (returns_value o ≡ true → faultable ir o ≡ true → k ≡ shadowed)
  kept = elim (Bool-cases (returns_value o)) [
    | inl r ↦ elim (Bool-cases (is_unstash_taint o.kind)) [
      | inl u ↦ (shadowed, stays (ground arith), shadowed-IsKept, λ _ _. refl)
      | inr u ↦ elim (Bool-cases (faultable ir o)) [
        | inl f ↦ (shadowed, stays (ground arith), shadowed-IsKept, λ _ _. refl)
        | inr f ↦ let (k, p, h) = puts r u f in (k, p, h, λ _ g. absurd (ground arith))
      ]
    ]
    | inr r ↦ (shadowed, stays (ground arith), shadowed-IsKept, λ _ _. refl)
  ]
