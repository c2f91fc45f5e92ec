-- ===== src/Lartcc/Syntactic/Steps.antt =====
-- `process` of lartcc/syntactic.cpp, for the operations that are calls and for the casts that keep the abstract value.
use lart.Common.{
  ℕ, zero, suc, ◌+◌, ◌<◌, ◌≤◌, ◌≡◌, refl, ap, sym, ◌∙◌, inl, inr, Bool, Option-cases, Option, none,
  some, List, Run, done, arith,
}
use lart.Lartcc.Dataflow.{Value}
use lart.Lartcc.Operation.{Ir, Kind, identity, phi, Operation, Argument, arguments, arguments_by}
use lart.Lartcc.Operation.Layout.{start}
use lart.Lartcc.Syntactic.{State, update, propagate, process, process_identity, process_call}
use lart.Lartcc.Syntactic.Places.{Entry}
use lart.Lartcc.Syntactic.Filling.{IsPatched}
use lart.Lartcc.Syntactic.Chains.{Clear, stop, next, IsKept, propagate_waits, propagate-IsKept}
use lart.Lartcc.Syntactic.Walks.{add_entries}
use lart.Lartcc.Syntactic.Calls.{IsReady}
use lart.Lartcc.Syntactic.Process.{process_call-IsPatched}
use lart.Lartcc.Syntactic.Casts.{itself, of, propagate_reaches}

Clear-link :
    (top : Value) (to abstract : Value → Option Value) (w : Value) (x : Option Value) (v : Value)
    → w < v
    → Clear top to abstract v
    → Clear top (update w x to) abstract v
Clear-link top to abstract w x v lt (stop _ e) = stop v (ground arith)
Clear-link top to abstract w x v lt (next _ d e n less below c) =
    next v d (ground arith) n less below (Clear-link top to abstract w x d (omega arith) c)

-- A cast that keeps the abstract value is met before it or its casts have one.
pub record IsCastReady (fuel : ℕ) (s : State) (o : Operation) : Type 0 where
  pub is_identity : o.kind ≡ identity
  pub after_operand : s.operand o.what 0 < o.what
  pub value_old : o.what < s.fresh
  pub enough : s.fresh ≤ s.operand o.what 0 + fuel
  pub free : s.abstract o.what ≡ none
  pub clear : Clear s.fresh s.identity s.abstract o.what

abbrev result : State → Option (Run State) → State
result s (some (done t)) = t
result s _ = s

same_result :
    (s t u : State) (r : Option (Run State)) → r ≡ some (done t) → r ≡ some (done u) → t ≡ u
same_result s t u r p q = ap (result s) (sym p ∙ q)

idle :
    (fuel v d : Value) (s s' : State)
    → s.identity v ≡ some d
    → s.abstract d ≡ none
    → s.abstract v ≡ none
    → propagate fuel v s ≡ some (done s')
    → s' ≡ s
unfolding propagate
idle zero v d s s' e n a p = absurd (cc p)
idle (suc fuel) v d s s' e n a p =
    same_result s s' s (propagate (suc fuel) v s) p (propagate_waits fuel v s d e n a)

module _ (ir : Ir) (reached : (Value → ℕ → Value) → (replaced call user : Value) → ℕ → Bool)
    (fuel : ℕ) (s : State) (o : Operation) where
  called_by :
      (k : Kind) (args : List Argument)
      → o.kind ≡ k
      → arguments_by (record ir { operand = s.operand }) k o.what ≡ done args
      → process ir reached fuel o s ≡ process_call ir reached fuel o s
  unfolding process
  called_by identity args e h = absurd (cc h)
  called_by phi args e h = absurd (cc h)
  called_by _ args e h = rw e refl

  identified :
      o.kind ≡ identity → process ir reached fuel o s ≡ process_identity ir reached fuel o s
  unfolding process
  identified e = rw e refl

module _ (ir : Ir) (reached : (Value → ℕ → Value) → (replaced call user : Value) → ℕ → Bool)
    (fuel : ℕ) (log : List Entry) (s : State) (o : Operation) where
  -- The state in which the cast is known as that of its operand.
  abbrev recorded : State
  recorded = record s { identity = update (s.operand o.what 0) (some o.what) s.identity }

  chain : IsCastReady fuel s o → Clear s.fresh recorded.identity s.abstract (s.operand o.what 0)
  chain h = next (s.operand o.what 0) o.what (ground arith) h.free h.after_operand h.value_old (
      Clear-link s.fresh s.identity s.abstract (s.operand o.what 0) (some o.what) o.what
        h.after_operand h.clear)

  taken :
      IsCastReady fuel s o
      → (s' : State) → propagate fuel (s.operand o.what 0) recorded ≡ some (done s')
      → s'.abstract o.what ≡ s.abstract (s.operand o.what 0)
  taken h s' p = elim (Option-cases (s.abstract (s.operand o.what 0))) [
    | inl absent ↦
        ap (λ t. t.abstract o.what)
          (idle fuel (s.operand o.what 0) o.what recorded s' (ground arith) h.free absent p)
        ∙ h.free
        ∙ sym absent
    | inr (a, there) ↦
        let below : s.operand o.what 0 < s.fresh =
          let x = h.after_operand in let y = h.value_old in omega arith in
        let (t, q, k) =
          propagate_reaches s.fresh fuel (s.operand o.what 0) a recorded below h.enough (chain h)
            there in
        ap (λ u. u.abstract o.what)
          (same_result s s' t (propagate fuel (s.operand o.what 0) recorded) p q)
        ∙ k.casts o.what (of (s.operand o.what 0) o.what o.what (ground arith) (itself o.what))
        ∙ sym there
  ]

  -- A cast that keeps the abstract value, that comes after its operand, and that has no abstract value yet, nor have its
  -- casts, is processed with fuel for the distance to the newest value: every place is left filled in or
  -- waiting, where it was so before, and the cast has the abstract value of its operand afterwards, or
  -- none when its operand has none. No value is made.
  pub process-identity-IsPatched :
      IsCastReady fuel s o
      → IsPatched ir.null_pointer s.fresh s log
      → (s' : State) × (process ir reached fuel o s ≡ some (done s'))
        × (s'.fresh ≡ s.fresh)
        × IsPatched ir.null_pointer s.fresh s' log
        × (s'.abstract o.what ≡ s.abstract (s.operand o.what 0))
  unfolding process_identity
  process-identity-IsPatched h p =
      let start_kept : IsKept ir.null_pointer s.fresh log (λ _. Unit) recorded recorded = record {
        patched = record { each = p.each; known = p.known; unique = p.unique; old = p.old };
        same_operand = λ u i l. refl;
        all_fine = λ v a e. tt;
        same_fresh = refl;
      } in
      let below : s.operand o.what 0 < s.fresh =
        let x = h.after_operand in let y = h.value_old in omega arith in
      let (s', q, k) =
        propagate-IsKept ir.null_pointer s.fresh log (λ _. Unit) recorded s.fresh fuel
          (s.operand o.what 0) recorded below h.enough (chain h) start_kept in
      (s', identified ir reached fuel s o h.is_identity ∙ q, k.same_fresh, k.patched, taken h s' q)

module _ (ir : Ir) (reached : (Value → ℕ → Value) → (replaced call user : Value) → ℕ → Bool)
    (fuel : ℕ) (log : List Entry) (s : State) (o : Operation) (args : List Argument) where
  -- An operation is processed, where every place made so far is filled in or waits, and the operation is ready: its
  -- value and its arguments are not new, its value is no call with places if the operation reads operands of it (a
  -- stash or an assumption does not), it is neither a phi nor a cast that keeps the abstract value, a result that is an abstract value has none yet, nor have its
  -- casts, a faulting operation has the abstract value that it is linked to, what it replaces is no
  -- abstract value, no null pointer and not the new call, and there is fuel for the distance to the newest value. Its call
  -- is a new value, and every place of the calls made so far, those of the new call included, then holds
  -- the abstract value of its argument when there is one, and waits for it with the null pointer as its
  -- operand when there is none, whichever of them is made first.
  pub process-IsPatched :
      IsReady ir fuel log s o args
      → IsPatched ir.null_pointer s.fresh s log
      → (s' : State) × (process ir reached fuel o s ≡ some (done s'))
        × (s'.fresh ≡ suc s.fresh)
        × IsPatched ir.null_pointer (suc s.fresh) s' (add_entries s.fresh (start o.kind) args log)
  unfolding arguments
  process-IsPatched ready patched =
      let (s', p, f, h) = process_call-IsPatched ir reached fuel log s o args ready patched in
      (s', called_by ir reached fuel s o o.kind args refl ready.has_arguments ∙ p, f, h)
