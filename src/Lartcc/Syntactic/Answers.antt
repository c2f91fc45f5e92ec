-- ===== src/Lartcc/Syntactic/Answers.antt =====
-- What the operations of lartcc/include/cc/operation.hpp ask of LLVM while the operands of other instructions are
-- changed by lartcc/syntactic.cpp.
use lart.Common.{ℕ, ◌≡◌, refl, subst, Bool, true, false, List, Run, done, arith}
use lart.Lartcc.Dataflow.{Value}
use lart.Lartcc.Operation.{
  Ir, Kind, melt, freeze, binary, cast, cmp, tobool, alloc, store, load, stash, unstash,
  unstash_taint, identity, phi, dump, assume, Operation, Argument, arguments_by, arguments,
  replaces, faultable, has_taints,
}
use lart.Lartcc.Syntactic.Places.{Entry}
use lart.Lartcc.Syntactic.Walks.{add_entries}

-- The operations that ask for operands of their value, which is then the instruction itself. The others take the value
-- as it is.
abbrev pub reads_operands : Kind → Bool
reads_operands melt = true
reads_operands freeze = true
reads_operands binary = true
reads_operands cast = true
reads_operands cmp = true
reads_operands tobool = true
reads_operands store = true
reads_operands load = true
reads_operands _ = false

module _ (ir : Ir) (f g : Value → ℕ → Value) where
  arguments_by-same :
      (k : Kind) (v : Value)
      → (reads_operands k ≡ true → (i : ℕ) → g v i ≡ f v i)
      → arguments_by (record ir { operand = g }) k v ≡ arguments_by (record ir { operand = f }) k v
  arguments_by-same melt v h = rw (h refl 0) refl
  arguments_by-same freeze v h = rw (h refl 0, h refl 1) refl
  arguments_by-same binary v h = rw (h refl 0, h refl 1) refl
  arguments_by-same cast v h = rw (h refl 0) refl
  arguments_by-same cmp v h = rw (h refl 0, h refl 1) refl
  arguments_by-same tobool v h = rw (h refl 0) refl
  arguments_by-same (assume e) v h = refl
  arguments_by-same alloc v h = refl
  arguments_by-same store v h = rw (h refl 0, h refl 1) refl
  arguments_by-same load v h = rw (h refl 0) refl
  arguments_by-same stash v h = refl
  arguments_by-same unstash v h = refl
  arguments_by-same unstash_taint v h = refl
  arguments_by-same identity v h = refl
  arguments_by-same phi v h = refl
  arguments_by-same dump v h = refl

  -- They depend on the operands of the operation's value at most.
  pub arguments_same :
      (o : Operation)
      → (reads_operands o.kind ≡ true → (i : ℕ) → g o.what i ≡ f o.what i)
      → arguments (record ir { operand = g }) o ≡ arguments (record ir { operand = f }) o
  unfolding arguments
  arguments_same o h = arguments_by-same o.kind o.what h

  replaced_by :
      (k : Kind) (v l : Value)
      → (reads_operands k ≡ true → (i : ℕ) → g v i ≡ f v i)
      → replaces (record ir { operand = g }) (record { kind = k; what = v; location = l })
        ≡ replaces (record ir { operand = f }) (record { kind = k; what = v; location = l })
  unfolding replaces faultable
  replaced_by tobool v l h = rw (h refl 0) refl
  replaced_by _ v l h = refl

  pub replaces_same :
      (o : Operation)
      → (reads_operands o.kind ≡ true → (i : ℕ) → g o.what i ≡ f o.what i)
      → replaces (record ir { operand = g }) o ≡ replaces (record ir { operand = f }) o
  replaces_same o h = replaced_by o.kind o.what o.location h

module _ (ir : Ir) (c pos : ℕ) (log : List Entry) where
  abbrev NoEntries : Run (List Argument) → Type 0
  NoEntries (done args) = add_entries c pos args log ≡ log
  NoEntries _ = Unit

  none_by : (k : Kind) (v : Value) → has_taints k ≡ false → NoEntries (arguments_by ir k v)
  none_by unstash v e = refl
  none_by unstash_taint v e = refl
  none_by dump v e = refl
  none_by identity v e = tt
  none_by phi v e = tt
  none_by melt v e = absurd (ground arith)
  none_by freeze v e = absurd (ground arith)
  none_by binary v e = absurd (ground arith)
  none_by cast v e = absurd (ground arith)
  none_by cmp v e = absurd (ground arith)
  none_by tobool v e = absurd (ground arith)
  none_by (assume x) v e = absurd (ground arith)
  none_by alloc v e = absurd (ground arith)
  none_by store v e = absurd (ground arith)
  none_by load v e = absurd (ground arith)
  none_by stash v e = absurd (ground arith)

  -- An operation without taints makes no place.
  pub none_made :
      (o : Operation) (args : List Argument)
      → has_taints o.kind ≡ false
      → arguments ir o ≡ done args
      → add_entries c pos args log ≡ log
  unfolding arguments
  none_made o args e h = subst NoEntries h (none_by o.kind o.what e)
