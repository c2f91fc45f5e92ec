-- ===== src/Runtime/Stash.antt =====
-- runtime/native/stash.cpp, stash.hpp and the calls of runtime/native/lart.cpp that reach them: the two stacks that
-- carry the arguments of an abstract call and their taints. A stack is an array of 256 slots with an
-- index of 8 bits that wraps.
use lart.Common.{
  ℕ, zero, suc, ◌+◌, ◌%◌, ◌^◌, Bool, true, false, ◌&&◌, ltb, Option, none, some, List, [], ◌∷◌,
  get_elem?, set, Run, done, undefined, ◌>>=◌,
}
pub mod Slots
pub mod Lifo
mod Tests

abbrev pub abstract_stack_size : ℕ
abstract_stack_size = 256

pub record Stack (A : Type 0) : Type 0 where
  pub slots : List A
  pub top : ℕ

abbrev pub stack : {A : Type 0} → List A → ℕ → Stack A
stack xs t = record { slots = xs; top = t }

-- `stack[ top++ ] = value`.
unfoldable pub push : {A : Type 0} → A → Stack A → Stack A
push v s = record { slots = set s.slots s.top v; top = (s.top + 1) % 2 ^ 8 }

abbrev pub popped : {A : Type 0} → Option A → Stack A → Run (A × Stack A)
popped none s = undefined
popped (some v) s = done (v, s)

-- `stack[ --top ]`.
unfoldable pub pop : {A : Type 0} → Stack A → Run (A × Stack A)
pop s = let t = (s.top + 255) % 2 ^ 8 in popped (get_elem? s.slots t) (record s { top = t })

-- The values of all threads' stacks are separate; these are the stacks of one.
pub record Stashes : Type 0 where
  pub values : Stack ℕ
  pub taints : Stack Bool

-- A value is a pointer or an integer that is cut to 64 bits.
unfoldable pub stash : ℕ → Stashes → Stashes
unfolding push
stash v s = record s { values = push (v % 2 ^ 64) s.values }

unfoldable pub stash_taint : Bool → Stashes → Stashes
unfolding push
stash_taint t s = record s { taints = push t s.taints }

unfoldable pub unstash : Stashes → Run (ℕ × Stashes)
unfolding pop
unstash s = do (v, r) ← pop s.values; done (v, record s { values = r })

unfoldable pub unstash_taint : Stashes → Run (Bool × Stashes)
unfolding pop
unstash_taint s = do (t, r) ← pop s.taints; done (t, record s { taints = r })

unfoldable pub lart_stash : Bool → ℕ → Stashes → Stashes
unfolding stash stash_taint
lart_stash taint val s = stash_taint taint (stash val s)

-- What instrumented code calls.
pub data Call : Type 0 where
  put : Bool → ℕ → Call
  get_value get_taint : Call

-- What it gets back.
pub data Answer : Type 0 where
  value : ℕ → Answer
  taint : Bool → Answer

-- The answers of calls in sequence.
unfoldable pub run : List Call → Stashes → Run (List Answer)
unfolding lart_stash unstash unstash_taint
run [] s = done []
run (put t v ∷ calls) s = run calls (lart_stash t v s)
run (get_value ∷ calls) s = do (v, r) ← unstash s; answers ← run calls r; done (value v ∷ answers)
run (get_taint ∷ calls) s = do
  (t, r) ← unstash_taint s
  answers ← run calls r
  done (taint t ∷ answers)
