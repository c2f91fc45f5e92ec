-- ===== src/Lartcc/Syntactic/Chains.antt =====
-- The abstract value of a value goes to its casts, lartcc/syntactic.cpp: that this ends, and what it keeps.
use mathlib.Core.Option.{some-injective}
use lart.Common.{
  ℕ, zero, suc, ◌+◌, ◌<◌, ◌≤◌, ◌≡◌, subst, ◌∙◌, inl, inr, ◌==◌, Bool-cases, Option-cases, Option,
  none, some, List, done, arith,
}
use lart.Lartcc.Dataflow.{Value}
use lart.Lartcc.Syntactic.{State, update, update_places, put, propagate}
use lart.Lartcc.Syntactic.Places.{Entry}
use lart.Lartcc.Syntactic.Filling.{IsPatched, IsUnlogged, put-IsPatched, put_unlogged}

-- The casts of a value, and theirs in turn, have no abstract values yet. A cast has a greater number than its operand, and
-- a lower one than `top`.
pub data Clear (top : Value) (identity abstract : Value → Option Value) : Value → Type 0 where
  stop : (v : Value) → identity v ≡ none → Clear top identity abstract v
  next :
      (v d : Value)
      → identity v ≡ some d
      → abstract d ≡ none
      → v < d
      → d < top
      → Clear top identity abstract d
      → Clear top identity abstract v

pub Clear-update :
    (top : Value) (identity abstract : Value → Option Value) (w : Value) (x : Option Value)
    (v : Value)
    → w ≤ v
    → Clear top identity abstract v
    → Clear top identity (update w x abstract) v
Clear-update top identity abstract w x v le (stop _ e) = stop v e
Clear-update top identity abstract w x v le (next _ d e n lt below c) =
    next v d e (ground arith) lt below (Clear-update top identity abstract w x d (omega arith) c)

-- What putting in abstract values keeps of a state: `fine` holds of all abstract values.
pub record IsKept (null bound : Value) (log : List Entry) (fine : Value → Type 0) (t s : State)
    : Type 0 where
  pub patched : IsPatched null bound s log
  pub same_operand : (u : Value) (i : ℕ) → IsUnlogged log u → s.operand u i ≡ t.operand u i
  pub all_fine : (v a : Value) → s.abstract v ≡ some a → fine a
  pub same_fresh : s.fresh ≡ t.fresh

module _ (fuel v : Value) (s : State) where
  pub propagate_stops : s.identity v ≡ none → propagate (suc fuel) v s ≡ some (done s)
  unfolding propagate
  propagate_stops e = ground arith

  pub propagate_waits :
      (d : Value)
      → s.identity v ≡ some d
      → s.abstract d ≡ none
      → s.abstract v ≡ none
      → propagate (suc fuel) v s ≡ some (done s)
  unfolding propagate
  propagate_waits d e n a = ground arith

  pub propagate_goes_on :
      (d a : Value)
      → s.identity v ≡ some d
      → s.abstract d ≡ none
      → s.abstract v ≡ some a
      → propagate (suc fuel) v s ≡ propagate fuel d (put d a s)
  unfolding propagate
  propagate_goes_on d a e n t = ground arith

module _ (null bound : Value) (log : List Entry) (fine : Value → Type 0) (t : State) where
  fine_put :
      (v a : Value) (s : State)
      → ((w b : Value) → s.abstract w ≡ some b → fine b)
      → fine a
      → (w b : Value) → (put v a s).abstract w ≡ some b
      → fine b
  unfolding put update_places
  fine_put v a s h f w b e = elim (Bool-cases (w == v)) [
    | inl same ↦ subst fine (some-injective a b (rw same at e)) f
    | inr other ↦ h w b (rw other at e)
  ]

  pub put-IsKept :
      (v a : Value) (s : State)
      → IsKept null bound log fine t s
      → s.abstract v ≡ none
      → fine a
      → IsKept null bound log fine t (put v a s)
  unfolding put update_places
  put-IsKept v a s h n f = record {
    patched = put-IsPatched null bound v a s log h.patched n;
    same_operand =
        λ u i l. put_unlogged null bound v a s log h.patched n u i l ∙ h.same_operand u i l;
    all_fine = fine_put v a s h.all_fine f;
    same_fresh = h.same_fresh;
  }

  -- Enough fuel is the distance to `top`.
  pub propagate-IsKept :
      (top fuel v : Value) (s : State)
      → v < top
      → top ≤ v + fuel
      → Clear top s.identity s.abstract v
      → IsKept null bound log fine t s
      → (s' : State) × (propagate fuel v s ≡ some (done s')) × IsKept null bound log fine t s'
  propagate-IsKept top zero v s lt enough c h = absurd (omega arith)
  propagate-IsKept top (suc fuel) v s lt enough (stop _ e) h = (s, propagate_stops fuel v s e, h)
  propagate-IsKept top (suc fuel) v s lt enough (next _ d e n less below c) h =
      elim (Option-cases (s.abstract v)) [
        | inl none_yet ↦ (s, propagate_waits fuel v s d e n none_yet, h)
        | inr (a, there) ↦
            let (s', p, k) =
              propagate-IsKept top fuel d (put d a s) below (omega arith)
                (unfold put update_places in
                  Clear-update top s.identity s.abstract d (some a) d (omega arith) c)
                (put-IsKept d a s h n (h.all_fine v a there)) in
            (s', propagate_goes_on fuel v s d a e n there ∙ p, k)
      ]
