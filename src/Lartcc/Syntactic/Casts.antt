-- ===== src/Lartcc/Syntactic/Casts.antt =====
-- Which values get the abstract value of a value in `propagate_identity` of lartcc/syntactic.cpp, and what the compiler
-- does for a cast that keeps the abstract value.
use mathlib.Core.Option.{some-injective}
use lart.Common.{
  zero, suc, ◌+◌, ◌<◌, ◌≤◌, ◌≡◌, refl, ap, sym, subst, ◌∙◌, ◌⊎◌, inl, inr, Option, some, done,
  arith,
}
use lart.Lartcc.Dataflow.{Value}
use lart.Lartcc.Syntactic.{State, update_places, put, propagate}
use lart.Lartcc.Syntactic.Chains.{
  Clear, stop, next, Clear-update, propagate_stops, propagate_goes_on,
}

-- A value, the one cast of it that `identity` records, the one of that, and so on.
pub data Cast (identity : Value → Option Value) : Value → Value → Type 0 where
  itself : (v : Value) → Cast identity v v
  of : (v d w : Value) → identity v ≡ some d → Cast identity d w → Cast identity v w

Cast-cases :
    (to : Value → Option Value) (v w : Value)
    → Cast to v w
    → (w ≡ v) ⊎ ((d : Value) × (to v ≡ some d) × Cast to d w)
Cast-cases to v w (itself _) = inl refl
Cast-cases to v w (of _ d _ is c) = inr (d, is, c)

-- The state after the propagation: the recorded cast of a value, that of the cast and so on have its abstract value, and
-- no value up to it is changed.
pub record IsCast (v a : Value) (s s' : State) : Type 0 where
  pub casts : (w : Value) → Cast s.identity v w → s'.abstract w ≡ some a
  pub lower : (u : Value) → u ≤ v → s'.abstract u ≡ s.abstract u

put_lower : (d a : Value) (s : State) (u : Value) → u < d → (put d a s).abstract u ≡ s.abstract u
unfolding put update_places
put_lower d a s u lt = ground arith

put_there : (d a : Value) (s : State) → (put d a s).abstract d ≡ some a
unfolding put update_places
put_there d a s = ground arith

IsCast-of :
    (v d a : Value) (s s' : State)
    → s.identity v ≡ some d
    → s.abstract v ≡ some a
    → v < d
    → IsCast d a (put d a s) s'
    → IsCast v a s s'
unfolding put update_places
IsCast-of v d a s s' e there lt h =
    let lower : (u : Value) → u ≤ v → s'.abstract u ≡ s.abstract u =
      λ u le. h.lower u (omega arith) ∙ put_lower d a s u (omega arith) in
    record {
      casts = λ w c. elim (Cast-cases s.identity v w c) [
        | inl same ↦ ap s'.abstract same ∙ lower v (omega arith) ∙ there
        | inr (x, is, rest) ↦
            h.casts w (subst (λ y. Cast s.identity y w) (some-injective x d (sym is ∙ e)) rest)
      ];
      lower = lower;
    }

-- `identity` records one cast for each value, the last one processed. Where the recorded cast of a value, the recorded
-- cast of that, and so on, have no abstract value yet and come after what they cast, the recursion ends with
-- fuel for the distance to a value above them all, every one of them then has the abstract value of the first, and
-- the values up to the first are as before.
pub propagate_reaches :
    (top fuel v a : Value) (s : State)
    → v < top
    → top ≤ v + fuel
    → Clear top s.identity s.abstract v
    → s.abstract v ≡ some a
    → (s' : State) × (propagate fuel v s ≡ some (done s')) × IsCast v a s s'
propagate_reaches top zero v a s lt enough c there = absurd (omega arith)
propagate_reaches top (suc fuel) v a s lt enough (stop _ e) there = (
  s,
  propagate_stops fuel v s e,
  record {
    casts = λ w c. elim (Cast-cases s.identity v w c) [
      | inl same ↦ ap s.abstract same ∙ there
      | inr (d, is, rest) ↦ absurd (cc (e, is))
    ];
    lower = λ u le. refl;
  },
)
propagate_reaches top (suc fuel) v a s lt enough (next _ d e n less below c) there =
    let (s', p, h) =
      propagate_reaches top fuel d a (put d a s) below (omega arith)
        (unfold put update_places in
          Clear-update top s.identity s.abstract d (some a) d (omega arith) c)
        (put_there d a s) in
    (s', propagate_goes_on fuel v s d a e n there ∙ p, IsCast-of v d a s s' e there less h)
