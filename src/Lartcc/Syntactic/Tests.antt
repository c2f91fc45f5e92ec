-- ===== src/Lartcc/Syntactic/Tests.antt =====
-- The call for an addition, whose result is an argument of a call that is there already, and a cast.
use mathlib.Core.List.Memᴰ
use lart.Common.{
  ℕ, ◌<◌, ◌≡◌, ◌≢◌, refl, ap, subst, sym, ◌∙◌, inl, inr, ◌⊎◌, Bool, Bool-cases, true, if◌then◌else◌,
  ◌==◌, ◌&&◌, Option, none, some, List, [], ◌∷◌, Memᴰ, Run, done, arith,
}
use lart.Lartcc.Dataflow.{Value}
use lart.Lartcc.Operation.{
  Place, with_taint_at, identity, Operation, arguments, lifter_name, duplicated_arguments,
  call_operands, faultable, replaces, returns_value,
}
use lart.Lartcc.Samples.{module_ir, operands, addition, two}
use lart.Lartcc.Syntactic.{State, set_operand, propagate, process}
use lart.Lartcc.Syntactic.Places.{Entry, abstract_position}
use lart.Lartcc.Syntactic.Filling.{IsPatched, entry, Filled, Waits}
use lart.Lartcc.Syntactic.Chains.{stop, next}
use lart.Lartcc.Syntactic.Calls.{IsReady}
use lart.Lartcc.Syntactic.Casts.{IsCast, propagate_reaches}
use lart.Lartcc.Syntactic.Steps.{IsCastReady, process-IsPatched, process-identity-IsPatched}

abbrev reached : (Value → ℕ → Value) → (replaced call user : Value) → ℕ → Bool
reached f replaced call user i = true

-- The call 14 has a place for the abstract value of 12; 15 is the abstract value of 10.
abbrev waiting : Value → ℕ → Value
waiting u i = if u == 14 && i == 3 then 1 else operands u i

abbrev place : Place
place = with_taint_at 1 2 3

abbrev before : State
before = record {
  fresh = 20;
  operand = waiting;
  abstract = λ v. if v == 10 then some 15 else none;
  identity = λ v. none;
  places = λ v. if v == 12 then (14, place) ∷ [] else [];
  shadows = λ v. none;
}

abbrev one : List Entry
one = entry 14 3 12 ∷ []

only : (e : Entry) → Memᴰ e one → e ≡ entry 14 3 12
only e m = elim (Memᴰ.cases_cons m) [ inl h ↦ h | inr h ↦ absurd (Memᴰ.not-nil h) ]

places_at :
    (v c : Value) (p : Place)
    → Memᴰ (c, p) (before.places v)
    → (b : ℕ) × (abstract_position p ≡ some b) × Memᴰ (entry c b v) one
places_at v c p m = elim (Bool-cases (v == 12)) [
  | inl same ↦
      let there : before.places v ≡ (14, place) ∷ [] = rw same refl in
      elim (Memᴰ.cases_cons (subst (Memᴰ (c, p)) there m)) [
        | inl h ↦
            let c_is : c ≡ 14 = ap (λ x. x.0) h in
            let v_is : v ≡ 12 = ground arith in
            (3, ap (λ x. abstract_position x.1) h, Memᴰ.head (rw (c_is, v_is) refl))
        | inr h ↦ absurd (Memᴰ.not-nil h)
      ]
  | inr other ↦
      let gone : before.places v ≡ [] = rw other refl in
      absurd (Memᴰ.not-nil (subst (Memᴰ (c, p)) gone m))
]

before-IsPatched : IsPatched 1 20 before one
before-IsPatched = record {
  each = λ e m.
      subst (λ x. Filled before x ⊎ Waits 1 before x) (sym (only e m))
        (inr (refl, refl, (place, Memᴰ.head refl, refl)));
  known = places_at;
  unique = λ e f m n _ _. ap (λ x. x.concrete) (only e m ∙ sym (only f n));
  old = λ e m.
      subst (λ x. (x.call < 20) × (x.concrete < 20)) (sym (only e m)) (omega arith, omega arith);
}

addition-IsReady : IsReady module_ir 8 one before addition two
unfolding arguments returns_value faultable replaces
addition-IsReady = record {
  has_arguments = refl;
  arguments_old = (omega arith, (omega arith, tt));
  value_old = omega arith;
  enough = omega arith;
  unlogged = λ _ e m. subst (λ x. x.call ≢ 12) (sym (only e m)) (omega arith);
  free = λ _ _ _. (refl, stop 12 refl);
  linked = λ _ f. absurd (cc f);
  unreplaced = λ re e. absurd (cc e);
}

process-IsPatched_example :
    (s' : State) × (process module_ir reached 8 addition before ≡ some (done s'))
    × (s'.fresh ≡ 21)
    × IsPatched 1 21 s' (entry 20 6 11 ∷ entry 20 3 10 ∷ one)
process-IsPatched_example =
    process-IsPatched module_ir reached 8 one before addition two addition-IsReady before-IsPatched

-- The operands after it: that of the earlier call is the new one, the first of the new call is known and the second is
-- not.
abbrev operand_after : Value → ℕ → Option (Run State) → ℕ
operand_after u i (some (done s)) = s.operand u i
operand_after u i _ = 0

operands_after :
    (operand_after 14 3 (process module_ir reached 8 addition before) ≡ 20)
    × (operand_after 20 3 (process module_ir reached 8 addition before) ≡ 15)
    × (operand_after 20 6 (process module_ir reached 8 addition before) ≡ 1)
unfolding process lifter_name duplicated_arguments faultable replaces set_operand call_operands
operands_after = (refl, refl, refl)

abbrev copy : Operation
copy = record { kind = identity; what = 12; location = 12 }

copy-IsCastReady : IsCastReady 10 before copy
copy-IsCastReady = record {
  is_identity = refl;
  after_operand = omega arith;
  value_old = omega arith;
  enough = omega arith;
  free = refl;
  clear = stop 12 refl;
}

process-identity-IsPatched_example :
    (s' : State) × (process module_ir reached 10 copy before ≡ some (done s'))
    × (s'.fresh ≡ 20)
    × IsPatched 1 20 s' one
    × (s'.abstract 12 ≡ some 15)
process-identity-IsPatched_example =
    process-identity-IsPatched module_ir reached 10 one before copy copy-IsCastReady
      before-IsPatched

-- The value 12 is a cast of 10, and 13 one of 12.
abbrev chained : State
chained = record before {
  identity = λ v. if v == 10 then some 12 else if v == 12 then some 13 else none;
}

propagate_reaches_example :
    (s' : State) × (propagate 10 10 chained ≡ some (done s')) × IsCast 10 15 chained s'
propagate_reaches_example =
    propagate_reaches 20 10 10 15 chained (omega arith) (omega arith)
      (next 10 12 refl refl (omega arith) (omega arith)
        (next 12 13 refl refl (omega arith) (omega arith) (stop 13 refl)))
      refl
