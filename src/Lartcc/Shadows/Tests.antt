-- ===== src/Lartcc/Shadows/Tests.antt =====
-- The shadows of a sum, and a counter whose shadow is never made.
use mathlib.Core.List.Memᴰ
use mathlib.Core.Option.{some-injective}
use lart.Common.{
  ℕ, zero, suc, ◌<◌, ◌≡◌, refl, sym, subst, ◌⊎◌, inl, inr, Bool, true, false, Option, none, some,
  List, [], ◌∷◌, Memᴰ, Run, done, arith,
}
use lart.Lartcc.Dataflow.{Value}
use lart.Lartcc.Selection.{
  Class, argument_value, binary_inst, phi_inst, Code, ShadowKind, forward, arg, operation_kind,
}
use lart.Lartcc.Shadows.{Shadow, bit, either, given, Ops, process_value}
use lart.Lartcc.Shadows.Taints.{IsBit, IsBitKind, IsWell, IsForward, Tells, IsSound, was_given}
use lart.Lartcc.Shadows.Ends.{process_value-Tells}
use lart.Lartcc.Shadows.Loops.{IsLoop, loop_never_ends}

-- The values 0 and 1 are parameters, and 2 is their sum.
abbrev classes : Value → Class
classes zero = argument_value
classes (suc zero) = argument_value
classes (suc (suc v)) = binary_inst

abbrev sum_operands : Value → List Value
sum_operands (suc (suc v)) = 0 ∷ 1 ∷ []
sum_operands _ = []

abbrev sum : Code
sum = record {
  class = classes;
  pointer_operand = λ v. v;
  value_operand = λ v. v;
  operands = sum_operands;
  called_name = λ v. none;
  types = λ v. none;
  typed = [];
  stores = [];
}

-- The shadow of 0 was unstashed.
abbrev unstashed : Ops
unstashed zero = some (given 0)
unstashed (suc v) = none

abbrev kinds : Value → ShadowKind
kinds (suc (suc v)) = forward
kinds _ = arg

kind_of : (v : Value) → operation_kind sum v ≡ done (some (kinds v))
unfolding operation_kind
kind_of zero = refl
kind_of (suc zero) = refl
kind_of (suc (suc v)) = refl

abbrev Any : Value → Type 0
Any v = Unit

below : (v w : Value) → Memᴰ w (sum_operands v) → w < v
below zero w i = absurd (Memᴰ.not-nil i)
below (suc zero) w i = absurd (Memᴰ.not-nil i)
below (suc (suc v)) w i = elim (Memᴰ.cases_cons i) [
  | inl first ↦ rw first (omega arith)
  | inr rest ↦ elim (Memᴰ.cases_cons rest) [
    | inl second ↦ rw second (omega arith)
    | inr nothing ↦ absurd (Memᴰ.not-nil nothing)
  ]
]

has_operands :
    (v : Value) → IsForward sum v → (w : Value) × ((ws : List Value) × (sum_operands v ≡ w ∷ ws))
has_operands zero f = absurd (cc f.1)
has_operands (suc zero) f = absurd (cc f.1)
has_operands (suc (suc v)) f = (0, (1 ∷ [], refl))

unstashed_bits : (v : Value) (x : Shadow) → unstashed v ≡ some x → IsBit x
unstashed_bits zero x e = subst IsBit (some-injective (given 0) x e) tt
unstashed_bits (suc v) x e = absurd (cc e)

kinds_bits : (v : Value) → IsBitKind (some (kinds v))
kinds_bits zero = tt
kinds_bits (suc zero) = tt
kinds_bits (suc (suc v)) = tt

sum-IsWell : IsWell sum unstashed (λ v. v) Any
sum-IsWell = record {
  has_kind = λ v g. (some (kinds v), kind_of v, (λ e. kinds_bits v), (λ e. absurd (cc e)));
  has_operand = λ v g f. has_operands v f;
  down = λ v w g f i. (tt, below v w i);
  first_bits = unstashed_bits;
}

abbrev tests : Value → ℕ → Bool
tests p n = false

abbrev gave : Value → Bool
gave v = true

unstashed-Tells :
    (v : Value) (x : Shadow) → unstashed v ≡ some x → Tells sum (λ v. 4) tests gave unstashed v x
unstashed-Tells zero x e =
    subst (Tells sum (λ v. 4) tests gave unstashed 0) (some-injective (given 0) x e)
      (record { is_bit = tt; sound = λ b. was_given 0 (given 0) refl refl; complete = λ t. refl })
unstashed-Tells (suc v) x e = absurd (cc e)

unstashed-IsSound : IsSound sum (λ v. 4) tests gave unstashed Any unstashed
unstashed-IsSound = record { told = λ v x g e. unstashed-Tells v x e; from_first = λ v e. e }

process_value-Tells_example :
    (x : Shadow) × ((ops' : Ops) × (process_value sum (λ v. 4) 3 2 unstashed
        ≡ some (done (x, ops')))
      × Tells sum (λ v. 4) tests gave unstashed 2 x
      × IsSound sum (λ v. 4) tests gave unstashed Any ops')
process_value-Tells_example =
    process_value-Tells sum (λ v. 4) tests gave unstashed (λ v. v) Any sum-IsWell 3 2 unstashed tt
      (omega arith) unstashed-IsSound

abbrev shadow_of : Option (Run (Shadow × Ops)) → Option Shadow
shadow_of (some (done (x, ops))) = some x
shadow_of _ = none

sum_shadow :
    shadow_of (process_value sum (λ v. 4) 3 2 unstashed) ≡ some (either (given 0) (bit false))
unfolding process_value
sum_shadow = refl

-- The value 1 is a `phi` of 0 and 2, and 2 adds to it.
abbrev counter_classes : Value → Class
counter_classes zero = argument_value
counter_classes (suc zero) = phi_inst
counter_classes (suc (suc v)) = binary_inst

abbrev counter_operands : Value → List Value
counter_operands zero = []
counter_operands (suc zero) = 0 ∷ 2 ∷ []
counter_operands (suc (suc v)) = 1 ∷ 0 ∷ []

abbrev counter : Code
counter = record sum { class = counter_classes; operands = counter_operands }

abbrev Circle : Value → Type 0
Circle v = (v ≡ 1) ⊎ (v ≡ 2)

counter-IsLoop : IsLoop counter Circle
unfolding operation_kind
counter-IsLoop = record {
  is_forward = λ v l. elim l [
    | inl e ↦ subst (IsForward counter) (sym e) (refl, refl)
    | inr e ↦ subst (IsForward counter) (sym e) (refl, refl)
  ];
  takes = λ v l. elim l [
    | inl e ↦
        (2, subst (λ w. Memᴰ 2 (counter_operands w)) (sym e) (Memᴰ.tail (Memᴰ.head refl)), inr refl)
    | inr e ↦ (1, subst (λ w. Memᴰ 1 (counter_operands w)) (sym e) (Memᴰ.head refl), inl refl)
  ];
}

loop_never_ends_example : ¬ (
    (x : Shadow) × ((ops' : Ops) × (process_value counter (λ v. 4) 100 1 (λ v. none)
        ≡ some (done (x, ops')))))
loop_never_ends_example =
    loop_never_ends counter (λ v. 4) Circle counter-IsLoop 100 1 (λ v. none) (inl refl)
      (λ u l. refl)
