-- ===== src/Lartcc/Shadows.antt =====
-- lartcc/shadow.cpp: the shadow of a value, a bit that tells at run time whether the value is abstract. A shadow is
-- kept as a term of the code that is made for it.
use lart.Common.{
  ℕ, zero, suc, Bool, true, false, ◌==◌, ◌||◌, if◌then◌else◌, Option, none, some, List, [], ◌∷◌,
  Run, done, undefined, cancelled,
}
use lart.Lartcc.Dataflow.{Value}
use lart.Lartcc.Selection.{
  Code, Class, other_value, argument_value, global_value, ShadowKind, source, memory, global,
  forward, store_shadow, load_shadow, freeze_shadow, melt_shadow, arg, ret, operation_kind,
}
pub mod Taints
pub mod Equations
pub mod Soundness
pub mod Ends
pub mod Loops
mod Tests

-- `given` is a shadow that the syntactic pass has put in, the result of an `unstash_taint`; `null` the null
-- pointer.
pub data Shadow : Type 0 where
  bit : Bool → Shadow
  either : (a b : Shadow) → Shadow
  -- a call of `__lart_test_taint` on a pointer
  test_taint : (pointer : Value) (bytes : ℕ) → Shadow
  slot : (what : Value) → Shadow
  global_slot : (what : Value) → Shadow
  given : (what : Value) → Shadow
  null : Shadow

-- `ops`.
abbrev pub Ops : Type 0
Ops = Value → Option Shadow

-- What a call does; `none` is a lack of fuel.
abbrev pub Result : Type 0
Result = Option (Run (Shadow × Ops))

infixl 5 ◌followed_by◌
abbrev pub ◌followed_by◌ {ℓ κ} :
    {A : Type ℓ} {B : Type κ} → Option (Run A) → (A → Option (Run B)) → Option (Run B)
none followed_by f = none
some (done s) followed_by f = f s
some cancelled followed_by f = some cancelled
some undefined followed_by f = some undefined

-- `or_` of two values, which must be there.
abbrev pub is_null : Shadow → Bool
is_null null = true
is_null _ = false

abbrev pub or_of : Shadow → Shadow → Run Shadow
or_of a b = if is_null a || is_null b then undefined else done (either a b)

abbrev pub keep : Value → Shadow → Ops → Ops
keep v x ops u = if u == v then some x else ops u

abbrev pub is_instruction : Class → Bool
is_instruction argument_value = false
is_instruction global_value = false
is_instruction other_value = false
is_instruction _ = true

-- The operands of `process_forward` after the first.
unfoldable pub or_all : (Value → Ops → Result) → List Value → Shadow → Ops → Result
or_all visit [] x ops = some (done (x, ops))
or_all visit (v ∷ vs) x ops =
    visit v ops followed_by λ r. some (or_of x r.0) followed_by λ y. or_all visit vs y r.1

module _ (m : Code) (bytes : Value → ℕ) where
  unfoldable pub process_forward : (Value → Ops → Result) → Value → Ops → Result
  unfolding or_all
  process_forward visit v ops = elim (is_instruction (m.class v)) [
    | false ↦ some (done (bit false, ops))
    | true ↦ elim (m.operands v) [
      | [] ↦ some undefined
      | w ∷ ws ↦ visit w ops followed_by λ r. or_all visit ws r.0 r.1
    ]
  ]

  -- The `switch` of `process`. A source that is not there is a null pointer in the map.
  abbrev pub process_by : (Value → Ops → Result) → ShadowKind → Value → Ops → Result
  process_by visit source v ops = some (done (null, ops))
  process_by visit memory v ops = some (done (slot v, ops))
  process_by visit forward v ops = process_forward visit v ops
  process_by visit store_shadow v ops = some (done (null, ops))
  process_by visit load_shadow v ops = some (done (bit false, ops))
  process_by visit freeze_shadow v ops = some (done (null, ops))
  process_by visit melt_shadow v ops = some (done (test_taint (m.pointer_operand v) (bytes v), ops))
  process_by visit arg v ops = some (done (bit false, ops))
  process_by visit ret v ops = some (done (bit false, ops))
  process_by visit global v ops = some (done (global_slot v, ops))

  unfoldable pub process_operation : (Value → Ops → Result) → ShadowKind → Value → Ops → Result
  unfolding process_forward
  process_operation visit k v ops = elim (ops v) [
    | some x ↦ some (done (x, ops))
    | none ↦ process_by visit k v ops followed_by λ r. some (done (r.0, keep v r.0 r.1))
  ]

  unfoldable pub process_value : ℕ → Value → Ops → Result
  unfolding process_operation operation_kind
  process_value zero v ops = none
  process_value (suc fuel) v ops = some (operation_kind m v) followed_by λ found. elim found [
    | none ↦ some (done (bit false, ops))
    | some k ↦ process_operation (process_value fuel) k v ops
  ]

  -- The pass over the shadows to be made.
  unfoldable pub process_all : ℕ → List (Value × ShadowKind) → Ops → Option (Run Ops)
  unfolding process_operation process_value
  process_all fuel [] ops = some (done ops)
  process_all fuel ((v, k) ∷ os) ops =
      process_operation (process_value fuel) k v ops followed_by λ r. process_all fuel os r.1

-- `get`.
unfoldable pub get : Ops → Value → Shadow
get ops v = elim (ops v) [ none ↦ bit false | some x ↦ x ]
