-- ===== src/Lartcc/Shadows/Equations.antt =====
-- The steps of lartcc/shadow.cpp, case by case.
use lart.Common.{
  ℕ, ◌≡◌, ap, ◌∙◌, ◌⊎◌, Bool, true, false, ◌||◌, Option, none, some, List, ◌∷◌, Run, done, arith,
}
use lart.Lartcc.Dataflow.{Value}
use lart.Lartcc.Selection.{Code, ShadowKind}
use lart.Lartcc.Shadows.{
  Shadow, bit, Ops, Result, keep, is_instruction, ◌followed_by◌, or_all, process_forward,
  process_by, process_operation,
}

pub or-set : (a b : Bool) → (a || b) ≡ true → (a ≡ true) ⊎ (b ≡ true)
or-set a b h = ground arith

pub either_left : (a b : Bool) → a ≡ true → (a || b) ≡ true
either_left a b h = ground arith

pub either_right : (a b : Bool) → b ≡ true → (a || b) ≡ true
either_right a b h = ground arith

pub goes_on {ℓ κ} :
    {A : Type ℓ} {B : Type κ} {r : Option (Run A)} {a : A} (f : A → Option (Run B))
    → r ≡ some (done a)
    → (r followed_by f) ≡ f a
goes_on f h = ap (λ r. r followed_by f) h

module _ (m : Code) (bytes : Value → ℕ) (visit : Value → Ops → Result) (v w : Value)
    (ws : List Value) (ops : Ops) where
  pub instruction_visits :
      is_instruction (m.class v) ≡ true
      → m.operands v ≡ w ∷ ws
      → process_forward m bytes visit v ops ≡ (visit w ops followed_by λ r. or_all visit ws r.0 r.1)
  unfolding process_forward
  instruction_visits i e = ground arith

  pub no_instruction :
      is_instruction (m.class v) ≡ false
      → process_forward m bytes visit v ops ≡ some (done (bit false, ops))
  unfolding process_forward
  no_instruction i = ground arith

module _ (m : Code) (bytes : Value → ℕ) (visit : Value → Ops → Result) (k : ShadowKind) (v : Value)
    (ops : Ops) where
  pub is_there :
      (x : Shadow) → ops v ≡ some x → process_operation m bytes visit k v ops ≡ some (done (x, ops))
  unfolding process_operation
  is_there x e = ground arith

  pub absent_case :
      ops v ≡ none
      → process_operation m bytes visit k v ops
        ≡ (process_by m bytes visit k v ops followed_by λ r. some (done (r.0, keep v r.0 r.1)))
  unfolding process_operation
  absent_case e = ground arith

  pub is_made :
      (r : Shadow × Ops)
      → ops v ≡ none
      → process_by m bytes visit k v ops ≡ some (done r)
      → process_operation m bytes visit k v ops ≡ some (done (r.0, keep v r.0 r.1))
  unfolding process_operation
  is_made r e p = absent_case e ∙ goes_on (λ q. some (done (q.0, keep v q.0 q.1))) p
