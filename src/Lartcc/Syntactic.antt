-- ===== src/Lartcc/Syntactic.antt =====
-- lartcc/syntactic.cpp: the calls that stand for the operations on abstract values, and how their arguments are filled in
-- with the abstract values that other calls yield, whichever call is made first. A new call is a new
-- value. The maps are functions; reading a missing entry by `[]` makes one that holds the null
-- pointer.
use lart.Common.{
  ℕ, zero, suc, ◌+◌, Bool, true, false, not, ◌&&◌, ◌||◌, ◌==◌, if◌then◌else◌, Option, none, some,
  List, [], ◌∷◌, ◌++◌, get_elem?, Run, done, undefined, cancelled, ◌>>=◌,
}
use lart.Lartcc.Dataflow.{Value}
use lart.Lartcc.Operation.{
  Ir, Kind, unstash_taint, identity, phi, Operation, Argument, arguments, faultable, replaces,
  lifter_name, duplicated_arguments, any_abstract, returns_value, has_taints, Place, with_taint_at,
  concrete_at, abstract_at, paired_view, call_operands,
}
pub mod Places
pub mod Filling
pub mod Chains
pub mod Visits
pub mod Walks
pub mod Made
pub mod Answers
pub mod Calls
pub mod Patches
pub mod Process
pub mod Casts
pub mod Steps
mod Tests

pub record State : Type 0 where
  -- the number of the next new value
  pub fresh : Value
  pub operand : Value → ℕ → Value
  pub abstract : Value → Option Value
  pub identity : Value → Option Value
  pub places : Value → List (Value × Place)
  pub shadows : Value → Option Value

abbrev pub update {ℓ} : {A : Type ℓ} → Value → A → (Value → A) → Value → A
update v a f u = if u == v then a else f u

unfoldable pub set_operand : Value → ℕ → Value → (Value → ℕ → Value) → Value → ℕ → Value
set_operand c i a operand u j = if u == c && j == i then a else operand u j

-- `arg.abstract.set`.
abbrev pub set_abstract : Value → Place → Value → (Value → ℕ → Value) → Value → ℕ → Value
set_abstract c (with_taint_at t p b) a operand = set_operand c b a operand
set_abstract c (abstract_at p b) a operand = set_operand c b a operand
set_abstract c (concrete_at p) a operand = operand

unfoldable pub patch : List (Value × Place) → Value → (Value → ℕ → Value) → Value → ℕ → Value
patch [] a operand = operand
patch ((c, p) ∷ ps) a operand = patch ps a (set_abstract c p a operand)

unfoldable pub update_places : Value → Value → State → State
unfolding patch
update_places v a s = record s {
  operand = patch (s.places v) a s.operand;
  places = update v [] s.places;
}

-- `abstract[ v ] = a`, after which the places that wait for it are filled in.
unfoldable pub put : Value → Value → State → State
unfolding update_places
put v a s = update_places v a (record s { abstract = update v (some a) s.abstract })

-- `propagate_identity`; `none` is a lack of fuel, and an assertion that fails is undefined.
unfoldable pub propagate : ℕ → Value → State → Option (Run State)
unfolding put
propagate zero v s = none
propagate (suc fuel) v s = elim (s.identity v) [
  | none ↦ some (done s)
  | some dst ↦ elim (s.abstract dst) [
    | some b ↦ some undefined
    | none ↦ elim (s.abstract v) [
      | none ↦ some (done s)
      | some a ↦ propagate fuel dst (put dst a s)
    ]
  ]
]

-- Steps that may lack fuel.
infixl 5 ◌then_do◌
abbrev pub ◌then_do◌ : Option (Run State) → (State → Option (Run State)) → Option (Run State)
none then_do f = none
some (done s) then_do f = f s
some cancelled then_do f = some cancelled
some undefined then_do f = some undefined

-- An operand of a call from the list that it is made with.
abbrev pub nth : List Value → ℕ → Value → Value
nth vs i other = elim (get_elem? vs i) [ none ↦ other | some v ↦ v ]

-- A place for an abstract value, with the value that it is the abstract value of: `set_or_store_place`.
unfoldable pub set_or_store : Value → Place → Value → State → State
set_or_store c p v s = elim (s.abstract v) [
  | some a ↦ record s { operand = set_abstract c p a s.operand }
  | none ↦ record s { places = update v (s.places v ++ ((c, p) ∷ [])) s.places }
]

abbrev pub visit_place : Value → Place → State → State
visit_place c (with_taint_at t p b) s = set_or_store c (with_taint_at t p b) (s.operand c p) s
visit_place c (abstract_at p b) s = set_or_store c (abstract_at p b) (s.operand c p) s
visit_place c (concrete_at p) s = s

unfoldable pub visit_places : Value → List Place → State → State
unfolding set_or_store
visit_places c [] s = s
visit_places c (p ∷ ps) s = visit_places c ps (visit_place c p s)

abbrev pub is_unstash_taint : Kind → Bool
is_unstash_taint unstash_taint = true
is_unstash_taint _ = false

-- `ir` gives LLVM's answers but on operands, which change. Which uses of a replaced value the loop over them comes to is
-- given, since it changes the list that it goes over.
module _ (ir : Ir) (reached : (Value → ℕ → Value) → (replaced call user : Value) → ℕ → Bool) where
  abbrev pub now : State → Ir
  now s = record ir { operand = s.operand }

  -- `make_intrinsic`, given the operands.
  unfoldable pub new_call : List Value → State → State
  new_call vs s = record s {
    fresh = suc s.fresh;
    operand = λ u i. if u == s.fresh then nth vs i (s.operand u i) else s.operand u i;
  }

  unfoldable pub make_intrinsic : Operation → State → Run State
  unfolding new_call
  make_intrinsic o s = do
    lifter ← lifter_name (now s) o
    vs ←
        duplicated_arguments (now s) (λ v. elim (s.shadows v) [ none ↦ ir.i1 false | some w ↦ w ]) o
    done (new_call (call_operands o.kind (ir.function_value lifter) vs) s)

  -- The shadow that an `unstash_taint` yields.
  unfoldable pub keep_shadow : Operation → Value → State → State
  keep_shadow o c s = record s {
    shadows = elim o.kind [ unstash_taint ↦ update o.what (some c) s.shadows | _ ↦ s.shadows ];
  }

  unfoldable pub keep_abstract : ℕ → Operation → Value → State → Option (Run State)
  unfolding put propagate returns_value
  keep_abstract fuel o c s =
      if returns_value o && not (is_unstash_taint o.kind) && not (faultable (now s) o)
      then propagate fuel o.what (put o.what c s)
      else some (done s)

  -- What `m[ v ]` reads, and the map after it.
  abbrev pub at_key : Value → (Value → Option Value) → Value
  at_key v m = elim (m v) [ none ↦ ir.nullptr | some a ↦ a ]

  abbrev pub with_key : Value → (Value → Option Value) → Value → Option Value
  with_key v m = update v (some (at_key v m)) m

  -- The call of a faulting operation gets what was generated for the instruction before.
  unfoldable pub link_faultable : Operation → Value → State → State
  unfolding returns_value
  link_faultable o c s =
      let linked = returns_value o && faultable (now s) o in
      record s {
        abstract =
            if linked
            then update c (some (at_key o.what s.abstract)) (with_key o.what s.abstract)
            else s.abstract;
        shadows =
            if linked
            then update c (some (at_key o.what s.shadows)) (with_key o.what s.shadows)
            else s.shadows;
      }

  unfoldable pub fill_places : Operation → List Argument → Value → State → State
  unfolding visit_places paired_view any_abstract
  fill_places o args c s =
      if has_taints o.kind || any_abstract args
      then visit_places c (paired_view o.kind args) s
      else s

  unfoldable pub replace_uses : Value → Value → State → State
  replace_uses re c s = record s {
    operand = λ u i.
        if s.operand u i == re && not (u == c) && reached s.operand re c u i
        then c
        else s.operand u i;
  }

  unfoldable pub replace : Operation → Value → State → State
  unfolding replace_uses
  replace o c s = elim (replaces (now s) o) [ none ↦ s | some re ↦ replace_uses re c s ]

  unfoldable pub process_call : ℕ → Operation → State → Option (Run State)
  unfolding make_intrinsic keep_shadow keep_abstract link_faultable fill_places replace
  process_call fuel o s = some (make_intrinsic o s) then_do λ made.
      keep_abstract fuel o s.fresh (keep_shadow o s.fresh made) then_do λ kept. some (
        arguments (now kept) o >>= λ args.
        done (replace o s.fresh (fill_places o args s.fresh (link_faultable o s.fresh kept))))

  unfoldable pub process_identity : ℕ → Operation → State → Option (Run State)
  unfolding propagate
  process_identity fuel o s =
      propagate fuel (s.operand o.what 0)
        (record s { identity = update (s.operand o.what 0) (some o.what) s.identity })

  unfoldable pub process : ℕ → Operation → State → Option (Run State)
  unfolding process_identity process_call
  process fuel o s = elim o.kind [
    | identity ↦ process_identity fuel o s
    | phi ↦ some (done s)
    | _ ↦ process_call fuel o s
  ]

  unfoldable pub process_all : ℕ → List Operation → State → Option (Run State)
  unfolding process
  process_all fuel [] s = some (done s)
  process_all fuel (o ∷ os) s = process fuel o s then_do λ s'. process_all fuel os s'
