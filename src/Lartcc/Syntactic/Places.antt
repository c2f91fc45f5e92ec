-- ===== src/Lartcc/Syntactic/Places.antt =====
-- The places for abstract values that lartcc/syntactic.cpp has made, and what filling them in does.
use mathlib.Core.List.Memᴰ
use mathlib.Core.Option.{some-injective}
use lart.Common.{
  ℕ, ◌≡◌, ◌≢◌, refl, subst, ◌∙◌, inl, inr, Option, none, some, List, [], ◌∷◌, Memᴰ, arith,
}
use lart.Lartcc.Dataflow.{Value}
use lart.Lartcc.Operation.{Place, with_taint_at, concrete_at, abstract_at}
use lart.Lartcc.Syntactic.{set_operand, set_abstract, patch}

-- An operand of a call that is to be the abstract value of a concrete one.
pub record Entry : Type 0 where
  pub call : Value
  pub position : ℕ
  pub concrete : Value

abbrev pub abstract_position : Place → Option ℕ
abstract_position (with_taint_at t p b) = some b
abstract_position (abstract_at p b) = some b
abstract_position (concrete_at p) = none

pub set_abstract_hit :
    (c : Value) (p : Place) (b : ℕ) (a : Value) (f : Value → ℕ → Value)
    → abstract_position p ≡ some b
    → set_abstract c p a f c b ≡ a
unfolding set_operand
set_abstract_hit c (with_taint_at t p d) b a f h =
    let same : d ≡ b = some-injective d b h in ground arith
set_abstract_hit c (abstract_at p d) b a f h =
    let same : d ≡ b = some-injective d b h in ground arith
set_abstract_hit c (concrete_at p) b a f h = absurd (cc h)

-- An operand that is written by no place keeps its value.
pub set_abstract_miss :
    (c : Value) (p : Place) (a : Value) (f : Value → ℕ → Value) (u : Value) (i : ℕ)
    → ((b : ℕ) → abstract_position p ≡ some b → c ≡ u → b ≢ i)
    → set_abstract c p a f u i ≡ f u i
unfolding set_operand
set_abstract_miss c (with_taint_at t p d) a f u i h = ground (arith, h d refl)
set_abstract_miss c (abstract_at p d) a f u i h = ground (arith, h d refl)
set_abstract_miss c (concrete_at p) a f u i h = refl

set_abstract_keeps :
    (c : Value) (p : Place) (a : Value) (f : Value → ℕ → Value) (u : Value) (i : ℕ)
    → f u i ≡ a
    → set_abstract c p a f u i ≡ a
unfolding set_operand
set_abstract_keeps c (with_taint_at t p d) a f u i h = ground arith
set_abstract_keeps c (abstract_at p d) a f u i h = ground arith
set_abstract_keeps c (concrete_at p) a f u i h = h

patch_keeps :
    (ps : List (Value × Place)) (a : Value) (f : Value → ℕ → Value) (u : Value) (i : ℕ)
    → f u i ≡ a
    → patch ps a f u i ≡ a
unfolding patch
patch_keeps [] a f u i h = h
patch_keeps ((c, p) ∷ ps) a f u i h =
    patch_keeps ps a (set_abstract c p a f) u i (set_abstract_keeps c p a f u i h)

pub patch_hit :
    (ps : List (Value × Place)) (a : Value) (f : Value → ℕ → Value) (c : Value) (p : Place) (b : ℕ)
    → Memᴰ (c, p) ps
    → abstract_position p ≡ some b
    → patch ps a f c b ≡ a
unfolding patch
patch_hit [] a f c p b m h = absurd (Memᴰ.not-nil m)
patch_hit ((d, q) ∷ ps) a f c p b m h = elim (Memᴰ.cases_cons m) [
  | inl e ↦
      patch_keeps ps a (set_abstract d q a f) c b
        (subst (λ x. set_abstract x.0 x.1 a f c b ≡ a) e (set_abstract_hit c p b a f h))
  | inr n ↦ patch_hit ps a (set_abstract d q a f) c p b n h
]

pub patch_miss :
    (ps : List (Value × Place)) (a : Value) (f : Value → ℕ → Value) (u : Value) (i : ℕ)
    → ((c : Value) (p : Place) (b : ℕ)
        → Memᴰ (c, p) ps
        → abstract_position p ≡ some b
        → c ≡ u
        → b ≢ i)
    → patch ps a f u i ≡ f u i
unfolding patch
patch_miss [] a f u i h = refl
patch_miss ((c, p) ∷ ps) a f u i h =
    patch_miss ps a (set_abstract c p a f) u i (λ d q b m. h d q b (Memᴰ.tail m))
    ∙ set_abstract_miss c p a f u i (λ b e. h c p b (Memᴰ.head refl) e)
