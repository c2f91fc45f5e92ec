-- ===== src/Lartcc/Generators/Reach.antt =====
-- The values that the work list of lartcc/include/cc/roots.hpp meets, and the map of roots.
use mathlib.Core.List.Memᴰ
use lart.Common.{
  ℕ, ◌+◌, ◌≡◌, ◌≢◌, refl, ap, subst, ◌⊎◌, inl, inr, false, ◌==◌, if◌then◌else◌, Bool-cases, Option,
  none, some, List, [], ◌∷◌, ◌++◌, Memᴰ, arith,
}
use lart.Lartcc.Dataflow.{Value, Kind}
use lart.Lartcc.Generators.{Roots, register, Module, Case, follow, root, unmatched, case_of}

-- The kind that a call is registered with.
abbrev pub kind_of : Roots → Value → Option Kind
kind_of [] c = none
kind_of ((r, k) ∷ rs) c = if r == c then some k else kind_of rs c

pub register_same : (c : Value) (k : Kind) (rs : Roots) → kind_of (register c k rs) c ≡ some k
unfolding register
register_same c k [] = ground arith
register_same c k ((r, j) ∷ rs) = elim (Bool-cases (r == c)) [
  | inl e ↦ rw e (rw e refl)
  | inr e ↦ rw e (rw e (register_same c k rs))
]

pub register_other :
    (v c : Value) (k : Kind) (rs : Roots) → v ≢ c → kind_of (register v k rs) c ≡ kind_of rs c
unfolding register
register_other v c k [] ne = ground arith
register_other v c k ((r, j) ∷ rs) ne = elim (Bool-cases (r == v)) [
  | inl e ↦ let other : (r == c) ≡ false = ground arith in rw (e, other) refl
  | inr e ↦ rw e (ap (λ o. if r == c then some j else o) (register_other v c k rs ne))
]

-- The values that the work list meets, from those that it holds.
pub data Reaches (m : Module) (queue : List Value) : Value → Type 0 where
  direct : (v : Value) → Memᴰ v queue → Reaches m queue v
  through :
      (w v : Value)
      → Reaches m queue w
      → case_of (m.class w) ≡ follow
      → Memᴰ v (m.users w)
      → Reaches m queue v

-- A call that is met.
abbrev pub IsFound : Module → List Value → Value → Type 0
IsFound m queue c = Reaches m queue c × (case_of (m.class c) ≡ root)

abbrev pub total : (Value → ℕ) → List Value → ℕ
total cost [] = 0
total cost (v ∷ vs) = cost v + total cost vs

pub total-append :
    (cost : Value → ℕ) (us vs : List Value) → total cost (us ++ vs) ≡ total cost us + total cost vs
total-append cost [] vs = omega arith
total-append cost (u ∷ us) vs = omega (arith, total-append cost us vs)

module _ (m : Module) (v : Value) (queue rest : List Value) where
  pub front :
      ((x : Value) → Memᴰ x queue → Memᴰ x rest)
      → (case_of (m.class v) ≡ follow → (x : Value) → Memᴰ x (m.users v) → Memᴰ x rest)
      → (w : Value) → Reaches m (v ∷ queue) w
      → (w ≡ v) ⊎ Reaches m rest w
  front old new w (direct _ i) = elim (Memᴰ.cases_cons i) [
    | inl e ↦ inl e
    | inr n ↦ inr (direct w (old w n))
  ]
  front old new w (through u _ r f i) = elim (front old new u r) [
    | inl e ↦ inr (direct w (new (rw (← e) f) w (subst (λ x. Memᴰ w (m.users x)) e i)))
    | inr s ↦ inr (through u w s f i)
  ]

  pub behind :
      ((x : Value) → Memᴰ x rest → Reaches m (v ∷ queue) x)
      → (w : Value) → Reaches m rest w
      → Reaches m (v ∷ queue) w
  behind h w (direct _ i) = h w i
  behind h w (through u _ r f i) = through u w (behind h u r) f i

pub none_reached : (m : Module) (w : Value) → Reaches m [] w → ⊥
none_reached m w (direct _ i) = Memᴰ.not-nil i
none_reached m w (through u _ r f i) = none_reached m u r

pub Case-cases : (c : Case) → (c ≡ follow) ⊎ (c ≡ root) ⊎ (c ≡ unmatched)
Case-cases follow = inl refl
Case-cases root = inr (inl refl)
Case-cases unmatched = inr (inr refl)

module _ (m : Module) (v : Value) (queue : List Value) where
  -- A value at the front that is no root leads to no other calls than those behind it.
  pub skip_front :
      (rest : List Value) (c : Value)
      → case_of (m.class v) ≢ root
      → ((w : Value) → Reaches m (v ∷ queue) w → (w ≡ v) ⊎ Reaches m rest w)
      → IsFound m (v ∷ queue) c
      → IsFound m rest c
  skip_front rest c no_root f (r, k) = elim (f c r) [
    | inl e ↦ absurd (no_root (subst (λ x. case_of (m.class x) ≡ root) e k))
    | inr s ↦ (s, k)
  ]

  pub met : (x : Value) → Memᴰ x queue → Reaches m (v ∷ queue) x
  met x i = direct x (Memᴰ.tail i)

  pub met_user :
      case_of (m.class v) ≡ follow
      → (x : Value) → Memᴰ x (queue ++ m.users v)
      → Reaches m (v ∷ queue) x
  met_user f x i = elim (Memᴰ.append_cases queue i) [
    | inl n ↦ met x n
    | inr n ↦ through v x (direct v (Memᴰ.head refl)) f n
  ]
