-- ===== src/Lartcc/Shadows/Taints.antt =====
-- What the shadows of lartcc/shadow.cpp tell at run time, and which values are meant to be tainted.
use mathlib.Core.Option.{some-injective}
use lart.Common.{
  ℕ, ◌<◌, ◌≡◌, refl, sym, subst, inl, inr, Bool, true, false, ◌||◌, ◌==◌, Bool-cases, Option, none,
  some, List, ◌∷◌, Memᴰ, done, arith,
}
use lart.Lartcc.Dataflow.{Value}
use lart.Lartcc.Selection.{
  Code, ShadowKind, forward, load_shadow, melt_shadow, arg, ret, operation_kind,
}
use lart.Lartcc.Shadows.{
  Shadow, bit, either, test_taint, slot, global_slot, given, null, is_null, Ops, or_of, keep,
  is_instruction,
}

-- The shadows that are bits.
abbrev pub IsBit : Shadow → Type 0
IsBit (slot v) = ⊥
IsBit (global_slot v) = ⊥
IsBit null = ⊥
IsBit _ = Unit

-- What a shadow is at run time: `tests` answers the tests of memory, and `gave` what was unstashed.
abbrev pub is_set : (tests : Value → ℕ → Bool) → (gave : Value → Bool) → Shadow → Bool
is_set tests gave (bit b) = b
is_set tests gave (either a b) = is_set tests gave a || is_set tests gave b
is_set tests gave (test_taint p n) = tests p n
is_set tests gave (given v) = gave v
is_set tests gave _ = false

bit-present : (x : Shadow) → IsBit x → is_null x ≡ false
bit-present (slot v) i = absurd i
bit-present (global_slot v) i = absurd i
bit-present null i = absurd i
bit-present (bit b) i = refl
bit-present (either a b) i = refl
bit-present (test_taint p n) i = refl
bit-present (given v) i = refl

pub or_of-bits : (x y : Shadow) → IsBit x → IsBit y → or_of x y ≡ done (either x y)
or_of-bits x y i j = rw (bit-present x i, bit-present y j) refl

abbrev pub IsForward : Code → Value → Type 0
IsForward m v = (operation_kind m v ≡ done (some forward)) × (is_instruction (m.class v) ≡ true)

-- The values that are tainted: those whose shadow was given and set, those that a load whose pointer is not abstract reads
-- from tainted memory, and the results of instructions on a tainted operand. A load through an abstract pointer is
-- not counted: `process_load` is marked TODO, and makes false.
pub data Tainted (m : Code) (bytes : Value → ℕ) (tests : Value → ℕ → Bool) (gave : Value → Bool)
    (first : Ops) : Value → Type 0 where
  was_given :
      (v : Value) (x : Shadow)
      → first v ≡ some x
      → is_set tests gave x ≡ true
      → Tainted m bytes tests gave first v
  was_read :
      (v : Value)
      → first v ≡ none
      → operation_kind m v ≡ done (some melt_shadow)
      → tests (m.pointer_operand v) (bytes v) ≡ true
      → Tainted m bytes tests gave first v
  was_made :
      (v w : Value)
      → first v ≡ none
      → IsForward m v
      → Memᴰ w (m.operands v)
      → Tainted m bytes tests gave first w
      → Tainted m bytes tests gave first v

-- The kinds of shadow that are bits and are made here.
abbrev pub IsBitKind : Option ShadowKind → Type 0
IsBitKind none = Unit
IsBitKind (some forward) = Unit
IsBitKind (some load_shadow) = Unit
IsBitKind (some melt_shadow) = Unit
IsBitKind (some arg) = Unit
IsBitKind (some ret) = Unit
IsBitKind (some _) = ⊥

-- The values that are asked for: no operation among them takes its own result, their shadows are bits, and that of a source
-- has been put in before.
pub record IsWell (m : Code) (first : Ops) (rank : Value → ℕ) (good : Value → Type 0) : Type 0 where
  pub has_kind :
      (v : Value)
      → good v
      → (k : Option ShadowKind) × (operation_kind m v ≡ done k)
        × (first v ≡ none → IsBitKind k)
        × (k ≡ none → first v ≡ none)
  pub has_operand :
      (v : Value)
      → good v
      → IsForward m v
      → (w : Value) × ((ws : List Value) × (m.operands v ≡ w ∷ ws))
  pub down :
      (v w : Value) → good v → IsForward m v → Memᴰ w (m.operands v) → good w × (rank w < rank v)
  pub first_bits : (v : Value) (x : Shadow) → first v ≡ some x → IsBit x

module _ (m : Code) (bytes : Value → ℕ) (tests : Value → ℕ → Bool) (gave : Value → Bool)
    (first : Ops) where
  -- A shadow tells whether a value is tainted.
  pub record Tells (v : Value) (x : Shadow) : Type 0 where
    pub is_bit : IsBit x
    pub sound : is_set tests gave x ≡ true → Tainted m bytes tests gave first v
    pub complete : Tainted m bytes tests gave first v → is_set tests gave x ≡ true

  -- The shadows made so far do.
  pub record IsSound (good : Value → Type 0) (ops : Ops) : Type 0 where
    pub told : (v : Value) (x : Shadow) → good v → ops v ≡ some x → Tells v x
    pub from_first : (v : Value) → ops v ≡ none → first v ≡ none

  pub keep-IsSound :
      (good : Value → Type 0) (ops : Ops) (v : Value) (x : Shadow)
      → IsSound good ops
      → Tells v x
      → IsSound good (keep v x ops)
  keep-IsSound good ops v x h t = record {
    told = λ u y g e. elim (Bool-cases (u == v)) [
      | inl same ↦
          let u_is : u ≡ v = ground arith in
          let y_is : x ≡ y = some-injective x y (rw same at e) in
          subst (λ w. Tells w y) (sym u_is) (subst (Tells v) y_is t)
      | inr other ↦ h.told u y g (rw other at e)
    ];
    from_first = λ u e. elim (Bool-cases (u == v)) [
      | inl same ↦ absurd (cc (rw same at e))
      | inr other ↦ h.from_first u (rw other at e)
    ];
  }
