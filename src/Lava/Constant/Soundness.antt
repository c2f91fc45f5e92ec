-- ===== src/Lava/Constant/Soundness.antt =====
-- `call` of the unsigned operations of lava/include/lava/constant.hpp computes the machine's words.
use native.Mathlib.Nat.{mod-lt, div-le_self, mul-le-mul}
use lart.Common.{
  ℕ, zero, ◌+◌, ◌-◌, ◌*◌, ◌/◌, ◌%◌, ◌<◌, ◌≤◌, ◌^◌, ◌≡◌, refl, ap, Bool, true, false, not,
  if◌then◌else◌, ltb, leb, ◌==◌, done, ◌>>=◌, ◌∙◌, arith,
}
use lart.Common.Int.{eq_ℤ, pos, ◌+ℤ◌, ◌-ℤ◌, ◌*ℤ◌, ◌/ℤ◌, ◌%ℤ◌}
use lart.Lava.Tristate.{false_value, true_value}
use lart.Lava.Constant.{
  BinaryOp, add, sub, mul, udiv, urem, eq, ne, ult, ugt, ule, uge, sdiv, srem, and, or, xor, slt,
  sgt, sle, sge, call, wrap, operate, finish, of_bool, is_signed,
}
use lart.Lava.Constant.Words.{
  Width, w8, w16, w32, w64, bits, modulus, word, number_of, Machine, Covered,
}

call-add :
    (w : Width) (v u : ℕ)
    → (r : ℕ) × (call add (bits w) v u ≡ done r) × (word w r ≡ (word w v + word w u) % modulus w)
unfolding call ◌+ℤ◌
call-add w8 v u = (word w8 v + word w8 u, ground arith, omega arith)
call-add w16 v u = (word w16 v + word w16 u, ground arith, omega arith)
call-add w32 v u = ((word w32 v + word w32 u) % 2 ^ 32, ground arith, omega arith)
call-add w64 v u = ((word w64 v + word w64 u) % 2 ^ 64, ground arith, omega arith)

-- Existence of the result, whatever number it is.
call-sub :
    (w : Width) (v u : ℕ)
    → (r : ℕ) × (call sub (bits w) v u ≡ done r)
      × (word w r ≡ (word w v + modulus w - word w u) % modulus w)
unfolding call ◌-ℤ◌
call-sub w8 v u = (wrap 64 (pos (word w8 v) -ℤ pos (word w8 u)), ground arith, ground arith)
call-sub w16 v u = (wrap 64 (pos (word w16 v) -ℤ pos (word w16 u)), ground arith, ground arith)
call-sub w32 v u =
    (wrap 64 (pos (wrap 32 (pos (word w32 v) -ℤ pos (word w32 u)))), ground arith, ground arith)
call-sub w64 v u =
    (wrap 64 (pos (wrap 64 (pos (word w64 v) -ℤ pos (word w64 u)))), ground arith, ground arith)

call-mul :
    (w : Width) (v u : ℕ)
    → Covered w mul (word w u)
    → (r : ℕ) × (call mul (bits w) v u ≡ done r) × (word w r ≡ (word w v * word w u) % modulus w)
unfolding call ◌*ℤ◌
call-mul w8 v u h =
    let small : word w8 v * word w8 u ≤ 255 * 255 =
      mul-le-mul {n₂ = 255} {m₂ = 255} (omega arith) (omega arith) in
    (word w8 v * word w8 u, ground arith, ground arith)
call-mul w16 v u h = absurd h
call-mul w32 v u h = ((word w32 v * word w32 u) % 2 ^ 32, ground arith, ground arith)
call-mul w64 v u h = ((word w64 v * word w64 u) % 2 ^ 64, ground arith, ground arith)

-- An unsigned operation works on the words.
unsigned :
    (w : Width) (op : BinaryOp) (v u : ℕ)
    → is_signed op ≡ false
    → call op (bits w) v u
      ≡ (operate (bits w) op (pos (word w v)) (pos (word w u)) >>= finish false (bits w))
unfolding call ◌+ℤ◌ ◌-ℤ◌ ◌*ℤ◌ ◌/ℤ◌ ◌%ℤ◌
unsigned w8 op v u h = rw h refl
unsigned w16 op v u h = rw h refl
unsigned w32 op v u h = rw h refl
unsigned w64 op v u h = rw h refl

-- A result that is a word is not changed.
settled : (w : Width) (r : ℕ) → r < modulus w → finish false (bits w) (pos r) ≡ done r
settled w8 r h = ground arith
settled w16 r h = ground arith
settled w32 r h = ground arith
settled w64 r h = ground arith

word_id : (w : Width) (r : ℕ) → r < modulus w → word w r ≡ r
word_id w8 r h = omega arith
word_id w16 r h = omega arith
word_id w32 r h = omega arith
word_id w64 r h = omega arith

word-less : (w : Width) (v : ℕ) → word w v < modulus w
word-less w8 v = omega arith
word-less w16 v = omega arith
word-less w32 v = omega arith
word-less w64 v = omega arith

one_less : (w : Width) → 1 < modulus w
one_less w8 = omega arith
one_less w16 = omega arith
one_less w32 = omega arith
one_less w64 = omega arith

-- A comparison.
decided :
    (w : Width) (b : Bool)
    → (r : ℕ) × (finish false (bits w) (of_bool b) ≡ done r) × (word w r ≡ number_of b)
decided w true = (1, settled w 1 (one_less w), word_id w 1 (one_less w))
decided w false =
    (0, settled w 0 (omega (arith, one_less w)), word_id w 0 (omega (arith, one_less w)))

call-udiv :
    (w : Width) (v u : ℕ)
    → zero < word w u
    → (r : ℕ) × (call udiv (bits w) v u ≡ done r) × (word w r ≡ word w v / word w u)
unfolding ◌/ℤ◌
call-udiv w v u h =
    let small : word w v / word w u < modulus w =
      omega (arith, div-le_self (word w v) (word w u), word-less w v) in
    let nonzero : eq_ℤ (pos (word w u)) (pos 0) ≡ false = ground arith in
    (
      word w v / word w u,
      unsigned w udiv v u refl ∙ rw nonzero (settled w (word w v / word w u) small),
      word_id w (word w v / word w u) small,
    )

call-urem :
    (w : Width) (v u : ℕ)
    → zero < word w u
    → (r : ℕ) × (call urem (bits w) v u ≡ done r) × (word w r ≡ word w v % word w u)
unfolding ◌%ℤ◌
call-urem w v u h =
    let small : word w v % word w u < modulus w =
      omega (arith, mod-lt (word w v) h, word-less w u) in
    let nonzero : eq_ℤ (pos (word w u)) (pos 0) ≡ false = ground arith in
    (
      word w v % word w u,
      unsigned w urem v u refl ∙ rw nonzero (settled w (word w v % word w u) small),
      word_id w (word w v % word w u) small,
    )

compared :
    (w : Width) (op : BinaryOp) (v u : ℕ) (b : Bool)
    → is_signed op ≡ false
    → operate (bits w) op (pos (word w v)) (pos (word w u)) ≡ done (of_bool b)
    → (r : ℕ) × (call op (bits w) v u ≡ done r) × (word w r ≡ number_of b)
compared w op v u b h e =
    let (r, d, k) = decided w b in
    (r, unsigned w op v u h ∙ ap (λ o. o >>= finish false (bits w)) e ∙ d, k)

pub call_exact :
    (w : Width) (op : BinaryOp) (v u : ℕ)
    → Covered w op (word w u)
    → (r : ℕ) × (call op (bits w) v u ≡ done r)
      × Machine (modulus w) op (word w v) (word w u) (word w r)
call_exact w add v u c = call-add w v u
call_exact w sub v u c = call-sub w v u
call_exact w mul v u c = call-mul w v u c
call_exact w udiv v u c = call-udiv w v u c
call_exact w urem v u c = call-urem w v u c
call_exact w eq v u c = compared w eq v u (word w v == word w u) refl (ground arith)
call_exact w ne v u c = compared w ne v u (not (word w v == word w u)) refl (ground arith)
call_exact w ult v u c = compared w ult v u (ltb (word w v) (word w u)) refl (ground arith)
call_exact w ugt v u c = compared w ugt v u (ltb (word w u) (word w v)) refl (ground arith)
call_exact w ule v u c = compared w ule v u (leb (word w v) (word w u)) refl (ground arith)
call_exact w uge v u c = compared w uge v u (leb (word w u) (word w v)) refl (ground arith)
call_exact w sdiv v u c = absurd c
call_exact w srem v u c = absurd c
call_exact w and v u c = absurd c
call_exact w or v u c = absurd c
call_exact w xor v u c = absurd c
call_exact w slt v u c = absurd c
call_exact w sgt v u c = absurd c
call_exact w sle v u c = absurd c
call_exact w sge v u c = absurd c

-- A carry stays in the value.
pub add_narrow :
    (w : Width) (v u : ℕ)
    → bits w < 32
    → word w v + word w u ≡ modulus w
    → (call add (bits w) v u ≡ done (modulus w))
      × (word w (modulus w) ≡ 0)
      × ((if modulus w == 0 then false_value else true_value) ≡ true_value)
unfolding call ◌+ℤ◌
add_narrow w8 v u n s = (ground arith, refl, refl)
add_narrow w16 v u n s = (ground arith, refl, refl)
add_narrow w32 v u n s = absurd (omega (arith, n))
add_narrow w64 v u n s = absurd (omega (arith, n))
