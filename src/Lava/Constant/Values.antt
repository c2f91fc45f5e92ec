-- ===== src/Lava/Constant/Values.antt =====
-- Operations on the values of lava/include/lava/constant.hpp, and the branches on their results.
use lart.Common.{
  ℕ, ◌+◌, ◌<◌, ◌≤◌, ◌≡◌, ◌≢◌, ◌⊎◌, refl, ap, ◌∙◌, Bool, true, false, ◌||◌, if◌then◌else◌, ◌==◌,
  Bool-cases, inl, inr, done, cancelled, undefined, bind-done, arith,
}
use lart.Lava.Tristate.{false_value, true_value}
use lart.Lava.Constant.{
  bv, ptr, Constant, BinaryOp, add, call, is_fp, is_ptr, with_type, to_tristate, assume, set_bw,
}
use lart.Lava.Constant.Words.{Width, bits, modulus, word, Machine, Covered}
use lart.Lava.Constant.Soundness.{call_exact, add_narrow}

no_fp : (b : Bool) → is_fp (if b then ptr else bv) ≡ false
no_fp true = refl
no_fp false = refl

-- The operation on two numbers of a width that is a machine type's, neither of them floating, yields a number of
-- this width that stands for the machine's result on the words of the two: for `op_add`, `op_sub`, `op_mul` at a
-- width other than 16, `op_udiv` and `op_urem` where the second word is not 0, and the unsigned
-- comparisons. The values themselves may have bits above their width.
pub with_type_exact :
    (w : Width) (op : BinaryOp) (a b : Constant)
    → a.bw ≡ bits w
    → b.bw ≡ bits w
    → is_fp a.ty ≡ false
    → is_fp b.ty ≡ false
    → Covered w op (word w b.value)
    → (c : Constant) × (with_type op a b ≡ done c)
      × (c.bw ≡ bits w)
      × (is_fp c.ty ≡ false)
      × Machine (modulus w) op (word w a.value) (word w b.value) (word w c.value)
unfolding with_type
with_type_exact w op a b ha hb fa fb k =
    let (r, e, m) = call_exact w op a.value b.value k in
    let same : (a.bw == b.bw) ≡ true = ground arith in
    (
      record { value = r; ty = if is_ptr a.ty || is_ptr b.ty then ptr else bv; bw = a.bw },
      rw (same, fa, fb)
          (bind-done
            (λ v. done (record {
              value = v;
              ty = if is_ptr a.ty || is_ptr b.ty then ptr else bv;
              bw = a.bw;
            }))
            (ap (λ n. call op n a.value b.value) ha ∙ e)),
      ha,
      no_fp (is_ptr a.ty || is_ptr b.ty),
      m,
    )

-- As written, a carry out of a width below 32 bits stays in the value, so that a sum whose word is 0 is taken for
-- true: for two numbers of width 8 or 16, neither of them floating, whose words add up to
-- the modulus.
pub carry_true :
    (w : Width) (a b : Constant)
    → bits w < 32
    → a.bw ≡ bits w
    → b.bw ≡ bits w
    → is_fp a.ty ≡ false
    → is_fp b.ty ≡ false
    → word w a.value + word w b.value ≡ modulus w
    → (c : Constant) × (with_type add a b ≡ done c)
      × (word w c.value ≡ 0)
      × (to_tristate c ≡ true_value)
unfolding with_type to_tristate
carry_true w a b n ha hb fa fb s =
    let (e, z, t) = add_narrow w a.value b.value n s in
    let same : (a.bw == b.bw) ≡ true = ground arith in
    let c : Constant = record {
      value = modulus w;
      ty = if is_ptr a.ty || is_ptr b.ty then ptr else bv;
      bw = a.bw;
    } in
    (
      c,
      rw (same, fa, fb)
          (bind-done
            (λ v. done (record {
              value = v;
              ty = if is_ptr a.ty || is_ptr b.ty then ptr else bv;
              bw = a.bw;
            }))
            (ap (λ k. call add k a.value b.value) ha ∙ e)),
      z,
      t,
    )

-- As written, `op_trunc`, `op_zext` and `op_zfit` keep the width that the value had: an operation on their result and a
-- number of the width that was asked for fails its assertion, if the two widths differ.
pub resized_undefined :
    (op : BinaryOp) (c d : Constant) (n : ℕ)
    → c.bw ≢ n
    → d.bw ≡ n
    → with_type op (set_bw c n) d ≡ undefined
unfolding with_type set_bw
resized_undefined op c d n h k =
    let differ : (c.bw == d.bw) ≡ false = ground arith in rw differ refl

-- `assume` keeps the value 0 on false and the value 1 on true, and gives both branches up on any other value, which
-- `to_tristate` takes for true.
pub assume_exact :
    (c : Constant)
    → ((c.value ≡ 0)
        × (to_tristate c ≡ false_value)
        × (assume c false ≡ done c)
        × (assume c true ≡ cancelled))
      ⊎ ((c.value ≡ 1)
          × (to_tristate c ≡ true_value)
          × (assume c true ≡ done c)
          × (assume c false ≡ cancelled))
      ⊎ ((2 ≤ c.value)
          × (to_tristate c ≡ true_value)
          × (assume c true ≡ cancelled)
          × (assume c false ≡ cancelled))
unfolding to_tristate assume
assume_exact c = elim (Bool-cases (c.value == 0)) [
  | inl z ↦
      let none : c.value ≡ 0 = ground arith in
      let not_one : (c.value == 1) ≡ false = ground arith in
      inl (none, rw z refl, rw z refl, rw not_one refl)
  | inr z ↦ elim (Bool-cases (c.value == 1)) [
    | inl o ↦
        let one : c.value ≡ 1 = ground arith in inr (inl (one, rw z refl, rw o refl, rw z refl))
    | inr o ↦
        let more : 2 ≤ c.value = ground arith in inr (inr (more, rw z refl, rw o refl, rw z refl))
  ]
]
