-- ===== src/Lava/Sign/Branch.antt =====
-- What a branch on a sign of lava/include/lava/sign.hpp learns: `to_tristate`, `assume` and the backward
-- operations.
use lart.Common.{
  ℕ, ◌≡◌, refl, Bool, true, false, ◌&&◌, not, Bool-cases, inl, inr, some, if◌then◌else◌, arith,
}
use lart.Common.Int.{ℤ, pos, negsuc, ◌≤ℤ◌, ◌<ℤ◌}
use lart.Lava.Tristate.{Tristate, false_value, true_value, maybe_value}
use lart.Lava.Tristate.Meaning.{Denotes}
use lart.Lava.Sign.{
  Sign, bot, ltz, gtz, eqz, nez, tru, BinaryOp, apply, assume, to_tristate, setminus, bop_sgt,
  bop_ne, gtz, gez, lez, top, is_tru, from_bool,
}
use lart.Lava.Sign.Meaning.{contains, Contains, truth}
use lart.Lava.Sign.Soundness.{Yields, skipped, apply_sound}
use lart.Lava.Sign.Lattice.{eqz_nez, setminus_exact, lattice_exact}

pick : Sign → Bool → ℤ
pick s true = if contains s (pos 1) then pos 1 else negsuc 0
pick s false = pos 0

-- On a sign that holds an integer `to_tristate` answers, and the answer stands for exactly the truth
-- values of the integers that the sign holds.
pub to_tristate_exact :
    (s : Sign) (x : ℤ)
    → Contains s x
    → (t : Tristate) × (to_tristate s ≡ some t)
      × Denotes t (truth x)
      × ((b : Bool) → Denotes t b → (y : ℤ) × Contains s y × (truth y ≡ b))
unfolding to_tristate pick
to_tristate_exact bot x h = absurd (cc)
to_tristate_exact ltz x h =
    (true_value, refl, ground arith, λ b d. (pick ltz b, ground arith, ground arith))
to_tristate_exact gtz x h =
    (true_value, refl, ground arith, λ b d. (pick gtz b, ground arith, ground arith))
to_tristate_exact eqz x h =
    (false_value, refl, ground arith, λ b d. (pick eqz b, ground arith, ground arith))
to_tristate_exact nez x h =
    (true_value, refl, ground arith, λ b d. (pick nez b, ground arith, ground arith))
to_tristate_exact gez x h =
    (maybe_value, refl, ground arith, λ b d. (pick gez b, ground arith, ground arith))
to_tristate_exact lez x h =
    (maybe_value, refl, ground arith, λ b d. (pick lez b, ground arith, ground arith))
to_tristate_exact top x h =
    (maybe_value, refl, ground arith, λ b d. (pick top b, ground arith, ground arith))

-- A branch on the result of an operation: `to_tristate` answers, and allows the truth value of every
-- integer that the operation may yield, for all operands but the addition of `nez` to `gtz`.
pub branch_sound :
    (o : BinaryOp) (a b : Sign) (x y z : ℤ)
    → skipped o a b ≡ false
    → Contains a x
    → Contains b y
    → Yields o x y z
    → (t : Tristate) × (to_tristate (apply o a b) ≡ some t) × Denotes t (truth z)
branch_sound o a b x y z s hx hy hz =
    let (t, answers, allows, _) =
      to_tristate_exact (apply o a b) z (apply_sound o a b x y z s hx hy hz) in
    (t, answers, allows)

-- `assume` keeps only integers of the sign with the truth value assumed, and of those all that are
-- not negative.
pub assume_refines :
    (s : Sign) (c : Bool) (x : ℤ)
    → (Contains (assume s c) x → Contains s x × (truth x ≡ c))
      × (Contains s x → truth x ≡ c → pos 0 ≤ℤ x → Contains (assume s c) x)
unfolding assume
assume_refines s c x =
    let exact = (lattice_exact s (from_bool c) x).0 in
    (λ h. ground (arith, exact), λ h t n. ground (arith, exact))

-- The two readings of a truth value differ below 0: `to_tristate` answers that the sign `ltz` is true,
-- and assuming that a sign is true drops every negative integer from it.
pub assume_negative :
    (s : Sign) (n : ℕ)
    → Contains s (negsuc n)
    → (contains (assume s true) (negsuc n) ≡ false) × (to_tristate ltz ≡ some true_value)
unfolding assume to_tristate
assume_negative s n h = ground (arith, (lattice_exact s gtz (negsuc n)).0)

-- The backward operations change the left operand only, and only for the result `tru`, when they take
-- the right operand from it; `eqz` less `nez` is left out.
bop_exact :
    (r a b : Sign) (x : ℤ)
    → eqz_nez a b ≡ false
    → (bop_sgt r a b ≡ bop_ne r a b)
      × ((bop_sgt r a b).1 ≡ b)
      × (contains (bop_sgt r a b).0 x ≡ (contains a x && not (is_tru r && contains b x)))
unfolding bop_sgt bop_ne
bop_exact r a b x h = ground (arith, setminus_exact a b x h)

-- Learning that the left operand is the greater one loses integers: one that both operands hold is
-- taken from the left operand, even where it is greater than some integer of the right one.
pub bop_sgt_loses :
    (a b : Sign) (x y : ℤ)
    → Contains a x
    → Contains b x
    → Contains b y
    → y <ℤ x
    → contains (bop_sgt tru a b).0 x ≡ false
unfolding bop_sgt
bop_sgt_loses a b x y ha hb hy lt = elim (Bool-cases (eqz_nez a b)) [
  | inl e ↦ unfold setminus in ground arith
  | inr e ↦ ground (arith, setminus_exact a b x e)
]
