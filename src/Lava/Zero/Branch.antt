-- ===== src/Lava/Zero/Branch.antt =====
-- What a branch on a value of lava/include/lava/zero.hpp learns: `assume` and `to_tristate`.
use lart.Common.{
  ℕ, ◌≡◌, refl, Bool, true, false, Run, done, cancelled, undefined, arith, not, ◌&&◌, ◌==◌,
}
use lart.Lava.Tristate.{Tristate, false_value, true_value, maybe_value}
use lart.Lava.Tristate.Meaning.{Denotes, same}
use lart.Lava.Zero.{assume, to_tristate, Zero, zero, nonzero, unknown, bottom}
use lart.Lava.Zero.Words.{contains, Contains}

-- The words of a result, of which there are none where the path is given up.
abbrev pub keeps : Run Zero → ℕ → Bool
keeps (done r) x = contains r x
keeps cancelled x = false
keeps undefined x = false

-- Assuming a truth value of a value that stands for some word keeps exactly the words of the value with
-- that truth value.
pub zero_assume_exact :
    (z : Zero) (c : Bool) (w x : ℕ)
    → Contains z w
    → keeps (assume z c) x ≡ (contains z x && same (not (x == 0)) c)
unfolding assume
zero_assume_exact zero true w x h = ground arith
zero_assume_exact zero false w x h = ground arith
zero_assume_exact nonzero true w x h = ground arith
zero_assume_exact nonzero false w x h = ground arith
zero_assume_exact unknown true w x h = ground arith
zero_assume_exact unknown false w x h = ground arith
zero_assume_exact bottom c w x h = absurd (cc)

-- `to_tristate` gives the path up on `bottom` only, and otherwise allows the truth value of every word
-- of the value.
zero_to_tristate_sound :
    (z : Zero) (x : ℕ)
    → Contains z x
    → (t : Tristate) × (to_tristate z ≡ done t) × Denotes t (not (x == 0))
unfolding to_tristate
zero_to_tristate_sound zero x h = (false_value, refl, ground arith)
zero_to_tristate_sound nonzero x h = (true_value, refl, ground arith)
zero_to_tristate_sound unknown x h = (maybe_value, refl, ground arith)
zero_to_tristate_sound bottom x h = absurd (cc)
