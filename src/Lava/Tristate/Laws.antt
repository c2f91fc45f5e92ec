-- ===== src/Lava/Tristate/Laws.antt =====
-- The connectives of lava/include/lava/support/tristate.hpp against the values that they stand for.
use lart.Common.{◌≡◌, ◌↔◌, Bool, true, ◌&&◌, ◌||◌, not, arith}
use lart.Lava.Tristate.{
  Tristate, false_value, true_value, maybe_value, lift, not_t, and_t, or_t, eq_t, ne_t, lower,
}
use lart.Lava.Tristate.Meaning.{denotes, Denotes, same, outcome}

-- For every pair of tristates the results of `&&`, `||` and `==` stand for exactly the outcomes of
-- the Boolean operation on the values that the operands stand for, and `!` for the negated values.
pub connectives_exact :
    (a b : Tristate) (c : Bool)
    → (denotes (and_t a b) c ≡ outcome ◌&&◌ a b c)
      × (denotes (or_t a b) c ≡ outcome ◌||◌ a b c)
      × (denotes (eq_t a b) c ≡ outcome same a b c)
      × (denotes (not_t a) c ≡ denotes a (not c))
unfolding and_t or_t eq_t not_t
connectives_exact a b c = ground arith

-- On definite operands `!=` yields "not both true": it says that `false` differs from `false`.
pub ne_t-lift : (x y : Bool) → ne_t (lift x) (lift y) ≡ lift (not (x && y))
unfolding ne_t lift
ne_t-lift x y = ground arith

-- A tristate stands for a value exactly if some choice makes `lower` return it.
lower_iff : (t : Tristate) (b : Bool) → Denotes t b ↔ ((choice : Bool) × (lower choice t ≡ b))
unfolding lower
lower_iff false_value b = (λ h. (true, ground arith), λ p. ground arith)
lower_iff true_value b = (λ h. (true, ground arith), λ p. ground arith)
lower_iff maybe_value b = (λ h. (b, ground arith), λ p. ground arith)
