-- ===== src/Runtime/Choose/Answers.antt =====
-- Which answers runtime/native/choose.cpp explores.
use lart.Common.{
  ℕ, zero, suc, ◌-◌, ◌<◌, ◌≡◌, ◌⊎◌, inl, inr, refl, ap, arith, [], ◌∷◌, length, length-append, Memᴰ,
  ◌↔◌,
}
use mathlib.Core.List.Memᴰ
use lart.Runtime.Choose.{fork_choose_dec, inc_children, fork_choose_inc}

dec_below : (n x : ℕ) → Memᴰ x (fork_choose_dec n) → x < n
unfolding fork_choose_dec
dec_below zero x m = absurd (Memᴰ.not-nil m)
dec_below (suc zero) x (Memᴰ.head e) = omega (arith, e)
dec_below (suc zero) x (Memᴰ.tail m) = absurd (Memᴰ.not-nil m)
dec_below (suc (suc n)) x (Memᴰ.head e) = omega (arith, e)
dec_below (suc (suc n)) x (Memᴰ.tail m) = omega (arith, dec_below (suc n) x m)

dec_all : (n x : ℕ) → x < n → Memᴰ x (fork_choose_dec n)
unfolding fork_choose_dec
dec_all zero x h = absurd (ground (arith, h))
dec_all (suc zero) x h = Memᴰ.head (omega (arith, h))
dec_all (suc (suc n)) x h = elim (last_or x (suc n) h) [
  | inl e ↦ Memᴰ.head e
  | inr l ↦ Memᴰ.tail (dec_all (suc n) x l)
]
  where
    last_or : (x n : ℕ) → x < suc n → (x ≡ n) ⊎ (x < n)
    last_or x n h = ground (arith, h)

dec_length : (n : ℕ) → length (fork_choose_dec n) ≡ n
unfolding fork_choose_dec
dec_length zero = refl
dec_length (suc zero) = refl
dec_length (suc (suc n)) = ap suc (dec_length (suc n))

-- For a count above 0, `fork_choose_dec( count )` explores every answer below `count`, and no other, each once:
-- there are `count` of them.
pub fork_choose_dec_explores :
    (count x : ℕ)
    → 0 < count
    → (Memᴰ x (fork_choose_dec count) ↔ (x < count)) × (length (fork_choose_dec count) ≡ count)
fork_choose_dec_explores count x p = ((dec_below count x, dec_all count x), dec_length count)

inc_children-same : (left count x : ℕ) → Memᴰ x (inc_children left count) → x ≡ count - 1
unfolding inc_children
inc_children-same zero count x m = absurd (Memᴰ.not-nil m)
inc_children-same (suc left) count x (Memᴰ.head e) = e
inc_children-same (suc left) count x (Memᴰ.tail m) = inc_children-same left count x m

inc_children-length : (left count : ℕ) → length (inc_children left count) ≡ left
unfolding inc_children
inc_children-length zero count = refl
inc_children-length (suc left) count = ap suc (inc_children-length left count)

-- `fork_choose_inc( count )` forks as many processes as there are answers, but all of them answer `count - 1`.
pub fork_choose_inc_repeats :
    (count x : ℕ)
    → 0 < count
    → Memᴰ x (fork_choose_inc count)
    → (x ≡ count - 1) × (length (fork_choose_inc count) ≡ count)
unfolding fork_choose_inc
fork_choose_inc_repeats count x p m = (
  answer (Memᴰ.append_cases (inc_children (count - 1) count) m),
  omega (
    arith,
    p,
    length-append (inc_children (count - 1) count) ((count - 1) ∷ []),
    inc_children-length (count - 1) count,
  ),
)
  where
    answer : Memᴰ x (inc_children (count - 1) count) ⊎ Memᴰ x ((count - 1) ∷ []) → x ≡ count - 1
    answer (inl l) = inc_children-same (count - 1) count x l
    answer (inr r) = Memᴰ.eq_of_singleton r
