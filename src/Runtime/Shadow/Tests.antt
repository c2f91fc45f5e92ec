-- ===== src/Runtime/Shadow/Tests.antt =====
-- Runs of runtime/native/shadow.cpp on a small memory.
use lart.Common.{◌≡◌, refl, arith, false, none, some, [], ◌∷◌}
use lart.Runtime.Shadow.{
  Memory, info, poke, peek, create_shadow_label, set_shadow_label, set_bytes, set_byte,
}
use lart.Runtime.Shadow.Peek.{IsWellLabelled, peek-poke}
use lart.Runtime.Shadow.Labels.{poke-IsWellLabelled}

-- The memory after `setup_shadow`.
abbrev empty_memory : Memory
empty_memory = record {
  shadow = λ x. none;
  shadow_info = [];
  frames = [] ∷ [];
  allocated = λ x. false;
}

empty-IsWellLabelled : IsWellLabelled empty_memory
empty-IsWellLabelled = record {
  numbered = λ l h. refl;
  known = λ x l h. absurd (cc);
  given = λ x l h. absurd (cc);
}

-- The value 7 at the bytes 100 to 103, and 9 at the bytes 104 to 107.
abbrev two_values : Memory
two_values = poke 104 4 9 (poke 100 4 7 empty_memory)

two_values-IsWellLabelled : IsWellLabelled two_values
two_values-IsWellLabelled =
    poke-IsWellLabelled 104 4 9 (poke 100 4 7 empty_memory)
      (poke-IsWellLabelled 100 4 7 empty_memory empty-IsWellLabelled (omega arith)) (omega arith)

-- A read from the middle of the first value steps over all of the second.
peek_skips : peek 10 102 4 two_values ≡ some (info 7 100 4 ∷ [])
unfolding peek poke
peek_skips = refl

peek-poke_example : peek 1 200 2 (poke 200 4 5 two_values) ≡ some (info 5 200 4 ∷ [])
peek-poke_example =
    peek-poke 0 200 4 2 5 two_values two_values-IsWellLabelled
      (unfold poke create_shadow_label set_shadow_label set_bytes set_byte in omega arith)
      (omega arith) (λ e. ground (arith, e)) (omega arith) (omega arith)

poke-IsWellLabelled_example : IsWellLabelled (poke 200 4 5 two_values)
poke-IsWellLabelled_example =
    poke-IsWellLabelled 200 4 5 two_values two_values-IsWellLabelled (omega arith)
