-- ===== src/Runtime/Stash/Tests.antt =====
-- The stacks on concrete calls.
use lart.Common.{ℕ, zero, suc, ◌≡◌, refl, true, false, List, [], ◌∷◌, done, arith}
use lart.Runtime.Stash.{stack, Stashes, Call, put, get_value, get_taint, value, taint, run}
use lart.Runtime.Stash.Slots.{Holds}
use lart.Runtime.Stash.Lifo.{run-answers, answers, fits}

repeat : {A : Type 0} → ℕ → A → List A
repeat zero x = []
repeat (suc n) x = x ∷ repeat n x

empty_Holds : {A : Type 0} (x : A) → Holds (stack (repeat 256 x) 0) []
unfolding repeat
empty_Holds x = record {
  size = refl;
  small = omega arith;
  fits = omega arith;
  slot = λ i y h. absurd (cc h);
}

abbrev fresh : Stashes
unfolding repeat
fresh = record { values = stack (repeat 256 0) 0; taints = stack (repeat 256 false) 0 }

abbrev calls : List Call
calls = put true 7 ∷ (put false 8 ∷ (get_value ∷ (get_taint ∷ (get_value ∷ (get_taint ∷ [])))))

run-answers_example :
    run calls fresh ≡ done (value 8 ∷ (taint false ∷ (value 7 ∷ (taint true ∷ []))))
unfolding answers fresh fits
run-answers_example = run-answers calls fresh [] [] (empty_Holds 0) (empty_Holds false) refl
