-- ===== src/Runtime/Choose/Tests.antt =====
-- The answers of runtime/native/choose.cpp to a choice among three.
use lart.Common.{◌≡◌, refl, [], ◌∷◌}
use lart.Runtime.Choose.{fork_choose_dec, fork_choose_inc}

dec_runs : fork_choose_dec 3 ≡ 2 ∷ 1 ∷ 0 ∷ []
unfolding fork_choose_dec
dec_runs = refl

inc_runs : fork_choose_inc 3 ≡ 2 ∷ 2 ∷ 2 ∷ []
unfolding fork_choose_inc
inc_runs = refl
