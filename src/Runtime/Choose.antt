-- ===== src/Runtime/Choose.antt =====
-- runtime/native/choose.cpp: the choices of the program. Each process forks for a choice: the child goes on with
-- an answer, and the parent waits for it. A run is the list of the answers with which some process goes
-- on, in the order in which they are made, as far as no child ends the search; each recursive call of `choose` in a
-- parent is one choice more on its path.
use lart.Common.{
  ℕ, zero, suc, ◌+◌, ◌-◌, ◌≡◌, Bool, true, false, ◌==◌, ◌&&◌, not, leb, if◌then◌else◌, List, [],
  ◌∷◌, ◌++◌,
}
pub mod Answers
mod Tests

-- `fork_choose_dec`, for a count above 0 (on 0 the code forks without end): the child answers `count - 1`, and the parent chooses among the others.
unfoldable pub fork_choose_dec : ℕ → List ℕ
fork_choose_dec zero = []
fork_choose_dec (suc zero) = 0 ∷ []
fork_choose_dec (suc (suc n)) = suc n ∷ fork_choose_dec (suc n)

-- The loop of `fork_choose_inc`, on the rounds that are left.
unfoldable pub inc_children : ℕ → ℕ → List ℕ
inc_children zero count = []
inc_children (suc left) count = (count - 1) ∷ inc_children left count

unfoldable pub fork_choose_inc : ℕ → List ℕ
unfolding inc_children
fork_choose_inc count = inc_children (count - 1) count ++ (count - 1) ∷ []

-- `check_terminate`, without the reports: whether the process ends.
unfoldable pub check_terminate : ℕ → Bool → ℕ → ℕ → Bool
check_terminate status error_found bound depth =
    if not (status == 0)
    then true
    else if error_found
    then true
    else not (bound == 0) && leb bound depth
