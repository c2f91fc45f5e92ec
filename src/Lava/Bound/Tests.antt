-- ===== src/Lava/Bound/Tests.antt =====
-- Runs of `sup::bound`, lava/include/lava/support/interval.hpp, over eight bits, and its theorems there.
use lart.Common.{◌≡◌, refl, done, cancelled}
use lart.Common.Int.{pos, negsuc}
use lart.Lava.Bound.{add}

-- 100 + 27 is the greatest value and so infinite; infinities of two signs have no sum.
add_runs :
    (add 127 (pos 100) (pos 27) ≡ done (pos 127))
    × (add 127 (negsuc 99) (negsuc 99) ≡ done (negsuc 127))
    × (add 127 (pos 127) (negsuc 127) ≡ cancelled)
unfolding add
add_runs = (refl, refl, refl)
