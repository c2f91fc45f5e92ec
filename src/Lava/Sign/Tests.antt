-- ===== src/Lava/Sign/Tests.antt =====
-- Runs of lava/include/lava/sign.hpp, and its theorems at concrete values.
use lart.Common.{◌≡◌, refl, true, some}
use lart.Common.Int.{pos, negsuc, ◌*ℤ◌}
use lart.Lava.Tristate.{Tristate}
use lart.Lava.Tristate.Meaning.{Denotes}
use lart.Lava.Sign.{ltz, gtz, nez, gez, lez, add, mul, slt, apply, to_tristate, add_lut}
use lart.Lava.Sign.Meaning.{Contains}
use lart.Lava.Sign.Soundness.{apply_sound}
use lart.Lava.Sign.Branch.{branch_sound}

-- `gtz + nez` is `gtz`, although 1 + (-3) is below 0.
add_gtz_nez : apply add gtz nez ≡ gtz
unfolding apply add_lut
add_gtz_nez = refl

apply_sound_example : Contains (apply mul ltz lez) (pos 6)
unfolding ◌*ℤ◌
apply_sound_example = apply_sound mul ltz lez (negsuc 1) (negsuc 2) (pos 6) refl refl refl refl

branch_sound_example : (t : Tristate) × (to_tristate (apply slt ltz gez) ≡ some t) × Denotes t true
branch_sound_example = branch_sound slt ltz gez (negsuc 0) (pos 2) (pos 1) refl refl refl refl
