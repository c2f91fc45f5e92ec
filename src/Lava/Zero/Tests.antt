-- ===== src/Lava/Zero/Tests.antt =====
-- Runs of lava/include/lava/zero.hpp, and its theorems at concrete words of eight bits.
use lart.Common.{refl, arith}
use lart.Lava.Zero.{add_lut, nonzero, unknown, add, apply}
use lart.Lava.Zero.Words.{Contains}
use lart.Lava.Zero.Soundness.{zero_apply_sound}

zero_apply_sound_example : Contains unknown 44
unfolding apply add_lut
zero_apply_sound_example =
    zero_apply_sound 256 add nonzero nonzero unknown 200 100 44 (omega arith) (omega arith) refl
      refl refl refl
