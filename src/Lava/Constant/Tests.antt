-- ===== src/Lava/Constant/Tests.antt =====
-- Runs of the operations of lava/include/lava/constant.hpp.
use lart.Common.{ℕ, ◌+◌, ◌-◌, ◌%◌, ◌≤◌, ◌≡◌, ◌⊎◌, refl, false, true, done, cancelled, undefined}
use lart.Lava.Tristate.{false_value, true_value}
use lart.Lava.Constant.{
  bv, Constant, sub, mul, sdiv, srem, and, slt, call, is_fp, with_type, to_tristate, assume, set_bw,
}
use lart.Lava.Constant.Words.{w8, word}
use lart.Lava.Constant.Values.{with_type_exact, assume_exact}

abbrev byte : ℕ → Constant
byte n = record { value = n; ty = bv; bw = 8 }

abbrev long : ℕ → Constant
long n = record { value = n; ty = bv; bw = 32 }

sub_runs : call sub 8 3 5 ≡ done 18446744073709551614
unfolding call
sub_runs = refl

sdiv_runs : call sdiv 8 128 255 ≡ done 128
unfolding call
sdiv_runs = refl

mul_runs : call mul 16 65535 65535 ≡ undefined
unfolding call
mul_runs = refl

srem_runs : call srem 32 2147483648 4294967295 ≡ undefined
unfolding call
srem_runs = refl

and_runs : call and 8 12 10 ≡ done 8
unfolding call
and_runs = refl

slt_runs : call slt 8 255 0 ≡ done 1
unfolding call
slt_runs = refl

trunc_runs : set_bw (long 511) 8 ≡ record { value = 255; ty = bv; bw = 32 }
unfolding set_bw
trunc_runs = refl

with_type_exact_example :
    (c : Constant) × (with_type sub (byte 259) (byte 5) ≡ done c)
    × (c.bw ≡ 8)
    × (is_fp c.ty ≡ false)
    × (word w8 c.value ≡ (word w8 259 + 256 - word w8 5) % 256)
with_type_exact_example = with_type_exact w8 sub (byte 259) (byte 5) refl refl refl refl tt

assume_exact_example :
    (((byte 4).value ≡ 0)
      × (to_tristate (byte 4) ≡ false_value)
      × (assume (byte 4) false ≡ done (byte 4))
      × (assume (byte 4) true ≡ cancelled))
    ⊎ (((byte 4).value ≡ 1)
        × (to_tristate (byte 4) ≡ true_value)
        × (assume (byte 4) true ≡ done (byte 4))
        × (assume (byte 4) false ≡ cancelled))
    ⊎ ((2 ≤ (byte 4).value)
        × (to_tristate (byte 4) ≡ true_value)
        × (assume (byte 4) true ≡ cancelled)
        × (assume (byte 4) false ≡ cancelled))
assume_exact_example = assume_exact (byte 4)
