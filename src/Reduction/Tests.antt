-- ===== src/Reduction/Tests.antt =====
-- The reducers at concrete hashes.
use hashing_old_archive.Prelude.{◌+◌, ◌*◌, ◌/◌, ◌^◌, ◌<◌, ◌≤◌, ◌≡◌, refl, arith}
use hashing_old_archive.Reduction.{
  modulo, fast_modulo, fastrange32, fastrange64, clamp, lower, higher,
}
use hashing_old_archive.Reduction.Halves.{higher-lower, halves_of}
use hashing_old_archive.Reduction.Range.{
  fast_modulo-modulo, fastrange32-lt, fastrange64-lt, clamp-lt, fastrange64-div, fastrange64_mono,
}

fast_modulo-modulo_example : fast_modulo (λ d a. a / d) 64 7 123 ≡ modulo 7 123
fast_modulo-modulo_example =
    fast_modulo-modulo (λ d a. a / d) 64 7 123 (omega arith) (omega arith) (omega arith)
      (λ d a pos. refl)

fastrange32_below : fastrange32 10 4000000000 < 10
fastrange32_below = fastrange32-lt 10 4000000000 (omega arith) (omega arith) (omega arith)

fastrange64_below : fastrange64 10 0xffff_ffff_ffff_ffff < 10
fastrange64_below =
    fastrange64-lt 10 0xffff_ffff_ffff_ffff (omega arith) (omega arith) (omega arith)

fastrange64_top : fastrange64 10 0xffff_ffff_ffff_ffff ≡ 9
unfolding fastrange64
fastrange64_top = refl

fastrange64-div_example : fastrange64 10 0x8000_0000_0000_0000 ≡ 0x8000_0000_0000_0000 * 10 / 2 ^ 64
fastrange64-div_example =
    fastrange64-div 10 0x8000_0000_0000_0000 (omega arith) (omega arith) (omega arith)

fastrange64_mono_example : fastrange64 10 5 ≤ fastrange64 10 0x8000_0000_0000_0000
fastrange64_mono_example =
    fastrange64_mono 10 5 0x8000_0000_0000_0000 (omega arith) (omega arith) (omega arith)
      (omega arith)

clamp_below : clamp 32 10 4000 < 10
clamp_below = clamp-lt 32 10 4000 (omega arith) (omega arith) (omega arith)

higher-lower_example :
    higher 0x1234_0000_0000_0000_0005 * 2 ^ 64 + lower 0x1234_0000_0000_0000_0005
    ≡ 0x1234_0000_0000_0000_0005
higher-lower_example = higher-lower 0x1234_0000_0000_0000_0005 (omega arith)

halves_back : (higher (3 * 2 ^ 64 + 5) ≡ 3) × (lower (3 * 2 ^ 64 + 5) ≡ 5)
halves_back = halves_of 3 5 (omega arith) (omega arith)
