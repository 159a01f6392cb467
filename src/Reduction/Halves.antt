-- ===== src/Reduction/Halves.antt =====
-- The halves of a 128-bit hash.
use hashing_old_archive.Prelude.{ℕ, ◌+◌, ◌*◌, ◌%◌, ◌^◌, ◌<◌, ◌≡◌, arith}
use hashing_old_archive.Prelude.Bits.{bit_and_mask}
use hashing_old_archive.Reduction.{lower, higher}

lower-mod : (value : ℕ) → lower value ≡ value % 2 ^ 64
unfolding lower
lower-mod value = bit_and_mask 64 value

-- The two halves of a 128-bit value make up the value.
pub higher-lower : (value : ℕ) → value < 2 ^ 128 → higher value * 2 ^ 64 + lower value ≡ value
unfolding higher
higher-lower value small = omega (arith, lower-mod value)

-- Any two 64-bit numbers are the halves of the 128-bit value they make up.
pub halves_of :
    (hi lo : ℕ)
    → hi < 2 ^ 64
    → lo < 2 ^ 64
    → (higher (hi * 2 ^ 64 + lo) ≡ hi) × (lower (hi * 2 ^ 64 + lo) ≡ lo)
unfolding higher
halves_of hi lo a b = omega (arith, lower-mod (hi * 2 ^ 64 + lo))
