-- ===== src/Reduction.antt =====
-- The reducers of reduction/reduction.hpp, which take a hash to an index of a directory. A hash is
-- a number below 2 ^ w; the divider of libdivide is a parameter.
pub mod Range
pub mod Halves
mod Tests
use hashing_old_archive.Prelude.{
  ℕ, ◌+◌, ◌-◌, ◌*◌, ◌/◌, ◌%◌, ◌^◌, bit_and, bit_xor, leb, ltb, if◌then◌else◌,
}

unfoldable pub do_nothing : ℕ → ℕ → ℕ
do_nothing num_buckets hash = hash

unfoldable pub modulo : ℕ → ℕ → ℕ
modulo n hash = hash % n

-- `hash / magic_div` is a call of libdivide, `divide` by the number of buckets cut to w bits; the
-- result of the multiplication and the subtraction is cut to w bits.
unfoldable pub fast_modulo : (ℕ → ℕ → ℕ) → ℕ → ℕ → ℕ → ℕ
fast_modulo divide w n hash =
    let div = divide (n % 2 ^ w) hash in (hash + 2 ^ w - div * n % 2 ^ w) % 2 ^ w

-- The same body over the divider of the other algorithm.
unfoldable pub branchless_fast_modulo : (ℕ → ℕ → ℕ) → ℕ → ℕ → ℕ → ℕ
branchless_fast_modulo branchfree_divide w n hash =
    let div = branchfree_divide (n % 2 ^ w) hash in (hash + 2 ^ w - div * n % 2 ^ w) % 2 ^ w

unfoldable pub fastrange32 : ℕ → ℕ → ℕ
fastrange32 n value = value * n % 2 ^ 64 / 2 ^ 32 % 2 ^ 32

unfoldable pub fastrange64 : ℕ → ℕ → ℕ
fastrange64 n value = value * n % 2 ^ 128 / 2 ^ 64 % 2 ^ 64

-- On an unsigned type `hash < 0` never holds; `N - 1` is computed in 64 bits and cut to the type.
unfoldable pub clamp : ℕ → ℕ → ℕ → ℕ
clamp w n hash = if leb n hash then (n + 2 ^ 64 - 1) % 2 ^ 64 % 2 ^ w else hash

-- Keeps the upper `p` of `w` bits.
unfoldable pub shift : ℕ → ℕ → ℕ → ℕ
shift w p value = value / 2 ^ (w - p)

-- The 64-bit halves of a 128-bit hash.
unfoldable pub lower : ℕ → ℕ
lower value = bit_and value 0xffff_ffff_ffff_ffff

unfoldable pub higher : ℕ → ℕ
higher value = value / 2 ^ 64 % 2 ^ 64

unfoldable pub xor_both : ℕ → ℕ
unfolding lower higher
xor_both value = bit_xor (lower value) (higher value)

abbrev k_mul : ℕ
k_mul = 0x9ddf_ea08_eb38_2d69

unfoldable pub hash_128_to_64 : ℕ → ℕ
unfolding lower higher
hash_128_to_64 x =
    let a = bit_xor (lower x) (higher x) * k_mul % 2 ^ 64 in
    let a' = bit_xor a (a / 2 ^ 47) in
    let b = bit_xor (higher x) a' * k_mul % 2 ^ 64 in
    let b' = bit_xor b (b / 2 ^ 47) in b' * k_mul % 2 ^ 64
