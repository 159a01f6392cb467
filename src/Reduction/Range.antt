-- ===== src/Reduction/Range.antt =====
-- The range of the reducers, and the fast reducers against their plain definitions.
use native.Mathlib.Nat.{
  mod-eq_of_lt, mod-eq-sub-mod, mod-eq-sub-div-mul, div-mul-le_self, mul-le-mul_right,
  div-lt_iff_lt-mul, mul_comm, mul-lt-mul_of_pos_right,
}
use hashing_old_archive.Prelude.{ℕ, ◌+◌, ◌-◌, ◌*◌, ◌/◌, ◌%◌, ◌^◌, ◌<◌, ◌≤◌, ◌≡◌, sym, arith}
use hashing_old_archive.Reduction.{modulo, fast_modulo, fastrange32, fastrange64, clamp}

-- Subtraction of a smaller word does not wrap.
sub_wraps_not : (h d w : ℕ) → d ≤ h → h < w → (h + w - d) % w ≡ h - d
sub_wraps_not h d w le lt = grind (arith, mod-eq-sub-mod, mod-eq_of_lt)

remainder_by_product :
    (w n hash d : ℕ) → hash < w → d ≡ hash / n → (hash + w - d * n % w) % w ≡ hash % n
remainder_by_product w n hash d small law =
    let le : d * n ≤ hash = rw law (div-mul-le_self hash n) in
    rw (mod-eq_of_lt {n = d * n} {m = w} (omega arith), sub_wraps_not hash (d * n) w le small, law)
      (sym (mod-eq-sub-div-mul hash n))

-- For a w-bit hash and a number of buckets from 1 to below 2 ^ w, with a divider that divides, the
-- remainder by multiplication is the remainder.
pub fast_modulo-modulo :
    (divide : ℕ → ℕ → ℕ) (w n hash : ℕ)
    → 0 < n
    → n < 2 ^ w
    → hash < 2 ^ w
    → ((d a : ℕ) → 0 < d → divide d a ≡ a / d)
    → fast_modulo divide w n hash ≡ modulo n hash
unfolding fast_modulo modulo
fast_modulo-modulo divide w n hash pos fit small law =
    rw (mod-eq_of_lt fit)
      (remainder_by_product (2 ^ w) n hash (divide n hash) small (law n hash pos))

-- The upper half of a product of two words is the quotient by the word size.
product_high :
    (w n value : ℕ)
    → 0 < w
    → 0 < n
    → n ≤ w
    → value < w
    → value * n % (w * w) / w % w ≡ value * n / w
product_high w n value pos some fit small =
    let lt : value * n < n * w = rw (mul_comm n w) (mul-lt-mul_of_pos_right small some) in
    let le : n * w ≤ w * w = mul-le-mul_right w fit in
    let q : value * n / w < n = (div-lt_iff_lt-mul pos).1 lt in
    rw (
      mod-eq_of_lt {n = value * n} {m = w * w} (omega arith),
      mod-eq_of_lt {n = value * n / w} {m = w} (omega arith),
    )

product_range :
    (w n value : ℕ) → 0 < w → 0 < n → n ≤ w → value < w → value * n % (w * w) / w % w < n
product_range w n value pos some fit small =
    let lt : value * n < n * w = rw (mul_comm n w) (mul-lt-mul_of_pos_right small some) in
    rw (product_high w n value pos some fit small) ((div-lt_iff_lt-mul pos).1 lt)

-- A 32-bit hash is reduced to an index below the number of buckets, which is at least 1 and at most
-- 2 ^ 32.
pub fastrange32-lt : (n value : ℕ) → 0 < n → n ≤ 2 ^ 32 → value < 2 ^ 32 → fastrange32 n value < n
unfolding fastrange32
fastrange32-lt n value pos fit small = product_range (2 ^ 32) n value (omega arith) pos fit small

-- A 64-bit hash is reduced to an index below the number of buckets, which is at least 1 and below
-- 2 ^ 64.
pub fastrange64-lt : (n value : ℕ) → 0 < n → n < 2 ^ 64 → value < 2 ^ 64 → fastrange64 n value < n
unfolding fastrange64
fastrange64-lt n value pos fit small =
    product_range (2 ^ 64) n value (omega arith) pos (omega arith) small

-- `Clamp` stays below the number of buckets, if that is at least 1, fits in the hash's type and is
-- below 2 ^ 64.
pub clamp-lt : (w n hash : ℕ) → 0 < n → n ≤ 2 ^ w → n < 2 ^ 64 → clamp w n hash < n
unfolding clamp
clamp-lt w n hash pos fit small = ground (arith, mod-eq_of_lt {n = n - 1} {m = 2 ^ w})

-- For a 64-bit hash and a number of buckets from 1 to below 2 ^ 64, the 128-bit product does not wrap:
-- the result is the hash scaled to the number of buckets.
pub fastrange64-div :
    (n value : ℕ) → 0 < n → n < 2 ^ 64 → value < 2 ^ 64 → fastrange64 n value ≡ value * n / 2 ^ 64
unfolding fastrange64
fastrange64-div n value pos fit small =
    product_high (2 ^ 64) n value (omega arith) pos (omega arith) small

-- For 64-bit hashes and a number of buckets from 1 to below 2 ^ 64, the reduction keeps the order of
-- the hashes.
pub fastrange64_mono :
    (n a b : ℕ) → 0 < n → n < 2 ^ 64 → b < 2 ^ 64 → a ≤ b → fastrange64 n a ≤ fastrange64 n b
fastrange64_mono n a b pos fit small le =
    rw (fastrange64-div n a pos fit (omega arith), fastrange64-div n b pos fit small)
      (omega (arith, mul-le-mul_right n le))
