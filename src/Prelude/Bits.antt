-- ===== src/Prelude/Bits.antt =====
-- Masks and shifts on the native numbers, at every width.
use Prim.Native.Nat.{
  digits, bit_and-bitwise, bit_and, min, ℕ, zero, suc, ◌+◌, ◌-◌, ◌*◌, ◌/◌, ◌%◌, ◌^◌, ◌≤◌, ◌<◌,
}
use mathlib.Core.Path.{◌≡◌, refl, sym, ap, ◌∙◌}
use native.Mathlib.Nat.{mul_assoc, pow-suc, add-mul-mod_self_left, mod-eq_of_lt}
use native.Mathlib.Omega.{arith}

abbrev both : ℕ → ℕ → ℕ → ℕ
both fuel a b = digits (λ _. zero) min fuel a b

both_enough : (n m a b : ℕ) → a ≤ n → a ≤ m → both n a b ≡ both m a b
both_enough zero zero a b p q = refl
both_enough zero (suc m) zero b p q = refl
both_enough zero (suc m) (suc a) b p q = absurd (omega arith)
both_enough (suc n) zero zero b p q = refl
both_enough (suc n) zero (suc a) b p q = absurd (omega arith)
both_enough (suc n) (suc m) zero b p q = refl
both_enough (suc n) (suc m) (suc a) b p q =
    omega (arith, both_enough n m (suc a / 2) (b / 2) (omega arith) (omega arith))

bit_and_zero : (b : ℕ) → bit_and 0 b ≡ 0
bit_and_zero b = bit_and-bitwise 0 b

-- One digit of `bit_and`.
bit_and_halves : (a b : ℕ) → bit_and a b ≡ bit_and (a / 2) (b / 2) * 2 + min (a % 2) (b % 2)
bit_and_halves zero b = omega (arith, bit_and_zero b, bit_and_zero (b / 2))
bit_and_halves (suc a) b = omega (
  arith,
  bit_and-bitwise (suc a) b,
  bit_and-bitwise (suc a / 2) (b / 2),
  both_enough a (suc a / 2) (suc a / 2) (b / 2) (omega arith) (omega arith),
)

no_bits : (n a : ℕ) → a ≤ n → bit_and a 0 ≡ 0
no_bits n zero h = bit_and_zero 0
no_bits zero (suc a) h = absurd (omega arith)
no_bits (suc n) (suc a) h =
    omega (arith, bit_and_halves (suc a) 0, no_bits n (suc a / 2) (omega arith))

mask_step : (a p : ℕ) → 0 < p → a / 2 % p * 2 + min (a % 2) 1 ≡ a % (p * 2)
mask_step a p pos =
    let low : ℕ = a / 2 % p * 2 + a % 2 in
    let split : a / 2 ≡ p * (a / 2 / p) + a / 2 % p = omega arith in
    let whole : a ≡ low + p * 2 * (a / 2 / p) = omega (arith, ap (λ (t : ℕ). t * 2) split) in
    (omega arith)
    ∙ sym (
        ap (λ x. x % (p * 2)) whole
        ∙ add-mul-mod_self_left low (p * 2) (a / 2 / p)
        ∙ mod-eq_of_lt {n = low} {m = p * 2} (omega arith))

pow_pos : (w : ℕ) → 0 < 2 ^ w
pow_pos zero = omega arith
pow_pos (suc w) = rw pow-suc (omega (arith, pow_pos w))

-- A mask of `w` ones keeps the remainder by 2 ^ w.
pub bit_and_mask : (w a : ℕ) → bit_and a (2 ^ w - 1) ≡ a % 2 ^ w
bit_and_mask zero a = omega (arith, no_bits a a (omega arith))
bit_and_mask (suc w) a =
    let pos = pow_pos w in
    let half : (2 ^ w * 2 - 1) / 2 ≡ 2 ^ w - 1 = omega arith in
    let odd : (2 ^ w * 2 - 1) % 2 ≡ 1 = omega arith in
    rw (pow-suc, bit_and_halves a (2 ^ w * 2 - 1), half, odd, bit_and_mask w (a / 2))
      (mask_step a (2 ^ w) pos)

pub pow2-pos : (s : ℕ) → 0 < 2 ^ s
pow2-pos zero = omega arith
pow2-pos (suc s) = omega (arith, pow2-pos s)

pub pow2_add : (a b : ℕ) → 2 ^ a * 2 ^ b ≡ 2 ^ (a + b)
pow2_add a zero = let e : a + 0 ≡ a = omega arith in rw e (omega arith)
pow2_add a (suc b) =
    let e : a + suc b ≡ suc (a + b) = omega arith in
    rw (e, pow-suc 2 (a + b), pow-suc 2 b, sym (mul_assoc (2 ^ a) (2 ^ b) 2))
      (ap (λ x. x * 2) (pow2_add a b))
