-- ===== src/Hashtable/Probing/Functions.antt =====
-- `LinearProbingFunc` and `QuadraticProbingFunc` of hashtable/include/probing.hpp.
use native.Mathlib.Nat.{mod-eq_of_lt, mod-eq-sub-mod, add-zero, mul-le-mul, add-mul-mod_self_left}
use hashing_old_archive.Prelude.{
  ℕ, zero, suc, ◌+◌, ◌-◌, ◌*◌, ◌/◌, ◌%◌, ◌^◌, ◌<◌, ◌≤◌, ◌≡◌, leb, if◌then◌else◌, arith, ◌∙◌, inl,
  inr, lt_cases, sym, ap,
}
use hashing_old_archive.Hashtable.Probing.{Prober}
use hashing_old_archive.Reduction.{modulo, fast_modulo}
use hashing_old_archive.Reduction.Range.{fast_modulo-modulo}

-- `while (next >= directory_size) next -= directory_size`
wrap : ℕ → ℕ → ℕ → ℕ
wrap zero n next = next
wrap (suc fuel) n next = let rest = wrap fuel n (next - n) in if leb n next then rest else next

-- `next` falls by at least one in each round, so it is enough fuel itself.
unfoldable pub linear : ℕ → ℕ → ℕ → ℕ
unfolding wrap
linear n index probing_step = let next = (index + probing_step) % 2 ^ 64 in wrap next n next

-- The loop of linear probing computes the remainder.
wrap-mod : (fuel n next : ℕ) → 0 < n → next ≤ fuel → wrap fuel n next ≡ next % n
unfolding wrap
wrap-mod zero n next pos h = grind arith
wrap-mod (suc fuel) n next pos h =
    grind (arith, wrap-mod fuel n (next - n), mod-eq-sub-mod, mod-eq_of_lt)

-- In a directory that is not empty the loop of linear probing computes the remainder of the 64-bit
-- sum.
pub linear-mod : (n i s : ℕ) → 0 < n → linear n i s ≡ (i + s) % 2 ^ 64 % n
unfolding linear
linear-mod n i s pos = wrap-mod _ n _ pos (omega arith)

-- `fastmod(index + probing_step * probing_step)` in 64 bits.
unfoldable pub quadratic : (ℕ → ℕ → ℕ) → ℕ → ℕ → ℕ → ℕ
quadratic divide n index probing_step =
    fast_modulo divide 64 n ((index + probing_step * probing_step % 2 ^ 64) % 2 ^ 64)

linear-small : (n i s : ℕ) → n ≤ 2 ^ 63 → i < n → s ≤ n → linear n i s ≡ (i + s) % n
linear-small n i s fit here le =
    rw (linear-mod n i s (omega arith), mod-eq_of_lt {n = i + s} {m = 2 ^ 64} (omega arith))

module _ (n : ℕ) (fit : n ≤ 2 ^ 63) where
  pub linear_starts : (i : ℕ) → i < n → linear n i 0 ≡ i
  linear_starts i h = linear-small n i 0 fit h (omega arith) ∙ rw add-zero (mod-eq_of_lt h)

  pub linear_stays : (i s : ℕ) → i < n → s ≤ n → linear n i s < n
  linear_stays i s h le = rw (linear-small n i s fit h le) (omega arith)

  pub linear_cycles : (i : ℕ) → i < n → linear n i n ≡ i
  linear_cycles i h = linear-small n i n fit h (omega arith) ∙ grind arith

  -- Linear probing for a directory of `n` buckets.
  abbrev pub linear_prober : Prober
  linear_prober = record {
    directory_size = n;
    probe = linear n;
    starts = linear_starts;
    stays = linear_stays;
    cycles = linear_cycles;
  }

  -- The first return is after as many steps as there are buckets.
  linear_return : (i s : ℕ) → i < n → s < n → linear n i (s + 1) ≡ i → s + 1 ≡ n
  linear_return i s hi hs back =
      let e : (i + (s + 1)) % n ≡ i = sym (linear-small n i (s + 1) fit hi (omega arith)) ∙ back in
      elim (lt_cases (i + (s + 1)) n) [
        | inl l ↦ omega (arith, mod-eq_of_lt l)
        | inr m ↦
            let r : i + (s + 1) - n < n = omega arith in
            omega (arith, mod-eq-sub-mod {n = i + (s + 1)} {m = n} m, mod-eq_of_lt r)
      ]

  -- The steps up to the first return reach every bucket.
  pub linear_reaches :
      (i s j : ℕ)
      → i < n
      → j < n
      → s < n
      → linear n i (s + 1) ≡ i
      → (r : ℕ) × (r ≤ s) × (linear n i r ≡ j)
  linear_reaches i s j hi hj hs back =
      let e = linear_return i s hi hs back in
      elim (lt_cases j i) [
        | inl l ↦ (
          n - i + j,
          omega arith,
          linear-small n i (n - i + j) fit hi (omega arith) ∙ wrapped i j hi l,
        )
        | inr m ↦ (
          j - i,
          omega arith,
          linear-small n i (j - i) fit hi (omega arith)
              ∙ mod-eq_of_lt {n = i + (j - i)} {m = n} (omega arith)
              ∙ omega arith,
        )
      ]
    where
      wrapped : (i j : ℕ) → i < n → j < i → (i + (n - i + j)) % n ≡ j
      wrapped i j hi l = omega (
        arith,
        mod-eq-sub-mod {n = i + (n - i + j)} {m = n} (omega arith),
        mod-eq_of_lt {n = j} {m = n} (omega arith),
        ap (λ x. x % n) (let q : i + (n - i + j) - n ≡ j = omega arith in q),
      )

-- In a directory of fewer than 2 ^ 32 buckets, and with a divider that divides, the products of
-- quadratic probing do not wrap up to the step that is the directory's size.
pub quadratic-small :
    (divide : ℕ → ℕ → ℕ) (n i s : ℕ)
    → n < 2 ^ 32
    → ((d a : ℕ) → 0 < d → divide d a ≡ a / d)
    → i < n
    → s ≤ n
    → quadratic divide n i s ≡ (i + s * s) % n
unfolding quadratic modulo
quadratic-small divide n i s fit law here le =
    let square : s * s ≤ n * n = mul-le-mul le le in
    let room : n * n ≤ (2 ^ 32 - 1) * (2 ^ 32 - 1) =
      mul-le-mul {n₁ = n} {m₁ = n} {n₂ = 2 ^ 32 - 1} {m₂ = 2 ^ 32 - 1} (omega arith)
        (omega arith) in
    rw
      (fast_modulo-modulo divide 64 n ((i + s * s % 2 ^ 64) % 2 ^ 64) (omega arith) (omega arith)
        (omega arith) law)
      (unfold modulo in
        rw (
          mod-eq_of_lt {n = s * s} {m = 2 ^ 64} (omega arith),
          mod-eq_of_lt {n = i + s * s} {m = 2 ^ 64} (omega arith),
        ))

module _ (divide : ℕ → ℕ → ℕ) (n : ℕ) (fit : n < 2 ^ 32)
    (law : (d a : ℕ) → 0 < d → divide d a ≡ a / d) where
  pub quadratic_starts : (i : ℕ) → i < n → quadratic divide n i 0 ≡ i
  quadratic_starts i h =
      quadratic-small divide n i 0 fit law h (omega arith) ∙ rw add-zero (mod-eq_of_lt h)

  pub quadratic_stays : (i s : ℕ) → i < n → s ≤ n → quadratic divide n i s < n
  quadratic_stays i s h le = rw (quadratic-small divide n i s fit law h le) (omega arith)

  pub quadratic_cycles : (i : ℕ) → i < n → quadratic divide n i n ≡ i
  quadratic_cycles i h =
      quadratic-small divide n i n fit law h (omega arith)
      ∙ add-mul-mod_self_left i n n
      ∙ mod-eq_of_lt h

  -- Quadratic probing for a directory of `n` buckets, by a divider that divides.
  abbrev pub quadratic_prober : Prober
  quadratic_prober = record {
    directory_size = n;
    probe = quadratic divide n;
    starts = quadratic_starts;
    stays = quadratic_stays;
    cycles = quadratic_cycles;
  }
