-- ===== src/RadixSpline/Segment.antt =====
-- The finished model, as `GetSplineSegment` of learned_models/rs/radix_spline.h needs it.
use hashing_old_archive.Prelude.{
  ℕ, zero, suc, ◌+◌, ◌-◌, ◌^◌, ◌<◌, ◌≤◌, ◌≡◌, Bool, false, List, [], ◌∷◌, some, ltb, leb, length,
  get_elem?, arith, All, Bool-cases, inl, inr, lt_cases,
}
use hashing_old_archive.Prelude.Bits.{pow2-pos}
use native.Mathlib.Nat.{mod-eq-sub-mod, mod-eq_of_lt, le-div_iff_mul-le, div-mul-le_self}
use hashing_old_archive.RadixSpline.{Coord, RadixSpline, prefix_of, minus_word, get_spline_segment}
use hashing_old_archive.RadixSpline.Search.{
  leading, leading_mono, leading-le-length, linear_search-leading, lower_bound-leading,
  IsPartitioned,
}

module _ {D : Type 0} where
  -- The points stand in the order of their keys.
  abbrev pub IsAscending : List (Coord D) → Type 0
  IsAscending [] = Unit
  IsAscending (c ∷ l) = All (λ e. c.x < e.x) l × IsAscending l

  abbrev pub below : ℕ → Coord D → Bool
  below key c = ltb c.x key

  above-fails :
      (key : ℕ) (c : Coord D) (l : List (Coord D)) (i : ℕ) (a : Coord D)
      → key ≤ c.x
      → All (λ e. c.x < e.x) l
      → get_elem? l i ≡ some a
      → below key a ≡ false
  above-fails key c [] i a le h got = cc
  above-fails key c (b ∷ l) zero a le h got = let e : b ≡ a = cc in rw (← e) (ground arith)
  above-fails key c (b ∷ l) (suc i) a le h got = above-fails key c l i a le h.1 got

  pub ascending-IsPartitioned :
      (key : ℕ) (l : List (Coord D)) → IsAscending l → IsPartitioned (below key) l
  unfolding leading
  ascending-IsPartitioned key [] h i a got le = cc
  ascending-IsPartitioned key (c ∷ l) h zero a got le =
      let f : c ≡ a = cc in
      rw (← f) (elim (Bool-cases (ltb c.x key)) [
        | inl e ↦ absurd (ground (arith, rw e at le))
        | inr e ↦ e
      ])
  ascending-IsPartitioned key (c ∷ l) h (suc i) a got le = elim (Bool-cases (ltb c.x key)) [
    | inl e ↦ ascending-IsPartitioned key l h.1 i a got (omega (arith, rw e at le))
    | inr e ↦ above-fails key c l i a (ground arith) h.0 got
  ]

pub word_of : (w a b : ℕ) → b ≤ a → a < 2 ^ w → minus_word w a b ≡ a - b
word_of w a b le lt = grind (arith, mod-eq_of_lt, mod-eq-sub-mod)

-- Prefixes keep the order of the keys.
pub prefix_mono :
    (w min_key shift a b : ℕ)
    → min_key ≤ a
    → a ≤ b
    → b < 2 ^ w
    → prefix_of w min_key shift a ≤ prefix_of w min_key shift b
unfolding prefix_of
prefix_mono w min_key shift a b from le small =
    rw (word_of w a min_key from (omega arith), word_of w b min_key (omega arith) small)
      ((le-div_iff_mul-le (pow2-pos shift)).1
        (omega (arith, div-mul-le_self (a - min_key) (2 ^ shift))))

module _ {D : Type 0} (w : ℕ) where
  abbrev pub under : RadixSpline D → ℕ → Coord D → Bool
  under m p c = ltb (prefix_of w m.min_key m.num_shift_bits c.x) p

  -- A finished model: its shift is defined, its points ascend from the smallest to the largest key, and its radix table
  -- holds, for each prefix, the first point that has at least that prefix.
  pub record IsIndexed (m : RadixSpline D) : Type 0 where
    pub word : m.max_key < 2 ^ w
    pub shift : m.num_shift_bits < w
    pub ascending : IsAscending m.spline_points
    pub within : All (λ c. (m.min_key ≤ c.x) × (c.x ≤ m.max_key)) m.spline_points
    pub starts : (c : Coord D) × (get_elem? m.spline_points 0 ≡ some c) × (c.x ≡ m.min_key)
    pub ends : leading (below m.max_key) m.spline_points < length m.spline_points
    pub table :
        (p : ℕ)
        → p ≤ prefix_of w m.min_key m.num_shift_bits m.max_key + 1
        → get_elem? m.radix_table p ≡ some (leading (under m p) m.spline_points)

  module _ {m : RadixSpline D} (valid : IsIndexed m) (key : ℕ) (from : m.min_key ≤ key)
      (to : key ≤ m.max_key) where
    abbrev prefix : ℕ
    prefix = prefix_of w m.min_key m.num_shift_bits key

    begin-le : leading (under m prefix) m.spline_points ≤ leading (below key) m.spline_points
    begin-le =
        leading_mono (λ c. (m.min_key ≤ c.x) × (c.x ≤ m.max_key)) (under m prefix) (below key)
          (λ c h e. elim (lt_cases c.x key) [
            | inl l ↦ ground arith
            | inr g ↦ absurd (
                ground (
                  arith,
                  prefix_mono w m.min_key m.num_shift_bits key c.x from g
                      (omega (arith, valid.word)),
                ))
          ])
          m.spline_points valid.within

    le-end : leading (below key) m.spline_points ≤ leading (under m (prefix + 1)) m.spline_points
    le-end =
        leading_mono (λ c. (m.min_key ≤ c.x) × (c.x ≤ m.max_key)) (below key) (under m (prefix + 1))
          (λ c h e.
            let le : c.x ≤ key = ground arith in
            ground (
              arith,
              prefix_mono w m.min_key m.num_shift_bits c.x key h.0 le (omega (arith, valid.word)),
            ))
          m.spline_points valid.within

    pub inside : leading (below key) m.spline_points < length m.spline_points
    inside = omega (
      arith,
      valid.ends,
      leading_mono (λ c. (m.min_key ≤ c.x) × (c.x ≤ m.max_key)) (below key) (below m.max_key)
          (λ c h e. ground arith) m.spline_points valid.within,
    )

    -- For a key from the smallest to the largest, a finished model finds the first point of its spline
    -- that is not below the key, whichever of the two searches it takes, with a shift that is defined and
    -- without a read out of range.
    pub get_spline_segment-leading :
        get_spline_segment w m key ≡ some (leading (below key) m.spline_points)
    unfolding get_spline_segment
    get_spline_segment-leading =
        let lo = leading (under m prefix) m.spline_points in
        let hi = leading (under m (prefix + 1)) m.spline_points in
        let more = prefix_mono w m.min_key m.num_shift_bits key m.max_key from to valid.word in
        let fits = leading-le-length (under m (prefix + 1)) m.spline_points in
        let defined : leb w m.num_shift_bits ≡ false = ground (arith, valid.shift) in
        rw
          (
            defined,
            get_spline_segment,
            valid.table prefix (omega (arith, more)),
            get_spline_segment,
            valid.table (prefix + 1) (omega (arith, more)),
            get_spline_segment,
          )
          (elim (Bool-cases (ltb (minus_word 32 hi lo) 32)) [
            | inl e ↦ rw e (
                linear_search-leading (below key) m.spline_points (length m.spline_points + 1) lo
                  begin-le inside (omega (arith, inside)))
            | inr e ↦ rw e (
                lower_bound-leading (below key) m.spline_points
                  (ascending-IsPartitioned key m.spline_points valid.ascending) (hi - lo) lo
                  (hi - lo) begin-le (omega (arith, begin-le, le-end))
                  (omega (arith, fits, begin-le, le-end)) (omega arith))
          ])
