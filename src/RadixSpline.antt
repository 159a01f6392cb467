-- ===== src/RadixSpline.antt =====
-- `RadixSpline` of learned_models/rs/radix_spline.h and the types of learned_models/rs/common.h. A
-- key is a number below 2 ^ w. Floating point is a parameter: a type of doubles with the operations
-- that the source uses.
pub mod Builder
pub mod Search
pub mod Segment
pub mod Bound
pub mod Serializer
mod Tests
use hashing_old_archive.Prelude.{
  ℕ, zero, suc, ◌+◌, ◌-◌, ◌/◌, ◌%◌, ◌^◌, Bool, true, false, List, [], ◌∷◌, Option, none, some, ◌==◌,
  ltb, leb, if◌then◌else◌, length, get_elem?,
}

-- The operations on doubles; `to_nat` is the conversion to `size_t`.
pub record Doubles (D : Type 0) : Type 0 where
  pub of_nat : ℕ → D
  pub to_nat : D → ℕ
  pub plus : D → D → D
  pub minus : D → D → D
  pub divided : D → D → D
  pub fma : D → D → D → D
  pub negated : D → D
  pub less : D → D → Bool
  pub epsilon : D

-- A CDF coordinate.
pub record Coord (D : Type 0) : Type 0 where
  pub x : ℕ
  pub y : D

pub record SearchBound : Type 0 where
  pub begin : ℕ
  pub end : ℕ

pub record RadixSpline (D : Type 0) : Type 0 where
  pub min_key : ℕ
  pub max_key : ℕ
  pub num_keys : ℕ
  pub num_radix_bits : ℕ
  pub num_shift_bits : ℕ
  pub max_error : ℕ
  pub radix_table : List ℕ
  pub spline_points : List (Coord D)

-- The difference of two w-bit words.
abbrev pub minus_word : ℕ → ℕ → ℕ → ℕ
minus_word w a b = (a + 2 ^ w - b) % 2 ^ w

-- `(key - min_key_) >> num_shift_bits_`, which is defined for a shift below w.
unfoldable pub prefix_of : ℕ → ℕ → ℕ → ℕ → ℕ
prefix_of w min_key num_shift_bits key = minus_word w key min_key / 2 ^ num_shift_bits

module _ {ℓ} {A : Type ℓ} (test : A → Bool) where
  -- `while (test(points[current])) ++current;` none when it reads past the end. Each round moves on
  -- by one, so the length is fuel enough.
  unfoldable pub linear_search : ℕ → List A → ℕ → Option ℕ
  linear_search zero points current = none
  linear_search (suc fuel) points current =
      let rest = linear_search fuel points (current + 1) in
      elim (get_elem? points current) [
        | none ↦ none
        | some c ↦ if test c then rest else some current
      ]

  -- `std::lower_bound` on the `len` elements from `first` on, which halves the range in each round.
  unfoldable pub lower_bound : ℕ → List A → ℕ → ℕ → Option ℕ
  lower_bound zero points first len = some first
  lower_bound (suc fuel) points first len =
      let upper = lower_bound fuel points (first + len / 2 + 1) (len - len / 2 - 1) in
      let lower = lower_bound fuel points first (len / 2) in
      if len == 0 then some first else elim (get_elem? points (first + len / 2)) [
        | none ↦ none
        | some c ↦ if test c then upper else lower
      ]

-- The part of `GetSearchBound` behind the estimate.
unfoldable pub bound_around : ℕ → ℕ → ℕ → SearchBound
bound_around max_error num_keys estimate = record {
  begin = if ltb estimate max_error then 0 else estimate - max_error;
  end =
      if ltb num_keys ((estimate + max_error + 2) % 2 ^ 64)
      then num_keys
      else (estimate + max_error + 2) % 2 ^ 64;
}

module _ {D : Type 0} (w : ℕ) where
  -- None also for a shift by the width of the key or more, which is undefined.
  unfoldable pub get_spline_segment : RadixSpline D → ℕ → Option ℕ
  get_spline_segment m key =
      let prefix = prefix_of w m.min_key m.num_shift_bits key in
      if leb w m.num_shift_bits then none else elim (get_elem? m.radix_table prefix) [
        | none ↦ none
        | some begin ↦ elim (get_elem? m.radix_table (prefix + 1)) [
          | none ↦ none
          | some end ↦
              if ltb (minus_word 32 end begin) 32
              then linear_search (λ c. ltb c.x key) (length m.spline_points + 1) m.spline_points
                  begin
              else lower_bound (λ c. ltb c.x key) (end - begin) m.spline_points begin (end - begin)
        ]
      ]

  -- The line through the ends of a segment of the spline, at the key; none when it reads the spline
  -- out of range.
  unfoldable pub interpolate : Doubles D → RadixSpline D → ℕ → ℕ → Option D
  interpolate d m key zero = none
  interpolate d m key (suc below) = elim (get_elem? m.spline_points below) [
    | none ↦ none
    | some down ↦ elim (get_elem? m.spline_points (suc below)) [
      | none ↦ none
      | some up ↦
          let x_diff = d.of_nat (minus_word w up.x down.x) in
          let y_diff = d.minus up.y down.y in
          let slope = d.divided y_diff x_diff in
          let key_diff = d.of_nat (minus_word w key down.x) in some (d.fma key_diff slope down.y)
    ]
  ]

  unfoldable pub get_estimated_position : Doubles D → RadixSpline D → ℕ → Option D
  get_estimated_position d m key =
      if leb key m.min_key
      then some (d.of_nat 0)
      else (if leb m.max_key key
          then some (d.of_nat (minus_word 64 m.num_keys 1))
          else elim (get_spline_segment m key) [
            | none ↦ none
            | some segment ↦ interpolate d m key segment
          ])

  unfoldable pub get_search_bound : Doubles D → RadixSpline D → ℕ → Option SearchBound
  get_search_bound d m key = elim (get_estimated_position d m key) [
    | none ↦ none
    | some estimate ↦ some (bound_around m.max_error m.num_keys (d.to_nat estimate))
  ]
