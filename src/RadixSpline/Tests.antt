-- ===== src/RadixSpline/Tests.antt =====
-- A model of four keys, with natural numbers in the place of the doubles.
use hashing_old_archive.Prelude.{
  ℕ, ◌+◌, ◌-◌, ◌*◌, ◌/◌, ◌^◌, ◌<◌, ◌≤◌, ◌≡◌, refl, List, [], ◌∷◌, some, ltb, arith, sym, ◌∙◌,
}
use hashing_old_archive.RadixSpline.{
  Doubles, Coord, RadixSpline, prefix_of, minus_word, get_spline_segment, get_estimated_position,
  get_search_bound, bound_around,
}
use hashing_old_archive.RadixSpline.Bound.{bound_around-covers, get_search_bound-total}
use hashing_old_archive.RadixSpline.Builder.{
  build, shifts_defined, add_keys, add_key, possibly_add_key_to_spline, add_key_to_spline,
  possibly_add_key_to_radix_table, new, get_num_shift_bits, back, cuts, compute_orientation,
  lower_y_of, narrowed, set_limits, remember_previous_cdf_point, finalize, close_spline,
  finalize_radix_table, fill,
}
use hashing_old_archive.RadixSpline.Builder.Whole.{build-IsIndexed, prefix_of-lt}
use hashing_old_archive.RadixSpline.Serializer.{to_bytes, from_bytes}
use hashing_old_archive.RadixSpline.Serializer.Roundtrip.{IsPortable, from_bytes-to_bytes}
use hashing_old_archive.RadixSpline.Search.{leading}
use hashing_old_archive.RadixSpline.Segment.{IsIndexed, below, get_spline_segment-leading}

abbrev toy : Doubles ℕ
toy = record {
  of_nat = λ n. n;
  to_nat = λ n. n;
  plus = λ a b. a + b;
  minus = λ a b. a - b;
  divided = λ a b. a / b;
  fma = λ a b c. a * b + c;
  negated = λ a. a;
  less = ltb;
  epsilon = 0;
}

abbrev unset : Coord ℕ
unset = record { x = 0; y = 0 }

-- The leading zeros of a number from 8 to 15 in 64 bits.
abbrev clz : ℕ → ℕ
clz a = 60

abbrev keys : List ℕ
keys = 12 ∷ 13 ∷ 20 ∷ []

build-IsIndexed_example :
    (m : RadixSpline ℕ) × (build 64 toy clz unset 2 1 10 keys ≡ some m)
    × IsIndexed 64 m
    × (m.min_key ≡ 10)
    × (m.max_key ≡ 20)
    × (m.num_keys ≡ 4)
build-IsIndexed_example =
    build-IsIndexed 64 toy clz unset 2 1 10 keys (omega arith) (omega arith) (omega arith)
      (omega arith, (omega arith, (omega arith, tt))) (omega arith) (omega arith) (omega arith)
      (omega arith) (omega arith)

abbrev point : ℕ → ℕ → Coord ℕ
point x y = record { x = x; y = y }

abbrev four : RadixSpline ℕ
four = record {
  min_key = 10;
  max_key = 20;
  num_keys = 4;
  num_radix_bits = 2;
  num_shift_bits = 2;
  max_error = 1;
  radix_table = 0 ∷ 3 ∷ 3 ∷ 4 ∷ [];
  spline_points = point 10 0 ∷ point 12 1 ∷ point 13 2 ∷ point 20 3 ∷ [];
}

build-four : build 64 toy clz unset 2 1 10 keys ≡ some four
unfolding build shifts_defined add_keys add_key possibly_add_key_to_spline add_key_to_spline
    possibly_add_key_to_radix_table new get_num_shift_bits prefix_of back cuts compute_orientation
    lower_y_of narrowed set_limits remember_previous_cdf_point finalize close_spline
    finalize_radix_table fill
build-four = refl

four-IsIndexed : IsIndexed 64 four
four-IsIndexed =
    let e : build-IsIndexed_example.0 ≡ four =
      some_inj (sym build-IsIndexed_example.1 ∙ build-four) in
    rw e at build-IsIndexed_example.2
  where
    some_inj : {a b : RadixSpline ℕ} → some a ≡ some b → a ≡ b
    some_inj e = cc

get_spline_segment-leading_example :
    get_spline_segment 64 four 14 ≡ some (leading (below 14) four.spline_points)
get_spline_segment-leading_example =
    get_spline_segment-leading 64 four-IsIndexed 14 (omega arith) (omega arith)

segment-of_fourteen : leading (below 14) four.spline_points ≡ 3
unfolding leading
segment-of_fourteen = refl

get_search_bound-total_example :
    (y : ℕ) × (get_estimated_position 64 toy four 14 ≡ some y)
    × (get_search_bound 64 toy four 14 ≡ some (bound_around 1 4 y))
get_search_bound-total_example = get_search_bound-total 64 toy four-IsIndexed 14

prefix_of-lt_example :
    (get_num_shift_bits clz 64 (minus_word 64 20 10) 2 < 64)
    × (prefix_of 64 10 (get_num_shift_bits clz 64 (minus_word 64 20 10) 2) 20 < 2 ^ 2)
prefix_of-lt_example =
    prefix_of-lt clz 64 10 20 2 (omega arith) (omega arith) (omega arith) (omega arith)

bound_around-covers_example :
    ((bound_around 2 10 5).begin ≤ 4)
    × (4 < (bound_around 2 10 5).end)
    × ((bound_around 2 10 5).end ≤ 10)
bound_around-covers_example =
    bound_around-covers 2 10 5 4 (omega arith) (omega arith) (omega arith) (omega arith)
      (omega arith)

from_bytes-to_bytes_example : from_bytes 8 (λ n. n) (to_bytes 8 (λ y. y) four []) ≡ some four
from_bytes-to_bytes_example =
    from_bytes-to_bytes 8 (λ y. y) (λ n. n) four (omega arith) (omega arith) (omega arith)
      (omega arith) (omega arith) (omega arith) (omega arith)
      (omega arith, (omega arith, (omega arith, (omega arith, tt)))) (omega arith)
      (
        portable,
        (
          portable_next 12 1 (omega arith) (omega arith),
          (
            portable_next 13 2 (omega arith) (omega arith),
            (portable_next 20 3 (omega arith) (omega arith), tt),
          ),
        ),
      )
  where
    portable : IsPortable 8 (λ y. y) (λ n. n) (point 10 0)
    portable = (omega arith, omega arith, refl)

    portable_next :
        (x y : ℕ) → x < 256 ^ 8 → y < 256 ^ 8 → IsPortable 8 (λ y. y) (λ n. n) (point x y)
    portable_next x y a b = (a, b, refl)
