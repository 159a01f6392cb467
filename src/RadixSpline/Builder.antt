-- ===== src/RadixSpline/Builder.antt =====
-- `Builder` of learned_models/rs/builder.h, which builds a model in one pass over sorted keys.
-- A result of none stands for a read or a write out of range, or for an undefined shift. The asserts are left out.
pub mod Points
pub mod Table
pub mod Invariant
pub mod Step
pub mod Finish
pub mod Whole
use hashing_old_archive.Prelude.{
  ℕ, zero, suc, ◌+◌, ◌-◌, ◌/◌, ◌%◌, ◌^◌, Bool, true, false, not, ◌&&◌, ◌||◌, List, [], ◌∷◌, ◌++◌,
  Option, none, some, ◌==◌, ltb, if◌then◌else◌, length, get_elem?, set, replicate,
}
use hashing_old_archive.RadixSpline.{Doubles, Coord, RadixSpline, minus_word, prefix_of}

pub record Builder (D : Type 0) : Type 0 where
  pub min_key : ℕ
  pub max_key : ℕ
  pub num_radix_bits : ℕ
  pub num_shift_bits : ℕ
  pub max_error : ℕ
  pub radix_table : List ℕ
  pub spline_points : List (Coord D)
  pub curr_num_keys : ℕ
  pub curr_num_distinct_keys : ℕ
  pub prev_key : ℕ
  pub prev_position : ℕ
  pub prev_prefix : ℕ
  pub upper_limit : Coord D
  pub lower_limit : Coord D
  pub prev_point : Coord D

-- `GetNumShiftBits` for keys of w bits, with the compiler's count of leading zeros.
unfoldable pub get_num_shift_bits : (ℕ → ℕ) → ℕ → ℕ → ℕ → ℕ
get_num_shift_bits clz w diff num_radix_bits =
    if ltb (w - clz diff) num_radix_bits then 0 else w - num_radix_bits - clz diff

-- Whether the constructor's count of leading zeros and its shift are defined: the count is not of
-- zero, and the shift is below the width of the key.
unfoldable pub shifts_defined : (ℕ → ℕ) → ℕ → ℕ → ℕ → Bool
shifts_defined clz w diff num_radix_bits =
    ltb 0 diff && ltb (get_num_shift_bits clz w diff num_radix_bits) w

-- The constructor; the limits and the previous point are not initialised.
unfoldable pub new : {D : Type 0} → (ℕ → ℕ) → ℕ → Coord D → ℕ → ℕ → ℕ → ℕ → Builder D
new clz w unset min_key max_key num_radix_bits max_error =
    let num_shift_bits = get_num_shift_bits clz w (minus_word w max_key min_key) num_radix_bits in
    let max_prefix = prefix_of w min_key num_shift_bits max_key % 2 ^ 32 in
    record {
      min_key = min_key;
      max_key = max_key;
      num_radix_bits = num_radix_bits;
      num_shift_bits = num_shift_bits;
      max_error = max_error;
      radix_table = replicate ((max_prefix + 2) % 2 ^ 32) 0;
      spline_points = [];
      curr_num_keys = 0;
      curr_num_distinct_keys = 0;
      prev_key = min_key;
      prev_position = 0;
      prev_prefix = 0;
      upper_limit = unset;
      lower_limit = unset;
      prev_point = unset;
    }

-- `n` writes of the same value, from an index on.
unfoldable pub fill : ℕ → ℕ → ℕ → List ℕ → Option (List ℕ)
fill zero index v table = some table
fill (suc n) index v table = elim (get_elem? table index) [
  | none ↦ none
  | some old ↦ fill n (index + 1) v (set table index v)
]

-- `spline_points_.back()`
unfoldable pub back {ℓ} : {A : Type ℓ} → List A → Option A
back [] = none
back (a ∷ []) = some a
back (a ∷ b ∷ l) = back (b ∷ l)

-- The last of the keys that begin with `from`.
abbrev pub last_of : ℕ → List ℕ → ℕ
last_of from [] = from
last_of from (key ∷ keys) = last_of key keys

pub data Orientation : Type 0 where
  collinear : Orientation
  cw : Orientation
  ccw : Orientation

abbrev pub is_cw : Orientation → Bool
is_cw cw = true
is_cw _ = false

abbrev pub is_ccw : Orientation → Bool
is_ccw ccw = true
is_ccw _ = false

module _ {D : Type 0} (w : ℕ) where
  -- `PossiblyAddKeyToRadixTable`
  unfoldable pub possibly_add_key_to_radix_table : ℕ → Builder D → Option (Builder D)
  possibly_add_key_to_radix_table key b =
      let curr_prefix = prefix_of w b.min_key b.num_shift_bits key in
      let curr_index = minus_word 64 (length b.spline_points) 1 % 2 ^ 32 in
      if curr_prefix == b.prev_prefix
      then some b
      else elim (fill (curr_prefix - b.prev_prefix) (b.prev_prefix + 1) curr_index b.radix_table) [
        | none ↦ none
        | some table ↦ some (record b { radix_table = table; prev_prefix = curr_prefix })
      ]

  -- `AddKeyToSpline`
  unfoldable pub add_key_to_spline : ℕ → D → Builder D → Option (Builder D)
  add_key_to_spline key position b =
      possibly_add_key_to_radix_table key
        (record b { spline_points = b.spline_points ++ (record { x = key; y = position } ∷ []) })

  -- `FinalizeRadixTable`
  unfoldable pub finalize_radix_table : Builder D → Option (Builder D)
  finalize_radix_table b =
      let from = (b.prev_prefix + 1) % 2 ^ w in
      elim (fill (length b.radix_table - from) from (length b.spline_points % 2 ^ 32)
        b.radix_table) [
          | none ↦ none
          | some table ↦ some (record b { radix_table = table; prev_prefix = length b.radix_table })
        ]

  module _ (d : Doubles D) where
    unfoldable pub compute_orientation : D → D → D → D → Orientation
    compute_orientation dx1 dy1 dx2 dy2 =
        let expr = d.fma dy1 dx2 (d.negated (d.fma dy2 dx1 (d.of_nat 0))) in
        if d.less d.epsilon expr
        then cw
        else (if d.less expr (d.negated d.epsilon) then ccw else collinear)

    unfoldable pub lower_y_of : ℕ → D → D
    lower_y_of max_error position =
        if d.less position (d.of_nat max_error)
        then d.of_nat 0
        else d.minus position (d.of_nat max_error)

    -- Whether the new point cuts the error corridor, seen from the last point of the spline.
    unfoldable pub cuts : Builder D → Coord D → ℕ → D → Bool
    cuts b last key position =
        let upper_limit_x_diff = d.of_nat (minus_word w b.upper_limit.x last.x) in
        let lower_limit_x_diff = d.of_nat (minus_word w b.lower_limit.x last.x) in
        let x_diff = d.of_nat (minus_word w key last.x) in
        let upper_limit_y_diff = d.minus b.upper_limit.y last.y in
        let lower_limit_y_diff = d.minus b.lower_limit.y last.y in
        let y_diff = d.minus position last.y in
        not (is_cw (compute_orientation upper_limit_x_diff upper_limit_y_diff x_diff y_diff))
        || not (is_ccw (compute_orientation lower_limit_x_diff lower_limit_y_diff x_diff y_diff))

    -- The limits after a point that stays in the corridor.
    unfoldable pub narrowed : Builder D → Coord D → ℕ → D → Builder D
    narrowed b last key position =
        let upper_y = d.plus position (d.of_nat b.max_error) in
        let lower_y = lower_y_of b.max_error position in
        let upper_limit_x_diff = d.of_nat (minus_word w b.upper_limit.x last.x) in
        let lower_limit_x_diff = d.of_nat (minus_word w b.lower_limit.x last.x) in
        let x_diff = d.of_nat (minus_word w key last.x) in
        let upper_limit_y_diff = d.minus b.upper_limit.y last.y in
        let lower_limit_y_diff = d.minus b.lower_limit.y last.y in
        record b {
          upper_limit =
              if is_cw (
                compute_orientation upper_limit_x_diff upper_limit_y_diff x_diff
                  (d.minus upper_y last.y))
              then record { x = key; y = upper_y }
              else b.upper_limit;
          lower_limit =
              if is_ccw (
                compute_orientation lower_limit_x_diff lower_limit_y_diff x_diff
                  (d.minus lower_y last.y))
              then record { x = key; y = lower_y }
              else b.lower_limit;
        }

    -- `SetUpperLimit` and `SetLowerLimit` around a point.
    unfoldable pub set_limits : ℕ → D → Builder D → Builder D
    set_limits key position b = record b {
      upper_limit = record { x = key; y = d.plus position (d.of_nat b.max_error) };
      lower_limit = record { x = key; y = lower_y_of b.max_error position };
    }

    -- `RememberPreviousCDFPoint`
    unfoldable pub remember_previous_cdf_point : ℕ → D → Builder D → Builder D
    remember_previous_cdf_point key position b = record b {
      prev_point = record { x = key; y = position };
    }

    -- `PossiblyAddKeyToSpline`
    unfoldable pub possibly_add_key_to_spline : ℕ → D → Builder D → Option (Builder D)
    possibly_add_key_to_spline key position b =
        let counted = record b {
          curr_num_distinct_keys = (b.curr_num_distinct_keys + 1) % 2 ^ 64;
        } in
        if b.curr_num_keys == 0
        then elim (add_key_to_spline key position b) [
          | none ↦ none
          | some b' ↦ some (
              remember_previous_cdf_point key position
                (record b' { curr_num_distinct_keys = (b'.curr_num_distinct_keys + 1) % 2 ^ 64 }))
        ]
        else (if key == b.prev_key
            then some b
            else (if counted.curr_num_distinct_keys == 2
                then some
                    (remember_previous_cdf_point key position (set_limits key position counted))
                else elim (back b.spline_points) [
                  | none ↦ none
                  | some last ↦ elim (cuts counted last key position) [
                    | true ↦
                        elim (add_key_to_spline counted.prev_point.x counted.prev_point.y counted) [
                          | none ↦ none
                          | some b' ↦ some (
                              remember_previous_cdf_point key position (set_limits key position b'))
                        ]
                    | false ↦ some (
                        remember_previous_cdf_point key position
                          (narrowed counted last key position))
                  ]
                ]))

    -- `AddKey`, both overloads.
    unfoldable pub add_key : ℕ → Builder D → Option (Builder D)
    add_key key b =
        let position = if b.curr_num_keys == 0 then 0 else (b.prev_position + 1) % 2 ^ 64 in
        elim (possibly_add_key_to_spline key (d.of_nat position) b) [
          | none ↦ none
          | some b' ↦ some (record b' {
            curr_num_keys = (b'.curr_num_keys + 1) % 2 ^ 64;
            prev_key = key;
            prev_position = position;
          })
        ]

    -- The keys of a sorted array, one after the other.
    unfoldable pub add_keys : List ℕ → Builder D → Option (Builder D)
    add_keys [] b = some b
    add_keys (key ∷ keys) b = elim (add_key key b) [ none ↦ none | some b' ↦ add_keys keys b' ]

    abbrev pub model : Builder D → RadixSpline D
    model b = record {
      min_key = b.min_key;
      max_key = b.max_key;
      num_keys = b.curr_num_keys;
      num_radix_bits = b.num_radix_bits;
      num_shift_bits = b.num_shift_bits;
      max_error = b.max_error;
      radix_table = b.radix_table;
      spline_points = b.spline_points;
    }

    -- The last key becomes the last point of the spline.
    unfoldable pub close_spline : Builder D → Option (Builder D)
    close_spline b = if b.curr_num_keys == 0 then some b else elim (back b.spline_points) [
      | none ↦ none
      | some last ↦ elim (last.x == b.prev_key) [
        | true ↦ some b
        | false ↦ add_key_to_spline b.prev_key (d.of_nat b.prev_position) b
      ]
    ]

    -- `Finalize`
    unfoldable pub finalize : Builder D → Option (RadixSpline D)
    finalize b = elim (close_spline b) [
      | none ↦ none
      | some b' ↦ elim (finalize_radix_table b') [ none ↦ none | some b'' ↦ some (model b'') ]
    ]

    -- A model of a sorted array that begins with `key`, as the constructor of `MultiMap` builds it.
    unfoldable pub build : (ℕ → ℕ) → Coord D → ℕ → ℕ → ℕ → List ℕ → Option (RadixSpline D)
    build clz unset num_radix_bits max_error key keys =
        if shifts_defined clz w (minus_word w (last_of key keys) key) num_radix_bits
        then elim (add_keys (key ∷ keys)
            (new clz w unset key (last_of key keys) num_radix_bits max_error)) [
              | none ↦ none
              | some b ↦ finalize b
            ]
        else none
