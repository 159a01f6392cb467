-- ===== src/RadixSpline/Bound.antt =====
-- The estimate and the search bound of a finished model.
use hashing_old_archive.Prelude.{
  ℕ, zero, suc, ◌+◌, ◌^◌, ◌<◌, ◌≤◌, ◌≡◌, refl, true, false, List, [], ◌∷◌, some, leb, length,
  get_elem?, arith, inl, inr, ap, lt_cases,
}
use native.Mathlib.Nat.{mod-eq_of_lt}
use hashing_old_archive.RadixSpline.{
  Doubles, Coord, RadixSpline, bound_around, get_estimated_position, get_search_bound, interpolate,
}
use hashing_old_archive.RadixSpline.Search.{leading, get-some}
use hashing_old_archive.RadixSpline.Segment.{IsIndexed, below, get_spline_segment-leading, inside}

-- If the estimate is in the array and its error window does not wrap in 64 bits, each position in the
-- array that is off by at most the maximal error is in the search bound, which ends in the array.
pub bound_around-covers :
    (max_error num_keys estimate position : ℕ)
    → estimate < num_keys
    → estimate + max_error + 2 < 2 ^ 64
    → position < num_keys
    → position ≤ estimate + max_error
    → estimate ≤ position + max_error
    → ((bound_around max_error num_keys estimate).begin ≤ position)
      × (position < (bound_around max_error num_keys estimate).end)
      × ((bound_around max_error num_keys estimate).end ≤ num_keys)
unfolding bound_around
bound_around-covers max_error num_keys estimate position here small there high low =
    rw (mod-eq_of_lt {n = estimate + max_error + 2} {m = 2 ^ 64} small) (ground arith)

module _ {D : Type 0} (w : ℕ) (d : Doubles D) {m : RadixSpline D} (valid : IsIndexed w m) where
  starts_before : (key : ℕ) → m.min_key < key → 0 < leading (below key) m.spline_points
  unfolding leading
  starts_before key lt = first m.spline_points valid.starts.1 (rw valid.starts.2 lt)
    where
      first :
          (l : List (Coord D))
          → get_elem? l 0 ≡ some valid.starts.0
          → valid.starts.0.x < key
          → 0 < leading (below key) l
      first [] e h = cc
      first (c ∷ l) e h = let f : c ≡ valid.starts.0 = cc in rw (ap (λ z. z.x) f) (ground arith)

  interpolated :
      (key segment : ℕ)
      → 0 < segment
      → segment < length m.spline_points
      → (y : D) × (interpolate w d m key segment ≡ some y)
  unfolding interpolate
  interpolated key zero pos lt = absurd (omega arith)
  interpolated key (suc below) pos lt =
      let (down, e) = get-some m.spline_points below (omega arith) in
      let (up, f) = get-some m.spline_points (suc below) lt in rw (e, interpolate, f) (_, refl)

  -- A finished model estimates a position for every key, and reads nothing out of range for it.
  pub get_estimated_position-total :
      (key : ℕ) → (y : D) × (get_estimated_position w d m key ≡ some y)
  unfolding get_estimated_position
  get_estimated_position-total key = elim (lt_cases m.min_key key) [
    | inr le ↦
        let e : leb key m.min_key ≡ true = ground arith in rw (e, get_estimated_position) (_, refl)
    | inl above ↦
        let e : leb key m.min_key ≡ false = ground arith in
        elim (lt_cases key m.max_key) [
          | inr le ↦
              let f : leb m.max_key key ≡ true = ground arith in
              rw (e, get_estimated_position, f) (_, refl)
          | inl under ↦
              let f : leb m.max_key key ≡ false = ground arith in
              let at = get_spline_segment-leading w valid key (omega arith) (omega arith) in
              rw (e, get_estimated_position, f, get_estimated_position, at)
                (interpolated key (leading (below key) m.spline_points) (starts_before key above)
                  (inside w valid key (omega arith) (omega arith)))
        ]
  ]

  -- A finished model computes an estimate and a search bound around it for every key, without reading
  -- its table or its points out of range and without an undefined shift.
  pub get_search_bound-total :
      (key : ℕ)
      → (y : D) × (get_estimated_position w d m key ≡ some y)
        × (get_search_bound w d m key ≡ some (bound_around m.max_error m.num_keys (d.to_nat y)))
  unfolding get_search_bound
  get_search_bound-total key =
      let (y, e) = get_estimated_position-total key in (y, e, rw (e, get_search_bound) refl)
