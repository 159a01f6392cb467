-- ===== src/RadixSpline/Builder/Step.antt =====
-- `AddKey` on a builder that has seen keys.
use hashing_old_archive.Prelude.{
  ℕ, ◌+◌, ◌%◌, ◌^◌, ◌<◌, ◌≤◌, ◌≡◌, ◌≢◌, refl, true, false, [], ◌∷◌, ◌++◌, some, ◌==◌, length, arith,
  Bool-cases, inl, inr, ◌∙◌, sym, length-append, lt_cases, eq_cases, ==_refl, ==_of_ne,
}
use hashing_old_archive.RadixSpline.{Doubles, Coord, prefix_of}
use hashing_old_archive.RadixSpline.Builder.{
  Builder, possibly_add_key_to_spline, add_key, cuts, narrowed, set_limits,
  remember_previous_cdf_point,
}
use hashing_old_archive.RadixSpline.Builder.Invariant.{IsGrown, add_key_to_spline-IsGrown}

module _ {D : Type 0} (w : ℕ) where
  -- A builder that has seen `n` keys, the last one of them `prev_key`.
  pub record IsBuilding (min_key max_key n : ℕ) (b : Builder D) : Type 0 where
    pub min_is : b.min_key ≡ min_key
    pub max_is : b.max_key ≡ max_key
    pub last : Coord D
    pub grown : IsGrown w b.min_key b.max_key b.num_shift_bits b.spline_points b.radix_table last
    pub at_last : b.prev_prefix ≡ prefix_of w b.min_key b.num_shift_bits last.x
    pub counted : b.curr_num_keys ≡ n
    pub some_keys : 0 < n
    pub distinct : 0 < b.curr_num_distinct_keys
    pub few : b.curr_num_distinct_keys ≤ n
    pub fewer : length b.spline_points ≤ b.curr_num_distinct_keys
    pub remembered : b.prev_point.x ≡ b.prev_key
    pub high : b.prev_key ≤ b.max_key
    pub once : b.curr_num_distinct_keys ≡ 1 → last.x ≡ b.prev_key
    pub later : 1 < b.curr_num_distinct_keys → last.x < b.prev_key

  -- What `AddKey` sets after the spline.
  abbrev pub seen : ℕ → ℕ → Builder D → Builder D
  seen key position b = record b {
    curr_num_keys = (b.curr_num_keys + 1) % 2 ^ 64;
    prev_key = key;
    prev_position = position;
  }

  module _ (d : Doubles D) {min_key max_key n : ℕ} {b : Builder D}
      (building : IsBuilding min_key max_key n b) (key : ℕ) (from : b.prev_key ≤ key)
      (to : key ≤ max_key) (small : n + 2 < 2 ^ 32) where
    abbrev Steps : D → Type 0
    Steps y =
        (b' : Builder D) × (possibly_add_key_to_spline w d key y b ≡ some b')
        × ((position : ℕ) → IsBuilding min_key max_key (n + 1) (seen key position b'))

    not-first : (b.curr_num_keys == 0) ≡ false
    not-first = ground (arith, building.counted, building.some_keys)

    same-Steps : key ≡ b.prev_key → (y : D) → Steps y
    unfolding possibly_add_key_to_spline
    same-Steps same y = (
      b,
      rw (not-first, possibly_add_key_to_spline, same, ==_refl) refl,
      λ position. record {
        min_is = building.min_is;
        max_is = building.max_is;
        last = building.last;
        grown = building.grown;
        at_last = building.at_last;
        counted = omega (arith, building.counted, small);
        some_keys = omega arith;
        distinct = building.distinct;
        few = omega (arith, building.few);
        fewer = building.fewer;
        remembered = building.remembered ∙ sym same;
        high = omega (arith, building.max_is);
        once = λ e. building.once e ∙ sym same;
        later = λ h. omega (arith, building.later h);
      },
    )

    more : (b.curr_num_distinct_keys + 1) % 2 ^ 64 ≡ b.curr_num_distinct_keys + 1
    more = omega (arith, building.few, small)

    -- A new key that adds no point to the spline.
    kept-IsBuilding :
        b.prev_key < key
        → (b' : Builder D)
        → (b'.min_key ≡ b.min_key)
          × (b'.max_key ≡ b.max_key)
          × (b'.num_shift_bits ≡ b.num_shift_bits)
          × (b'.spline_points ≡ b.spline_points)
          × (b'.radix_table ≡ b.radix_table)
          × (b'.prev_prefix ≡ b.prev_prefix)
          × (b'.curr_num_keys ≡ b.curr_num_keys)
          × (b'.curr_num_distinct_keys ≡ (b.curr_num_distinct_keys + 1) % 2 ^ 64)
          × (b'.prev_point.x ≡ key)
        → (position : ℕ) → IsBuilding min_key max_key (n + 1) (seen key position b')
    kept-IsBuilding lt b' (e1, e2, e3, e4, e5, e6, e7, e8, e9) position = record {
      min_is = e1 ∙ building.min_is;
      max_is = e2 ∙ building.max_is;
      last = building.last;
      grown = rw (e1, e2, e3, e4, e5) building.grown;
      at_last = rw (e1, e3, e6) building.at_last;
      counted = omega (arith, building.counted, small);
      some_keys = omega arith;
      distinct = omega (arith, more);
      few = omega (arith, more, building.few);
      fewer = rw e4 (omega (arith, more, building.fewer));
      remembered = e9;
      high = omega (arith, building.max_is);
      once = λ e. absurd (omega (arith, more, building.distinct));
      later = λ h. elim (lt_cases 1 b.curr_num_distinct_keys) [
        | inl l ↦ omega (arith, building.later l)
        | inr g ↦ omega (arith, building.once (omega (arith, building.distinct)))
      ];
    }

    module _ (lt : b.prev_key < key) (y : D) where
      abbrev counted_up : Builder D
      counted_up = record b { curr_num_distinct_keys = (b.curr_num_distinct_keys + 1) % 2 ^ 64 }

      differs : (key == b.prev_key) ≡ false
      differs = ground arith

      second-Steps : (b.curr_num_distinct_keys + 1) % 2 ^ 64 ≡ 2 → Steps y
      unfolding possibly_add_key_to_spline set_limits remember_previous_cdf_point
      second-Steps two = (
        remember_previous_cdf_point w d key y (set_limits w d key y counted_up),
        (let e : ((b.curr_num_distinct_keys + 1) % 2 ^ 64 == 2) ≡ true = ground arith in
            rw (not-first, possibly_add_key_to_spline, differs, e) refl),
        kept-IsBuilding lt (remember_previous_cdf_point w d key y (set_limits w d key y counted_up))
            (refl, refl, refl, refl, refl, refl, refl, refl, refl),
      )

      module _ (past_two : (b.curr_num_distinct_keys + 1) % 2 ^ 64 ≢ 2) where
        not-second : ((b.curr_num_distinct_keys + 1) % 2 ^ 64 == 2) ≡ false
        not-second = ==_of_ne _ 2 past_two

        narrowed-Steps : cuts w d counted_up building.last key y ≡ false → Steps y
        unfolding possibly_add_key_to_spline narrowed remember_previous_cdf_point
        narrowed-Steps inside = (
          remember_previous_cdf_point w d key y (narrowed w d counted_up building.last key y),
          rw
              (
                not-first, possibly_add_key_to_spline, differs, not-second, building.grown.last_is,
                inside,
              )
              refl,
          kept-IsBuilding lt
              (remember_previous_cdf_point w d key y (narrowed w d counted_up building.last key y))
              (refl, refl, refl, refl, refl, refl, refl, refl, refl),
        )

        cut-Steps : cuts w d counted_up building.last key y ≡ true → Steps y
        unfolding possibly_add_key_to_spline set_limits remember_previous_cdf_point
        cut-Steps outside =
            let many : 1 < b.curr_num_distinct_keys = elim (lt_cases 1 b.curr_num_distinct_keys) [
              | inl l ↦ l
              | inr g ↦ absurd (past_two (omega (arith, more, building.distinct)))
            ] in
            let before : building.last.x < b.prev_point.x =
              omega (arith, building.remembered, building.later many) in
            let (table, e, grown) =
              add_key_to_spline-IsGrown w counted_up building.last building.grown building.at_last
                (omega (arith, building.fewer, building.few, small)) b.prev_point before
                (omega (arith, building.remembered, building.high)) in
            (
              remember_previous_cdf_point w d key y (
                  set_limits w d key y (record counted_up {
                    spline_points = b.spline_points ++ (b.prev_point ∷ []);
                    radix_table = table;
                    prev_prefix = prefix_of w b.min_key b.num_shift_bits b.prev_point.x;
                  })),
              rw
                  (
                    not-first, possibly_add_key_to_spline, differs, not-second,
                    building.grown.last_is, outside, e,
                  )
                  refl,
              λ position. record {
                min_is = building.min_is;
                max_is = building.max_is;
                last = b.prev_point;
                grown = grown;
                at_last = refl;
                counted = omega (arith, building.counted, small);
                some_keys = omega arith;
                distinct = omega (arith, more);
                few = omega (arith, more, building.few);
                fewer = rw length-append (omega (arith, more, building.fewer));
                remembered = refl;
                high = omega (arith, building.max_is);
                once = λ one. absurd (omega (arith, more, building.distinct, one));
                later = λ h. omega (arith, building.remembered);
              },
            )

    possibly_add_key_to_spline-Steps : (y : D) → Steps y
    possibly_add_key_to_spline-Steps y = elim (eq_cases key b.prev_key) [
      | inl same ↦ same-Steps same y
      | inr differs ↦
          let lt : b.prev_key < key = omega arith in
          elim (eq_cases ((b.curr_num_distinct_keys + 1) % 2 ^ 64) 2) [
            | inl two ↦ second-Steps lt y two
            | inr past_two ↦ elim (Bool-cases (cuts w d (counted_up lt y) building.last key y)) [
              | inl outside ↦ cut-Steps lt y past_two outside
              | inr inside ↦ narrowed-Steps lt y past_two inside
            ]
          ]
    ]

    -- A key that is not below the last one is added.
    pub add_key-IsBuilding :
        (b' : Builder D) × (add_key w d key b ≡ some b')
        × IsBuilding min_key max_key (n + 1) b'
        × (b'.prev_key ≡ key)
    unfolding add_key
    add_key-IsBuilding =
        let position = (b.prev_position + 1) % 2 ^ 64 in
        let (b', e, building') = possibly_add_key_to_spline-Steps (d.of_nat position) in
        (
          seen key position b',
          rw (not-first, add_key, e) (rw not-first refl),
          building' position,
          refl,
        )
