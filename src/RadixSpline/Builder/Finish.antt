-- ===== src/RadixSpline/Builder/Finish.antt =====
-- `Finalize` on a builder that has seen its largest key.
use hashing_old_archive.Prelude.{
  ℕ, ◌+◌, ◌-◌, ◌%◌, ◌^◌, ◌<◌, ◌≤◌, ◌≡◌, refl, false, List, [], ◌∷◌, ◌++◌, some, ◌==◌, length, arith,
  inl, inr, ◌∙◌, sym, ap, length-append, lt_cases, eq_cases, ==_refl, ==_of_ne,
}
use native.Mathlib.Nat.{mod-eq_of_lt, pow-le-pow_right}
use hashing_old_archive.RadixSpline.{Doubles, Coord, RadixSpline, prefix_of}
use hashing_old_archive.RadixSpline.Segment.{IsIndexed, below}
use hashing_old_archive.RadixSpline.Builder.{
  Builder, fill, finalize_radix_table, finalize, close_spline, model, new,
}
use hashing_old_archive.RadixSpline.Builder.Invariant.{
  IsGrown, add_key_to_spline-IsGrown, All-under,
}
use hashing_old_archive.RadixSpline.Builder.Points.{leading-All, leading-lt-length}
use hashing_old_archive.RadixSpline.Builder.Step.{IsBuilding}
use hashing_old_archive.RadixSpline.Builder.Table.{fill-Filled}

module _ {D : Type 0} (w : ℕ) (d : Doubles D) where
  -- The last key stands on the spline, if it has been the largest.
  close_spline-IsGrown :
      {min_key max_key n : ℕ} {b : Builder D}
      → IsBuilding w min_key max_key n b
      → n + 1 < 2 ^ 32
      → (b' : Builder D) × (last : Coord D) × (close_spline w d b ≡ some b')
        × IsGrown w b'.min_key b'.max_key b'.num_shift_bits b'.spline_points b'.radix_table last
        × (last.x ≡ b.prev_key)
        × (b'.prev_prefix ≡ prefix_of w b'.min_key b'.num_shift_bits last.x)
        × (b'.min_key ≡ min_key)
        × (b'.max_key ≡ max_key)
        × (b'.curr_num_keys ≡ n)
        × (length b'.spline_points ≤ n + 1)
  unfolding close_spline
  close_spline-IsGrown {b = b} building small =
      let not_empty : (b.curr_num_keys == 0) ≡ false =
        ground (arith, building.counted, building.some_keys) in
      elim (eq_cases building.last.x b.prev_key) [
        | inl same ↦ (
          b,
          building.last,
          rw (not_empty, close_spline, building.grown.last_is, close_spline, same, ==_refl) refl,
          building.grown,
          same,
          building.at_last,
          building.min_is,
          building.max_is,
          building.counted,
          omega (arith, building.fewer, building.few),
        )
        | inr differs ↦
            let before : building.last.x < b.prev_key = elim (lt_cases 1 b.curr_num_distinct_keys) [
              | inl l ↦ building.later l
              | inr g ↦ absurd (differs (building.once (omega (arith, building.distinct))))
            ] in
            let (table, e, grown) =
              add_key_to_spline-IsGrown w b building.last building.grown building.at_last
                (omega (arith, building.fewer, building.few, small))
                (record { x = b.prev_key; y = d.of_nat b.prev_position }) before building.high in
            (
              record b {
                spline_points =
                    b.spline_points
                    ++ (record { x = b.prev_key; y = d.of_nat b.prev_position } ∷ []);
                radix_table = table;
                prev_prefix = prefix_of w b.min_key b.num_shift_bits b.prev_key;
              },
              record { x = b.prev_key; y = d.of_nat b.prev_position },
              rw
                  (
                    not_empty,
                    close_spline,
                    building.grown.last_is,
                    close_spline,
                    ==_of_ne building.last.x b.prev_key differs,
                  )
                  e,
              grown,
              refl,
              refl,
              building.min_is,
              building.max_is,
              building.counted,
              rw length-append (omega (arith, building.fewer, building.few)),
            )
      ]

  finalize_radix_table_lem :
      (b : Builder D) (p : ℕ) (table : List ℕ)
      → (b.prev_prefix + 1) % 2 ^ w ≡ p
      → fill (length b.radix_table - p) p (length b.spline_points % 2 ^ 32) b.radix_table
        ≡ some table
      → finalize_radix_table w b
        ≡ some (record b { radix_table = table; prev_prefix = length b.radix_table })
  unfolding finalize_radix_table
  finalize_radix_table_lem b p table from f = rw (from, finalize_radix_table, f) refl

  -- The rest of the table is the number of points.
  closed-IsIndexed :
      (b : Builder D) (last : Coord D)
      → IsGrown w b.min_key b.max_key b.num_shift_bits b.spline_points b.radix_table last
      → last.x ≡ b.max_key
      → b.prev_prefix ≡ prefix_of w b.min_key b.num_shift_bits last.x
      → length b.spline_points + 1 < 2 ^ 32
      → 32 ≤ w
      → (b' : Builder D) × (finalize_radix_table w b ≡ some b')
        × IsIndexed w (model w d b')
        × (b'.min_key ≡ b.min_key)
        × (b'.max_key ≡ b.max_key)
        × (b'.curr_num_keys ≡ b.curr_num_keys)
  closed-IsIndexed b last grown at_top at_last few wide =
      let here : b.prev_prefix ≡ prefix_of w b.min_key b.num_shift_bits b.max_key =
        at_last ∙ ap (prefix_of w b.min_key b.num_shift_bits) at_top in
      let room : 2 ^ 32 ≤ 2 ^ w = pow-le-pow_right (omega arith) wide in
      let from : (b.prev_prefix + 1) % 2 ^ w ≡ b.prev_prefix + 1 =
        mod-eq_of_lt {n = b.prev_prefix + 1} {m = 2 ^ w} (omega (arith, here, grown.fits)) in
      let (table, f, filled) =
        fill-Filled (length b.radix_table - (b.prev_prefix + 1)) (b.prev_prefix + 1)
          (length b.spline_points % 2 ^ 32) b.radix_table (omega (arith, here, grown.table_size)) in
      (
        record b { radix_table = table; prev_prefix = length b.radix_table },
        finalize_radix_table_lem b (b.prev_prefix + 1) table from f,
        record {
          word = grown.word;
          shift = grown.narrow;
          ascending = grown.ascending;
          within = grown.within;
          starts = grown.starts;
          ends =
              leading-lt-length (below b.max_key) b.spline_points last grown.last_is
                (rw at_top (ground arith));
          table = λ p le. elim (lt_cases b.prev_prefix p) [
            | inr old ↦ filled.kept p (omega arith) ∙ grown.entries p (omega (arith, at_last))
            | inl new ↦
                filled.written p (omega arith) (omega (arith, here, grown.table_size))
                ∙ ap (λ x. some x)
                    (omega (
                      arith,
                      few,
                      leading-All _ b.spline_points
                          (All-under w b last grown at_last few p (omega (arith, at_last))),
                    ))
          ];
        },
        refl,
        refl,
        refl,
      )

  pub finalize-IsIndexed :
      {min_key max_key n : ℕ} {b : Builder D}
      → 32 ≤ w
      → IsBuilding w min_key max_key n b
      → n + 2 < 2 ^ 32
      → b.prev_key ≡ max_key
      → (m : RadixSpline D) × (finalize w d b ≡ some m)
        × IsIndexed w m
        × (m.min_key ≡ min_key)
        × (m.max_key ≡ max_key)
        × (m.num_keys ≡ n)
  unfolding finalize
  finalize-IsIndexed wide building small done =
      let (b', last, e, grown, top, at_last, min_is, max_is, counted, few) =
        close_spline-IsGrown building (omega (arith, small)) in
      let (b'', e', indexed, min_same, max_same, count_same) =
        closed-IsIndexed b' last grown (top ∙ done ∙ sym max_is) at_last (omega (arith, few, small))
          wide in
      (
        model w d b'',
        rw (e, finalize, e') refl,
        indexed,
        min_same ∙ min_is,
        max_same ∙ max_is,
        count_same ∙ counted,
      )
