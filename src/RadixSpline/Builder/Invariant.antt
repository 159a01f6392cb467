-- ===== src/RadixSpline/Builder/Invariant.antt =====
-- The points and the radix table under `AddKeyToSpline` of learned_models/rs/builder.h.
use hashing_old_archive.Prelude.{
  ℕ, ◌+◌, ◌-◌, ◌%◌, ◌^◌, ◌<◌, ◌≤◌, ◌≡◌, refl, Bool, true, List, [], ◌∷◌, ◌++◌, some, ltb, length,
  get_elem?, arith, All, inl, inr, ◌∙◌, sym, ap, length-append, lt_cases, eq_cases, ==_refl,
  ==_of_ne,
}
use hashing_old_archive.RadixSpline.{Coord, prefix_of, minus_word}
use hashing_old_archive.RadixSpline.Search.{leading}
use hashing_old_archive.RadixSpline.Segment.{IsAscending, prefix_mono}
use hashing_old_archive.RadixSpline.Builder.{
  Builder, back, possibly_add_key_to_radix_table, add_key_to_spline,
}
use hashing_old_archive.RadixSpline.Builder.Points.{
  back-append, All-append, All-map, All-back, back-bounds, append-IsAscending,
  leading-append_failed, leading-append_passed, get_elem?-append,
}
use hashing_old_archive.RadixSpline.Builder.Table.{fill-Filled}

module _ {D : Type 0} (w : ℕ) where
  -- The points and the radix table of a builder that has a last point.
  pub record IsGrown (min_key max_key shift : ℕ) (points : List (Coord D)) (table : List ℕ)
      (last : Coord D) : Type 0 where
    pub word : max_key < 2 ^ w
    pub narrow : shift < w
    pub fits : prefix_of w min_key shift max_key + 2 < 2 ^ 32
    pub ascending : IsAscending points
    pub within : All (λ c. (min_key ≤ c.x) × (c.x ≤ max_key)) points
    pub starts : (c : Coord D) × (get_elem? points 0 ≡ some c) × (c.x ≡ min_key)
    pub last_is : back points ≡ some last
    pub table_size : length table ≡ prefix_of w min_key shift max_key + 2
    pub entries :
        (p : ℕ)
        → p ≤ prefix_of w min_key shift last.x
        → get_elem? table p ≡ some (leading (λ c. ltb (prefix_of w min_key shift c.x) p) points)

  module _ (b : Builder D) (last : Coord D)
      (grown : IsGrown b.min_key b.max_key b.num_shift_bits b.spline_points b.radix_table last)
      (at_last : b.prev_prefix ≡ prefix_of w b.min_key b.num_shift_bits last.x)
      (few : length b.spline_points + 1 < 2 ^ 32) where
    abbrev prefix : ℕ → ℕ
    prefix key = prefix_of w b.min_key b.num_shift_bits key

    abbrev under_prefix : ℕ → Coord D → Bool
    under_prefix p c = ltb (prefix c.x) p

    last-within : (b.min_key ≤ last.x) × (last.x ≤ b.max_key)
    last-within = All-back _ b.spline_points last grown.last_is grown.within

    -- Every point has at most the prefix of the last one.
    pub All-under : (p : ℕ) → prefix last.x < p → All (λ c. under_prefix p c ≡ true) b.spline_points
    All-under p lt =
        All-map (λ c. (b.min_key ≤ c.x) × (c.x ≤ last.x)) (λ c. under_prefix p c ≡ true)
          b.spline_points
          (λ c h. ground (
            arith,
            prefix_mono w b.min_key b.num_shift_bits c.x last.x h.0 h.1
                (omega (arith, last-within, grown.word)),
          ))
          (both b.spline_points grown.within
            (back-bounds b.spline_points last grown.ascending grown.last_is))
      where
        both :
            (l : List (Coord D))
            → All (λ c. (b.min_key ≤ c.x) × (c.x ≤ b.max_key)) l
            → All (λ c. c.x ≤ last.x) l
            → All (λ c. (b.min_key ≤ c.x) × (c.x ≤ last.x)) l
        both [] h k = tt
        both (c ∷ l) h k = ((h.0.0, k.0), both l h.1 k.1)

    module _ (c : Coord D) (above : last.x < c.x) (to : c.x ≤ b.max_key) where
      abbrev pushed : List (Coord D)
      pushed = b.spline_points ++ (c ∷ [])

      prefix-le : prefix last.x ≤ prefix c.x
      prefix-le =
          prefix_mono w b.min_key b.num_shift_bits last.x c.x (omega (arith, last-within))
            (omega arith) (omega (arith, grown.word))

      prefix-lt : prefix c.x + 2 < 2 ^ 32
      prefix-lt = omega (
        arith,
        grown.fits,
        prefix_mono w b.min_key b.num_shift_bits c.x b.max_key (omega (arith, last-within)) to
            grown.word,
      )

      -- The entries up to the last point's prefix stay right, those up to the new prefix are the
      -- number of the old points.
      leading-pushed_old :
          (p : ℕ)
          → p ≤ prefix last.x
          → leading (under_prefix p) pushed ≡ leading (under_prefix p) b.spline_points
      leading-pushed_old p le =
          leading-append_failed (under_prefix p) b.spline_points last c grown.last_is (ground arith)

      leading-pushed_new :
          (p : ℕ)
          → prefix last.x < p
          → p ≤ prefix c.x
          → leading (under_prefix p) pushed ≡ length b.spline_points
      leading-pushed_new p lt le =
          leading-append_passed (under_prefix p) b.spline_points c (All-under p lt) (ground arith)

      pushed-IsGrown :
          (table : List ℕ)
          → length table ≡ length b.radix_table
          → ((p : ℕ) → p ≤ prefix c.x → get_elem? table p ≡ some (leading (under_prefix p) pushed))
          → IsGrown b.min_key b.max_key b.num_shift_bits pushed table c
      pushed-IsGrown table size entries = record {
        word = grown.word;
        narrow = grown.narrow;
        fits = grown.fits;
        ascending = append-IsAscending b.spline_points c grown.ascending (
            All-map _ _ b.spline_points (λ e h. omega arith)
              (back-bounds b.spline_points last grown.ascending grown.last_is));
        within = All-append _ b.spline_points c grown.within (omega (arith, last-within), to);
        starts = (
          grown.starts.0,
          get_elem?-append b.spline_points 0 grown.starts.0 c grown.starts.1,
          grown.starts.2,
        );
        last_is = back-append b.spline_points c;
        table_size = size ∙ grown.table_size;
        entries = entries;
      }

      curr_index-length : minus_word 64 (length pushed) 1 % 2 ^ 32 ≡ length b.spline_points
      curr_index-length = rw length-append (omega (arith, few))

      -- A point behind the last one is added and its prefixes are entered in the table.
      pub add_key_to_spline-IsGrown :
          (table : List ℕ) × (add_key_to_spline w c.x c.y b
            ≡ some (record b {
              spline_points = pushed;
              radix_table = table;
              prev_prefix = prefix c.x;
            }))
          × IsGrown b.min_key b.max_key b.num_shift_bits pushed table c
      unfolding add_key_to_spline possibly_add_key_to_radix_table
      add_key_to_spline-IsGrown = elim (eq_cases (prefix c.x) b.prev_prefix) [
        | inl same ↦ (
          b.radix_table,
          rw (same, ==_refl) refl,
          pushed-IsGrown b.radix_table refl λ p le.
              grown.entries p (omega (arith, at_last))
              ∙ ap (λ x. some x) (sym (leading-pushed_old p (omega (arith, at_last)))),
        )
        | inr differs ↦
            let (table, e, f) =
              fill-Filled (prefix c.x - b.prev_prefix) (b.prev_prefix + 1) (length b.spline_points)
                b.radix_table
                (omega (
                  arith,
                  grown.table_size,
                  at_last,
                  prefix-le,
                  prefix_mono w b.min_key b.num_shift_bits c.x b.max_key
                      (omega (arith, last-within)) to grown.word,
                )) in
            (
              table,
              rw (==_of_ne (prefix c.x) b.prev_prefix differs, curr_index-length, e) refl,
              pushed-IsGrown table f.sized λ p le. elim (lt_cases (prefix last.x) p) [
                | inr old ↦
                    f.kept p (omega (arith, at_last))
                    ∙ grown.entries p old
                    ∙ ap (λ x. some x) (sym (leading-pushed_old p old))
                | inl new ↦
                    f.written p (omega (arith, at_last)) (omega (arith, at_last))
                    ∙ ap (λ x. some x) (sym (leading-pushed_new p new le))
              ],
            )
      ]
