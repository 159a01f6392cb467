-- ===== src/RadixSpline/Builder/Whole.antt =====
-- The build of a model from sorted keys, as in learned_models/rs/multi_map.h.
use hashing_old_archive.Prelude.{
  ℕ, zero, suc, ◌+◌, ◌-◌, ◌^◌, ◌<◌, ◌≤◌, ◌≡◌, refl, true, false, List, [], ◌∷◌, some, ltb, length,
  get_elem?, replicate, arith, inl, inr, ◌∙◌, sym, ap, lt_cases, length-replicate,
}
use hashing_old_archive.Prelude.Bits.{pow2-pos, pow2_add}
use native.Mathlib.Nat.{pow-le-pow_right, div-le_self, div-lt_iff_lt-mul}
use hashing_old_archive.RadixSpline.{Doubles, Coord, RadixSpline, prefix_of, minus_word}
use hashing_old_archive.RadixSpline.Search.{leading}
use hashing_old_archive.RadixSpline.Segment.{IsIndexed, word_of}
use hashing_old_archive.RadixSpline.Builder.{
  Builder, back, add_key_to_spline, possibly_add_key_to_spline, add_key, add_keys, new,
  get_num_shift_bits, last_of, shifts_defined, build, possibly_add_key_to_radix_table,
  remember_previous_cdf_point,
}
use hashing_old_archive.RadixSpline.Builder.Finish.{finalize-IsIndexed}
use hashing_old_archive.RadixSpline.Builder.Step.{IsBuilding, add_key-IsBuilding, seen}

-- Keys that do not descend, from a first one on.
abbrev pub IsSorted : ℕ → List ℕ → Type 0
IsSorted from [] = Unit
IsSorted from (key ∷ keys) = (from ≤ key) × IsSorted key keys

le-last_of : (from : ℕ) (keys : List ℕ) → IsSorted from keys → from ≤ last_of from keys
le-last_of from [] h = omega arith
le-last_of from (key ∷ keys) h = omega (arith, le-last_of key keys h.1, h.0)

prefix_of_self : (w key shift : ℕ) → key < 2 ^ w → prefix_of w key shift key ≡ 0
unfolding prefix_of
prefix_of_self w key shift word =
    rw (word_of w key key (omega arith) word) (omega (arith, div-le_self (key - key) (2 ^ shift)))

module _ {D : Type 0} (w : ℕ) (d : Doubles D) where
  -- Sorted keys are added one after the other.
  add_keys-IsBuilding :
      (keys : List ℕ) {min_key max_key n : ℕ} {b : Builder D}
      → IsBuilding w min_key max_key n b
      → IsSorted b.prev_key keys
      → last_of b.prev_key keys ≤ max_key
      → n + length keys + 1 < 2 ^ 32
      → (b' : Builder D) × (add_keys w d keys b ≡ some b')
        × IsBuilding w min_key max_key (n + length keys) b'
        × (b'.prev_key ≡ last_of b.prev_key keys)
  unfolding add_keys
  add_keys-IsBuilding [] {n = n} {b = b} building sorted top small =
      (b, refl, rw (let e : n + 0 ≡ n = omega arith in e) building, refl)
  add_keys-IsBuilding (key ∷ keys) {n = n} building sorted top small =
      let (b', e, building', at) =
        add_key-IsBuilding w d building key sorted.0
          (omega (arith, le-last_of key keys sorted.1, top)) (omega (arith, small)) in
      let (b'', e', building'', at') =
        add_keys-IsBuilding keys building' (rw at sorted.1) (rw at top) (omega (arith, small)) in
      (
        b'',
        rw (e, add_keys) e',
        rw (let q : n + suc (length keys) ≡ n + 1 + length keys = omega arith in q) building'',
        at' ∙ ap (λ k. last_of k keys) at,
      )

  module _ (clz : ℕ → ℕ) (unset : Coord D) (min_key max_key num_radix_bits max_error : ℕ)
      (word : max_key < 2 ^ w) (le : min_key ≤ max_key) where
    abbrev start : Builder D
    start = new clz w unset min_key max_key num_radix_bits max_error

    abbrev shift : ℕ
    shift = get_num_shift_bits clz w (minus_word w max_key min_key) num_radix_bits

    module _ (narrow : shift < w) (fits : prefix_of w min_key shift max_key + 2 < 2 ^ 32) where
      table-filled : length start.radix_table ≡ prefix_of w min_key shift max_key + 2
      unfolding new
      table-filled = length-replicate _ 0 ∙ omega (arith, fits)

      entry :
          (p : ℕ)
          → p ≡ 0
          → get_elem? start.radix_table p
            ≡ some (
                leading {A = Coord D}
                  (λ c. ltb (prefix_of w min_key shift c.x) p)
                  (record { x = min_key; y = d.of_nat 0 } ∷ []))
      unfolding leading new
      entry p zeroth =
          rw (zeroth, not_below (prefix_of w min_key shift min_key))
            (get_elem?-replicate _ (omega (arith, fits)))
        where
          not_below : (a : ℕ) → ltb a 0 ≡ false
          not_below a = ground arith

          get_elem?-replicate : (n : ℕ) → 0 < n → get_elem? {A = ℕ} (replicate n 0) 0 ≡ some 0
          get_elem?-replicate zero h = absurd (omega arith)
          get_elem?-replicate (suc n) h = refl

      -- The smallest key comes first.
      first-IsBuilding :
          (b' : Builder D) × (add_key w d min_key start ≡ some b')
          × IsBuilding w min_key max_key 1 b'
          × (b'.prev_key ≡ min_key)
      unfolding add_key possibly_add_key_to_spline add_key_to_spline possibly_add_key_to_radix_table
          remember_previous_cdf_point new back
      first-IsBuilding =
          let zeroth = prefix_of_self w min_key shift (omega arith) in
          (
            seen w min_key 0 (
                remember_previous_cdf_point w d min_key (d.of_nat 0) (record start {
                  spline_points = record { x = min_key; y = d.of_nat 0 } ∷ [];
                  curr_num_distinct_keys = 1;
                })),
            rw (add_key, zeroth) refl,
            record {
              min_is = refl;
              max_is = refl;
              last = record { x = min_key; y = d.of_nat 0 };
              grown = record {
                word = word;
                narrow = narrow;
                fits = fits;
                ascending = (tt, tt);
                within = ((omega arith, le), tt);
                starts = (record { x = min_key; y = d.of_nat 0 }, refl, refl);
                last_is = refl;
                table_size = table-filled;
                entries = λ p h. entry p (omega (arith, zeroth));
              };
              at_last = sym zeroth;
              counted = refl;
              some_keys = omega arith;
              distinct = omega arith;
              few = omega arith;
              fewer = omega arith;
              remembered = refl;
              high = le;
              once = λ e. refl;
              later = λ h. omega arith;
            },
            refl,
          )

shifts_defined_lem :
    (clz : ℕ → ℕ) (w diff num_radix_bits : ℕ)
    → 0 < diff
    → get_num_shift_bits clz w diff num_radix_bits < w
    → shifts_defined clz w diff num_radix_bits ≡ true
unfolding shifts_defined
shifts_defined_lem clz w diff num_radix_bits some_diff narrow = ground arith

-- With at least one radix bit, keys that are not all the same, and a count of leading zeros that is
-- right for the range of the keys, the shift is below the width of the key and the prefix of the
-- largest key is below 2 ^ num_radix_bits.
pub prefix_of-lt :
    (clz : ℕ → ℕ) (w min_key max_key num_radix_bits : ℕ)
    → 0 < num_radix_bits
    → 0 < minus_word w max_key min_key
    → clz (minus_word w max_key min_key) ≤ w
    → minus_word w max_key min_key < 2 ^ (w - clz (minus_word w max_key min_key))
    → (get_num_shift_bits clz w (minus_word w max_key min_key) num_radix_bits < w)
      × (prefix_of w min_key
            (get_num_shift_bits clz w (minus_word w max_key min_key) num_radix_bits)
            max_key
          < 2 ^ num_radix_bits)
unfolding prefix_of get_num_shift_bits
prefix_of-lt clz w min_key max_key num_radix_bits bits some_diff le law =
    let diff = minus_word w max_key min_key in
    let wide : 0 < w = elim (lt_cases 0 w) [
      | inl l ↦ l
      | inr g ↦
          let e : w - clz diff ≡ 0 = omega arith in absurd (omega (arith, rw e at law, some_diff))
    ] in
    elim (lt_cases (w - clz diff) num_radix_bits) [
      | inl narrow ↦
          let e : ltb (w - clz diff) num_radix_bits ≡ true = ground arith in
          let room : 2 ^ (w - clz diff) ≤ 2 ^ num_radix_bits =
            pow-le-pow_right (omega arith) (omega arith) in
          (rw e wide, rw e (omega (arith, div-le_self diff 1)))
      | inr broad ↦
          let e : ltb (w - clz diff) num_radix_bits ≡ false = ground arith in
          let q : num_radix_bits + (w - num_radix_bits - clz diff) ≡ w - clz diff = omega arith in
          (
            rw e (omega arith),
            rw e (
                (div-lt_iff_lt-mul (pow2-pos (w - num_radix_bits - clz diff))).1
                  (rw (pow2_add num_radix_bits (w - num_radix_bits - clz diff), q) law)),
          )
    ]

module _ {D : Type 0} (w : ℕ) (d : Doubles D) where
  -- From keys that do not descend and are not all the same, of w bits for w of at least 32, fewer than
  -- 2 ^ 32 - 2 of them, with 1 to 31 radix bits and a count of leading zeros that is right for the range of the keys, a
  -- model is built without an access out of range or an undefined shift: it spans the keys and counts
  -- them, its shift is below the width of the key, its points ascend, and its radix table has the first point of each prefix.
  pub build-IsIndexed :
      (clz : ℕ → ℕ) (unset : Coord D) (num_radix_bits max_error key : ℕ) (keys : List ℕ)
      → 32 ≤ w
      → 0 < num_radix_bits
      → num_radix_bits ≤ 31
      → IsSorted key keys
      → key < last_of key keys
      → last_of key keys < 2 ^ w
      → length keys + 3 < 2 ^ 32
      → clz (minus_word w (last_of key keys) key) ≤ w
      → minus_word w (last_of key keys) key < 2 ^ (w - clz (minus_word w (last_of key keys) key))
      → (m : RadixSpline D) × (build w d clz unset num_radix_bits max_error key keys ≡ some m)
        × IsIndexed w m
        × (m.min_key ≡ key)
        × (m.max_key ≡ last_of key keys)
        × (m.num_keys ≡ suc (length keys))
  unfolding build add_keys
  build-IsIndexed clz unset num_radix_bits max_error key keys wide some_bits bits sorted spread word
        few zeros law =
      let room : 2 ^ num_radix_bits ≤ 2 ^ 31 = pow-le-pow_right (omega arith) bits in
      let diff = minus_word w (last_of key keys) key in
      let some_diff : 0 < diff =
        omega (arith, word_of w (last_of key keys) key (omega arith) word) in
      let (narrow, small) =
        prefix_of-lt clz w key (last_of key keys) num_radix_bits some_bits some_diff zeros law in
      let defined : shifts_defined clz w diff num_radix_bits ≡ true =
        shifts_defined_lem clz w diff num_radix_bits some_diff narrow in
      let (b, e, building, at) =
        first-IsBuilding w d clz unset key (last_of key keys) num_radix_bits max_error word
          (le-last_of key keys sorted) narrow (omega arith) in
      let (b', e', building', at') =
        add_keys-IsBuilding w d keys building (rw at sorted) (rw at (omega arith)) (omega arith) in
      let (m, f, indexed, min_is, max_is, count) =
        finalize-IsIndexed w d wide building' (omega arith) (at' ∙ ap (λ k. last_of k keys) at) in
      (m, rw (defined, build, e, build, e', build) f, indexed, min_is, max_is, count ∙ omega arith)
