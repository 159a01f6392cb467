-- ===== src/Search/First.antt =====
-- The search finds the first occurrence of a key.
use hashing_old_archive.Prelude.{
  ℕ, zero, suc, ◌+◌, ◌-◌, ◌/◌, ◌%◌, ◌^◌, ◌<◌, ◌≤◌, ◌≡◌, ◌≢◌, refl, true, false, List, [], ◌∷◌, some,
  ◌==◌, leb, get_elem?, arith, inl, inr, ◌∙◌, ap, length, Bool-cases, lt_cases,
}
use hashing_old_archive.Search.{to_int, narrow, scroll_back, branchless_binary_search}

-- No key is below an earlier one.
abbrev pub IsAscending : List ℕ → Type 0
IsAscending keys =
    (i j a b : ℕ) → i ≤ j → get_elem? keys i ≡ some a → get_elem? keys j ≡ some b → a ≤ b

-- The first index with a key.
pub record IsFirst (keys : List ℕ) (key index : ℕ) : Type 0 where
  pub here : get_elem? keys index ≡ some key
  pub before : (i a : ℕ) → i < index → get_elem? keys i ≡ some a → a < key

key-some : (keys : List ℕ) (i : ℕ) → i < length keys → (a : ℕ) × (get_elem? keys i ≡ some a)
key-some [] i h = absurd (omega arith)
key-some (x ∷ keys) zero h = (x, refl)
key-some (x ∷ keys) (suc i) h = key-some keys i (omega arith)

got-lt : (keys : List ℕ) (i a : ℕ) → get_elem? keys i ≡ some a → i < length keys
got-lt [] i a e = absurd (ground arith)
got-lt (x ∷ keys) zero a e = omega arith
got-lt (x ∷ keys) (suc i) a e = omega (arith, got-lt keys i a e)

leb-le : (a b : ℕ) → leb a b ≡ true → a ≤ b
leb-le a b e = ground arith

leb-gt : (a b : ℕ) → leb a b ≡ false → b < a
leb-gt a b e = ground arith

to_int-small : (word : ℕ) → word < 2 ^ 31 → to_int word ≡ some word
to_int-small word lt =
    let same : word % 2 ^ 32 ≡ word = omega arith in
    let e : leb (2 ^ 31) word ≡ false = ground arith in rw (same, e) refl

module _ (keys : List ℕ) (key : ℕ) (ascending : IsAscending keys)
    (small : length keys < 2 ^ 31) where
  narrow-here :
      (fuel lower n p : ℕ)
      → n < fuel
      → lower + n ≤ length keys
      → lower ≤ p
      → p < lower + n
      → get_elem? keys p ≡ some key
      → (r : ℕ) × (narrow keys key fuel lower n ≡ some r) × (get_elem? keys r ≡ some key)
  unfolding narrow
  narrow-here zero lower n p enough inside le lt found = absurd (omega arith)
  narrow-here (suc fuel) lower n p enough inside le lt found = elim (Bool-cases (n / 2 == 0)) [
    | inl e ↦ let only : p ≡ lower = ground arith in (lower, rw (narrow, e) refl, rw only at found)
    | inr e ↦
        let half : 0 < n / 2 = ground arith in
        let (k, got) = key-some keys (lower + n / 2) (omega arith) in
        let middle : to_int (lower + n / 2) ≡ some (lower + n / 2) =
          to_int-small (lower + n / 2) (omega arith) in
        elim (Bool-cases (leb k key)) [
          | inl low ↦ elim (lt_cases p (lower + n / 2)) [
            | inl left ↦
                let same : k ≡ key = omega (
                  arith,
                  ascending p (lower + n / 2) key k (omega arith) found got,
                  leb-le k key low,
                ) in
                let (r, runs, here) =
                  narrow-here fuel (lower + n / 2) (n - n / 2) (lower + n / 2) (omega arith)
                    (omega arith) (omega arith) (omega arith) (got ∙ ap some same) in
                (r, rw (narrow, e, narrow, middle, narrow, got, narrow, low, narrow) runs, here)
            | inr right ↦
                let (r, runs, here) =
                  narrow-here fuel (lower + n / 2) (n - n / 2) p (omega arith) (omega arith) right
                    (omega arith) found in
                (r, rw (narrow, e, narrow, middle, narrow, got, narrow, low, narrow) runs, here)
          ]
          | inr high ↦
              let left : p < lower + n / 2 = elim (lt_cases p (lower + n / 2)) [
                | inl l ↦ l
                | inr g ↦ absurd (
                    omega (arith, ascending (lower + n / 2) p k key g got found, leb-gt k key high))
              ] in
              let (r, runs, here) =
                narrow-here fuel lower (n - n / 2) p (omega arith) (omega arith) le (omega arith)
                  found in
              (r, rw (narrow, e, narrow, middle, narrow, got, narrow, high, narrow) runs, here)
        ]
  ]

  scroll_back-IsFirst :
      (lower : ℕ)
      → lower < length keys
      → get_elem? keys lower ≡ some key
      → (r : ℕ) × (scroll_back keys key lower ≡ some r) × IsFirst keys key r
  unfolding scroll_back
  scroll_back-IsFirst zero inside found =
      (0, refl, record { here = found; before = λ i a lt got. absurd (omega arith) })
  scroll_back-IsFirst (suc lower) inside found =
      let (k, got) = key-some keys lower (omega arith) in
      elim (Bool-cases (k == key)) [
        | inl e ↦
            let same : k ≡ key = ground arith in
            let (r, runs, first) = scroll_back-IsFirst lower (omega arith) (got ∙ ap some same) in
            (r, rw (scroll_back, got, scroll_back, e, scroll_back) runs, first)
        | inr e ↦
            let other : k ≢ key = λ q. ground arith in
            let below : k < key =
              omega (arith, other, ascending lower (suc lower) k key (omega arith) got found) in
            (
              suc lower,
              rw (scroll_back, got, scroll_back, e, scroll_back) refl,
              record {
                here = found;
                before = λ i a lt got'. omega (arith, ascending i lower a k (omega arith) got' got);
              },
            )
      ]

  -- In fewer than 2 ^ 31 keys that do not descend, if the key is at an index from `start` to `end`, which is in the
  -- array, the search ends without a read out of range at the first index in the array that has the
  -- key.
  pub branchless_binary_search-IsFirst :
      (start end p : ℕ)
      → start ≤ p
      → p ≤ end
      → end < length keys
      → get_elem? keys p ≡ some key
      → (r : ℕ) × (branchless_binary_search keys key start end ≡ some r) × IsFirst keys key r
  unfolding branchless_binary_search
  branchless_binary_search-IsFirst start end p le le' inside found =
      let whole : (end + 2 ^ 64 - start + 1) % 2 ^ 64 ≡ end - start + 1 = omega arith in
      let n_int : to_int ((end + 2 ^ 64 - start + 1) % 2 ^ 64) ≡ some (end - start + 1) =
        ap to_int whole ∙ to_int-small (end - start + 1) (omega arith) in
      let (lower, runs, here) =
        narrow-here (end - start + 1 + 1) start (end - start + 1) p (omega arith) (omega arith) le
          (omega arith) found in
      let (r, runs', first) = scroll_back-IsFirst lower (got-lt keys lower key here) here in
      (r, rw (branchless_binary_search, n_int, branchless_binary_search, runs) runs', first)
