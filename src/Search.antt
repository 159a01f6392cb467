-- ===== src/Search.antt =====
-- `branchless_binary_search` of
-- learned_models/learned_imv_threaded_hashing/include/utils/algorithms.h. A result of none stands for a
-- read out of range, for an `int` that is negative, and for a loop that runs out of fuel.
pub mod First
mod Tests
use hashing_old_archive.Prelude.{
  ℕ, zero, suc, ◌+◌, ◌-◌, ◌/◌, ◌%◌, ◌^◌, Bool, true, false, List, Option, none, some, ◌==◌, leb,
  get_elem?, if◌then◌else◌,
}

-- A word as an `int`.
abbrev pub to_int : ℕ → Option ℕ
to_int word = if leb (2 ^ 31) (word % 2 ^ 32) then none else some (word % 2 ^ 32)

module _ (keys : List ℕ) (lookup_key : ℕ) where
  -- The loop that halves the range; the prefetches have no effect.
  unfoldable pub narrow : ℕ → ℕ → ℕ → Option ℕ
  narrow zero lower n = none
  narrow (suc fuel) lower n = elim (n / 2 == 0) [
    | true ↦ some lower
    | false ↦ elim (to_int (lower + n / 2)) [
      | none ↦ none
      | some middle ↦ elim (get_elem? keys middle) [
        | none ↦ none
        | some key ↦ elim (leb key lookup_key) [
          | true ↦ narrow fuel middle (n - n / 2)
          | false ↦ narrow fuel lower (n - n / 2)
        ]
      ]
    ]
  ]

  -- The loop that goes back to the first occurrence.
  unfoldable pub scroll_back : ℕ → Option ℕ
  scroll_back zero = some 0
  scroll_back (suc lower) = elim (get_elem? keys lower) [
    | none ↦ none
    | some key ↦ elim (key == lookup_key) [ true ↦ scroll_back lower | false ↦ some (suc lower) ]
  ]

  unfoldable pub branchless_binary_search : ℕ → ℕ → Option ℕ
  branchless_binary_search start end = elim (to_int ((end + 2 ^ 64 - start + 1) % 2 ^ 64)) [
    | none ↦ none
    | some n ↦ elim (narrow (n + 1) start n) [ none ↦ none | some lower ↦ scroll_back lower ]
  ]
