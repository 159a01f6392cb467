-- ===== src/Search/Tests.antt =====
-- A search in a small array.
use hashing_old_archive.Prelude.{
  ℕ, zero, suc, ◌≡◌, refl, List, [], ◌∷◌, some, arith, get_elem?, ◌⊎◌, inl, inr,
}
use hashing_old_archive.Search.{branchless_binary_search, narrow, scroll_back}
use hashing_old_archive.Search.First.{IsAscending, IsFirst, branchless_binary_search-IsFirst}

abbrev keys : List ℕ
keys = 2 ∷ 5 ∷ 5 ∷ 8 ∷ []

key_at :
    (i a : ℕ)
    → get_elem? keys i ≡ some a
    → ((i ≡ 0) × (a ≡ 2)) ⊎ (((i ≡ 1) × (a ≡ 5)) ⊎ (((i ≡ 2) × (a ≡ 5)) ⊎ ((i ≡ 3) × (a ≡ 8))))
key_at zero a e = inl (refl, ground arith)
key_at (suc zero) a e = inr (inl (refl, ground arith))
key_at (suc (suc zero)) a e = inr (inr (inl (refl, ground arith)))
key_at (suc (suc (suc zero))) a e = inr (inr (inr (refl, ground arith)))
key_at (suc (suc (suc (suc i)))) a e = absurd (ground arith)

keys-IsAscending : IsAscending keys
keys-IsAscending i j a b le got got' = ground (arith, key_at i a got, key_at j b got')

branchless_binary_search-IsFirst_example :
    (r : ℕ) × (branchless_binary_search keys 5 0 3 ≡ some r) × IsFirst keys 5 r
branchless_binary_search-IsFirst_example =
    branchless_binary_search-IsFirst keys 5 keys-IsAscending (omega arith) 0 3 2 (omega arith)
      (omega arith) (omega arith) refl

search_run : branchless_binary_search keys 5 0 3 ≡ some 1
unfolding branchless_binary_search narrow scroll_back
search_run = refl
