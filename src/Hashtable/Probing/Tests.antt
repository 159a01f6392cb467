-- ===== src/Hashtable/Probing/Tests.antt =====
-- Runs of the probing table on two buckets of one slot, under the keys' remainders.
use mathlib.Core.Option.{or_else}
use hashing_old_archive.Prelude.{
  ℕ, ◌+◌, ◌%◌, ◌^◌, ◌*◌, ◌<◌, ◌≤◌, ◌≡◌, refl, length, true, false, [], ◌∷◌, none, some, arith,
}
use hashing_old_archive.Hashtable.Contents.{bucket_at, contents, scan}
use hashing_old_archive.Hashtable.Outcome.{done, thrown}
use hashing_old_archive.Hashtable.Probing.{
  Directory, insert, lookup, new, clear, directory_address_count,
}
use hashing_old_archive.Hashtable.Probing.Functions.{linear, linear_prober, linear-mod}
use hashing_old_archive.Hashtable.Probing.Insert.{Inserts, probing_insert-Inserts}
use hashing_old_archive.Hashtable.Probing.Invariant.{IsValid}
use hashing_old_archive.Hashtable.Probing.Lookup.{probing_lookup-contents}
use hashing_old_archive.Hashtable.Probing.Whole.{
  probing_new-IsValid, probing_clear-IsValid, linear_insert-thrown,
}
use hashing_old_archive.Hashtable.Slots.{Slot, seek, store}

-- What stands in a slot that was never written.
abbrev blank : ℕ
blank = 0

abbrev same : ℕ → ℕ
same k = k

abbrev by_two : ℕ → ℕ
by_two h = h % 2

by_two-lt : (k : ℕ) → by_two (same k) < 2
by_two-lt k = omega arith

abbrev slot : ℕ → ℕ → Slot ℕ
slot k v = record { key = k; payload = v }

-- Two buckets of one slot.
abbrev empty : Directory ℕ
empty = (slot 255 0 ∷ []) ∷ (slot 255 0 ∷ []) ∷ []

abbrev one : Directory ℕ
one = (slot 255 0 ∷ []) ∷ (slot 3 30 ∷ []) ∷ []

abbrev two : Directory ℕ
two = (slot 5 50 ∷ []) ∷ (slot 3 30 ∷ []) ∷ []

abbrev Valid : Directory ℕ → Type 0
Valid t = IsValid (linear_prober 2 (omega arith)) 255 same by_two t

new-empty : new 255 1 blank 2 ≡ empty
unfolding new
new-empty = refl

size-two : directory_address_count 1 2 ≡ 2
unfolding directory_address_count
size-two = refl

probing_new-IsValid_example :
    IsValid (linear_prober 2 (omega arith)) 255 same by_two (new 255 1 blank 2)
    × ((q : ℕ) → contents 255 (new 255 1 blank 2) q ≡ none)
    × ((i : ℕ) → i < 2 → length (bucket_at (new 255 1 blank 2) i) ≡ 1)
    × (2 ≤ 2 * 1)
    × (2 * 1 < 2 + 1)
probing_new-IsValid_example =
    probing_new-IsValid 255 (linear_prober 2 (omega arith)) same by_two 1 2 blank (omega arith)
      (omega arith) size-two

empty-IsValid : Valid empty
empty-IsValid = rw new-empty at (probing_new-IsValid_example.0)

insert_three : insert (linear_prober 2 (omega arith)) 255 same by_two 3 30 empty ≡ done (true, one)
unfolding insert linear store
insert_three = refl

one-IsValid : Valid one
one-IsValid =
    (rw insert_three at (
      probing_insert-Inserts (linear_prober 2 (omega arith)) 255 same by_two by_two-lt empty-IsValid
        3 30 (omega arith))).0

-- The home of 5 is full, so the walk wraps around to the first bucket.
insert_five : insert (linear_prober 2 (omega arith)) 255 same by_two 5 50 one ≡ done (true, two)
unfolding insert linear store
insert_five = refl

two-IsValid : Valid two
two-IsValid =
    (rw insert_five at (
      probing_insert-Inserts (linear_prober 2 (omega arith)) 255 same by_two by_two-lt one-IsValid 5
        50 (omega arith))).0

insert_seven : insert (linear_prober 2 (omega arith)) 255 same by_two 7 70 two ≡ thrown
unfolding insert linear store
insert_seven = refl

insert_again : insert (linear_prober 2 (omega arith)) 255 same by_two 5 51 two ≡ done (false, two)
unfolding insert linear store
insert_again = refl

probing_insert-Inserts_example :
    Inserts
      (linear_prober 2 (omega arith))
      255
      same
      by_two
      5
      50
      one
      (insert (linear_prober 2 (omega arith)) 255 same by_two 5 50 one)
probing_insert-Inserts_example =
    probing_insert-Inserts (linear_prober 2 (omega arith)) 255 same by_two by_two-lt one-IsValid 5
      50 (omega arith)

probing_lookup-contents_example :
    lookup (linear_prober 2 (omega arith)) 255 same by_two 5 two ≡ done (contents 255 two 5)
probing_lookup-contents_example =
    probing_lookup-contents (linear_prober 2 (omega arith)) 255 same by_two by_two-lt two-IsValid 5
      (omega arith)

held : contents 255 two 5 ≡ some 50
unfolding contents scan or_else seek
held = refl

linear_insert-thrown_example : seek 255 (bucket_at two 0) ≡ none
linear_insert-thrown_example =
    linear_insert-thrown 2 255 (omega arith) same by_two by_two-lt two-IsValid 7 70 (omega arith)
      insert_seven 0 (omega arith)

probing_clear-IsValid_example :
    Valid (clear 255 two) × ((q : ℕ) → contents 255 (clear 255 two) q ≡ none)
probing_clear-IsValid_example =
    probing_clear-IsValid 255 (linear_prober 2 (omega arith)) same by_two two refl

linear-mod_example : linear 5 3 9 ≡ (3 + 9) % 2 ^ 64 % 5
linear-mod_example = linear-mod 5 3 9 (omega arith)

linear_wraps : linear 5 3 9 ≡ 2
unfolding linear
linear_wraps = refl
