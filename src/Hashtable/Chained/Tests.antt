-- ===== src/Hashtable/Chained/Tests.antt =====
-- Runs of the chained table with buckets of one slot, under the keys' remainders.
use mathlib.Core.Option.{or_else}
use hashing_old_archive.Prelude.{ℕ, ◌%◌, ◌≡◌, refl, true, [], ◌∷◌, none, some, arith, length, set}
use hashing_old_archive.Hashtable.Chained.{
  Directory, FirstLevelSlot, insert, insert_slot, lookup, new, clear, new_bucket,
}
use hashing_old_archive.Hashtable.Chained.Lookup.{rows, IsValid, chained_lookup-contents}
use hashing_old_archive.Hashtable.Chained.Refine.{Inserts, chained_insert-Inserts, insert_again}
use hashing_old_archive.Hashtable.Chained.Whole.{chained_new-IsValid, chained_clear-IsValid}
use hashing_old_archive.Hashtable.Contents.{contents, scan}
use hashing_old_archive.Hashtable.Outcome.{done}
use hashing_old_archive.Hashtable.Slots.{seek}

-- What stands in a slot that was never written.
abbrev blank : ℕ
blank = 0

abbrev same : ℕ → ℕ
same k = k

abbrev by_two : ℕ → ℕ
by_two h = h % 2

abbrev free : FirstLevelSlot ℕ
free = record { key = 255; payload = 0; buckets = [] }

abbrev first_three : FirstLevelSlot ℕ
first_three = record { key = 3; payload = 30; buckets = [] }

abbrev empty : Directory ℕ
empty = free ∷ free ∷ []

abbrev one : Directory ℕ
one = free ∷ first_three ∷ []

abbrev two : Directory ℕ
two =
    free
    ∷ record { key = 3; payload = 30; buckets = (record { key = 5; payload = 50 } ∷ []) ∷ [] }
    ∷ []

new-empty : new 255 blank 2 ≡ empty
unfolding new
new-empty = refl

chained_new-IsValid_example :
    IsValid 255 same by_two (new 255 blank 2)
    × (length (new 255 blank 2) ≡ 2)
    × ((q : ℕ) → contents 255 (rows (new 255 blank 2)) q ≡ none)
chained_new-IsValid_example = chained_new-IsValid 255 same by_two blank 2

empty-IsValid : IsValid 255 same by_two empty
empty-IsValid = rw new-empty at (chained_new-IsValid_example.0)

insert_three : insert 255 1 0 same by_two 3 30 empty ≡ done (true, one)
unfolding insert
insert_three = refl

one-IsValid : IsValid 255 same by_two one
one-IsValid =
    (rw insert_three at (
      chained_insert-Inserts 255 same by_two 1 0 (omega arith) empty-IsValid 3 30 (omega arith)
        (omega arith))).0

insert_five : insert 255 1 0 same by_two 5 50 one ≡ done (true, two)
unfolding insert new_bucket
insert_five = refl

chained_insert-Inserts_example :
    Inserts 255 same by_two 5 50 one (insert 255 1 0 same by_two 5 50 one)
chained_insert-Inserts_example =
    chained_insert-Inserts 255 same by_two 1 0 (omega arith) one-IsValid 5 50 (omega arith)
      (omega arith)

two-IsValid : IsValid 255 same by_two two
two-IsValid = (rw insert_five at chained_insert-Inserts_example).0

chained_lookup-contents_example : lookup 255 same by_two 5 two ≡ done (contents 255 (rows two) 5)
chained_lookup-contents_example =
    chained_lookup-contents 255 same by_two two-IsValid 5 (omega arith) (omega arith)

held : contents 255 (rows two) 5 ≡ some 50
unfolding contents scan or_else seek
held = refl

-- The key 3 stands in its first-level slot with 30, and 31 goes to a new bucket.
insert_again_example :
    (insert 255 1 0 same by_two 3 31 one
      ≡ done (true, set one 1 (insert_slot 255 1 0 3 31 first_three).1))
    × (contents 255 (rows one) 3 ≡ some 30)
unfolding seek
insert_again_example =
    insert_again 255 same by_two 1 0 (omega arith) one-IsValid 3 31 (omega arith) (omega arith)
      first_three refl refl refl

chained_clear-IsValid_example :
    IsValid 255 same by_two (clear 255 two)
    × (length (clear 255 two) ≡ 2)
    × ((q : ℕ) → contents 255 (rows (clear 255 two)) q ≡ none)
chained_clear-IsValid_example = chained_clear-IsValid 255 same by_two two
