-- ===== src/Hashtable/Cuckoo/Tests.antt =====
-- Runs of the cuckoo table on two buckets of one slot, with a counter for the random numbers.
use mathlib.Core.Option.{or_else}
use hashing_old_archive.Prelude.{
  ℕ, ◌+◌, ◌/◌, ◌%◌, ◌*◌, ◌<◌, ◌≤◌, ◌≡◌, ◌≢◌, refl, List, [], ◌∷◌, none, some, arith, ◌⊎◌,
}
use hashing_old_archive.Hashtable.Contents.{contents, scan}
use hashing_old_archive.Hashtable.Cuckoo.{
  Directory, Inserted, inserted, first, second, lookup, insert, balanced, biased, used, place,
  evict, new, clear, directory_address_count,
}
use hashing_old_archive.Hashtable.Cuckoo.Lookup.{second_bounds, cuckoo_lookup-contents}
use hashing_old_archive.Hashtable.Cuckoo.Move.{IsValid}
use hashing_old_archive.Hashtable.Cuckoo.Refine.{Inserts}
use hashing_old_archive.Hashtable.Cuckoo.Whole.{
  cuckoo_new-IsValid, cuckoo_clear-IsValid, balanced-insert-Inserts, biased-insert-Inserts,
}
use hashing_old_archive.Hashtable.Outcome.{done}
use hashing_old_archive.Hashtable.Slots.{Slot, seek}

-- What stands in a slot that was never written.
abbrev blank : ℕ
blank = 0

abbrev size : ℕ
size = 3

abbrev same : ℕ → ℕ
same k = k

abbrev half : ℕ → ℕ → ℕ
half k h = k / 2

abbrev by_three : ℕ → ℕ
by_three h = h % 3

by_three-lt : (h : ℕ) → by_three h < 3
by_three-lt h = omega arith

abbrev counter : ℕ → ℕ × ℕ
counter r = (r, r + 1)

abbrev b1 : ℕ → ℕ
b1 = first same half by_three by_three

abbrev b2 : ℕ → ℕ
b2 = second same half by_three by_three 3

abbrev Valid : Directory ℕ → Type 0
Valid t = IsValid 255 1 3 b1 b2 t

abbrev bucket : ℕ → ℕ → List (Slot ℕ)
bucket k v = record { key = k; payload = v } ∷ []

abbrev free : List (Slot ℕ)
free = bucket 255 0

abbrev empty : Directory ℕ
empty = free ∷ free ∷ free ∷ []

new-empty : new 255 1 blank 3 ≡ empty
unfolding new
new-empty = refl

size-three : directory_address_count 1 3 ≡ 3
unfolding directory_address_count
size-three = refl

cuckoo_new-IsValid_example :
    IsValid 255 1 3 b1 b2 (new 255 1 blank 3)
    × ((q : ℕ) → contents 255 (new 255 1 blank 3) q ≡ none)
    × (3 ≤ 3 * 1)
    × (3 * 1 < 3 + 1)
cuckoo_new-IsValid_example =
    cuckoo_new-IsValid 255 1 3 b1 b2 3 blank (omega arith) (omega arith) size-three

empty-IsValid : Valid empty
empty-IsValid = rw new-empty at (cuckoo_new-IsValid_example.0)

abbrev put : ℕ → ℕ → Directory ℕ → ℕ → Inserted ℕ ℕ
put = insert same half by_three by_three (balanced 255 1 counter) 5

abbrev put_biased : ℕ → ℕ → Directory ℕ → ℕ → Inserted ℕ ℕ
put_biased = insert same half by_three by_three (biased 255 1 counter 0) 5

-- The keys 1, 4 and 10 have 1 as their first bucket and 0, 2 and 2 as their second.
abbrev one : Directory ℕ
one = free ∷ bucket 1 11 ∷ free ∷ []

abbrev two : Directory ℕ
two = free ∷ bucket 1 11 ∷ bucket 4 44 ∷ []

abbrev three : Directory ℕ
three = bucket 1 11 ∷ bucket 10 99 ∷ bucket 4 44 ∷ []

put-one : put 1 11 empty 0 ≡ inserted one 0
unfolding insert balanced second used place
put-one = refl

one-IsValid : Valid one
one-IsValid =
    (rw put-one at (
      balanced-insert-Inserts same half by_three by_three 3 by_three-lt by_three-lt 255 1
        (omega arith) counter 5 1 11 empty 0 (omega arith) empty-IsValid)).0

put-four : put 4 44 one 0 ≡ inserted two 0
unfolding insert balanced second used place
put-four = refl

two-IsValid : Valid two
two-IsValid =
    (rw put-four at (
      balanced-insert-Inserts same half by_three by_three 3 by_three-lt by_three-lt 255 1
        (omega arith) counter 5 4 44 one 0 (omega arith) one-IsValid)).0

-- Both buckets of 10 are full: 1 gives way and goes to its second bucket.
put-ten : put 10 99 two 1 ≡ inserted three 2
unfolding insert balanced second used place evict
put-ten = refl

balanced-insert-Inserts_example :
    Inserts same half by_three by_three 3 by_three-lt by_three-lt 255 1
      (balanced 255 1 counter)
      10
      99
      two
      (put 10 99 two 1)
balanced-insert-Inserts_example =
    balanced-insert-Inserts same half by_three by_three 3 by_three-lt by_three-lt 255 1
      (omega arith) counter 5 10 99 two 1 (omega arith) two-IsValid

three-IsValid : Valid three
three-IsValid = (rw put-ten at balanced-insert-Inserts_example).0

put_ten_biased : put_biased 10 99 two 1 ≡ inserted three 2
unfolding insert biased second used place evict
put_ten_biased = refl

biased-insert-Inserts_example :
    Inserts same half by_three by_three 3 by_three-lt by_three-lt 255 1
      (biased 255 1 counter 0)
      10
      99
      two
      (put_biased 10 99 two 1)
biased-insert-Inserts_example =
    biased-insert-Inserts same half by_three by_three 3 by_three-lt by_three-lt 255 1 (omega arith)
      counter 0 5 10 99 two 1 (omega arith) two-IsValid

cuckoo_lookup-contents_example :
    lookup same half by_three by_three 1 three ≡ done (contents 255 three 1)
cuckoo_lookup-contents_example =
    cuckoo_lookup-contents same half by_three by_three 3 by_three-lt by_three-lt 255 1 three-IsValid
      1 (omega arith)

held : contents 255 three 1 ≡ some 11
unfolding contents scan or_else seek
held = refl

second_bounds_example : (b2 3 < 3) × ((size ≡ 1) ⊎ (b2 3 ≢ b1 3))
second_bounds_example = second_bounds same half by_three by_three 3 by_three-lt by_three-lt 3

cuckoo_clear-IsValid_example :
    Valid (clear 255 three) × ((q : ℕ) → contents 255 (clear 255 three) q ≡ none)
cuckoo_clear-IsValid_example = cuckoo_clear-IsValid 255 1 3 b1 b2 three three-IsValid
