-- ===== src/Hashtable/Chained/Refine.antt =====
-- `insert` of hashtable/include/chained.hpp, against the contents of the table.
use hashing_old_archive.Prelude.{
  ℕ, ◌<◌, ◌≡◌, ◌≢◌, refl, ◌∙◌, sym, ap, Bool, true, [], none, some, ◌==◌, if◌then◌else◌, length,
  get_elem?, set, eq_cases, ==_refl, ==_of_ne, inl, inr, ◌⊎◌, get_or-set_self, get_or-set_ne,
  length-set, Option-cases,
}
use hashing_old_archive.Hashtable.Chained.{Directory, FirstLevelSlot, insert, insert_slot}
use hashing_old_archive.Hashtable.Chained.Chain.{row, flatten}
use hashing_old_archive.Hashtable.Chained.Grow.{
  kept, insert_slot-IsPacked, seek-insert_slot, insert_slot_absent, insert_slot_again,
}
use hashing_old_archive.Hashtable.Contents.{
  bucket_at, scan, contents, scan-set_same, contents-key, contents-sentinel,
}
use hashing_old_archive.Hashtable.Outcome.{
  Outcome, done, thrown, out_of_range, out_of_fuel, Impossible,
}
use hashing_old_archive.Hashtable.Slots.{seek, IsPacked}
use hashing_old_archive.Hashtable.Chained.Lookup.{
  rows, row-get, rows-set, length-rows, IsValid, contents-home,
}

module _ {ℓ} {V : Type ℓ} (sentinel : ℕ) (hashfn reductionfn : ℕ → ℕ) where
  -- What an insertion does: it returns, the key keeps its first payload, other keys keep theirs, and
  -- a new key is reported as inserted.
  abbrev pub Inserts : ℕ → V → Directory V → Outcome (Bool × Directory V) → Type ℓ
  Inserts k v t (done (added, t')) =
      IsValid sentinel hashfn reductionfn t'
      × (length t' ≡ length t)
      × ((q : ℕ)
          → contents sentinel (rows t') q ≡ (
              if q == k
              then some (kept (contents sentinel (rows t) k) v)
              else contents sentinel (rows t) q))
      × ((added ≡ true) ⊎ (contents sentinel (rows t) k ≢ none))
  Inserts k v t thrown = Impossible
  Inserts k v t out_of_range = Impossible
  Inserts k v t out_of_fuel = Impossible

  module _ (bucket_size : ℕ) (uninitialised : V) (sized : 0 < bucket_size) {t : Directory V}
      (valid : IsValid sentinel hashfn reductionfn t) (k : ℕ) (v : V) (ne : k ≢ sentinel)
      (here : reductionfn (hashfn k) < length t) where
    abbrev home : ℕ
    home = reductionfn (hashfn k)

    module _ (s : FirstLevelSlot V) (e : bucket_at (rows t) home ≡ row s) where
      abbrev s' : FirstLevelSlot V
      s' = (insert_slot sentinel bucket_size uninitialised k v s).1

      IsPacked-here : IsPacked sentinel (row s)
      IsPacked-here = rw e at (valid.packed home)

      inside : home < length (rows t)
      inside = rw length-rows here

      row-set : (i : ℕ) → (i ≡ home) ⊎ (bucket_at (rows (set t home s')) i ≡ bucket_at (rows t) i)
      row-set i = elim (eq_cases home i) [
        | inl same ↦ inl (sym same)
        | inr n ↦ inr (rw rows-set (get_or-set_ne (rows t) home i (row s') [] n))
      ]

      row-set-home : bucket_at (rows (set t home s')) home ≡ row s'
      row-set-home = rw rows-set (get_or-set_self (rows t) home (row s') [] inside)

      seek-home :
          (q : ℕ)
          → q ≢ sentinel
          → seek q (row s') ≡ (if q == k then some (kept (seek k (row s)) v) else seek q (row s))
      seek-home q nq =
          seek-insert_slot sentinel bucket_size uninitialised sized k v ne s IsPacked-here q nq

      set-IsValid : IsValid sentinel hashfn reductionfn (set t home s')
      set-IsValid = record {
        packed = λ i. elim (row-set i) [
          | inl at_home ↦
              rw (at_home, row-set-home)
                (insert_slot-IsPacked sentinel bucket_size uninitialised sized k v ne s
                  IsPacked-here)
          | inr old ↦ rw old (valid.packed i)
        ];
        placed = λ q i nq away. elim (row-set i) [
          | inl at_home ↦
              let other : q ≢ k = λ same. away (rw (same, at_home)) in
              rw (at_home, row-set-home, seek-home q nq, ==_of_ne q k other)
                (rw e at (valid.placed q home nq (rw at_home at away)))
          | inr old ↦ rw old (valid.placed q i nq away)
        ];
      }

      set-contents :
          (q : ℕ)
          → contents sentinel (rows (set t home s')) q ≡ (
              if q == k
              then some (kept (contents sentinel (rows t) k) v)
              else contents sentinel (rows t) q)
      set-contents q = elim (eq_cases q sentinel) [
        | inl es ↦ rw (
          es,
          contents-sentinel sentinel (rows (set t home s')),
          ==_of_ne sentinel k (λ z. ne (sym z)),
          contents-sentinel sentinel (rows t),
        )
        | inr nq ↦ elim (eq_cases q k) [
          | inl same ↦
              rw (same, ==_refl)
                (contents-home sentinel hashfn reductionfn set-IsValid k ne
                  ∙ ap (seek k) row-set-home
                  ∙ seek-home k ne
                  ∙ rw (==_refl, contents-home sentinel hashfn reductionfn valid k ne, e) refl)
          | inr other ↦ rw (==_of_ne q k other) (
              contents-key sentinel (rows (set t home s')) q nq
              ∙ ap (scan q) (rows-set t home s')
              ∙ scan-set_same q (rows t) home (row s')
                  (rw (seek-home q nq, ==_of_ne q k other, e) refl)
              ∙ sym (contents-key sentinel (rows t) q nq))
        ]
      ]

      reported :
          ((insert_slot sentinel bucket_size uninitialised k v s).0 ≡ true)
          ⊎ (contents sentinel (rows t) k ≢ none)
      reported = elim (Option-cases (seek k (row s))) [
        | inl absent ↦ inl (
            insert_slot_absent sentinel bucket_size uninitialised sized k v ne s IsPacked-here
              absent)
        | inr (old, there) ↦
            inr (rw (contents-home sentinel hashfn reductionfn valid k ne, e, there) (λ z. cc))
      ]

    -- The insertion of a key other than the sentinel into a valid table, with buckets of at least one slot
    -- and the key's reduction in the directory, returns: the table is valid and of the same size, the
    -- key holds its first payload, all other keys theirs, and what is not reported as inserted was
    -- there.
    pub chained_insert-Inserts :
        Inserts k v t (insert sentinel bucket_size uninitialised hashfn reductionfn k v t)
    unfolding insert
    chained_insert-Inserts =
        let (s, got, e) = row-get t home here in
        rw (==_of_ne k sentinel ne, got)
          (set-IsValid s e, length-set t home (s' s e), set-contents s e, reported s e)

    -- In a valid table, a key that stands in its first-level slot and not in the chain is reported as
    -- inserted again, although the table held the payload of the first-level slot for it.
    pub insert_again :
        (s : FirstLevelSlot V)
        → get_elem? t home ≡ some s
        → s.key ≡ k
        → seek k (flatten s.buckets) ≡ none
        → (insert sentinel bucket_size uninitialised hashfn reductionfn k v t
            ≡ done (true, set t home (insert_slot sentinel bucket_size uninitialised k v s).1))
          × (contents sentinel (rows t) k ≡ some s.payload)
    unfolding insert seek
    insert_again s got same absent =
        let (r, got', e) = row-get t home here in
        let again : r ≡ s = cc in
        let e' : bucket_at (rows t) home ≡ row s = rw again at e in
        (
          rw (
            ==_of_ne k sentinel ne,
            got,
            insert_slot_again sentinel bucket_size uninitialised sized k v ne s (IsPacked-here s e')
                same absent,
          ),
          rw (contents-home sentinel hashfn reductionfn valid k ne, e', same, ==_refl),
        )
