-- ===== src/Hashtable/Cuckoo/Move.antt =====
-- The invariant of the cuckoo table, and what one write of an entry does to it.
use hashing_old_archive.Prelude.{
  ℕ, ◌<◌, ◌≡◌, ◌≢◌, sym, ap, ◌∙◌, List, [], none, some, length, get_elem?, set, ◌⊎◌, inl, inr,
  eq_cases, Option-cases, length-set, get_or-set_self, get_or-set_ne,
}
use hashing_old_archive.Hashtable.Contents.{
  bucket_at, scan, scan-none, scan-only, scan-absent, scan-set_same, scan-set_new,
}
use hashing_old_archive.Hashtable.Cuckoo.Rows.{
  entry, IsDistinct, set-IsDistinct, seek-set_other, seek-set_new, seek-set_gone, seek-entry,
  seek-get_elem?,
}
use hashing_old_archive.Hashtable.Cuckoo.{Directory, write}
use hashing_old_archive.Hashtable.Slots.{Slot, seek, IsPacked}

module _ {ℓ} {V : Type ℓ} (sentinel bucket_size size : ℕ) (first second : ℕ → ℕ) where
  pub record IsValid (t : Directory V) : Type ℓ where
    pub sized : length t ≡ size
    pub widths : (i : ℕ) → i < size → length (bucket_at t i) ≡ bucket_size
    pub packed : (i : ℕ) → IsPacked sentinel (bucket_at t i)
    pub distinct : (i : ℕ) → IsDistinct sentinel (bucket_at t i)
    pub placed :
        (q i : ℕ) → q ≢ sentinel → seek q (bucket_at t i) ≢ none → (i ≡ first q) ⊎ (i ≡ second q)
    pub apart :
        (q i j : ℕ)
        → q ≢ sentinel
        → seek q (bucket_at t i) ≢ none
        → seek q (bucket_at t j) ≢ none
        → i ≡ j

  module _ {t : Directory V} (valid : IsValid t) where
    pub scan-held :
        (q i : ℕ) → q ≢ sentinel → seek q (bucket_at t i) ≢ none → scan q t ≡ seek q (bucket_at t i)
    scan-held q i ne h = scan-only q t i λ j n. elim (Option-cases (seek q (bucket_at t j))) [
      | inl e ↦ e
      | inr (w, e) ↦ absurd (n (valid.apart q j i ne (λ z. cc) h))
    ]

    module _ (k : ℕ) (v : V) (ne : k ≢ sentinel) (absent : scan k t ≡ none) (i c : ℕ) (s : Slot V)
        (inside : i < size) (home : (i ≡ first k) ⊎ (i ≡ second k))
        (got : get_elem? (bucket_at t i) c ≡ some s)
        (packs : IsPacked sentinel (set (bucket_at t i) c (entry k v))) where
      abbrev row : List (Slot V)
      row = set (bucket_at t i) c (entry k v)

      in_table : i < length t
      in_table = rw valid.sized inside

      row-here : bucket_at (write t i c k v) i ≡ row
      row-here = get_or-set_self t i row [] in_table

      row-there : (j : ℕ) → i ≢ j → bucket_at (write t i c k v) j ≡ bucket_at t j
      row-there j n = get_or-set_ne t i j row [] n

      -- A key of the new table is the new one in its bucket or stood where it stands.
      origin :
          (q j : ℕ)
          → q ≢ sentinel
          → seek q (bucket_at (write t i c k v) j) ≢ none
          → ((q ≡ k) × (j ≡ i)) ⊎ (seek q (bucket_at t j) ≢ none)
      origin q j nq h = elim (eq_cases i j) [
        | inr n ↦ inr (rw (row-there j n) at h)
        | inl e ↦ elim (eq_cases q k) [
          | inl same ↦ inl (same, sym e)
          | inr other ↦
              let h' : seek q row ≢ none = rw (← e, row-here) at h in
              elim (eq_cases q s.key) [
                | inl victim ↦ absurd (
                    h' (
                      ap (λ x. seek x row) victim
                      ∙ seek-set_gone sentinel (bucket_at t i) c k v s got (λ z. nq (victim ∙ z))
                          (λ z. other (victim ∙ z)) (valid.distinct i)))
                | inr stays ↦ inr (
                    rw (← e)
                      (λ z. h' (seek-set_other (bucket_at t i) c k q v s got stays other ∙ z)))
              ]
        ]
      ]

      write-apart :
          (q j l : ℕ)
          → ((q ≡ k) × (j ≡ i)) ⊎ (seek q (bucket_at t j) ≢ none)
          → ((q ≡ k) × (l ≡ i)) ⊎ (seek q (bucket_at t l) ≢ none)
          → q ≢ sentinel
          → j ≡ l
      write-apart q j l (inl a) (inl b) nq = a.1 ∙ sym b.1
      write-apart q j l (inl a) (inr b) nq =
          absurd (b (ap (λ x. seek x (bucket_at t l)) a.0 ∙ scan-none k t l absent))
      write-apart q j l (inr a) (inl b) nq =
          absurd (a (ap (λ x. seek x (bucket_at t j)) b.0 ∙ scan-none k t j absent))
      write-apart q j l (inr a) (inr b) nq = valid.apart q j l nq a b

      pub write-IsValid : IsValid (write t i c k v)
      write-IsValid = record {
        sized = length-set t i row ∙ valid.sized;
        widths = λ j lt. elim (eq_cases i j) [
          | inl e ↦
              rw (← e, row-here) (length-set (bucket_at t i) c (entry k v) ∙ valid.widths i inside)
          | inr n ↦ rw (row-there j n) (valid.widths j lt)
        ];
        packed = λ j. elim (eq_cases i j) [
          | inl e ↦ rw (← e, row-here) packs
          | inr n ↦ rw (row-there j n) (valid.packed j)
        ];
        distinct = λ j. elim (eq_cases i j) [
          | inl e ↦
              rw (← e, row-here)
                (set-IsDistinct sentinel (bucket_at t i) c k v s got ne (scan-none k t i absent)
                  (valid.distinct i))
          | inr n ↦ rw (row-there j n) (valid.distinct j)
        ];
        placed = λ q j nq h. elim (origin q j nq h) [
          | inl (same, at_i) ↦ rw (same, at_i) home
          | inr old ↦ valid.placed q j nq old
        ];
        apart = λ q j l nq hj hl. write-apart q j l (origin q j nq hj) (origin q l nq hl) nq;
      }

      pub scan-write_new : scan k (write t i c k v) ≡ some v
      scan-write_new =
          scan-set_new k t i row v in_table absent
            (seek-set_new (bucket_at t i) c k v s got (scan-none k t i absent))

      pub scan-write_other : (q : ℕ) → q ≢ k → q ≢ s.key → scan q (write t i c k v) ≡ scan q t
      scan-write_other q other stays =
          scan-set_same q t i row (seek-set_other (bucket_at t i) c k q v s got stays other)

      -- The entry that gave way was in the table, and is not any more.
      pub scan-victim :
          s.key ≢ sentinel
          → (scan s.key t ≡ some s.payload) × (s.key ≢ k) × (scan s.key (write t i c k v) ≡ none)
      scan-victim used =
          let there = seek-get_elem? (bucket_at t i) c s got in
          let apart_k : s.key ≢ k =
            λ e. there (ap (λ x. seek x (bucket_at t i)) e ∙ scan-none k t i absent) in
          (
            scan-held s.key i used there
                ∙ seek-entry sentinel (bucket_at t i) c s got used (valid.distinct i),
            apart_k,
            scan-absent s.key (write t i c k v) λ j.
                elim (Option-cases (seek s.key (bucket_at (write t i c k v) j))) [
                  | inl e ↦ e
                  | inr (w, e) ↦ elim (eq_cases i j) [
                    | inl same ↦
                        rw (← same, row-here)
                          (seek-set_gone sentinel (bucket_at t i) c k v s got used apart_k
                            (valid.distinct i))
                    | inr n ↦ elim (Option-cases (seek s.key (bucket_at t j))) [
                      | inl f ↦ rw (row-there j n) f
                      | inr (x, f) ↦ absurd (n (valid.apart s.key i j used there (λ z. cc)))
                    ]
                  ]
                ],
          )
