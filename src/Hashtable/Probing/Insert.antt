-- ===== src/Hashtable/Probing/Insert.antt =====
-- `insert` of hashtable/include/probing.hpp, against the contents of the table.
use hashing_old_archive.Prelude.{
  ℕ, ◌+◌, ◌<◌, ◌≤◌, ◌≡◌, ◌≢◌, ◌∙◌, sym, Bool, true, false, List, [], none, some, ◌==◌,
  if◌then◌else◌, length, set, arith, inl, inr, eq_cases, ==_refl, ==_of_ne, length-set,
  get_or-set_self, get_or-set_ne,
}
use hashing_old_archive.Hashtable.Contents.{
  bucket_at, scan, contents, scan-set_same, scan-set_new, contents-key, contents-sentinel,
}
use hashing_old_archive.Hashtable.Outcome.{
  Outcome, done, thrown, out_of_range, out_of_fuel, Impossible,
}
use hashing_old_archive.Hashtable.Probing.{Prober, Directory, home, insert}
use hashing_old_archive.Hashtable.Probing.Walk.{
  Walked, Walked-zero, visited, InsertEnds, insert_from-Ends, crowded_through,
}
use hashing_old_archive.Hashtable.Slots.{
  Slot, store, seek, after, is_stored, seek-store, store-IsPacked, store-stored_room,
  store-stored_absent,
}
use hashing_old_archive.Hashtable.Probing.Invariant.{IsValid, IsReached, scan-held, walk-absent}

module _ {ℓ} {V : Type ℓ} (p : Prober) (sentinel : ℕ) (hashfn reductionfn : ℕ → ℕ) where
  -- What an insertion may do to a table.
  abbrev pub Inserts : ℕ → V → Directory V → Outcome (Bool × Directory V) → Type ℓ
  Inserts k v t (done (true, t')) =
      IsValid p sentinel hashfn reductionfn t'
      × (contents sentinel t k ≡ none)
      × ((q : ℕ) → contents sentinel t' q ≡ (if q == k then some v else contents sentinel t q))
  Inserts k v t (done (false, t')) = (t' ≡ t) × (contents sentinel t k ≢ none)
  Inserts k v t thrown =
      (contents sentinel t k ≡ none)
      × ((s : ℕ) × (s < p.directory_size)
          × ((i : ℕ) → i ≤ s → seek sentinel (visited p sentinel hashfn reductionfn t k i) ≡ none)
          × (p.probe (home hashfn reductionfn k) (s + 1) ≡ home hashfn reductionfn k))
  Inserts k v t out_of_range = Impossible
  Inserts k v t out_of_fuel = Impossible

  module _ (in_range : (k : ℕ) → home hashfn reductionfn k < p.directory_size) {t : Directory V}
      (valid : IsValid p sentinel hashfn reductionfn t) where
    -- Writing to a bucket with room disturbs no walk.
    Walked-set :
        (q s j : ℕ) (b : List (Slot V))
        → seek sentinel (bucket_at t j) ≢ none
        → Walked p sentinel hashfn reductionfn t q s
        → Walked p sentinel hashfn reductionfn (set t j b) q s
    Walked-set q s j b room w = record {
      crowded = λ i h. rw (untouched i h) (w.crowded i h);
      absent = λ i h. rw (untouched i h) (w.absent i h);
      fresh = w.fresh;
    }
      where
        untouched :
            (i : ℕ)
            → i < s
            → bucket_at (set t j b) (p.probe (home hashfn reductionfn q) i)
              ≡ visited p sentinel hashfn reductionfn t q i
        untouched i h =
            get_or-set_ne t j (p.probe (home hashfn reductionfn q) i) b []
              λ e. room (rw (← e) at (w.crowded i h))

    module _ (k : ℕ) (v : V) (ne : k ≢ sentinel) (s : ℕ) (lt : s < p.directory_size)
        (w : Walked p sentinel hashfn reductionfn t k s)
        (st : is_stored (store sentinel k v (visited p sentinel hashfn reductionfn t k s))
          ≡ true) where
      abbrev spot : ℕ
      spot = p.probe (home hashfn reductionfn k) s

      abbrev written : List (Slot V)
      written = after (bucket_at t spot) (store sentinel k v (bucket_at t spot))

      spot-lt : spot < length t
      spot-lt = rw valid.width (p.stays (home hashfn reductionfn k) s (in_range k) (omega arith))

      seek-written :
          (q : ℕ)
          → q ≢ sentinel
          → seek q written ≡ (if q == k then some v else seek q (bucket_at t spot))
      seek-written q nq =
          rw (seek-store sentinel k v ne q (bucket_at t spot) nq (valid.packed spot), st)

      room : seek sentinel (bucket_at t spot) ≢ none
      room = store-stored_room sentinel k v (bucket_at t spot) st

      absent : scan k t ≡ none
      absent =
          walk-absent p sentinel hashfn reductionfn valid k s ne w
            (store-stored_absent sentinel k v ne (bucket_at t spot) (valid.packed spot) st)
            (inl room)

      placed-set :
          (q j : ℕ)
          → q ≢ sentinel
          → seek q (bucket_at (set t spot written) j) ≢ none
          → IsReached p sentinel hashfn reductionfn (set t spot written) q j
      placed-set q j nq h = elim (eq_cases spot j) [
        | inr n ↦
            let r = valid.placed q j nq (rw (get_or-set_ne t spot j written [] n) at h) in
            record {
              step = r.step;
              bounded = r.bounded;
              lands = r.lands;
              walked = Walked-set q r.step spot written room r.walked;
            }
        | inl e ↦ elim (eq_cases q k) [
          | inl same ↦ rw same (record {
            step = s;
            bounded = lt;
            lands = e;
            walked = Walked-set k s spot written room w;
          })
          | inr other ↦
              let g : seek q (bucket_at t spot) ≢ none = λ z. h (
                rw
                  (
                    ← e,
                    get_or-set_self t spot written [] spot-lt,
                    seek-written q nq,
                    ==_of_ne q k other,
                  )
                  z) in
              let r = valid.placed q spot nq g in
              record {
                step = r.step;
                bounded = r.bounded;
                lands = r.lands ∙ e;
                walked = Walked-set q r.step spot written room r.walked;
              }
        ]
      ]

      stored-IsValid : IsValid p sentinel hashfn reductionfn (set t spot written)
      stored-IsValid = record {
        width = length-set t spot written ∙ valid.width;
        packed = λ i. elim (eq_cases spot i) [
          | inl e ↦
              rw (← e, get_or-set_self t spot written [] spot-lt)
                (store-IsPacked sentinel k v (bucket_at t spot) (valid.packed spot))
          | inr n ↦ rw (get_or-set_ne t spot i written [] n) (valid.packed i)
        ];
        placed = placed-set;
      }

      stored-contents :
          (q : ℕ)
          → contents sentinel (set t spot written) q
            ≡ (if q == k then some v else contents sentinel t q)
      stored-contents q = elim (eq_cases q sentinel) [
        | inl e ↦ rw (
          e,
          contents-sentinel sentinel (set t spot written),
          ==_of_ne sentinel k (λ z. ne (sym z)),
          contents-sentinel sentinel t,
        )
        | inr nq ↦
            rw (contents-key sentinel (set t spot written) q nq, contents-key sentinel t q nq)
              (elim (eq_cases q k) [
                | inl same ↦
                    rw (same, ==_refl)
                      (scan-set_new k t spot written v spot-lt absent
                        (rw (seek-written k ne, ==_refl)))
                | inr other ↦
                    rw (==_of_ne q k other)
                      (scan-set_same q t spot written (rw (seek-written q nq, ==_of_ne q k other)))
              ])
      ]

    insert_ends :
        (k : ℕ) (v : V)
        → k ≢ sentinel
        → (r : Outcome (Bool × Directory V)) → InsertEnds p sentinel hashfn reductionfn t k v r
        → Inserts k v t r
    insert_ends k v ne (done (true, t')) (s, lt, w, st, e) = rw e (
      stored-IsValid k v ne s lt w st,
      rw (contents-key sentinel t k ne) (absent k v ne s lt w st),
      stored-contents k v ne s lt w st,
    )
    insert_ends k v ne (done (false, t')) (e, (s, lt, h)) = (
      e,
      rw (contents-key sentinel t k ne)
          (λ z. h (sym (scan-held p sentinel hashfn reductionfn valid k _ ne h) ∙ z)),
    )
    insert_ends k v ne thrown (s, lt, w, c, a, back) = (
      rw (contents-key sentinel t k ne)
          (walk-absent p sentinel hashfn reductionfn valid k s ne w a (inr back)),
      (s, lt, crowded_through p sentinel hashfn reductionfn t k s w c, back),
    )
    insert_ends k v ne out_of_range h = elim h [ ]
    insert_ends k v ne out_of_fuel h = elim h [ ]

    -- If reductions stay in the directory, the insertion of a key other than the sentinel into a valid
    -- table ends: it returns true, the key was new, and the table is valid and holds the key with its
    -- payload and all else as before; or it returns false, the key was there, and the table is as
    -- before; or it throws, the key was not there, and every bucket up to the first step of the probing
    -- that leads back to the start is full.
    pub probing_insert-Inserts :
        (k : ℕ) (v : V) → k ≢ sentinel → Inserts k v t (insert p sentinel hashfn reductionfn k v t)
    unfolding insert
    probing_insert-Inserts k v ne = rw (==_of_ne k sentinel ne) (
        insert_ends k v ne _ (
          rw (p.starts (home hashfn reductionfn k) (in_range k)) at (
            insert_from-Ends p sentinel hashfn reductionfn t k valid.width (in_range k) v (length t)
              0 (omega (arith, in_range k)) (omega (arith, valid.width))
              (Walked-zero p sentinel hashfn reductionfn t k))))
