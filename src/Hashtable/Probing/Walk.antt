-- ===== src/Hashtable/Probing/Walk.antt =====
-- One walk along a key's probe sequence, as `insert` and `lookup` make it.
use hashing_old_archive.Prelude.{
  ℕ, zero, suc, ◌+◌, ◌<◌, ◌≤◌, ◌≡◌, ◌≢◌, refl, Bool, true, false, List, [], Option, none, some,
  length, get_elem?, set, arith, inl, inr, get_elem?-eq-get_or, eq_cases, lt_cases, ==_refl,
  ==_of_ne, ◌⊎◌,
}
use hashing_old_archive.Hashtable.Contents.{bucket_at}
use hashing_old_archive.Hashtable.Outcome.{
  Outcome, done, thrown, out_of_range, out_of_fuel, Impossible,
}
use hashing_old_archive.Hashtable.Probing.{Prober, Directory, home, insert_from, lookup_from}
use hashing_old_archive.Hashtable.Slots.{
  Slot, Stored, stored, duplicate, full, Found, found, vacant, missed, store, find, seek, is_stored,
  after, store-full, store-duplicate, find-missed, find-found, find-vacant, payload?,
}

Stored-cases {ℓ} :
    {V : Type ℓ} (r : Stored V)
    → ((b : List (Slot V)) × (r ≡ stored b)) ⊎ ((r ≡ duplicate) ⊎ (r ≡ full))
Stored-cases (stored b) = inl (b, refl)
Stored-cases duplicate = inr (inl refl)
Stored-cases full = inr (inr refl)

Found-cases {ℓ} :
    {V : Type ℓ} (r : Found V) → ((v : V) × (r ≡ found v)) ⊎ ((r ≡ vacant) ⊎ (r ≡ missed))
Found-cases (found v) = inl (v, refl)
Found-cases vacant = inr (inl refl)
Found-cases missed = inr (inr refl)

module _ {ℓ} {V : Type ℓ} (p : Prober) (sentinel : ℕ) (hashfn reductionfn : ℕ → ℕ) (t : Directory V)
    (k : ℕ) where
  -- the bucket that is visited at a step
  abbrev pub visited : ℕ → List (Slot V)
  visited s = bucket_at t (p.probe (home hashfn reductionfn k) s)

  -- The walk comes as far as step `s`: the buckets before are full and do not hold the key, and it
  -- has not come back to its start.
  pub record Walked (s : ℕ) : Type ℓ where
    pub crowded : (i : ℕ) → i < s → seek sentinel (visited i) ≡ none
    pub absent : (i : ℕ) → i < s → seek k (visited i) ≡ none
    pub fresh :
        (i : ℕ) → 0 < i → i ≤ s → p.probe (home hashfn reductionfn k) i ≢ home hashfn reductionfn k

  pub Walked-zero : Walked 0
  Walked-zero = record {
    crowded = λ i h. absurd (omega arith);
    absent = λ i h. absurd (omega arith);
    fresh = λ i h g. absurd (omega arith);
  }

  pub Walked-suc :
      (s : ℕ)
      → Walked s
      → seek sentinel (visited s) ≡ none
      → seek k (visited s) ≡ none
      → p.probe (home hashfn reductionfn k) (s + 1) ≢ home hashfn reductionfn k
      → Walked (s + 1)
  Walked-suc s w c a f = record {
    crowded = λ i h. elim (lt_cases i s) [
      | inl l ↦ w.crowded i l
      | inr g ↦ let e : s ≡ i = omega arith in rw (← e) c
    ];
    absent = λ i h. elim (lt_cases i s) [
      | inl l ↦ w.absent i l
      | inr g ↦ let e : s ≡ i = omega arith in rw (← e) a
    ];
    fresh = λ i h g. elim (lt_cases i (s + 1)) [
      | inl l ↦ w.fresh i h (omega arith)
      | inr m ↦ let e : s + 1 ≡ i = omega arith in rw (← e) f
    ];
  }

  -- All that has been visited when the walk leaves step `s`.
  pub crowded_through :
      (s : ℕ)
      → Walked s
      → seek sentinel (visited s) ≡ none
      → (i : ℕ) → i ≤ s
      → seek sentinel (visited i) ≡ none
  crowded_through s w c i h = elim (lt_cases i s) [
    | inl l ↦ w.crowded i l
    | inr m ↦ let e : s ≡ i = omega arith in rw (← e) c
  ]

  -- How an insertion that walks ends.
  abbrev pub InsertEnds : V → Outcome (Bool × Directory V) → Type ℓ
  InsertEnds v (done (true, t')) =
      (s : ℕ) × (s < p.directory_size)
      × Walked s
      × (is_stored (store sentinel k v (visited s)) ≡ true)
      × (t'
          ≡ set t (p.probe (home hashfn reductionfn k) s)
              (after (visited s) (store sentinel k v (visited s))))
  InsertEnds v (done (false, t')) =
      (t' ≡ t) × ((s : ℕ) × (s < p.directory_size) × (seek k (visited s) ≢ none))
  InsertEnds v thrown =
      (s : ℕ) × (s < p.directory_size)
      × Walked s
      × (seek sentinel (visited s) ≡ none)
      × (seek k (visited s) ≡ none)
      × (p.probe (home hashfn reductionfn k) (s + 1) ≡ home hashfn reductionfn k)
  InsertEnds v out_of_range = Impossible
  InsertEnds v out_of_fuel = Impossible

  abbrev next : ℕ → ℕ
  next s = p.probe (home hashfn reductionfn k) (s + 1)

  -- How a lookup ends.
  abbrev pub LookupEnds : Outcome (Option V) → Type ℓ
  LookupEnds (done (some v)) = (s : ℕ) × (s < p.directory_size) × (seek k (visited s) ≡ some v)
  LookupEnds (done none) =
      (s : ℕ) × (s < p.directory_size)
      × Walked s
      × (payload? (find sentinel k (visited s)) ≡ none)
      × ((seek sentinel (visited s) ≢ none) ⊎ (next s ≡ home hashfn reductionfn k))
  LookupEnds thrown = Impossible
  LookupEnds out_of_range = Impossible
  LookupEnds out_of_fuel = Impossible

module _ {ℓ} {V : Type ℓ} (p : Prober) (sentinel : ℕ) (hashfn reductionfn : ℕ → ℕ) (t : Directory V)
    (k : ℕ) (width : length t ≡ p.directory_size)
    (here : home hashfn reductionfn k < p.directory_size) where
  abbrev seen : ℕ → List (Slot V)
  seen = visited p sentinel hashfn reductionfn t k

  abbrev Come : ℕ → Type ℓ
  Come = Walked p sentinel hashfn reductionfn t k

  read :
      (s : ℕ)
      → s < p.directory_size
      → get_elem? t (p.probe (home hashfn reductionfn k) s) ≡ some (seen s)
  read s lt =
      get_elem?-eq-get_or t (p.probe (home hashfn reductionfn k) s) []
        (rw width (p.stays (home hashfn reductionfn k) s here (omega arith)))

  -- A walk that is not back at its start has buckets left to visit.
  onwards : (s : ℕ) → s < p.directory_size → Come (s + 1) → s + 1 < p.directory_size
  onwards s lt w = elim (lt_cases (s + 1) p.directory_size) [
    | inl l ↦ l
    | inr m ↦
        let e : s + 1 ≡ p.directory_size = omega arith in
        absurd (
          w.fresh (s + 1) (omega arith) (omega arith)
            (rw e (p.cycles (home hashfn reductionfn k) here)))
  ]

  pub insert_from-Ends :
      (v : V) (fuel s : ℕ)
      → s < p.directory_size
      → p.directory_size ≤ s + fuel
      → Come s
      → InsertEnds p sentinel hashfn reductionfn t k v (
          insert_from p sentinel hashfn reductionfn fuel s k v
            (p.probe (home hashfn reductionfn k) s)
            t)
  unfolding insert_from
  insert_from-Ends v zero s lt enough w = absurd (omega arith)
  insert_from-Ends v (suc fuel) s lt enough w =
      rw (read s lt, insert_from)
        (elim (Stored-cases (store sentinel k v (seen s))) [
          | inl (b, e) ↦ rw (e, insert_from) (s, lt, w, rw e refl, rw e refl)
          | inr (inl e) ↦
              rw (e, insert_from) (refl, (s, lt, store-duplicate sentinel k v (seen s) e))
          | inr (inr e) ↦
              let (a, c) = store-full sentinel k v (seen s) e in
              rw (e, insert_from)
                (elim (eq_cases (p.probe (home hashfn reductionfn k) (s + 1))
                  (home hashfn reductionfn k)) [
                    | inl back ↦ rw (back, ==_refl, insert_from) (s, lt, w, c, a, back)
                    | inr on ↦
                        let w' = Walked-suc p sentinel hashfn reductionfn t k s w c a on in
                        rw (==_of_ne _ _ on, insert_from)
                          (insert_from-Ends v fuel (s + 1) (onwards s lt w') (omega arith) w')
                  ])
        ])

  pub lookup_from-Ends :
      (fuel s : ℕ)
      → s < p.directory_size
      → p.directory_size ≤ s + fuel
      → Come s
      → LookupEnds p sentinel hashfn reductionfn t k (
          lookup_from p sentinel hashfn reductionfn fuel s k
            (p.probe (home hashfn reductionfn k) s)
            t)
  unfolding lookup_from
  lookup_from-Ends zero s lt enough w = absurd (omega arith)
  lookup_from-Ends (suc fuel) s lt enough w =
      rw (read s lt, lookup_from)
        (elim (Found-cases (find sentinel k (seen s))) [
          | inl (v, e) ↦ rw (e, lookup_from) (s, lt, find-found sentinel k (seen s) v e)
          | inr (inl e) ↦
              rw (e, lookup_from) (s, lt, w, rw e refl, inl (find-vacant sentinel k (seen s) e))
          | inr (inr e) ↦
              let (c, a) = find-missed sentinel k (seen s) e in
              rw (e, lookup_from)
                (elim (eq_cases (p.probe (home hashfn reductionfn k) (s + 1))
                  (home hashfn reductionfn k)) [
                    | inl back ↦ rw (back, ==_refl, lookup_from) (s, lt, w, rw e refl, inr back)
                    | inr on ↦
                        let w' = Walked-suc p sentinel hashfn reductionfn t k s w c a on in
                        rw (==_of_ne _ _ on, lookup_from)
                          (lookup_from-Ends fuel (s + 1) (onwards s lt w') (omega arith) w')
                  ])
        ])
