-- ===== src/Hashtable/Cuckoo/Refine.antt =====
-- Insertion into the cuckoo table of hashtable/include/cuckoo.hpp, against the contents of the
-- table.
use hashing_old_archive.Prelude.{
  ℕ, zero, suc, ◌<◌, ◌≡◌, ◌≢◌, refl, sym, ap, ◌∙◌, List, Option, none, some, length, set, ◌⊎◌, inl,
  inr, eq_cases, ◌==◌, if◌then◌else◌, ==_refl, ==_of_ne, true,
}
use hashing_old_archive.Hashtable.Contents.{
  bucket_at, scan, contents, contents-key, contents-sentinel,
}
use hashing_old_archive.Hashtable.Cuckoo.Kicking.{Kicks}
use hashing_old_archive.Hashtable.Cuckoo.Move.{
  IsValid, write-IsValid, scan-write_new, scan-write_other, scan-victim,
}
use hashing_old_archive.Hashtable.Cuckoo.Rows.{full-IsPacked, full_after}
use hashing_old_archive.Hashtable.Cuckoo.Update.{
  update_either-Updates, repay, repaid-IsValid, scan-repaid_self, scan-repaid_other,
}
use hashing_old_archive.Hashtable.Cuckoo.{
  Directory, Kicked, Inserted, inserted, thrown, bad_index, Updated, in_first, in_second, nowhere,
  update_either, first, second, insert_from,
}
use hashing_old_archive.Hashtable.Outcome.{Impossible}
use hashing_old_archive.Hashtable.Slots.{Slot, seek}
use hashing_old_archive.Hashtable.Cuckoo.Lookup.{second_bounds, read, scan-either}

Updated-cases {ℓ} :
    {V : Type ℓ} (u : Updated V)
    → ((b : List (Slot V)) × (u ≡ in_first b))
      ⊎ (((b : List (Slot V)) × (u ≡ in_second b)) ⊎ (u ≡ nowhere))
Updated-cases (in_first b) = inl (b, refl)
Updated-cases (in_second b) = inr (inl (b, refl))
Updated-cases nowhere = inr (inr refl)

module _ (hashfn1 : ℕ → ℕ) (hashfn2 : ℕ → ℕ → ℕ) (reductionfn1 reductionfn2 : ℕ → ℕ) (size : ℕ)
    (in_range1 : (h : ℕ) → reductionfn1 h < size)
    (in_range2 : (h : ℕ) → reductionfn2 h < size) where
  abbrev bucket1 : ℕ → ℕ
  bucket1 = first hashfn1 hashfn2 reductionfn1 reductionfn2

  abbrev bucket2 : ℕ → ℕ
  bucket2 = second hashfn1 hashfn2 reductionfn1 reductionfn2 size

  bucket2-lt : (k : ℕ) → bucket2 k < size
  bucket2-lt k =
      (second_bounds hashfn1 hashfn2 reductionfn1 reductionfn2 size in_range1 in_range2 k).0

  module _ {ℓ} {V R : Type ℓ} (sentinel bucket_size : ℕ)
      (kickingfn : R → Directory V → ℕ → ℕ → ℕ → V → Option (Kicked V R)) where
    abbrev Sound : Directory V → Type ℓ
    Sound t = IsValid sentinel bucket_size size bucket1 bucket2 t

    -- How an insertion may end: the entry is in the table; or an entry is lost, and all others are
    -- as they should be.
    abbrev pub Inserts : ℕ → V → Directory V → Inserted V R → Type ℓ
    Inserts k v t (inserted t' r) =
        Sound t'
        × ((q : ℕ) → contents sentinel t' q ≡ (if q == k then some v else contents sentinel t q))
    Inserts k v t (thrown lost t' r) =
        Sound t'
        × (lost.key ≢ sentinel)
        × ((q : ℕ)
            → (if q == lost.key then some lost.payload else contents sentinel t' q)
              ≡ (if q == k then some v else contents sentinel t q))
    Inserts k v t bad_index = Impossible

    -- Equations on scans give equations on contents.
    contents_from_scans :
        (k : ℕ) (v : V) (t t' : Directory V)
        → k ≢ sentinel
        → scan k t' ≡ some v
        → ((q : ℕ) → q ≢ sentinel → q ≢ k → scan q t' ≡ scan q t)
        → (q : ℕ) → contents sentinel t' q ≡ (if q == k then some v else contents sentinel t q)
    contents_from_scans k v t t' ne new other q = elim (eq_cases q sentinel) [
      | inl e ↦ rw (
        e,
        contents-sentinel sentinel t',
        ==_of_ne sentinel k (λ z. ne (sym z)),
        contents-sentinel sentinel t,
      )
      | inr nq ↦
          rw (contents-key sentinel t' q nq, contents-key sentinel t q nq)
            (elim (eq_cases q k) [
              | inl same ↦ rw (same, ==_refl) new
              | inr differs ↦ rw (==_of_ne q k differs) (other q nq differs)
            ])
    ]

    -- A kick hands the victim on: the table with the victim put back is the table with the entry.
    handed_on :
        (k : ℕ) (v : V) (t u : Directory V) (s : Slot V)
        → k ≢ sentinel
        → s.key ≢ sentinel
        → scan k u ≡ some v
        → (scan s.key t ≡ some s.payload) × (s.key ≢ k) × (scan s.key u ≡ none)
        → ((q : ℕ) → q ≢ k → q ≢ s.key → scan q u ≡ scan q t)
        → (q : ℕ)
        → (if q == s.key then some s.payload else contents sentinel u q)
          ≡ (if q == k then some v else contents sentinel t q)
    handed_on k v t u s ne used new (old, apart, gone) other q = elim (eq_cases q s.key) [
      | inl victim ↦
          let differs : q ≢ k = λ z. apart (sym victim ∙ z) in
          let nq : q ≢ sentinel = λ z. used (sym victim ∙ z) in
          let same : (q == s.key) ≡ true = rw victim (==_refl s.key) in
          rw (same, ==_of_ne q k differs, contents-key sentinel t q nq)
            (sym (ap (λ x. scan x t) victim ∙ old))
      | inr stays ↦ rw (==_of_ne q s.key stays) (elim (eq_cases q k) [
        | inl same ↦ rw (same, ==_refl, contents-key sentinel u k ne) new
        | inr differs ↦ rw (==_of_ne q k differs) (elim (eq_cases q sentinel) [
          | inl e ↦ rw (e, contents-sentinel sentinel u, contents-sentinel sentinel t)
          | inr nq ↦
              rw (contents-key sentinel u q nq, contents-key sentinel t q nq)
                (other q differs stays)
        ])
      ])
    ]

    kick-Inserts :
        (k : ℕ) (v : V) (t u : Directory V) (s : Slot V)
        → ((q : ℕ)
            → (if q == s.key then some s.payload else contents sentinel u q)
              ≡ (if q == k then some v else contents sentinel t q))
        → (out : Inserted V R) → Inserts s.key s.payload u out
        → Inserts k v t out
    kick-Inserts k v t u s e (inserted t' r) h = (h.0, λ q. h.1 q ∙ e q)
    kick-Inserts k v t u s e (thrown lost t' r) h = (h.0, h.1, λ q. h.2 q ∙ e q)
    kick-Inserts k v t u s e bad_index h = elim h [ ]

    updated-Inserts :
        (k : ℕ) (v : V) (t : Directory V) (r : R)
        → k ≢ sentinel
        → Sound t
        → (i : ℕ) → i < size
        → seek k (bucket_at t i) ≢ none
        → Inserts k v t (inserted (set t i (repay k v (bucket_at t i))) r)
    updated-Inserts k v t r ne valid i inside held = (
      repaid-IsValid sentinel bucket_size size bucket1 bucket2 valid k v ne i inside held,
      contents_from_scans k v t _ ne
          (scan-repaid_self sentinel bucket_size size bucket1 bucket2 valid k v ne i inside held)
          (λ q nq n.
            scan-repaid_other sentinel bucket_size size bucket1 bucket2 valid k v ne i inside held q
              n),
    )

    chosen : (k i : ℕ) → (i ≡ bucket1 k) ⊎ (i ≡ bucket2 k) → i < size
    chosen k i (inl e) = rw e (in_range1 (hashfn1 k))
    chosen k i (inr e) = rw e (bucket2-lt k)

    -- What follows the call of the kicking function, if the rest of the run is sound.
    kicked-Inserts :
        (again : ℕ → V → Directory V → R → Inserted V R)
        → ((q : ℕ) (w : V) (u : Directory V) (r : R)
            → q ≢ sentinel
            → Sound u
            → Inserts q w u (again q w u r))
        → (k : ℕ) (v : V) (t : Directory V) → k ≢ sentinel
        → Sound t
        → scan k t ≡ none
        → (o : Option (Kicked V R))
        → Kicks {V = V} {R = R} sentinel bucket_size t (bucket1 k) (bucket2 k) k v o
        → Inserts k v t (elim o [
          | none ↦ bad_index
          | some out ↦ elim out.kicked [
            | none ↦ inserted out.table out.rng
            | some s ↦ again s.key s.payload out.table out.rng
          ]
        ])
    kicked-Inserts again ih k v t ne valid absent none h = elim h [ ]
    kicked-Inserts again ih k v t ne valid absent (some out)
          (i, c, s, one, got, tab, inl (free, stays, packs)) =
        let inside : i < size = chosen k i one in
        rw (stays, tab)
          (
            write-IsValid sentinel bucket_size size bucket1 bucket2 valid k v ne absent i c s inside
                one got packs,
            contents_from_scans k v t _ ne
                (scan-write_new sentinel bucket_size size bucket1 bucket2 valid k v ne absent i c s
                  inside one got packs)
                (λ q nq n.
                  scan-write_other sentinel bucket_size size bucket1 bucket2 valid k v ne absent i c
                    s inside one got packs q n (λ z. nq (z ∙ free))),
          )
    kicked-Inserts again ih k v t ne valid absent (some out)
          (i, c, s, one, got, tab, inr (used, goes, full)) =
        let inside : i < size = chosen k i one in
        let packs = full-IsPacked sentinel _ (full_after sentinel k v ne (bucket_at t i) c full) in
        rw (goes, tab)
          (kick-Inserts k v t _ s
            (handed_on k v t _ s ne used
              (scan-write_new sentinel bucket_size size bucket1 bucket2 valid k v ne absent i c s
                inside one got packs)
              (scan-victim sentinel bucket_size size bucket1 bucket2 valid k v ne absent i c s
                inside one got packs used)
              (scan-write_other sentinel bucket_size size bucket1 bucket2 valid k v ne absent i c s
                inside one got packs))
            _
            (ih s.key s.payload _ out.rng used (
              write-IsValid sentinel bucket_size size bucket1 bucket2 valid k v ne absent i c s
                inside one got packs)))

    module _
        (law : (r : R) (t : Directory V) (k : ℕ) (v : V)
          → IsValid sentinel bucket_size size bucket1 bucket2 t
          → Kicks {V = V} {R = R} sentinel bucket_size t
              (bucket1 k)
              (bucket2 k)
              k
              v
              (kickingfn r t (bucket1 k) (bucket2 k) k v)) where
      abbrev run : ℕ → ℕ → V → Directory V → R → Inserted V R
      run = insert_from hashfn1 hashfn2 reductionfn1 reductionfn2 kickingfn

      pub insert_from-Inserts :
          (left k : ℕ) (v : V) (t : Directory V) (r : R)
          → k ≢ sentinel
          → Sound t
          → Inserts k v t (run left k v t r)
      unfolding insert_from
      insert_from-Inserts zero k v t r ne valid = (valid, ne, λ q. refl)
      insert_from-Inserts (suc left) k v t r ne valid =
          let b1 = bucket_at t (bucket1 k) in
          let b2 = bucket_at t (bucket2 k) in
          let in1 = in_range1 (hashfn1 k) in
          let in2 = bucket2-lt k in
          let same_width : length b1 ≡ length b2 =
            valid.widths (bucket1 k) in1 ∙ sym (valid.widths (bucket2 k) in2) in
          let updates = update_either-Updates k v b1 b2 same_width in
          rw
            (
              read hashfn1 hashfn2 reductionfn1 reductionfn2 size in_range1 in_range2 sentinel
                  bucket_size valid (bucket1 k) in1,
              insert_from,
              valid.sized,
              read hashfn1 hashfn2 reductionfn1 reductionfn2 size in_range1 in_range2 sentinel
                  bucket_size valid (bucket2 k) in2,
              insert_from,
            )
            (elim (Updated-cases (update_either k v b1 b2)) [
              | inl (b, e) ↦
                  let (f, held) = rw e at updates in
                  rw (e, insert_from, f) (updated-Inserts k v t r ne valid (bucket1 k) in1 held)
              | inr (inl (b, e)) ↦
                  let (f, held) = rw e at updates in
                  rw (e, insert_from, valid.sized, f)
                    (updated-Inserts k v t r ne valid (bucket2 k) in2 held)
              | inr (inr e) ↦
                  let (none1, none2) = rw e at updates in
                  rw (e, insert_from, valid.sized)
                    (kicked-Inserts (run left)
                      (λ q w u r' nq sound. insert_from-Inserts left q w u r' nq sound) k v t ne
                      valid
                      (scan-either hashfn1 hashfn2 reductionfn1 reductionfn2 size in_range1
                        in_range2 sentinel bucket_size valid k ne none1 none2)
                      _ (law r t k v valid))
            ])
