-- ===== src/Hashtable/Probing/Lookup.antt =====
-- `lookup` of hashtable/include/probing.hpp, against the contents of the table.
use hashing_old_archive.Prelude.{
  ℕ, ◌<◌, ◌≡◌, ◌≢◌, ◌∙◌, sym, Option, none, some, length, arith, ==_of_ne, ap,
}
use hashing_old_archive.Hashtable.Contents.{scan, contents}
use hashing_old_archive.Hashtable.Outcome.{Outcome, done, thrown, out_of_range, out_of_fuel}
use hashing_old_archive.Hashtable.Probing.{Prober, Directory, home, lookup}
use hashing_old_archive.Hashtable.Probing.Walk.{Walked-zero, LookupEnds, lookup_from-Ends}
use hashing_old_archive.Hashtable.Slots.{find-seek}
use hashing_old_archive.Hashtable.Probing.Invariant.{IsValid, scan-held, walk-absent}

module _ {ℓ} {V : Type ℓ} (p : Prober) (sentinel : ℕ) (hashfn reductionfn : ℕ → ℕ) where
  module _ (in_range : (k : ℕ) → home hashfn reductionfn k < p.directory_size) {t : Directory V}
      (valid : IsValid p sentinel hashfn reductionfn t) where
    lookup_ends :
        (k : ℕ)
        → k ≢ sentinel
        → (r : Outcome (Option V)) → LookupEnds p sentinel hashfn reductionfn t k r
        → r ≡ done (scan k t)
    lookup_ends k ne (done (some v)) (s, lt, e) =
        rw
          (scan-held p sentinel hashfn reductionfn valid k (p.probe (home hashfn reductionfn k) s)
            ne (λ z. cc))
          (ap (λ x. done x) (sym e))
    lookup_ends k ne (done none) (s, lt, w, f, stop) = rw (
        walk-absent p sentinel hashfn reductionfn valid k s ne w
          (sym (find-seek sentinel k _ ne (valid.packed _)) ∙ f) stop)
    lookup_ends k ne thrown h = elim h [ ]
    lookup_ends k ne out_of_range h = elim h [ ]
    lookup_ends k ne out_of_fuel h = elim h [ ]

    -- If reductions stay in the directory, a lookup of a key other than the sentinel in a valid table ends,
    -- reads inside the directory and returns what the table holds for the key.
    pub probing_lookup-contents :
        (k : ℕ)
        → k ≢ sentinel
        → lookup p sentinel hashfn reductionfn k t ≡ done (contents sentinel t k)
    unfolding lookup contents
    probing_lookup-contents k ne = rw (==_of_ne k sentinel ne) (
        lookup_ends k ne _ (
          rw (p.starts (home hashfn reductionfn k) (in_range k)) at (
            lookup_from-Ends p sentinel hashfn reductionfn t k valid.width (in_range k) (length t) 0
              (omega (arith, in_range k)) (omega (arith, valid.width))
              (Walked-zero p sentinel hashfn reductionfn t k))))
