-- ===== src/Hashtable/Chained/Lookup.antt =====
-- The invariant of the chained table, and `lookup`.
use hashing_old_archive.Prelude.{
  ℕ, zero, suc, ◌<◌, ◌≡◌, ◌≢◌, refl, ◌∙◌, sym, ap, List, [], ◌∷◌, none, some, map, arith, length,
  get_elem?, set, ==_of_ne,
}
use hashing_old_archive.Hashtable.Chained.{Directory, FirstLevelSlot, lookup}
use hashing_old_archive.Hashtable.Chained.Chain.{row, lookup_slot-seek}
use hashing_old_archive.Hashtable.Contents.{bucket_at, contents, scan-only, contents-key}
use hashing_old_archive.Hashtable.Outcome.{done}
use hashing_old_archive.Hashtable.Slots.{Slot, seek, IsPacked}

module _ {ℓ} {V : Type ℓ} where
  -- The slots of the table, a row for each first-level slot.
  abbrev pub rows : Directory V → List (List (Slot V))
  rows t = map row t

  pub row-get :
      (t : Directory V) (i : ℕ)
      → i < length t
      → (s : FirstLevelSlot V) × (get_elem? t i ≡ some s) × (bucket_at (rows t) i ≡ row s)
  row-get [] i h = absurd (omega arith)
  row-get (s ∷ t) zero h = (s, refl, refl)
  row-get (s ∷ t) (suc i) h = row-get t i (omega arith)

  pub rows-set :
      (t : Directory V) (i : ℕ) (s : FirstLevelSlot V) → rows (set t i s) ≡ set (rows t) i (row s)
  rows-set [] i s = refl
  rows-set (r ∷ t) zero s = refl
  rows-set (r ∷ t) (suc i) s = ap (λ x. row r ∷ x) (rows-set t i s)

  pub length-rows : (t : Directory V) → length (rows t) ≡ length t
  length-rows [] = refl
  length-rows (r ∷ t) = ap suc (length-rows t)

module _ {ℓ} {V : Type ℓ} (sentinel : ℕ) (hashfn reductionfn : ℕ → ℕ) where
  -- The invariant: rows are packed, and a key stands in the row that its hash names.
  pub record IsValid (t : Directory V) : Type ℓ where
    pub packed : (i : ℕ) → IsPacked sentinel (bucket_at (rows t) i)
    pub placed :
        (q i : ℕ) → q ≢ sentinel → reductionfn (hashfn q) ≢ i → seek q (bucket_at (rows t) i) ≡ none

  module _ {t : Directory V} (valid : IsValid t) where
    pub contents-home :
        (q : ℕ)
        → q ≢ sentinel
        → contents sentinel (rows t) q ≡ seek q (bucket_at (rows t) (reductionfn (hashfn q)))
    contents-home q ne =
        contents-key sentinel (rows t) q ne
        ∙ scan-only q (rows t) (reductionfn (hashfn q)) λ i n. valid.placed q i ne (λ e. n (sym e))

    -- A lookup of a key other than the sentinel in a valid table, with the key's reduction in the directory,
    -- returns what the table holds for the key.
    pub chained_lookup-contents :
        (k : ℕ)
        → k ≢ sentinel
        → reductionfn (hashfn k) < length t
        → lookup sentinel hashfn reductionfn k t ≡ done (contents sentinel (rows t) k)
    unfolding lookup
    chained_lookup-contents k ne here =
        let (s, got, e) = row-get t (reductionfn (hashfn k)) here in
        rw (==_of_ne k sentinel ne, got, contents-home k ne, e)
          (ap (λ x. done x)
            (lookup_slot-seek sentinel k ne s (rw e at (valid.packed (reductionfn (hashfn k))))))
