-- ===== src/Hashtable/Cuckoo/Rows.antt =====
-- Buckets in which a slot is overwritten, and buckets that hold no key twice.
use hashing_old_archive.Prelude.{
  ℕ, zero, suc, ◌<◌, ◌≤◌, ◌≡◌, ◌≢◌, refl, List, [], ◌∷◌, none, some, arith, ◌==◌, length, get_elem?,
  set, ◌⊎◌, inl, inr, ◌∙◌, eq_cases, ==_refl, ==_of_ne, true,
}
use hashing_old_archive.Hashtable.Cuckoo.{used, find_key}
use hashing_old_archive.Hashtable.Slots.{Slot, seek, AllFree, IsPacked}

module _ {ℓ} {V : Type ℓ} where
  -- No key but the sentinel stands in two slots.
  abbrev pub IsDistinct : ℕ → List (Slot V) → Type ℓ
  IsDistinct sentinel [] = Unit
  IsDistinct sentinel (s ∷ b) = ((s.key ≡ sentinel) ⊎ (seek s.key b ≡ none)) × IsDistinct sentinel b

  abbrev pub entry : ℕ → V → Slot V
  entry k v = record { key = k; payload = v }

  pub find_key-seek : (k : ℕ) (b : List (Slot V)) → find_key k b ≡ seek k b
  unfolding find_key seek
  find_key-seek k [] = refl
  find_key-seek k (s ∷ b) = rw (find_key-seek k b)

  pub seek-set_other :
      (b : List (Slot V)) (c k q : ℕ) (v : V) (s : Slot V)
      → get_elem? b c ≡ some s
      → q ≢ s.key
      → q ≢ k
      → seek q (set b c (entry k v)) ≡ seek q b
  unfolding seek
  seek-set_other [] c k q v s g n m = refl
  seek-set_other (x ∷ b) zero k q v s g n m = ground arith
  seek-set_other (x ∷ b) (suc c) k q v s g n m = rw (seek-set_other b c k q v s g n m)

  pub seek-set_new :
      (b : List (Slot V)) (c k : ℕ) (v : V) (s : Slot V)
      → get_elem? b c ≡ some s
      → seek k b ≡ none
      → seek k (set b c (entry k v)) ≡ some v
  unfolding seek
  seek-set_new [] c k v s g a = absurd (cc)
  seek-set_new (x ∷ b) zero k v s g a = ground arith
  seek-set_new (x ∷ b) (suc c) k v s g a = ground (arith, seek-set_new b c k v s g)

  pub seek-get_elem? :
      (b : List (Slot V)) (c : ℕ) (s : Slot V) → get_elem? b c ≡ some s → seek s.key b ≢ none
  unfolding seek
  seek-get_elem? [] c s g = cc
  seek-get_elem? (x ∷ b) zero s g = ground arith
  seek-get_elem? (x ∷ b) (suc c) s g = ground (arith, seek-get_elem? b c s g)

module _ {ℓ} {V : Type ℓ} (sentinel : ℕ) where
  pub seek-entry :
      (b : List (Slot V)) (c : ℕ) (s : Slot V)
      → get_elem? b c ≡ some s
      → s.key ≢ sentinel
      → IsDistinct sentinel b
      → seek s.key b ≡ some s.payload
  unfolding seek
  seek-entry [] c s g ne d = absurd (cc)
  seek-entry (x ∷ b) zero s g ne d = ground arith
  seek-entry (x ∷ b) (suc c) s g ne d =
      ground (arith, seek-entry b c s g ne d.1, seek-get_elem? b c s g)

  pub seek-set_gone :
      (b : List (Slot V)) (c k : ℕ) (v : V) (s : Slot V)
      → get_elem? b c ≡ some s
      → s.key ≢ sentinel
      → s.key ≢ k
      → IsDistinct sentinel b
      → seek s.key (set b c (entry k v)) ≡ none
  unfolding seek
  seek-set_gone [] c k v s g ne n d = refl
  seek-set_gone (x ∷ b) zero k v s g ne n d = ground arith
  seek-set_gone (x ∷ b) (suc c) k v s g ne n d =
      ground (arith, seek-set_gone b c k v s g ne n d.1, seek-get_elem? b c s g)

  pub set-IsDistinct :
      (b : List (Slot V)) (c k : ℕ) (v : V) (s : Slot V)
      → get_elem? b c ≡ some s
      → k ≢ sentinel
      → seek k b ≡ none
      → IsDistinct sentinel b
      → IsDistinct sentinel (set b c (entry k v))
  unfolding seek
  set-IsDistinct [] c k v s g ne a d = tt
  set-IsDistinct (x ∷ b) zero k v s g ne a d = (inr (ground arith), d.1)
  set-IsDistinct (x ∷ b) (suc c) k v s g ne a d = (
    elim d.0 [
      | inl free ↦ inl free
      | inr fresh ↦
          let apart : x.key ≢ s.key = λ e. seek-get_elem? b c s g (rw e at fresh) in
          inr (seek-set_other b c k x.key v s g apart (ground arith) ∙ fresh)
    ],
    set-IsDistinct b c k v s g ne (ground arith) d.1,
  )

  pub used-le-length : (b : List (Slot V)) → used sentinel b ≤ length b
  unfolding used
  used-le-length [] = omega arith
  used-le-length (s ∷ b) = ground (arith, used-le-length b)

  used-AllFree : (b : List (Slot V)) → AllFree sentinel b → used sentinel b ≡ 0
  unfolding used
  used-AllFree [] h = refl
  used-AllFree (s ∷ b) h = ground (arith, used-AllFree b)

  -- The count of the used slots is the index of the first free one, if there is one.
  pub used-free :
      (b : List (Slot V)) (k : ℕ) (v : V)
      → IsPacked sentinel b
      → used sentinel b < length b
      → (s : Slot V) × (get_elem? b (used sentinel b) ≡ some s)
        × (s.key ≡ sentinel)
        × IsPacked sentinel (set b (used sentinel b) (entry k v))
  unfolding used
  used-free [] k v h lt = absurd (omega arith)
  used-free (x ∷ b) k v h lt = elim (eq_cases x.key sentinel) [
    | inl e ↦
        let free : (x.key == sentinel) ≡ true = rw e (==_refl sentinel) in
        rw (free, used-AllFree b (h.0 e)) (x, refl, e, ((λ _. h.0 e), h.1))
    | inr n ↦
        let (s, g, e, p) = used-free b k v h.1 (ground arith) in
        rw (==_of_ne x.key sentinel n) (s, g, e, ((λ z. absurd (n z)), p))
  ]

  pub used-full : (b : List (Slot V)) → length b ≤ used sentinel b → seek sentinel b ≡ none
  unfolding used seek
  used-full [] h = refl
  used-full (s ∷ b) h = ground (arith, used-full b, used-le-length b)

  pub full-IsPacked : (b : List (Slot V)) → seek sentinel b ≡ none → IsPacked sentinel b
  unfolding seek
  full-IsPacked [] h = tt
  full-IsPacked (s ∷ b) h = ((λ e. absurd (ground arith)), full-IsPacked b (ground arith))

  -- A full bucket stays full when a slot gets another entry.
  pub full_after :
      (k : ℕ) (v : V)
      → k ≢ sentinel
      → (b : List (Slot V)) (c : ℕ) → seek sentinel b ≡ none
      → seek sentinel (set b c (entry k v)) ≡ none
  unfolding seek
  full_after k v ne [] c h = refl
  full_after k v ne (s ∷ b) zero h = ground arith
  full_after k v ne (s ∷ b) (suc c) h = ground (arith, full_after k v ne b c)
