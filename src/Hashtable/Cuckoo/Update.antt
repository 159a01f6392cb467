-- ===== src/Hashtable/Cuckoo/Update.antt =====
-- The update loop of `insert`: what it writes, and what that does to the table.
use hashing_old_archive.Prelude.{
  ℕ, ◌<◌, ◌≡◌, ◌≢◌, refl, ◌∙◌, List, [], ◌∷◌, none, some, arith, length, set, inl, inr, eq_cases,
  length-set, get_or-set_self, get_or-set_ne, ◌==◌, if◌then◌else◌, ==_refl, ==_of_ne,
}
use hashing_old_archive.Hashtable.Contents.{bucket_at, scan, scan-set_same}
use hashing_old_archive.Hashtable.Cuckoo.Move.{IsValid, scan-held}
use hashing_old_archive.Hashtable.Cuckoo.Rows.{IsDistinct}
use hashing_old_archive.Hashtable.Cuckoo.{
  Directory, Updated, in_first, in_second, nowhere, update_either,
}
use hashing_old_archive.Hashtable.Slots.{Slot, seek, AllFree, IsPacked}

module _ {ℓ} {V : Type ℓ} (k : ℕ) (v : V) where
  -- The first slot of the key gets the payload.
  pub repay : List (Slot V) → List (Slot V)
  repay [] = []
  repay (s ∷ b) =
      let rest = repay b in if s.key == k then record s { payload = v } ∷ b else s ∷ rest

  abbrev pub Updates : List (Slot V) → List (Slot V) → Updated V → Type ℓ
  Updates b c (in_first b') = (b' ≡ repay b) × (seek k b ≢ none)
  Updates b c (in_second c') = (c' ≡ repay c) × (seek k c ≢ none)
  Updates b c nowhere = (seek k b ≡ none) × (seek k c ≡ none)

  step-Updates :
      (s r : Slot V) (b c : List (Slot V)) (u : Updated V)
      → s.key ≢ k
      → r.key ≢ k
      → Updates b c u
      → Updates (s ∷ b) (r ∷ c) (elim u [
        | in_first b' ↦ in_first (s ∷ b')
        | in_second c' ↦ in_second (r ∷ c')
        | nowhere ↦ nowhere
      ])
  unfolding repay seek
  step-Updates s r b c (in_first b') ns nr h = ground arith
  step-Updates s r b c (in_second c') ns nr h = ground arith
  step-Updates s r b c nowhere ns nr h = ground arith

  pub update_either-Updates :
      (b c : List (Slot V)) → length b ≡ length c → Updates b c (update_either k v b c)
  unfolding update_either repay seek
  update_either-Updates [] [] e = (refl, refl)
  update_either-Updates [] (r ∷ c) e = absurd (omega arith)
  update_either-Updates (s ∷ b) [] e = absurd (omega arith)
  update_either-Updates (s ∷ b) (r ∷ c) e = elim (eq_cases s.key k) [
    | inl es ↦ simp (es, ==_refl) (ground arith)
    | inr ns ↦ rw (==_of_ne s.key k ns) (elim (eq_cases r.key k) [
      | inl er ↦ simp (er, ==_refl) (ground arith)
      | inr nr ↦ rw (==_of_ne r.key k nr) (
          step-Updates s r b c (update_either k v b c) ns nr
            (update_either-Updates b c (omega arith)))
    ])
  ]

  pub length-repay : (b : List (Slot V)) → length (repay b) ≡ length b
  unfolding repay
  length-repay [] = refl
  length-repay (s ∷ b) = ground (arith, length-repay b)

  pub seek-repay_self : (b : List (Slot V)) → seek k b ≢ none → seek k (repay b) ≡ some v
  unfolding repay seek
  seek-repay_self [] h = absurd (h refl)
  seek-repay_self (s ∷ b) h = ground (arith, seek-repay_self b)

  pub seek-repay_other : (q : ℕ) (b : List (Slot V)) → q ≢ k → seek q (repay b) ≡ seek q b
  unfolding repay seek
  seek-repay_other q [] n = refl
  seek-repay_other q (s ∷ b) n = ground (arith, seek-repay_other q b n)

  -- Payloads are no part of how a bucket is packed or of which keys it holds.
  repay-AllFree :
      (sentinel : ℕ) (b : List (Slot V)) → AllFree sentinel b → AllFree sentinel (repay b)
  unfolding repay
  repay-AllFree sentinel [] h = tt
  repay-AllFree sentinel (s ∷ b) h = ground (arith, repay-AllFree sentinel b)

  pub repay-IsPacked :
      (sentinel : ℕ) (b : List (Slot V)) → IsPacked sentinel b → IsPacked sentinel (repay b)
  unfolding repay
  repay-IsPacked sentinel [] h = tt
  repay-IsPacked sentinel (s ∷ b) h =
      ground (arith, repay-IsPacked sentinel b, repay-AllFree sentinel b)

  seek-repay-none : (q : ℕ) (b : List (Slot V)) → seek q b ≡ none → seek q (repay b) ≡ none
  unfolding repay seek
  seek-repay-none q [] h = refl
  seek-repay-none q (s ∷ b) h = ground (arith, seek-repay-none q b)

  pub repay-IsDistinct :
      (sentinel : ℕ) (b : List (Slot V)) → IsDistinct sentinel b → IsDistinct sentinel (repay b)
  unfolding repay
  repay-IsDistinct sentinel [] h = tt
  repay-IsDistinct sentinel (s ∷ b) h =
      ground (arith, repay-IsDistinct sentinel b, seek-repay-none s.key b)

module _ {ℓ} {V : Type ℓ} (sentinel bucket_size size : ℕ) (first second : ℕ → ℕ) {t : Directory V}
    (valid : IsValid sentinel bucket_size size first second t) (k : ℕ) (v : V) (ne : k ≢ sentinel)
    (i : ℕ) (inside : i < size) (holds : seek k (bucket_at t i) ≢ none) where
  abbrev repaid : Directory V
  repaid = set t i (repay k v (bucket_at t i))

  row-here : bucket_at repaid i ≡ repay k v (bucket_at t i)
  row-here = get_or-set_self t i (repay k v (bucket_at t i)) [] (rw valid.sized inside)

  row-there : (j : ℕ) → i ≢ j → bucket_at repaid j ≡ bucket_at t j
  row-there j n = get_or-set_ne t i j (repay k v (bucket_at t i)) [] n

  origin : (q j : ℕ) → seek q (bucket_at repaid j) ≢ none → seek q (bucket_at t j) ≢ none
  origin q j h = elim (eq_cases i j) [
    | inr n ↦ rw (row-there j n) at h
    | inl e ↦ rw (← e) (λ z. h (rw (← e, row-here) (seek-repay-none k v q (bucket_at t i) z)))
  ]

  -- A new payload for a key that is there keeps the invariant.
  pub repaid-IsValid : IsValid sentinel bucket_size size first second repaid
  repaid-IsValid = record {
    sized = length-set t i (repay k v (bucket_at t i)) ∙ valid.sized;
    widths = λ j lt. elim (eq_cases i j) [
      | inl e ↦ rw (← e, row-here) (length-repay k v (bucket_at t i) ∙ valid.widths i inside)
      | inr n ↦ rw (row-there j n) (valid.widths j lt)
    ];
    packed = λ j. elim (eq_cases i j) [
      | inl e ↦ rw (← e, row-here) (repay-IsPacked k v sentinel (bucket_at t i) (valid.packed i))
      | inr n ↦ rw (row-there j n) (valid.packed j)
    ];
    distinct = λ j. elim (eq_cases i j) [
      | inl e ↦
          rw (← e, row-here) (repay-IsDistinct k v sentinel (bucket_at t i) (valid.distinct i))
      | inr n ↦ rw (row-there j n) (valid.distinct j)
    ];
    placed = λ q j nq h. valid.placed q j nq (origin q j h);
    apart = λ q j l nq hj hl. valid.apart q j l nq (origin q j hj) (origin q l hl);
  }

  pub scan-repaid_self : scan k repaid ≡ some v
  scan-repaid_self =
      let here : seek k (bucket_at repaid i) ≡ some v =
        rw row-here (seek-repay_self k v (bucket_at t i) holds) in
      scan-held sentinel bucket_size size first second repaid-IsValid k i ne (λ z. cc) ∙ here

  pub scan-repaid_other : (q : ℕ) → q ≢ k → scan q repaid ≡ scan q t
  scan-repaid_other q n =
      scan-set_same q t i (repay k v (bucket_at t i)) (seek-repay_other k v q (bucket_at t i) n)
