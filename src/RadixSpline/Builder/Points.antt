-- ===== src/RadixSpline/Builder/Points.antt =====
-- A vector of ascending points under `push_back`.
use hashing_old_archive.Prelude.{
  ℕ, zero, suc, ◌<◌, ◌≤◌, ◌≡◌, refl, Bool, true, false, List, [], ◌∷◌, ◌++◌, some, length,
  get_elem?, arith, All, Bool-cases, inl, inr, ap,
}
use hashing_old_archive.RadixSpline.{Coord}
use hashing_old_archive.RadixSpline.Builder.{back}
use hashing_old_archive.RadixSpline.Search.{leading}
use hashing_old_archive.RadixSpline.Segment.{IsAscending}

module _ {ℓ} {A : Type ℓ} where
  pub back-append : (l : List A) (a : A) → back (l ++ (a ∷ [])) ≡ some a
  unfolding back
  back-append [] a = refl
  back-append (b ∷ []) a = refl
  back-append (b ∷ c ∷ l) a = back-append (c ∷ l) a

  pub All-append {κ} : (P : A → Type κ) (l : List A) (a : A) → All P l → P a → All P (l ++ (a ∷ []))
  All-append P [] a h p = (p, tt)
  All-append P (b ∷ l) a h p = (h.0, All-append P l a h.1 p)

  pub All-map {κ μ} :
      (P : A → Type κ) (Q : A → Type μ) (l : List A) → ((a : A) → P a → Q a) → All P l → All Q l
  All-map P Q [] f h = tt
  All-map P Q (a ∷ l) f h = (f a h.0, All-map P Q l f h.1)

  pub All-back {κ} : (P : A → Type κ) (l : List A) (a : A) → back l ≡ some a → All P l → P a
  unfolding back
  All-back P [] a e h = cc
  All-back P (b ∷ []) a e h = let f : b ≡ a = cc in rw (← f) h.0
  All-back P (b ∷ c ∷ l) a e h = All-back P (c ∷ l) a e h.1

  pub get_elem?-append :
      (l : List A) (i : ℕ) (a b : A) → get_elem? l i ≡ some a → get_elem? (l ++ (b ∷ [])) i ≡ some a
  get_elem?-append [] i a b e = cc
  get_elem?-append (c ∷ l) zero a b e = e
  get_elem?-append (c ∷ l) (suc i) a b e = get_elem?-append l i a b e

  -- If the last element fails the test, what is appended changes nothing.
  pub leading-append_failed :
      (test : A → Bool) (l : List A) (a b : A)
      → back l ≡ some a
      → test a ≡ false
      → leading test (l ++ (b ∷ [])) ≡ leading test l
  unfolding leading back
  leading-append_failed test [] a b e f = cc
  leading-append_failed test (c ∷ []) a b e f = let g : c ≡ a = cc in rw (g, f) refl
  leading-append_failed test (c ∷ d ∷ l) a b e f = elim (Bool-cases (test c)) [
    | inl t ↦ rw t (ap suc (leading-append_failed test (d ∷ l) a b e f))
    | inr t ↦ rw t refl
  ]

  -- If all pass and the new one fails, all old ones are in front.
  pub leading-append_passed :
      (test : A → Bool) (l : List A) (b : A)
      → All (λ a. test a ≡ true) l
      → test b ≡ false
      → leading test (l ++ (b ∷ [])) ≡ length l
  unfolding leading
  leading-append_passed test [] b h f = rw f refl
  leading-append_passed test (c ∷ l) b h f = rw h.0 (ap suc (leading-append_passed test l b h.1 f))

  pub leading-All :
      (test : A → Bool) (l : List A) → All (λ a. test a ≡ true) l → leading test l ≡ length l
  unfolding leading
  leading-All test [] h = refl
  leading-All test (c ∷ l) h = rw h.0 (ap suc (leading-All test l h.1))

  pub leading-lt-length :
      (test : A → Bool) (l : List A) (a : A)
      → back l ≡ some a
      → test a ≡ false
      → leading test l < length l
  unfolding leading back
  leading-lt-length test [] a e f = cc
  leading-lt-length test (c ∷ []) a e f = let g : c ≡ a = cc in rw (g, f) (omega arith)
  leading-lt-length test (c ∷ d ∷ l) a e f = elim (Bool-cases (test c)) [
    | inl t ↦ rw t (omega (arith, leading-lt-length test (d ∷ l) a e f))
    | inr t ↦ rw t (omega arith)
  ]

module _ {D : Type 0} where
  -- No point lies above the last one.
  pub back-bounds :
      (l : List (Coord D)) (last : Coord D)
      → IsAscending l
      → back l ≡ some last
      → All (λ c. c.x ≤ last.x) l
  unfolding back
  back-bounds [] last h e = tt
  back-bounds (c ∷ []) last h e = let f : c ≡ last = cc in (rw f (omega arith), tt)
  back-bounds (c ∷ d ∷ l) last h e =
      let lt : c.x < last.x = All-back (λ e. c.x < e.x) (d ∷ l) last e h.0 in
      (omega arith, back-bounds (d ∷ l) last h.1 e)

  pub append-IsAscending :
      (l : List (Coord D)) (c : Coord D)
      → IsAscending l
      → All (λ e. e.x < c.x) l
      → IsAscending (l ++ (c ∷ []))
  append-IsAscending [] c h lt = (tt, tt)
  append-IsAscending (b ∷ l) c h lt =
      (All-append (λ e. b.x < e.x) l c h.0 lt.0, append-IsAscending l c h.1 lt.1)
