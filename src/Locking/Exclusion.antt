-- ===== src/Locking/Exclusion.antt =====
-- At most one thread has the lock.
use hashing_old_archive.Prelude.{
  ℕ, ◌≡◌, ◌≢◌, refl, Bool, true, false, ◌==◌, arith, Bool-cases, eq_cases, inl, inr, sym, ◌∙◌,
}
use hashing_old_archive.Locking.{
  tas, Machine, mark, try_lock, leave, Steps, stay, locking, unlocking, unused,
}

-- While the lock is free no thread is inside, and no two threads are inside.
pub record IsExclusive (m : Machine) : Type 0 where
  pub free : (i : ℕ) → m.value ≡ 0 → m.inside i ≡ false
  pub alone : (i j : ℕ) → m.inside i ≡ true → m.inside j ≡ true → i ≡ j

mark_same :
    (thread i : ℕ) (flag : Bool) (inside : ℕ → Bool) → i ≡ thread → mark thread flag inside i ≡ flag
unfolding mark
mark_same thread i flag inside e = let same : (i == thread) ≡ true = ground arith in rw same refl

mark_other :
    (thread i : ℕ) (flag : Bool) (inside : ℕ → Bool)
    → i ≢ thread
    → mark thread flag inside i ≡ inside i
unfolding mark
mark_other thread i flag inside n =
    let other : (i == thread) ≡ false = ground arith in rw other refl

contradiction : (b : Bool) → b ≡ true → b ≡ false → ⊥
contradiction true e e' = ground arith
contradiction false e e' = ground arith

alone-enter :
    (thread i : ℕ) (m : Machine)
    → IsExclusive m
    → m.value ≡ 0
    → mark thread true m.inside i ≡ true
    → i ≡ thread
alone-enter thread i m ok e h = elim (eq_cases i thread) [
  | inl same ↦ same
  | inr n ↦
      absurd
        (contradiction (m.inside i) (sym (mark_other thread i true m.inside n) ∙ h) (ok.free i e))
]

try_lock-IsExclusive : (thread : ℕ) (m : Machine) → IsExclusive m → IsExclusive (try_lock thread m)
unfolding try_lock tas
try_lock-IsExclusive thread m ok = elim (Bool-cases (m.value == 0)) [
  | inl e ↦
      let zero_value : m.value ≡ 0 = ground arith in
      rw e record {
        free = λ i q. absurd (ground arith);
        alone = λ i j h h'.
            alone-enter thread i m ok zero_value h ∙ sym (alone-enter thread j m ok zero_value h');
      }
  | inr e ↦ rw e record { free = λ i q. absurd (ground arith); alone = ok.alone }
]

gone :
    (thread i : ℕ) (m : Machine)
    → IsExclusive m
    → m.inside thread ≡ true
    → mark thread false m.inside i ≡ false
gone thread i m ok h = elim (eq_cases i thread) [
  | inl same ↦ mark_same thread i false m.inside same
  | inr n ↦
      mark_other thread i false m.inside n
      ∙ elim (Bool-cases (m.inside i)) [ inl q ↦ absurd (n (ok.alone i thread q h)) | inr q ↦ q ]
]

leave-IsExclusive :
    (thread : ℕ) (m : Machine)
    → IsExclusive m
    → m.inside thread ≡ true
    → IsExclusive (leave thread m)
unfolding leave
leave-IsExclusive thread m ok h = record {
  free = λ i q. gone thread i m ok h;
  alone =
      λ i j q q'. absurd (contradiction (mark thread false m.inside i) q (gone thread i m ok h));
}

Steps-IsExclusive : (m n : Machine) → Steps m n → IsExclusive m → IsExclusive n
Steps-IsExclusive _ _ (stay m) ok = ok
Steps-IsExclusive _ _ (locking thread m n h later) ok =
    Steps-IsExclusive (try_lock thread m) n later (try_lock-IsExclusive thread m ok)
Steps-IsExclusive _ _ (unlocking thread m n h later) ok =
    Steps-IsExclusive (leave thread m) n later (leave-IsExclusive thread m ok h)

-- From an unused lock, after any steps of any threads, while a thread has the lock another one is not
-- inside, and does not get inside by trying.
pub Steps-alone :
    (n : Machine) (i j : ℕ)
    → Steps unused n
    → n.inside i ≡ true
    → j ≢ i
    → (n.inside j ≡ false) × ((try_lock j n).inside j ≡ false)
unfolding try_lock tas
Steps-alone n i j steps h other =
    let ok =
      Steps-IsExclusive unused n steps
        (record { free = λ i q. refl; alone = λ i j q q'. absurd (contradiction false q refl) }) in
    let outside : n.inside j ≡ false = elim (Bool-cases (n.inside j)) [
      | inl q ↦ absurd (other (ok.alone j i q h))
      | inr q ↦ q
    ] in
    let taken : (n.value == 0) ≡ false = elim (eq_cases n.value 0) [
      | inl e ↦ absurd (contradiction (n.inside i) h (ok.free i e))
      | inr e ↦ ground arith
    ] in
    (outside, rw taken outside)
