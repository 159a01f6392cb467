-- ===== src/Merging/Ring/Window.antt =====
-- The tuples that a ring buffer holds, in their order.
use hashing_old_archive.Prelude.{
  ℕ, zero, suc, ◌+◌, ◌-◌, ◌%◌, ◌^◌, ◌<◌, ◌≤◌, ◌≡◌, ◌≢◌, refl, List, [], ◌∷◌, ◌++◌, none, some, ◌==◌,
  ltb, if◌then◌else◌, get_elem?, set, length, arith, eq_cases, inl, inr, ap, Option-cases,
}
use hashing_old_archive.Prelude.Bits.{bit_and_mask, pow2-pos}
use native.Mathlib.Nat.{mod-eq_of_lt, mod_self}
use hashing_old_archive.Merging.{Tuple, Relation}
use hashing_old_archive.Merging.Ring.{next_modulo, next_bitand}

-- An index on a ring of `f` slots moves on.
abbrev pub wrapped : ℕ → ℕ → ℕ
wrapped f index = if index + 1 == f then 0 else index + 1

-- The index `i` steps behind another.
abbrev pub ahead : ℕ → ℕ → ℕ → ℕ
ahead f head i = if ltb (head + i) f then head + i else head + i - f

pub ahead-ahead :
    (f head n m : ℕ) → head < f → n + m ≤ f → ahead f (ahead f head n) m ≡ ahead f head (n + m)
ahead-ahead f head n m h le = ground arith

-- The steps from one index to another.
abbrev pub steps : ℕ → ℕ → ℕ → ℕ
steps f head tail = if ltb tail head then tail + f - head else tail - head

pub next_modulo-wrapped :
    (f index : ℕ) → f < 2 ^ 32 → index < f → next_modulo f index ≡ wrapped f index
unfolding next_modulo
next_modulo-wrapped f index fit lt = elim (eq_cases (index + 1) f) [
  | inl e ↦
      let whole : (index + 1) % 2 ^ 32 ≡ f = omega arith in rw (whole, mod_self f) (ground arith)
  | inr n ↦
      let whole : (index + 1) % 2 ^ 32 ≡ index + 1 = omega arith in
      let less : index + 1 < f = omega arith in rw (whole, mod-eq_of_lt less) (ground arith)
]

-- On a ring whose size is a power of two, masking is the remainder.
pub next_bitand-wrapped :
    (k index : ℕ)
    → 2 ^ k < 2 ^ 32
    → index < 2 ^ k
    → next_bitand (2 ^ k) index ≡ wrapped (2 ^ k) index
unfolding next_bitand
next_bitand-wrapped k index fit lt =
    let mask : (2 ^ k + 2 ^ 32 - 1) % 2 ^ 32 ≡ 2 ^ k - 1 = omega (arith, pow2-pos k) in
    let whole : (index + 1) % 2 ^ 32 ≡ index + 1 = omega arith in
    rw (mask, whole, bit_and_mask k (index + 1))
      (elim (eq_cases (index + 1) (2 ^ k)) [
        | inl e ↦ rw (e, mod_self (2 ^ k)) (ground arith)
        | inr n ↦
            let less : index + 1 < 2 ^ k = omega arith in rw (mod-eq_of_lt less) (ground arith)
      ])

module _ {ℓ} {V : Type ℓ} (f : ℕ) where
  -- `n` tuples from an index on; a read out of range ends it.
  unfoldable pub window : ℕ → List (Tuple V) → ℕ → Relation V
  window zero buffer head = []
  window (suc n) buffer head =
      let rest = window n buffer (wrapped f head) in
      elim (get_elem? buffer head) [ none ↦ [] | some x ↦ x ∷ rest ]

  pub get-some :
      (l : List (Tuple V)) (i : ℕ) → i < length l → (x : Tuple V) × (get_elem? l i ≡ some x)
  get-some [] i h = absurd (omega arith)
  get-some (x ∷ l) zero h = (x, refl)
  get-some (x ∷ l) (suc i) h = get-some l i (omega arith)

  pub get_elem?-set_self :
      (l : List (Tuple V)) (i : ℕ) (x : Tuple V) → i < length l → get_elem? (set l i x) i ≡ some x
  get_elem?-set_self [] i x h = absurd (omega arith)
  get_elem?-set_self (y ∷ l) zero x h = refl
  get_elem?-set_self (y ∷ l) (suc i) x h = get_elem?-set_self l i x (omega arith)

  get_elem?-set_ne :
      (l : List (Tuple V)) (i j : ℕ) (x : Tuple V) → i ≢ j → get_elem? (set l i x) j ≡ get_elem? l j
  get_elem?-set_ne [] i j x n = refl
  get_elem?-set_ne (y ∷ l) zero zero x n = absurd (n refl)
  get_elem?-set_ne (y ∷ l) zero (suc j) x n = refl
  get_elem?-set_ne (y ∷ l) (suc i) zero x n = refl
  get_elem?-set_ne (y ∷ l) (suc i) (suc j) x n = get_elem?-set_ne l i j x (λ e. n (ap suc e))

  -- A write behind the window leaves it.
  pub window-set :
      (n : ℕ) (buffer : List (Tuple V)) (head tail : ℕ) (x : Tuple V)
      → head < f
      → tail < f
      → n ≤ steps f head tail
      → window n (set buffer tail x) head ≡ window n buffer head
  unfolding window
  window-set zero buffer head tail x h t le = refl
  window-set (suc n) buffer head tail x h t le =
      let apart : tail ≢ head = λ e. ground arith in
      let same = get_elem?-set_ne buffer tail head x apart in
      elim (Option-cases (get_elem? buffer head)) [
        | inl e ↦ rw (window, same, window, e, window) refl
        | inr (y, e) ↦
            rw (window, same, window, e, window)
              (ap (λ l. y ∷ l)
                (window-set n buffer (wrapped f head) tail x (ground arith) t (ground arith)))
      ]

  -- One slot more is one tuple more at the end.
  pub window-suc :
      (n : ℕ) (buffer : List (Tuple V)) (head : ℕ) (x : Tuple V)
      → head < f
      → n < f
      → length buffer ≡ f
      → get_elem? buffer (ahead f head n) ≡ some x
      → window (suc n) buffer head ≡ window n buffer head ++ (x ∷ [])
  unfolding window
  window-suc zero buffer head x h lt size got =
      let e : ahead f head 0 ≡ head = ground arith in
      let got' : get_elem? buffer head ≡ some x = rw e at got in rw (window, got', window) refl
  window-suc (suc n) buffer head x h lt size got =
      let e : ahead f (wrapped f head) n ≡ ahead f head (suc n) = ground arith in
      let (y, at_head) = get-some buffer head (rw size h) in
      rw
        (
          window,
          at_head,
          window,
          window-suc n buffer (wrapped f head) x (ground arith) (omega arith) size (rw e got),
        )
        refl
