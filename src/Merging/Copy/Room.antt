-- ===== src/Merging/Copy/Room.antt =====
-- Blocks as parts of a ring.
use hashing_old_archive.Prelude.{
  ℕ, ◌+◌, ◌-◌, ◌%◌, ◌^◌, ◌<◌, ◌≤◌, ◌≡◌, refl, true, false, List, [], ◌∷◌, ◌==◌, leb, arith,
  lt_cases, eq_cases, inl, inr, sym, length, Bool-cases,
}
use native.Mathlib.Nat.{mod-eq_of_lt, mod-eq-sub-mod}
use hashing_old_archive.Merging.Copy.{Block, rest_of, dest_blocks, src_blocks}
use hashing_old_archive.Merging.Ring.{MergeNode}
use hashing_old_archive.Merging.Ring.Window.{ahead}
use hashing_old_archive.Merging.Ring.Steps.{IsRing}

-- `total` slots of a ring, from `start` on, in blocks.
abbrev pub IsRoom : ℕ → ℕ → ℕ → List Block → Type 0
IsRoom f start total [] = total ≡ 0
IsRoom f start total (b ∷ bs) =
    (b.size ≤ total)
    × (start + b.size ≤ f)
    × ((0 < b.size) → b.start ≡ start)
    × IsRoom f (ahead f start b.size) (total - b.size) bs

module _ (f : ℕ) where
  pub ahead_mod : (start n : ℕ) → start < f → n ≤ f → (start + n) % f ≡ ahead f start n
  ahead_mod start n s le = elim (lt_cases (start + n) f) [
    | inl l ↦ rw (mod-eq_of_lt l) (ground arith)
    | inr g ↦
        let r : start + n - f < f = omega arith in
        rw (mod-eq-sub-mod {n = start + n} {m = f} g, mod-eq_of_lt r) (ground arith)
  ]

  -- The index after a copy.
  pub moved_index :
      (index n : ℕ) → f < 2 ^ 31 → index < f → n ≤ f → (index + n) % 2 ^ 32 % f ≡ ahead f index n
  moved_index index n fit lt le =
      let whole : (index + n) % 2 ^ 32 ≡ index + n = omega arith in
      rw whole (ahead_mod index n lt le)

  pub IsRoom-at :
      (start start' total total' : ℕ) (bs : List Block)
      → start ≡ start'
      → total ≡ total'
      → IsRoom f start total bs
      → IsRoom f start' total' bs
  IsRoom-at start start' total total' bs e e' h = rw (sym e, sym e') h

  -- What remains of the blocks is the room that remains.
  pub rest_of-IsRoom :
      (start total copysize : ℕ) (b : Block) (bs : List Block)
      → start < f
      → copysize ≤ b.size
      → IsRoom f start total (b ∷ bs)
      → IsRoom f (ahead f start copysize) (total - copysize) (rest_of copysize b bs)
  rest_of-IsRoom start total copysize b bs s le (fits, ends, at, later) =
      elim (eq_cases (b.size - copysize) 0) [
        | inl used ↦
            let e : (b.size - copysize == 0) ≡ true = ground arith in
            let same : b.size ≡ copysize = omega arith in rw (e, sym same) later
        | inr left ↦
            let e : (b.size - copysize == 0) ≡ false = ground arith in
            let here : b.start ≡ start = at (omega arith) in
            rw e (
              omega arith,
              ground arith,
              (λ p. rw here (ground arith)),
              IsRoom-at _ _ _ _ bs (ground arith) (omega arith) later,
            )
      ]

  module _ {ℓ} {V : Type ℓ} (node : MergeNode V) (ring : IsRing f node) where
    pub src_blocks-IsRoom : 0 < node.count → IsRoom f node.head node.count (src_blocks f node)
    unfolding src_blocks
    src_blocks-IsRoom some_left = elim (Bool-cases (leb node.tail node.head)) [
      | inl e ↦
          rw (src_blocks, e)
            (
              ground (arith, ring.tail_is, ring.inside, ring.bounded),
              ground (arith, ring.tail_is, ring.inside, ring.bounded),
              (λ p. refl),
              (
                ground (arith, ring.tail_is, ring.inside, ring.bounded),
                ground (arith, ring.tail_is, ring.inside, ring.bounded),
                (λ p. ground (arith, ring.tail_is, ring.inside, ring.bounded)),
                ground (arith, ring.tail_is, ring.inside, ring.bounded),
              ),
            )
      | inr e ↦
          rw (src_blocks, e)
            (
              ground (arith, ring.tail_is, ring.inside, ring.bounded),
              ground (arith, ring.tail_is, ring.inside, ring.bounded),
              (λ p. refl),
              (
                ground (arith, ring.tail_is, ring.inside, ring.bounded),
                ground (arith, ring.tail_is, ring.inside, ring.bounded),
                (λ p. ground (arith, ring.tail_is, ring.inside, ring.bounded)),
                ground (arith, ring.tail_is, ring.inside, ring.bounded),
              ),
            )
    ]

    pub dest_blocks-IsRoom :
        node.count < f → IsRoom f node.tail (f - node.count) (dest_blocks f node)
    unfolding dest_blocks
    dest_blocks-IsRoom room = elim (Bool-cases (leb node.head node.tail)) [
      | inl e ↦
          rw (dest_blocks, e)
            (
              ground (arith, ring.tail_is, ring.inside, ring.bounded),
              ground (arith, ring.tail_is, ring.inside, ring.bounded),
              (λ p. refl),
              (
                ground (arith, ring.tail_is, ring.inside, ring.bounded),
                ground (arith, ring.tail_is, ring.inside, ring.bounded),
                (λ p. ground (arith, ring.tail_is, ring.inside, ring.bounded)),
                ground (arith, ring.tail_is, ring.inside, ring.bounded),
              ),
            )
      | inr e ↦
          rw (dest_blocks, e)
            (
              ground (arith, ring.tail_is, ring.inside, ring.bounded),
              ground (arith, ring.tail_is, ring.inside, ring.bounded),
              (λ p. refl),
              (
                ground (arith, ring.tail_is, ring.inside, ring.bounded),
                ground (arith, ring.tail_is, ring.inside, ring.bounded),
                (λ p. ground (arith, ring.tail_is, ring.inside, ring.bounded)),
                ground (arith, ring.tail_is, ring.inside, ring.bounded),
              ),
            )
    ]

  pub length-src_blocks {ℓ} : {V : Type ℓ} (node : MergeNode V) → length (src_blocks f node) ≡ 2
  unfolding src_blocks
  length-src_blocks node = ground arith

  pub length-dest_blocks {ℓ} : {V : Type ℓ} (node : MergeNode V) → length (dest_blocks f node) ≡ 2
  unfolding dest_blocks
  length-dest_blocks node = ground arith
