-- ===== src/Merging/Multiway/State.antt =====
-- What the kernels of a variant promise, and the invariant of the tree of nodes.
use hashing_old_archive.Prelude.{
  ℕ, ◌+◌, ◌-◌, ◌*◌, ◌^◌, ◌<◌, ◌≤◌, ◌≡◌, ◌≢◌, refl, Bool, true, false, [], ◌++◌, some, ◌==◌, ◌&&◌,
  arith, length, ◌⊎◌,
}
use hashing_old_archive.Merging.{Relation}
use hashing_old_archive.Merging.Reference.{merge}
use hashing_old_archive.Merging.Ring.{MergeNode}
use hashing_old_archive.Merging.Ring.Steps.{IsRing, tuples}
use hashing_old_archive.Merging.Kernels.Read.{Fed}
use hashing_old_archive.Merging.Kernels.Streams.{Merged, Taken}
use hashing_old_archive.Merging.Kernels.Idle.{IsIdle}
use hashing_old_archive.Merging.Multiway.{Variant, Fifos, set_at}

module _ {ℓ} {A : Type ℓ} where
  pub set_at_same : (i j : ℕ) (x : A) (array : ℕ → A) → j ≡ i → set_at i x array j ≡ x
  unfolding set_at
  set_at_same i j x array e = let same : (j == i) ≡ true = ground arith in rw same refl

  pub set_at_other : (i j : ℕ) (x : A) (array : ℕ → A) → j ≢ i → set_at i x array j ≡ array j
  unfolding set_at
  set_at_other i j x array n = let other : (j == i) ≡ false = ground arith in rw other refl

pub done-undone : (b : Bool) → b ≡ true → b ≡ false → ⊥
done-undone true e e' = ground arith
done-undone false e e' = ground arith

module _ {ℓ} {V : Type ℓ} (f : ℕ) where
  -- A leaf that is not full takes from the front of the merge of its inputs until it is full or they are empty; a node
  -- takes from the front of the merge of its children's streams, and so does the output, which takes
  -- all of it when both streams have ended. Where nothing is taken, there is nothing to take.
  pub record IsVariant (variant : Variant V) : Type ℓ where
    pub reads :
        (node : MergeNode V) (xs ys : Relation V)
        → IsRing f node
        → node.count < f
        → (a : Fed f node xs ys) × (variant.readmerge node xs ys
            ≡ some (a.node', a.xs', a.ys', length a.taken))
          × ((a.node'.count ≡ f) ⊎ ((a.xs' ≡ []) × (a.ys' ≡ [])))
    pub merges :
        (after_r after_l : Relation V) (node right left : MergeNode V) (rightdone leftdone : Bool)
        → IsRing f node
        → IsRing f right
        → IsRing f left
        → node.count < f
        → (rightdone ≡ true → after_r ≡ [])
        → (leftdone ≡ true → after_l ≡ [])
        → (a : Merged f after_r after_l node right left) × (variant.merge_node node right left
              rightdone leftdone
            ≡ some (a.node', a.children.right', a.children.left'))
          × ((0 < length a.children.taken) ⊎ IsIdle rightdone leftdone right left)
    pub stores :
        (after_r after_l : Relation V) (right left : MergeNode V) (rightdone leftdone : Bool)
        → IsRing f right
        → IsRing f left
        → (rightdone ≡ true → after_r ≡ [])
        → (leftdone ≡ true → after_l ≡ [])
        → (a : Taken f after_r after_l right left) × (variant.mergestore right left rightdone
              leftdone
            ≡ some (a.taken, a.right', a.left'))
          × (((rightdone && leftdone) ≡ false) ⊎ ((a.right'.count ≡ 0) × (a.left'.count ≡ 0)))
          × ((0 < length a.taken) ⊎ IsIdle rightdone leftdone right left)

  -- What a node holds and what it still gets.
  abbrev pub stream : Fifos V → (ℕ → Relation V) → ℕ → Relation V
  stream fifos later i = tuples f (fifos.nodes i) ++ later i

  -- `later` is what each node still gets: what the streams of its children or its inputs merge to, and
  -- nothing once it is done. The children of a node that is done are done. The inputs are small.
  pub record IsTree (nfifos : ℕ) (fifos : Fifos V) (later : ℕ → Relation V) : Type ℓ where
    pub ring : (i : ℕ) → i < nfifos → IsRing f (fifos.nodes i)
    pub inner :
        (i : ℕ)
        → 2 * i + 3 < nfifos
        → later i ≡ merge (stream fifos later (2 * i + 2)) (stream fifos later (2 * i + 3))
    pub leaf :
        (i : ℕ)
        → i < nfifos
        → nfifos ≤ 2 * i + 2
        → later i
          ≡ merge (fifos.parts (2 * (nfifos - 1 - i))) (fifos.parts (2 * (nfifos - 1 - i) + 1))
    pub ended : (i : ℕ) → i < nfifos → fifos.done i ≡ true → later i ≡ []
    pub closed :
        (i : ℕ)
        → 2 * i + 3 < nfifos
        → fifos.done i ≡ true
        → (fifos.done (2 * i + 2) ≡ true) × (fifos.done (2 * i + 3) ≡ true)
    pub small : (j : ℕ) → length (fifos.parts j) < 2 ^ 32
