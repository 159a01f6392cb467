-- ===== src/Merging/Multiway.antt =====
-- The multi-way merge of scalar_multiwaymerge.h: a tree of ring buffers, in which the children of node
-- `m` are the nodes `2 * m + 2` and `2 * m + 3`, and the nodes 0 and 1 feed the output. The three
-- variants of the source have the same loop over different kernels, which are a parameter.
pub mod State
pub mod Work
pub mod Leaf
pub mod Leaves
pub mod Inner
pub mod Lower
pub mod Inners
pub mod Store
pub mod Quiet
pub mod Root
pub mod Whole
pub mod Variants
pub mod Start
pub mod Inputs
pub mod Result
use hashing_old_archive.Prelude.{
  ℕ, zero, suc, ◌+◌, ◌-◌, ◌*◌, ◌/◌, ◌%◌, ◌^◌, ◌<◌, ◌≡◌, refl, arith, ap, ◌&&◌, ◌||◌, not, Bool,
  true, false, List, [], ◌∷◌, ◌++◌, Option, none, some, ◌==◌, ltb, leb, length, if◌then◌else◌,
}
use hashing_old_archive.Merging.{Tuple, Relation, ◌>>=◌}
use hashing_old_archive.Merging.Ring.{MergeNode}
use hashing_old_archive.Merging.Kernels.Variants.{
  readmerge_scalar_modulo, readmerge_scalar_bitand, merge_scalar_modulo, mergestore_scalar_modulo,
  mergestore_scalar_bitand,
}
use hashing_old_archive.Merging.Decomposed.{readmerge_scalar_decomposed}
use hashing_old_archive.Merging.Decomposed.Parts.{merge_scalar_decomposed}
use hashing_old_archive.Merging.Decomposed.Output.{mergestore_scalar_decomposed}

-- The kernels of a variant, for its `fifosize`.
pub record Variant {ℓ} (V : Type ℓ) : Type ℓ where
  pub readmerge :
      MergeNode V → Relation V → Relation V → Option (MergeNode V × Relation V × Relation V × ℕ)
  pub merge_node :
      MergeNode V
      → MergeNode V
      → MergeNode V
      → Bool
      → Bool
      → Option (MergeNode V × MergeNode V × MergeNode V)
  pub mergestore :
      MergeNode V → MergeNode V → Bool → Bool → Option (Relation V × MergeNode V × MergeNode V)

-- The arrays of the nodes, of `nfifos` elements, of their flags, and of the inputs, of `nparts`
-- elements, each input being what is left of it.
pub record Fifos {ℓ} (V : Type ℓ) : Type ℓ where
  pub nodes : ℕ → MergeNode V
  pub done : ℕ → Bool
  pub parts : ℕ → Relation V

-- An element of an array; none for an index out of range.
abbrev pub element {ℓ} : {A : Type ℓ} → ℕ → (ℕ → A) → ℕ → Option A
element size array i = if ltb i size then some (array i) else none

unfoldable pub set_at {ℓ} : {A : Type ℓ} → ℕ → A → (ℕ → A) → ℕ → A
set_at i x array j = if j == i then x else array j

module _ {ℓ} {A : Type ℓ} where
  unfoldable pub take : ℕ → List A → List A
  take zero l = []
  take (suc n) [] = []
  take (suc n) (a ∷ l) = a ∷ take n l

  unfoldable pub drop : ℕ → List A → List A
  drop zero l = l
  drop (suc n) [] = []
  drop (suc n) (a ∷ l) = drop n l

  -- The tuples of an input that its reader is told of: their number is cut to 32 bits.
  abbrev pub told : List A → List A
  told l = take (length l % 2 ^ 32) l

  -- The tuples behind them.
  abbrev pub untold : List A → List A
  untold l = drop (length l % 2 ^ 32) l

  take_all : (n : ℕ) (l : List A) → n ≡ length l → take n l ≡ l
  unfolding take
  take_all zero [] e = refl
  take_all zero (a ∷ l) e = absurd (omega arith)
  take_all (suc n) [] e = refl
  take_all (suc n) (a ∷ l) e = ap (λ k. a ∷ k) (take_all n l (omega arith))

  drop_all : (n : ℕ) (l : List A) → n ≡ length l → drop n l ≡ []
  unfolding drop
  drop_all zero [] e = refl
  drop_all zero (a ∷ l) e = absurd (omega arith)
  drop_all (suc n) [] e = refl
  drop_all (suc n) (a ∷ l) e = drop_all n l (omega arith)

  pub told_small : (l : List A) → length l < 2 ^ 32 → told l ≡ l
  told_small l small = take_all (length l % 2 ^ 32) l (omega arith)

  pub untold_small : (l : List A) → length l < 2 ^ 32 → untold l ≡ []
  untold_small l small = drop_all (length l % 2 ^ 32) l (omega arith)

module _ {ℓ} {V : Type ℓ} (variant : Variant V) (nfifos fifosize : ℕ) where
  -- A leaf reads from its inputs `c` and `c + 1`. The flag is what `finished` is combined with.
  unfoldable pub read_leaf : ℕ → ℕ → MergeNode V → Fifos V → Option (Fifos V × Bool)
  read_leaf c m node fifos = do
    in_a ← element (nfifos + 2) fifos.parts c
    in_b ← element (nfifos + 2) fifos.parts (c + 1)
    (node, read_a, read_b, nread) ← variant.readmerge node (told in_a) (told in_b)
    let in_a = read_a ++ untold in_a
    let in_b = read_b ++ untold in_b
    let ended = nread == 0 || (length in_a == 0 && length in_b == 0)
    some (
      record {
        nodes = set_at m node fifos.nodes;
        done = set_at m ended fifos.done;
        parts = set_at (c + 1) in_b (set_at c in_a fifos.parts);
      },
      ended,
    )

  unfoldable pub leaf : ℕ → ℕ → Fifos V → Option (Fifos V × Bool)
  leaf c m fifos = do
    node ← element nfifos fifos.nodes m
    (if not (fifos.done m) && ltb node.count (fifosize / 2)
        then read_leaf c m node fifos
        else some (fifos, true))

  -- The loop over the leaves, from the last node on; the second number is `m + 1`. Its end is the
  -- first inner node.
  unfoldable pub leaves : ℕ → ℕ → ℕ → Fifos V → Bool → Option (ℕ × Fifos V × Bool)
  leaves zero c left fifos finished = some (left, fifos, finished)
  leaves (suc rounds) c zero fifos finished = none
  leaves (suc rounds) c (suc m) fifos finished = do
    (fifos, ended) ← leaf c m fifos
    leaves rounds (c + 2) m fifos (finished && ended)

  -- A node that is not done, and its children.
  unfoldable pub merge_inner :
      ℕ → MergeNode V → MergeNode V → MergeNode V → Fifos V → Option (Fifos V × Bool)
  merge_inner m node right left fifos = do
    let done_r = fifos.done (2 * m + 2)
    let done_l = fifos.done (2 * m + 3)
    let ready =
        done_r || done_l || (leb (fifosize / 2) right.count && leb (fifosize / 2) left.count)
    (node, right, left) ←
        (if ready
          then variant.merge_node node right left done_r done_l
          else some (node, right, left))
    let ended = done_r && done_l && (right.count == 0 && left.count == 0)
    some (
      record fifos {
        nodes = set_at (2 * m + 3) left (set_at (2 * m + 2) right (set_at m node fifos.nodes));
        done = set_at m ended fifos.done;
      },
      ended,
    )

  unfoldable pub inner : ℕ → Fifos V → Option (Fifos V × Bool)
  inner m fifos = do
    node ← element nfifos fifos.nodes m
    right ← element nfifos fifos.nodes (2 * m + 2)
    left ← element nfifos fifos.nodes (2 * m + 3)
    (if fifos.done m
        then some (fifos, true)
        else if (fifos.done (2 * m + 2) || fifos.done (2 * m + 3) || ltb node.count (fifosize / 2))
            && ltb node.count fifosize
        then merge_inner m node right left fifos
        else some (fifos, false))

  -- The loop over the inner nodes, down to the first; the number is `m + 1`.
  unfoldable pub inners : ℕ → Fifos V → Bool → Option (Fifos V × Bool)
  inners zero fifos finished = some (fifos, finished)
  inners (suc m) fifos finished = do
    (fifos, ended) ← inner m fifos
    inners m fifos (finished && ended)

  unfoldable pub store_roots : Fifos V → Option (Relation V × Fifos V)
  store_roots fifos = do
    right ← element nfifos fifos.nodes 0
    left ← element nfifos fifos.nodes 1
    (out, right, left) ← variant.mergestore right left (fifos.done 0) (fifos.done 1)
    some (out, record fifos { nodes = set_at 1 left (set_at 0 right fifos.nodes) })

  -- One round of the outer loop: what is written, the state, and `finished`.
  unfoldable pub round : Fifos V → Option (Relation V × Fifos V × Bool)
  round fifos = do
    (left, fifos, finished) ← leaves ((nfifos + 3) / 2) 0 nfifos fifos true
    (fifos, finished) ← inners left fifos finished
    (out, fifos) ← store_roots fifos
    some (out, fifos, finished)

  -- The outer loop; none when the fuel runs out.
  unfoldable pub rounds : ℕ → Fifos V → Option (Relation V)
  rounds zero fifos = none
  rounds (suc fuel) fifos = do
    (out, fifos, finished) ← round fifos
    rest ← (if finished then some [] else rounds fuel fifos)
    some (out ++ rest)

module _ {ℓ} {V : Type ℓ} where
  unfoldable pub modulo : ℕ → Variant V
  modulo fifosize = record {
    readmerge = readmerge_scalar_modulo fifosize;
    merge_node = merge_scalar_modulo fifosize;
    mergestore = mergestore_scalar_modulo fifosize;
  }

  -- The source merges inner nodes with the remainder in this variant, too.
  unfoldable pub bitand : ℕ → Variant V
  bitand fifosize = record {
    readmerge = readmerge_scalar_bitand fifosize;
    merge_node = merge_scalar_modulo fifosize;
    mergestore = mergestore_scalar_bitand fifosize;
  }

  unfoldable pub decomposed : ℕ → Variant V
  decomposed fifosize = record {
    readmerge = readmerge_scalar_decomposed fifosize;
    merge_node = merge_scalar_decomposed fifosize;
    mergestore = mergestore_scalar_decomposed fifosize;
  }
