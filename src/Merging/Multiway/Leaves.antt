-- ===== src/Merging/Multiway/Leaves.antt =====
-- The loop over the leaves keeps the streams.
use mathlib.Core.List.{append-nil}
use hashing_old_archive.Prelude.{
  ℕ, zero, suc, ◌+◌, ◌-◌, ◌*◌, ◌/◌, ◌<◌, ◌≤◌, ◌≡◌, refl, Bool, true, false, [], some, ◌==◌, ◌&&◌,
  ◌||◌, not, ltb, arith, inl, inr, ◌∙◌, ap, length, ◌⊎◌, Bool-cases, eq_cases,
}
use hashing_old_archive.Merging.{Relation}
use hashing_old_archive.Merging.Ring.{MergeNode}
use hashing_old_archive.Merging.Kernels.Read.{Fed}
use hashing_old_archive.Merging.Kernels.First.{nil_of_length}
use hashing_old_archive.Merging.Multiway.{
  Variant, Fifos, told_small, untold_small, read_leaf, leaf, leaves,
}
use hashing_old_archive.Merging.Multiway.State.{IsVariant, IsTree, stream}
use hashing_old_archive.Merging.Multiway.Work.{Shape, Lowers, Lowers-then, shape, work}
use hashing_old_archive.Merging.Multiway.Lower.{after_read-work}
use hashing_old_archive.Merging.Multiway.Quiet.{Settled}
use hashing_old_archive.Merging.Multiway.Leaf.{
  after_read, later_read, stream-after_read, after_read-IsTree,
}

module _ {ℓ} {V : Type ℓ} (f nfifos : ℕ) (variant : Variant V) (law : IsVariant f variant) where
  -- A state with the same streams.
  pub record Same (fifos : Fifos V) (later : ℕ → Relation V) : Type ℓ where
    pub fifos' : Fifos V
    pub later' : ℕ → Relation V
    pub tree : IsTree f nfifos fifos' later'
    pub streams : (i : ℕ) → stream f fifos' later' i ≡ stream f fifos later i

  abbrev pub LeafFound : ℕ → Bool → Shape → Type 0
  LeafFound m e t = Settled f m t × (e ≡ true)

  abbrev pub LeavesFound : ℕ → ℕ → Bool → Bool → Shape → Type 0
  LeavesFound rounds left finished e t =
      ((m : ℕ) → left ≤ m + rounds → m < left → Settled f m t) × (finished ≡ true → e ≡ true)

  -- Where `nread == 0 || (both inputs are empty)`, both inputs are empty.
  read-ended :
      (node : MergeNode V) (xs ys : Relation V) (a : Fed f node xs ys)
      → node.count < f / 2
      → (a.node'.count ≡ f) ⊎ ((a.xs' ≡ []) × (a.ys' ≡ []))
      → (length a.taken == 0 || (length a.xs' == 0 && length a.ys' == 0)) ≡ true
      → (a.xs' ≡ []) × (a.ys' ≡ [])
  read-ended node xs ys a low (inr empty) ended = empty
  read-ended node xs ys a low (inl full) ended =
      let some_read : (length a.taken == 0) ≡ false = ground (arith, a.count) in
      (nil_of_length a.xs' (ground arith), nil_of_length a.ys' (ground arith))

  reads-or-ends : (n : ℕ) (b : Bool) → (0 < n) ⊎ ((n == 0 || b) ≡ true)
  reads-or-ends n b = ground arith

  read_leaf-Same :
      (c m : ℕ) (fifos : Fifos V) (later : ℕ → Relation V)
      → m < nfifos
      → nfifos ≤ 2 * m + 2
      → c ≡ 2 * (nfifos - 1 - m)
      → IsTree f nfifos fifos later
      → fifos.done m ≡ false
      → (fifos.nodes m).count < f / 2
      → (s : Same fifos later) × (e : Bool) × (read_leaf variant nfifos f c m (fifos.nodes m) fifos
          ≡ some (s.fifos', e))
        × (work nfifos (shape s.fifos') < work nfifos (shape fifos))
  unfolding read_leaf
  read_leaf-Same c m fifos later inside low at tree undone few =
      let (a, runs, end) =
        law.reads (fifos.nodes m) (fifos.parts c) (fifos.parts (c + 1)) (tree.ring m inside)
          (omega arith) in
      let in_parts : ltb c (nfifos + 2) ≡ true = ground arith in
      let in_parts' : ltb (c + 1) (nfifos + 2) ≡ true = ground arith in
      let small = tree.small c in
      let small' = tree.small (c + 1) in
      let ended = length a.taken == 0 || (length a.xs' == 0 && length a.ys' == 0) in
      (
        record {
          fifos' = after_read f nfifos c m ended a fifos;
          later' = later_read f nfifos c m inside low at fifos later tree a ended;
          tree =
              after_read-IsTree f nfifos c m inside low at fifos later tree a ended undone
                (read-ended (fifos.nodes m) (fifos.parts c) (fifos.parts (c + 1)) a few end);
          streams = stream-after_read f nfifos c m inside low at fifos later tree a ended;
        },
        ended,
        rw
            (
              in_parts,
              in_parts',
              told_small (fifos.parts c) small,
              told_small (fifos.parts (c + 1)) small',
              untold_small (fifos.parts c) small,
              untold_small (fifos.parts (c + 1)) small',
              runs,
              append-nil a.xs',
              append-nil a.ys',
            )
            refl,
        after_read-work f nfifos c m fifos a ended inside (omega arith) undone
            (reads-or-ends (length a.taken) (length a.xs' == 0 && length a.ys' == 0)),
      )

  busy :
      (fifos : Fifos V) (m : ℕ)
      → (not (fifos.done m) && ltb (fifos.nodes m).count (f / 2)) ≡ false
      → Settled f m (shape fifos)
  busy fifos m e = ground arith

  leaf-Same :
      (c m : ℕ) (fifos : Fifos V) (later : ℕ → Relation V)
      → m < nfifos
      → nfifos ≤ 2 * m + 2
      → c ≡ 2 * (nfifos - 1 - m)
      → IsTree f nfifos fifos later
      → (s : Same fifos later) × (e : Bool) × (leaf variant nfifos f c m fifos ≡ some (s.fifos', e))
        × Lowers nfifos (LeafFound m e) (shape fifos) (shape s.fifos')
  unfolding leaf
  leaf-Same c m fifos later inside low at tree =
      let in_nodes : ltb m nfifos ≡ true = ground arith in
      elim (Bool-cases (not (fifos.done m) && ltb (fifos.nodes m).count (f / 2))) [
        | inl e ↦
            let (s, ended, runs, less) =
              read_leaf-Same c m fifos later inside low at tree (ground arith) (ground arith) in
            (s, ended, rw (in_nodes, e) runs, inl less)
        | inr e ↦ (
          record { fifos' = fifos; later' = later; tree = tree; streams = λ i. refl },
          true,
          rw (in_nodes, e) refl,
          inr (refl, (busy fifos m e, refl)),
        )
      ]

  -- The loop ends at the inner nodes.
  pub leaves-Same :
      (rounds c left : ℕ) (fifos : Fifos V) (later : ℕ → Relation V) (finished : Bool)
      → 0 < nfifos
      → left ≤ nfifos
      → nfifos + 2 * rounds ≤ 2 * left + 2
      → c ≡ 2 * (nfifos - left)
      → IsTree f nfifos fifos later
      → (s : Same fifos later) × (e : Bool) × (leaves variant nfifos f rounds c left fifos finished
          ≡ some (left - rounds, s.fifos', e))
        × Lowers nfifos (LeavesFound rounds left finished e) (shape fifos) (shape s.fifos')
  unfolding leaves
  leaves-Same zero c left fifos later finished some_nodes inside low at tree = (
    record { fifos' = fifos; later' = later; tree = tree; streams = λ i. refl },
    finished,
    (let e : left ≡ left - 0 = omega arith in ap (λ k. some (k, fifos, finished)) e),
    inr (refl, ((λ m le lt. absurd (omega arith)), (λ q. q))),
  )
  leaves-Same (suc rounds) c zero fifos later finished some_nodes inside low at tree =
      absurd (omega arith)
  leaves-Same (suc rounds) c (suc m) fifos later finished some_nodes inside low at tree =
      let (s, e, runs, low') =
        leaf-Same c m fifos later (omega arith) (omega arith) (omega arith) tree in
      let (s', e', runs', low'') =
        leaves-Same rounds (c + 2) m s.fifos' s.later' (finished && e) some_nodes (omega arith)
          (omega arith) (omega arith) s.tree in
      (
        record {
          fifos' = s'.fifos';
          later' = s'.later';
          tree = s'.tree;
          streams = λ i. s'.streams i ∙ s.streams i;
        },
        e',
        rw (leaves, runs) runs'
            ∙ (let q : m - rounds ≡ suc m - suc rounds = omega arith in
                ap (λ k. some (k, s'.fifos', e')) q),
        Lowers-then nfifos (LeafFound m e) (LeavesFound rounds m (finished && e) e')
            (LeavesFound (suc rounds) (suc m) finished e') (shape fifos) (shape s.fifos')
            (shape s'.fifos')
            (λ t (here, ended) (below, flags). (
              (λ i le lt. elim (eq_cases i m) [
                | inl same ↦ rw same here
                | inr other ↦ below i (omega arith) (omega arith)
              ]),
              (λ q. flags (rw (q, ended) refl)),
            ))
            low' low'',
      )
