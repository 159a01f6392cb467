-- ===== src/Merging/Multiway/Inners.antt =====
-- The loop over the inner nodes keeps the streams of the two roots.
use hashing_old_archive.Prelude.{
  ℕ, zero, suc, ◌+◌, ◌*◌, ◌/◌, ◌<◌, ◌≤◌, ◌≡◌, ◌≢◌, refl, Bool, true, false, [], Option, some, ◌==◌,
  ◌&&◌, ◌||◌, ltb, leb, if◌then◌else◌, arith, inl, inr, ◌∙◌, eq_cases, Bool-cases, ◌⊎◌, length,
  lt_cases,
}
use hashing_old_archive.Merging.{Relation}
use hashing_old_archive.Merging.Kernels.Streams.{Merged, merged_none}
use hashing_old_archive.Merging.Multiway.{Variant, Fifos, merge_inner, inner, inners}
use hashing_old_archive.Merging.Multiway.State.{
  done-undone, IsVariant, IsTree, stream, set_at_same, set_at_other,
}
use hashing_old_archive.Merging.Multiway.Work.{Shape, Lowers, Lowers-then, shape}
use hashing_old_archive.Merging.Multiway.Lower.Inner.{after_merge-work, after_merge-shape}
use hashing_old_archive.Merging.Kernels.Idle.{IsIdle}
use hashing_old_archive.Merging.Ring.{MergeNode}
use hashing_old_archive.Merging.Multiway.Quiet.{Lacks}
use hashing_old_archive.Merging.Multiway.Inner.{
  after_merge, later_merge, stream-after_merge, after_merge-IsTree,
}

module _ {ℓ} {V : Type ℓ} (f nfifos : ℕ) (variant : Variant V) (law : IsVariant f variant) where
  -- A state after some of the nodes: the streams of the roots are the same.
  pub record Kept (fifos : Fifos V) (later : ℕ → Relation V) : Type ℓ where
    pub fifos' : Fifos V
    pub later' : ℕ → Relation V
    pub tree : IsTree f nfifos fifos' later'
    pub roots : (i : ℕ) → i < 2 → stream f fifos' later' i ≡ stream f fifos later i

  -- Why nothing is done at an inner node.
  abbrev pub Waits : ℕ → Shape → Type 0
  Waits m t =
      (t.done m ≡ true) ⊎ ((f / 2 ≤ t.counts m) ⊎ (Lacks f (2 * m + 2) t ⊎ Lacks f (2 * m + 3) t))

  abbrev pub InnerFound : ℕ → Bool → Shape → Type 0
  InnerFound m e t = Waits m t × (t.done m ≡ true → e ≡ true)

  abbrev pub InnersFound : ℕ → Bool → Bool → Shape → Type 0
  InnersFound left finished e t =
      ((m : ℕ) → m < left → Waits m t)
      × (finished ≡ true → ((m : ℕ) → m < left → t.done m ≡ true) → e ≡ true)

  -- Why nothing is taken from two children.
  abbrev Wants : Bool → Bool → MergeNode V → MergeNode V → Type 0
  Wants rightdone leftdone right left =
      (((rightdone ≡ false) × (right.count < f / 2)) ⊎ ((leftdone ≡ false) × (left.count < f / 2)))
      ⊎ (((rightdone && leftdone) ≡ true) × ((right.count ≡ 0) × (left.count ≡ 0)))

  IsIdle-Wants :
      (rightdone leftdone : Bool) (right left : MergeNode V)
      → 1 < f
      → IsIdle rightdone leftdone right left
      → Wants rightdone leftdone right left
  IsIdle-Wants rightdone leftdone right left two idle =
      let low : 0 < f / 2 = omega arith in ground arith

  not_ready-Wants :
      (rightdone leftdone : Bool) (right left : MergeNode V)
      → (rightdone || leftdone || (leb (f / 2) right.count && leb (f / 2) left.count)) ≡ false
      → Wants rightdone leftdone right left
  not_ready-Wants rightdone leftdone right left e = ground arith

  module _ (m : ℕ) (is_inner : 2 * m + 3 < nfifos) (fifos : Fifos V) (later : ℕ → Relation V)
      (tree : IsTree f nfifos fifos later) (two : 1 < f) where
    -- The children's state when the flag is set.
    abbrev all_used :
        Merged f
          (later (2 * m + 2))
          (later (2 * m + 3))
          (fifos.nodes m)
          (fifos.nodes (2 * m + 2))
          (fifos.nodes (2 * m + 3))
        → Bool
    all_used a =
        fifos.done (2 * m + 2)
        && fifos.done (2 * m + 3)
        && (a.children.right'.count == 0 && a.children.left'.count == 0)

    all_used_lem :
        (a : Merged f
          (later (2 * m + 2))
          (later (2 * m + 3))
          (fifos.nodes m)
          (fifos.nodes (2 * m + 2))
          (fifos.nodes (2 * m + 3)))
        → all_used a ≡ true
        → ((later (2 * m + 2) ≡ []) × (later (2 * m + 3) ≡ []))
          × ((a.children.right'.count ≡ 0) × (a.children.left'.count ≡ 0))
    all_used_lem a e = (
      (
        tree.ended (2 * m + 2) (omega arith) (ground arith),
        tree.ended (2 * m + 3) is_inner (ground arith),
      ),
      (ground arith, ground arith),
    )

    -- Whether the children are ready.
    abbrev ready : Bool
    ready =
        fifos.done (2 * m + 2)
        || fifos.done (2 * m + 3)
        || (leb (f / 2) (fifos.nodes (2 * m + 2)).count
            && leb (f / 2) (fifos.nodes (2 * m + 3)).count)

    -- What the node and its children become, whether or not they are ready.
    abbrev Step : Bool → Type ℓ
    Step is_ready =
        (a : Merged f (later (2 * m + 2)) (later (2 * m + 3)) (fifos.nodes m)
          (fifos.nodes (2 * m + 2)) (fifos.nodes (2 * m + 3)))
        × ((if is_ready
              then variant.merge_node (fifos.nodes m) (fifos.nodes (2 * m + 2))
                  (fifos.nodes (2 * m + 3)) (fifos.done (2 * m + 2)) (fifos.done (2 * m + 3))
              else some (fifos.nodes m, fifos.nodes (2 * m + 2), fifos.nodes (2 * m + 3)))
            ≡ some (a.node', a.children.right', a.children.left'))
        × ((0 < length a.children.taken)
            ⊎ Wants (fifos.done (2 * m + 2)) (fifos.done (2 * m + 3)) (fifos.nodes (2 * m + 2))
                (fifos.nodes (2 * m + 3)))

    step : (is_ready : Bool) → ready ≡ is_ready → (fifos.nodes m).count < f → Step is_ready
    step true e room =
        let (a, runs, alive) =
          law.merges (later (2 * m + 2)) (later (2 * m + 3)) (fifos.nodes m)
            (fifos.nodes (2 * m + 2)) (fifos.nodes (2 * m + 3)) (fifos.done (2 * m + 2))
            (fifos.done (2 * m + 3)) (tree.ring m (omega arith))
            (tree.ring (2 * m + 2) (omega arith)) (tree.ring (2 * m + 3) is_inner) room
            (tree.ended (2 * m + 2) (omega arith)) (tree.ended (2 * m + 3) is_inner) in
        (
          a,
          runs,
          elim alive [
            | inl taken ↦ inl taken
            | inr idle ↦ inr (
                IsIdle-Wants (fifos.done (2 * m + 2)) (fifos.done (2 * m + 3))
                  (fifos.nodes (2 * m + 2)) (fifos.nodes (2 * m + 3)) two idle)
          ],
        )
    step false e room = (
      merged_none f (later (2 * m + 2)) (later (2 * m + 3)) (fifos.nodes m)
          (fifos.nodes (2 * m + 2)) (fifos.nodes (2 * m + 3)) (tree.ring m (omega arith))
          (tree.ring (2 * m + 2) (omega arith)) (tree.ring (2 * m + 3) is_inner),
      refl,
      inr (
          not_ready-Wants (fifos.done (2 * m + 2)) (fifos.done (2 * m + 3))
            (fifos.nodes (2 * m + 2)) (fifos.nodes (2 * m + 3)) e),
    )

    -- The merge lowers the work, or a child is waited for.
    merge-Lowers :
        (a : Merged f
          (later (2 * m + 2))
          (later (2 * m + 3))
          (fifos.nodes m)
          (fifos.nodes (2 * m + 2))
          (fifos.nodes (2 * m + 3)))
        → fifos.done m ≡ false
        → (0 < length a.children.taken)
          ⊎ Wants
              (fifos.done (2 * m + 2))
              (fifos.done (2 * m + 3))
              (fifos.nodes (2 * m + 2))
              (fifos.nodes (2 * m + 3))
        → Lowers nfifos
            (InnerFound m (all_used a))
            (shape fifos)
            (shape (after_merge f nfifos m is_inner fifos later tree a (all_used a)))
    merge-Lowers a undone (inl taken) =
        inl
          (after_merge-work f nfifos m is_inner fifos later tree a (all_used a) undone (inl taken))
    merge-Lowers a undone (inr (inr (both_done, (none_r, none_l)))) =
        let right : a.children.right'.count ≡ 0 = omega (arith, a.children.right_less) in
        let left : a.children.left'.count ≡ 0 = omega (arith, a.children.left_less) in
        inl (
          after_merge-work f nfifos m is_inner fifos later tree a (all_used a) undone
            (inr (ground arith)))
    merge-Lowers a undone (inr (inl waiting)) = elim (lt_cases 0 (length a.children.taken)) [
      | inl taken ↦
          inl (
            after_merge-work f nfifos m is_inner fifos later tree a (all_used a) undone (inl taken))
      | inr nothing ↦
          let unfinished : all_used a ≡ false = ground (arith, waiting) in
          inr (
            after_merge-shape f nfifos m is_inner fifos later tree a (all_used a) undone
                (omega arith) unfinished,
            (inr (inr waiting), (λ d. absurd (done-undone (fifos.done m) d undone))),
          )
    ]

    -- A node's flag is what `finished` is combined with, and the other flags stay.
    abbrev pub Visits : Option (Fifos V × Bool) → Type ℓ
    Visits result =
        (s : Kept fifos later) × (e : Bool) × (result ≡ some (s.fifos', e))
        × (e ≡ true → s.fifos'.done m ≡ true)
        × ((i : ℕ) → i ≢ m → s.fifos'.done i ≡ fifos.done i)
        × Lowers nfifos (InnerFound m e) (shape fifos) (shape s.fifos')

    merge_inner-Visits :
        fifos.done m ≡ false
        → (fifos.nodes m).count < f
        → Visits (
            merge_inner variant nfifos f m
              (fifos.nodes m)
              (fifos.nodes (2 * m + 2))
              (fifos.nodes (2 * m + 3))
              fifos)
    unfolding merge_inner
    merge_inner-Visits undone room =
        let (a, runs, alive) = step ready refl room in
        (
          record {
            fifos' = after_merge f nfifos m is_inner fifos later tree a (all_used a);
            later' = later_merge f nfifos m is_inner fifos later tree a (all_used a);
            tree =
                after_merge-IsTree f nfifos m is_inner fifos later tree a (all_used a) undone
                  (λ e. (ground arith, ground arith)) (all_used_lem a);
            roots = λ i lt.
                stream-after_merge f nfifos m is_inner fifos later tree a (all_used a) i
                  (λ q. omega (arith, q, lt)) (λ q. omega (arith, q, lt));
          },
          all_used a,
          rw runs refl,
          (λ e. set_at_same m m (all_used a) fifos.done refl ∙ e),
          (λ i n. set_at_other m i (all_used a) fifos.done n),
          merge-Lowers a undone alive,
        )

    full :
        (state : Fifos V) (k : ℕ)
        → ((state.done (2 * k + 2) || state.done (2 * k + 3) || ltb (state.nodes k).count (f / 2))
            && ltb (state.nodes k).count f)
          ≡ false
        → f / 2 ≤ (state.nodes k).count
    full state k e = ground arith

    inner-Visits : Visits (inner variant nfifos f m fifos)
    unfolding inner
    inner-Visits =
        let at_m : ltb m nfifos ≡ true = ground arith in
        let at_r : ltb (2 * m + 2) nfifos ≡ true = ground arith in
        let at_l : ltb (2 * m + 3) nfifos ≡ true = ground arith in
        let same : Kept fifos later = record {
          fifos' = fifos;
          later' = later;
          tree = tree;
          roots = λ i lt. refl;
        } in
        elim (Bool-cases (fifos.done m)) [
          | inl e ↦ (
            same,
            true,
            rw (at_m, at_r, at_l, e) refl,
            (λ q. e),
            (λ i n. refl),
            inr (refl, (inl e, (λ q. refl))),
          )
          | inr e ↦
              let guard =
                (fifos.done (2 * m + 2)
                  || fifos.done (2 * m + 3)
                  || ltb (fifos.nodes m).count (f / 2))
                && ltb (fifos.nodes m).count f in
              elim (Bool-cases guard) [
                | inl g ↦
                    let (s, d, runs, flag, others, low) = merge_inner-Visits e (ground arith) in
                    (s, d, rw (at_m, at_r, at_l, e, g) runs, flag, others, low)
                | inr g ↦ (
                  same,
                  false,
                  rw (at_m, at_r, at_l, e, g) refl,
                  (λ q. absurd (ground arith)),
                  (λ i n. refl),
                  inr (
                    refl,
                    (inr (inl (full fifos m g)), (λ q. absurd (done-undone (fifos.done m) q e))),
                  ),
                )
              ]
        ]

  -- When nothing clears `finished`, every inner node is done.
  pub inners-Kept :
      (left : ℕ) (fifos : Fifos V) (later : ℕ → Relation V) (finished : Bool)
      → 2 * left + 1 < nfifos
      → 1 < f
      → IsTree f nfifos fifos later
      → (s : Kept fifos later) × (e : Bool) × (inners variant nfifos f left fifos finished
          ≡ some (s.fifos', e))
        × (e ≡ true → (finished ≡ true) × ((i : ℕ) → i < left → s.fifos'.done i ≡ true))
        × ((i : ℕ) → left ≤ i → s.fifos'.done i ≡ fifos.done i)
        × Lowers nfifos (InnersFound left finished e) (shape fifos) (shape s.fifos')
  unfolding inners
  inners-Kept zero fifos later finished low two tree = (
    record { fifos' = fifos; later' = later; tree = tree; roots = λ i lt. refl },
    finished,
    refl,
    (λ q. (q, (λ i lt. absurd (omega arith)))),
    (λ i le. refl),
    inr (refl, ((λ m lt. absurd (omega arith)), (λ q all. q))),
  )
  inners-Kept (suc m) fifos later finished low two tree =
      let (s, d, runs, flag, others, lower) = inner-Visits m (omega arith) fifos later tree two in
      let (s', e, runs', flags, others', lower') =
        inners-Kept m s.fifos' s.later' (finished && d) (omega arith) two s.tree in
      (
        record {
          fifos' = s'.fifos';
          later' = s'.later';
          tree = s'.tree;
          roots = λ i lt. s'.roots i lt ∙ s.roots i lt;
        },
        e,
        rw (inners, runs) runs',
        (λ q.
            let (both_set, below) = flags q in
            (
              ground arith,
              (λ i lt. elim (eq_cases i m) [
                | inl here ↦ rw here (others' m (omega arith) ∙ flag (ground arith))
                | inr n ↦ below i (omega arith)
              ]),
            )),
        (λ i le. others' i (omega arith) ∙ others i (λ q. omega arith)),
        Lowers-then nfifos (InnerFound m d) (InnersFound m (finished && d) e)
            (InnersFound (suc m) finished e) (shape fifos) (shape s.fifos') (shape s'.fifos')
            (λ t (here, flag') (below, flags'). (
              (λ i lt. elim (eq_cases i m) [
                | inl same ↦ rw same here
                | inr other ↦ below i (omega arith)
              ]),
              (λ q all.
                  flags' (rw (q, flag' (all m (omega arith))) refl) (λ i lt. all i (omega arith))),
            ))
            lower lower',
      )
