-- ===== src/Merging/Multiway/Root.antt =====
-- One round of the outer loop on the merge of the two roots' streams.
use hashing_old_archive.Prelude.{
  ℕ, suc, ◌+◌, ◌-◌, ◌*◌, ◌/◌, ◌<◌, ◌≤◌, ◌≡◌, refl, Bool, true, false, [], ◌++◌, some, ◌&&◌, ltb,
  arith, inl, inr, sym, ◌∙◌, ap, ◌⊎◌, Bool-cases,
}
use mathlib.Core.Path.{subst}
use hashing_old_archive.Merging.{Relation}
use hashing_old_archive.Merging.Reference.{merge}
use hashing_old_archive.Merging.Kernels.Streams.{Taken}
use hashing_old_archive.Merging.Multiway.{Variant, Fifos, store_roots, round}
use hashing_old_archive.Merging.Multiway.State.{done-undone, IsVariant, IsTree, stream}
use hashing_old_archive.Merging.Multiway.Leaves.{LeavesFound, leaves-Same}
use hashing_old_archive.Merging.Multiway.Inners.{InnersFound, inners-Kept}
use hashing_old_archive.Merging.Multiway.Work.{Shape, shape, work, Lowers, Lowers-then}
use hashing_old_archive.Merging.Multiway.Lower.Roots.{RootsFound, after_store-Lowers}
use hashing_old_archive.Merging.Multiway.Quiet.{Settled, all-Settled, all_done}
use hashing_old_archive.Merging.Multiway.Store.{
  remaining, after_store, after_store-IsTree, after_store-remaining, after_store-nil,
}

roots-done :
    {f : ℕ} (c0 c1 : ℕ) (d0 d1 : Bool)
    → 1 < f
    → (d0 ≡ true) ⊎ (f / 2 ≤ c0)
    → (d1 ≡ true) ⊎ (f / 2 ≤ c1)
    → ((c0 ≡ 0) × (c1 ≡ 0)) ⊎ (((c0 ≡ 0) × (d0 ≡ false)) ⊎ ((c1 ≡ 0) × (d1 ≡ false)))
    → (d0 ≡ true) × (d1 ≡ true)
roots-done {f} c0 c1 d0 d1 two s0 s1 roots =
    let low : 0 < f / 2 = omega arith in (ground arith, ground arith)

module _ {ℓ} {V : Type ℓ} (f nfifos : ℕ) where
  -- A round writes what the merge of the two roots' streams loses.
  pub record Rounded (fifos : Fifos V) (later : ℕ → Relation V) : Type ℓ where
    pub fifos' : Fifos V
    pub later' : ℕ → Relation V
    pub out : Relation V
    pub tree : IsTree f nfifos fifos' later'
    pub written : remaining f nfifos fifos later ≡ out ++ remaining f nfifos fifos' later'

  module _ (variant : Variant V) (law : IsVariant f variant) where
    all_written :
        (fifos : Fifos V) {later_r later_l : Relation V}
        (a : Taken f later_r later_l (fifos.nodes 0) (fifos.nodes 1))
        → fifos.done 0 ≡ true
        → fifos.done 1 ≡ true
        → ((fifos.done 0 && fifos.done 1) ≡ false) ⊎ ((a.right'.count ≡ 0) × (a.left'.count ≡ 0))
        → (a.right'.count ≡ 0) × (a.left'.count ≡ 0)
    all_written fifos a d d' (inl unfinished) = absurd (ground arith)
    all_written fifos a d d' (inr empty) = empty

    store_roots-Rounded :
        (fifos : Fifos V) (later : ℕ → Relation V)
        → 1 < nfifos
        → IsTree f nfifos fifos later
        → (s : Rounded fifos later) × (store_roots variant nfifos f fifos ≡ some (s.out, s.fifos'))
          × (fifos.done 0 ≡ true → fifos.done 1 ≡ true → remaining f nfifos s.fifos' s.later' ≡ [])
          × Lowers nfifos RootsFound (shape fifos) (shape s.fifos')
    unfolding store_roots
    store_roots-Rounded fifos later two tree =
        let (a, runs, all, alive) =
          law.stores (later 0) (later 1) (fifos.nodes 0) (fifos.nodes 1) (fifos.done 0)
            (fifos.done 1) (tree.ring 0 (omega arith)) (tree.ring 1 two)
            (tree.ended 0 (omega arith)) (tree.ended 1 two) in
        let at_0 : ltb 0 nfifos ≡ true = ground arith in
        let at_1 : ltb 1 nfifos ≡ true = ground arith in
        (
          record {
            fifos' = after_store f nfifos two fifos later tree a;
            later' = later;
            out = a.taken;
            tree = after_store-IsTree f nfifos two fifos later tree a;
            written =
                a.stream
                ∙ ap (λ l. a.taken ++ l)
                    (sym (after_store-remaining f nfifos two fifos later tree a));
          },
          rw (at_0, at_1, runs) refl,
          (λ d d'.
              after_store-nil f nfifos two fifos later tree a d d' (all_written fifos a d d' all)),
          after_store-Lowers f nfifos two fifos later tree a alive,
        )

    -- What a round finds that changes nothing.
    abbrev RoundFound : ℕ → Bool → Bool → Shape → Type 0
    RoundFound left e e' t =
        (LeavesFound f nfifos variant law (nfifos - left) nfifos true e t
          × InnersFound f nfifos variant law left e e' t)
        × RootsFound t

    quiet-finished :
        (h left : ℕ) (fifos : Fifos V) (later : ℕ → Relation V) (e e' : Bool)
        → nfifos ≡ 2 * h
        → 1 < f
        → 2 * left + 2 ≡ nfifos
        → IsTree f nfifos fifos later
        → RoundFound left e e' (shape fifos)
        → e' ≡ true
    quiet-finished h left fifos later e e' even two half tree
          (((leaves, flag), (inners, flag')), roots) =
        let settled : (m : ℕ) → m < nfifos → Settled f m (shape fifos) = λ m lt.
          all-Settled f nfifos left nfifos m (shape fifos) (omega arith) lt (omega arith)
            (λ k le lt'. leaves k (omega arith) lt') inners in
        let (d0, d1) =
          roots-done (fifos.nodes 0).count (fifos.nodes 1).count (fifos.done 0) (fifos.done 1) two
            (settled 0 (omega arith)) (settled 1 (omega arith)) roots in
        flag' (flag refl) (λ m lt.
          all_done nfifos nfifos h (suc nfifos) m fifos.done even (omega arith) (omega arith)
            tree.closed d0 d1)

    -- For kernels that keep their promises, in a tree of an even number of nodes, at least six, one round of
    -- the outer loop ends without an access out of range, keeps the invariant, and writes the front of
    -- the merge of the streams of the two roots. The rings have at least two slots. If it sets `finished`,
    -- nothing of that merge is left, and otherwise it lowers the work.
    pub round-Rounded :
        (h : ℕ) (fifos : Fifos V) (later : ℕ → Relation V)
        → nfifos ≡ 2 * h
        → 3 ≤ h
        → 1 < f
        → IsTree f nfifos fifos later
        → (s : Rounded fifos later) × (e : Bool) × (round variant nfifos f fifos
            ≡ some (s.out, s.fifos', e))
          × (((e ≡ false) × (work nfifos (shape s.fifos') < work nfifos (shape fifos)))
              ⊎ ((e ≡ true) × (remaining f nfifos s.fifos' s.later' ≡ [])))
    unfolding round
    round-Rounded h fifos later even deep slots tree =
        let (s, e, runs, lower) =
          leaves-Same f nfifos variant law ((nfifos + 3) / 2) 0 nfifos fifos later true
            (omega arith) (omega arith) (omega arith) (omega arith) tree in
        let left = nfifos - (nfifos + 3) / 2 in
        let (t, e', runs', flags, _, lower') =
          inners-Kept f nfifos variant law left s.fifos' s.later' e (omega arith) slots s.tree in
        let (u, runs'', all, lower'') =
          store_roots-Rounded t.fifos' t.later' (omega arith) t.tree in
        let rounds_left : (nfifos + 3) / 2 ≡ nfifos - left = omega arith in
        let found =
          Lowers-then nfifos
            (λ x.
              LeavesFound f nfifos variant law (nfifos - left) nfifos true e x
              × InnersFound f nfifos variant law left e e' x)
            RootsFound (RoundFound left e e') (shape fifos) (shape t.fifos') (shape u.fifos')
            (λ x a b. (a, b))
            (Lowers-then nfifos (LeavesFound f nfifos variant law (nfifos - left) nfifos true e)
              (InnersFound f nfifos variant law left e e')
              (λ x.
                LeavesFound f nfifos variant law (nfifos - left) nfifos true e x
                × InnersFound f nfifos variant law left e e' x)
              (shape fifos) (shape s.fifos') (shape t.fifos') (λ x a b. (a, b))
              (subst
                (λ k.
                  Lowers nfifos (LeavesFound f nfifos variant law k nfifos true e) (shape fifos)
                    (shape s.fifos'))
                rounds_left lower)
              lower')
            lower'' in
        let kept : remaining f nfifos t.fifos' t.later' ≡ remaining f nfifos fifos later =
          ap (λ l. merge l (stream f t.fifos' t.later' 1)) (t.roots 0 (omega arith) ∙ s.streams 0)
          ∙ ap (merge (stream f fifos later 0)) (t.roots 1 (omega arith) ∙ s.streams 1) in
        (
          record {
            fifos' = u.fifos';
            later' = u.later';
            out = u.out;
            tree = u.tree;
            written = sym kept ∙ u.written;
          },
          e',
          rw (runs, runs', runs'') refl,
          elim (Bool-cases e') [
            | inl finished ↦ inr (
              finished,
              all ((flags finished).1 0 (omega arith)) ((flags finished).1 1 (omega arith)),
            )
            | inr unfinished ↦ inl (
              unfinished,
              elim found [
                | inl less ↦ less
                | inr (_, quiet) ↦ absurd (
                    done-undone e'
                      (quiet-finished h left fifos later e e' even slots (omega arith) tree quiet)
                      unfinished)
              ],
            )
          ],
        )
