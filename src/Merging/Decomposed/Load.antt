-- ===== src/Merging/Decomposed/Load.antt =====
-- The whole of `readmerge_scalar_decomposed` on the streams of its inputs.
use hashing_old_archive.Prelude.{
  ℕ, ◌^◌, ◌<◌, ◌≡◌, refl, [], ◌∷◌, ◌++◌, some, ltb, arith, Bool-cases, inl, inr, sym, ◌∙◌, ap,
  length, ◌⊎◌, if◌then◌else◌,
}
use hashing_old_archive.Merging.{Relation}
use hashing_old_archive.Merging.Reference.{merge, merge-nil}
use hashing_old_archive.Merging.Ring.{MergeNode}
use hashing_old_archive.Merging.Ring.Window.{wrapped}
use hashing_old_archive.Merging.Ring.Steps.{IsRing}
use hashing_old_archive.Merging.Kernels.Read.{Fed, fed_none, fed_then}
use hashing_old_archive.Merging.Kernels.Load.{taken_length}
use hashing_old_archive.Merging.Decomposed.{fill_remaining, readmerge_scalar_decomposed}
use hashing_old_archive.Merging.Decomposed.Fill.{wraps}
use hashing_old_archive.Merging.Decomposed.First.{Stopped, fill_first-Filled, fill_second-Fed}
use hashing_old_archive.Merging.Decomposed.Rest.{fill_rests-Rest}

module _ {ℓ} {V : Type ℓ} (f : ℕ) where
  swapped-stream :
      (ys taken xs' ys' : Relation V)
      → merge ys [] ≡ taken ++ merge xs' ys'
      → ys' ≡ []
      → merge [] ys ≡ taken ++ merge [] xs'
  unfolding merge
  swapped-stream ys taken xs' ys' stream none_xs =
      sym (merge-nil ys) ∙ stream ∙ ap (λ l. taken ++ l) (ap (merge xs') none_xs ∙ merge-nil xs')

  abbrev swapped :
      (node : MergeNode V) (ys : Relation V) (a : Fed f node ys []) → a.ys' ≡ [] → Fed f node [] ys
  swapped node ys a none_xs = record {
    node' = a.node';
    xs' = [];
    ys' = a.xs';
    taken = a.taken;
    ring = a.ring;
    gained = a.gained;
    stream = swapped-stream ys a.taken a.xs' a.ys' a.stream none_xs;
    count = a.count;
    less_xs = omega arith;
    less_ys = a.less_xs;
  }

  -- What is left when one input is empty.
  fill_remaining-Fed :
      (node : MergeNode V) (xs ys : Relation V)
      → f < 2 ^ 31
      → IsRing f node
      → node.count < f
      → (xs ≡ []) ⊎ (ys ≡ [])
      → (a : Fed f node xs ys) × (fill_remaining f node xs ys ≡ some (a.node', a.xs', a.ys'))
        × ((a.node'.count ≡ f) ⊎ ((a.xs' ≡ []) × (a.ys' ≡ [])))
  unfolding fill_remaining merge
  fill_remaining-Fed node [] [] fit r room one_empty =
      (fed_none f node [] [] r, refl, inr (refl, refl))
  fill_remaining-Fed node [] (y ∷ ys) fit r room one_empty =
      let ((a, none_xs, end), runs) = fill_rests-Rest f node (y ∷ ys) fit r room in
      (
        swapped node (y ∷ ys) a none_xs,
        rw runs refl,
        elim end [ inl full ↦ inl full | inr empty ↦ inr (refl, empty) ],
      )
  fill_remaining-Fed node (x ∷ xs) [] fit r room one_empty =
      let ((a, none_ys, end), runs) = fill_rests-Rest f node (x ∷ xs) fit r room in
      (
        a,
        rw runs (ap (λ l. some (a.node', a.xs', l)) (sym none_ys)),
        elim end [ inl full ↦ inl full | inr empty ↦ inr (empty, none_ys) ],
      )
  fill_remaining-Fed node (x ∷ xs) (y ∷ ys) fit r room one_empty = elim one_empty [
    | inl no_xs ↦ absurd (omega (arith, ap length no_xs))
    | inr no_ys ↦ absurd (omega (arith, ap length no_ys))
  ]

  -- The last step, unless the node is full.
  fill_last-Fed :
      (node : MergeNode V) (xs ys : Relation V)
      → f < 2 ^ 31
      → IsRing f node
      → Stopped f node xs ys
      → (a : Fed f node xs ys) × ((if ltb node.count f
            then fill_remaining f node xs ys
            else some (node, xs, ys))
          ≡ some (a.node', a.xs', a.ys'))
        × ((a.node'.count ≡ f) ⊎ ((a.xs' ≡ []) × (a.ys' ≡ [])))
  fill_last-Fed node xs ys fit r stopped = elim (Bool-cases (ltb node.count f)) [
    | inl room ↦
        let (a, runs, end) =
          fill_remaining-Fed node xs ys fit r (ground arith)
            (elim stopped [ inl full ↦ absurd (ground arith) | inr empty ↦ empty ]) in
        (a, rw room runs, end)
    | inr full ↦ (fed_none f node xs ys r, rw full refl, inl (ground (arith, r.bounded)))
  ]

  -- A ring of fewer than 2 ^ 31 slots that is not full takes from the front of the merge of both inputs
  -- until it is full or they are empty, without an access out of range, and the number of tuples that were read is what it took.
  pub readmerge_scalar_decomposed-Reads :
      (node : MergeNode V) (xs ys : Relation V)
      → f < 2 ^ 31
      → IsRing f node
      → node.count < f
      → (a : Fed f node xs ys) × (readmerge_scalar_decomposed f node xs ys
          ≡ some (a.node', a.xs', a.ys', length a.taken))
        × ((a.node'.count ≡ f) ⊎ ((a.xs' ≡ []) × (a.ys' ≡ [])))
  unfolding readmerge_scalar_decomposed
  readmerge_scalar_decomposed-Reads node xs ys fit r room =
      let (a, runs, end) = fill_first-Filled f node xs ys r room in
      let (b, runs', stopped) = fill_second-Fed f node xs ys r room a end in
      let (c, runs'', end') = fill_last-Fed b.node' b.xs' b.ys' fit b.ring stopped in
      let all = fed_then f a.fed (fed_then f b c) in
      (
        all,
        rw (runs, runs', runs'')
            (ap (λ n. some (c.node', c.xs', c.ys', n)) (taken_length f (wrapped f) (wraps f) all)),
        end',
      )
