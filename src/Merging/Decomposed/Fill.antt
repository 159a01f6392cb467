-- ===== src/Merging/Decomposed/Fill.antt =====
-- The loops of `readmerge_scalar_decomposed` inside one part of the ring.
use hashing_old_archive.Prelude.{
  ℕ, zero, suc, ◌+◌, ◌<◌, ◌≤◌, ◌≡◌, refl, [], ◌∷◌, ◌++◌, some, ltb, arith, Bool-cases, inl, inr,
  sym, ◌∙◌, ap, get_elem?, set, ◌⊎◌,
}
use hashing_old_archive.Merging.{Tuple, Relation}
use hashing_old_archive.Merging.Reference.{merge, merge-less, merge-not-less, merge-nil}
use hashing_old_archive.Merging.Ring.{MergeNode}
use hashing_old_archive.Merging.Ring.Window.{wrapped}
use hashing_old_archive.Merging.Ring.Steps.{IsRing, tuples, pushed, push-IsRing}
use hashing_old_archive.Merging.Kernels.Read.{Fed, fed_none, fed_then, fed_one}
use hashing_old_archive.Merging.Decomposed.{at_end, assign, fill_both, fill_one}

pub at_end_suc : (f i : ℕ) → i < f → wrapped f (at_end f i) ≡ at_end f (i + 1)
at_end_suc f i lt = ground arith

-- The law of an index that wraps round.
abbrev pub wraps : (f index : ℕ) → index < f → wrapped f index ≡ wrapped f index
wraps f index lt = refl

module _ {ℓ} {V : Type ℓ} (f : ℕ) where
  -- A part of free slots from the tail on, which is at an index that may be the end.
  pub record FreePart (node : MergeNode V) (oi slots : ℕ) : Type 0 where
    pub tail : node.tail ≡ at_end f oi
    pub inside : oi + slots ≤ f
    pub free : node.count + slots ≤ f

  pub assign-pushed :
      (node : MergeNode V) (oi slots : ℕ) (x : Tuple V)
      → IsRing f node
      → FreePart node oi (suc slots)
      → (assign node.buffer oi x ≡ some (pushed f (wrapped f) (wraps f) x node).buffer)
        × IsRing f (pushed f (wrapped f) (wraps f) x node)
        × (tuples f (pushed f (wrapped f) (wraps f) x node) ≡ tuples f node ++ (x ∷ []))
        × FreePart (pushed f (wrapped f) (wraps f) x node) (oi + 1) slots
  unfolding assign
  assign-pushed node oi slots x r p =
      let (_, r', gained, (old, got)) =
        push-IsRing f (wrapped f) (wraps f) x node r (omega (arith, p.free)) in
      let here : node.tail ≡ oi = p.tail ∙ ground (arith, p.inside) in
      let got' : get_elem? node.buffer oi ≡ some old = rw (sym here) got in
      (
        rw (assign, got') (ap (λ i. some (set node.buffer i x)) (sym here)),
        r',
        gained,
        record {
          tail = ap (wrapped f) p.tail ∙ at_end_suc f oi (omega (arith, p.inside));
          inside = omega (arith, p.inside);
          free = omega (arith, p.free);
        },
      )

  -- What a loop over a part leaves.
  pub record Filled (node : MergeNode V) (oi slots : ℕ) (xs ys : Relation V) : Type ℓ where
    pub fed : Fed f node xs ys
    pub oi' : ℕ
    pub slots' : ℕ
    pub part : FreePart fed.node' oi' slots'
    pub indices : oi' + slots' ≡ oi + slots
    pub counts : fed.node'.count + oi ≡ node.count + oi'
    pub head : fed.node'.head ≡ node.head

  abbrev pub filled_none :
      (node : MergeNode V) (oi slots : ℕ) (xs ys : Relation V)
      → IsRing f node
      → FreePart node oi slots
      → Filled node oi slots xs ys
  filled_none node oi slots xs ys r p = record {
    fed = fed_none f node xs ys r;
    oi' = oi;
    slots' = slots;
    part = p;
    indices = refl;
    counts = refl;
    head = refl;
  }

  abbrev pub filled_more :
      (node : MergeNode V) (oi slots : ℕ) (xs ys xs' ys' : Relation V) (x : Tuple V)
      → (one : Fed f node xs ys) → one.node' ≡ pushed f (wrapped f) (wraps f) x node
      → (a : Filled one.node' (oi + 1) slots one.xs' one.ys') → Filled node oi (suc slots) xs ys
  filled_more node oi slots xs ys xs' ys' x one e a = record {
    fed = fed_then f one a.fed;
    oi' = a.oi';
    slots' = a.slots';
    part = a.part;
    indices = omega (arith, a.indices);
    counts = omega (arith, a.counts, ap (λ n. n.count) e);
    head = a.head ∙ ap (λ n. n.head) e;
  }

  pub fill_both-Filled :
      (slots oi : ℕ) (node : MergeNode V) (xs ys : Relation V)
      → IsRing f node
      → FreePart node oi slots
      → (a : Filled node oi slots xs ys) × (fill_both slots oi node.buffer xs ys
          ≡ some (a.slots', a.oi', a.fed.node'.buffer, a.fed.xs', a.fed.ys'))
        × ((a.slots' ≡ 0) ⊎ ((a.fed.xs' ≡ []) ⊎ (a.fed.ys' ≡ [])))
  unfolding fill_both
  fill_both-Filled zero oi node xs ys r p = (filled_none node oi 0 xs ys r p, refl, inl refl)
  fill_both-Filled (suc slots) oi node [] ys r p =
      (filled_none node oi (suc slots) [] ys r p, refl, inr (inl refl))
  fill_both-Filled (suc slots) oi node (x ∷ xs) [] r p =
      (filled_none node oi (suc slots) (x ∷ xs) [] r p, refl, inr (inr refl))
  fill_both-Filled (suc slots) oi node (x ∷ xs) (y ∷ ys) r p = elim (Bool-cases (ltb x.key y.key)) [
    | inl less ↦
        let (e, r', gained, p') = assign-pushed node oi slots x r p in
        let one =
          fed_one f (wrapped f) (wraps f) node x (x ∷ xs) (y ∷ ys) xs (y ∷ ys) r' gained
            (merge-less x y xs ys less) (omega arith) (omega arith) in
        let (a, runs, end) = fill_both-Filled slots (oi + 1) one.node' xs (y ∷ ys) r' p' in
        (
          filled_more node oi slots (x ∷ xs) (y ∷ ys) xs (y ∷ ys) x one refl a,
          rw (fill_both, less, fill_both, e) runs,
          end,
        )
    | inr not_less ↦
        let (e, r', gained, p') = assign-pushed node oi slots y r p in
        let one =
          fed_one f (wrapped f) (wraps f) node y (x ∷ xs) (y ∷ ys) (x ∷ xs) ys r' gained
            (merge-not-less x y xs ys not_less) (omega arith) (omega arith) in
        let (a, runs, end) = fill_both-Filled slots (oi + 1) one.node' (x ∷ xs) ys r' p' in
        (
          filled_more node oi slots (x ∷ xs) (y ∷ ys) (x ∷ xs) ys y one refl a,
          rw (fill_both, not_less, fill_both, e) runs,
          end,
        )
  ]

  -- While one input is left, the local tail is the index itself.
  abbrev pub with_tail : ℕ → MergeNode V → MergeNode V
  with_tail oi node = record node { tail = oi }

  pub fill_one-Filled :
      (slots oi : ℕ) (node : MergeNode V) (xs : Relation V)
      → IsRing f node
      → FreePart node oi slots
      → (a : Filled node oi slots xs []) × (fill_one slots oi (with_tail oi node) xs
          ≡ some (a.slots', a.oi', with_tail a.oi' a.fed.node', a.fed.xs'))
        × ((a.slots' ≡ 0) ⊎ (a.fed.xs' ≡ []))
        × (a.fed.ys' ≡ [])
  unfolding fill_one merge
  fill_one-Filled zero oi node xs r p = (filled_none node oi 0 xs [] r p, refl, inl refl, refl)
  fill_one-Filled (suc slots) oi node [] r p =
      (filled_none node oi (suc slots) [] [] r p, refl, inr refl, refl)
  fill_one-Filled (suc slots) oi node (x ∷ xs) r p =
      let (e, r', gained, p') = assign-pushed node oi slots x r p in
      let one =
        fed_one f (wrapped f) (wraps f) node x (x ∷ xs) [] xs [] r' gained
          (sym (ap (λ l. x ∷ l) (merge-nil xs))) (omega arith) (omega arith) in
      let (a, runs, end, none_ys) = fill_one-Filled slots (oi + 1) one.node' xs r' p' in
      (
        filled_more node oi slots (x ∷ xs) [] xs [] x one refl a,
        rw (fill_one, e) runs,
        end,
        none_ys,
      )
