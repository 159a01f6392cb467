-- ===== src/Merging/Kernels/Load.antt =====
-- The loops of `readmerge_scalar` while one input has tuples, and the whole of it.
use mathlib.Core.List.{append_assoc, append-nil}
use hashing_old_archive.Prelude.{
  ℕ, zero, suc, ◌+◌, ◌-◌, ◌<◌, ◌≡◌, refl, [], ◌∷◌, ◌++◌, some, arith, inl, inr, sym, ◌∙◌, ap,
  length, length-append, ◌⊎◌,
}
use hashing_old_archive.Merging.{Tuple, Relation}
use hashing_old_archive.Merging.Reference.{merge, merge-nil, length-merge}
use hashing_old_archive.Merging.Ring.{MergeNode}
use hashing_old_archive.Merging.Ring.Window.{wrapped}
use hashing_old_archive.Merging.Ring.Steps.{IsRing, tuples, pushed, push-IsRing}
use hashing_old_archive.Merging.Kernels.{read_one, readmerge_scalar}
use hashing_old_archive.Merging.Kernels.Read.{Fed, fed_then, read_both-Fed}

module _ {ℓ} {V : Type ℓ} (f : ℕ) where
  module _ (next : ℕ → ℕ) (law : (index : ℕ) → index < f → next index ≡ wrapped f index) where
    -- One input is copied to the node.
    pub record Copied (slots : ℕ) (node : MergeNode V) (xs : Relation V) : Type ℓ where
      pub node' : MergeNode V
      pub xs' : Relation V
      pub slots' : ℕ
      pub taken : Relation V
      pub runs : read_one next slots node xs ≡ some (slots', node', xs')
      pub ring : IsRing f node'
      pub gained : tuples f node' ≡ tuples f node ++ taken
      pub parts : xs ≡ taken ++ xs'
      pub count : node'.count ≡ node.count + length taken
      pub whole : node'.count + slots' ≡ f
      pub end : (slots' ≡ 0) ⊎ (xs' ≡ [])

    abbrev copied_none :
        (slots : ℕ) (node : MergeNode V) (xs : Relation V)
        → IsRing f node
        → node.count + slots ≡ f
        → read_one next slots node xs ≡ some (slots, node, xs)
        → (slots ≡ 0) ⊎ (xs ≡ [])
        → Copied slots node xs
    copied_none slots node xs r whole runs end = record {
      node' = node;
      xs' = xs;
      slots' = slots;
      taken = [];
      runs = runs;
      ring = r;
      gained = sym (append-nil (tuples f node));
      parts = refl;
      count = omega arith;
      whole = whole;
      end = end;
    }

    abbrev copied_more :
        (slots : ℕ) (node : MergeNode V) (x : Tuple V) (xs : Relation V)
        → tuples f (pushed f next law x node) ≡ tuples f node ++ (x ∷ [])
        → (a : Copied slots (pushed f next law x node) xs)
        → read_one next (suc slots) node (x ∷ xs) ≡ some (a.slots', a.node', a.xs')
        → Copied (suc slots) node (x ∷ xs)
    copied_more slots node x xs gained a runs = record {
      node' = a.node';
      xs' = a.xs';
      slots' = a.slots';
      taken = x ∷ a.taken;
      runs = runs;
      ring = a.ring;
      gained =
          a.gained ∙ ap (λ l. l ++ a.taken) gained ∙ append_assoc (tuples f node) (x ∷ []) a.taken;
      parts = ap (λ l. x ∷ l) a.parts;
      count = omega (arith, a.count);
      whole = a.whole;
      end = a.end;
    }

    read_one-Copied :
        (slots : ℕ) (node : MergeNode V) (xs : Relation V)
        → IsRing f node
        → node.count + slots ≡ f
        → Copied slots node xs
    unfolding read_one
    read_one-Copied zero node xs r whole = copied_none zero node xs r whole refl (inl refl)
    read_one-Copied (suc slots) node [] r whole =
        copied_none (suc slots) node [] r whole refl (inr refl)
    read_one-Copied (suc slots) node (x ∷ xs) r whole =
        let (e, r', gained, _) = push-IsRing f next law x node r (omega arith) in
        let a = read_one-Copied slots (pushed f next law x node) xs r' (omega arith) in
        copied_more slots node x xs gained a (rw (read_one, e) a.runs)

    -- The stream when one input is copied while nothing else can come first.
    stream_xs :
        (xs ys taken xs' : Relation V)
        → xs ≡ taken ++ xs'
        → (length taken ≡ 0) ⊎ ((xs ≡ []) ⊎ (ys ≡ []))
        → merge xs ys ≡ taken ++ merge xs' ys
    unfolding merge
    stream_xs xs ys [] xs' parts reason = ap (λ l. merge l ys) parts
    stream_xs xs ys (t ∷ taken) xs' parts (inl nothing) = absurd (omega arith)
    stream_xs xs ys (t ∷ taken) xs' parts (inr (inl none_left)) =
        absurd (omega (arith, ap length parts, ap length none_left))
    stream_xs xs ys (t ∷ taken) xs' parts (inr (inr none_left)) =
        rw (none_left, merge-nil xs, merge-nil xs') parts

    stream_ys :
        (xs ys taken ys' : Relation V)
        → ys ≡ taken ++ ys'
        → (length taken ≡ 0) ⊎ (xs ≡ [])
        → merge xs ys ≡ taken ++ merge xs ys'
    unfolding merge
    stream_ys xs ys [] ys' parts reason = ap (merge xs) parts
    stream_ys xs ys (t ∷ taken) ys' parts (inl nothing) = absurd (omega arith)
    stream_ys xs ys (t ∷ taken) ys' parts (inr none_left) = rw none_left parts

    abbrev fed_xs :
        (slots : ℕ) (node : MergeNode V) (xs ys : Relation V)
        → node.count + slots ≡ f
        → (slots ≡ 0) ⊎ ((xs ≡ []) ⊎ (ys ≡ []))
        → (a : Copied slots node xs) → Fed f node xs ys
    fed_xs slots node xs ys full reason a = record {
      node' = a.node';
      xs' = a.xs';
      ys' = ys;
      taken = a.taken;
      ring = a.ring;
      gained = a.gained;
      stream = stream_xs xs ys a.taken a.xs' a.parts (elim reason [
        | inl none_free ↦ inl (omega (arith, a.count, a.whole, a.ring.bounded))
        | inr empty ↦ inr empty
      ]);
      count = a.count;
      less_xs = omega (arith, ap length a.parts, length-append a.taken a.xs');
      less_ys = omega arith;
    }

    abbrev fed_ys :
        (slots : ℕ) (node : MergeNode V) (xs ys : Relation V)
        → node.count + slots ≡ f
        → (slots ≡ 0) ⊎ (xs ≡ [])
        → (a : Copied slots node ys) → Fed f node xs ys
    fed_ys slots node xs ys full reason a = record {
      node' = a.node';
      xs' = xs;
      ys' = a.xs';
      taken = a.taken;
      ring = a.ring;
      gained = a.gained;
      stream = stream_ys xs ys a.taken a.xs' a.parts (elim reason [
        | inl none_free ↦ inl (omega (arith, a.count, a.whole, a.ring.bounded))
        | inr empty ↦ inr empty
      ]);
      count = a.count;
      less_xs = omega arith;
      less_ys = omega (arith, ap length a.parts, length-append a.taken a.xs');
    }

    pub taken_length :
        {node : MergeNode V} {xs ys : Relation V} (a : Fed f node xs ys)
        → length xs - length a.xs' + (length ys - length a.ys') ≡ length a.taken
    taken_length {xs = xs} {ys = ys} a = omega (
      arith,
      ap length a.stream,
      length-append a.taken (merge a.xs' a.ys'),
      length-merge xs ys,
      length-merge a.xs' a.ys',
      a.less_xs,
      a.less_ys,
    )

    abbrev pub Reads : MergeNode V → Relation V → Relation V → Type ℓ
    Reads node xs ys =
        (a : Fed f node xs ys) × (readmerge_scalar next f node xs ys
          ≡ some (a.node', a.xs', a.ys', length a.taken))
        × ((a.node'.count ≡ f) ⊎ ((a.xs' ≡ []) × (a.ys' ≡ [])))

    -- With indices that wrap round, a ring takes from the front of the merge of both inputs until it is full
    -- or they are empty, without an access out of range, and the number of tuples that were read is what it
    -- took.
    pub readmerge_scalar-Reads :
        (node : MergeNode V) (xs ys : Relation V) → IsRing f node → Reads node xs ys
    unfolding readmerge_scalar
    readmerge_scalar-Reads node xs ys r =
        let (a, slots, e, whole, end) =
          read_both-Fed f next law (f - node.count) node xs ys r (omega (arith, r.bounded)) in
        let b = read_one-Copied slots a.node' a.xs' a.ring whole in
        let c = read_one-Copied b.slots' b.node' a.ys' b.ring b.whole in
        let full = fed_xs slots a.node' a.xs' a.ys' whole end b in
        let full' = fed_ys b.slots' b.node' b.xs' a.ys' b.whole b.end c in
        let all = fed_then f a (fed_then f full full') in
        (
          all,
          rw (e, b.runs, c.runs) (ap (λ n. some (c.node', b.xs', c.xs', n)) (taken_length all)),
          elim c.end [
            | inl none_free ↦ inl (omega (arith, c.whole))
            | inr no_ys ↦ elim b.end [
              | inl none_free ↦ inl (omega (arith, b.whole, c.count, c.ring.bounded))
              | inr no_xs ↦ inr (no_xs, no_ys)
            ]
          ],
        )
