-- ===== src/Merging/Kernels/Read.antt =====
-- What `readmerge_scalar` does to its node and to the stream of its inputs.
use mathlib.Core.List.{append_assoc, append-nil}
use hashing_old_archive.Prelude.{
  ℕ, zero, suc, ◌+◌, ◌<◌, ◌≤◌, ◌≡◌, refl, [], ◌∷◌, ◌++◌, some, ltb, arith, Bool-cases, inl, inr,
  sym, ◌∙◌, ap, length, length-append, ◌⊎◌,
}
use hashing_old_archive.Merging.{Tuple, Relation}
use hashing_old_archive.Merging.Reference.{merge, merge-less, merge-not-less}
use hashing_old_archive.Merging.Ring.{MergeNode}
use hashing_old_archive.Merging.Ring.Window.{wrapped}
use hashing_old_archive.Merging.Ring.Steps.{IsRing, tuples, pushed, push-IsRing}
use hashing_old_archive.Merging.Kernels.{read_both}

module _ {ℓ} {V : Type ℓ} (f : ℕ) where
  -- A node is fed from two inputs: it gains what their merge loses.
  pub record Fed (node : MergeNode V) (xs ys : Relation V) : Type ℓ where
    pub node' : MergeNode V
    pub xs' : Relation V
    pub ys' : Relation V
    pub taken : Relation V
    pub ring : IsRing f node'
    pub gained : tuples f node' ≡ tuples f node ++ taken
    pub stream : merge xs ys ≡ taken ++ merge xs' ys'
    pub count : node'.count ≡ node.count + length taken
    pub less_xs : length xs' ≤ length xs
    pub less_ys : length ys' ≤ length ys

  abbrev pub fed_none : (node : MergeNode V) (xs ys : Relation V) → IsRing f node → Fed node xs ys
  fed_none node xs ys r = record {
    node' = node;
    xs' = xs;
    ys' = ys;
    taken = [];
    ring = r;
    gained = sym (append-nil (tuples f node));
    stream = refl;
    count = omega arith;
    less_xs = omega arith;
    less_ys = omega arith;
  }

  abbrev pub fed_then :
      {node : MergeNode V} {xs ys : Relation V} (a : Fed node xs ys)
      → Fed a.node' a.xs' a.ys'
      → Fed node xs ys
  fed_then {node} a b = record {
    node' = b.node';
    xs' = b.xs';
    ys' = b.ys';
    taken = a.taken ++ b.taken;
    ring = b.ring;
    gained =
        b.gained ∙ ap (λ l. l ++ b.taken) a.gained ∙ append_assoc (tuples f node) a.taken b.taken;
    stream =
        a.stream
        ∙ ap (λ l. a.taken ++ l) b.stream
        ∙ sym (append_assoc a.taken b.taken (merge b.xs' b.ys'));
    count = omega (arith, a.count, b.count, length-append a.taken b.taken);
    less_xs = omega (arith, a.less_xs, b.less_xs);
    less_ys = omega (arith, a.less_ys, b.less_ys);
  }

  module _ (next : ℕ → ℕ) (law : (index : ℕ) → index < f → next index ≡ wrapped f index) where
    abbrev pub fed_one :
        (node : MergeNode V) (x : Tuple V) (xs ys xs' ys' : Relation V)
        → IsRing f (pushed f next law x node)
        → tuples f (pushed f next law x node) ≡ tuples f node ++ (x ∷ [])
        → merge xs ys ≡ x ∷ merge xs' ys'
        → length xs' ≤ length xs
        → length ys' ≤ length ys
        → Fed node xs ys
    fed_one node x xs ys xs' ys' r gained stream le le' = record {
      node' = pushed f next law x node;
      xs' = xs';
      ys' = ys';
      taken = x ∷ [];
      ring = r;
      gained = gained;
      stream = stream;
      count = refl;
      less_xs = le;
      less_ys = le';
    }

    -- The slots that remain are what the ring lacks.
    pub read_both-Fed :
        (slots : ℕ) (node : MergeNode V) (xs ys : Relation V)
        → IsRing f node
        → node.count + slots ≡ f
        → (a : Fed node xs ys) × (slots' : ℕ) × (read_both next slots node xs ys
            ≡ some (slots', a.node', a.xs', a.ys'))
          × (a.node'.count + slots' ≡ f)
          × ((slots' ≡ 0) ⊎ ((a.xs' ≡ []) ⊎ (a.ys' ≡ [])))
    unfolding read_both
    read_both-Fed zero node xs ys r whole = (fed_none node xs ys r, 0, refl, whole, inl refl)
    read_both-Fed (suc slots) node [] ys r whole =
        (fed_none node [] ys r, suc slots, refl, whole, inr (inl refl))
    read_both-Fed (suc slots) node (x ∷ xs) [] r whole =
        (fed_none node (x ∷ xs) [] r, suc slots, refl, whole, inr (inr refl))
    read_both-Fed (suc slots) node (x ∷ xs) (y ∷ ys) r whole = elim (Bool-cases (ltb x.key y.key)) [
      | inl less ↦
          let (e, r', gained, _) = push-IsRing f next law x node r (omega arith) in
          let one =
            fed_one node x (x ∷ xs) (y ∷ ys) xs (y ∷ ys) r' gained (merge-less x y xs ys less)
              (omega arith) (omega arith) in
          let (a, slots', e', whole', end) =
            read_both-Fed slots one.node' xs (y ∷ ys) r' (omega arith) in
          (fed_then one a, slots', rw (read_both, less, read_both, e) e', whole', end)
      | inr not_less ↦
          let (e, r', gained, _) = push-IsRing f next law y node r (omega arith) in
          let one =
            fed_one node y (x ∷ xs) (y ∷ ys) (x ∷ xs) ys r' gained
              (merge-not-less x y xs ys not_less) (omega arith) (omega arith) in
          let (a, slots', e', whole', end) =
            read_both-Fed slots one.node' (x ∷ xs) ys r' (omega arith) in
          (fed_then one a, slots', rw (read_both, not_less, read_both, e) e', whole', end)
    ]
