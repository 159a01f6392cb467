-- ===== src/Merging/Decomposed/Rest.antt =====
-- `readmerge_scalar_decomposed` while one input has tuples.
use hashing_old_archive.Prelude.{
  ℕ, Bool, suc, ◌+◌, ◌-◌, ◌%◌, ◌^◌, ◌<◌, ◌≤◌, ◌≡◌, refl, [], some, ◌==◌, ltb, leb, arith,
  Bool-cases, inl, inr, not, ◌&&◌, true, false, min, ◌∙◌, ap, length, ◌⊎◌, if◌then◌else◌, lt_cases,
}
use native.Mathlib.Nat.{mod-eq_of_lt}
use hashing_old_archive.Merging.{Relation}
use hashing_old_archive.Merging.Ring.{MergeNode}
use hashing_old_archive.Merging.Ring.Window.{ahead}
use hashing_old_archive.Merging.Ring.Steps.{IsRing}
use hashing_old_archive.Merging.Kernels.Read.{Fed, fed_then}
use hashing_old_archive.Merging.Kernels.First.{nil_of_length}
use hashing_old_archive.Merging.Decomposed.{fill_one, tail_reset, fill_rest, fill_rests}
use hashing_old_archive.Merging.Decomposed.Fill.{FreePart, Filled, with_tail, fill_one-Filled}

pub if_true {ℓ} : {A : Type ℓ} {b : Bool} (x y : A) → b ≡ true → (if b then x else y) ≡ x
if_true x y e = ap (λ b. if b then x else y) e

-- Where the free slots from the tail on end.
pub rest_end :
    (f count tail head : ℕ)
    → tail ≡ ahead f head count
    → head < f
    → count < f
    → min f (tail + (f - count)) ≡ (if ltb tail head then head else f)
rest_end f count tail head at h room = ground arith

-- The sum of two numbers up to the size of a small ring does not wrap.
pub no_wrap : (f a b : ℕ) → f < 2 ^ 31 → a ≤ f → b ≤ f → (a + b) % 2 ^ 32 ≡ a + b
no_wrap f a b fit le le' = mod-eq_of_lt {n = a + b} {m = 2 ^ 32} (omega arith)

module _ {ℓ} {V : Type ℓ} (f : ℕ) where
  -- After a round over one input the tail is in the ring again.
  pub turned_node :
      (node : MergeNode V) (oi slots oend : ℕ)
      → FreePart f node oi slots
      → oi + slots ≡ oend
      → (if oi == oend then tail_reset f (with_tail f oi node) else with_tail f oi node) ≡ node
  turned_node node oi slots oend p at = elim (Bool-cases (oi == oend)) [
    | inl e ↦
        let tail : (if leb f oi then 0 else oi) ≡ node.tail = ground (arith, p.tail, p.inside) in
        rw e (ap (λ t. record node { tail = t }) tail)
    | inr e ↦
        let tail : oi ≡ node.tail = ground (arith, p.tail, p.inside) in
        rw e (ap (λ t. record node { tail = t }) tail)
  ]

  -- A round of the loop over one input.
  fill_rest-step :
      (rounds slots oi oend : ℕ) (node : MergeNode V) (xs : Relation V)
      (a : Filled f node oi slots xs [])
      → oi + slots ≡ oend
      → fill_one slots oi (with_tail f oi node) xs
        ≡ some (a.slots', a.oi', with_tail f a.oi' a.fed.node', a.fed.xs')
      → fill_rest (suc rounds) f slots oi oend (with_tail f oi node) xs ≡ (
          if ltb a.fed.node'.count f && not (length a.fed.xs' == 0)
          then (if a.oi' == oend
              then fill_rest rounds f a.fed.node'.head 0 a.fed.node'.head a.fed.node' a.fed.xs'
              else fill_rest rounds f a.slots' a.oi' oend a.fed.node' a.fed.xs')
          else some (a.fed.node', a.fed.xs'))
  unfolding fill_rest
  fill_rest-step rounds slots oi oend node xs a at runs =
      rw (fill_rest, runs, turned_node a.fed.node' a.oi' a.slots' oend a.part (a.indices ∙ at)) refl

  -- What copying one input comes to.
  abbrev pub Rest : MergeNode V → Relation V → Type ℓ
  Rest node xs = (a : Fed f node xs []) × (a.ys' ≡ []) × ((a.node'.count ≡ f) ⊎ (a.xs' ≡ []))

  fill_rest-stop :
      (rounds slots oi oend : ℕ) (node : MergeNode V) (xs : Relation V)
      (a : Filled f node oi slots xs [])
      → oi + slots ≡ oend
      → fill_one slots oi (with_tail f oi node) xs
        ≡ some (a.slots', a.oi', with_tail f a.oi' a.fed.node', a.fed.xs')
      → (a.fed.node'.count ≡ f) ⊎ (a.fed.xs' ≡ [])
      → fill_rest (suc rounds) f slots oi oend (with_tail f oi node) xs
        ≡ some (a.fed.node', a.fed.xs')
  fill_rest-stop rounds slots oi oend node xs a at runs reason =
      let stop : (ltb a.fed.node'.count f && not (length a.fed.xs' == 0)) ≡ false = elim reason [
        | inl full ↦ ground arith
        | inr empty ↦ rw empty (ground arith)
      ] in
      fill_rest-step rounds slots oi oend node xs a at runs ∙ rw stop refl

  -- On the last part one round is enough.
  last_part :
      (rounds slots oi oend : ℕ) (node : MergeNode V) (xs : Relation V)
      → IsRing f node
      → FreePart f node oi slots
      → node.count + slots ≡ f
      → oi + slots ≡ oend
      → (a : Rest node xs) × (fill_rest (suc rounds) f slots oi oend (with_tail f oi node) xs
          ≡ some (a.0.node', a.0.xs'))
  last_part rounds slots oi oend node xs r p whole at =
      let (a, runs, end, none_ys) = fill_one-Filled f slots oi node xs r p in
      let reason : (a.fed.node'.count ≡ f) ⊎ (a.fed.xs' ≡ []) = elim end [
        | inl full ↦ inl (omega (arith, a.indices, a.counts, full))
        | inr empty ↦ inr empty
      ] in
      ((a.fed, none_ys, reason), fill_rest-stop rounds slots oi oend node xs a at runs reason)

  pub rest_part :
      (node : MergeNode V) (oend : ℕ)
      → IsRing f node
      → node.count < f
      → oend ≡ (if ltb node.tail node.head then node.head else f)
      → FreePart f node node.tail (oend - node.tail) × (node.tail + (oend - node.tail) ≡ oend)
  rest_part node oend r room at = (
    record {
      tail = ground (arith, r.tail_is, r.inside);
      inside = ground (arith, r.tail_is, r.inside);
      free = ground (arith, r.tail_is, r.inside);
    },
    ground (arith, r.tail_is, r.inside),
  )

  abbrev fed_at_nil :
      (node : MergeNode V) (xs ys : Relation V)
      → ys ≡ []
      → (b : Fed f node xs []) → Fed f node xs ys
  fed_at_nil node xs ys e b = record {
    node' = b.node';
    xs' = b.xs';
    ys' = b.ys';
    taken = b.taken;
    ring = b.ring;
    gained = b.gained;
    stream = rw e b.stream;
    count = b.count;
    less_xs = b.less_xs;
    less_ys = omega (arith, b.less_ys);
  }

  -- Both parts, from a tail that is not before the head.
  both_parts_from :
      (node : MergeNode V) (xs : Relation V) (a : Filled f node node.tail (f - node.tail) xs [])
      → IsRing f node
      → node.count < f
      → node.head ≤ node.tail
      → node.tail + (f - node.tail) ≡ f
      → fill_one (f - node.tail) node.tail node xs
        ≡ some (a.slots', a.oi', with_tail f a.oi' a.fed.node', a.fed.xs')
      → (a.slots' ≡ 0) ⊎ (a.fed.xs' ≡ [])
      → a.fed.ys' ≡ []
      → (b : Rest node xs) × (fill_rest 2 f (f - node.tail) node.tail f node xs
          ≡ some (b.0.node', b.0.xs'))
  both_parts_from node xs a r room before at runs end none_ys =
      elim (Bool-cases (ltb a.fed.node'.count f && not (length a.fed.xs' == 0))) [
        | inl more ↦
            let full : a.slots' ≡ 0 = elim end [
              | inl full ↦ full
              | inr empty ↦ absurd (ground (arith, ap length empty))
            ] in
            let here : a.oi' ≡ f = omega (arith, a.indices, at, full) in
            let turned : (a.oi' == f) ≡ true = ground arith in
            let tail : a.fed.node'.tail ≡ 0 = a.part.tail ∙ ground arith in
            let count : a.fed.node'.count + node.head ≡ f =
              ground (arith, a.counts, r.tail_is, r.inside) in
            let (b, runs') =
              last_part 0 a.fed.node'.head 0 a.fed.node'.head a.fed.node' a.fed.xs' a.fed.ring
                (record {
                  tail = tail ∙ ground arith;
                  inside = omega (arith, a.head, r.inside);
                  free = omega (arith, a.head, count);
                })
                (omega (arith, a.head, count)) (omega arith) in
            (
              (fed_then f a.fed (fed_at_nil a.fed.node' a.fed.xs' a.fed.ys' none_ys b.0), b.1, b.2),
              fill_rest-step 1 (f - node.tail) node.tail f node xs a at runs
                  ∙ if_true _ _ more
                  ∙ if_true _ _ turned
                  ∙ (ap
                        (λ t.
                          fill_rest 1 f a.fed.node'.head 0 a.fed.node'.head
                            (record a.fed.node' { tail = t }) a.fed.xs')
                        tail
                      ∙ runs'),
            )
        | inr stop ↦
            let reason : (a.fed.node'.count ≡ f) ⊎ (a.fed.xs' ≡ []) =
              elim (lt_cases a.fed.node'.count f) [
                | inl room' ↦ inr (nil_of_length a.fed.xs' (ground arith))
                | inr full ↦ inl (omega (arith, a.fed.ring.bounded))
              ] in
            (
              (a.fed, none_ys, reason),
              fill_rest-stop 1 (f - node.tail) node.tail f node xs a at runs reason,
            )
      ]

  both_parts :
      (node : MergeNode V) (xs : Relation V)
      → IsRing f node
      → node.count < f
      → node.head ≤ node.tail
      → (b : Rest node xs) × (fill_rest 2 f (f - node.tail) node.tail f node xs
          ≡ some (b.0.node', b.0.xs'))
  both_parts node xs r room before =
      let (p, at) = rest_part node f r room (ground arith) in
      let (a, runs, end, none_ys) = fill_one-Filled f (f - node.tail) node.tail node xs r p in
      both_parts_from node xs a r room before at runs end none_ys

  pub fill_rests-Rest :
      (node : MergeNode V) (xs : Relation V)
      → f < 2 ^ 31
      → IsRing f node
      → node.count < f
      → (a : Rest node xs) × (fill_rests f node xs ≡ some (a.0.node', a.0.xs'))
  unfolding fill_rests
  fill_rests-Rest node xs fit r room =
      let sum : (node.tail + (f - node.count)) % 2 ^ 32 ≡ node.tail + (f - node.count) =
        no_wrap f node.tail (f - node.count) fit (ground (arith, r.tail_is, r.inside))
          (omega arith) in
      let end = rest_end f node.count node.tail node.head r.tail_is r.inside room in
      elim (Bool-cases (ltb node.tail node.head)) [
        | inl before ↦
            let at : min f ((node.tail + (f - node.count)) % 2 ^ 32) ≡ node.head =
              ap (min f) sum ∙ end ∙ rw before refl in
            let (p, whole) = rest_part node node.head r room (rw before refl) in
            let (a, runs) =
              last_part 1 (node.head - node.tail) node.tail node.head node xs r p
                (ground (arith, r.tail_is, r.inside)) whole in
            (a, ap (λ oend. fill_rest 2 f (oend - node.tail) node.tail oend node xs) at ∙ runs)
        | inr behind ↦
            let at : min f ((node.tail + (f - node.count)) % 2 ^ 32) ≡ f =
              ap (min f) sum ∙ end ∙ rw behind refl in
            let (a, runs) = both_parts node xs r room (ground arith) in
            (a, ap (λ oend. fill_rest 2 f (oend - node.tail) node.tail oend node xs) at ∙ runs)
      ]
