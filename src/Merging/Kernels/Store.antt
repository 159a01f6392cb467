-- ===== src/Merging/Kernels/Store.antt =====
-- `mergestore_scalar` on the streams of the two nodes.
use hashing_old_archive.Prelude.{
  ℕ, zero, suc, ◌+◌, ◌<◌, ◌≤◌, ◌≡◌, refl, Bool, true, false, [], ◌∷◌, ◌++◌, Option, some, ◌==◌,
  ◌||◌, ltb, arith, Bool-cases, inl, inr, sym, ap, ◌⊎◌, ◌&&◌, length,
}
use hashing_old_archive.Merging.{Relation}
use hashing_old_archive.Merging.Reference.{merge, merge-nil, merge-less, merge-not-less}
use hashing_old_archive.Merging.Ring.{MergeNode, advance}
use hashing_old_archive.Merging.Ring.Window.{wrapped}
use hashing_old_archive.Merging.Ring.Steps.{IsRing, tuples, advance-IsRing}
use hashing_old_archive.Merging.Kernels.{store_both, store_rest}
use hashing_old_archive.Merging.Kernels.Streams.{both, Taken, taken_none, taken_then}
use hashing_old_archive.Merging.Kernels.Idle.{IsIdle}
use hashing_old_archive.Merging.Kernels.First.{tuples-nil}

module _ {ℓ} {V : Type ℓ} (f : ℕ) (next : ℕ → ℕ)
    (law : (index : ℕ) → index < f → next index ≡ wrapped f index) where
  -- All the tuples of a ring are written, and it is empty.
  pub store_rest-tuples :
      (n : ℕ) (src : MergeNode V)
      → IsRing f src
      → src.count ≡ n
      → (src' : MergeNode V) × (store_rest next n src ≡ some (tuples f src, src'))
        × IsRing f src'
        × (src'.count ≡ 0)
  unfolding store_rest
  store_rest-tuples zero src r e = (src, ap (λ l. some (l, src)) (sym (tuples-nil f src r e)), r, e)
  store_rest-tuples (suc n) src r e =
      let (x, got, r', lost) = advance-IsRing f next law src r (omega arith) in
      let (src', runs, r'', empty) = store_rest-tuples n (advance next src) r' (omega arith) in
      (
        src',
        rw (store_rest, got, store_rest, runs) (ap (λ l. some (l, src')) (sym lost)),
        r'',
        empty,
      )

  module _ (after_r after_l : Relation V) where
    abbrev pub taken_right :
        (right left right' : MergeNode V) (out : Relation V)
        → IsRing f right'
        → IsRing f left
        → right'.count ≤ right.count
        → (both f after_r after_l right left ≡ out ++ both f after_r after_l right' left)
        → Taken f after_r after_l right left
    taken_right right left right' out rr' rl le stream = record {
      right' = right';
      left' = left;
      taken = out;
      right_ring = rr';
      left_ring = rl;
      right_less = le;
      left_less = omega arith;
      stream = stream;
    }

    abbrev pub taken_left :
        (right left left' : MergeNode V) (out : Relation V)
        → IsRing f right
        → IsRing f left'
        → left'.count ≤ left.count
        → (both f after_r after_l right left ≡ out ++ both f after_r after_l right left')
        → Taken f after_r after_l right left
    taken_left right left left' out rr rl' le stream = record {
      right' = right;
      left' = left';
      taken = out;
      right_ring = rr;
      left_ring = rl';
      right_less = omega arith;
      left_less = le;
      stream = stream;
    }

    -- With a round for each tuple the loop ends, and then one of the nodes is empty.
    pub store_both-Taken :
        (fuel : ℕ) (right left : MergeNode V)
        → IsRing f right
        → IsRing f left
        → right.count + left.count ≤ fuel
        → (a : Taken f after_r after_l right left) × (store_both next fuel right left
            ≡ some (a.taken, a.right', a.left'))
          × ((a.right'.count ≡ 0) ⊎ (a.left'.count ≡ 0))
    unfolding store_both
    store_both-Taken zero right left rr rl enough =
        let e : (right.count == 0 || left.count == 0) ≡ true = ground arith in
        (taken_none f after_r after_l right left rr rl, rw (store_both, e) refl, inl (omega arith))
    store_both-Taken (suc fuel) right left rr rl enough =
        elim (Bool-cases (right.count == 0 || left.count == 0)) [
          | inl e ↦
              (taken_none f after_r after_l right left rr rl, rw (store_both, e) refl, ground arith)
          | inr e ↦
              let (a, got_a, rr', lost_a) = advance-IsRing f next law right rr (ground arith) in
              let (b, got_b, rl', lost_b) = advance-IsRing f next law left rl (ground arith) in
              elim (Bool-cases (ltb a.key b.key)) [
                | inl less ↦
                    let step =
                      taken_right right left (advance next right) (a ∷ []) rr' rl (omega arith)
                        (rw (lost_a, lost_b) (merge-less a b _ _ less)) in
                    let (m, runs, end) =
                      store_both-Taken fuel (advance next right) left rr' rl (ground arith) in
                    (
                      taken_then f after_r after_l step m,
                      rw
                          (
                            store_both, e, store_both, got_a, store_both, got_b, store_both, less,
                            store_both, runs,
                          )
                          refl,
                      end,
                    )
                | inr not_less ↦
                    let step =
                      taken_left right left (advance next left) (b ∷ []) rr rl' (omega arith)
                        (rw (lost_a, lost_b) (merge-not-less a b _ _ not_less)) in
                    let (m, runs, end) =
                      store_both-Taken fuel right (advance next left) rr rl' (ground arith) in
                    (
                      taken_then f after_r after_l step m,
                      rw
                          (
                            store_both, e, store_both, got_a, store_both, got_b, store_both,
                            not_less, store_both, runs,
                          )
                          refl,
                      end,
                    )
              ]
        ]

    -- What is written is the front of the merge of both streams; once both have ended it is all, and when
    -- nothing is written there is nothing to write.
    abbrev pub Stores :
        Bool
        → Bool
        → Option (Relation V × MergeNode V × MergeNode V)
        → MergeNode V
        → MergeNode V
        → Type ℓ
    Stores rightdone leftdone result right left =
        (a : Taken f after_r after_l right left) × (result ≡ some (a.taken, a.right', a.left'))
        × (((rightdone && leftdone) ≡ false) ⊎ ((a.right'.count ≡ 0) × (a.left'.count ≡ 0)))
        × ((0 < length a.taken) ⊎ IsIdle rightdone leftdone right left)

    pub right_out :
        (right left right' : MergeNode V)
        → IsRing f right'
        → right'.count ≡ 0
        → tuples f left ++ after_l ≡ []
        → both f after_r after_l right left ≡ tuples f right ++ both f after_r after_l right' left
    right_out right left right' rr' empty ended =
        rw
          (
            ended,
            merge-nil (tuples f right ++ after_r),
            merge-nil (tuples f right' ++ after_r),
            tuples-nil f right' rr' empty,
          )
          refl

    pub left_out :
        (right left left' : MergeNode V)
        → IsRing f left'
        → left'.count ≡ 0
        → tuples f right ++ after_r ≡ []
        → both f after_r after_l right left ≡ tuples f left ++ both f after_r after_l right left'
    unfolding merge
    left_out right left left' rl' empty ended = rw (ended, tuples-nil f left' rl' empty) refl
