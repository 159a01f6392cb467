-- ===== src/Merging/Copy/Direct.antt =====
-- What `direct_copy` does to the two rings.
use hashing_old_archive.Prelude.{
  ℕ, ◌+◌, ◌-◌, ◌%◌, ◌^◌, ◌<◌, ◌≡◌, refl, List, some, arith, sym, ◌∙◌, ap, ◌⊎◌, ltb, true, ◌&&◌,
}
use hashing_old_archive.Merging.{Tuple}
use hashing_old_archive.Merging.Ring.{MergeNode}
use hashing_old_archive.Merging.Ring.Steps.{IsRing}
use hashing_old_archive.Merging.Copy.{dest_blocks, src_blocks, direct_copy}
use hashing_old_archive.Merging.Copy.Room.{
  moved_index, src_blocks-IsRoom, dest_blocks-IsRoom, length-dest_blocks, length-src_blocks,
}
use hashing_old_archive.Merging.Copy.Moves.{Moves}
use hashing_old_archive.Merging.Copy.Blocks.{Moves-tail, copy_blocks-Moves}

module _ {ℓ} {V : Type ℓ} (f : ℕ) where
  -- Two nodes with the same fields.
  pub node-eq :
      (a : MergeNode V) (buffer : List (Tuple V)) (count head tail : ℕ)
      → buffer ≡ a.buffer
      → count ≡ a.count
      → head ≡ a.head
      → tail ≡ a.tail
      → record { buffer = buffer; count = count; head = head; tail = tail } ≡ a
  node-eq a buffer count head tail e0 e1 e2 e3 =
      λ i. record { buffer = e0 i; count = e1 i; head = e2 i; tail = e3 i }

  -- On rings of fewer than 2 ^ 31 slots, from one that is not empty to one that is not full, `direct_copy`
  -- ends within four rounds without an access out of range: tuples move from the head of the one ring to
  -- the tail of the other until one is full or the other empty.
  pub direct_copy-Moves :
      (dest src : MergeNode V)
      → f < 2 ^ 31
      → IsRing f dest
      → IsRing f src
      → dest.count < f
      → 0 < src.count
      → (n : ℕ) × (m : Moves f n dest src) × (direct_copy f dest src ≡ some (m.dest', m.src'))
        × ((m.dest'.count ≡ f) ⊎ (m.src'.count ≡ 0))
  unfolding direct_copy
  direct_copy-Moves dest src fit rd rs room some_left =
      let (n, m, e, end) =
        copy_blocks-Moves f 4 (dest_blocks f dest) (src_blocks f src) dest src 0 rd rs
          (dest_blocks-IsRoom f dest rd room) (src_blocks-IsRoom f src rs some_left)
          (omega (arith, length-dest_blocks f dest, length-src_blocks f src)) in
      let allowed : (ltb dest.count f && ltb 0 src.count) ≡ true = ground arith in
      (
        n,
        m,
        rw
            (
              allowed,
              direct_copy,
              e ∙ (let q : 0 + n ≡ n = omega arith in ap (λ k. some (m.dest'.buffer, k)) q),
            )
            (λ i. some (
              node-eq m.dest' m.dest'.buffer (dest.count + n) dest.head
                  ((dest.tail + n) % 2 ^ 32 % f) refl (omega (arith, m.dest_count))
                  (sym m.dest_head)
                  (moved_index f dest.tail n fit (ground (arith, rd.inside, rd.tail_is, rd.bounded))
                      (omega (arith, m.dest_count, m.dest_ring.bounded))
                    ∙ Moves-tail f n dest src rd m)
                  i,
              node-eq m.src' src.buffer (src.count - n) ((src.head + n) % 2 ^ 32 % f) src.tail
                  (sym m.src_buffer) (omega (arith, m.src_count))
                  (moved_index f src.head n fit rs.inside (omega (arith, m.src_count, rs.bounded))
                    ∙ sym m.src_head)
                  (sym m.src_tail) i,
            )),
        end,
      )
