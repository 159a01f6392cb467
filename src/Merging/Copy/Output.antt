-- ===== src/Merging/Copy/Output.antt =====
-- What `direct_copy_to_output` writes.
use hashing_old_archive.Prelude.{
  ℕ, zero, suc, ◌+◌, ◌-◌, ◌%◌, ◌^◌, ◌<◌, ◌≤◌, ◌≡◌, refl, List, [], ◌∷◌, ◌++◌, some, arith, sym, ◌∙◌,
  ap, length, get_elem?,
}
use hashing_old_archive.Merging.{Tuple, Relation}
use hashing_old_archive.Merging.Ring.{MergeNode}
use hashing_old_archive.Merging.Ring.Window.{ahead, wrapped, window, get-some}
use hashing_old_archive.Merging.Ring.Steps.{IsRing, tuples}
use hashing_old_archive.Merging.Copy.{
  Block, src_blocks, read_block, read_blocks, direct_copy_to_output,
}
use hashing_old_archive.Merging.Copy.Room.{IsRoom, src_blocks-IsRoom, moved_index}

module _ {ℓ} {V : Type ℓ} (f : ℕ) where
  -- A window in two parts.
  window-append :
      (n m : ℕ) (buffer : List (Tuple V)) (head : ℕ)
      → length buffer ≡ f
      → head < f
      → n + m ≤ f
      → window f (n + m) buffer head ≡ window f n buffer head ++ window f m buffer (ahead f head n)
  unfolding window
  window-append zero m buffer head size h le =
      let e : head ≡ ahead f head 0 = ground arith in
      let e' : 0 + m ≡ m = omega arith in rw e' (ap (window f m buffer) e)
  window-append (suc n) m buffer head size h le =
      let (x, got) = get-some f buffer head (rw size h) in
      let e : suc n + m ≡ suc (n + m) = omega arith in
      let e' : ahead f (wrapped f head) n ≡ ahead f head (suc n) = ground arith in
      let rest = window-append n m buffer (wrapped f head) size (ground arith) (omega arith) in
      rw e (rw (window, got, window, sym e') (ap (λ l. x ∷ l) rest))

  read_block-suc :
      (n from : ℕ) (buffer : List (Tuple V)) (x : Tuple V) (out : Relation V)
      → get_elem? buffer from ≡ some x
      → read_block n (from + 1) buffer ≡ some out
      → read_block (suc n) from buffer ≡ some (x ∷ out)
  unfolding read_block
  read_block-suc n from buffer x out got rest = rw (read_block, got, read_block, rest) refl

  window-cons :
      (n from : ℕ) (buffer : List (Tuple V)) (x : Tuple V)
      → get_elem? buffer from ≡ some x
      → window f (suc n) buffer from ≡ x ∷ window f n buffer (wrapped f from)
  unfolding window
  window-cons n from buffer x got = rw (window, got) refl

  -- A block inside the buffer is a window.
  read_block-window :
      (n from : ℕ) (buffer : List (Tuple V))
      → length buffer ≡ f
      → from + n ≤ f
      → read_block n from buffer ≡ some (window f n buffer from)
  unfolding read_block window
  read_block-window zero from buffer size le = refl
  read_block-window (suc zero) from buffer size le =
      let (x, got) = get-some f buffer from (rw size (omega arith)) in
      read_block-suc zero from buffer x [] got refl
      ∙ ap some (sym (window-cons zero from buffer x got))
  read_block-window (suc (suc n)) from buffer size le =
      let (x, got) = get-some f buffer from (rw size (omega arith)) in
      let e : from + 1 ≡ wrapped f from = ground arith in
      let rest : read_block (suc n) (from + 1) buffer
          ≡ some (window f (suc n) buffer (wrapped f from)) =
        read_block-window (suc n) (from + 1) buffer size (omega arith)
        ∙ ap (λ i. some (window f (suc n) buffer i)) e in
      read_block-suc (suc n) from buffer x _ got rest
      ∙ ap some (sym (window-cons (suc n) from buffer x got))

  -- A block may be anywhere when it is empty.
  read_block-at :
      (n from start : ℕ) (buffer : List (Tuple V))
      → length buffer ≡ f
      → start + n ≤ f
      → (0 < n → from ≡ start)
      → read_block n from buffer ≡ some (window f n buffer start)
  unfolding read_block window
  read_block-at zero from start buffer size le at = refl
  read_block-at (suc n) from start buffer size le at =
      ap (λ i. read_block (suc n) i buffer) (at (omega arith))
      ∙ read_block-window (suc n) start buffer size le

  read_blocks-cons :
      (b : Block) (bs : List Block) (buffer : List (Tuple V)) (out later : Relation V) (copied : ℕ)
      → read_block b.size b.start buffer ≡ some out
      → read_blocks bs buffer ≡ some (later, copied)
      → read_blocks (b ∷ bs) buffer ≡ some (out ++ later, b.size + copied)
  unfolding read_blocks
  read_blocks-cons b bs buffer out later copied e e' = rw (read_blocks, e, read_blocks, e') refl

  read_blocks-window :
      (bs : List Block) (buffer : List (Tuple V)) (start total : ℕ)
      → length buffer ≡ f
      → start < f
      → total ≤ f
      → IsRoom f start total bs
      → read_blocks bs buffer ≡ some (window f total buffer start, total)
  unfolding read_blocks window
  read_blocks-window [] buffer start total size s le none_left = rw none_left refl
  read_blocks-window (b ∷ bs) buffer start total size s le (fits, ends, at, later) =
      let whole : b.size + (total - b.size) ≡ total = omega arith in
      read_blocks-cons b bs buffer _ _ _ (read_block-at b.size b.start start buffer size ends at) (
        read_blocks-window bs buffer (ahead f start b.size) (total - b.size) size (ground arith)
          (omega arith) later)
      ∙ ap (λ out. some (out, b.size + (total - b.size)))
          (sym (window-append b.size (total - b.size) buffer start size s (omega arith)))
      ∙ ap (λ n. some (window f n buffer start, n)) whole

  -- What is left of a node whose tuples have all been copied.
  abbrev pub emptied : MergeNode V → MergeNode V
  emptied src = record src {
    count = src.count - src.count;
    head = (src.head + src.count) % 2 ^ 32 % f;
  }

  -- On a ring of fewer than 2 ^ 31 slots that is not empty, `direct_copy_to_output` writes all its tuples,
  -- the oldest first, and leaves an empty ring.
  pub direct_copy_to_output-tuples :
      (src : MergeNode V)
      → f < 2 ^ 31
      → IsRing f src
      → 0 < src.count
      → (direct_copy_to_output f src ≡ some (tuples f src, emptied src)) × IsRing f (emptied src)
  unfolding direct_copy_to_output
  direct_copy_to_output-tuples src fit rs some_left =
      let e =
        read_blocks-window (src_blocks f src) src.buffer src.head src.count rs.size rs.inside
          rs.bounded (src_blocks-IsRoom f src rs some_left) in
      let moved = moved_index f src.head src.count fit rs.inside rs.bounded in
      (
        rw (direct_copy_to_output, e) refl,
        record {
          size = rs.size;
          bounded = omega arith;
          inside = rw moved (ground (arith, rs.inside, rs.bounded));
          tail_is = rs.tail_is ∙ rw moved (ground (arith, rs.inside, rs.bounded));
        },
      )
