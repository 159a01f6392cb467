-- ===== src/Merging/Copy/Blocks.antt =====
-- The copy of one block, and the loop over the blocks, as moves of tuples from ring to ring.
use hashing_old_archive.Prelude.{
  ℕ, zero, suc, ◌+◌, ◌-◌, ◌<◌, ◌≤◌, ◌≡◌, refl, List, [], ◌∷◌, some, min, arith, inl, inr, sym, ◌∙◌,
  ap, length, get_elem?, set, ◌⊎◌,
}
use hashing_old_archive.Merging.{Tuple}
use hashing_old_archive.Merging.Copy.{Block, rest_of, copy_block, copy_blocks}
use hashing_old_archive.Merging.Copy.Room.{IsRoom, IsRoom-at, rest_of-IsRoom}
use hashing_old_archive.Merging.Ring.{MergeNode}
use hashing_old_archive.Merging.Ring.Window.{ahead, ahead-ahead, wrapped}
use hashing_old_archive.Merging.Ring.Steps.{IsRing, push-IsRing, advance-IsRing}
-- A round uses up the smaller block.
use hashing_old_archive.Merging.Copy.Moves.{Moves, moves_none, moves_then, moves_one}

rest_of_shorter :
    (c : ℕ) (d s : Block) (ds ss : List Block)
    → c ≡ min d.size s.size
    → length (rest_of c d ds) + length (rest_of c s ss) < length (d ∷ ds) + length (s ∷ ss)
rest_of_shorter c d s ds ss e = ground arith

module _ {ℓ} {V : Type ℓ} (f : ℕ) where
  copy_block-suc :
      (n to from to' from' : ℕ) (src dest : List (Tuple V)) (x old : Tuple V)
      → to ≡ to'
      → from ≡ from'
      → get_elem? src from' ≡ some x
      → get_elem? dest to' ≡ some old
      → copy_block (suc n) to from src dest
        ≡ copy_block n (to' + 1) (from' + 1) src (set dest to' x)
  unfolding copy_block
  copy_block-suc n to from to' from' src dest x old at_to at_from got old_got =
      ap (λ t. copy_block (suc n) t from src dest) at_to
      ∙ ap (λ g. copy_block (suc n) to' g src dest) at_from
      ∙ rw (copy_block, got, copy_block, old_got, copy_block) refl

  -- The copy of a block that is at the tail of one ring and at the head of the other.
  pub copy_block-Moves :
      (n to from : ℕ) (dest src : MergeNode V)
      → IsRing f dest
      → IsRing f src
      → dest.count + n ≤ f
      → n ≤ src.count
      → dest.tail + n ≤ f
      → src.head + n ≤ f
      → (0 < n → to ≡ dest.tail)
      → (0 < n → from ≡ src.head)
      → (m : Moves f n dest src) × (copy_block n to from src.buffer dest.buffer
          ≡ some m.dest'.buffer)
  unfolding copy_block
  copy_block-Moves zero to from dest src rd rs room enough dest_end src_end at_to at_from =
      (moves_none f dest src rd rs, refl)
  copy_block-Moves (suc zero) to from dest src rd rs room enough dest_end src_end at_to at_from =
      let (x, got, rs', lost) = advance-IsRing f (wrapped f) (λ i lt. refl) src rs (omega arith) in
      let (e, rd', gained, (old, old_got)) =
        push-IsRing f (wrapped f) (λ i lt. refl) x dest rd (omega arith) in
      (
        moves_one f (wrapped f) (λ i lt. refl) dest src rd rs x rd' gained rs' lost (omega arith),
        copy_block-suc 0 to from dest.tail src.head src.buffer dest.buffer x old
            (at_to (omega arith)) (at_from (omega arith)) got old_got,
      )
  copy_block-Moves (suc (suc n)) to from dest src rd rs room enough dest_end src_end at_to at_from =
      let (x, got, rs', lost) = advance-IsRing f (wrapped f) (λ i lt. refl) src rs (omega arith) in
      let (e, rd', gained, (old, old_got)) =
        push-IsRing f (wrapped f) (λ i lt. refl) x dest rd (omega arith) in
      let one =
        moves_one f (wrapped f) (λ i lt. refl) dest src rd rs x rd' gained rs' lost (omega arith) in
      let tail_next : wrapped f dest.tail ≡ dest.tail + 1 = ground arith in
      let head_next : wrapped f src.head ≡ src.head + 1 = ground arith in
      let (rest, copied) =
        copy_block-Moves (suc n) (dest.tail + 1) (src.head + 1) one.dest' one.src' rd' rs'
          (omega arith) (omega arith) (rw tail_next (omega arith)) (rw head_next (omega arith))
          (λ p. sym tail_next) (λ p. sym head_next) in
      (
        moves_then f 1 (suc n) (suc (suc n)) (omega arith) one rs (omega arith) rest,
        copy_block-suc (suc n) to from dest.tail src.head src.buffer dest.buffer x old
              (at_to (omega arith)) (at_from (omega arith)) got old_got
            ∙ copied,
      )

  pub Moves-tail :
      (n : ℕ) (dest src : MergeNode V)
      → IsRing f dest
      → (m : Moves f n dest src) → ahead f dest.tail n ≡ m.dest'.tail
  Moves-tail n dest src rd m =
      let whole : dest.count + n ≤ f = omega (arith, m.dest_ring.bounded, m.dest_count) in
      ap (λ t. ahead f t n) rd.tail_is
      ∙ ahead-ahead f dest.head dest.count n rd.inside whole
      ∙ ap (ahead f dest.head) (sym m.dest_count)
      ∙ ap (λ h. ahead f h m.dest'.count) (sym m.dest_head)
      ∙ sym m.dest_ring.tail_is

  copy_blocks-cons :
      (fuel : ℕ) (d s : Block) (ds ss : List Block) (src dest dest' : List (Tuple V)) (copied c : ℕ)
      → c ≡ min d.size s.size
      → copy_block c d.start s.start src dest ≡ some dest'
      → copy_blocks (suc fuel) (d ∷ ds) (s ∷ ss) src dest copied
        ≡ copy_blocks fuel (rest_of c d ds) (rest_of c s ss) src dest' (copied + c)
  unfolding copy_blocks
  copy_blocks-cons fuel d s ds ss src dest dest' copied c least e =
      rw (least) (rw (copy_blocks, rw least at e) refl)

  -- The loop over the blocks moves tuples until the one ring is full or the other empty.
  abbrev pub Copied : ℕ → List Block → List Block → MergeNode V → MergeNode V → ℕ → Type ℓ
  Copied fuel ds ss dest src copied =
      (n : ℕ) × (m : Moves f n dest src) × (copy_blocks fuel ds ss src.buffer dest.buffer copied
        ≡ some (m.dest'.buffer, copied + n))
      × ((m.dest'.count ≡ f) ⊎ (m.src'.count ≡ 0))

  Copied-none :
      (fuel : ℕ) (ds ss : List Block) (dest src : MergeNode V) (copied : ℕ)
      → IsRing f dest
      → IsRing f src
      → copy_blocks fuel ds ss src.buffer dest.buffer copied ≡ some (dest.buffer, copied)
      → (dest.count ≡ f) ⊎ (src.count ≡ 0)
      → Copied fuel ds ss dest src copied
  Copied-none fuel ds ss dest src copied rd rs e end = (
    0,
    moves_none f dest src rd rs,
    e ∙ (let q : copied ≡ copied + 0 = omega arith in ap (λ k. some (dest.buffer, k)) q),
    end,
  )

  Copied-cons :
      (fuel : ℕ) (d s : Block) (ds ss : List Block) (dest src : MergeNode V) (copied c : ℕ)
      → c ≡ min d.size s.size
      → IsRing f src
      → (m : Moves f c dest src)
      → copy_block c d.start s.start src.buffer dest.buffer ≡ some m.dest'.buffer
      → Copied fuel (rest_of c d ds) (rest_of c s ss) m.dest' m.src' (copied + c)
      → Copied (suc fuel) (d ∷ ds) (s ∷ ss) dest src copied
  Copied-cons fuel d s ds ss dest src copied c least rs m e (n, m', e', end) = (
    c + n,
    moves_then f c n (c + n) refl m rs (omega (arith, m'.src_count, m.src_count)) m',
    copy_blocks-cons fuel d s ds ss src.buffer dest.buffer m.dest'.buffer copied c least e
        ∙ ap (λ b. copy_blocks fuel (rest_of c d ds) (rest_of c s ss) b m.dest'.buffer (copied + c))
            (sym m.src_buffer)
        ∙ e'
        ∙ (let q : copied + c + n ≡ copied + (c + n) = omega arith in
            ap (λ k. some (m'.dest'.buffer, k)) q),
    end,
  )

  pub copy_blocks-Moves :
      (fuel : ℕ) (ds ss : List Block) (dest src : MergeNode V) (copied : ℕ)
      → IsRing f dest
      → IsRing f src
      → IsRoom f dest.tail (f - dest.count) ds
      → IsRoom f src.head src.count ss
      → length ds + length ss ≤ fuel
      → Copied fuel ds ss dest src copied
  unfolding copy_blocks
  copy_blocks-Moves fuel [] ss dest src copied rd rs room stock enough =
      Copied-none fuel [] ss dest src copied rd rs refl (inl (omega (arith, rd.bounded)))
  copy_blocks-Moves fuel (d ∷ ds) [] dest src copied rd rs room stock enough =
      Copied-none fuel (d ∷ ds) [] dest src copied rd rs refl (inr stock)
  copy_blocks-Moves zero (d ∷ ds) (s ∷ ss) dest src copied rd rs room stock enough =
      absurd (omega arith)
  copy_blocks-Moves (suc fuel) (d ∷ ds) (s ∷ ss) dest src copied rd rs room stock enough =
      let c = min d.size s.size in
      let within : min d.size s.size ≤ d.size = ground arith in
      let within' : min d.size s.size ≤ s.size = ground arith in
      let (fits, ends, at, later) = room in
      let (fits', ends', at', later') = stock in
      let (m, e) =
        copy_block-Moves c d.start s.start dest src rd rs (omega (arith, fits, rd.bounded, within))
          (omega (arith, fits', within')) (omega (arith, ends, within))
          (omega (arith, ends', within')) (λ p. at (omega (arith, within)))
          (λ p. at' (omega (arith, within'))) in
      Copied-cons fuel d s ds ss dest src copied c refl rs m e (
        copy_blocks-Moves fuel (rest_of c d ds) (rest_of c s ss) m.dest' m.src' (copied + c)
          m.dest_ring m.src_ring
          (IsRoom-at f _ _ _ _ (rest_of c d ds) (Moves-tail c dest src rd m)
            (omega (arith, m.dest_count))
            (rest_of-IsRoom f dest.tail (f - dest.count) c d ds
              (ground (arith, rd.inside, rd.tail_is, rd.bounded)) within room))
          (IsRoom-at f _ _ _ _ (rest_of c s ss) (sym m.src_head) (omega (arith, m.src_count))
            (rest_of-IsRoom f src.head src.count c s ss rs.inside within' stock))
          (omega (arith, rest_of_shorter c d s ds ss refl, enough)))
