-- ===== src/Merging/Copy/Moves.antt =====
-- Moves of tuples from ring to ring.
use mathlib.Core.List.{append_assoc, append-nil}
use hashing_old_archive.Prelude.{ℕ, ◌+◌, ◌<◌, ◌≤◌, ◌≡◌, refl, [], ◌∷◌, ◌++◌, arith, sym, ◌∙◌, ap}
use hashing_old_archive.Merging.{Tuple, Relation}
use hashing_old_archive.Merging.Ring.{MergeNode, advance}
use hashing_old_archive.Merging.Ring.Window.{ahead, ahead-ahead, wrapped}
use hashing_old_archive.Merging.Ring.Steps.{IsRing, tuples, pushed}

-- A round uses up the smaller block.

module _ {ℓ} {V : Type ℓ} (f : ℕ) where
  -- `n` tuples go from the head of one ring to the tail of another.
  pub record Moves (n : ℕ) (dest src : MergeNode V) : Type ℓ where
    pub dest' : MergeNode V
    pub src' : MergeNode V
    pub moved : Relation V
    pub dest_ring : IsRing f dest'
    pub src_ring : IsRing f src'
    pub gained : tuples f dest' ≡ tuples f dest ++ moved
    pub lost : tuples f src ≡ moved ++ tuples f src'
    pub dest_count : dest'.count ≡ dest.count + n
    pub src_count : src.count ≡ src'.count + n
    pub dest_head : dest'.head ≡ dest.head
    pub src_head : src'.head ≡ ahead f src.head n
    pub src_buffer : src'.buffer ≡ src.buffer
    pub src_tail : src'.tail ≡ src.tail

  abbrev pub moves_none : (dest src : MergeNode V) → IsRing f dest → IsRing f src → Moves 0 dest src
  moves_none dest src rd rs = record {
    dest' = dest;
    src' = src;
    moved = [];
    dest_ring = rd;
    src_ring = rs;
    gained = sym (append-nil (tuples f dest));
    lost = refl;
    dest_count = omega arith;
    src_count = omega arith;
    dest_head = refl;
    src_head = ground (arith, rs.inside);
    src_buffer = refl;
    src_tail = refl;
  }

  abbrev pub moves_then :
      (n m p : ℕ)
      → n + m ≡ p
      → {dest src : MergeNode V} (first : Moves n dest src) → IsRing f src
      → p ≤ src.count
      → Moves m first.dest' first.src'
      → Moves p dest src
  moves_then n m p sum {dest} {src} first ring enough next = record {
    dest' = next.dest';
    src' = next.src';
    moved = first.moved ++ next.moved;
    dest_ring = next.dest_ring;
    src_ring = next.src_ring;
    gained =
        next.gained
        ∙ ap (λ l. l ++ next.moved) first.gained
        ∙ append_assoc (tuples f dest) first.moved next.moved;
    lost =
        first.lost
        ∙ ap (λ l. first.moved ++ l) next.lost
        ∙ sym (append_assoc first.moved next.moved (tuples f next.src'));
    dest_count = omega (arith, next.dest_count, first.dest_count);
    src_count = omega (arith, next.src_count, first.src_count);
    dest_head = next.dest_head ∙ first.dest_head;
    src_head =
        next.src_head
        ∙ ap (λ h. ahead f h m) first.src_head
        ∙ ahead-ahead f src.head n m ring.inside (omega (arith, ring.bounded))
        ∙ ap (ahead f src.head) sum;
    src_buffer = next.src_buffer ∙ first.src_buffer;
    src_tail = next.src_tail ∙ first.src_tail;
  }

  module _ (next : ℕ → ℕ) (law : (index : ℕ) → index < f → next index ≡ wrapped f index) where
    abbrev pub moves_one :
        (dest src : MergeNode V)
        → IsRing f dest
        → IsRing f src
        → (x : Tuple V) → IsRing f (pushed f next law x dest)
        → (tuples f (pushed f next law x dest) ≡ tuples f dest ++ (x ∷ []))
        → IsRing f (advance next src)
        → tuples f src ≡ x ∷ tuples f (advance next src)
        → 0 < src.count
        → Moves 1 dest src
    moves_one dest src rd rs x rd' gained rs' lost some_left = record {
      dest' = pushed f next law x dest;
      src' = advance next src;
      moved = x ∷ [];
      dest_ring = rd';
      src_ring = rs';
      gained = gained;
      lost = lost;
      dest_count = refl;
      src_count = omega arith;
      dest_head = refl;
      src_head = law src.head rs.inside ∙ ground (arith, rs.inside);
      src_buffer = refl;
      src_tail = refl;
    }
