-- ===== src/RadixSpline/Serializer.antt =====
-- `Serializer` of learned_models/rs/serializer.h on a little-endian machine. A byte is a number below
-- 256, a key has `key_bytes` bytes, and the eight bytes of a double are a number by `bits`.
pub mod Roundtrip
use hashing_old_archive.Prelude.{
  ℕ, zero, suc, ◌+◌, ◌*◌, ◌/◌, ◌%◌, List, [], ◌∷◌, ◌++◌, Option, none, some, length, ◌^◌, ltb,
  if◌then◌else◌,
}
use hashing_old_archive.RadixSpline.{Coord, RadixSpline}

-- `buffer.write` of the `n` bytes of a number, before what is written later.
unfoldable pub write : ℕ → ℕ → List ℕ → List ℕ
write zero v later = later
write (suc n) v later = (v % 256) ∷ write n (v / 256) later

-- `in.read` of `n` bytes; none when the stream ends before.
unfoldable pub read : ℕ → List ℕ → Option (ℕ × List ℕ)
read zero stream = some (0, stream)
read (suc n) [] = none
read (suc n) (c ∷ stream) = elim (read n stream) [
  | none ↦ none
  | some (v, rest) ↦ some (c + 256 * v, rest)
]

-- A read, and what goes on with the value and the rest of the stream.
abbrev pub and_then {ℓ κ} :
    {A : Type ℓ} {B : Type κ} → Option (A × List ℕ) → (A → List ℕ → Option B) → Option B
and_then none next = none
and_then (some (a, stream)) next = next a stream

unfoldable pub write_table : List ℕ → List ℕ → List ℕ
write_table [] later = later
write_table (t ∷ table) later = write 4 t (write_table table later)

-- The loops of `FromBytes` count in an `int`, which overflows on 2 ^ 31 entries or more: none there.
unfoldable pub counted {ℓ} : {A : Type ℓ} → ℕ → Option A → Option A
counted n loop = if ltb n (2 ^ 31) then loop else none

-- The rounds of the loop over `n` entries.
unfoldable pub read_entries : ℕ → List ℕ → Option (List ℕ × List ℕ)
read_entries zero stream = some ([], stream)
read_entries (suc n) stream =
    and_then (read 4 stream)
      λ t stream. and_then (read_entries n stream) λ table stream. some (t ∷ table, stream)

unfoldable pub read_table : ℕ → List ℕ → Option (List ℕ × List ℕ)
read_table radix_table_size stream = counted radix_table_size (read_entries radix_table_size stream)

module _ {D : Type 0} (key_bytes : ℕ) where
  unfoldable pub write_points : (D → ℕ) → List (Coord D) → List ℕ → List ℕ
  write_points bits [] later = later
  write_points bits (c ∷ points) later =
      write key_bytes c.x (write 8 (bits c.y) (write_points bits points later))

  unfoldable pub read_coords : (ℕ → D) → ℕ → List ℕ → Option (List (Coord D) × List ℕ)
  read_coords of_bits zero stream = some ([], stream)
  read_coords of_bits (suc n) stream = and_then (read key_bytes stream) λ x stream.
      and_then (read 8 stream) λ y stream.
        and_then (read_coords of_bits n stream)
          λ points stream. some (record { x = x; y = of_bits y } ∷ points, stream)

  unfoldable pub read_points : (ℕ → D) → ℕ → List ℕ → Option (List (Coord D) × List ℕ)
  read_points of_bits spline_points_size stream =
      counted spline_points_size (read_coords of_bits spline_points_size stream)

  -- `ToBytes`, which appends to `bytes`.
  unfoldable pub to_bytes : (D → ℕ) → RadixSpline D → List ℕ → List ℕ
  to_bytes bits rs bytes =
      bytes
      ++ write key_bytes rs.min_key (
          write key_bytes rs.max_key (
            write 8 rs.num_keys (
              write 8 rs.num_radix_bits (
                write 8 rs.num_shift_bits (
                  write 8 rs.max_error (
                    write 8 (length rs.radix_table) (
                      write_table rs.radix_table (
                        write 8 (length rs.spline_points)
                          (write_points bits rs.spline_points [])))))))))

  -- `FromBytes`, which reads from the start of `bytes`; none where the source would go on with
  -- members that it has not read.
  unfoldable pub from_bytes : (ℕ → D) → List ℕ → Option (RadixSpline D)
  from_bytes of_bits bytes = and_then (read key_bytes bytes) λ min_key s.
      and_then (read key_bytes s) λ max_key s. and_then (read 8 s) λ num_keys s.
        and_then (read 8 s) λ num_radix_bits s. and_then (read 8 s) λ num_shift_bits s.
          and_then (read 8 s) λ max_error s. and_then (read 8 s) λ radix_table_size s.
            and_then (read_table radix_table_size s) λ radix_table s.
              and_then (read 8 s) λ spline_points_size s.
                and_then (read_points of_bits spline_points_size s) λ spline_points s.
                  some (record {
                    min_key = min_key;
                    max_key = max_key;
                    num_keys = num_keys;
                    num_radix_bits = num_radix_bits;
                    num_shift_bits = num_shift_bits;
                    max_error = max_error;
                    radix_table = radix_table;
                    spline_points = spline_points;
                  })
