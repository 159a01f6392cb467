-- ===== src/RadixSpline/Serializer/Roundtrip.antt =====
-- `FromBytes` on what `ToBytes` of learned_models/rs/serializer.h writes.
use hashing_old_archive.Prelude.{
  ℕ, zero, suc, ◌+◌, ◌*◌, ◌/◌, ◌%◌, ◌^◌, ◌<◌, ◌≡◌, refl, List, [], ◌∷◌, some, Option, ltb, true,
  length, All, arith, ap,
}
use native.Mathlib.Nat.{pow-suc}
use hashing_old_archive.RadixSpline.{Coord, RadixSpline}
use hashing_old_archive.RadixSpline.Serializer.{
  write, read, counted, write_table, read_entries, read_table, write_points, read_coords,
  read_points, to_bytes, from_bytes,
}

read-write : (n v : ℕ) (later : List ℕ) → v < 256 ^ n → read n (write n v later) ≡ some (v, later)
unfolding read write
read-write zero v later h = let e : 0 ≡ v = omega (arith, h) in ap (λ x. some (x, later)) e
read-write (suc n) v later h =
    let e : 256 ^ suc n ≡ 256 ^ n * 256 = pow-suc 256 n in
    let small : v / 256 < 256 ^ n = omega (arith, e) in
    let whole : v % 256 + 256 * (v / 256) ≡ v = omega arith in
    rw (read-write n (v / 256) later small) (ap (λ x. some (x, later)) whole)

-- The count does not overflow.
counted_all {ℓ} : {A : Type ℓ} (n : ℕ) (loop : Option A) → n < 2 ^ 31 → counted n loop ≡ loop
unfolding counted
counted_all n loop lt = let e : ltb n (2 ^ 31) ≡ true = ground arith in rw e refl

read-write_entries :
    (table later : List ℕ)
    → All (λ t. t < 256 ^ 4) table
    → read_entries (length table) (write_table table later) ≡ some (table, later)
unfolding read_entries write_table
read-write_entries [] later h = refl
read-write_entries (t ∷ table) later h =
    rw (read-write 4 t (write_table table later) h.0, read-write_entries table later h.1) refl

module _ {D : Type 0} (key_bytes : ℕ) (bits : D → ℕ) (of_bits : ℕ → D) where
  -- A point fits in its bytes, and its double is determined by them.
  abbrev pub IsPortable : Coord D → Type 0
  IsPortable c = (c.x < 256 ^ key_bytes) × (bits c.y < 256 ^ 8) × (of_bits (bits c.y) ≡ c.y)

  read-write_coords :
      (points : List (Coord D)) (later : List ℕ)
      → All IsPortable points
      → read_coords key_bytes of_bits (length points) (write_points key_bytes bits points later)
        ≡ some (points, later)
  unfolding read_coords write_points
  read-write_coords [] later h = refl
  read-write_coords (c ∷ points) later h =
      rw
        (
          read-write key_bytes c.x (write 8 (bits c.y) (write_points key_bytes bits points later))
              h.0.0,
          read-write 8 (bits c.y) (write_points key_bytes bits points later) h.0.1,
          read-write_coords points later h.1,
          h.0.2,
        )
        refl

  -- What `ToBytes` writes to an empty string `FromBytes` reads back, if the keys fit in their bytes, the
  -- counts in eight, the entries of the radix table in four, each double is determined by its eight
  -- bytes, and there are fewer than 2 ^ 31 entries and points.
  pub from_bytes-to_bytes :
      (rs : RadixSpline D)
      → rs.min_key < 256 ^ key_bytes
      → rs.max_key < 256 ^ key_bytes
      → rs.num_keys < 256 ^ 8
      → rs.num_radix_bits < 256 ^ 8
      → rs.num_shift_bits < 256 ^ 8
      → rs.max_error < 256 ^ 8
      → length rs.radix_table < 2 ^ 31
      → All (λ t. t < 256 ^ 4) rs.radix_table
      → length rs.spline_points < 2 ^ 31
      → All IsPortable rs.spline_points
      → from_bytes key_bytes of_bits (to_bytes key_bytes bits rs []) ≡ some rs
  unfolding from_bytes to_bytes read_table read_points
  from_bytes-to_bytes rs a b c e f g h i j k =
      rw
        (
          read-write key_bytes rs.min_key _ a,
          read-write key_bytes rs.max_key _ b,
          read-write 8 rs.num_keys _ c,
          read-write 8 rs.num_radix_bits _ e,
          read-write 8 rs.num_shift_bits _ f,
          read-write 8 rs.max_error _ g,
          read-write 8 (length rs.radix_table) _ (omega (arith, h)),
          counted_all (length rs.radix_table) _ h,
          read-write_entries rs.radix_table _ i,
          read-write 8 (length rs.spline_points) _ (omega (arith, j)),
          counted_all (length rs.spline_points) _ j,
          read-write_coords rs.spline_points [] k,
        )
        refl
