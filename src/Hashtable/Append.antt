-- ===== src/Hashtable/Append.antt =====
-- Buckets in a row: how seeking, storing and packing act on two buckets one after the other.
use mathlib.Core.Option.{or_else}
use hashing_old_archive.Prelude.{ℕ, ◌≡◌, ◌≢◌, refl, List, [], ◌∷◌, ◌++◌, none, arith}
use hashing_old_archive.Hashtable.Slots.{
  Slot, Stored, stored, duplicate, full, store, seek, AllFree, IsPacked,
}

module _ {ℓ} {V : Type ℓ} where
  pub seek-append : (q : ℕ) (b c : List (Slot V)) → seek q (b ++ c) ≡ or_else (seek q b) (seek q c)
  unfolding seek or_else
  seek-append q [] c = refl
  seek-append q (s ∷ b) c = ground (arith, seek-append q b c)

  -- What storing in the second bucket makes of both, if the first is full.
  abbrev pub behind : List (Slot V) → Stored V → Stored V
  behind b (stored c) = stored (b ++ c)
  behind b duplicate = duplicate
  behind b full = full

  -- What storing in the first bucket makes of both, if the first is not full.
  abbrev pub in_front : List (Slot V) → Stored V → Stored V → Stored V
  in_front c (stored b) later = stored (b ++ c)
  in_front c duplicate later = duplicate
  in_front c full later = later

  pub store-append :
      (sentinel k : ℕ) (v : V) (b c : List (Slot V))
      → store sentinel k v (b ++ c)
        ≡ in_front c (store sentinel k v b) (behind b (store sentinel k v c))
  unfolding store
  store-append sentinel k v [] c = ground arith
  store-append sentinel k v (s ∷ b) c = ground (arith, store-append sentinel k v b c)

module _ {ℓ} {V : Type ℓ} (sentinel : ℕ) where
  pub AllFree-append_right : (b c : List (Slot V)) → AllFree sentinel (b ++ c) → AllFree sentinel c
  AllFree-append_right [] c h = h
  AllFree-append_right (s ∷ b) c h = AllFree-append_right b c h.1

  AllFree-append_left : (b c : List (Slot V)) → AllFree sentinel (b ++ c) → AllFree sentinel b
  AllFree-append_left [] c h = tt
  AllFree-append_left (s ∷ b) c h = (h.0, AllFree-append_left b c h.1)

  pub IsPacked-append_left :
      (b c : List (Slot V)) → IsPacked sentinel (b ++ c) → IsPacked sentinel b
  IsPacked-append_left [] c h = tt
  IsPacked-append_left (s ∷ b) c h =
      (λ e. AllFree-append_left b c (h.0 e), IsPacked-append_left b c h.1)

  pub IsPacked-append_right :
      (b c : List (Slot V)) → IsPacked sentinel (b ++ c) → IsPacked sentinel c
  IsPacked-append_right [] c h = h
  IsPacked-append_right (s ∷ b) c h = IsPacked-append_right b c h.1

  -- Behind a bucket with room all slots are free.
  pub free_behind_room :
      (b c : List (Slot V))
      → IsPacked sentinel (b ++ c)
      → seek sentinel b ≢ none
      → AllFree sentinel c
  unfolding seek
  free_behind_room [] c h room = absurd (room refl)
  free_behind_room (s ∷ b) c h room =
      ground (arith, AllFree-append_right b c, free_behind_room b c h.1)

  pub IsPacked-append_full :
      (b c : List (Slot V))
      → seek sentinel b ≡ none
      → IsPacked sentinel c
      → IsPacked sentinel (b ++ c)
  unfolding seek
  IsPacked-append_full [] c h p = p
  IsPacked-append_full (s ∷ b) c h p = (ground arith, IsPacked-append_full b c (ground arith) p)
