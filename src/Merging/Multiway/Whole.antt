-- ===== src/Merging/Multiway/Whole.antt =====
-- The outer loop ends, and writes the merge of the streams of the two roots.
use hashing_old_archive.Prelude.{
  ℕ, zero, suc, ◌*◌, ◌<◌, ◌≤◌, ◌≡◌, refl, Bool, true, false, [], ◌++◌, some, arith, inl, inr, sym,
  ◌∙◌, ap,
}
use hashing_old_archive.Merging.{Relation}
use hashing_old_archive.Merging.Multiway.{Variant, Fifos, round, rounds}
use hashing_old_archive.Merging.Multiway.State.{IsVariant, IsTree}
use hashing_old_archive.Merging.Multiway.Work.{shape, work}
use hashing_old_archive.Merging.Multiway.Store.{remaining}
use hashing_old_archive.Merging.Multiway.Root.{round-Rounded}

module _ {ℓ} {V : Type ℓ} (f nfifos : ℕ) (variant : Variant V) (law : IsVariant f variant) where
  rounds-last :
      (fuel : ℕ) (fifos fifos' : Fifos V) (out : Relation V) (e : Bool)
      → round variant nfifos f fifos ≡ some (out, fifos', e)
      → e ≡ true
      → rounds variant nfifos f (suc fuel) fifos ≡ some (out ++ [])
  unfolding rounds
  rounds-last fuel fifos fifos' out e runs finished = rw (rounds, runs, finished) refl

  rounds-more :
      (fuel : ℕ) (fifos fifos' : Fifos V) (out rest : Relation V) (e : Bool)
      → round variant nfifos f fifos ≡ some (out, fifos', e)
      → e ≡ false
      → rounds variant nfifos f fuel fifos' ≡ some rest
      → rounds variant nfifos f (suc fuel) fifos ≡ some (out ++ rest)
  unfolding rounds
  rounds-more fuel fifos fifos' out rest e runs unfinished more =
      rw (rounds, runs, unfinished, more) refl

  pub rounds-remaining :
      (h fuel : ℕ) (fifos : Fifos V) (later : ℕ → Relation V)
      → nfifos ≡ 2 * h
      → 3 ≤ h
      → 1 < f
      → work nfifos (shape fifos) < fuel
      → IsTree f nfifos fifos later
      → rounds variant nfifos f fuel fifos ≡ some (remaining f nfifos fifos later)
  rounds-remaining h zero fifos later even deep slots enough tree = absurd (omega arith)
  rounds-remaining h (suc fuel) fifos later even deep slots enough tree =
      let (s, e, runs, end) =
        round-Rounded f nfifos variant law h fifos later even deep slots tree in
      elim end [
        | inl (unfinished, less) ↦
            rounds-more fuel fifos s.fifos' s.out (remaining f nfifos s.fifos' s.later') e runs
              unfinished
              (rounds-remaining h fuel s.fifos' s.later' even deep slots (omega arith) s.tree)
            ∙ ap some (sym s.written)
        | inr (finished, nothing) ↦
            rounds-last fuel fifos s.fifos' s.out e runs finished
            ∙ ap some (ap (λ l. s.out ++ l) (sym nothing) ∙ sym s.written)
      ]
