-- ===== src/Locking/Tests.antt =====
-- Two threads on one lock.
use hashing_old_archive.Prelude.{◌≡◌, refl, true, false, arith}
use hashing_old_archive.Locking.{Machine, tas, mark, try_lock, Steps, stay, locking, unused}
use hashing_old_archive.Locking.Exclusion.{Steps-alone}

-- The first thread enters, and the second one stays outside.
abbrev after_both : Machine
after_both = try_lock 1 (try_lock 0 unused)

after_both-Steps : Steps unused after_both
unfolding try_lock tas mark
after_both-Steps =
    locking 0 unused after_both refl
      (locking 1 (try_lock 0 unused) after_both refl (stay after_both))

first_inside : after_both.inside 0 ≡ true
unfolding try_lock tas mark
first_inside = refl

Steps-alone_example : (after_both.inside 1 ≡ false) × ((try_lock 1 after_both).inside 1 ≡ false)
Steps-alone_example =
    Steps-alone after_both 0 1 after_both-Steps first_inside (λ e. absurd (ground arith))
