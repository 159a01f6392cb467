-- ===== src/Locking.antt =====
-- The spin lock of learned_models/learned_imv_threaded_hashing/include/utils/lock.h, with the threads that
-- use it as steps of one machine. The exchange of `tas` is one instruction and so one step.
pub mod Exclusion
mod Tests
use hashing_old_archive.Prelude.{ℕ, ◌+◌, ◌%◌, ◌^◌, ◌≡◌, Bool, true, false, ◌==◌, if◌then◌else◌}

-- What the exchange returns and what the lock holds after it.
unfoldable pub tas : ℕ → ℕ × ℕ
tas held = (held, 1)

unfoldable pub unlock : ℕ → ℕ
unlock held = 0

-- The value of the lock, and which threads have returned from `lock` and not yet called `unlock`.
pub record Machine : Type 0 where
  pub value : ℕ
  pub inside : ℕ → Bool

-- A thread's flag is set.
unfoldable pub mark : ℕ → Bool → (ℕ → Bool) → ℕ → Bool
mark thread flag inside other = if other == thread then flag else inside other

-- One round of the loop of `lock`: the loop ends when `tas` returns 0.
unfoldable pub try_lock : ℕ → Machine → Machine
try_lock thread m =
    let (res, value) = tas m.value in
    if res == 0
    then record { value = value; inside = mark thread true m.inside }
    else record m { value = value }

unfoldable pub leave : ℕ → Machine → Machine
leave thread m = record { value = unlock m.value; inside = mark thread false m.inside }

-- A thread that is not inside tries to lock; one that is inside unlocks.
pub data Steps : Machine → Machine → Type 0 where
  stay : (m : Machine) → Steps m m
  locking :
      (thread : ℕ) (m n : Machine)
      → m.inside thread ≡ false
      → Steps (try_lock thread m) n
      → Steps m n
  unlocking :
      (thread : ℕ) (m n : Machine) → m.inside thread ≡ true → Steps (leave thread m) n → Steps m n

abbrev pub unused : Machine
unused = record { value = 0; inside = λ thread. false }
