-- ===== src/VersionedLock/Tests.antt =====
-- Runs of the bucket lock, and its theorems at concrete words.
use cloud_project.Prelude.{
  ℕ, ◌⊎◌, ◌<◌, ◌≤◌, ◌+◌, ◌^◌, ◌≡◌, ◌≢◌, refl, true, false, some, none, arith,
}
use cloud_project.VersionedLock.{
  is_locked, with_lock_bit, try_lock_at, try_lock, lock_round, unlock,
}
use cloud_project.VersionedLock.Laws.{
  Attempt, try_lock_at-Attempt, unlock-try_lock_at, lock_round-aborts, lock_round_never,
}

runs :
    (try_lock 5 5 ≡ (true, 2 ^ 63 + 5))
    × (try_lock (2 ^ 63) (2 ^ 63) ≡ (false, 2 ^ 63))
    × (try_lock_at 5 6 ≡ some (false, 6))
    × (unlock 5 ≡ none)
    × (lock_round 5 6 ≡ some (false, 6))
unfolding try_lock try_lock_at unlock lock_round with_lock_bit
runs = (refl, refl, refl, refl, refl)

try_lock_at-Attempt_example : Attempt 5 5 (try_lock_at 5 5)
try_lock_at-Attempt_example = try_lock_at-Attempt 5 5 (omega arith)

unlock-try_lock_at_example : (is_locked (2 ^ 63 + 5) ≡ true) × (unlock (2 ^ 63 + 5) ≡ some 6)
unfolding try_lock_at with_lock_bit
unlock-try_lock_at_example = unlock-try_lock_at 5 (2 ^ 63 + 5) (omega arith) refl

lock_round-aborts_example : lock_round 5 5 ≡ none
lock_round-aborts_example = lock_round-aborts 5 (omega arith)

lock_round_never_example :
    ((◌≡◌ {A = ℕ} 6 5) × (5 < 2 ^ 63) → lock_round 5 6 ≡ none)
    × ((◌≢◌ {A = ℕ} 6 5) ⊎ (2 ^ 63 ≤ 5) → lock_round 5 6 ≡ some (false, 6))
lock_round_never_example = lock_round_never 5 6 (omega arith)
