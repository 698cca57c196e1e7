-- ===== src/VersionedLock.antt =====
-- repo/PrediCache/versioned_lock.hpp: the bucket lock of the hash table, the lock bit on top of a
-- 63-bit version. A state is the word; an operation takes the word that it finds in the atomic.
pub mod Laws
mod Tests
use cloud_project.Prelude.{
  ℕ, ◌+◌, Bool, true, false, Option, none, some, ◌==◌, if◌then◌else◌, ◌>>=◌, ◌>>◌, assert, u64, shl,
  shr, bit_or,
}
use cloud_project.PageState.{compare_exchange}

abbrev pub init : ℕ
init = 0

abbrev pub is_locked : ℕ → Bool
is_locked v = shr v 63 == 1

-- `v | (1ull << 63)`
unfoldable pub with_lock_bit : ℕ → ℕ
with_lock_bit v = bit_or v (shl 1 63)

-- `tryLock(oldVersion)`
unfoldable pub try_lock_at : (old word : ℕ) → Option (Bool × ℕ)
try_lock_at old word = do
  assert (shr old 63 == 0)
  some (compare_exchange word old (with_lock_bit old))

-- `tryLock()`, with the word `v` that it has loaded.
unfoldable pub try_lock : (v word : ℕ) → Bool × ℕ
try_lock v word = if shr v 63 == 0 then compare_exchange word v (with_lock_bit v) else (false, word)

-- One round of the loop in `lock()`, with the word `v` that it has loaded: whether it returns. The
-- compare-exchange changes `v` only when it fails, and the assertion reads `v` when it succeeds.
unfoldable pub lock_round : (v word : ℕ) → Option (Bool × ℕ)
lock_round v word =
    let (won, word') = compare_exchange word v (with_lock_bit v) in
    if shr v 63 == 0
    then if won then (assert (is_locked v) >> some (true, word')) else some (false, word')
    else some (false, word)

unfoldable pub unlock : ℕ → Option ℕ
unlock word = do assert (shr word 63 == 1); some (u64 (shr (shl word 1) 1 + 1))
