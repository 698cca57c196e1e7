-- ===== src/PageState.antt =====
-- repo/PrediCache/page.hpp, `struct PageState`: a hybrid lock in one 64-bit word, the state in the
-- high byte and a version in the 56 bits below it. A state is a word; an operation takes the word
-- that it finds in the atomic and returns the word that it leaves there.
pub mod Laws
pub mod Threads
mod Tests
use cloud_project.Prelude.{
  ℕ, ◌+◌, ◌-◌, ◌%◌, ◌^◌, Bool, true, false, ◌&&◌, ◌||◌, Option, none, some, ltb, leb, ◌==◌,
  if◌then◌else◌, ◌>>=◌, ◌>>◌, assert, u64, shl, shr, bit_or,
}

abbrev pub unlocked : ℕ
unlocked = 0

abbrev pub max_shared : ℕ
max_shared = 252

abbrev pub marked : ℕ
marked = 253

abbrev pub locked : ℕ
locked = 254

abbrev pub invalid : ℕ
invalid = 255

abbrev pub get_state : ℕ → ℕ
get_state v = shr v 56

-- What lies below the state byte.
abbrev pub version_of : ℕ → ℕ
version_of v = v % 2 ^ 56

unfoldable pub same_version : ℕ → ℕ → ℕ
same_version old new_state = bit_or (shr (shl old 8) 8) (shl new_state 56)

unfoldable pub next_version : ℕ → ℕ → ℕ
next_version old new_state = bit_or (u64 (shr (shl old 8) 8 + 1)) (shl new_state 56)

unfoldable pub init : ℕ
unfolding same_version
init = same_version 0 invalid

-- The atomic's `compare_exchange_strong`: whether it wrote, and the word that is there afterwards.
abbrev pub compare_exchange : ℕ → ℕ → ℕ → Bool × ℕ
compare_exchange word expected desired = if word == expected then (true, desired) else (false, word)

unfoldable pub try_lock_x : (old word : ℕ) → Option (Bool × ℕ)
try_lock_x old word = do
  assert (get_state old == unlocked || ltb max_shared (get_state old))
  some (compare_exchange word old (same_version old locked))

unfoldable pub unlock_x : ℕ → Option ℕ
unlock_x word = do assert (get_state word == locked); some (next_version word unlocked)

unfoldable pub unlock_x_invalid : ℕ → Option ℕ
unlock_x_invalid word = do assert (get_state word == locked); some (next_version word invalid)

unfoldable pub downgrade_lock : ℕ → Option ℕ
downgrade_lock word = do assert (get_state word == locked); some (next_version word 1)

unfoldable pub try_lock_s : (old word : ℕ) → Bool × ℕ
try_lock_s old word =
    if ltb (get_state old) max_shared
    then compare_exchange word old (same_version old (get_state old + 1))
    else if get_state old == marked
    then compare_exchange word old (same_version old 1)
    else (false, word)

-- One round of the loop in `unlockS`, with the word that the round has loaded.
unfoldable pub unlock_s_round : (old word : ℕ) → Option (Bool × ℕ)
unlock_s_round old word = do
  assert (ltb 0 (get_state old) && leb (get_state old) max_shared)
  some (compare_exchange word old (same_version old (get_state old - 1)))

unfoldable pub try_mark : (old word : ℕ) → Option (Bool × ℕ)
try_mark old word = do
  assert (get_state old == unlocked)
  some (compare_exchange word old (same_version old marked))

-- The eviction's step from a shared lock to the exclusive one (buffer_manager.hpp).
unfoldable pub try_upgrade : (old word : ℕ) → Bool × ℕ
try_upgrade old word =
    if get_state old == 1
    then compare_exchange word old (same_version old locked)
    else (false, word)
