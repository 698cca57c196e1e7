-- ===== src/PageState/Threads.antt =====
-- page.hpp, `struct PageState`, shared by threads: one frame's word and the contents of its page,
-- and the steps of threads that lock, unlock, mark, write and read it optimistically
-- (buffer_manager.hpp `fixX`, `fixS`, `evict`; guards.hpp `GuardO`).
pub mod Invariant
pub mod Facts
pub mod Moves
pub mod Safety
use cloud_project.Prelude.{
  ℕ, ◌+◌, ◌^◌, ◌≤◌, ◌<◌, ◌≡◌, ◌≢◌, ◌⊎◌, Bool, true, false, some, none, Option, ◌==◌, ◌&&◌, ◌||◌,
  leb, if◌then◌else◌, shl, not,
}
use cloud_project.Prelude.Threads.{at_thread}
use cloud_project.PageState.{
  unlocked, max_shared, marked, locked, invalid, get_state, version_of, same_version, try_lock_x,
  unlock_x, unlock_x_invalid, downgrade_lock, try_lock_s, unlock_s_round, try_mark, try_upgrade,
  compare_exchange,
}

-- The word, and a number that stands for the contents of the page.
pub record Frame : Type 0 where
  pub word : ℕ
  pub contents : ℕ

-- Where a thread stands, with the words that it has loaded.
pub data Pc : Type 0 where
  idle : Pc
  seen : (old : ℕ) → Pc  -- `ht.access` has returned the word
  exclusive : Pc  -- holds the lock exclusively
  shared : Pc  -- holds it shared
  releasing : (old : ℕ) → Pc  -- in the loop of `unlockS`
  upgrading : (old : ℕ) → Pc  -- in `try_upgrade`
  reading : (version found : ℕ) → Pc  -- has a `GuardO`; `found` is what the page held at its start

-- What `checkVersionAndRestart` finds: whether the guard is still good, and the word afterwards.
unfoldable pub check_version : (version word : ℕ) → Bool × ℕ
check_version version word =
    if word == version
    then (true, word)
    else if shl word 8 == shl version 8
    then if leb (get_state word) max_shared
      then (true, word)
      else if get_state word == marked
      then compare_exchange word word (same_version word unlocked)
      else (false, word)
    else (false, word)

-- The states with which the callers of `tryLockX` call it: `fixX`, `tryPromote` and `GuardX` at an
-- unlocked or marked frame, the hash table's `insert` at an invalid one.
abbrev pub asks_exclusive : ℕ → Bool
asks_exclusive s = s == unlocked || s == marked || s == invalid

-- One step of a thread: a load, or an atomic update, or a write to the page. An attempt that fails
-- leaves the word alone, so it is a `forget`; a weak compare-exchange may also fail for no reason,
-- which is a `leave` or an `upgrade_fails_weak`.
pub data Move (f : Frame) : Pc → Frame → Pc → Type 0 where
  load : Move f idle f (seen f.word)
  forget : {old : ℕ} → Move f (seen old) f idle
  lock_x :
      {old w : ℕ}
      → asks_exclusive (get_state old) ≡ true
      → try_lock_x old f.word ≡ some (true, w)
      → Move f (seen old) (record f { word = w }) exclusive
  lock_s :
      {old w : ℕ}
      → try_lock_s old f.word ≡ (true, w)
      → Move f (seen old) (record f { word = w }) shared
  mark :
      {old w : ℕ} {b : Bool}
      → get_state old ≡ unlocked
      → try_mark old f.word ≡ some (b, w)
      → Move f (seen old) (record f { word = w }) idle
  write : (c : ℕ) → Move f exclusive (record f { contents = c }) exclusive
  release_x : {w : ℕ} → unlock_x f.word ≡ some w → Move f exclusive (record f { word = w }) idle
  release_invalid :
      {w : ℕ} → unlock_x_invalid f.word ≡ some w → Move f exclusive (record f { word = w }) idle
  downgrade :
      {w : ℕ} → downgrade_lock f.word ≡ some w → Move f exclusive (record f { word = w }) shared
  load_release : Move f shared f (releasing f.word)
  release_s :
      {old w : ℕ}
      → unlock_s_round old f.word ≡ some (true, w)
      → Move f (releasing old) (record f { word = w }) idle
  release_again :
      {old w : ℕ}
      → unlock_s_round old f.word ≡ some (false, w)
      → Move f (releasing old) (record f { word = w }) shared
  load_upgrade : Move f shared f (upgrading f.word)
  upgrade :
      {old w : ℕ}
      → try_upgrade old f.word ≡ (true, w)
      → Move f (upgrading old) (record f { word = w }) exclusive
  upgrade_fails :
      {old w : ℕ}
      → try_upgrade old f.word ≡ (false, w)
      → Move f (upgrading old) (record f { word = w }) shared
  upgrade_fails_weak : {old : ℕ} → Move f (upgrading old) f shared
  read : get_state f.word ≤ max_shared → Move f idle f (reading f.word f.contents)
  read_marked :
      get_state f.word ≡ marked
      → Move f idle
          (record f { word = same_version f.word unlocked })
          (reading (same_version f.word unlocked) f.contents)
  check :
      {version found w : ℕ}
      → check_version version f.word ≡ (true, w)
      → Move f (reading version found) (record f { word = w }) (reading version found)
  restart :
      {version found w : ℕ}
      → check_version version f.word ≡ (false, w)
      → Move f (reading version found) (record f { word = w }) idle
  leave : {version found : ℕ} → Move f (reading version found) f idle

-- `n` threads on one frame; an index from `n` on names no thread.
pub record System : Type 0 where
  pub frame : Frame
  pub pc : ℕ → Pc

pub data Step (n : ℕ) (s : System) : System → Type 0 where
  pick :
      (i : ℕ) {f : Frame} {p : Pc}
      → i < n
      → Move s.frame (s.pc i) f p
      → Step n s (record { frame = f; pc = at_thread i p s.pc })

abbrev pub fresh : ℕ → ℕ → System
fresh word contents = record {
  frame = record { word = word; contents = contents };
  pc = λ _. Pc.idle;
}

-- Reachable from a frame whose word nobody holds.
pub data Reach (n word contents : ℕ) : System → Type 0 where
  start : Reach n word contents (fresh word contents)
  later : {s t : System} → Reach n word contents s → Step n s t → Reach n word contents t

-- The run has no release at the last version, where the count starts again from 0: no step takes the
-- version down.
abbrev pub NeverWraps : {n word contents : ℕ} {s : System} → Reach n word contents s → Type 0
NeverWraps start = Unit
NeverWraps (later {s} {t} r step) =
    (version_of s.frame.word ≤ version_of t.frame.word) × NeverWraps r
