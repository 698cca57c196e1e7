-- ===== src/FrameTable/Locks.antt =====
-- ht.hpp: the bucket's lock around an operation, and the locks of the entries.
use cloud_project.Prelude.{
  ℕ, ◌+◌, ◌/◌, ◌^◌, ◌<◌, ◌≡◌, refl, arith, true, false, Option, none, some, ==_iff, max_u64, get_or,
}
use cloud_project.PageState.{
  locked, invalid, get_state, version_of, init, try_lock_x, same_version, unlock_x_invalid,
}
use cloud_project.PageState.Laws.{unlock_x_invalid-Releases, Releases, same_version-Holds}
use cloud_project.VersionedLock.{is_locked, try_lock_at, unlock}
use cloud_project.VersionedLock.Laws.{unlock-try_lock_at, with_lock_bit_lem}
use cloud_project.FrameTable.Frames.{
  BufferFrame, Bucket, EntryQueue, Place, inlined, chained, no_frame, frames, take_frame,
  free_frame,
}
use cloud_project.FrameTable.Chain.{lookup, AreDistinct}
use cloud_project.FrameTable.Rounds.{when_locked}

-- No operation runs on the bucket; an empty inlined entry is locked by nobody.
pub record IsValid (b : Bucket) : Type 0 where
  pub ready : b.lock < 2 ^ 63
  pub distinct : AreDistinct (frames b)
  pub none_empty : lookup max_u64 b.chain ≡ none
  pub free : b.head.pid ≡ max_u64 → get_state b.head.state ≡ invalid

-- The bucket's version can be counted up.
abbrev pub HasRoom : Bucket → Type 0
HasRoom b = b.lock + 1 < 2 ^ 63

-- What stands in the queue: entries without a page.
pub record IsFreed (f : BufferFrame) : Type 0 where
  pub state : get_state f.state ≡ invalid
  pub pid : f.pid ≡ max_u64
  pub page : f.page ≡ 0

-- What the code relies on in the queue: it gives back only what was put in. `Free s` says that
-- only freed entries are in `s`.
pub record Keeps (q : EntryQueue) (Free : q.Queue → Type 0) : Type 0 where
  pub dequeued :
      (s s' : q.Queue) (f : BufferFrame)
      → Free s
      → q.try_dequeue s ≡ some (f, s')
      → IsFreed f × Free s'
  pub enqueued : (s : q.Queue) (f : BufferFrame) → IsFreed f → Free s → Free (q.enqueue f s)

abbrev pub frame_at : Place → Bucket → BufferFrame
frame_at inlined b = b.head
frame_at (chained i) b = get_or b.chain i no_frame

try_lock_lem : (v : ℕ) → v < 2 ^ 63 → try_lock_at v v ≡ some (true, v + 2 ^ 63)
unfolding try_lock_at
try_lock_lem v h =
    let open_bit : v / 2 ^ 63 ≡ 0 = omega arith in
    rw open_bit (ground (arith, with_lock_bit_lem v h))

pub when_locked_lem {ℓ} :
    {A : Type ℓ} (b : Bucket) (failed : Option A) (taken : Bucket → Option A)
    → b.lock < 2 ^ 63
    → when_locked b failed taken ≡ taken (record b { lock = b.lock + 2 ^ 63 })
unfolding when_locked
when_locked_lem b failed taken h = rw (try_lock_lem b.lock h) refl

pub unlock_lem : (v : ℕ) → v + 1 < 2 ^ 63 → unlock (v + 2 ^ 63) ≡ some (v + 1)
unlock_lem v room = (unlock-try_lock_at v (v + 2 ^ 63) room (try_lock_lem v (omega arith))).1

pub not_locked : (v : ℕ) → v < 2 ^ 63 → is_locked v ≡ false
not_locked v h = let open_bit : v / 2 ^ 63 ≡ 0 = omega arith in rw open_bit refl

-- The frame of a new entry, with its lock taken.
abbrev pub taken : (pid : ℕ) → BufferFrame → BufferFrame
taken pid f = record f { pid = pid; state = same_version f.state locked }

pub taken-locked : (pid : ℕ) (f : BufferFrame) → get_state (taken pid f).state ≡ locked
taken-locked pid f = (same_version-Holds f.state locked (omega arith)).state

pub take_frame_lem :
    (pid : ℕ) (f : BufferFrame)
    → get_state f.state ≡ invalid
    → take_frame pid f ≡ some (taken pid f)
unfolding take_frame try_lock_x
take_frame_lem pid f h = rw h (ground (arith, ==_iff f.state f.state))

pub init-invalid : get_state init ≡ invalid
unfolding init
init-invalid = refl

-- An entry that is given up; its version can be counted up.
pub free_frame_lem :
    (f : BufferFrame)
    → get_state f.state ≡ locked
    → version_of f.state + 1 < 2 ^ 56
    → (f' : BufferFrame) × (free_frame f ≡ some f')
      × IsFreed f'
      × (version_of f'.state ≡ version_of f.state + 1)
unfolding free_frame
free_frame_lem f held room =
    go (unlock_x_invalid f.state) refl (unlock_x_invalid-Releases f.state held room)
  where
    go :
        (o : Option ℕ)
        → unlock_x_invalid f.state ≡ o
        → Releases f.state invalid o
        → (f' : BufferFrame) × (free_frame f ≡ some f')
          × IsFreed f'
          × (version_of f'.state ≡ version_of f.state + 1)
    go none e r = absurd r
    go (some w) e r = (
      record f { pid = max_u64; page = 0; state = w },
      rw e refl,
      record { state = r.state; pid = refl; page = refl },
      r.version,
    )
