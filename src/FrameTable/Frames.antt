-- ===== src/FrameTable/Frames.antt =====
-- buffer_frame.hpp, and the entries and buckets of ht.hpp. A frame's page is a number, 0 for no page,
-- and its state the word of PageState.
use cloud_project.Prelude.{
  ℕ, zero, suc, Bool, true, false, Option, none, some, List, [], ◌∷◌, ◌==◌, if◌then◌else◌, ◌>>=◌,
  ◌>>◌, assert, max_u64,
}
use cloud_project.PageState.{invalid, get_state, init, try_lock_x, unlock_x_invalid}

pub record BufferFrame : Type 0 where
  pub pid : ℕ
  pub page : ℕ
  pub state : ℕ
  pub intended_slot : Bool

-- All but the state is moved; the second frame is what is left of `other`.
unfoldable pub move_contents : (frame other : BufferFrame) → BufferFrame × BufferFrame
move_contents frame other = (
  record frame { pid = other.pid; page = other.page; intended_slot = other.intended_slot },
  record other { pid = max_u64; page = 0; intended_slot = false },
)

-- The queue of freed entries, of the code's third-party library.
pub record EntryQueue : Type 1 where
  pub Queue : Type 0
  pub try_dequeue : Queue → Option (BufferFrame × Queue)
  pub enqueue : BufferFrame → Queue → Queue

pub record Bucket : Type 0 where
  pub lock : ℕ
  pub head : BufferFrame
  pub chain : List BufferFrame

-- `Entry(max, nullptr, …)` with `state.init()`, and `ChainHead`.
abbrev pub fresh_frame : (pid : ℕ) → BufferFrame
fresh_frame pid = record { pid = pid; page = 0; state = init; intended_slot = false }

abbrev pub fresh_bucket : Bucket
fresh_bucket = record { lock = 0; head = fresh_frame max_u64; chain = [] }

-- Which entry of a bucket a pointer is to.
pub data Place : Type 0 where
  inlined : Place
  chained : ℕ → Place

abbrev pub next : Option ℕ → Option ℕ
next none = none
next (some i) = some (suc i)

-- The walk over the entries: the first one with the page id.
unfoldable pub position : (pid : ℕ) → List BufferFrame → Option ℕ
position pid [] = none
position pid (f ∷ fs) = if f.pid == pid then some 0 else next (position pid fs)

abbrev pub no_frame : BufferFrame
no_frame = record { pid = max_u64; page = 0; state = 0; intended_slot = false }

abbrev pub frames : Bucket → List BufferFrame
frames b = b.head ∷ b.chain

abbrev pub contains : (pid : ℕ) → List BufferFrame → Bool
contains pid fs = elim (position pid fs) [ none ↦ false | some i ↦ true ]

-- The new entry of a page: its lock is taken from `invalid`.
unfoldable pub take_frame : (pid : ℕ) → BufferFrame → Option BufferFrame
take_frame pid f = do
  assert (get_state f.state == invalid)
  r ← try_lock_x f.state f.state
  assert r.0
  some (record f { pid = pid; state = r.1 })

unfoldable pub unchain : ℕ → List BufferFrame → List BufferFrame
unchain i [] = []
unchain zero (f ∷ fs) = fs
unchain (suc i) (f ∷ fs) = f ∷ unchain i fs

-- `entry->bf.pid = max; page = nullptr; unlockXInvalid()`
unfoldable pub free_frame : BufferFrame → Option BufferFrame
free_frame f = do
  word ← unlock_x_invalid f.state
  some (record f { pid = max_u64; page = 0; state = word })
