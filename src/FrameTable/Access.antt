-- ===== src/FrameTable/Access.antt =====
-- ht.hpp, HTBufferManager::access: the entry of a page id, and why no entry is ever moved to the head.
use cloud_project.Prelude.{
  ℕ, ◌≡◌, refl, arith, Bool, true, false, Option, none, some, ◌==◌, Bool-cases, inl, inr, get_or,
}
use cloud_project.Prelude.Bits.{bit_and-zero}
use cloud_project.FrameTable.Frames.{
  BufferFrame, Bucket, EntryQueue, Place, inlined, chained, frames, position, no_frame,
}
use cloud_project.FrameTable.Chain.{lookup, Finds, position-Finds}
use cloud_project.FrameTable.Rounds.{answer, chance, access_chained, access_round}
use cloud_project.FrameTable.Locks.{IsValid, frame_at, not_locked}

-- What `access` is to return for what the bucket has.
pub data Answers (b : Bucket) : Option BufferFrame → Option (Place × ℕ) → Type 0 where
  missing : Answers b none none
  found :
      (place : Place) (f : BufferFrame)
      → frame_at place b ≡ f
      → Answers b (some f) (some (place, f.state))

-- The mask is 0, whatever the random number is.
chance_never : (random : ℕ) → chance random ≡ false
unfolding chance
chance_never random = rw (bit_and-zero random) refl

access_chained_lem :
    (q : EntryQueue) (move : Bool) (random i : ℕ) (b : Bucket) (entries : q.Queue)
    → access_chained q move random i b entries
      ≡ some (answer (some (chained i, (get_or b.chain i no_frame).state), b, entries))
unfolding access_chained
access_chained_lem q false random i b entries = refl
access_chained_lem q true random i b entries = rw (chance_never random) (ground arith)

-- Behind the inlined entry.
record Behind (q : EntryQueue) (move : Bool) (random pid : ℕ) (b : Bucket) (entries : q.Queue)
    : Type 0 where
  reply : Option (Place × ℕ)
  step : access_round q move random pid b entries ≡ some (answer (reply, b, entries))
  answers : Answers b (lookup pid b.chain) reply

behind :
    (q : EntryQueue) (move : Bool) (random pid : ℕ) (b : Bucket) (entries : q.Queue)
    → IsValid b
    → (b.head.pid == pid) ≡ false
    → Behind q move random pid b entries
unfolding access_round
behind q move random pid b entries v other =
    go (position pid b.chain) refl (position-Finds pid b.chain)
  where
    go :
        (o : Option ℕ)
        → position pid b.chain ≡ o
        → Finds pid b.chain o
        → Behind q move random pid b entries
    go none e n = record {
      reply = none;
      step = rw (not_locked b.lock v.ready, other, e) refl;
      answers = rw n missing;
    }
    go (some i) e n = record {
      reply = some (chained i, (get_or b.chain i no_frame).state);
      step =
          rw (not_locked b.lock v.ready, other, e) (access_chained_lem q move random i b entries);
      answers = rw n.1 (found (chained i) (get_or b.chain i no_frame) refl);
    }

-- Whatever the random number is, `access` returns the entry of the page id with its word, or the
-- null pointer when there is none, and changes neither the bucket nor the queue: the branch that
-- moves an entry to the head is never taken.
pub access_round-Answers :
    (q : EntryQueue) (move : Bool) (random pid : ℕ) (b : Bucket) (entries : q.Queue)
    → IsValid b
    → (reply : Option (Place × ℕ)) × (access_round q move random pid b entries
        ≡ some (answer (reply, b, entries)))
      × Answers b (lookup pid (frames b)) reply
unfolding access_round lookup
access_round-Answers q move random pid b entries v = elim (Bool-cases (b.head.pid == pid)) [
  | inl here ↦ (
    some (inlined, b.head.state),
    rw (not_locked b.lock v.ready, here) refl,
    rw here (found inlined b.head refl),
  )
  | inr other ↦
      let r = behind q move random pid b entries v other in (r.reply, r.step, rw other r.answers)
]
