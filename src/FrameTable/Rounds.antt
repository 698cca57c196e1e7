-- ===== src/FrameTable/Rounds.antt =====
-- ht.hpp: one round of the loops of insert, remove and access.
use cloud_project.Prelude.{
  ℕ, Bool, true, false, not, ◌&&◌, Option, none, some, ◌∷◌, ◌==◌, if◌then◌else◌, ◌>>=◌, ◌>>◌,
  assert, max_u64, get_or, bit_and,
}
use cloud_project.PageState.{locked, unlocked, get_state, try_lock_x, unlock_x, unlock_x_invalid}
use cloud_project.VersionedLock.{is_locked, try_lock_at, unlock}
use cloud_project.FrameTable.Frames.{
  BufferFrame, EntryQueue, Bucket, fresh_frame, Place, inlined, chained, position, no_frame, frames,
  contains, take_frame, unchain, free_frame, move_contents,
}

-- What a round of a loop ends with: the next round, or `return`.
pub data Round {ℓ} (A : Type ℓ) : Type ℓ where
  restart : Round A
  answer : A → Round A

-- `bucket.lock.tryLock(v)`: what follows with the lock, and without.
unfoldable pub when_locked {ℓ} :
    {A : Type ℓ} (b : Bucket) (failed : Option A) (taken : Bucket → Option A) → Option A
when_locked b failed taken = do
  r ← try_lock_at b.lock b.lock
  (if r.0 then taken (record b { lock = r.1 }) else failed)

abbrev pub returned {ℓ} : {A : Type ℓ} → Option A → Option (Round A)
returned none = none
returned (some a) = some (answer a)

-- `getRandU64() & 7 == 0`, as a condition: the comparison binds before the mask.
unfoldable pub chance : (random : ℕ) → Bool
chance random = not (bit_and random (if 7 == 0 then 1 else 0) == 0)

-- `stateBefore == Unlocked && tryLockX(vEntry)`
unfoldable pub try_unlocked : (word : ℕ) → Option (Bool × ℕ)
try_unlocked word = if get_state word == unlocked then try_lock_x word word else some (false, word)

module _ (q : EntryQueue) where
  open q use {Queue, try_dequeue, enqueue}

  -- An entry that was freed, or a new one.
  unfoldable pub new_entry : (pid : ℕ) → Queue → BufferFrame × Queue
  new_entry pid entries = or_fresh (try_dequeue entries)
    where
      or_fresh : Option (BufferFrame × Queue) → BufferFrame × Queue
      or_fresh none = (fresh_frame pid, entries)
      or_fresh (some r) = r

  -- `insert` behind its `tryLock`, where the inlined entry is free, and where it is not.
  unfoldable pub insert_inlined :
      (pid : ℕ) → Bucket → Queue → Option (Option Place × Bucket × Queue)
  insert_inlined pid b entries = do
    f ← take_frame pid b.head
    word ← unlock b.lock
    assert (get_state f.state == locked)
    some (some inlined, record b { lock = word; head = f }, entries)

  unfoldable pub insert_chained :
      (pid : ℕ) → Bucket → Queue → Option (Option Place × Bucket × Queue)
  insert_chained pid b entries = do
    f ← take_frame pid (new_entry pid entries).0
    word ← unlock b.lock
    assert (get_state f.state == locked)
    some
        (some (chained 0), record b { lock = word; chain = f ∷ b.chain }, (new_entry pid entries).1)

  unfoldable pub insert_locked : (pid : ℕ) → Bucket → Queue → Option (Option Place × Bucket × Queue)
  insert_locked pid b entries =
      assert (not (contains pid (frames b)))
      >> (if b.head.pid == max_u64
          then insert_inlined pid b entries
          else insert_chained pid b entries)

  unfoldable pub insert_round :
      (pid : ℕ) → Bucket → Queue → Option (Round (Option Place × Bucket × Queue))
  insert_round pid b entries =
      if is_locked b.lock
      then some restart
      else if contains pid (frames b)
      then some (answer (none, b, entries))
      else when_locked b (some restart) (λ b'. returned (insert_locked pid b' entries))

  -- `remove` behind its `tryLock`: the inlined entry, the one at `i` of the chain, and none.
  unfoldable pub remove_inlined : Bucket → Queue → Option (Bool × Bucket × Queue)
  remove_inlined b entries = do
    assert (get_state b.head.state == locked)
    f ← free_frame b.head
    word ← unlock b.lock
    some (true, record b { lock = word; head = f }, entries)

  unfoldable pub remove_chained : (i : ℕ) → Bucket → Queue → Option (Bool × Bucket × Queue)
  remove_chained i b entries = do
    assert (get_state (get_or b.chain i no_frame).state == locked)
    word ← unlock b.lock
    f ← free_frame (get_or b.chain i no_frame)
    some (true, record b { lock = word; chain = unchain i b.chain }, enqueue f entries)

  unfoldable pub remove_missing : Bucket → Queue → Option (Bool × Bucket × Queue)
  remove_missing b entries = do
    word ← unlock b.lock
    some (false, record b { lock = word }, entries)

  unfoldable pub remove_locked : (pid : ℕ) → Bucket → Queue → Option (Bool × Bucket × Queue)
  remove_locked pid b entries =
      if b.head.pid == pid then remove_inlined b entries else elim (position pid b.chain) [
        | none ↦ remove_missing b entries
        | some i ↦ remove_chained i b entries
      ]

  unfoldable pub remove_round : (pid : ℕ) → Bucket → Queue → Option (Round (Bool × Bucket × Queue))
  remove_round pid b entries =
      if is_locked b.lock
      then some restart
      else when_locked b (some restart) (λ b'. returned (remove_locked pid b' entries))

  -- `access` where it moves the entry `cur` at `i` to the empty head; the bucket is locked. First
  -- the part with both locks held, the words of which are given, and then the part where the
  -- entry's lock was not to be had.
  unfoldable pub move_entry :
      (i head_word cur_word : ℕ) → Bucket → Queue → Option ((Place × ℕ) × Bucket × Queue)
  move_entry i head_word cur_word b entries = do
    let m = move_contents b.head (get_or b.chain i no_frame)
    freed ← unlock_x_invalid cur_word
    taken ← unlock_x head_word
    word ← unlock b.lock
    some (
      (inlined, taken),
      record b { lock = word; head = record (m.0) { state = taken }; chain = unchain i b.chain },
      enqueue (record (m.1) { state = freed }) entries,
    )

  unfoldable pub leave_entry :
      (i head_word : ℕ) → Bucket → Queue → Option ((Place × ℕ) × Bucket × Queue)
  leave_entry i head_word b entries = do
    back ← unlock_x_invalid head_word
    word ← unlock b.lock
    some (
      (chained i, (get_or b.chain i no_frame).state),
      record b { lock = word; head = record b.head { state = back } },
      entries,
    )

  unfoldable pub move_to_head : (i : ℕ) → Bucket → Queue → Option ((Place × ℕ) × Bucket × Queue)
  move_to_head i b entries = do
    let cur = (get_or b.chain i no_frame).state
    h ← try_lock_x b.head.state b.head.state
    assert h.0
    c ← try_unlocked cur
    (if c.0 then move_entry i h.1 c.1 b entries else leave_entry i h.1 b entries)

  -- The answer is the entry and its word; `none` for the null pointer.
  unfoldable pub access_chained :
      (move : Bool) (random i : ℕ)
      → Bucket
      → Queue
      → Option (Round (Option (Place × ℕ) × Bucket × Queue))
  access_chained move random i b entries =
      let stay = some (answer (some (chained i, (get_or b.chain i no_frame).state), b, entries)) in
      if move && (b.head.pid == max_u64) && chance random
      then when_locked b stay (λ b'. found_at (move_to_head i b' entries))
      else stay
    where
      found_at :
          Option ((Place × ℕ) × Bucket × Queue)
          → Option (Round (Option (Place × ℕ) × Bucket × Queue))
      found_at none = none
      found_at (some a) = some (answer (some (a.0), a.1, a.2))

  unfoldable pub access_round :
      (move : Bool) (random pid : ℕ)
      → Bucket
      → Queue
      → Option (Round (Option (Place × ℕ) × Bucket × Queue))
  access_round move random pid b entries =
      if is_locked b.lock
      then some restart
      else if b.head.pid == pid
      then some (answer (some (inlined, b.head.state), b, entries))
      else elim (position pid b.chain) [
        | none ↦ some (answer (none, b, entries))
        | some i ↦ access_chained move random i b entries
      ]
