-- ===== src/FrameTable/Insert.antt =====
-- ht.hpp, HTBufferManager::insert: a page id that is not in the bucket gets an entry.
use cloud_project.Prelude.{
  ℕ, ◌+◌, ◌^◌, ◌≡◌, ◌≢◌, refl, ap, ◌∙◌, arith, true, false, Option, none, some, ◌==◌, ==_iff,
  Bool-cases, Option-cases, inl, inr, if◌then◌else◌, max_u64, List, ◌∷◌,
}
use cloud_project.PageState.{locked, invalid, get_state}
use cloud_project.FrameTable.Frames.{
  BufferFrame, Bucket, EntryQueue, Place, inlined, chained, frames, contains, position,
}
use cloud_project.FrameTable.Chain.{lookup, Finds, position-Finds}
use cloud_project.FrameTable.Rounds.{
  answer, returned, new_entry, insert_inlined, insert_chained, insert_locked, insert_round,
}
use cloud_project.FrameTable.Locks.{
  IsValid, HasRoom, Keeps, frame_at, when_locked_lem, unlock_lem, not_locked, taken, taken-locked,
  take_frame_lem, init-invalid,
}

pub contains-none :
    (pid : ℕ) (fs : List BufferFrame) → lookup pid fs ≡ none → contains pid fs ≡ false
contains-none pid fs h = go (position pid fs) (position-Finds pid fs)
  where
    go : (o : Option ℕ) → Finds pid fs o → (elim o [ none ↦ false | some i ↦ true ]) ≡ false
    go none f = refl
    go (some i) f = absurd (cc)

contains-some :
    (pid : ℕ) (f : BufferFrame) (fs : List BufferFrame)
    → lookup pid fs ≡ some f
    → contains pid fs ≡ true
contains-some pid f fs h = go (position pid fs) (position-Finds pid fs)
  where
    go : (o : Option ℕ) → Finds pid fs o → (elim o [ none ↦ false | some i ↦ true ]) ≡ true
    go none n = absurd (cc)
    go (some i) n = refl

-- What `insert` leaves: the bucket has an entry for the page id, locked exclusively, and the others
-- as they were.
pub record Adds (pid : ℕ) (b b' : Bucket) (place : Place) : Type 0 where
  pub valid : IsValid b'
  pub page_of : (frame_at place b').pid ≡ pid
  pub held : get_state (frame_at place b').state ≡ locked
  pub lookups :
      (p : ℕ)
      → p ≢ max_u64
      → lookup p (frames b') ≡ (if p == pid then some (frame_at place b') else lookup p (frames b))

module _ (pid : ℕ) (b : Bucket) (v : IsValid b) (room : HasRoom b) (real : pid ≢ max_u64)
    (absent : lookup pid (frames b) ≡ none) where
  abbrev after_inlined : Bucket
  after_inlined = record b { lock = b.lock + 1; head = taken pid b.head }

  abbrev after_chained : BufferFrame → Bucket
  after_chained f = record b { lock = b.lock + 1; chain = taken pid f ∷ b.chain }

  inlined-Adds : b.head.pid ≡ max_u64 → Adds pid b after_inlined inlined
  unfolding lookup
  inlined-Adds empty = record {
    valid = record {
      ready = room;
      distinct = (ground arith, v.distinct.1);
      none_empty = v.none_empty;
      free = λ e. absurd (real e);
    };
    page_of = refl;
    held = taken-locked pid b.head;
    lookups = λ p ne. ground arith;
  }

  chained-Adds : (f : BufferFrame) → b.head.pid ≢ max_u64 → Adds pid b (after_chained f) (chained 0)
  unfolding lookup
  chained-Adds f full = record {
    valid = record {
      ready = room;
      distinct = (ground arith, (ground arith, v.distinct.1));
      none_empty = ground (arith, v.none_empty);
      free = λ e. absurd (full e);
    };
    page_of = refl;
    held = taken-locked pid f;
    lookups = λ p ne. ground arith;
  }

  abbrev locked_bucket : Bucket
  locked_bucket = record b { lock = b.lock + 2 ^ 63 }

  insert_inlined_lem :
      (q : EntryQueue) (entries : q.Queue)
      → b.head.pid ≡ max_u64
      → insert_inlined q pid locked_bucket entries ≡ some (some inlined, after_inlined, entries)
  unfolding insert_inlined
  insert_inlined_lem q entries empty =
      rw (take_frame_lem pid b.head (v.free empty), unlock_lem b.lock room, taken-locked pid b.head)
        refl

  insert_chained_lem :
      (q : EntryQueue) (entries entries' : q.Queue) (f : BufferFrame)
      → new_entry q pid entries ≡ (f, entries')
      → get_state f.state ≡ invalid
      → insert_chained q pid locked_bucket entries
        ≡ some (some (chained 0), after_chained f, entries')
  unfolding insert_chained
  insert_chained_lem q entries entries' f e free =
      rw (e, take_frame_lem pid f free, unlock_lem b.lock room, taken-locked pid f) refl

  round_lem :
      (q : EntryQueue) (entries : q.Queue)
      → insert_round q pid b entries ≡ returned (insert_locked q pid locked_bucket entries)
  unfolding insert_round
  round_lem q entries =
      rw (not_locked b.lock v.ready, contains-none pid (frames b) absent)
        (when_locked_lem b _ _ v.ready)

  locked_lem :
      (q : EntryQueue) (entries : q.Queue)
      → insert_locked q pid locked_bucket entries ≡ (
          if b.head.pid == max_u64
          then insert_inlined q pid locked_bucket entries
          else insert_chained q pid locked_bucket entries)
  unfolding insert_locked
  locked_lem q entries = rw (contains-none pid (frames b) absent) refl

  -- An entry that the queue gives back, or a new one, is free.
  new_entry_free :
      (q : EntryQueue) (Free : q.Queue → Type 0)
      → Keeps q Free
      → (entries : q.Queue) → Free entries
      → (get_state (new_entry q pid entries).0.state ≡ invalid) × Free (new_entry q pid entries).1
  unfolding new_entry
  new_entry_free q Free keeps entries free = elim (Option-cases (q.try_dequeue entries)) [
    | inl e ↦ rw e (init-invalid, free)
    | inr (r, e) ↦ let d = keeps.dequeued entries r.1 r.0 free e in rw e (d.0.state, d.1)
  ]

  pub insert_round-Adds :
      (q : EntryQueue) (Free : q.Queue → Type 0)
      → Keeps q Free
      → (entries : q.Queue) → Free entries
      → (place : Place) × (b' : Bucket) × (entries' : q.Queue) × (insert_round q pid b entries
          ≡ some (answer (some place, b', entries')))
        × Adds pid b b' place
        × Free entries'
  insert_round-Adds q Free keeps entries free = elim (Bool-cases (b.head.pid == max_u64)) [
    | inl empty ↦
        let e : b.head.pid ≡ max_u64 = (==_iff b.head.pid max_u64).0 empty in
        let step : insert_locked q pid locked_bucket entries
            ≡ some (some inlined, after_inlined, entries) =
          locked_lem q entries ∙ rw empty (insert_inlined_lem q entries e) in
        (
          inlined,
          after_inlined,
          entries,
          round_lem q entries ∙ ap returned step,
          inlined-Adds e,
          free,
        )
    | inr full ↦
        let n = new_entry_free q Free keeps entries free in
        let f = (new_entry q pid entries).0 in
        let entries' = (new_entry q pid entries).1 in
        let step : insert_locked q pid locked_bucket entries
            ≡ some (some (chained 0), after_chained f, entries') =
          locked_lem q entries ∙ rw full (insert_chained_lem q entries entries' f refl n.0) in
        (
          chained 0,
          after_chained f,
          entries',
          round_lem q entries ∙ ap returned step,
          chained-Adds f (λ e. ground (arith, e)),
          n.1,
        )
  ]

-- A page id that is in the bucket is left alone.
pub insert_round-present :
    (q : EntryQueue) (pid : ℕ) (b : Bucket) (entries : q.Queue) (f : BufferFrame)
    → IsValid b
    → lookup pid (frames b) ≡ some f
    → insert_round q pid b entries ≡ some (answer (none, b, entries))
unfolding insert_round
insert_round-present q pid b entries f v h =
    rw (not_locked b.lock v.ready, contains-some pid f (frames b) h) refl
