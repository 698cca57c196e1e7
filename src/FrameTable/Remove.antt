-- ===== src/FrameTable/Remove.antt =====
-- ht.hpp, HTBufferManager::remove: the entry of a page id that is locked exclusively goes.
use cloud_project.Prelude.{
  ℕ, ◌+◌, ◌^◌, ◌<◌, ◌≡◌, ◌≢◌, refl, sym, ap, ◌∙◌, arith, true, false, Option, none, some, ◌==◌,
  ==_iff, Bool-cases, inl, inr, if◌then◌else◌, max_u64, get_or,
}
use mathlib.Core.Path.{subst}
use cloud_project.PageState.{locked, get_state, version_of}
use cloud_project.FrameTable.Frames.{
  BufferFrame, Bucket, EntryQueue, frames, position, no_frame, unchain,
}
use cloud_project.FrameTable.Chain.{
  lookup, Finds, position-Finds, lookup-unchain, lookup-unchain_none, unchain-AreDistinct,
}
use cloud_project.FrameTable.Rounds.{
  answer, returned, remove_inlined, remove_chained, remove_missing, remove_locked, remove_round,
}
use cloud_project.FrameTable.Locks.{
  IsValid, HasRoom, IsFreed, Keeps, when_locked_lem, unlock_lem, not_locked, free_frame_lem,
}

-- What `remove` leaves: the page id has no entry, and the others are as they were.
pub record Drops (pid : ℕ) (b b' : Bucket) : Type 0 where
  pub valid : IsValid b'
  pub lookups :
      (p : ℕ)
      → p ≢ max_u64
      → lookup p (frames b') ≡ (if p == pid then none else lookup p (frames b))

-- Where the entry `f` is after it was freed: in the head, where it was, or put in the queue.
pub data Frees (q : EntryQueue) (pid : ℕ) (f : BufferFrame) (b b' : Bucket)
    (entries entries' : q.Queue) : Type 0 where
  in_head :
      b.head.pid ≡ pid
      → IsFreed b'.head
      → version_of b'.head.state ≡ version_of f.state + 1
      → entries' ≡ entries
      → Frees q pid f b b' entries entries'
  in_queue :
      (freed : BufferFrame)
      → b.head.pid ≢ pid
      → IsFreed freed
      → version_of freed.state ≡ version_of f.state + 1
      → entries' ≡ q.enqueue freed entries
      → Frees q pid f b b' entries entries'

module _ (pid : ℕ) (b : Bucket) (v : IsValid b) (room : HasRoom b) (real : pid ≢ max_u64) where
  abbrev locked_bucket : Bucket
  locked_bucket = record b { lock = b.lock + 2 ^ 63 }

  -- The inlined entry goes.
  module _ (here : b.head.pid ≡ pid) (f' : BufferFrame) (freed : IsFreed f') where
    abbrev without_head : Bucket
    without_head = record b { lock = b.lock + 1; head = f' }

    inlined-Drops : Drops pid b without_head
    unfolding lookup
    inlined-Drops = record {
      valid = record {
        ready = room;
        distinct = (ap (λ p. lookup p b.chain) freed.pid ∙ v.none_empty, v.distinct.1);
        none_empty = v.none_empty;
        free = λ e. freed.state;
      };
      lookups = λ p ne. ground (arith, freed.pid, v.distinct.0);
    }

  module _ (i : ℕ) (other : (b.head.pid == pid) ≡ false) (found : Finds pid b.chain (some i)) where
    abbrev without_entry : Bucket
    without_entry = record b { lock = b.lock + 1; chain = unchain i b.chain }

    chained-Drops : Drops pid b without_entry
    unfolding lookup
    chained-Drops = record {
      valid = record {
        ready = room;
        distinct = (
          lookup-unchain_none b.head.pid i b.chain v.distinct.0,
          unchain-AreDistinct i b.chain v.distinct.1,
        );
        none_empty = lookup-unchain_none max_u64 i b.chain v.none_empty;
        free = v.free;
      };
      lookups = λ p ne.
          let l = lookup-unchain p i b.chain v.distinct.1 found.0 in
          let l' : lookup p (unchain i b.chain) ≡ (if p == pid then none else lookup p b.chain) =
            subst (λ x. lookup p (unchain i b.chain) ≡ (if p == x then none else lookup p b.chain))
              found.2 l in
          ground (arith, l');
    }

  round_lem :
      (q : EntryQueue) (entries : q.Queue)
      → remove_round q pid b entries ≡ returned (remove_locked q pid locked_bucket entries)
  unfolding remove_round
  round_lem q entries = rw (not_locked b.lock v.ready) (when_locked_lem b _ _ v.ready)

  remove_inlined_lem :
      (q : EntryQueue) (entries : q.Queue)
      → get_state b.head.state ≡ locked
      → version_of b.head.state + 1 < 2 ^ 56
      → (f' : BufferFrame) × IsFreed f'
        × (version_of f'.state ≡ version_of b.head.state + 1)
        × (remove_inlined q locked_bucket entries
            ≡ some (true, record b { lock = b.lock + 1; head = f' }, entries))
  unfolding remove_inlined
  remove_inlined_lem q entries held count =
      let f = free_frame_lem b.head held count in
      (f.0, f.2, f.3, rw (held, f.1, unlock_lem b.lock room) refl)

  remove_chained_lem :
      (q : EntryQueue) (entries : q.Queue) (i : ℕ)
      → get_state (get_or b.chain i no_frame).state ≡ locked
      → version_of (get_or b.chain i no_frame).state + 1 < 2 ^ 56
      → (f' : BufferFrame) × IsFreed f'
        × (version_of f'.state ≡ version_of (get_or b.chain i no_frame).state + 1)
        × (remove_chained q i locked_bucket entries
            ≡ some (
              true,
              record b { lock = b.lock + 1; chain = unchain i b.chain },
              q.enqueue f' entries,
            ))
  unfolding remove_chained
  remove_chained_lem q entries i held count =
      let f = free_frame_lem (get_or b.chain i no_frame) held count in
      (f.0, f.2, f.3, rw (held, f.1, unlock_lem b.lock room) refl)

  remove_missing_lem :
      (q : EntryQueue) (entries : q.Queue)
      → remove_missing q locked_bucket entries
        ≡ some (false, record b { lock = b.lock + 1 }, entries)
  unfolding remove_missing
  remove_missing_lem q entries = rw (unlock_lem b.lock room) refl

  -- What the round returns: the answer, the bucket and the queue.
  record Removes (q : EntryQueue) (Free : q.Queue → Type 0) (entries : q.Queue) (f : BufferFrame)
      : Type 0 where
    after : Bucket
    entries' : q.Queue
    step : remove_locked q pid locked_bucket entries ≡ some (true, after, entries')
    drops : Drops pid b after
    free : Free entries'
    frees : Frees q pid f b after entries entries'

  module _ (q : EntryQueue) (Free : q.Queue → Type 0) (keeps : Keeps q Free) (entries : q.Queue)
      (free : Free entries) (f : BufferFrame) (present : lookup pid (frames b) ≡ some f)
      (held : get_state f.state ≡ locked) (count : version_of f.state + 1 < 2 ^ 56) where
    from_head : (b.head.pid == pid) ≡ true → Removes q Free entries f
    unfolding remove_locked lookup
    from_head here =
        let same : f ≡ b.head = ground arith in
        let r =
          remove_inlined_lem q entries (ap (λ x. get_state x.state) (sym same) ∙ held)
            (subst (λ x. version_of x.state + 1 < 2 ^ 56) same count) in
        record {
          after = record b { lock = b.lock + 1; head = r.0 };
          entries' = entries;
          step = rw here r.3;
          drops = inlined-Drops ((==_iff b.head.pid pid).0 here) r.0 r.1;
          free = free;
          frees =
              in_head ((==_iff b.head.pid pid).0 here) r.1
                (r.2 ∙ ap (λ x. version_of x.state + 1) (sym same)) refl;
        }

    from_chain :
        (b.head.pid == pid) ≡ false
        → (i : ℕ) → position pid b.chain ≡ some i
        → Finds pid b.chain (some i)
        → Removes q Free entries f
    unfolding remove_locked lookup
    from_chain other i e found =
        let same : f ≡ get_or b.chain i no_frame = ground (arith, found.1) in
        let r =
          remove_chained_lem q entries i (ap (λ x. get_state x.state) (sym same) ∙ held)
            (subst (λ x. version_of x.state + 1 < 2 ^ 56) same count) in
        record {
          after = record b { lock = b.lock + 1; chain = unchain i b.chain };
          entries' = q.enqueue r.0 entries;
          step = rw (other, e) r.3;
          drops = chained-Drops i other found;
          free = keeps.enqueued entries r.0 r.1 free;
          frees =
              in_queue r.0 (λ e. ground (arith, e)) r.1
                (r.2 ∙ ap (λ x. version_of x.state + 1) (sym same)) refl;
        }

    removes : Removes q Free entries f
    unfolding lookup
    removes = elim (Bool-cases (b.head.pid == pid)) [
      | inl here ↦ from_head here
      | inr other ↦ go other (position pid b.chain) refl (position-Finds pid b.chain)
    ]
      where
        go :
            (b.head.pid == pid) ≡ false
            → (o : Option ℕ) → position pid b.chain ≡ o
            → Finds pid b.chain o
            → Removes q Free entries f
        go other none e n = absurd (ground (arith, n))
        go other (some i) e n = from_chain other i e n

    pub remove_round-Drops :
        (b' : Bucket) × (entries' : q.Queue) × (remove_round q pid b entries
          ≡ some (answer (true, b', entries')))
        × Drops pid b b'
        × Free entries'
        × Frees q pid f b b' entries entries'
    remove_round-Drops =
        let r = removes in
        (r.after, r.entries', round_lem q entries ∙ ap returned r.step, r.drops, r.free, r.frees)

  -- A page id without an entry: only the bucket's version is counted up.
  pub remove_round-missing :
      (q : EntryQueue) (entries : q.Queue)
      → lookup pid (frames b) ≡ none
      → remove_round q pid b entries
        ≡ some (answer (false, record b { lock = b.lock + 1 }, entries))
  unfolding remove_locked lookup
  remove_round-missing q entries absent = elim (Bool-cases (b.head.pid == pid)) [
    | inl here ↦ absurd (ground arith)
    | inr other ↦ go other (position pid b.chain) refl (position-Finds pid b.chain)
  ]
    where
      go :
          (b.head.pid == pid) ≡ false
          → (o : Option ℕ) → position pid b.chain ≡ o
          → Finds pid b.chain o
          → remove_round q pid b entries
            ≡ some (answer (false, record b { lock = b.lock + 1 }, entries))
      go other none e n =
          let step : remove_locked q pid locked_bucket entries
              ≡ some (false, record b { lock = b.lock + 1 }, entries) =
            rw (other, e) (remove_missing_lem q entries) in
          round_lem q entries ∙ ap returned step
      go other (some i) e n = absurd (ground (arith, n.1))
