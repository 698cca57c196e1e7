-- ===== src/FrameTable/Tests.antt =====
-- ht.hpp: tests, and the theorems at concrete tables.
use cloud_project.Prelude.{
  ℕ, zero, suc, ◌+◌, ◌*◌, ◌^◌, ◌≡◌, refl, arith, true, Option, none, some, List, [], ◌∷◌, done,
  max_u64,
}
use cloud_project.PageState.{init}
use cloud_project.FrameTable.Frames.{
  BufferFrame, EntryQueue, Place, inlined, fresh_frame, fresh_bucket, position,
}
use cloud_project.FrameTable.Chain.{lookup}
use cloud_project.FrameTable.Table.{Table, bucket_at, index, remove, access, on_bucket, retry}
use cloud_project.FrameTable.Rounds.{access_round}
use cloud_project.FrameTable.Locks.{IsFreed, Keeps}
use cloud_project.FrameTable.Locks as Locks
use cloud_project.FrameTable.Access.{Answers}
use cloud_project.FrameTable.Remove.{Frees}
use cloud_project.FrameTable.Map.{IsValid, bucket_of, frame_of}
use cloud_project.FrameTable.Operations.{Becomes, remove-Frees, access-Answers}

-- A queue that gives back the entry put in last.
abbrev stack : EntryQueue
stack = record {
  Queue = List BufferFrame;
  try_dequeue = λ s. elim s [ [] ↦ none | f ∷ fs ↦ some (f, fs) ];
  enqueue = λ f fs. f ∷ fs;
}

abbrev AreFreed : List BufferFrame → Type 0
AreFreed [] = Unit
AreFreed (f ∷ fs) = IsFreed f × AreFreed fs

stack-Keeps : Keeps stack AreFreed
stack-Keeps = record {
  dequeued = λ s s' f free e. go s s' f free e;
  enqueued = λ s f h free. (h, free);
}
  where
    go :
        (s s' : List BufferFrame) (f : BufferFrame)
        → AreFreed s
        → stack.try_dequeue s ≡ some (f, s')
        → IsFreed f × AreFreed s'
    go [] s' f free e = absurd (cc)
    go (g ∷ gs) s' f free e = ground arith

abbrev identity : ℕ → ℕ
identity n = n

abbrev cached : (pid word : ℕ) → BufferFrame
cached pid word = record { pid = pid; page = 5; state = word; intended_slot = true }

-- Three buckets: page 6 inlined, page 9 locked behind it, and page 4 behind an empty head.
abbrev small : Table stack
small = record {
  buckets =
      record { lock = 8; head = cached 6 3; chain = cached 9 (254 * 2 ^ 56 + 2) ∷ [] }
      ∷ record { lock = 2; head = fresh_frame max_u64; chain = cached 4 1 ∷ [] }
      ∷ fresh_bucket
      ∷ [];
  entries = fresh_frame max_u64 ∷ [];
}

fresh_frame-IsFreed : IsFreed (fresh_frame max_u64)
unfolding init
fresh_frame-IsFreed = record { state = refl; pid = refl; page = refl }

fresh_bucket-IsValid : Locks.IsValid fresh_bucket
unfolding lookup init
fresh_bucket-IsValid = record {
  ready = omega arith;
  distinct = (refl, tt);
  none_empty = refl;
  free = λ e. refl;
}

small-IsValid : IsValid stack identity AreFreed small
unfolding lookup init
small-IsValid = record {
  some_buckets = omega arith;
  buckets = go;
  entries = (fresh_frame-IsFreed, tt);
}
  where
    go : (i : ℕ) → Locks.IsValid (bucket_at stack i small)
    go zero = record {
      ready = omega arith;
      distinct = (refl, (refl, tt));
      none_empty = refl;
      free = λ e. absurd (omega arith);
    }
    go (suc zero) = record {
      ready = omega arith;
      distinct = (refl, (refl, tt));
      none_empty = refl;
      free = λ e. refl;
    }
    go (suc (suc zero)) = fresh_bucket-IsValid
    go (suc (suc (suc i))) = fresh_bucket-IsValid

remove-Frees_example :
    (t' : Table stack) × (remove stack 1 9 9 small ≡ done (true, t'))
    × Becomes stack identity AreFreed 9 none small t'
    × IsValid stack identity AreFreed t'
    × Frees stack 9
        (cached 9 (254 * 2 ^ 56 + 2))
        (bucket_of stack identity 9 small)
        (bucket_of stack identity 9 t')
        small.entries
        t'.entries
unfolding index lookup
remove-Frees_example =
    remove-Frees stack identity AreFreed stack-Keeps 0 9 small small-IsValid (λ e. omega arith)
      (omega arith) (cached 9 (254 * 2 ^ 56 + 2)) refl refl (omega arith)

-- Page 4 stands behind an empty head, and stays there.
access-Answers_example :
    (reply : Option (Place × ℕ)) × (access stack true 0 1 4 4 small ≡ done (reply, small))
    × Answers (bucket_of stack identity 4 small) (frame_of stack identity 4 small) reply
access-Answers_example =
    access-Answers stack identity AreFreed stack-Keeps 0 4 small small-IsValid true 0

-- The parts run.
access_inlined : access stack true 0 1 6 6 small ≡ done (some (inlined, 3), small)
unfolding access index on_bucket retry access_round
access_inlined = refl

access_missing : access stack true 0 1 7 7 small ≡ done (none, small)
unfolding access index on_bucket retry access_round position
access_missing = refl
