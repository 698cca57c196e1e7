-- ===== src/Placement/Tests.antt =====
-- A pool of four frames, and the promotion of a page in it.
use cloud_project.Prelude.{
  ◌/◌, ◌++◌, ℕ, ◌*◌, ◌^◌, ◌≡◌, refl, sym, ap, arith, false, Option, none, some, List, [], ◌∷◌,
  max_u64, done,
}
use cloud_project.FrameTable.Frames.{BufferFrame}
use cloud_project.Placement.{
  PageQueue, Pool, Promoted, predicted, hash_pid, intended_frame, promote_locked,
}
use cloud_project.Placement.Places.{found, passed}
use cloud_project.Placement.Promotion.{IsAway, Outcome}
use cloud_project.Placement.Promoting.{promote_locked-Outcome}

-- A list as the queue. Page 0 is in frame 1, and page 4 in frame 2, where page 0 is predicted; frame 3 is vacant.
abbrev list_queue : PageQueue
list_queue = record {
  Queue = List ℕ;
  try_dequeue = λ xs. elim xs [ [] ↦ none | x ∷ rest ↦ some (x, rest) ];
  enqueue = λ x xs. xs ++ (x ∷ []);
}

abbrev four_frames : Pool list_queue
four_frames = record {
  mem = [] ∷ (10 ∷ []) ∷ (20 ∷ []) ∷ [] ∷ [];
  pids = max_u64 ∷ 0 ∷ 4 ∷ max_u64 ∷ [];
  free = 2 ∷ 3 ∷ [];
  frame_count = 4;
  divider = λ hash. hash / 4;
  disable_predict = false;
}

abbrev held : BufferFrame
held = record { pid = 0; page = 1; state = 254 * 2 ^ 56; intended_slot = false }

abbrev in_the_way : (pid hash : ℕ) → Option BufferFrame
in_the_way pid hash = some (record { pid = pid; page = 2; state = 0; intended_slot = false })

abbrev pid_or : ℕ → Option BufferFrame → ℕ
pid_or d none = d
pid_or d (some m) = m.pid

predicted_frame : predicted 0 four_frames ≡ 2
unfolding hash_pid intended_frame
predicted_frame = refl

held-IsAway : IsAway held four_frames
held-IsAway = record {
  inside = omega arith;
  away = λ e. absurd (omega (arith, e, predicted_frame));
  there = refl;
  real = λ e. absurd (omega (arith, e));
}

promote_locked-Outcome_example :
    (r : Promoted list_queue) × (promote_locked 2 (λ pool. pool) in_the_way held four_frames
      ≡ done r)
    × Outcome held four_frames r
promote_locked-Outcome_example =
    promote_locked-Outcome 2 (λ pool. pool) in_the_way held four_frames
      (record { some_frame = omega arith; pids = refl; mem = refl; divides = λ hash. refl })
      held-IsAway
      (passed 1 2 (2 ∷ 3 ∷ []) (3 ∷ []) refl (λ e. absurd (omega (arith, e)))
        (found 0 3 (3 ∷ []) [] refl (omega arith) refl))
      (λ pid hash m e. ap (pid_or pid) (sym e))
