-- ===== src/Placement/Promotion.antt =====
-- buffer_manager.hpp, promoteLocked: a page moves to its predicted frame, and the page that is in the
-- way there to another one.
use cloud_project.Prelude.{
  ℕ, ◌<◌, ◌≡◌, ◌≢◌, refl, sym, ap, ◌∙◌, arith, Bool, Option, none, some, [], length, length-set,
  set, get_or, get_or-set_self, get_or-set_ne, max_u64,
}
use cloud_project.FrameTable.Frames.{BufferFrame}
use cloud_project.Placement.{
  PageQueue, Pool, Promoted, predicted, hash_pid, pid_at, bytes_at, arrive, unmoved,
}
use cloud_project.Placement.Places.{IsPool, Takes, intended_frame-inside}

-- The frame's page is in the pool, and not where it is predicted.
pub record IsAway {fq : PageQueue} (bf : BufferFrame) (pool : Pool fq) : Type 0 where
  pub inside : bf.page < length pool.pids
  pub away : bf.page ≢ predicted bf.pid pool
  pub there : pid_at bf.page pool ≡ bf.pid
  pub real : bf.pid ≢ max_u64

-- The page is at the predicted frame, and the frame that it was in is free.
pub record Moves {fq : PageQueue} (bf : BufferFrame) (pool : Pool fq) (r : Promoted fq)
    : Type 0 where
  pub home : r.frame.page ≡ predicted bf.pid pool
  pub same_pid : r.frame.pid ≡ bf.pid
  pub bytes : bytes_at (predicted bf.pid pool) r.pool ≡ bytes_at bf.page pool
  pub named : pid_at (predicted bf.pid pool) r.pool ≡ bf.pid
  pub freed : pid_at bf.page r.pool ≡ max_u64
  pub queued : (free : fq.Queue) × (r.pool.free ≡ fq.enqueue bf.page free)

-- The page that was in the way is in a frame that no page was in.
pub record MovesAway {fq : PageQueue} (bf m : BufferFrame) (pool : Pool fq) (r : Promoted fq)
    : Type 0 where
  pub moved : r.moved ≡ some m
  pub same_pid : m.pid ≡ pid_at (predicted bf.pid pool) pool
  pub vacant : pid_at m.page pool ≡ max_u64
  pub bytes : bytes_at m.page r.pool ≡ bytes_at (predicted bf.pid pool) pool
  pub named : pid_at m.page r.pool ≡ pid_at (predicted bf.pid pool) pool

-- The frame is as it was.
abbrev pub IsKept : {fq : PageQueue} → (slot : ℕ) (pool pool' : Pool fq) → Type 0
IsKept slot pool pool' =
    (pid_at slot pool' ≡ pid_at slot pool) × (bytes_at slot pool' ≡ bytes_at slot pool)

-- What a promotion does: nothing, when a page is in the way; or the page moves to a vacant frame; or
-- the page in the way moves as well. The other frames are as they were.
pub data Outcome {fq : PageQueue} (bf : BufferFrame) (pool : Pool fq) (r : Promoted fq)
    : Type 0 where
  stays : pid_at (predicted bf.pid pool) pool ≢ max_u64 → r ≡ unmoved bf pool → Outcome bf pool r
  moves :
      pid_at (predicted bf.pid pool) pool ≡ max_u64
      → r.moved ≡ none
      → Moves bf pool r
      → ((s : ℕ) → s ≢ bf.page → s ≢ predicted bf.pid pool → IsKept s pool r.pool)
      → Outcome bf pool r
  displaces :
      (m : BufferFrame)
      → MovesAway bf m pool r
      → Moves bf pool r
      → ((s : ℕ) → s ≢ bf.page → s ≢ predicted bf.pid pool → s ≢ m.page → IsKept s pool r.pool)
      → Outcome bf pool r

abbrev pub arrived :
    {fq : PageQueue}
    → (bf : BufferFrame) (slot : ℕ) (moved : Option BufferFrame) → Pool fq
    → Promoted fq
arrived bf slot moved between = record {
  frame = (arrive slot bf between).0;
  moved = moved;
  pool = (arrive slot bf between).1;
}

module _ {fq : PageQueue} (bf : BufferFrame) (pool : Pool fq) (v : IsPool pool)
    (away : IsAway bf pool) where
  abbrev slot : ℕ
  slot = predicted bf.pid pool

  slot_inside : slot < pool.frame_count
  slot_inside = intended_frame-inside (hash_pid bf.pid) pool v

  -- What is left when the pool between has the page in its frame.
  module _ (between : Pool fq) (pids : length between.pids ≡ length pool.pids)
      (mem : length between.mem ≡ length pool.mem)
      (same : bytes_at bf.page between ≡ bytes_at bf.page pool) (moved : Option BufferFrame) where
    abbrev left : Promoted fq
    left = arrived bf slot moved between

    arrive-Moves : Moves bf pool left
    unfolding arrive
    arrive-Moves = record {
      home = refl;
      same_pid = refl;
      bytes =
          get_or-set_self between.mem slot (bytes_at bf.page between) []
            (omega (arith, mem, v.mem, slot_inside))
          ∙ same;
      named =
          get_or-set_self (set between.pids bf.page max_u64) slot bf.pid max_u64
            (omega (arith, length-set between.pids bf.page max_u64, pids, v.pids, slot_inside));
      freed =
          get_or-set_ne (set between.pids bf.page max_u64) slot bf.page bf.pid max_u64
            (λ e. away.away (sym e))
          ∙ get_or-set_self between.pids bf.page max_u64 max_u64 (omega (arith, pids, away.inside));
      queued = (between.free, refl);
    }

    arrive_other : (s : ℕ) → s ≢ bf.page → s ≢ slot → IsKept s between left.pool
    unfolding arrive
    arrive_other s a b = (
      get_or-set_ne (set between.pids bf.page max_u64) slot s bf.pid max_u64 (λ e. b (sym e))
          ∙ get_or-set_ne between.pids bf.page s max_u64 max_u64 (λ e. a (sym e)),
      get_or-set_ne between.mem slot s (bytes_at bf.page between) [] (λ e. b (sym e)),
    )

  -- Into a vacant frame.
  abbrev named_pool : Pool fq
  named_pool = record pool { pids = set pool.pids slot bf.pid }

  pub vacant-Outcome :
      pid_at slot pool ≡ max_u64 → Outcome bf pool (arrived bf slot none named_pool)
  vacant-Outcome vacant =
      moves vacant refl (arrive-Moves named_pool (length-set pool.pids slot bf.pid) refl refl none)
        (λ s a b.
          let k = arrive_other named_pool (length-set pool.pids slot bf.pid) refl refl none s a b in
          (k.0 ∙ get_or-set_ne pool.pids slot s bf.pid max_u64 (λ e. b (sym e)), k.1))

  -- With the page in the way in the frame `q`.
  module _ (m : BufferFrame) (asked : m.pid ≡ pid_at slot pool) (q : ℕ) (intended : Bool)
      (taken : Pool fq) (takes : Takes (pid_at slot pool) q pool taken)
      (full : pid_at slot pool ≢ max_u64) (word : ℕ) where
    abbrev parted : Pool fq
    parted = record taken {
      mem = set taken.mem q (bytes_at slot taken);
      pids = set (set taken.pids q (pid_at slot pool)) slot bf.pid;
    }

    abbrev gone : BufferFrame
    gone = record m { page = q; intended_slot = intended; state = word }

    not_slot : q ≢ slot
    not_slot e = full (ap (λ s. pid_at s pool) (sym e) ∙ takes.vacant)

    not_page : q ≢ bf.page
    not_page e = away.real (sym away.there ∙ ap (λ s. pid_at s pool) (sym e) ∙ takes.vacant)

    parted_pids : length parted.pids ≡ length pool.pids
    parted_pids =
        length-set (set taken.pids q (pid_at slot pool)) slot bf.pid
        ∙ length-set taken.pids q (pid_at slot pool)
        ∙ ap (λ xs. length xs) takes.pids
        ∙ length-set pool.pids q (pid_at slot pool)

    parted_mem : length parted.mem ≡ length pool.mem
    parted_mem = length-set taken.mem q (bytes_at slot taken) ∙ ap (λ xs. length xs) takes.mem

    parted_bytes : (s : ℕ) → q ≢ s → bytes_at s parted ≡ bytes_at s pool
    parted_bytes s other =
        get_or-set_ne taken.mem q s (bytes_at slot taken) [] other
        ∙ ap (λ xs. get_or xs s []) takes.mem

    parted_pid : (s : ℕ) → q ≢ s → slot ≢ s → pid_at s parted ≡ pid_at s pool
    parted_pid s a b =
        get_or-set_ne (set taken.pids q (pid_at slot pool)) slot s bf.pid max_u64 b
        ∙ get_or-set_ne taken.pids q s (pid_at slot pool) max_u64 a
        ∙ ap (λ xs. get_or xs s max_u64) takes.pids
        ∙ get_or-set_ne pool.pids q s (pid_at slot pool) max_u64 a

    abbrev pub after : Promoted fq
    after = arrived bf slot (some gone) parted

    gone-MovesAway : MovesAway bf gone pool after
    gone-MovesAway = record {
      moved = refl;
      same_pid = asked;
      vacant = takes.vacant;
      bytes =
          (other_at q).1
          ∙ get_or-set_self taken.mem q (bytes_at slot taken) []
              (omega (arith, ap (λ xs. length xs) takes.mem, v.mem, v.pids, takes.inside))
          ∙ ap (λ xs. get_or xs slot []) takes.mem;
      named =
          (other_at q).0
          ∙ get_or-set_ne (set taken.pids q (pid_at slot pool)) slot q bf.pid max_u64
              (λ e. not_slot (sym e))
          ∙ get_or-set_self taken.pids q (pid_at slot pool) max_u64 (
              omega (
                arith,
                ap (λ xs. length xs) takes.pids,
                length-set pool.pids q (pid_at slot pool),
                takes.inside,
              ));
    }
      where
        other_at : (s : ℕ) → IsKept q parted after.pool
        other_at s =
            arrive_other parted parted_pids parted_mem (parted_bytes bf.page not_page) (some gone) q
              not_page not_slot

    pub displaced-Outcome : Outcome bf pool after
    displaced-Outcome =
        displaces gone gone-MovesAway
          (arrive-Moves parted parted_pids parted_mem (parted_bytes bf.page not_page) (some gone))
          (λ s a b c.
            let k =
              arrive_other parted parted_pids parted_mem (parted_bytes bf.page not_page) (some gone)
                s a b in
            (
              k.0 ∙ parted_pid s (λ e. c (sym e)) (λ e. b (sym e)),
              k.1 ∙ parted_bytes s (λ e. c (sym e)),
            ))
