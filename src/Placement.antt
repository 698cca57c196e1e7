-- ===== src/Placement.antt =====
-- buffer_manager.hpp: where pages are put in the memory of the pool. `virtMemPids` has the page id in
-- each frame of it, a frame is given by its index, and what a frame has is a page's bytes.
pub mod Places
pub mod Promotion
pub mod Promoting
mod Tests
use cloud_project.Prelude.{
  ℕ, zero, suc, ◌+◌, ◌-◌, ◌*◌, ◌/◌, Bool, true, false, not, Option, none, some, List, [], ◌∷◌, ◌++◌,
  ◌==◌, if◌then◌else◌, get_or, set, bit_xor, u64, shr, max_u64, Run, done, aborted, out_of_rounds,
}
use cloud_project.Prelude.Steps.{◌>>=◌}
use cloud_project.PageState.{get_state, unlocked, try_lock_x, unlock_x}
use cloud_project.FrameTable.Frames.{BufferFrame}

-- The queue of free frames, of the code's third-party library.
pub record PageQueue : Type 1 where
  pub Queue : Type 0
  pub try_dequeue : Queue → Option (ℕ × Queue)
  pub enqueue : ℕ → Queue → Queue

-- `divider` is `frameCountDivider`, the division by the number of frames of the third-party library.
pub record Pool (fq : PageQueue) : Type 0 where
  pub mem : List (List ℕ)
  pub pids : List ℕ
  pub free : fq.Queue
  pub frame_count : ℕ
  pub divider : ℕ → ℕ
  pub disable_predict : Bool

-- `hashPID`
abbrev pub factor : ℕ
factor = 0xc6a4_a793_5bd1_e995

abbrev pub xor_high : ℕ → ℕ
xor_high x = bit_xor x (shr x 47)

unfoldable pub hash_pid : ℕ → ℕ
hash_pid pid =
    let seed = bit_xor 0x8445_d61a_4e77_4912 (u64 (8 * factor)) in
    let k = u64 (xor_high (u64 (pid * factor)) * factor) in
    let h = u64 (bit_xor seed k * factor) in xor_high (u64 (xor_high h * factor))

unfoldable pub intended_frame : {fq : PageQueue} → (hash : ℕ) → Pool fq → ℕ
intended_frame hash pool = hash - pool.divider hash * pool.frame_count

abbrev pub predicted : {fq : PageQueue} → (pid : ℕ) → Pool fq → ℕ
predicted pid pool = intended_frame (hash_pid pid) pool

abbrev pub pid_at : {fq : PageQueue} → (slot : ℕ) → Pool fq → ℕ
pid_at slot pool = get_or pool.pids slot max_u64

abbrev pub bytes_at : {fq : PageQueue} → (slot : ℕ) → Pool fq → List ℕ
bytes_at slot pool = get_or pool.mem slot []

unfoldable pub try_set_present : {fq : PageQueue} → (slot pid : ℕ) → Pool fq → Bool × Pool fq
try_set_present slot pid pool =
    if pid_at slot pool == max_u64
    then (true, record pool { pids = set pool.pids slot pid })
    else (false, pool)

-- `getFreePageHTCache`: the frame, one round for each frame of the queue and each eviction.
unfoldable pub get_free_page :
    {fq : PageQueue}
    → (rounds : ℕ) (evict : Pool fq → Pool fq) (pid : ℕ) → Pool fq
    → Run (ℕ × Pool fq)
get_free_page {fq} zero evict pid pool = out_of_rounds
get_free_page {fq} (suc rounds) evict pid pool = elim (fq.try_dequeue pool.free) [
  | none ↦ get_free_page rounds evict pid (evict pool)
  | some f ↦
      let r = try_set_present f.0 pid (record pool { free = f.1 }) in
      elim r.0 [ true ↦ done (f.0, r.1) | false ↦ get_free_page rounds evict pid r.1 ]
]

-- A page's new frame: the predicted one, or a free one; and whether it is the predicted one.
unfoldable pub place :
    {fq : PageQueue}
    → (rounds : ℕ) (evict : Pool fq → Pool fq) (pid : ℕ) → Pool fq
    → Run (ℕ × Bool × Pool fq)
place rounds evict pid pool =
    let slot = predicted pid pool in
    let r = try_set_present slot pid pool in
    if r.0
    then done (slot, not pool.disable_predict, r.1)
    else (do f ← get_free_page rounds evict pid pool; done (f.0, false, f.1))

-- `promoteLocked` from the copy of the page on: the frame that it leaves is free.
unfoldable pub arrive :
    {fq : PageQueue} → (slot : ℕ) → BufferFrame → Pool fq → BufferFrame × Pool fq
arrive {fq} slot bf pool = (
  record bf { page = slot; intended_slot = not pool.disable_predict },
  record pool {
    mem = set pool.mem slot (bytes_at bf.page pool);
    pids = set (set pool.pids bf.page max_u64) slot bf.pid;
    free = fq.enqueue bf.page pool.free;
  },
)

-- The page in the way, whose frame is locked, moves to another frame.
unfoldable pub displace :
    {fq : PageQueue}
    → (rounds : ℕ) (evict : Pool fq → Pool fq) (slot pid : ℕ) → BufferFrame
    → Pool fq
    → Run (BufferFrame × Pool fq)
displace rounds evict slot pid move pool = do
  let pid_move = pid_at slot pool
  r ← place rounds evict pid_move pool
  (elim (unlock_x move.state) [
    | none ↦ aborted
    | some word ↦ done (
      record move { page = r.0; intended_slot = r.1; state = word },
      record r.2 {
        mem = set r.2.mem r.0 (bytes_at slot r.2);
        pids = set (set r.2.pids r.0 pid_move) slot pid;
      },
    )
  ])

-- What a promotion leaves: the frame, the frame of the page that was in the way, if it has moved, and
-- the pool.
pub record Promoted (fq : PageQueue) : Type 0 where
  pub frame : BufferFrame
  pub moved : Option BufferFrame
  pub pool : Pool fq

abbrev pub unmoved : {fq : PageQueue} → BufferFrame → Pool fq → (Promoted fq)
unmoved bf pool = record { frame = bf; moved = none; pool = pool }

-- The frame of the page in the way is taken when it is unlocked.
unfoldable pub make_way :
    {fq : PageQueue}
    → (rounds : ℕ) (evict : Pool fq → Pool fq) (slot : ℕ) (bf : BufferFrame) → Option BufferFrame
    → Pool fq
    → Run (Promoted fq)
make_way rounds evict slot bf none pool = done (unmoved bf pool)
make_way rounds evict slot bf (some move) pool =
    if not (get_state move.state == unlocked)
    then done (unmoved bf pool)
    else elim (try_lock_x move.state move.state) [
      | none ↦ aborted
      | some r ↦ if not r.0 then done (unmoved bf pool) else (do
        d ← displace rounds evict slot bf.pid (record move { state = r.1 }) pool
        let a = arrive slot bf d.1
        done (record { frame = a.0; moved = some d.0; pool = a.1 }))
    ]

-- `promoteLocked`, with what `ht.access` answers for a page id and a hash.
unfoldable pub promote_locked :
    {fq : PageQueue}
    → (rounds : ℕ) (evict : Pool fq → Pool fq) (access : (pid hash : ℕ) → Option BufferFrame)
    → BufferFrame
    → Pool fq
    → Run (Promoted fq)
promote_locked rounds evict access bf pool =
    let hash = hash_pid bf.pid in
    let slot = intended_frame hash pool in
    let r = try_set_present slot bf.pid pool in
    if r.0
    then (let a = arrive slot bf r.1 in done (record { frame = a.0; moved = none; pool = a.1 }))
    else make_way rounds evict slot bf (access (pid_at slot pool) hash) pool
