-- ===== src/Placement/Promoting.antt =====
-- buffer_manager.hpp, promoteLocked: the locks of the page in the way, and the whole of the function.
use cloud_project.Prelude.{
  ℕ, ◌≡◌, ◌≢◌, inl, inr, refl, ap, ◌∙◌, arith, Bool, true, Option, none, some, ◌==◌, ==_iff,
  ==_refl, Bool-cases, set, max_u64, Run, done, if◌then◌else◌,
}
use cloud_project.PageState.{
  get_state, unlocked, locked, try_lock_x, unlock_x, same_version, next_version,
}
use cloud_project.PageState.Laws.{same_version-Holds}
use cloud_project.FrameTable.Frames.{BufferFrame}
use cloud_project.Placement.{
  PageQueue, Pool, Promoted, predicted, hash_pid, pid_at, bytes_at, place, arrive, displace,
  unmoved, make_way, promote_locked,
}
use cloud_project.Placement.Places.{HasVacant, IsPool, place-Places, present_vacant, present_taken}
use cloud_project.Placement.Promotion.{
  IsAway, Outcome, stays, after, vacant-Outcome, displaced-Outcome,
}

try_lock_x_alone :
    (w : ℕ) → get_state w ≡ unlocked → try_lock_x w w ≡ some (true, same_version w locked)
unfolding try_lock_x
try_lock_x_alone w e = rw (e, ==_refl w) refl

unlock_x_held :
    (w : ℕ)
    → unlock_x (same_version w locked) ≡ some (next_version (same_version w locked) unlocked)
unfolding unlock_x
unlock_x_held w =
    let held : get_state (same_version w locked) ≡ locked =
      omega (arith, same_version-Holds w locked (omega arith)) in
    rw held refl

module _ {fq : PageQueue} (rounds : ℕ) (evict : Pool fq → Pool fq) (bf : BufferFrame)
    (pool : Pool fq) (v : IsPool pool) (away : IsAway bf pool) (h : HasVacant pool rounds pool.free)
    (full : pid_at (predicted bf.pid pool) pool ≢ max_u64) where
  abbrev at_slot : ℕ
  at_slot = predicted bf.pid pool

  displaced : (m : BufferFrame) → ℕ → (q : ℕ × Bool × Pool fq) → BufferFrame × Pool fq
  displaced m word q = (
    record m { page = q.0; intended_slot = q.1; state = word },
    record q.2 {
      mem = set q.2.mem q.0 (bytes_at at_slot q.2);
      pids = set (set q.2.pids q.0 (pid_at at_slot pool)) at_slot bf.pid;
    },
  )

  displace_lem :
      (m : BufferFrame) (word : ℕ) (q : ℕ × Bool × Pool fq)
      → unlock_x m.state ≡ some word
      → place rounds evict (pid_at at_slot pool) pool ≡ done q
      → displace rounds evict at_slot bf.pid m pool ≡ done (displaced m word q)
  unfolding displace displaced
  displace_lem m word q unlocks placed = rw (displace, placed, unlocks) refl

  make_way_lem :
      (m : BufferFrame) (d : BufferFrame × Pool fq)
      → get_state m.state ≡ unlocked
      → displace rounds evict at_slot bf.pid (record m { state = same_version m.state locked }) pool
        ≡ done d
      → make_way rounds evict at_slot bf (some m) pool
        ≡ done (record {
          frame = (arrive at_slot bf d.1).0;
          moved = some d.0;
          pool = (arrive at_slot bf d.1).1;
        })
  unfolding make_way
  make_way_lem m d free e = rw (make_way, free, try_lock_x_alone m.state free, e) refl

  make_way-Outcome :
      (answer : Option BufferFrame)
      → ((m : BufferFrame) → answer ≡ some m → m.pid ≡ pid_at at_slot pool)
      → (r : Promoted fq) × (make_way rounds evict at_slot bf answer pool ≡ done r)
        × Outcome bf pool r
  unfolding make_way displaced
  make_way-Outcome none asked = (unmoved bf pool, refl, stays full refl)
  make_way-Outcome (some m) asked = elim (Bool-cases (get_state m.state == unlocked)) [
    | inr busy ↦ (unmoved bf pool, rw (make_way, busy) refl, stays full refl)
    | inl free ↦
        let (q, placed, p) = place-Places rounds evict (pid_at at_slot pool) pool v h in
        let m' : BufferFrame = record m { state = same_version m.state locked } in
        let word = next_version (same_version m.state locked) unlocked in
        (
          after bf pool v away m' (asked m refl) q.0 q.1 q.2 p.takes full word,
          make_way_lem m (displaced m' word q) ((==_iff _ _).0 free)
              (displace_lem m' word q (unlock_x_held m.state) placed),
          displaced-Outcome bf pool v away m' (asked m refl) q.0 q.1 q.2 p.takes full word,
        )
  ]

-- For a frame whose page is in the pool and not where it is predicted, and with a queue that gives a
-- vacant frame within the rounds, `promoteLocked` returns, if `ht.access` answers the page that it is
-- asked for or none. When the predicted frame is vacant, the page moves there. When not, nothing
-- happens, or the page in the way moves to a vacant frame and the page to its place. A page that moves
-- takes its bytes and its page id with it, the frame that the page leaves is free, and all other
-- frames are as they were.
pub promote_locked-Outcome :
    {fq : PageQueue} (rounds : ℕ) (evict : Pool fq → Pool fq)
    (access : (pid hash : ℕ) → Option BufferFrame) (bf : BufferFrame) (pool : Pool fq)
    → IsPool pool
    → IsAway bf pool
    → HasVacant pool rounds pool.free
    → ((pid hash : ℕ) (m : BufferFrame) → access pid hash ≡ some m → m.pid ≡ pid)
    → (r : Promoted fq) × (promote_locked rounds evict access bf pool ≡ done r) × Outcome bf pool r
unfolding promote_locked
promote_locked-Outcome {fq} rounds evict access bf pool v away h asked =
    elim (Bool-cases (pid_at (predicted bf.pid pool) pool == max_u64)) [
      | inl vacant ↦ (
        _,
        ap on_present (present_vacant (predicted bf.pid pool) bf.pid pool vacant),
        vacant-Outcome bf pool v away ((==_iff _ _).0 vacant),
      )
      | inr taken ↦
          let full : pid_at (predicted bf.pid pool) pool ≢ max_u64 = λ e. ground (arith, e) in
          let way =
            make_way-Outcome rounds evict bf pool v away h full
              (access (pid_at (predicted bf.pid pool) pool) (hash_pid bf.pid))
              (asked (pid_at (predicted bf.pid pool) pool) (hash_pid bf.pid)) in
          (
            way.0,
            ap on_present (present_taken (predicted bf.pid pool) bf.pid pool taken) ∙ way.1,
            way.2,
          )
    ]
  where
    on_present : Bool × Pool fq → Run (Promoted fq)
    on_present r =
        if r.0
        then (let a = arrive (predicted bf.pid pool) bf r.1 in
            done (record { frame = a.0; moved = none; pool = a.1 }))
        else make_way rounds evict (predicted bf.pid pool) bf
            (access (pid_at (predicted bf.pid pool) pool) (hash_pid bf.pid)) pool
