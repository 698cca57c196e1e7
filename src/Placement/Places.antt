-- ===== src/Placement/Places.antt =====
-- buffer_manager.hpp: getFreePageHTCache and the choice of a frame in allocPage and handleFault.
use cloud_project.Prelude.{
  Option, none, some, ne→==_false, ℕ, suc, ◌-◌, ◌*◌, ◌/◌, ◌<◌, ◌≡◌, ◌≢◌, inl, inr, refl, sym, ap,
  ◌∙◌, arith, Bool, true, false, not, ◌==◌, ==_iff, Bool-cases, length, set, max_u64, Run, done,
  if◌then◌else◌,
}
use cloud_project.Prelude.Steps.{◌>>=◌}
use mathlib.Core.Path.{subst}
use native.Mathlib.Nat.{mod-lt, mod-eq-sub-div-mul}
use cloud_project.Placement.{
  PageQueue, Pool, hash_pid, intended_frame, predicted, pid_at, try_set_present, get_free_page,
  place,
}

-- Within so many tries the queue gives a frame of the pool that no page is in, and frames of the pool
-- before it.
pub data HasVacant {fq : PageQueue} (pool : Pool fq) : ℕ → fq.Queue → Type 0 where
  found :
      (rounds slot : ℕ) (free free' : fq.Queue)
      → fq.try_dequeue free ≡ some (slot, free')
      → slot < length pool.pids
      → pid_at slot pool ≡ max_u64
      → HasVacant pool (suc rounds) free
  passed :
      (rounds slot : ℕ) (free free' : fq.Queue)
      → fq.try_dequeue free ≡ some (slot, free')
      → pid_at slot pool ≢ max_u64
      → HasVacant pool rounds free'
      → HasVacant pool (suc rounds) free

-- Every frame of the pool has its place in the arrays, and the divider divides by their number.
pub record IsPool {fq : PageQueue} (pool : Pool fq) : Type 0 where
  pub some_frame : 0 < pool.frame_count
  pub pids : length pool.pids ≡ pool.frame_count
  pub mem : length pool.mem ≡ pool.frame_count
  pub divides : (hash : ℕ) → pool.divider hash ≡ hash / pool.frame_count

-- A frame that no page was in is taken for the page, and nothing else changes but the queue.
pub record Takes {fq : PageQueue} (pid slot : ℕ) (pool pool' : Pool fq) : Type 0 where
  pub inside : slot < length pool.pids
  pub vacant : pid_at slot pool ≡ max_u64
  pub pids : pool'.pids ≡ set pool.pids slot pid
  pub mem : pool'.mem ≡ pool.mem
  pub frame_count : pool'.frame_count ≡ pool.frame_count

pub present_vacant :
    {fq : PageQueue} (slot pid : ℕ) (pool : Pool fq)
    → (pid_at slot pool == max_u64) ≡ true
    → try_set_present slot pid pool ≡ (true, record pool { pids = set pool.pids slot pid })
unfolding try_set_present
present_vacant slot pid pool e = rw (try_set_present, e) refl

pub present_taken :
    {fq : PageQueue} (slot pid : ℕ) (pool : Pool fq)
    → (pid_at slot pool == max_u64) ≡ false
    → try_set_present slot pid pool ≡ (false, pool)
unfolding try_set_present
present_taken slot pid pool e = rw (try_set_present, e) refl

module _ {fq : PageQueue} (evict : Pool fq → Pool fq) (pid : ℕ) (pool : Pool fq) where
  abbrev on_try : (rounds slot : ℕ) → Bool × Pool fq → Run (ℕ × Pool fq)
  on_try rounds slot r = elim r.0 [
    | true ↦ done (slot, r.1)
    | false ↦ get_free_page rounds evict pid r.1
  ]

  abbrev on_dequeue : (rounds : ℕ) (free : fq.Queue) → Option (ℕ × fq.Queue) → Run (ℕ × Pool fq)
  on_dequeue rounds free o = elim o [
    | none ↦ get_free_page rounds evict pid (evict (record pool { free = free }))
    | some f ↦ on_try rounds f.0 (try_set_present f.0 pid (record pool { free = f.1 }))
  ]

  get_free_page-from :
      (rounds : ℕ) (free : fq.Queue)
      → HasVacant pool rounds free
      → (r : ℕ × Pool fq) × (get_free_page rounds evict pid (record pool { free = free }) ≡ done r)
        × Takes pid r.0 pool r.1
  unfolding get_free_page
  get_free_page-from _ _ (found rounds slot free free' e inside vacant) = (
    (slot, record pool { pids = set pool.pids slot pid; free = free' }),
    ap (on_dequeue rounds free) e
        ∙ ap (on_try rounds slot)
            (present_vacant slot pid (record pool { free = free' }) ((==_iff _ _).1 vacant)),
    record { inside = inside; vacant = vacant; pids = refl; mem = refl; frame_count = refl },
  )
  get_free_page-from _ _ (passed rounds slot free free' e taken later) =
      let rest = get_free_page-from rounds free' later in
      (
        rest.0,
        ap (on_dequeue rounds free) e
            ∙ ap (on_try rounds slot)
                (present_taken slot pid (record pool { free = free' }) (ne→==_false _ _ taken))
            ∙ rest.1,
        rest.2,
      )

pub intended_frame-inside :
    {fq : PageQueue} (hash : ℕ) (pool : Pool fq)
    → IsPool pool
    → intended_frame hash pool < pool.frame_count
unfolding intended_frame
intended_frame-inside hash pool v =
    subst (λ x. x < pool.frame_count)
      (mod-eq-sub-div-mul hash pool.frame_count
        ∙ ap (λ x. hash - x * pool.frame_count) (sym (v.divides hash)))
      (mod-lt hash v.some_frame)

-- The frame that a page gets, and that only the predicted one is called that.
pub record Places {fq : PageQueue} (pid : ℕ) (pool : Pool fq) (r : ℕ × Bool × Pool fq)
    : Type 0 where
  pub takes : Takes pid r.0 pool r.2
  pub at_home : r.1 ≡ true → r.0 ≡ predicted pid pool

-- In a pool whose queue gives a vacant frame within the rounds, a page gets a frame that no page was
-- in, without an eviction: its page id is written there, the other frames and all bytes stay as they
-- are, and the answer is true for the predicted frame only.
pub place-Places :
    {fq : PageQueue} (rounds : ℕ) (evict : Pool fq → Pool fq) (pid : ℕ) (pool : Pool fq)
    → IsPool pool
    → HasVacant pool rounds pool.free
    → (r : ℕ × Bool × Pool fq) × (place rounds evict pid pool ≡ done r) × Places pid pool r
unfolding place
place-Places {fq} rounds evict pid pool v h =
    elim (Bool-cases (pid_at (predicted pid pool) pool == max_u64)) [
      | inl vacant ↦ (
        (
          predicted pid pool,
          not pool.disable_predict,
          record pool { pids = set pool.pids (predicted pid pool) pid },
        ),
        ap on_predicted (present_vacant (predicted pid pool) pid pool vacant),
        record {
          takes = record {
            inside = omega (arith, v.pids, intended_frame-inside (hash_pid pid) pool v);
            vacant = (==_iff _ _).0 vacant;
            pids = refl;
            mem = refl;
            frame_count = refl;
          };
          at_home = λ e. refl;
        },
      )
      | inr taken ↦
          let f = get_free_page-from evict pid pool rounds pool.free h in
          (
            (f.0.0, false, f.0.1),
            ap on_predicted (present_taken (predicted pid pool) pid pool taken) ∙ rw f.1 refl,
            record { takes = f.2; at_home = λ e. ground arith },
          )
    ]
  where
    on_predicted : Bool × Pool fq → Run (ℕ × Bool × Pool fq)
    on_predicted r =
        if r.0
        then done (predicted pid pool, not pool.disable_predict, r.1)
        else (get_free_page rounds evict pid pool >>= λ f. done (f.0, false, f.1))
