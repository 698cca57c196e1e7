-- ===== src/PageState/Threads/Safety.antt =====
-- What the page lock promises in every reachable state.
use cloud_project.Prelude.{ℕ, ◌+◌, ◌-◌, ◌^◌, ◌<◌, ◌≡◌, ◌≢◌, true, arith, dec_lt}
use cloud_project.Prelude.Threads.{sum_threads, le-sum_threads, le-sum_threads_two}
use cloud_project.PageState.{
  unlocked, locked, invalid, get_state, version_of, unlock_x, unlock_x_invalid, downgrade_lock,
  unlock_s_round,
}
use cloud_project.PageState.Laws.{
  Goes, Releases, unlock_s_round-Goes, unlock_x-Releases, unlock_x_invalid-Releases,
  downgrade_lock-Releases,
}
use cloud_project.PageState.Threads.{
  exclusive, releasing, reading, check_version, System, Reach, NeverWraps,
}
use cloud_project.PageState.Threads.Invariant.{
  IsFresh, writes, shares, Inv, Accepts, check_version-Accepts,
}
use cloud_project.PageState.Threads.Moves.{IsFree, Reach-Inv}

module _ {n w c : ℕ} {s : System} (free : IsFree w) (r : Reach n w c s) (up : NeverWraps r) where
  inv : Inv n s.frame s.pc
  inv = Reach-Inv free r up

  -- In every run that does not count past the last version, while one thread holds the frame
  -- exclusively, no other thread holds it, exclusively or shared.
  pub mutual_exclusion :
      (i j : ℕ)
      → i < n
      → j < n
      → i ≢ j
      → s.pc i ≡ exclusive
      → (writes (s.pc j) ≡ 0) × (shares (s.pc j) ≡ 0)
  mutual_exclusion i j p q ne here = elim (dec_lt i j) [
    | yes before ↦ ground (
      arith,
      inv.writers,
      inv.sharers,
      le-sum_threads writes n i s.pc p,
      le-sum_threads_two writes n i j s.pc before q,
      le-sum_threads shares n j s.pc q,
    )
    | no after ↦ ground (
      arith,
      inv.writers,
      inv.sharers,
      le-sum_threads writes n i s.pc p,
      le-sum_threads_two writes n j i s.pc (omega arith) p,
      le-sum_threads shares n j s.pc q,
    )
  ]

  -- In every run that does not count past the last version, an optimistic read whose version check
  -- succeeds has seen no write: no thread holds the frame exclusively, and the page holds what it held
  -- when the guard was taken.
  pub validated_read :
      (i v found w' : ℕ)
      → s.pc i ≡ reading v found
      → check_version v s.frame.word ≡ (true, w')
      → (s.frame.contents ≡ found) × (sum_threads writes n s.pc ≡ 0)
  validated_read i v found w' here ok =
      let good : IsFresh s.frame (reading v found) = rw here at (inv.guards i) in
      let accepted : Accepts v s.frame.word (true, w') =
        rw ok at (check_version-Accepts v s.frame.word good.0 inv.fits) in
      ground (arith, inv.writers)

  -- In every run that does not count past the last version, the holder of the exclusive lock, at a
  -- version before the last one, meets the assertions of all three ways to give it up; each leaves
  -- the state that it names and counts the version up.
  pub exclusive-Releases :
      (i : ℕ)
      → i < n
      → s.pc i ≡ exclusive
      → version_of s.frame.word + 1 < 2 ^ 56
      → Releases s.frame.word unlocked (unlock_x s.frame.word)
        × Releases s.frame.word invalid (unlock_x_invalid s.frame.word)
        × Releases s.frame.word 1 (downgrade_lock s.frame.word)
  exclusive-Releases i p here room =
      let held : get_state s.frame.word ≡ locked =
        ground (arith, inv.writers, le-sum_threads writes n i s.pc p) in
      (
        unlock_x-Releases s.frame.word held room,
        unlock_x_invalid-Releases s.frame.word held room,
        downgrade_lock-Releases s.frame.word held room,
      )

  -- In every run that does not count past the last version, a thread in the loop of `unlockS` never
  -- fails its assertion; its compare-exchange takes one
  -- holder away if the word is still the loaded one, and changes nothing otherwise.
  pub releasing-Goes :
      (i old : ℕ)
      → s.pc i ≡ releasing old
      → Goes old s.frame.word (get_state old - 1) (unlock_s_round old s.frame.word)
  releasing-Goes i old here =
      let good : IsFresh s.frame (releasing old) = rw here at (inv.guards i) in
      unlock_s_round-Goes old s.frame.word good.0 good.1
