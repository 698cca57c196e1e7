-- ===== src/PageState/Tests.antt =====
-- Runs of the page lock, and its theorems at concrete words and schedules.
use cloud_project.Prelude.{
  ℕ, ◌+◌, ◌-◌, ◌*◌, ◌^◌, ◌≡◌, inr, refl, true, false, some, none, arith, ℕ_discrete,
}
use cloud_project.Prelude.Threads.{at_thread, sum_threads}
use cloud_project.PageState.{
  unlocked, marked, locked, invalid, same_version, next_version, init, try_lock_x, unlock_x,
  unlock_x_invalid, downgrade_lock, try_lock_s, unlock_s_round, try_mark, try_upgrade,
}
use cloud_project.PageState.Laws.{
  Holds, Goes, Releases, same_version-Holds, next_version-Holds, try_lock_x-Goes, unlock_x-carry,
}
use cloud_project.PageState.Threads.{
  Pc, seen, exclusive, shared, releasing, reading, check_version, Move, System, pick, fresh, Reach,
  start, later, NeverWraps,
}
use cloud_project.PageState.Threads.Invariant.{writes, shares, Inv}
use cloud_project.PageState.Threads.Moves.{IsFree, Reach-Inv}
use cloud_project.PageState.Threads.Safety.{
  mutual_exclusion, validated_read, exclusive-Releases, releasing-Goes,
}

abbrev word : ℕ → ℕ → ℕ
word s k = s * 2 ^ 56 + k

-- The word of a new frame, and a life of one: lock, release, share, share, give up, mark.
life :
    (init ≡ word 255 0)
    × (try_lock_x (word 0 7) (word 0 7) ≡ some (true, word 254 7))
    × (try_lock_x (word 0 7) (word 0 8) ≡ some (false, word 0 8))
    × (try_lock_x (word 3 7) (word 3 7) ≡ none)
    × (unlock_x (word 254 7) ≡ some (word 0 8))
    × (unlock_x (word 3 7) ≡ none)
    × (try_lock_s (word 2 8) (word 2 8) ≡ (true, word 3 8))
    × (try_lock_s (word 252 8) (word 252 8) ≡ (false, word 252 8))
    × (try_lock_s (word 253 8) (word 253 8) ≡ (true, word 1 8))
    × (unlock_s_round (word 3 8) (word 3 8) ≡ some (true, word 2 8))
    × (try_mark (word 0 8) (word 0 8) ≡ some (true, word 253 8))
    × (try_upgrade (word 1 8) (word 1 8) ≡ (true, word 254 8))
unfolding init same_version next_version try_lock_x unlock_x try_lock_s unlock_s_round try_mark
    try_upgrade
life = (refl, refl, refl, refl, refl, refl, refl, refl, refl, refl, refl, refl)

same_version-Holds_example : Holds (same_version (word 254 9) marked) marked 9
same_version-Holds_example = same_version-Holds (word 254 9) marked (omega arith)

next_version-Holds_example : Holds (next_version (word 254 9) invalid) invalid 10
next_version-Holds_example = next_version-Holds (word 254 9) invalid (omega arith) (omega arith)

try_lock_x-Goes_example :
    Goes (word 253 9) (word 253 9) locked (try_lock_x (word 253 9) (word 253 9))
try_lock_x-Goes_example = try_lock_x-Goes (word 253 9) (word 253 9) (inr (omega arith))

unlock_x-carry_example : (w' : ℕ) × (unlock_x (word 254 (2 ^ 56 - 1)) ≡ some w') × Holds w' 1 0
unlock_x-carry_example = unlock_x-carry (word 254 (2 ^ 56 - 1)) (omega arith) (omega arith)

abbrev free_word : IsFree 0
free_word = omega arith

abbrev holding : ℕ → ℕ → (p : Pc) → System → System
holding w c p s = record { frame = record { word = w; contents = c }; pc = at_thread 0 p s.pc }

abbrev loaded : System
loaded = holding 0 5 (seen 0) (fresh 0 5)

abbrev owning : System
owning = holding (word 254 0) 5 exclusive loaded

abbrev guarded : System
guarded = holding 0 5 (reading 0 5) (fresh 0 5)

abbrev joined : System
joined = holding (word 1 0) 5 shared loaded

abbrev giving_up : System
giving_up = holding (word 1 0) 5 (releasing (word 1 0)) joined

loaded_run : Reach 2 0 5 loaded
loaded_run = later start (pick 0 (omega arith) Move.load)

owning_run : Reach 2 0 5 owning
unfolding try_lock_x same_version ℕ_discrete
owning_run = later loaded_run (pick 0 (omega arith) (Move.lock_x refl refl))

guarded_run : Reach 2 0 5 guarded
guarded_run = later start (pick 0 (omega arith) (Move.read (omega arith)))

joined_run : Reach 2 0 5 joined
unfolding try_lock_s same_version ℕ_discrete
joined_run = later loaded_run (pick 0 (omega arith) (Move.lock_s refl))

giving_up_run : Reach 2 0 5 giving_up
unfolding ℕ_discrete
giving_up_run = later joined_run (pick 0 (omega arith) Move.load_release)

loaded_run-NeverWraps : NeverWraps loaded_run
unfolding loaded_run
loaded_run-NeverWraps = (omega arith, tt)

owning_run-NeverWraps : NeverWraps owning_run
unfolding owning_run
owning_run-NeverWraps = (omega arith, loaded_run-NeverWraps)

guarded_run-NeverWraps : NeverWraps guarded_run
unfolding guarded_run
guarded_run-NeverWraps = (omega arith, tt)

joined_run-NeverWraps : NeverWraps joined_run
unfolding joined_run
joined_run-NeverWraps = (omega arith, loaded_run-NeverWraps)

giving_up_run-NeverWraps : NeverWraps giving_up_run
unfolding giving_up_run
giving_up_run-NeverWraps = (omega arith, joined_run-NeverWraps)

Reach-Inv_example : Inv 2 owning.frame owning.pc
Reach-Inv_example = Reach-Inv free_word owning_run owning_run-NeverWraps

mutual_exclusion_example : (writes (owning.pc 1) ≡ 0) × (shares (owning.pc 1) ≡ 0)
unfolding ℕ_discrete
mutual_exclusion_example =
    mutual_exclusion free_word owning_run owning_run-NeverWraps 0 1 (omega arith) (omega arith)
      (omega arith) refl

validated_read_example : (guarded.frame.contents ≡ 5) × (sum_threads writes 2 guarded.pc ≡ 0)
unfolding check_version ℕ_discrete
validated_read_example =
    validated_read free_word guarded_run guarded_run-NeverWraps 0 0 5 0 refl refl

exclusive-Releases_example :
    Releases (word 254 0) unlocked (unlock_x (word 254 0))
    × Releases (word 254 0) invalid (unlock_x_invalid (word 254 0))
    × Releases (word 254 0) 1 (downgrade_lock (word 254 0))
unfolding ℕ_discrete
exclusive-Releases_example =
    exclusive-Releases free_word owning_run owning_run-NeverWraps 0 (omega arith) refl (omega arith)

releasing-Goes_example : Goes (word 1 0) (word 1 0) 0 (unlock_s_round (word 1 0) (word 1 0))
unfolding ℕ_discrete
releasing-Goes_example =
    releasing-Goes free_word giving_up_run giving_up_run-NeverWraps 0 (word 1 0) refl
