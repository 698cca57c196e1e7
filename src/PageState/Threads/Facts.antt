-- ===== src/PageState/Threads/Facts.antt =====
-- What each step of a thread does to the state byte and to the version.
use mathlib.Core.Path.{subst}
use cloud_project.Prelude.{
  refl, Option, none, u64, shl, shr, dec_lt, ℕ, ◌+◌, ◌-◌, ◌^◌, ◌≤◌, ◌<◌, ◌≡◌, ◌≢◌, ◌⊎◌, inl, inr,
  Bool, true, false, some, arith, ==_iff,
}
use cloud_project.PageState.{
  next_version, unlocked, max_shared, marked, locked, invalid, get_state, version_of, try_lock_x,
  try_lock_s, try_mark, unlock_x, unlock_x_invalid, downgrade_lock, unlock_s_round,
}
use cloud_project.PageState.Laws.{
  Holds, Goes, Releases, same_version-Holds, try_lock_x-Goes, try_mark-Goes, unlock_x-Releases,
  unlock_x_invalid-Releases, downgrade_lock-Releases,
}
use cloud_project.PageState.Threads.{
  Frame, Pc, Move, lock_x, lock_s, mark, release_x, release_invalid, downgrade, release_s,
  release_again, upgrade, upgrade_fails, read, read_marked, check, restart, asks_exclusive,
}
use cloud_project.PageState.Threads.Invariant.{
  IsFresh, writers_of, sharers_of, Accepts, check_version-Accepts, try_upgrade-Effect,
  try_upgrade_fails, same_version-unlocked,
}

module _ (old w w' : ℕ) where
  pub lock_x_fact :
      asks_exclusive (get_state old) ≡ true
      → try_lock_x old w ≡ some (true, w')
      → (sharers_of (get_state w) ≡ 0)
        × (writers_of (get_state w) ≡ 0)
        × Holds w' locked (version_of w)
  lock_x_fact asks h =
      let allowed : (get_state old ≡ unlocked) ⊎ (max_shared < get_state old) = ground arith in
      let went : Goes old w locked (some (true, w')) = rw h at (try_lock_x-Goes old w allowed) in
      ground arith

  pub lock_s_fact :
      try_lock_s old w ≡ (true, w')
      → (get_state w ≢ locked)
        × (sharers_of (get_state w) < max_shared)
        × Holds w' (sharers_of (get_state w) + 1) (version_of w)
  unfolding try_lock_s
  lock_s_fact h =
      ground
        (arith, ==_iff w old, same_version-Holds old (get_state old + 1), same_version-Holds old 1)

  pub mark_fact :
      {b : Bool}
      → get_state old ≡ unlocked
      → try_mark old w ≡ some (b, w')
      → (w' ≡ w) ⊎ ((get_state w ≡ unlocked) × Holds w' marked (version_of w))
  mark_fact {b = true} free h =
      let went : Goes old w marked (some (true, w')) = rw h at (try_mark-Goes old w free) in
      inr (ground arith, went.1)
  mark_fact {b = false} free h =
      let went : Goes old w marked (some (false, w')) = rw h at (try_mark-Goes old w free) in
      inl went.1

  pub release_s_fact :
      unlock_s_round old w ≡ some (true, w')
      → (0 < get_state w) × (get_state w ≤ max_shared) × Holds w' (get_state w - 1) (version_of w)
  unfolding unlock_s_round
  release_s_fact h = ground (arith, ==_iff w old, same_version-Holds old (get_state old - 1))

  pub release_again_fact : unlock_s_round old w ≡ some (false, w') → w' ≡ w
  unfolding unlock_s_round
  release_again_fact h = ground arith

-- The last version is followed by version 0.
abbrev Restarts : Option ℕ → Type 0
Restarts none = ⊥
Restarts (some w') = version_of w' ≡ 0

restarts : {o : Option ℕ} {w' : ℕ} → o ≡ some w' → Restarts o → version_of w' ≡ 0
restarts e r = subst Restarts e r

module _ (w : ℕ) (held : get_state w ≡ locked) (last : version_of w + 1 ≡ 2 ^ 56) where
  counted : u64 (shr (shl w 8) 8 + 1) ≡ 2 ^ 56
  counted = omega arith

  unlock_x-Restarts : Restarts (unlock_x w)
  unfolding unlock_x next_version
  unlock_x-Restarts = rw (held, counted) refl

  unlock_x_invalid-Restarts : Restarts (unlock_x_invalid w)
  unfolding unlock_x_invalid next_version
  unlock_x_invalid-Restarts = rw (held, counted) refl

  downgrade_lock-Restarts : Restarts (downgrade_lock w)
  unfolding downgrade_lock next_version
  downgrade_lock-Restarts = rw (held, counted) refl

room_for :
    (w w' : ℕ)
    → (version_of w + 1 ≡ 2 ^ 56 → version_of w' ≡ 0)
    → version_of w ≤ version_of w'
    → version_of w + 1 < 2 ^ 56
room_for w w' wraps up = elim (dec_lt (version_of w + 1) (2 ^ 56)) [
  | yes room ↦ room
  | no full ↦ let e : version_of w + 1 ≡ 2 ^ 56 = omega arith in absurd (omega (arith, wraps e))
]

-- The three ways to give up the exclusive lock assert that it is held.
module _ (w w' : ℕ) (up : version_of w ≤ version_of w') where
  pub unlock_x_fact :
      unlock_x w ≡ some w' → (get_state w ≡ locked) × Holds w' unlocked (version_of w + 1)
  unfolding unlock_x
  unlock_x_fact h =
      let held : get_state w ≡ locked = ground (arith, ==_iff (get_state w) locked) in
      let room = room_for w w' (λ last. restarts h (unlock_x-Restarts w held last)) up in
      let done : Releases w unlocked (some w') = rw h at (unlock_x-Releases w held room) in
      (held, done)

  pub unlock_x_invalid_fact :
      unlock_x_invalid w ≡ some w' → (get_state w ≡ locked) × Holds w' invalid (version_of w + 1)
  unfolding unlock_x_invalid
  unlock_x_invalid_fact h =
      let held : get_state w ≡ locked = ground (arith, ==_iff (get_state w) locked) in
      let room = room_for w w' (λ last. restarts h (unlock_x_invalid-Restarts w held last)) up in
      let done : Releases w invalid (some w') = rw h at (unlock_x_invalid-Releases w held room) in
      (held, done)

  pub downgrade_fact :
      downgrade_lock w ≡ some w' → (get_state w ≡ locked) × Holds w' 1 (version_of w + 1)
  unfolding downgrade_lock
  downgrade_fact h =
      let held : get_state w ≡ locked = ground (arith, ==_iff (get_state w) locked) in
      let room = room_for w w' (λ last. restarts h (downgrade_lock-Restarts w held last)) up in
      let done : Releases w 1 (some w') = rw h at (downgrade_lock-Releases w held room) in
      (held, done)

-- What a step says of the frame that it finds, `f`, and of the word that it leaves.
abbrev pub Fact : {f f' : Frame} {p p' : Pc} → Move f p f' p' → Type 0
Fact {f} {f'} (lock_x _ _) =
    (sharers_of (get_state f.word) ≡ 0)
    × (writers_of (get_state f.word) ≡ 0)
    × Holds f'.word locked (version_of f.word)
Fact {f} {f'} (lock_s _) =
    (get_state f.word ≢ locked)
    × (sharers_of (get_state f.word) < max_shared)
    × Holds f'.word (sharers_of (get_state f.word) + 1) (version_of f.word)
Fact {f} {f'} (mark _ _) =
    (f'.word ≡ f.word) ⊎ ((get_state f.word ≡ unlocked) × Holds f'.word marked (version_of f.word))
Fact {f} {f'} (release_x _) =
    (get_state f.word ≡ locked) × Holds f'.word unlocked (version_of f.word + 1)
Fact {f} {f'} (release_invalid _) =
    (get_state f.word ≡ locked) × Holds f'.word invalid (version_of f.word + 1)
Fact {f} {f'} (downgrade _) = (get_state f.word ≡ locked) × Holds f'.word 1 (version_of f.word + 1)
Fact {f} {f'} (release_s _) =
    (0 < get_state f.word)
    × (get_state f.word ≤ max_shared)
    × Holds f'.word (get_state f.word - 1) (version_of f.word)
Fact {f} {f'} (release_again _) = f'.word ≡ f.word
Fact {f} {f'} (upgrade _) = (get_state f.word ≡ 1) × Holds f'.word locked (version_of f.word)
Fact {f} {f'} (upgrade_fails _) = f'.word ≡ f.word
Fact {f} {f'} (read _) = get_state f.word ≤ max_shared
Fact {f} {f'} (read_marked _) =
    (get_state f.word ≡ marked) × Holds f'.word unlocked (version_of f.word)
Fact {f} {f'} (check {version} _) = Accepts version f.word (true, f'.word)
Fact {f} {f'} (restart _) = f'.word ≡ f.word
Fact _ = Unit

pub fact :
    {f f' : Frame} {p p' : Pc} (mv : Move f p f' p')
    → version_of f.word ≤ version_of f'.word
    → f.word < 2 ^ 64
    → IsFresh f p
    → Fact mv
fact {f} (lock_x {old} {w} asks h) up fits good = lock_x_fact old f.word w asks h
fact {f} (lock_s {old} {w} h) up fits good = lock_s_fact old f.word w h
fact {f} (mark {old} {w} free h) up fits good = mark_fact old f.word w free h
fact {f} (release_x {w} h) up fits good = unlock_x_fact f.word w up h
fact {f} (release_invalid {w} h) up fits good = unlock_x_invalid_fact f.word w up h
fact {f} (downgrade {w} h) up fits good = downgrade_fact f.word w up h
fact {f} (release_s {old} {w} h) up fits good = release_s_fact old f.word w h
fact {f} (release_again {old} {w} h) up fits good = release_again_fact old f.word w h
fact {f} (upgrade {old} {w} h) up fits good =
    let e : (get_state old ≡ 1) × (f.word ≡ old) × Holds w locked (version_of f.word) =
      try_upgrade-Effect old f.word w h in
    (ground arith, e.2)
fact {f} (upgrade_fails {old} {w} h) up fits good = try_upgrade_fails old f.word w h
fact (read h) up fits good = h
fact {f} (read_marked h) up fits good = (h, same_version-unlocked f.word)
fact {f} (check {version} h) up fits good =
    rw h at (check_version-Accepts version f.word good.0 fits)
fact {f} (restart {version} h) up fits good =
    rw h at (check_version-Accepts version f.word good.0 fits)
fact _ up fits good = tt
