-- ===== src/PageState/Laws.antt =====
-- page.hpp, `struct PageState`: what the packing functions and each operation do to the state byte
-- and to the version, on every branch.
use cloud_project.Prelude.{
  ℕ, ◌+◌, ◌-◌, ◌*◌, ◌%◌, ◌^◌, ◌≤◌, ◌<◌, ◌≡◌, ◌≢◌, refl, ◌⊎◌, inl, inr, Bool, true, false, Option,
  none, some, arith, Bool-cases, ltb, leb, ltb→lt, lt→ltb, ==_iff, ◌==◌, if◌then◌else◌, u64, shl,
  shr,
}
use cloud_project.Prelude.Bits.{bit_or-fields}
use cloud_project.PageState.{
  unlocked, max_shared, marked, locked, invalid, get_state, version_of, same_version, next_version,
  try_lock_x, unlock_x, unlock_x_invalid, downgrade_lock, try_lock_s, unlock_s_round, try_mark,
  compare_exchange,
}

low_fields : (v : ℕ) → shr (shl v 8) 8 ≡ v % 2 ^ 56
low_fields v = omega arith

high_field : (s : ℕ) → s < 256 → shl s 56 ≡ s * 2 ^ 56
high_field s h = omega arith

pub same_version_lem : (v s : ℕ) → s < 256 → same_version v s ≡ v % 2 ^ 56 + s * 2 ^ 56
unfolding same_version
same_version_lem v s h =
    rw (low_fields v, high_field s h) (bit_or-fields 56 (v % 2 ^ 56) s (omega arith))

pub next_version_lem :
    (v s : ℕ)
    → s < 256
    → version_of v + 1 < 2 ^ 56
    → next_version v s ≡ version_of v + 1 + s * 2 ^ 56
unfolding next_version
next_version_lem v s h room =
    let e : u64 (v % 2 ^ 56 + 1) ≡ version_of v + 1 = omega arith in
    rw (low_fields v, high_field s h, e) (bit_or-fields 56 (version_of v + 1) s room)

-- A word with state `s` and version `k`.
pub record Holds (w s k : ℕ) : Type 0 where
  pub state : get_state w ≡ s
  pub version : version_of w ≡ k
  pub fits : w < 2 ^ 64

-- Both packing functions put the state in the high byte; the one keeps the version, the other
-- counts it up while it is below its last value.
pub same_version-Holds : (v s : ℕ) → s < 256 → Holds (same_version v s) s (version_of v)
same_version-Holds v s h = omega (arith, same_version_lem v s h)

pub next_version-Holds :
    (v s : ℕ) → s < 256 → version_of v + 1 < 2 ^ 56 → Holds (next_version v s) s (version_of v + 1)
next_version-Holds v s h room = omega (arith, next_version_lem v s h room)

-- What a compare-exchange against `old` leaves when it is to write state `s` at the same version.
abbrev pub Effect : (old w s : ℕ) → Bool × ℕ → Type 0
Effect old w s (true, w') = (w ≡ old) × Holds w' s (version_of w)
Effect old w s (false, w') = (w ≢ old) × (w' ≡ w)

compare_exchange-Effect :
    (old w s : ℕ) → s < 256 → Effect old w s (compare_exchange w old (same_version old s))
compare_exchange-Effect old w s h = elim (Bool-cases (w == old)) [
  | inl same ↦
      let e : w ≡ old = (==_iff w old).0 same in rw same (e, rw e (same_version-Holds old s h))
  | inr other ↦ rw other ((λ e. ground (arith, e)), refl)
]

-- The operation goes through, and has the effect of a compare-exchange that writes `s`.
abbrev pub Goes : (old w s : ℕ) → Option (Bool × ℕ) → Type 0
Goes old w s none = ⊥
Goes old w s (some r) = Effect old w s r

-- `tryLockX` meets its assertion when the state that it was called with is unlocked or above the
-- shared ones, and then takes the word to state `locked` at the same version if, and only if, the
-- word is still the one it was called with. Otherwise the word is left alone.
pub try_lock_x-Goes :
    (old w : ℕ)
    → (get_state old ≡ unlocked) ⊎ (max_shared < get_state old)
    → Goes old w locked (try_lock_x old w)
unfolding try_lock_x
try_lock_x-Goes old w (inl h) = rw h (compare_exchange-Effect old w locked (omega arith))
try_lock_x-Goes old w (inr h) = elim (Bool-cases (get_state old == unlocked)) [
  | inl e ↦ rw e (compare_exchange-Effect old w locked (omega arith))
  | inr e ↦ rw (e, lt→ltb _ _ h) (compare_exchange-Effect old w locked (omega arith))
]

pub try_mark-Goes : (old w : ℕ) → get_state old ≡ unlocked → Goes old w marked (try_mark old w)
unfolding try_mark
try_mark-Goes old w h = rw h (compare_exchange-Effect old w marked (omega arith))

-- The next shared state that `tryLockS` asks for, if it asks for one.
abbrev pub shared_after : ℕ → Option ℕ
shared_after s = if ltb s max_shared then some (s + 1) else if s == marked then some 1 else none

abbrev pub TakesShared : (old w : ℕ) → Option ℕ → Bool × ℕ → Type 0
TakesShared old w none r = r ≡ (false, w)
TakesShared old w (some s) r = Effect old w s r

-- `tryLockS` counts one more holder below the largest count, takes a marked frame to one holder,
-- and refuses at the largest count, at `locked` and at `invalid` without touching the word.
pub try_lock_s-TakesShared :
    (old w : ℕ) → TakesShared old w (shared_after (get_state old)) (try_lock_s old w)
unfolding try_lock_s
try_lock_s-TakesShared old w = elim (Bool-cases (ltb (get_state old) max_shared)) [
  | inl low ↦
      rw low (compare_exchange-Effect old w (get_state old + 1) (omega (arith, ltb→lt _ _ low)))
  | inr high ↦ rw high (elim (Bool-cases (get_state old == marked)) [
    | inl m ↦ rw m (compare_exchange-Effect old w 1 (omega arith))
    | inr m ↦ rw m refl
  ])
]

pub unlock_s_round-Goes :
    (old w : ℕ)
    → 0 < get_state old
    → get_state old ≤ max_shared
    → Goes old w (get_state old - 1) (unlock_s_round old w)
unfolding unlock_s_round
unlock_s_round-Goes old w pos small =
    let low : ltb 0 (get_state old) ≡ true = lt→ltb _ _ pos in
    let high : leb (get_state old) max_shared ≡ true = ground arith in
    rw (low, high) (compare_exchange-Effect old w (get_state old - 1) (omega arith))

-- What `unlockX`, `unlockXInvalid` and `downgradeLock` leave: state `s` and the next version.
abbrev pub Releases : (w s : ℕ) → Option ℕ → Type 0
Releases w s none = ⊥
Releases w s (some w') = Holds w' s (version_of w + 1)

module _ (w : ℕ) (held : get_state w ≡ locked) (room : version_of w + 1 < 2 ^ 56) where
  pub unlock_x-Releases : Releases w unlocked (unlock_x w)
  unfolding unlock_x
  unlock_x-Releases = rw held (next_version-Holds w unlocked (omega arith) room)

  pub unlock_x_invalid-Releases : Releases w invalid (unlock_x_invalid w)
  unfolding unlock_x_invalid
  unlock_x_invalid-Releases = rw held (next_version-Holds w invalid (omega arith) room)

  pub downgrade_lock-Releases : Releases w 1 (downgrade_lock w)
  unfolding downgrade_lock
  downgrade_lock-Releases = rw held (next_version-Holds w 1 (omega arith) room)

-- At the last version `unlockX` carries into the state byte: the frame is left with one shared
-- holder that does not exist, and version 0.
pub unlock_x-carry :
    (w : ℕ)
    → get_state w ≡ locked
    → version_of w + 1 ≡ 2 ^ 56
    → (w' : ℕ) × (unlock_x w ≡ some w') × Holds w' 1 0
unfolding unlock_x next_version
unlock_x-carry w held last =
    let e : u64 (shr (shl w 8) 8 + 1) ≡ 2 ^ 56 = omega arith in (2 ^ 56, rw (held, e), omega arith)
