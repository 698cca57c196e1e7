-- ===== src/VersionedLock/Laws.antt =====
-- versioned_lock.hpp: what the bucket lock's operations do to the lock bit and the version.
use cloud_project.Prelude.{
  ◌⊎◌, inl, inr, ap, ◌∙◌, ◌≤◌, ◌==◌, ne→==_false, Bool-cases, ℕ, ◌+◌, ◌-◌, ◌^◌, ◌<◌, ◌≡◌, ◌≢◌, refl,
  Bool, true, false, Option, none, some, arith, ==_iff, u64, shl, shr,
}
use cloud_project.Prelude.Bits.{bit_or-fields}
use cloud_project.VersionedLock.{is_locked, with_lock_bit, try_lock_at, lock_round, unlock}

pub with_lock_bit_lem : (v : ℕ) → v < 2 ^ 63 → with_lock_bit v ≡ v + 2 ^ 63
unfolding with_lock_bit
with_lock_bit_lem v h = bit_or-fields 63 v 1 h

-- An attempt against `old`: the lock bit is set on the same version exactly when the word is `old`.
abbrev pub Attempt : (old w : ℕ) → Option (Bool × ℕ) → Type 0
Attempt old w none = ⊥
Attempt old w (some (true, w')) = (w ≡ old) × (w' ≡ w + 2 ^ 63)
Attempt old w (some (false, w')) = (w ≢ old) × (w' ≡ w)

-- An unlocked version is locked by `tryLock(v)` if the word is still `v`; otherwise nothing happens.
pub try_lock_at-Attempt : (old w : ℕ) → old < 2 ^ 63 → Attempt old w (try_lock_at old w)
unfolding try_lock_at
try_lock_at-Attempt old w h =
    let open_bit : shr old 63 ≡ 0 = omega arith in
    rw open_bit (ground (arith, ==_iff w old, with_lock_bit_lem old h))

-- Before the last version, a lock and the unlock after it leave the next version, unlocked; so
-- whoever loaded the word before the lock finds another word afterwards.
pub unlock-try_lock_at :
    (v w' : ℕ)
    → v + 1 < 2 ^ 63
    → try_lock_at v v ≡ some (true, w')
    → (is_locked w' ≡ true) × (unlock w' ≡ some (v + 1))
unfolding unlock
unlock-try_lock_at v w' room h =
    let e : w' ≡ v + 2 ^ 63 =
      let a : Attempt v v (some (true, w')) = rw h at (try_lock_at-Attempt v v (omega arith)) in
      a.1 in
    let bit : shr (v + 2 ^ 63) 63 ≡ 1 = omega arith in
    let next : u64 (shr (shl (v + 2 ^ 63) 1) 1 + 1) ≡ v + 1 = omega arith in
    rw (e, bit, next) (refl, refl)

-- At the last version the increment of `unlock` sets the lock bit again.
pub unlock_carry : unlock (2 ^ 64 - 1) ≡ some (2 ^ 63)
unfolding unlock
unlock_carry = refl

-- Whenever `lock()` takes the lock, its assertion fails: it reads the word from before.
pub lock_round-aborts : (v : ℕ) → v < 2 ^ 63 → lock_round v v ≡ none
unfolding lock_round
lock_round-aborts v h = let open_bit : shr v 63 ≡ 0 = omega arith in ground (arith, ==_iff v v)

lock_round_other : (v w : ℕ) → w ≢ v → lock_round v w ≡ some (false, w)
unfolding lock_round
lock_round_other v w other =
    let fails : (w == v) ≡ false = ne→==_false w v other in
    elim (Bool-cases (shr v 63 == 0)) [
      | inl open_bit ↦ rw (fails, open_bit) refl
      | inr set_bit ↦ rw (fails, set_bit) refl
    ]

lock_round_held : (v w : ℕ) → v < 2 ^ 64 → 2 ^ 63 ≤ v → lock_round v w ≡ some (false, w)
unfolding lock_round
lock_round_held v w fits held = let bit : shr v 63 ≡ 1 = omega arith in rw bit refl

-- With assertions, no round of `lock()` returns: where the loaded word is unlocked and still there the
-- assertion fails, behind the compare-exchange that has taken the lock; everywhere else the round goes
-- on to the next one and leaves the word alone.
pub lock_round_never :
    (v w : ℕ)
    → v < 2 ^ 64
    → ((w ≡ v) × (v < 2 ^ 63) → lock_round v w ≡ none)
      × ((w ≢ v) ⊎ (2 ^ 63 ≤ v) → lock_round v w ≡ some (false, w))
lock_round_never v w fits = (taken, not_taken)
  where
    taken : (w ≡ v) × (v < 2 ^ 63) → lock_round v w ≡ none
    taken (same, open_word) = ap (λ x. lock_round v x) same ∙ lock_round-aborts v open_word

    not_taken : (w ≢ v) ⊎ (2 ^ 63 ≤ v) → lock_round v w ≡ some (false, w)
    not_taken (inl other) = lock_round_other v w other
    not_taken (inr held) = lock_round_held v w fits held
