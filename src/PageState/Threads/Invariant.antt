-- ===== src/PageState/Threads/Invariant.antt =====
-- Who holds the frame's lock: true at the start, kept by every step of every thread.
use cloud_project.Prelude.{
  ℕ, ◌^◌, ◌≤◌, ◌<◌, ◌≡◌, ◌≢◌, ◌⊎◌, Bool, true, false, arith, leb, ◌==◌, if◌then◌else◌, shl, ==_iff,
}
use cloud_project.Prelude.Threads.{sum_threads}
use cloud_project.PageState.{
  unlocked, max_shared, marked, locked, get_state, version_of, same_version, try_upgrade,
}
use cloud_project.PageState.Laws.{Holds, same_version-Holds}
use cloud_project.PageState.Threads.{
  Frame, Pc, exclusive, shared, releasing, upgrading, reading, check_version,
}

abbrev pub writes : Pc → ℕ
writes exclusive = 1
writes _ = 0

abbrev pub shares : Pc → ℕ
shares shared = 1
shares (releasing _) = 1
shares (upgrading _) = 1
shares _ = 0

-- A guard's version is not ahead of the word's, and while it is the word's version and nobody is
-- writing, the page holds what it held when the guard was taken. A word loaded by `unlockS` has a shared state.
abbrev pub IsFresh : Frame → Pc → Type 0
IsFresh f (reading v found) =
    (get_state v ≤ max_shared)
    × (version_of v ≤ version_of f.word)
    × (version_of v ≡ version_of f.word → get_state f.word ≢ locked → f.contents ≡ found)
IsFresh f (releasing old) = (0 < get_state old) × (get_state old ≤ max_shared)
IsFresh f _ = Unit

abbrev pub writers_of : ℕ → ℕ
writers_of s = if s == locked then 1 else 0

abbrev pub sharers_of : ℕ → ℕ
sharers_of s = if leb s max_shared then s else 0

-- The state byte counts the holders: one writer at `locked`, as many sharers as a shared state says.
pub record Inv (n : ℕ) (f : Frame) (pcs : ℕ → Pc) : Type 0 where
  pub fits : f.word < 2 ^ 64
  pub writers : sum_threads writes n pcs ≡ writers_of (get_state f.word)
  pub sharers : sum_threads shares n pcs ≡ sharers_of (get_state f.word)
  pub guards : (i : ℕ) → IsFresh f (pcs i)

-- What `checkVersionAndRestart` accepts: the guard's version with the frame not locked and not
-- invalid; it clears a mark, and changes nothing else.
abbrev pub Accepts : (v w : ℕ) → Bool × ℕ → Type 0
Accepts v w (true, w') =
    (version_of w ≡ version_of v)
    × (version_of w' ≡ version_of w)
    × (w' < 2 ^ 64)
    × (((get_state w ≤ max_shared) × (w' ≡ w))
        ⊎ ((get_state w ≡ marked) × (get_state w' ≡ unlocked)))
Accepts v w (false, w') = w' ≡ w

shl-version : (v w : ℕ) → shl w 8 ≡ shl v 8 → version_of w ≡ version_of v
shl-version v w h = omega arith

pub same_version-unlocked : (w : ℕ) → Holds (same_version w unlocked) unlocked (version_of w)
same_version-unlocked w = same_version-Holds w unlocked (omega arith)

pub check_version-Accepts :
    (v w : ℕ) → get_state v ≤ max_shared → w < 2 ^ 64 → Accepts v w (check_version v w)
unfolding check_version
check_version-Accepts v w low fits = ground (
  arith,
  ==_iff w v,
  ==_iff (shl w 8) (shl v 8),
  shl-version v w,
  same_version-unlocked w,
  ==_iff w w,
)

pub try_upgrade-Effect :
    (old w w' : ℕ)
    → try_upgrade old w ≡ (true, w')
    → (get_state old ≡ 1) × (w ≡ old) × Holds w' locked (version_of w)
unfolding try_upgrade
try_upgrade-Effect old w w' h =
    ground (arith, ==_iff w old, same_version-Holds old locked (omega arith))

pub try_upgrade_fails : (old w w' : ℕ) → try_upgrade old w ≡ (false, w') → w' ≡ w
unfolding try_upgrade
try_upgrade_fails old w w' h = ground arith
