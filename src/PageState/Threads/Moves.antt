-- ===== src/PageState/Threads/Moves.antt =====
-- A step of thread `i` keeps each part of the invariant.
use cloud_project.Prelude.{ℕ, ◌+◌, ◌^◌, ◌≤◌, ◌<◌, ◌≡◌, refl, arith, sym, ◌∙◌, ℕ_discrete}
use mathlib.Core.Logic.{if_pos, if_neg}
use cloud_project.Prelude.Threads.{
  at_thread, sum_threads, sum_threads-at_thread, le-sum_threads, sum_threads-zero,
}
use cloud_project.PageState.{get_state, version_of}
use cloud_project.PageState.Threads.{
  Frame, Pc, Move, load, System, Step, pick, Reach, start, later, NeverWraps,
}
use cloud_project.PageState.Threads.Invariant.{IsFresh, writers_of, sharers_of, writes, shares, Inv}
use cloud_project.PageState.Threads.Facts.{fact}

module _ {n : ℕ} {f : Frame} {pcs : ℕ → Pc} (inv : Inv n f pcs) (i : ℕ) (i<n : i < n) where
  open inv use {fits, writers, sharers, guards}

  -- What changes in the sums when thread `i` goes from `p` to `p'`.
  record Mover (p p' : Pc) : Type 0 where
    good : IsFresh f p
    writing :
        sum_threads writes n (at_thread i p' pcs) + writes p ≡ sum_threads writes n pcs + writes p'
    sharing :
        sum_threads shares n (at_thread i p' pcs) + shares p ≡ sum_threads shares n pcs + shares p'
    one_writes : writes p ≤ sum_threads writes n pcs
    one_shares : shares p ≤ sum_threads shares n pcs

  mover : (p' : Pc) → Mover (pcs i) p'
  mover p' = record {
    good = guards i;
    writing = sum_threads-at_thread writes n i p' pcs i<n;
    sharing = sum_threads-at_thread shares n i p' pcs i<n;
    one_writes = le-sum_threads writes n i pcs i<n;
    one_shares = le-sum_threads shares n i pcs i<n;
  }

  Move-counts :
      {p p' : Pc} {f' : Frame}
      → Move f p f' p'
      → version_of f.word ≤ version_of f'.word
      → Mover p p'
      → (f'.word < 2 ^ 64)
        × (sum_threads writes n (at_thread i p' pcs) ≡ writers_of (get_state f'.word))
        × (sum_threads shares n (at_thread i p' pcs) ≡ sharers_of (get_state f'.word))
  Move-counts load up m = ground arith
  Move-counts mv up m = ground (arith, fact mv up fits m.good)

  -- A guard stays good, or its version is now behind.
  Move-IsFresh_other :
      {p p' : Pc} {f' : Frame}
      → Move f p f' p'
      → version_of f.word ≤ version_of f'.word
      → Mover p p'
      → (q : Pc) → IsFresh f q
      → IsFresh f' q
  Move-IsFresh_other load up m q h = h
  Move-IsFresh_other mv up m q h = ground (arith, fact mv up fits m.good)

  Move-IsFresh_own :
      {p p' : Pc} {f' : Frame}
      → Move f p f' p'
      → version_of f.word ≤ version_of f'.word
      → Mover p p'
      → IsFresh f' p'
  Move-IsFresh_own load up m = tt
  Move-IsFresh_own mv up m = ground (arith, fact mv up fits m.good)

  pub Move-Inv :
      {p' : Pc} {f' : Frame}
      → Move f (pcs i) f' p'
      → version_of f.word ≤ version_of f'.word
      → Inv n f' (at_thread i p' pcs)
  Move-Inv {p'} {f'} mv up = record {
    fits = counts.0;
    writers = counts.1;
    sharers = counts.2;
    guards = λ j. elim (ℕ_discrete i j) [
      | yes e ↦ rw (if_pos (ℕ_discrete i j) e) (Move-IsFresh_own mv up m)
      | no ne ↦ rw (if_neg (ℕ_discrete i j) ne) (Move-IsFresh_other mv up m (pcs j) (guards j))
    ];
  }
    where
      m : Mover (pcs i) p'
      m = mover p'

      counts :
          (f'.word < 2 ^ 64)
          × (sum_threads writes n (at_thread i p' pcs) ≡ writers_of (get_state f'.word))
          × (sum_threads shares n (at_thread i p' pcs) ≡ sharers_of (get_state f'.word))
      counts = Move-counts mv up m

pub Step-Inv :
    {n : ℕ} {s t : System}
    → Step n s t
    → version_of s.frame.word ≤ version_of t.frame.word
    → Inv n s.frame s.pc
    → Inv n t.frame t.pc
Step-Inv (pick i lt mv) up inv = Move-Inv inv i lt mv up

-- A word that nobody holds: unlocked, marked or invalid.
abbrev pub IsFree : ℕ → Type 0
IsFree w = (w < 2 ^ 64) × (writers_of (get_state w) ≡ 0) × (sharers_of (get_state w) ≡ 0)

pub Reach-Inv :
    {n w c : ℕ} {s : System} → IsFree w → (r : Reach n w c s) → NeverWraps r → Inv n s.frame s.pc
Reach-Inv {n} {w} {c} free start up = record {
  fits = free.0;
  writers = sum_threads-zero writes n _ (λ _. refl) ∙ sym free.1;
  sharers = sum_threads-zero shares n _ (λ _. refl) ∙ sym free.2;
  guards = λ _. tt;
}
Reach-Inv free (later r st) up = Step-Inv st up.0 (Reach-Inv free r up.1)
