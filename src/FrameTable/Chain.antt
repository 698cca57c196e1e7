-- ===== src/FrameTable/Chain.antt =====
-- ht.hpp: the chain of a bucket as a map from page ids to frames.
use cloud_project.Prelude.{
  ℕ, zero, suc, ◌≡◌, ◌≢◌, refl, sym, ap, ◌∙◌, inl, inr, arith, false, Option, none, some, List, [],
  ◌∷◌, ◌==◌, ==_iff, ==_refl, ne→==_false, length, ◌<◌, Bool-cases, if◌then◌else◌, get_or,
}
use cloud_project.FrameTable.Frames.{BufferFrame, position, next, no_frame, unchain}

unfoldable pub lookup : (pid : ℕ) → List BufferFrame → Option BufferFrame
lookup pid [] = none
lookup pid (f ∷ fs) = if f.pid == pid then some f else lookup pid fs

-- No two frames have the same page id.
abbrev pub AreDistinct : List BufferFrame → Type 0
AreDistinct [] = Unit
AreDistinct (f ∷ fs) = (lookup f.pid fs ≡ none) × AreDistinct fs

-- What the walk finds.
abbrev pub Finds : (pid : ℕ) → List BufferFrame → Option ℕ → Type 0
Finds pid fs none = lookup pid fs ≡ none
Finds pid fs (some i) =
    (i < length fs)
    × (lookup pid fs ≡ some (get_or fs i no_frame))
    × ((get_or fs i no_frame).pid ≡ pid)

next-Finds :
    (pid : ℕ) (f : BufferFrame) (fs : List BufferFrame) (o : Option ℕ)
    → (f.pid == pid) ≡ false
    → Finds pid fs o
    → Finds pid (f ∷ fs) (next o)
unfolding lookup
next-Finds pid f fs none other h = rw other h
next-Finds pid f fs (some i) other h = (omega (arith, h.0), rw other h.1, h.2)

pub position-Finds : (pid : ℕ) (fs : List BufferFrame) → Finds pid fs (position pid fs)
unfolding position lookup
position-Finds pid [] = refl
position-Finds pid (f ∷ fs) = elim (Bool-cases (f.pid == pid)) [
  | inl here ↦ rw here (omega arith, rw here refl, (==_iff f.pid pid).0 here)
  | inr other ↦ rw other (next-Finds pid f fs (position pid fs) other (position-Finds pid fs))
]

pub lookup-unchain_none :
    (p i : ℕ) (fs : List BufferFrame) → lookup p fs ≡ none → lookup p (unchain i fs) ≡ none
unfolding lookup unchain
lookup-unchain_none p i [] h = refl
lookup-unchain_none p zero (f ∷ fs) h = ground arith
lookup-unchain_none p (suc i) (f ∷ fs) h = ground (arith, lookup-unchain_none p i fs)

pub unchain-AreDistinct :
    (i : ℕ) (fs : List BufferFrame) → AreDistinct fs → AreDistinct (unchain i fs)
unfolding unchain
unchain-AreDistinct i [] d = d
unchain-AreDistinct zero (f ∷ fs) d = d.1
unchain-AreDistinct (suc i) (f ∷ fs) d =
    (lookup-unchain_none f.pid i fs d.0, unchain-AreDistinct i fs d.1)

lookup-get_or :
    (i : ℕ) (fs : List BufferFrame) → i < length fs → lookup (get_or fs i no_frame).pid fs ≢ none
unfolding lookup
lookup-get_or i [] h e = absurd (omega arith)
lookup-get_or zero (f ∷ fs) h e = ground (arith, ==_refl f.pid)
lookup-get_or (suc i) (f ∷ fs) h e = ground (arith, lookup-get_or i fs)

-- What is taken out is not found any more, and nothing else is lost.
pub lookup-unchain :
    (p i : ℕ) (fs : List BufferFrame)
    → AreDistinct fs
    → i < length fs
    → lookup p (unchain i fs) ≡ (if p == (get_or fs i no_frame).pid then none else lookup p fs)
unfolding lookup unchain
lookup-unchain p i [] d h = absurd (omega arith)
lookup-unchain p zero (f ∷ fs) d h = elim (Bool-cases (p == f.pid)) [
  | inl same ↦
      let e : p ≡ f.pid = (==_iff p f.pid).0 same in rw same (ap (λ x. lookup x fs) e ∙ d.0)
  | inr other ↦ rw other (ground arith)
]
lookup-unchain p (suc i) (f ∷ fs) d h = elim (Bool-cases (f.pid == p)) [
  | inr other ↦ rw other (lookup-unchain p i fs d.1 (omega arith))
  | inl same ↦
      let e : f.pid ≡ p = (==_iff f.pid p).0 same in
      let ne : (p == (get_or fs i no_frame).pid) ≡ false =
        ne→==_false _ _
          (λ k. lookup-get_or i fs (omega arith) (ap (λ x. lookup x fs) (sym (e ∙ k)) ∙ d.0)) in
      rw (same, ne) refl
]
