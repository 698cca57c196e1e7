-- ===== src/Prelude/Threads.antt =====
-- A value for each thread: change it at one thread, and add a weight up over the first threads.
use Prim.Native.Nat.{ℕ, zero, suc, ◌+◌, ◌≤◌, ◌<◌}
use mathlib.Core.Path.{◌≡◌, refl}
use mathlib.Core.Logic.{ite}
use native.Mathlib.Decide.{dec_lt, ℕ_discrete}
use native.Mathlib.Omega.{arith}

abbrev pub at_thread {ℓ} : {A : Type ℓ} → ℕ → A → (ℕ → A) → ℕ → A
at_thread i a pcs j = ite (ℕ_discrete i j) a (pcs j)

module _ {ℓ} {A : Type ℓ} (weight : A → ℕ) where
  pub sum_threads : ℕ → (ℕ → A) → ℕ
  sum_threads zero pcs = 0
  sum_threads (suc n) pcs = weight (pcs n) + sum_threads n pcs

  sum_threads-outside :
      (n i : ℕ) (a : A) (pcs : ℕ → A)
      → n ≤ i
      → sum_threads n (at_thread i a pcs) ≡ sum_threads n pcs
  unfolding sum_threads
  sum_threads-outside zero i a pcs out = refl
  sum_threads-outside (suc n) i a pcs out = ground (arith, sum_threads-outside n i a pcs)

  -- A change at one thread changes the sum by the change of its weight.
  pub sum_threads-at_thread :
      (n i : ℕ) (a : A) (pcs : ℕ → A)
      → i < n
      → sum_threads n (at_thread i a pcs) + weight (pcs i) ≡ sum_threads n pcs + weight a
  unfolding sum_threads
  sum_threads-at_thread zero i a pcs h = absurd (omega arith)
  sum_threads-at_thread (suc n) i a pcs h = elim (dec_lt i n) [
    | yes inside ↦ ground (arith, sum_threads-at_thread n i a pcs inside)
    | no top ↦ ground (arith, sum_threads-outside n i a pcs)
  ]

  pub le-sum_threads : (n i : ℕ) (pcs : ℕ → A) → i < n → weight (pcs i) ≤ sum_threads n pcs
  unfolding sum_threads
  le-sum_threads zero i pcs h = absurd (omega arith)
  le-sum_threads (suc n) i pcs h = elim (dec_lt i n) [
    | yes inside ↦ omega (arith, le-sum_threads n i pcs inside)
    | no top ↦ ground arith
  ]

  -- Two threads count twice.
  pub le-sum_threads_two :
      (n i j : ℕ) (pcs : ℕ → A)
      → i < j
      → j < n
      → weight (pcs i) + weight (pcs j) ≤ sum_threads n pcs
  unfolding sum_threads
  le-sum_threads_two zero i j pcs p q = absurd (omega arith)
  le-sum_threads_two (suc n) i j pcs p q = elim (dec_lt j n) [
    | yes inside ↦ omega (arith, le-sum_threads_two n i j pcs p inside)
    | no top ↦ ground (arith, le-sum_threads n i pcs)
  ]

  pub sum_threads-zero :
      (n : ℕ) (pcs : ℕ → A) → ((i : ℕ) → weight (pcs i) ≡ 0) → sum_threads n pcs ≡ 0
  unfolding sum_threads
  sum_threads-zero zero pcs h = refl
  sum_threads-zero (suc n) pcs h = omega (arith, h n, sum_threads-zero n pcs h)
