-- ===== src/Cbp/Probing/Confined.antt =====
-- cbp.hpp, TPB: which exponents the probes ever try.
use cloud_project.Prelude.{ℕ, ◌+◌, ◌≤◌, ◌≡◌, true, false, List, [], ◌∷◌}
use cloud_project.Prelude.Int.{negsuc}
use cloud_project.Cbp.Defs.{FloatOps}
use cloud_project.Cbp.HillClimb.Laws.{IsDir}
use cloud_project.Cbp.Probing.{Probing, probe_dir, tried, on_window}

-- All that `p` has used or will use is `lo` and the exponent above it.
pub record Confined (fl : FloatOps) (lo : ℕ) (p : Probing fl) : Type 0 where
  pub low : lo ≤ p.lc_base
  pub high : p.lc_base ≤ lo + 1
  pub dir : IsDir p.last_dir
  pub other : p.lc_base + tried p.lc_base p.last_dir ≡ lo + (lo + 1)
  pub trial :
      p.probing ≡ true
      → (p.lc_probe ≡ tried p.lc_base p.last_dir) × (probe_dir p.lc_base p.last_dir ≡ p.last_dir)
  pub active_low : lo ≤ p.lc_active
  pub active_high : p.lc_active ≤ lo + 1

-- Windows in a row, by their numbers of transactions.
pub on_windows : (fl : FloatOps) → List ℕ → Probing fl → Probing fl
on_windows fl [] p = p
on_windows fl (tx ∷ txs) p = on_windows fl txs (on_window fl true tx p)

-- The state that `init` leaves for an exponent to start from.
pub record Starts (fl : FloatOps) (start : ℕ) (p : Probing fl) : Type 0 where
  pub base : p.lc_base ≡ start
  pub active : p.lc_active ≡ start
  pub idle : p.probing ≡ false
  pub dir : p.last_dir ≡ negsuc 0
