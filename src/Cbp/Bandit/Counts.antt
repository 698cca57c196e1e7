-- ===== src/Cbp/Bandit/Counts.antt =====
-- cbp.hpp, v4: a thread's accesses in a row, from one flush to the next.
use cloud_project.Prelude.{◌⊎◌, u64, ℕ, ◌+◌, ◌≤◌, ◌<◌, ◌≡◌, sub_u64}
use cloud_project.Cbp.Defs.{FloatOps, v4_flush, num_decision_epochs}
use cloud_project.Cbp.Bandit.{shift, ArmGlobal, Two, pick, put, Bandit, arm_of}

-- The arms' counters with one full count of hits and misses more.
abbrev pub counters : (cls h : ℕ) → Bandit → Two ArmGlobal
counters cls h b =
    let g = pick (arm_of cls) b.g_arm in
    put (arm_of cls)
      (record {
        total = u64 (g.total + v4_flush);
        hits = u64 (g.hits + h);
        epoch = u64 (g.epoch + 1);
      })
      b.g_arm

-- The epochs of both arms, and how many have passed since the last decision.
abbrev pub all_epochs : Two ArmGlobal → ℕ
all_epochs g = u64 (g.zeroth.epoch + g.first.epoch)

abbrev pub passed : (cls h : ℕ) → Bandit → ℕ
passed cls h b = sub_u64 (all_epochs (counters cls h b)) b.last_decision_epoch

-- What is left of the arms, with `h` hits in the full count.
pub record Decides (fl : FloatOps) (cls h : ℕ) (b b' : Bandit) : Type 0 where
  pub early :
      passed cls h b < num_decision_epochs
      → (b'.g_arm ≡ counters cls h b)
        × (b'.arm_lc ≡ b.arm_lc)
        × (b'.last_decision_epoch ≡ b.last_decision_epoch)
  pub few :
      num_decision_epochs ≤ passed cls h b
      → ((counters cls h b).zeroth.total < v4_flush) ⊎ ((counters cls h b).first.total < v4_flush)
      → (b'.g_arm ≡ counters cls h b)
        × (b'.arm_lc ≡ b.arm_lc)
        × (b'.last_decision_epoch ≡ all_epochs (counters cls h b))
  pub enough :
      num_decision_epochs ≤ passed cls h b
      → v4_flush ≤ (counters cls h b).zeroth.total
      → v4_flush ≤ (counters cls h b).first.total
      → (b'.g_arm ≡ record {
        zeroth = record (counters cls h b).zeroth { total = 0; hits = 0 };
        first = record (counters cls h b).first { total = 0; hits = 0 };
      })
        × (b'.arm_lc ≡ shift fl (counters cls h b) b.arm_lc)
        × (b'.last_decision_epoch ≡ all_epochs (counters cls h b))
