-- ===== src/Cbp/Bandit.antt =====
-- cbp.hpp, v4: two arms with neighbouring exponents, counted by each thread on its own and added up
-- when a thread's count of an arm is full. An access runs alone, so its compare-exchange succeeds.
pub mod Laws
pub mod Accesses
pub mod Counts
use cloud_project.Prelude.{
  ℕ, ◌+◌, ◌-◌, Bool, true, false, ◌&&◌, ◌||◌, not, List, ltb, ◌==◌, if◌then◌else◌, u8, u32, u64,
  sub_u64, bit_and, get_or, set,
}
use cloud_project.Cbp.Defs.{FloatOps, min_log, max_log, v4_flush, num_decision_epochs}

-- An array of two, one for each arm.
pub record Two (A : Type 0) : Type 0 where
  pub zeroth : A
  pub first : A

abbrev pub pick : {A : Type 0} → (arm : ℕ) → Two A → A
pick arm t = if arm == 0 then t.zeroth else t.first

abbrev pub put : {A : Type 0} → (arm : ℕ) → A → Two A → Two A
put arm x t = if arm == 0 then record t { zeroth = x } else record t { first = x }

pub record ArmGlobal : Type 0 where
  pub total : ℕ
  pub hits : ℕ
  pub epoch : ℕ

pub record ThreadAcc : Type 0 where
  pub arm_total : Two ℕ
  pub arm_hits : Two ℕ

pub record Bandit : Type 0 where
  pub g_arm : Two ArmGlobal
  pub arm_lc : Two ℕ
  pub last_decision_epoch : ℕ
  pub t_acc : List ThreadAcc

abbrev pub no_acc : ThreadAcc
no_acc = record {
  arm_total = record { zeroth = 0; first = 0 };
  arm_hits = record { zeroth = 0; first = 0 };
}

unfoldable pub arm_of : (cls : ℕ) → ℕ
arm_of cls = bit_and cls 1

-- The first arm hits more often than the second by more than the margin.
unfoldable pub ahead : (fl : FloatOps) → (a b : ArmGlobal) → Bool
ahead fl a b =
    let rate = λ (g : ArmGlobal). fl.div (fl.of_nat g.hits) (fl.of_nat g.total) in
    fl.less (fl.decimal 5 3) (fl.sub (rate a) (rate b))

-- The decision rule.
unfoldable pub shift : (fl : FloatOps) → Two ArmGlobal → Two ℕ → Two ℕ
shift fl g lc =
    if ahead fl g.zeroth g.first && ltb min_log lc.zeroth
    then record { zeroth = u8 (lc.zeroth - 1); first = lc.zeroth }
    else if ahead fl g.first g.zeroth && ltb lc.first max_log
    then record { zeroth = lc.first; first = u8 (lc.first + 1) }
    else lc

abbrev pub cleared : ArmGlobal → ArmGlobal
cleared g = record g { total = 0; hits = 0 }

unfoldable pub epochs : Two ArmGlobal → ℕ
epochs g = u64 (g.zeroth.epoch + g.first.epoch)

-- The decision is due: enough epochs have passed since the last one.
unfoldable pub due : Bandit → Bool
due b = not (ltb (sub_u64 (epochs b.g_arm) b.last_decision_epoch) num_decision_epochs)

unfoldable pub adapt : (fl : FloatOps) → Bandit → Bandit
adapt fl b =
    let claimed = record b { last_decision_epoch = epochs b.g_arm } in
    if not (due b)
    then b
    else if ltb b.g_arm.zeroth.total v4_flush || ltb b.g_arm.first.total v4_flush
    then claimed
    else record claimed {
      arm_lc = shift fl b.g_arm b.arm_lc;
      g_arm = record { zeroth = cleared b.g_arm.zeroth; first = cleared b.g_arm.first };
    }

-- A thread's counts of one arm are added to the global ones.
unfoldable pub flush : (tot hits : ℕ) → ArmGlobal → ArmGlobal
flush tot hits g = record {
  total = u64 (g.total + tot);
  hits = u64 (g.hits + hits);
  epoch = u64 (g.epoch + 1);
}

unfoldable pub note_access_v4 : (fl : FloatOps) (thread cls : ℕ) (hit : Bool) → Bandit → Bandit
note_access_v4 fl thread cls hit b =
    let arm = arm_of cls in
    let a = get_or b.t_acc thread no_acc in
    let tot = u32 (pick arm a.arm_total + 1) in
    let hits = u32 (pick arm a.arm_hits + (if hit then 1 else 0)) in
    let keep = λ (t h : ℕ).
      set b.t_acc thread
        (record { arm_total = put arm t a.arm_total; arm_hits = put arm h a.arm_hits }) in
    if ltb tot v4_flush
    then record b { t_acc = keep tot hits }
    else adapt fl
        (record b { t_acc = keep 0 0; g_arm = put arm (flush tot hits (pick arm b.g_arm)) b.g_arm })
