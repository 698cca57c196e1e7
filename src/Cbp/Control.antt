-- ===== src/Cbp/Control.antt =====
-- cbp.hpp: the three controllers together: the modes, what an access and an attempt to promote are
-- passed on to, the decision to promote, and the start from the environment.
pub mod Laws
pub mod Start
use cloud_project.Prelude.{
  ℕ, ◌+◌, ◌-◌, ◌*◌, ◌/◌, ◌%◌, ◌^◌, Bool, true, false, ◌&&◌, ◌||◌, not, List, [], ◌∷◌, Option, some,
  none, ltb, leb, ◌==◌, if◌then◌else◌, u8, u32, bit_and, get_or, set, replicate, shr, shl,
}
use cloud_project.Prelude.Int.{ℤ, pos, negsuc}
use cloud_project.Cbp.Defs.{FloatOps, num_classes, class_mask, min_log, max_log, default_log}
use cloud_project.Cbp.HillClimb.{ClassStats, note_attempt}
use cloud_project.Cbp.Bandit.{ArmGlobal, Two, pick, Bandit, no_acc, note_access_v4, arm_of}
use cloud_project.Cbp.Probing.{Probing, on_window}
use cloud_project.Cbp.HillClimb

pub record Cbp (fl : FloatOps) : Type 0 where
  pub enabled : Bool
  pub static_mode : Bool
  pub v4_mode : Bool
  pub tpb_mode : Bool
  pub classes : List ClassStats
  pub bandit : Bandit
  pub tpb : Probing fl

-- A class that `init` has just cleared.
unfoldable pub fresh_class : (start : ℕ) → ClassStats
fresh_class start = record {
  total = 0;
  in_pref = 0;
  promotes = 0;
  log_chance = u8 start;
  last_dir = pos 0;
  warmup = 0;
  last_score_q = pos 0;
}

abbrev pub class_at : {fl : FloatOps} → Cbp fl → (cls : ℕ) → ClassStats
class_at s cls = get_or s.classes cls (fresh_class default_log)

unfoldable pub class_of : (hash : ℕ) → ℕ
class_of hash = bit_and (shr hash 6) class_mask

-- The exponent that a class promotes by in the mode.
unfoldable pub exponent : {fl : FloatOps} → (cls : ℕ) → Cbp fl → ℕ
exponent cls s =
    if s.tpb_mode
    then s.tpb.lc_active
    else if s.v4_mode
    then pick (arm_of cls) s.bandit.arm_lc
    else (class_at s cls).log_chance

unfoldable pub mask_for : {fl : FloatOps} → (cls : ℕ) → Cbp fl → ℕ
mask_for cls s = u32 (2 ^ exponent cls s) - 1

-- `random` is what the generator returned.
unfoldable pub decide_for_class : {fl : FloatOps} → (cls random : ℕ) → Cbp fl → Bool
decide_for_class cls random s = bit_and random (mask_for cls s) == 0

unfoldable pub note_attempt_for : {fl : FloatOps} → (cls : ℕ) → Cbp fl → Cbp fl
note_attempt_for cls s =
    if s.v4_mode
    then s
    else record s { classes = set s.classes cls (note_attempt (class_at s cls)) }

unfoldable pub note_access_for :
    {fl : FloatOps} → (thread cls : ℕ) (hit : Bool) (random : ℕ) → Cbp fl → Cbp fl
note_access_for {fl} thread cls hit random s =
    if s.tpb_mode
    then s
    else if s.v4_mode
    then record s { bandit = note_access_v4 fl thread cls hit s.bandit }
    else record s {
      classes = set s.classes cls (
          cloud_project.Cbp.HillClimb.note_access fl s.static_mode cls hit random (class_at s cls));
    }

-- `tpbOnWindow`, which the statistics thread calls.
unfoldable pub on_window_for : {fl : FloatOps} → (tx_delta : ℕ) → Cbp fl → Cbp fl
on_window_for {fl} tx_delta s = record s { tpb = on_window fl s.tpb_mode tx_delta s.tpb }

-- What `getenv` returns: the first character of a switch (0 for an empty one), and of the other
-- variables what `atoi`, cast to unsigned, or `atof` reads.
pub record Environment (fl : FloatOps) : Type 0 where
  pub cbp : Option ℕ
  pub cbp_static : Option ℕ
  pub cbp_v4 : Option ℕ
  pub tpb : Option ℕ
  pub cbp_log : Option ℕ
  pub tpb_init_lc : Option ℕ
  pub tpb_phase_tol : Option fl.F
  pub tpb_probe_every : Option ℕ

-- `1`, `y` or `Y`.
unfoldable pub is_on : Option ℕ → Bool
is_on none = false
is_on (some ch) = ch == 49 || ch == 121 || ch == 89

-- A number within its limits, or the default.
unfoldable pub ranged : (low high default : ℕ) → Option ℕ → ℕ
ranged low high default none = default
ranged low high default (some x) = if leb low x && leb x high then x else default

unfoldable pub tolerance : (fl : FloatOps) → Option fl.F → fl.F
tolerance fl none = fl.decimal 15 2
tolerance fl (some x) =
    if fl.less (fl.of_nat 0) x && fl.less x (fl.of_nat 100_000)
    then fl.div x (fl.of_nat 100)
    else fl.decimal 15 2

unfoldable pub fresh_bandit : (start : ℕ) → Bandit
fresh_bandit start =
    let g : ArmGlobal = record { total = 0; hits = 0; epoch = 0 } in
    record {
      g_arm = record { zeroth = g; first = g };
      arm_lc = record { zeroth = u8 start; first = u8 (start + 1) };
      last_decision_epoch = 0;
      t_acc = replicate 256 no_acc;
    }

unfoldable pub fresh_probing : (fl : FloatOps) → (start every : ℕ) → fl.F → Probing fl
fresh_probing fl start every phase_tol = record {
  lc_active = u8 start;
  lc_base = u8 start;
  lc_probe = u8 start;
  probing = false;
  window_idx = 0;
  base_pre = fl.of_nat 0;
  probe_tps = fl.of_nat 0;
  last_dir = negsuc 0;
  base_ewma = fl.of_nat 0;
  probe_every = every;
  phase_tol = phase_tol;
}

unfoldable pub start_of : {fl : FloatOps} → Environment fl → ℕ
start_of env = ranged min_log max_log default_log env.cbp_log

unfoldable pub tpb_start_of : {fl : FloatOps} → Environment fl → ℕ
tpb_start_of env = ranged min_log max_log (start_of env) env.tpb_init_lc

unfoldable pub init : (fl : FloatOps) → Environment fl → Cbp fl
init fl env = record {
  enabled = is_on env.cbp || is_on env.cbp_static || is_on env.cbp_v4 || is_on env.tpb;
  static_mode = is_on env.cbp_static;
  v4_mode = is_on env.cbp_v4;
  tpb_mode = is_on env.tpb;
  classes = replicate num_classes (fresh_class (start_of env));
  bandit = fresh_bandit (start_of env);
  tpb =
      fresh_probing fl (tpb_start_of env) (ranged 2 1024 8 env.tpb_probe_every)
        (tolerance fl env.tpb_phase_tol);
}
