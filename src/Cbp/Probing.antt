-- ===== src/Cbp/Probing.antt =====
-- cbp.hpp, TPB: the controller that is called once for each window of time with the number of
-- transactions of the window. It measures the throughput with another exponent between two windows
-- with the current one, and adopts the other exponent when it was better.
pub mod Laws
pub mod Directions
pub mod Trials
pub mod Confined
use cloud_project.Prelude.{
  ℕ, ◌+◌, ◌%◌, Bool, true, false, ◌&&◌, not, ltb, ◌==◌, if◌then◌else◌, u8, u32,
}
use cloud_project.Prelude.Int.{ℤ, pos, negsuc, ◌+ℤ◌, neg, ltb_ℤ, pos_part}
use cloud_project.Cbp.Defs.{FloatOps, min_log, max_log}

pub record Probing (fl : FloatOps) : Type 0 where
  pub lc_active : ℕ
  pub lc_base : ℕ
  pub lc_probe : ℕ
  pub probing : Bool
  pub window_idx : ℕ
  pub base_pre : fl.F
  pub probe_tps : fl.F
  pub last_dir : ℤ
  pub base_ewma : fl.F
  pub probe_every : ℕ
  pub phase_tol : fl.F

-- The two windows at the current exponent are close to each other.
unfoldable pub phase_stable : (fl : FloatOps) → (phase_tol base_pre base_post : fl.F) → Bool
phase_stable fl phase_tol base_pre base_post =
    fl.less (fl.of_nat 0) base_pre
    && fl.less (fl.div (fl.abs (fl.sub base_pre base_post)) base_pre) phase_tol

abbrev pub base_average : (fl : FloatOps) → (base_pre base_post : fl.F) → fl.F
base_average fl base_pre base_post = fl.mul (fl.decimal 5 1) (fl.add base_pre base_post)

-- The probe is adopted.
unfoldable pub accepts : (fl : FloatOps) → (base_post : fl.F) → Probing fl → Bool
accepts fl base_post p =
    phase_stable fl p.phase_tol p.base_pre base_post
    && fl.less
        (fl.mul (base_average fl p.base_pre base_post) (fl.add (fl.of_nat 1) (fl.decimal 5 3)))
        p.probe_tps

unfoldable pub smooth : (fl : FloatOps) → (ewma x : fl.F) → fl.F
smooth fl ewma x = fl.add (fl.mul (fl.decimal 7 1) ewma) (fl.mul (fl.decimal 3 1) x)

-- The third window: the decision.
unfoldable pub finish : (fl : FloatOps) → (base_post : fl.F) → Probing fl → Probing fl
finish fl base_post p =
    let adopted = accepts fl base_post p in
    let base = if adopted then p.lc_probe else p.lc_base in
    record p {
      lc_base = base;
      last_dir =
          if adopted then (if ltb p.lc_base p.lc_probe then negsuc 0 else pos 1) else p.last_dir;
      lc_active = base;
      base_ewma = smooth fl p.base_ewma (base_average fl p.base_pre base_post);
      probing = false;
      probe_tps = fl.of_nat 0;
    }

-- The direction of the next probe, turned round at a limit.
unfoldable pub probe_dir : (base : ℕ) → ℤ → ℤ
probe_dir base dir =
    if ltb_ℤ (pos base +ℤ dir) (pos min_log)
    then neg dir
    else if ltb_ℤ (pos max_log) (pos base +ℤ dir)
    then neg dir
    else dir

-- The exponent that the next probe tries.
unfoldable pub tried : (base : ℕ) (dir : ℤ) → ℕ
tried base dir = u8 (pos_part (pos base +ℤ probe_dir base dir))

-- A window outside a probe opens one, or waits.
unfoldable pub open_probe : (fl : FloatOps) → (tps : fl.F) → Probing fl → Probing fl
open_probe fl tps p =
    let dir = probe_dir p.lc_base p.last_dir in
    let probe = tried p.lc_base p.last_dir in
    record p {
      base_pre = tps;
      last_dir = dir;
      lc_probe = probe;
      lc_active = probe;
      probing = true;
      probe_tps = fl.of_nat 0;
    }

unfoldable pub on_window :
    (fl : FloatOps) (tpb_mode : Bool) (tx_delta : ℕ) → Probing fl → Probing fl
on_window fl tpb_mode tx_delta p =
    let tps = fl.of_nat tx_delta in
    let next = record p { window_idx = u32 (p.window_idx + 1) } in
    let smoothed = record next { base_ewma = smooth fl p.base_ewma tps } in
    if not tpb_mode
    then p
    else if p.probing
    then (if fl.equal p.probe_tps (fl.of_nat 0)
        then record next { probe_tps = tps; lc_active = p.lc_base }
        else finish fl tps next)
    else if u32 (p.window_idx + 1) % p.probe_every == 0
    then open_probe fl tps smoothed
    else record smoothed { lc_active = p.lc_base }
