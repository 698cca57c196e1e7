-- ===== src/Cbp/Tests/Modes.antt =====
-- The bandit, the probes and the modes at concrete inputs.
use cloud_project.Prelude.{
  ℕ, ◌%◌, ◌^◌, ◌≤◌, ◌≡◌, ◌↔◌, inl, inr, refl, true, false, Bool, if◌then◌else◌, List, [], ◌∷◌,
  arith, replicate, some, none, Option,
}
use cloud_project.Prelude.Int.{pos, negsuc}
use cloud_project.Cbp.Defs.{min_log, max_log}
use cloud_project.Cbp.Bandit.{Bandit, no_acc}
use cloud_project.Cbp.Probing.{
  Probing, tried, on_window, finish, accepts, open_probe, probe_dir, phase_stable, smooth,
}
use cloud_project.Cbp.Probing.Laws
use cloud_project.Cbp.Probing.Trials.{is_better, trial, trial_lem, trial_unmeasured}
use cloud_project.Cbp.Probing.Confined.{Starts}
use cloud_project.Cbp.Control.{
  Cbp, Environment, exponent, decide_for_class, note_access_for, note_attempt_for, on_window_for,
  start_of, tpb_start_of, ranged, is_on, mask_for, fresh_class, init,
}
use cloud_project.Cbp.Control.Laws.{IsValid, noting-IsValid, decide_for_class_iff}
use cloud_project.Cbp.Control.Start.{init-IsValid, init_beyond}
use cloud_project.Cbp.Tests.{fixed_point}

abbrev env : (log : Option ℕ) (v4 : Option ℕ) → Environment fixed_point
env log v4 = record {
  cbp = some 49;
  cbp_static = none;
  cbp_v4 = v4;
  tpb = none;
  cbp_log = log;
  tpb_init_lc = none;
  tpb_phase_tol = none;
  tpb_probe_every = some 2;
}

abbrev begun : Cbp fixed_point
begun = init fixed_point (env (some 7) none)

begun-IsValid : IsValid fixed_point begun
unfolding start_of ranged
begun-IsValid = (init-IsValid fixed_point (env (some 7) none) (omega arith)).0

init-IsValid_example :
    IsValid fixed_point begun
    × Starts fixed_point (tpb_start_of (env (some 7) none)) begun.tpb
    × (min_log ≤ tpb_start_of (env (some 7) none))
    × (tpb_start_of (env (some 7) none) ≤ max_log)
unfolding start_of ranged
init-IsValid_example = init-IsValid fixed_point (env (some 7) none) (omega arith)

init_beyond_example : exponent 3 (init fixed_point (env (some 14) (some 49))) ≡ 15
unfolding is_on
init_beyond_example = init_beyond fixed_point (env (some 14) (some 49)) 3 refl refl refl refl

noting-IsValid_example :
    IsValid fixed_point (note_access_for 0 3 true 16 begun)
    × IsValid fixed_point (note_attempt_for 3 begun)
    × IsValid fixed_point (on_window_for 100 begun)
noting-IsValid_example = noting-IsValid fixed_point 0 3 true 16 100 begun begun-IsValid

decide_for_class_iff_example :
    (min_log ≤ exponent 3 begun)
    × (exponent 3 begun ≤ max_log)
    × ((decide_for_class 3 256 begun ≡ true) ↔ (256 % 2 ^ exponent 3 begun ≡ 0))
decide_for_class_iff_example = decide_for_class_iff fixed_point 3 256 begun begun-IsValid

-- With the exponent 7, 256 promotes and 257 does not.
decisions :
    (decide_for_class 3 256 begun ≡ true)
    × (decide_for_class 3 257 begun ≡ false)
    × (exponent 3 begun ≡ 7)
unfolding decide_for_class mask_for exponent init fresh_class start_of ranged is_on
decisions = (refl, refl, refl)

abbrev bandit : Bandit
bandit = record {
  g_arm = record {
    zeroth = record { total = 0; hits = 0; epoch = 0 };
    first = record { total = 0; hits = 0; epoch = 0 };
  };
  arm_lc = record { zeroth = 5; first = 6 };
  last_decision_epoch = 0;
  t_acc = no_acc ∷ [];
}

abbrev run : List Bool
run = replicate 4095 true

-- At exponent 5, with a probe due at the next window.
abbrev idle : Probing fixed_point
idle = record {
  lc_active = 5;
  lc_base = 5;
  lc_probe = 5;
  probing = false;
  window_idx = 7;
  base_pre = pos 0;
  probe_tps = pos 0;
  last_dir = negsuc 0;
  base_ewma = pos 0;
  probe_every = 8;
  phase_tol = pos 150_000;
}

idle-IsValid : cloud_project.Cbp.Probing.Laws.IsValid fixed_point idle
idle-IsValid = record {
  low = omega arith;
  high = omega arith;
  dir = inr refl;
  idle = λ _. refl;
  active = inl refl;
  probe_low = λ h. omega arith;
  probe_high = λ h. omega arith;
  probe = λ h. ground arith;
}

trial_lem_example :
    ((on_window fixed_point true 100 idle).lc_active ≡ tried 5 (negsuc 0))
    × ((on_window fixed_point true 120 (on_window fixed_point true 100 idle)).lc_active ≡ 5)
    × ((trial fixed_point 100 120 104 idle).probing ≡ false)
    × ((trial fixed_point 100 120 104 idle).lc_active
        ≡ (trial fixed_point 100 120 104 idle).lc_base)
    × ((trial fixed_point 100 120 104 idle).lc_base
        ≡ (if is_better fixed_point (pos 150_000) 100 120 104 then tried 5 (negsuc 0) else 5))
    × (tried
          (trial fixed_point 100 120 104 idle).lc_base
          (trial fixed_point 100 120 104 idle).last_dir
        ≡ (if is_better fixed_point (pos 150_000) 100 120 104 then 5 else tried 5 (negsuc 0)))
trial_lem_example = trial_lem fixed_point 100 120 104 idle idle-IsValid refl refl refl refl

-- The probe of exponent 4 is adopted.
adopted : (trial fixed_point 100 120 104 idle).lc_base ≡ 4
unfolding on_window finish accepts open_probe tried probe_dir phase_stable smooth
adopted = refl

trial_unmeasured_example :
    ((on_window fixed_point true 0 (on_window fixed_point true 100 idle)).lc_active ≡ 5)
    × ((trial fixed_point 100 0 104 idle).probe_tps ≡ pos 104_000_000)
    × ((trial fixed_point 100 0 104 idle).lc_probe ≡ tried 5 (negsuc 0))
    × ((trial fixed_point 100 0 104 idle).probing ≡ true)
trial_unmeasured_example = trial_unmeasured fixed_point 100 104 idle refl refl refl
