-- ===== src/Cbp/Control/Laws.antt =====
-- cbp.hpp: what accesses and attempts keep, in every mode, and when an access promotes.
use native.Mathlib.Nat.{pow-le-pow_right}
use cloud_project.Prelude.{
  ℕ, zero, suc, ◌-◌, ◌^◌, ◌%◌, ◌≤◌, ◌≡◌, ◌↔◌, ◌⊎◌, inl, inr, Bool, true, false, arith, ◌==◌, ==_iff,
  if◌then◌else◌, u32, Bool-cases, List, [], ◌∷◌, get_or, set, bit_and,
}
use cloud_project.Prelude.Bits.{bit_and-mask}
use cloud_project.Cbp.Defs.{FloatOps, min_log, max_log}
use cloud_project.Cbp.HillClimb.{ClassStats, note_attempt}
use cloud_project.Cbp.Bandit.{pick, note_access_v4, arm_of}
use cloud_project.Cbp.Bandit.Laws.{IsPair, IsOpen, note_access_v4-IsValid}
use cloud_project.Cbp.Control.{
  Cbp, class_at, exponent, mask_for, decide_for_class, note_attempt_for, note_access_for,
  on_window_for,
}
use cloud_project.Cbp.HillClimb.Laws.{note_access-IsValid}
use cloud_project.Cbp.HillClimb
use cloud_project.Cbp.HillClimb.Laws as ClassLaws
use cloud_project.Cbp.Bandit.Laws as BanditLaws
use cloud_project.Cbp.Probing.Laws.{on_window-IsValid}
use cloud_project.Cbp.Probing.Laws as ProbingLaws

pub record IsValid (fl : FloatOps) (s : Cbp fl) : Type 0 where
  pub classes : (cls : ℕ) → ClassLaws.IsValid (class_at s cls)
  pub bandit : BanditLaws.IsValid s.bandit
  pub tpb : ProbingLaws.IsValid fl s.tpb

note_attempt-IsValid : (c : ClassStats) → ClassLaws.IsValid c → ClassLaws.IsValid (note_attempt c)
unfolding note_attempt
note_attempt-IsValid c v = record {
  low = v.low;
  high = v.high;
  open_window = v.open_window;
  hits = v.hits;
  dir = v.dir;
  byte = v.byte;
}

set-IsValid :
    (xs : List ClassStats) (i : ℕ) (x d : ClassStats)
    → ClassLaws.IsValid x
    → ((j : ℕ) → ClassLaws.IsValid (get_or xs j d))
    → (j : ℕ) → ClassLaws.IsValid (get_or (set xs i x) j d)
set-IsValid [] i x d v all j = all j
set-IsValid (y ∷ ys) zero x d v all zero = v
set-IsValid (y ∷ ys) zero x d v all (suc j) = all (suc j)
set-IsValid (y ∷ ys) (suc i) x d v all zero = all zero
set-IsValid (y ∷ ys) (suc i) x d v all (suc j) = set-IsValid ys i x d v (λ k. all (suc k)) j

-- An access, an attempt to promote and the end of a window of time keep every class, the arms and the probes within their
-- ranges, in every mode.
pub noting-IsValid :
    (fl : FloatOps) (thread cls : ℕ) (hit : Bool) (random tx : ℕ) (s : Cbp fl)
    → IsValid fl s
    → IsValid fl (note_access_for thread cls hit random s)
      × IsValid fl (note_attempt_for cls s)
      × IsValid fl (on_window_for tx s)
unfolding note_access_for note_attempt_for on_window_for
noting-IsValid fl thread cls hit random tx s v = (
  access s.tpb_mode s.v4_mode,
  attempt s.v4_mode,
  record {
    classes = v.classes;
    bandit = v.bandit;
    tpb = (on_window-IsValid fl s.tpb_mode tx s.tpb v.tpb).0;
  },
)
  where
    access :
        (tpb v4 : Bool)
        → IsValid fl (
            if tpb
            then s
            else if v4
            then record s { bandit = note_access_v4 fl thread cls hit s.bandit }
            else record s {
              classes = set s.classes cls (
                  cloud_project.Cbp.HillClimb.note_access fl s.static_mode cls hit random
                    (class_at s cls));
            })
    access true v4 = v
    access false true = record {
      classes = v.classes;
      bandit = (note_access_v4-IsValid fl thread cls hit s.bandit v.bandit).0;
      tpb = v.tpb;
    }
    access false false = record {
      classes =
          set-IsValid s.classes cls _ _
            (note_access-IsValid fl s.static_mode cls hit random (class_at s cls) (v.classes cls)).0
            v.classes;
      bandit = v.bandit;
      tpb = v.tpb;
    }

    attempt :
        (v4 : Bool)
        → IsValid fl (
            if v4
            then s
            else record s { classes = set s.classes cls (note_attempt (class_at s cls)) })
    attempt true = v
    attempt false = record {
      classes =
          set-IsValid s.classes cls _ _ (note_attempt-IsValid (class_at s cls) (v.classes cls))
            v.classes;
      bandit = v.bandit;
      tpb = v.tpb;
    }

exponent_bounds :
    (fl : FloatOps) (cls : ℕ) (s : Cbp fl)
    → IsValid fl s
    → (min_log ≤ exponent cls s) × (exponent cls s ≤ max_log)
unfolding exponent
exponent_bounds fl cls s v = go s.tpb_mode s.v4_mode
  where
    in_use :
        (s.tpb.lc_active ≡ s.tpb.lc_base) ⊎ (s.tpb.lc_active ≡ s.tpb.lc_probe)
        → min_log ≤ s.tpb.lc_probe
        → s.tpb.lc_probe ≤ max_log
        → (min_log ≤ s.tpb.lc_active) × (s.tpb.lc_active ≤ max_log)
    in_use (inl e) low high = omega (arith, e, v.tpb.low, v.tpb.high)
    in_use (inr e) low high = omega (arith, e)

    go :
        (tpb v4 : Bool)
        → let e =
            (if tpb
              then s.tpb.lc_active
              else if v4
              then pick (arm_of cls) s.bandit.arm_lc
              else (class_at s cls).log_chance) in
          (min_log ≤ e) × (e ≤ max_log)
    go true v4 = elim (Bool-cases s.tpb.probing) [
      | inr closed ↦ omega (arith, v.tpb.idle closed, v.tpb.low, v.tpb.high)
      | inl on_trial ↦ in_use v.tpb.active (v.tpb.probe_low on_trial) (v.tpb.probe_high on_trial)
    ]
    go false true = elim (Bool-cases (arm_of cls == 0)) [
      | inl e ↦ rw e (omega (arith, v.bandit.pair.low, v.bandit.pair.next, v.bandit.pair.high))
      | inr e ↦ rw e (omega (arith, v.bandit.pair.low, v.bandit.pair.next, v.bandit.pair.high))
    ]
    go false false = ((v.classes cls).low, (v.classes cls).high)

mask_lem :
    (e random : ℕ) → min_log ≤ e → e ≤ max_log → bit_and random (u32 (2 ^ e) - 1) ≡ random % 2 ^ e
mask_lem e random low high =
    let small : u32 (2 ^ e) ≡ 2 ^ e = omega (arith, pow-le-pow_right {n = 2} (omega arith) high) in
    rw small (bit_and-mask e random)

-- In every mode, in a state whose classes, arms and probes are within their ranges, the exponent that
-- the mode uses for a class lies within the limits, and an access promotes exactly when the random
-- number is divisible by two to that power.
pub decide_for_class_iff :
    (fl : FloatOps) (cls random : ℕ) (s : Cbp fl)
    → IsValid fl s
    → (min_log ≤ exponent cls s)
      × (exponent cls s ≤ max_log)
      × ((decide_for_class cls random s ≡ true) ↔ (random % 2 ^ exponent cls s ≡ 0))
unfolding decide_for_class mask_for
decide_for_class_iff fl cls random s v =
    let bounds = exponent_bounds fl cls s v in
    (
      bounds.0,
      bounds.1,
      rw (mask_lem (exponent cls s) random bounds.0 bounds.1)
          (==_iff (random % 2 ^ exponent cls s) 0),
    )
