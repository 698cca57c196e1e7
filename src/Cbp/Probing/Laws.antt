-- ===== src/Cbp/Probing/Laws.antt =====
-- cbp.hpp, TPB: the exponents stay within the limits, and what three windows of a probe do.
use mathlib.Core.Path.{subst}
use cloud_project.Prelude.{
  ℕ, ◌+◌, ◌%◌, ◌≤◌, ◌≡◌, ◌⊎◌, inl, inr, refl, sym, Bool, true, false, arith, ◌==◌, u32, Bool-cases,
}
use cloud_project.Prelude.Int.{ℤ}
use cloud_project.Cbp.Defs.{FloatOps, min_log, max_log}
use cloud_project.Cbp.HillClimb.Laws.{IsDir}
use cloud_project.Cbp.Probing.{
  Probing, accepts, smooth, finish, probe_dir, tried, open_probe, on_window,
}

abbrev pub IsNeighbour : (a b : ℕ) → Type 0
IsNeighbour a b = (a ≡ b + 1) ⊎ (b ≡ a + 1)

-- The exponent in use is the current one, or that of an open probe, its neighbour.
pub record IsValid (fl : FloatOps) (p : Probing fl) : Type 0 where
  pub low : min_log ≤ p.lc_base
  pub high : p.lc_base ≤ max_log
  pub dir : IsDir p.last_dir
  pub idle : p.probing ≡ false → p.lc_active ≡ p.lc_base
  pub active : (p.lc_active ≡ p.lc_base) ⊎ (p.lc_active ≡ p.lc_probe)
  pub probe_low : p.probing ≡ true → min_log ≤ p.lc_probe
  pub probe_high : p.probing ≡ true → p.lc_probe ≤ max_log
  pub probe : p.probing ≡ true → IsNeighbour p.lc_probe p.lc_base

pub probe_dir-IsDir : (base : ℕ) (dir : ℤ) → IsDir dir → IsDir (probe_dir base dir)
unfolding probe_dir
probe_dir-IsDir base dir (inl e) = rw e (ground arith)
probe_dir-IsDir base dir (inr e) = rw e (ground arith)

pub tried_bounds :
    (base : ℕ) (dir : ℤ)
    → IsDir dir
    → min_log ≤ base
    → base ≤ max_log
    → (min_log ≤ tried base dir) × (tried base dir ≤ max_log) × IsNeighbour (tried base dir) base
unfolding probe_dir tried
tried_bounds base dir (inl e) low high = rw e (ground arith)
tried_bounds base dir (inr e) low high = rw e (ground arith)

-- The current exponent moves by one at most.
abbrev pub IsNear : (base base' : ℕ) → Type 0
IsNear base base' = (base' ≤ base + 1) × (base ≤ base' + 1)

finish-IsValid :
    (fl : FloatOps) (tps : fl.F) (p : Probing fl)
    → IsValid fl p
    → p.probing ≡ true
    → IsValid fl (finish fl tps p) × IsNear p.lc_base (finish fl tps p).lc_base
unfolding finish
finish-IsValid fl tps p v on_trial = elim (Bool-cases (accepts fl tps p)) [
  | inl better ↦ rw better (
    record {
      low = v.probe_low on_trial;
      high = v.probe_high on_trial;
      dir = ground arith;
      idle = λ _. refl;
      active = inl refl;
      probe_low = λ h. ground arith;
      probe_high = λ h. ground arith;
      probe = λ h. ground arith;
    },
    near (v.probe on_trial),
  )
  | inr worse ↦ rw worse (
    record {
      low = v.low;
      high = v.high;
      dir = v.dir;
      idle = λ _. refl;
      active = inl refl;
      probe_low = λ h. ground arith;
      probe_high = λ h. ground arith;
      probe = λ h. ground arith;
    },
    omega arith,
  )
]
  where
    near : IsNeighbour p.lc_probe p.lc_base → IsNear p.lc_base p.lc_probe
    near (inl e) = omega arith
    near (inr e) = omega arith

open_probe-IsValid :
    (fl : FloatOps) (tps : fl.F) (p : Probing fl) → IsValid fl p → IsValid fl (open_probe fl tps p)
unfolding open_probe
open_probe-IsValid fl tps p v =
    let t = tried_bounds p.lc_base p.last_dir v.dir v.low v.high in
    record {
      low = v.low;
      high = v.high;
      dir = probe_dir-IsDir p.lc_base p.last_dir v.dir;
      idle = λ h. ground arith;
      active = inr refl;
      probe_low = λ h. t.0;
      probe_high = λ h. t.1;
      probe = λ h. t.2;
    }

abbrev pub next : (fl : FloatOps) → Probing fl → Probing fl
next fl p = record p { window_idx = u32 (p.window_idx + 1) }

abbrev pub smoothed : (fl : FloatOps) → (tps : fl.F) → Probing fl → Probing fl
smoothed fl tps p = record (next fl p) { base_ewma = smooth fl p.base_ewma tps }

-- The second window of a probe.
abbrev pub measured : (fl : FloatOps) → (tps : fl.F) → Probing fl → Probing fl
measured fl tps p = record (next fl p) { probe_tps = tps; lc_active = p.lc_base }

module _ (fl : FloatOps) (tx : ℕ) (p : Probing fl) where
  pub on_window_second :
      p.probing ≡ true
      → fl.equal p.probe_tps (fl.of_nat 0) ≡ true
      → on_window fl true tx p ≡ measured fl (fl.of_nat tx) p
  unfolding on_window
  on_window_second on_trial none = rw (on_trial, none) refl

  pub on_window_third :
      p.probing ≡ true
      → fl.equal p.probe_tps (fl.of_nat 0) ≡ false
      → on_window fl true tx p ≡ finish fl (fl.of_nat tx) (next fl p)
  unfolding on_window
  on_window_third on_trial some_tps = rw (on_trial, some_tps) refl

  pub on_window_opens :
      p.probing ≡ false
      → (u32 (p.window_idx + 1) % p.probe_every == 0) ≡ true
      → on_window fl true tx p ≡ open_probe fl (fl.of_nat tx) (smoothed fl (fl.of_nat tx) p)
  unfolding on_window
  on_window_opens closed due = rw (closed, due) refl

  pub on_window_waits :
      p.probing ≡ false
      → (u32 (p.window_idx + 1) % p.probe_every == 0) ≡ false
      → on_window fl true tx p ≡ record (smoothed fl (fl.of_nat tx) p) { lc_active = p.lc_base }
  unfolding on_window
  on_window_waits closed waits = rw (closed, waits) refl

  -- A state that differs from `p` in the counts only, and whose exponent in use is the current one.
  settled-IsValid :
      (tps ewma : fl.F)
      → IsValid fl p
      → IsValid fl (record (next fl p) { probe_tps = tps; base_ewma = ewma; lc_active = p.lc_base })
  settled-IsValid tps ewma v = record {
    low = v.low;
    high = v.high;
    dir = v.dir;
    idle = λ _. refl;
    active = inl refl;
    probe_low = v.probe_low;
    probe_high = v.probe_high;
    probe = v.probe;
  }

  later-IsValid :
      (ewma : fl.F) → IsValid fl p → IsValid fl (record (next fl p) { base_ewma = ewma })
  later-IsValid ewma v = record {
    low = v.low;
    high = v.high;
    dir = v.dir;
    idle = v.idle;
    active = v.active;
    probe_low = v.probe_low;
    probe_high = v.probe_high;
    probe = v.probe;
  }

  open_probe-IsNear : (tps : fl.F) → IsNear p.lc_base (open_probe fl tps p).lc_base
  unfolding open_probe
  open_probe-IsNear tps = omega arith

-- Every window keeps the current exponent and that of an open probe within the limits and next to
-- each other, the exponent in use one of the two, and moves the current exponent by one at most.
pub on_window-IsValid :
    (fl : FloatOps) (tpb_mode : Bool) (tx_delta : ℕ) (p : Probing fl)
    → IsValid fl p
    → IsValid fl (on_window fl tpb_mode tx_delta p)
      × IsNear p.lc_base (on_window fl tpb_mode tx_delta p).lc_base
unfolding on_window
on_window-IsValid fl false tx_delta p v = (v, omega arith)
on_window-IsValid fl true tx_delta p v = elim (Bool-cases p.probing) [
  | inl on_trial ↦ elim (Bool-cases (fl.equal p.probe_tps (fl.of_nat 0))) [
    | inl none ↦
        keeps _ (on_window_second fl tx_delta p on_trial none)
          (settled-IsValid fl tx_delta p (fl.of_nat tx_delta) p.base_ewma v, omega arith)
    | inr some_tps ↦ keeps _ (on_window_third fl tx_delta p on_trial some_tps) (
        finish-IsValid fl (fl.of_nat tx_delta) (next fl p)
          (later-IsValid fl tx_delta p p.base_ewma v) on_trial)
  ]
  | inr closed ↦ elim (Bool-cases (u32 (p.window_idx + 1) % p.probe_every == 0)) [
    | inl due ↦ keeps _ (on_window_opens fl tx_delta p closed due) (
      open_probe-IsValid fl _ _
          (later-IsValid fl tx_delta p (smooth fl p.base_ewma (fl.of_nat tx_delta)) v),
      open_probe-IsNear fl tx_delta (smoothed fl (fl.of_nat tx_delta) p) (fl.of_nat tx_delta),
    )
    | inr waits ↦ keeps _ (on_window_waits fl tx_delta p closed waits) (
      settled-IsValid fl tx_delta p p.probe_tps (smooth fl p.base_ewma (fl.of_nat tx_delta)) v,
      omega arith,
    )
  ]
]
  where
    keeps :
        (p' : Probing fl)
        → on_window fl true tx_delta p ≡ p'
        → IsValid fl p' × IsNear p.lc_base p'.lc_base
        → IsValid fl (on_window fl true tx_delta p)
          × IsNear p.lc_base (on_window fl true tx_delta p).lc_base
    keeps p' e = subst (λ x. IsValid fl x × IsNear p.lc_base x.lc_base) (sym e)
