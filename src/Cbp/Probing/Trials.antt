-- ===== src/Cbp/Probing/Trials.antt =====
-- cbp.hpp, TPB: the three windows of a probe.
use cloud_project.Prelude.{
  ℕ, ◌+◌, ◌%◌, ◌≡◌, refl, Bool, true, false, ◌&&◌, ltb, ◌==◌, if◌then◌else◌, u32,
}
use cloud_project.Prelude.Int.{pos, negsuc}
use cloud_project.Cbp.Defs.{FloatOps}
use cloud_project.Cbp.Probing.{
  Probing, phase_stable, base_average, accepts, finish, probe_dir, tried, open_probe, on_window,
}
use cloud_project.Cbp.Probing.Laws.{
  IsValid, next, smoothed, measured, on_window_second, on_window_third, on_window_opens,
}
use cloud_project.Cbp.Probing.Directions.{Goes, goes, turned, tried_back, tried_again}

-- The probe's window had more throughput than the two at the current exponent, which were close to
-- each other.
abbrev pub is_better : (fl : FloatOps) → (phase_tol : fl.F) → (before probe after : ℕ) → Bool
is_better fl phase_tol before probe after =
    phase_stable fl phase_tol (fl.of_nat before) (fl.of_nat after)
    && fl.less
        (fl.mul (base_average fl (fl.of_nat before) (fl.of_nat after))
          (fl.add (fl.of_nat 1) (fl.decimal 5 3)))
        (fl.of_nat probe)

module _ (fl : FloatOps) (before probe : ℕ) (p : Probing fl) (closed : p.probing ≡ false)
    (due : (u32 (p.window_idx + 1) % p.probe_every == 0) ≡ true)
    (zero_is_zero : fl.equal (fl.of_nat 0) (fl.of_nat 0) ≡ true) where
  abbrev opened : Probing fl
  opened = open_probe fl (fl.of_nat before) (smoothed fl (fl.of_nat before) p)

  first_window : on_window fl true before p ≡ opened
  first_window = on_window_opens fl before p closed due

  second_window :
      on_window fl true probe (on_window fl true before p) ≡ measured fl (fl.of_nat probe) opened
  unfolding open_probe
  second_window = rw first_window (on_window_second fl probe opened refl zero_is_zero)

-- What three windows with `before`, `probe` and `after` transactions leave.
abbrev pub trial : (fl : FloatOps) (before probe after : ℕ) → Probing fl → Probing fl
trial fl before probe after p =
    on_window fl true after (on_window fl true probe (on_window fl true before p))

-- When a probe is due and its window has transactions, the first window puts the neighbour in use,
-- the second one the current exponent again, and the third one decides: the neighbour becomes the
-- current exponent exactly when the other two windows were as close to each other as the code asks for
-- and the neighbour's throughput was above their average by more than the margin, and the next probe
-- will then try the exponent left; otherwise it will try the same neighbour again. This is for probes
-- within their ranges, and floating point numbers for which 0 equals itself and the count of the
-- probe's window does not equal 0.
pub trial_lem :
    (fl : FloatOps) (before probe after : ℕ) (p : Probing fl)
    → IsValid fl p
    → p.probing ≡ false
    → (u32 (p.window_idx + 1) % p.probe_every == 0) ≡ true
    → fl.equal (fl.of_nat 0) (fl.of_nat 0) ≡ true
    → fl.equal (fl.of_nat probe) (fl.of_nat 0) ≡ false
    → ((on_window fl true before p).lc_active ≡ tried p.lc_base p.last_dir)
      × ((on_window fl true probe (on_window fl true before p)).lc_active ≡ p.lc_base)
      × ((trial fl before probe after p).probing ≡ false)
      × ((trial fl before probe after p).lc_active ≡ (trial fl before probe after p).lc_base)
      × ((trial fl before probe after p).lc_base ≡ (
          if is_better fl p.phase_tol before probe after
          then tried p.lc_base p.last_dir
          else p.lc_base))
      × (tried (trial fl before probe after p).lc_base (trial fl before probe after p).last_dir ≡ (
          if is_better fl p.phase_tol before probe after
          then p.lc_base
          else tried p.lc_base p.last_dir))
unfolding open_probe finish accepts
trial_lem fl before probe after p valid closed due zero_is_zero some_tps = (
  rw first refl,
  rw second refl,
  rw third refl,
  rw third refl,
  rw third refl,
  rw third (next_one (is_better fl p.phase_tol before probe after)),
)
  where
    p1 : Probing fl
    p1 = opened fl before probe p closed due zero_is_zero

    first : on_window fl true before p ≡ p1
    first = first_window fl before probe p closed due zero_is_zero

    second : on_window fl true probe (on_window fl true before p) ≡ measured fl (fl.of_nat probe) p1
    second = second_window fl before probe p closed due zero_is_zero

    third :
        trial fl before probe after p
        ≡ finish fl (fl.of_nat after) (next fl (measured fl (fl.of_nat probe) p1))
    third = rw second (on_window_third fl after (measured fl (fl.of_nat probe) p1) refl some_tps)

    g : Goes p.lc_base p.last_dir
    g = goes p.lc_base p.last_dir valid.dir valid.low valid.high

    next_one :
        (better : Bool)
        → tried (if better then tried p.lc_base p.last_dir else p.lc_base) (
            if better
            then (if ltb p.lc_base (tried p.lc_base p.last_dir) then negsuc 0 else pos 1)
            else probe_dir p.lc_base p.last_dir)
          ≡ (if better then p.lc_base else tried p.lc_base p.last_dir)
    next_one true =
        rw (turned p.lc_base p.last_dir g) (tried_back p.lc_base p.last_dir valid.low valid.high g)
    next_one false = tried_again p.lc_base p.last_dir valid.dir valid.low valid.high

-- A window of a probe without any transaction is not taken for measured: the window after it, at
-- the current exponent, is recorded as the throughput of the neighbour, and the probe stays open.
pub trial_unmeasured :
    (fl : FloatOps) (before after : ℕ) (p : Probing fl)
    → p.probing ≡ false
    → (u32 (p.window_idx + 1) % p.probe_every == 0) ≡ true
    → fl.equal (fl.of_nat 0) (fl.of_nat 0) ≡ true
    → ((on_window fl true 0 (on_window fl true before p)).lc_active ≡ p.lc_base)
      × ((trial fl before 0 after p).probe_tps ≡ fl.of_nat after)
      × ((trial fl before 0 after p).lc_probe ≡ tried p.lc_base p.last_dir)
      × ((trial fl before 0 after p).probing ≡ true)
unfolding open_probe
trial_unmeasured fl before after p closed due zero_is_zero =
    (rw second refl, rw third refl, rw third refl, rw third refl)
  where
    p1 : Probing fl
    p1 = opened fl before 0 p closed due zero_is_zero

    second : on_window fl true 0 (on_window fl true before p) ≡ measured fl (fl.of_nat 0) p1
    second = second_window fl before 0 p closed due zero_is_zero

    third : trial fl before 0 after p ≡ measured fl (fl.of_nat after) (measured fl (fl.of_nat 0) p1)
    third = rw second (on_window_second fl after (measured fl (fl.of_nat 0) p1) refl zero_is_zero)
