-- ===== src/Cbp/Control/Start.antt =====
-- cbp.hpp: what `init` leaves.
use mathlib.Core.Path.{subst}
use cloud_project.Prelude.{
  ℕ, zero, suc, ◌+◌, ◌%◌, ◌≤◌, ◌<◌, ◌≡◌, inl, inr, refl, sym, true, false, arith, Option, some,
  none, get_or, replicate, get_or-replicate,
}
use cloud_project.Prelude.Bits.{bit_and-mask}
use cloud_project.Cbp.Defs.{FloatOps, num_classes, min_log, max_log, default_log}
use cloud_project.Cbp.Bandit.{no_acc, epochs, arm_of}
use cloud_project.Cbp.Bandit.Laws.{IsPair, IsOpen, note_access_v4-IsValid}
use cloud_project.Cbp.Probing.Confined.{Starts}
use cloud_project.Cbp.Control.{
  Environment, fresh_class, exponent, ranged, fresh_bandit, fresh_probing, start_of, tpb_start_of,
  tolerance, is_on, init,
}
use cloud_project.Cbp.HillClimb.Laws.{note_access-IsValid}
use cloud_project.Cbp.HillClimb.Laws as ClassLaws
use cloud_project.Cbp.Bandit.Laws as BanditLaws
use cloud_project.Cbp.Probing.Laws as ProbingLaws
use cloud_project.Cbp.Control.Laws.{IsValid}

ranged_bounds :
    (low high default : ℕ) (x : Option ℕ)
    → low ≤ default
    → default ≤ high
    → (low ≤ ranged low high default x) × (ranged low high default x ≤ high)
unfolding ranged
ranged_bounds low high default none l h = (l, h)
ranged_bounds low high default (some x) l h = ground arith

start_bounds :
    (fl : FloatOps) (env : Environment fl) → (min_log ≤ start_of env) × (start_of env ≤ max_log)
unfolding start_of
start_bounds fl env =
    ranged_bounds min_log max_log default_log env.cbp_log (omega arith) (omega arith)

tpb_start_bounds :
    (fl : FloatOps) (env : Environment fl)
    → (min_log ≤ tpb_start_of env) × (tpb_start_of env ≤ max_log)
unfolding tpb_start_of
tpb_start_bounds fl env =
    let b = start_bounds fl env in
    ranged_bounds min_log max_log (start_of env) env.tpb_init_lc b.0 b.1

fresh_class-IsValid :
    (start : ℕ) → min_log ≤ start → start ≤ max_log → ClassLaws.IsValid (fresh_class start)
unfolding fresh_class
fresh_class-IsValid start low high = record {
  low = omega arith;
  high = omega arith;
  open_window = omega arith;
  hits = omega arith;
  dir = inl refl;
  byte = omega arith;
}

replicate-IsValid :
    (n start : ℕ)
    → min_log ≤ start
    → start ≤ max_log
    → (i : ℕ)
    → ClassLaws.IsValid (get_or (replicate n (fresh_class start)) i (fresh_class default_log))
replicate-IsValid zero start low high i =
    fresh_class-IsValid default_log (omega arith) (omega arith)
replicate-IsValid (suc n) start low high zero = fresh_class-IsValid start low high
replicate-IsValid (suc n) start low high (suc i) = replicate-IsValid n start low high i

no_acc-IsOpen : IsOpen no_acc
no_acc-IsOpen = record { total = λ arm. ground arith; hits = λ arm. ground arith }

fresh_bandit-IsValid :
    (start : ℕ) → min_log ≤ start → start < max_log → BanditLaws.IsValid (fresh_bandit start)
unfolding fresh_bandit epochs
fresh_bandit-IsValid start low high = record {
  pair = record { low = omega arith; next = omega arith; high = omega arith };
  decided = omega arith;
  accs = λ thread. subst IsOpen (sym (get_or-replicate 256 thread no_acc)) no_acc-IsOpen;
}

fresh_probing-IsValid :
    (fl : FloatOps) (start every : ℕ) (tol : fl.F)
    → min_log ≤ start
    → start ≤ max_log
    → ProbingLaws.IsValid fl (fresh_probing fl start every tol)
      × Starts fl start (fresh_probing fl start every tol)
unfolding fresh_probing
fresh_probing-IsValid fl start every tol low high = (
  record {
    low = omega arith;
    high = omega arith;
    dir = inr refl;
    idle = λ _. refl;
    active = inl refl;
    probe_low = λ h. omega arith;
    probe_high = λ h. omega arith;
    probe = λ h. ground arith;
  },
  record { base = omega arith; active = omega arith; idle = refl; dir = refl },
)

-- From every environment but one that sets the exponent to the upper limit, the controllers start
-- within their ranges, and the probes from an exponent within the limits.
pub init-IsValid :
    (fl : FloatOps) (env : Environment fl)
    → start_of env < max_log
    → IsValid fl (init fl env)
      × Starts fl (tpb_start_of env) (init fl env).tpb
      × (min_log ≤ tpb_start_of env)
      × (tpb_start_of env ≤ max_log)
unfolding init
init-IsValid fl env room =
    let b = start_bounds fl env in
    let t = tpb_start_bounds fl env in
    let probing =
      fresh_probing-IsValid fl (tpb_start_of env) (ranged 2 1024 8 env.tpb_probe_every)
        (tolerance fl env.tpb_phase_tol) t.0 t.1 in
    (
      record {
        classes = replicate-IsValid num_classes (start_of env) b.0 b.1;
        bandit = fresh_bandit-IsValid (start_of env) b.0 room;
        tpb = probing.0;
      },
      probing.1,
      t.0,
      t.1,
    )

-- An environment that sets the exponent to the upper limit, which `init` accepts, starts the second
-- arm above the limit, and in the v4 mode alone every class with an odd number promotes by it.
pub init_beyond :
    (fl : FloatOps) (env : Environment fl) (cls : ℕ)
    → env.cbp_log ≡ some max_log
    → is_on env.tpb ≡ false
    → is_on env.cbp_v4 ≡ true
    → (cls % 2 ≡ 1)
    → exponent cls (init fl env) ≡ max_log + 1
unfolding init exponent fresh_bandit start_of ranged arm_of
init_beyond fl env cls top no_tpb v4 odd = rw (no_tpb, v4, top, bit_and-mask 1 cls, odd) refl
