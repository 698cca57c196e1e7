-- ===== src/Cbp/HillClimb/Windows.antt =====
-- cbp.hpp, v3: windows in a row: a move that made things worse is undone, and the warm-up comes
-- back.
use cloud_project.Prelude.{
  ℕ, ◌+◌, ◌%◌, ◌≤◌, ◌<◌, ◌≡◌, ◌≢◌, inl, inr, refl, sym, ap, ◌∙◌, Bool, true, false, ◌||◌, List, [],
  ◌∷◌, arith, ltb, u8, length, le→ltb_false, lt→ltb,
}
use cloud_project.Prelude.Int.{ℤ, neg}
use cloud_project.Cbp.Defs.{min_log, max_log}
use cloud_project.Cbp.HillClimb.{ClassStats, direction, climb, improved, worsened, adapt}
use cloud_project.Cbp.HillClimb.Laws.{IsDir, heading}

or_true : (a b : Bool) → b ≡ true → (a || b) ≡ true
or_true a b h = ground arith

direction_lem : (cls : ℕ) (d : ℤ) → IsDir d → direction cls d ≡ d
unfolding direction
direction_lem cls d (inl e) = rw e refl
direction_lem cls d (inr e) = rw e refl

neg_twice : (d : ℤ) → IsDir d → neg (neg d) ≡ d
neg_twice d (inl e) = rw e refl
neg_twice d (inr e) = rw e refl

improved-not-worsened : (q last : ℤ) → improved q last ≡ true → worsened q last ≡ false
unfolding improved worsened
improved-not-worsened q last h = ground arith

-- Past the warm-up, a score out of the dead band moves the class by its heading.
adapt_moves :
    (cls : ℕ) (q d : ℤ) (c : ClassStats)
    → 3 ≤ c.warmup
    → c.warmup < 255
    → (improved q c.last_score_q || worsened q c.last_score_q) ≡ true
    → heading cls q c ≡ d
    → ((adapt cls q c).log_chance ≡ climb d c.log_chance)
      × ((adapt cls q c).last_dir ≡ d)
      × ((adapt cls q c).last_score_q ≡ q)
      × ((adapt cls q c).warmup ≡ c.warmup + 1)
unfolding adapt
adapt_moves cls q d c warm room out e =
    rw (le→ltb_false c.warmup 3 warm, out, e) (refl, refl, refl, omega arith)

climb_back :
    (d : ℤ) (lc : ℕ)
    → IsDir d
    → min_log < lc
    → lc < max_log
    → (climb d lc ≢ lc) × (climb (neg d) (climb d lc) ≡ lc)
unfolding climb
climb_back d lc (inl e) low high = rw e (ground arith)
climb_back d lc (inr e) low high = rw e (ground arith)

-- With a warm-up counter from 3 to 253, a direction of 1 or -1, and the exponent strictly between the
-- limits, a window whose score improves moves the exponent, and a window after it whose score worsens
-- takes the move back and turns the direction round.
pub adapt_twice :
    (cls : ℕ) (q q' : ℤ) (c : ClassStats)
    → IsDir c.last_dir
    → 3 ≤ c.warmup
    → c.warmup < 254
    → min_log < c.log_chance
    → c.log_chance < max_log
    → improved q c.last_score_q ≡ true
    → worsened q' q ≡ true
    → ((adapt cls q c).log_chance ≢ c.log_chance)
      × ((adapt cls q' (adapt cls q c)).log_chance ≡ c.log_chance)
      × ((adapt cls q' (adapt cls q c)).last_dir ≡ neg c.last_dir)
adapt_twice cls q q' c way warm room low high up down = (
  λ e. back.0 (sym first.0 ∙ e),
  second.0 ∙ ap (climb (neg c.last_dir)) first.0 ∙ back.1,
  second.1,
)
  where
    back :
        (climb c.last_dir c.log_chance ≢ c.log_chance)
        × (climb (neg c.last_dir) (climb c.last_dir c.log_chance) ≡ c.log_chance)
    back = climb_back c.last_dir c.log_chance way low high

    first :
        ((adapt cls q c).log_chance ≡ climb c.last_dir c.log_chance)
        × ((adapt cls q c).last_dir ≡ c.last_dir)
        × ((adapt cls q c).last_score_q ≡ q)
        × ((adapt cls q c).warmup ≡ c.warmup + 1)
    first =
        adapt_moves cls q c.last_dir c warm (omega arith) (rw up refl)
          (rw (improved-not-worsened q c.last_score_q up) (direction_lem cls c.last_dir way))

    down' : worsened q' (adapt cls q c).last_score_q ≡ true
    down' = rw first.2 down

    second :
        ((adapt cls q' (adapt cls q c)).log_chance
          ≡ climb (neg c.last_dir) (adapt cls q c).log_chance)
        × ((adapt cls q' (adapt cls q c)).last_dir ≡ neg c.last_dir)
        × ((adapt cls q' (adapt cls q c)).last_score_q ≡ q')
        × ((adapt cls q' (adapt cls q c)).warmup ≡ (adapt cls q c).warmup + 1)
    second =
        adapt_moves cls q' (neg c.last_dir) (adapt cls q c) (rw first.3 (omega arith))
          (rw first.3 (omega arith)) (or_true _ _ down')
          (rw (down', first.1, direction_lem cls c.last_dir way) refl)

-- Windows in a row, by their scores.
pub adapt_all : (cls : ℕ) → List ℤ → ClassStats → ClassStats
adapt_all cls [] c = c
adapt_all cls (q ∷ qs) c = adapt_all cls qs (adapt cls q c)

warmup-adapt : (cls : ℕ) (q : ℤ) (c : ClassStats) → (adapt cls q c).warmup ≡ u8 (c.warmup + 1)
unfolding adapt
warmup-adapt cls q c = ground arith

warmup-adapt_all :
    (cls : ℕ) (qs : List ℤ) (c : ClassStats)
    → c.warmup < 256
    → (adapt_all cls qs c).warmup ≡ u8 (c.warmup + length qs)
unfolding adapt_all
warmup-adapt_all cls [] c byte = omega arith
warmup-adapt_all cls (q ∷ qs) c byte = omega (
  arith,
  warmup-adapt_all cls qs (adapt cls q c) (rw (warmup-adapt cls q c) (omega arith)),
  warmup-adapt cls q c,
)

-- The warm-up counter is one byte and wraps: after any number of windows that brings it below 3
-- modulo 256, the next window's score moves neither the exponent nor the direction.
pub adapt_all-rewarms :
    (cls : ℕ) (q : ℤ) (qs : List ℤ) (c : ClassStats)
    → c.warmup < 256
    → (c.warmup + length qs) % 256 < 3
    → ((adapt cls q (adapt_all cls qs c)).log_chance ≡ (adapt_all cls qs c).log_chance)
      × ((adapt cls q (adapt_all cls qs c)).last_dir ≡ (adapt_all cls qs c).last_dir)
unfolding adapt
adapt_all-rewarms cls q qs c byte wrapped =
    let cold : ltb (adapt_all cls qs c).warmup 3 ≡ true =
      lt→ltb _ _ (omega (arith, warmup-adapt_all cls qs c byte)) in
    rw cold (refl, refl)
