-- ===== src/Cbp/Tests.antt =====
-- The controllers at concrete inputs, with fixed point numbers of six decimals for the floating
-- point ones.
mod Modes
use cloud_project.Prelude.{
  ℕ, ◌+◌, ◌*◌, ◌/◌, ◌^◌, ◌≡◌, ◌≢◌, refl, inl, inr, true, false, leb, ◌&&◌, if◌then◌else◌, [], ◌∷◌,
  arith,
}
use cloud_project.Prelude.Int.{ℤ, pos, negsuc, pos_part, neg_part, ◌+ℤ◌, ◌-ℤ◌, neg, ltb_ℤ}
use cloud_project.Cbp.Defs.{FloatOps}
use cloud_project.Cbp.HillClimb.{
  ClassStats, note_access, adapt, score_q, direction, climb, improved, worsened,
}
use cloud_project.Cbp.HillClimb.Laws.{IsValid, IsNear, note_access-IsValid}
use cloud_project.Cbp.HillClimb.Windows.{adapt_all, adapt_twice, adapt_all-rewarms}

abbrev unit : ℕ
unit = 1_000_000

abbrev size : ℤ → ℕ
size a = pos_part a + neg_part a

-- A size with the sign of a product of `a` and `b`.
abbrev signed : (a b : ℤ) → ℕ → ℤ
signed a b n =
    if leb (neg_part a) 0
    then (if leb (neg_part b) 0 then pos n else neg (pos n))
    else (if leb (neg_part b) 0 then neg (pos n) else pos n)

abbrev pub fixed_point : FloatOps
fixed_point = record {
  F = ℤ;
  of_nat = λ n. pos (n * unit);
  decimal = λ m e. pos (m * unit / 10 ^ e);
  add = λ a b. a +ℤ b;
  sub = λ a b. a -ℤ b;
  mul = λ a b. signed a b (size a * size b / unit);
  div = λ a b. signed a b (size a * unit / size b);
  abs = λ a. pos (size a);
  less = λ a b. ltb_ℤ a b;
  equal = λ a b.
      leb (pos_part a) (pos_part b)
      && leb (pos_part b) (pos_part a)
      && leb (neg_part a) (neg_part b)
      && leb (neg_part b) (neg_part a);
  to_int32 = λ a. signed a (pos 1) (size a / unit);
}

-- A class at exponent 5 that has finished its warm-up and goes up.
abbrev warm : ℕ → ClassStats
warm n = record {
  total = n;
  in_pref = n;
  promotes = 0;
  log_chance = 5;
  last_dir = pos 1;
  warmup = 3;
  last_score_q = pos 900_000;
}

-- The window's last hit, with a score of 1, takes the exponent from 5 to 6.
window_ends : (note_access fixed_point false 4 true 8 (warm 4095)).log_chance ≡ 6
unfolding note_access adapt score_q direction climb improved worsened
window_ends = refl

adapt_twice_example :
    ((adapt 4 (pos 950_000) (warm 0)).log_chance ≢ 5)
    × ((adapt 4 (pos 940_000) (adapt 4 (pos 950_000) (warm 0))).log_chance ≡ 5)
    × ((adapt 4 (pos 940_000) (adapt 4 (pos 950_000) (warm 0))).last_dir ≡ negsuc 0)
unfolding improved worsened
adapt_twice_example =
    adapt_twice 4 (pos 950_000) (pos 940_000) (warm 0) (inl refl) (omega arith) (omega arith)
      (omega arith) (omega arith) refl refl

abbrev worn : ClassStats
worn = record (warm 0) { warmup = 255 }

adapt_all-rewarms_example :
    ((adapt 4 (pos 990_000) (adapt_all 4 (pos 950_000 ∷ []) worn)).log_chance
      ≡ (adapt_all 4 (pos 950_000 ∷ []) worn).log_chance)
    × ((adapt 4 (pos 990_000) (adapt_all 4 (pos 950_000 ∷ []) worn)).last_dir
        ≡ (adapt_all 4 (pos 950_000 ∷ []) worn).last_dir)
adapt_all-rewarms_example =
    adapt_all-rewarms 4 (pos 990_000) (pos 950_000 ∷ []) worn (omega arith) (omega arith)
