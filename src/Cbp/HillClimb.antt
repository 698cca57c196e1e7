-- ===== src/Cbp/HillClimb.antt =====
-- cbp.hpp, v3: the statistics of one class, and what an observed access does to them. The counters
-- are read and written by one thread at a time.
pub mod Laws
pub mod Windows
use cloud_project.Prelude.{
  ℕ, ◌+◌, ◌-◌, Bool, true, false, ◌&&◌, ◌||◌, ltb, ◌==◌, if◌then◌else◌, u8, u32, bit_and, not,
}
use cloud_project.Prelude.Int.{ℤ, pos, negsuc, ◌-ℤ◌, neg, ltb_ℤ}
use cloud_project.Cbp.Defs.{FloatOps, window, min_log, max_log, sample_mask}

pub record ClassStats : Type 0 where
  pub total : ℕ
  pub in_pref : ℕ
  pub promotes : ℕ
  pub log_chance : ℕ
  pub last_dir : ℤ
  pub warmup : ℕ
  pub last_score_q : ℤ

-- The score of a full window: the rate of hits less `ALPHA` times the rate of promotions.
unfoldable pub score_q : (fl : FloatOps) → (hits prom t : ℕ) → ℤ
score_q fl hits prom t =
    let hit_rate = fl.div (fl.of_nat hits) (fl.of_nat t) in
    let prom_rate = fl.div (fl.of_nat prom) (fl.of_nat t) in
    let score = fl.sub hit_rate (fl.mul (fl.decimal 20 2) prom_rate) in
    fl.to_int32 (fl.mul score (fl.of_nat 1_000_000))

abbrev pub eps_q : ℤ
eps_q = pos 5000

-- The direction before it is turned: the last one, or one by the class's parity.
unfoldable pub direction : (cls : ℕ) → ℤ → ℤ
direction cls (pos n) = if n == 0 then (if bit_and cls 1 == 1 then negsuc 0 else pos 1) else pos n
direction cls (negsuc n) = negsuc n

-- One step of the exponent, within the limits.
unfoldable pub climb : ℤ → ℕ → ℕ
climb dir lc =
    if ltb_ℤ dir (pos 0) && ltb min_log lc
    then lc - 1
    else if ltb_ℤ (pos 0) dir && ltb lc max_log
    then lc + 1
    else lc

-- The score has risen, or fallen, by more than the dead band.
unfoldable pub improved : (q last : ℤ) → Bool
improved q last = ltb_ℤ eps_q (q -ℤ last)

unfoldable pub worsened : (q last : ℤ) → Bool
worsened q last = ltb_ℤ eps_q (last -ℤ q)

-- The end of a window with score `q`: the exponent moves on in the same direction when the score
-- has improved, back when it has worsened, and stays within the dead band.
unfoldable pub adapt : (cls : ℕ) (q : ℤ) → ClassStats → ClassStats
adapt cls q c =
    let last = c.last_score_q in
    let ahead = direction cls c.last_dir in
    let dir = if worsened q last then neg ahead else ahead in
    let waited = record c { warmup = u8 (c.warmup + 1); last_score_q = q } in
    if ltb c.warmup 3 then waited else record waited {
      log_chance =
          if improved q last || worsened q last then climb dir c.log_chance else c.log_chance;
      last_dir = dir;
    }

-- The v3 part of `noteAccess`. `random` is what the generator returned.
unfoldable pub note_access :
    (fl : FloatOps) (static_mode : Bool) (cls : ℕ) (hit : Bool) (random : ℕ)
    → ClassStats
    → ClassStats
note_access fl static_mode cls hit random c =
    let counted = record c {
      in_pref = u32 (c.in_pref + (if hit then 1 else 0));
      total = u32 (c.total + 1);
    } in
    let cleared = record counted { total = 0; in_pref = 0; promotes = 0 } in
    if not (bit_and random sample_mask == 0)
    then c
    else if ltb (u32 (c.total + 1)) window
    then counted
    else if static_mode
    then cleared
    else adapt cls (score_q fl counted.in_pref c.promotes (u32 (c.total + 1))) cleared

-- `noteAttempt` outside v4.
unfoldable pub note_attempt : ClassStats → ClassStats
note_attempt c = record c { promotes = u32 (c.promotes + 1) }
