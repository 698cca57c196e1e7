-- ===== src/Cbp/HillClimb/Laws.antt =====
-- cbp.hpp, v3: the counters and the exponent of a class keep their ranges.
use cloud_project.Prelude.{
  ℕ, ◌+◌, ◌≤◌, ◌<◌, ◌≡◌, ◌⊎◌, inl, inr, refl, Bool, true, false, not, arith, ltb, ◌==◌,
  if◌then◌else◌, u32, Bool-cases, ltb→lt, bit_and,
}
use cloud_project.Prelude.Int.{ℤ, pos, negsuc, neg}
use cloud_project.Cbp.Defs.{FloatOps, window, min_log, max_log, sample_mask}
use cloud_project.Cbp.HillClimb.{
  ClassStats, score_q, direction, climb, worsened, adapt, note_access,
}

abbrev pub IsDir : ℤ → Type 0
IsDir d = (d ≡ pos 1) ⊎ (d ≡ negsuc 0)

-- The ranges of a class's statistics between two accesses.
pub record IsValid (c : ClassStats) : Type 0 where
  pub low : min_log ≤ c.log_chance
  pub high : c.log_chance ≤ max_log
  pub open_window : c.total < window
  pub hits : c.in_pref ≤ c.total
  pub dir : (c.last_dir ≡ pos 0) ⊎ IsDir c.last_dir
  pub byte : c.warmup < 256

pub climb_bounds :
    (d : ℤ) (lc : ℕ)
    → min_log ≤ lc
    → lc ≤ max_log
    → (min_log ≤ climb d lc)
      × (climb d lc ≤ max_log)
      × (climb d lc ≤ lc + 1)
      × (lc ≤ climb d lc + 1)
unfolding climb
climb_bounds d lc low high = ground arith

pub direction-IsDir : (cls : ℕ) (d : ℤ) → (d ≡ pos 0) ⊎ IsDir d → IsDir (direction cls d)
unfolding direction
direction-IsDir cls (pos n) h = elim (Bool-cases (n == 0)) [
  | inl z ↦ elim (Bool-cases (bit_and cls 1 == 1)) [
    | inl odd ↦ rw (z, odd) (inr refl)
    | inr even ↦ rw (z, even) (inl refl)
  ]
  | inr nz ↦ ground arith
]
direction-IsDir cls (negsuc n) h = ground arith

pub neg-IsDir : (d : ℤ) → IsDir d → IsDir (neg d)
neg-IsDir d (inl e) = rw e (inr refl)
neg-IsDir d (inr e) = rw e (inl refl)

-- The direction that a window's end goes in.
abbrev pub heading : (cls : ℕ) (q : ℤ) → ClassStats → ℤ
heading cls q c =
    if worsened q c.last_score_q then neg (direction cls c.last_dir) else direction cls c.last_dir

pub heading-IsDir : (cls : ℕ) (q : ℤ) (c : ClassStats) → IsValid c → IsDir (heading cls q c)
heading-IsDir cls q c v = elim (Bool-cases (worsened q c.last_score_q)) [
  | inl e ↦ rw e (neg-IsDir _ (direction-IsDir cls c.last_dir v.dir))
  | inr e ↦ rw e (direction-IsDir cls c.last_dir v.dir)
]

pub adapt-IsValid : (cls : ℕ) (q : ℤ) (c : ClassStats) → IsValid c → IsValid (adapt cls q c)
unfolding adapt
adapt-IsValid cls q c v =
    let bounds = climb_bounds (heading cls q c) c.log_chance v.low v.high in
    let way = heading-IsDir cls q c v in
    elim (Bool-cases (ltb c.warmup 3)) [
      | inl cold ↦ rw cold (record {
        low = v.low;
        high = v.high;
        open_window = v.open_window;
        hits = v.hits;
        dir = v.dir;
        byte = omega arith;
      })
      | inr warm ↦ rw warm (record {
        low = ground arith;
        high = ground arith;
        open_window = v.open_window;
        hits = v.hits;
        dir = inr way;
        byte = omega arith;
      })
    ]

-- The exponents differ by one at most.
abbrev pub IsNear : ClassStats → ClassStats → Type 0
IsNear c c' = (c'.log_chance ≤ c.log_chance + 1) × (c.log_chance ≤ c'.log_chance + 1)

adapt-IsNear : (cls : ℕ) (q : ℤ) (c : ClassStats) → IsValid c → IsNear c (adapt cls q c)
unfolding adapt
adapt-IsNear cls q c v =
    let bounds = climb_bounds (heading cls q c) c.log_chance v.low v.high in ground arith

-- Every access leaves the exponent between the two limits and within one of what it was, and the
-- counters below a full window, whatever the score and the random number are.
pub note_access-IsValid :
    (fl : FloatOps) (static_mode : Bool) (cls : ℕ) (hit : Bool) (random : ℕ) (c : ClassStats)
    → IsValid c
    → IsValid (note_access fl static_mode cls hit random c)
      × IsNear c (note_access fl static_mode cls hit random c)
unfolding note_access
note_access-IsValid fl static_mode cls hit random c v =
    elim (Bool-cases (not (bit_and random sample_mask == 0))) [
      | inl unsampled ↦ rw unsampled (v, omega arith)
      | inr sampled ↦ rw sampled (elim (Bool-cases (ltb (u32 (c.total + 1)) window)) [
        | inl early ↦ rw early (
          record {
            low = v.low;
            high = v.high;
            open_window = ltb→lt _ _ early;
            hits = ground arith;
            dir = v.dir;
            byte = v.byte;
          },
          omega arith,
        )
        | inr full ↦ rw full (go static_mode)
      ])
    ]
  where
    emptied : ClassStats
    emptied = record c { total = 0; in_pref = 0; promotes = 0 }

    emptied-IsValid : IsValid emptied
    emptied-IsValid = record {
      low = v.low;
      high = v.high;
      open_window = omega arith;
      hits = omega arith;
      dir = v.dir;
      byte = v.byte;
    }

    score : ℤ
    score = score_q fl (u32 (c.in_pref + (if hit then 1 else 0))) c.promotes (u32 (c.total + 1))

    go :
        (b : Bool)
        → IsValid (if b then emptied else adapt cls score emptied)
          × IsNear c (if b then emptied else adapt cls score emptied)
    go true = (emptied-IsValid, omega arith)
    go false = (
      adapt-IsValid cls score emptied emptied-IsValid,
      adapt-IsNear cls score emptied emptied-IsValid,
    )
