-- ===== src/Cbp/Bandit/Laws.antt =====
-- cbp.hpp, v4: the exponents of the two arms stay neighbours within the limits, a thread's counts
-- stay below a full count, and a full count is one epoch.
use cloud_project.Prelude.{
  ℕ, zero, suc, ◌+◌, ◌≤◌, ◌<◌, ◌≡◌, inl, inr, refl, Bool, true, false, ◌&&◌, ◌||◌, List, [], ◌∷◌,
  arith, ltb, if◌then◌else◌, u32, sub_u64, Bool-cases, ltb→lt, get_or, set,
}
use cloud_project.Cbp.Defs.{FloatOps, min_log, max_log, v4_flush, num_decision_epochs}
use cloud_project.Cbp.Bandit.{
  Two, pick, put, ArmGlobal, ThreadAcc, Bandit, no_acc, arm_of, ahead, shift, cleared, epochs, due,
  adapt, note_access_v4,
}

-- The arms' exponents are neighbours within the limits.
pub record IsPair (lc : Two ℕ) : Type 0 where
  pub low : min_log ≤ lc.zeroth
  pub next : lc.first ≡ lc.zeroth + 1
  pub high : lc.first ≤ max_log

-- A thread's counts are below a full one.
pub record IsOpen (a : ThreadAcc) : Type 0 where
  pub total : (arm : ℕ) → pick arm a.arm_total < v4_flush
  pub hits : (arm : ℕ) → pick arm a.arm_hits ≤ pick arm a.arm_total

pub record IsValid (b : Bandit) : Type 0 where
  pub pair : IsPair b.arm_lc
  pub decided : sub_u64 (epochs b.g_arm) b.last_decision_epoch < num_decision_epochs
  pub accs : (thread : ℕ) → IsOpen (get_or b.t_acc thread no_acc)

pub shift-IsPair :
    (fl : FloatOps) (g : Two ArmGlobal) (lc : Two ℕ) → IsPair lc → IsPair (shift fl g lc)
unfolding shift
shift-IsPair fl g lc p = elim (Bool-cases (ahead fl g.zeroth g.first && ltb min_log lc.zeroth)) [
  | inl down ↦ rw down (record {
    low = ground arith;
    next = omega (arith, p.low, p.next, p.high);
    high = omega (arith, p.low, p.next, p.high);
  })
  | inr same ↦ rw same (elim (Bool-cases (ahead fl g.first g.zeroth && ltb lc.first max_log)) [
    | inl up ↦ rw up (record {
      low = omega (arith, p.low, p.next, p.high);
      next = ground (arith, p.next, p.high);
      high = ground (arith, p.next, p.high);
    })
    | inr stay ↦ rw stay p
  ])
]

epochs-cleared :
    (b : Bandit)
    → epochs (record { zeroth = cleared b.g_arm.zeroth; first = cleared b.g_arm.first })
      ≡ epochs b.g_arm
unfolding epochs
epochs-cleared b = refl

-- The exponents move by one at most.
abbrev pub IsNear : (b b' : Bandit) → Type 0
IsNear b b' = (b'.arm_lc.zeroth ≤ b.arm_lc.zeroth + 1) × (b.arm_lc.zeroth ≤ b'.arm_lc.zeroth + 1)

shift_near :
    (fl : FloatOps) (g : Two ArmGlobal) (lc : Two ℕ)
    → IsPair lc
    → ((shift fl g lc).zeroth ≤ lc.zeroth + 1) × (lc.zeroth ≤ (shift fl g lc).zeroth + 1)
unfolding shift
shift_near fl g lc p = ground (arith, p.next, p.high, p.low)

adapt-IsValid :
    (fl : FloatOps) (b : Bandit)
    → IsPair b.arm_lc
    → ((thread : ℕ) → IsOpen (get_or b.t_acc thread no_acc))
    → IsValid (adapt fl b) × IsNear b (adapt fl b)
unfolding adapt due
adapt-IsValid fl b p open_accs =
    elim (Bool-cases (ltb (sub_u64 (epochs b.g_arm) b.last_decision_epoch) num_decision_epochs)) [
      | inl early ↦
          rw early (record { pair = p; decided = ltb→lt _ _ early; accs = open_accs }, omega arith)
      | inr late ↦
          rw late
            (elim (Bool-cases
              (ltb b.g_arm.zeroth.total v4_flush || ltb b.g_arm.first.total v4_flush)) [
                | inl few ↦
                    rw few
                      (record { pair = p; decided = omega arith; accs = open_accs }, omega arith)
                | inr enough ↦ rw enough (
                  record {
                    pair = shift-IsPair fl b.g_arm b.arm_lc p;
                    decided = rw (epochs-cleared b) (omega arith);
                    accs = open_accs;
                  },
                  shift_near fl b.g_arm b.arm_lc p,
                )
              ])
    ]

put-IsOpen :
    (arm tot hits : ℕ) (a : ThreadAcc)
    → IsOpen a
    → tot < v4_flush
    → hits ≤ tot
    → IsOpen (record { arm_total = put arm tot a.arm_total; arm_hits = put arm hits a.arm_hits })
put-IsOpen arm tot hits a o room few = record {
  total = λ i. ground (arith, o.total i, o.total arm);
  hits = λ i. ground (arith, o.hits i);
}

keep-IsOpen :
    (accs : List ThreadAcc) (thread : ℕ) (a : ThreadAcc)
    → IsOpen a
    → ((i : ℕ) → IsOpen (get_or accs i no_acc))
    → (i : ℕ) → IsOpen (get_or (set accs thread a) i no_acc)
keep-IsOpen [] thread a o all i = all i
keep-IsOpen (x ∷ accs) zero a o all zero = o
keep-IsOpen (x ∷ accs) zero a o all (suc i) = all (suc i)
keep-IsOpen (x ∷ accs) (suc thread) a o all zero = all zero
keep-IsOpen (x ∷ accs) (suc thread) a o all (suc i) =
    keep-IsOpen accs thread a o (λ i. all (suc i)) i

one_at_most : (hit : Bool) → (if hit then 1 else 0) ≤ 1
one_at_most true = omega arith
one_at_most false = omega arith

-- Every access keeps the two arms' exponents neighbours within the limits, moves them by one at
-- most, leaves fewer epochs since the last decision than one decision takes, and leaves every
-- thread's counts below a full one.
pub note_access_v4-IsValid :
    (fl : FloatOps) (thread cls : ℕ) (hit : Bool) (b : Bandit)
    → IsValid b
    → IsValid (note_access_v4 fl thread cls hit b) × IsNear b (note_access_v4 fl thread cls hit b)
unfolding note_access_v4
note_access_v4-IsValid fl thread cls hit b v =
    let a = get_or b.t_acc thread no_acc in
    let o = v.accs thread in
    let t = o.total (arm_of cls) in
    let h = o.hits (arm_of cls) in
    elim (Bool-cases (ltb (u32 (pick (arm_of cls) a.arm_total + 1)) v4_flush)) [
      | inl room ↦ rw room (
        record {
          pair = v.pair;
          decided = v.decided;
          accs =
              keep-IsOpen b.t_acc thread _
                (put-IsOpen (arm_of cls) _ _ a o (ltb→lt _ _ room) (omega (arith, one_at_most hit)))
                v.accs;
        },
        omega arith,
      )
      | inr full ↦ rw full (
          adapt-IsValid fl _ v.pair (
            keep-IsOpen b.t_acc thread _
              (put-IsOpen (arm_of cls) 0 0 a o (omega arith) (omega arith)) v.accs))
    ]
