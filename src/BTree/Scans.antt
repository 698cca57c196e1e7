-- ===== src/BTree/Scans.antt =====
-- btree.hpp, searchHint: the two scans over the hints.
use cloud_project.Prelude.{
  ℕ, zero, suc, ◌+◌, ◌-◌, ◌≤◌, ◌<◌, ◌≡◌, ◌≢◌, inl, inr, arith, Bool, true, false, not, List, ltb,
  ◌==◌, ==_iff, ltb→lt, Bool-cases, get_or,
}
use mathlib.Core.Path.{subst}
use cloud_project.BTree.Node.{hint_count, scan, first_not_below, first_other}

-- What a scan stops at.
pub record Stops (test : ℕ → Bool) (rounds i r : ℕ) : Type 0 where
  pub from : i ≤ r
  pub to : r ≤ i + rounds
  pub passed : (k : ℕ) → i ≤ k → k < r → test k ≡ false
  pub at : r < i + rounds → test r ≡ true

passed_on :
    (test : ℕ → Bool) (i k : ℕ) → test i ≡ false → i ≤ k → (i < k → test k ≡ false) → test k ≡ false
passed_on test i k here le later = elim (Bool-cases (ltb i k)) [
  | inl less ↦ later (ltb→lt _ _ less)
  | inr equal ↦ let e : i ≡ k = ground arith in subst (λ j. test j ≡ false) e here
]

pub scan-Stops : (test : ℕ → Bool) (rounds i : ℕ) → Stops test rounds i (scan test rounds i)
unfolding scan
scan-Stops test zero i = record {
  from = omega arith;
  to = omega arith;
  passed = λ k a b. absurd (omega arith);
  at = λ h. absurd (omega arith);
}
scan-Stops test (suc rounds) i = elim (Bool-cases (test i)) [
  | inl yes_here ↦ rw yes_here (record {
    from = omega arith;
    to = omega arith;
    passed = λ k a b. absurd (omega arith);
    at = λ h. yes_here;
  })
  | inr not_here ↦
      let rest = scan-Stops test rounds (suc i) in
      rw not_here (record {
        from = omega (arith, rest.from);
        to = omega (arith, rest.to);
        passed = λ k a b. passed_on test i k not_here a (λ c. rest.passed k c b);
        at = λ h. rest.at (omega arith);
      })
]

-- What the two scans over the hints stop at.
pub record Hinted (key_head : ℕ) (hint : List ℕ) (i j : ℕ) : Type 0 where
  pub first : i ≤ j
  pub last : j ≤ hint_count
  pub smaller : (k : ℕ) → k < i → get_or hint k 0 < key_head
  pub at_first : i < hint_count → key_head ≤ get_or hint i 0
  pub other : j < hint_count → get_or hint j 0 ≢ key_head

pub scans-Hinted :
    (key_head : ℕ) (hint : List ℕ)
    → Hinted key_head hint
        (first_not_below key_head hint)
        (first_other key_head (first_not_below key_head hint) hint)
unfolding first_not_below first_other
scans-Hinted key_head hint =
    let i = first_not_below key_head hint in
    let s = scan-Stops (λ k. not (ltb (get_or hint k 0) key_head)) hint_count 0 in
    let t = scan-Stops (λ k. not (get_or hint k 0 == key_head)) (hint_count - i) i in
    record {
      first = t.from;
      last = omega (arith, t.to, s.to);
      smaller = λ k less. ltb→lt _ _ (not_false _ (s.passed k (omega arith) less));
      at_first = λ less. ground (arith, s.at (omega arith));
      other = λ less e. ground (
        arith,
        t.at (omega (arith, s.to)),
        (==_iff (get_or hint (first_other key_head i hint) 0) key_head).1 e,
      );
    }
  where
    not_false : (b : Bool) → not b ≡ false → b ≡ true
    not_false b h = ground arith
