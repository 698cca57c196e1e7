-- ===== src/ResidentPageSet/Probe.antt =====
-- page.hpp, `struct ResidentPageSet`: how the loops of `insert` and `remove` walk the slots, in
-- terms of the distance that they have gone from a slot `p`, modulo the number of slots.
use mathlib.Core.Path.{subst}
use native.Mathlib.Nat.{add-zero, mod-add-mod}
use cloud_project.Prelude.{
  ℕ, zero, suc, ◌+◌, ◌-◌, ◌%◌, ◌^◌, ◌<◌, ◌≡◌, ◌≢◌, inl, inr, refl, sym, ap, ◌∙◌, ℕ_discrete, Bool,
  true, false, arith, Bool-cases, ==_iff, ==_refl, ne→==_false, ◌==◌, length, Run, done,
  out_of_rounds, bit_and,
}
use cloud_project.Prelude.Bits.{bit_and-mask}
use cloud_project.ResidentPageSet.{
  ResidentPageSet, empty, entry, next_slot, is_free, fill, bury, insert_loop, remove_loop,
}

-- `2 ^ k` slots, and the mask that goes with them.
pub record IsShaped (k : ℕ) (s : ResidentPageSet) : Type 0 where
  pub slots : s.count ≡ 2 ^ k
  pub masked : s.mask ≡ s.count - 1
  pub stored : length s.ht ≡ s.count
  pub some_slot : 0 < s.count

further : (d far : ℕ) → d + suc far ≡ suc d + far
further d far = omega arith

module _ (k : ℕ) (s : ResidentPageSet) (shaped : IsShaped k s) where
  open shaped use {slots, masked, stored, some_slot}

  masked-mod : (a : ℕ) → bit_and a s.mask ≡ a % s.count
  masked-mod a = rw (masked, slots) (bit_and-mask k a)

  -- The slot `d` steps from `p`.
  abbrev pub slot : ℕ → ℕ → ℕ
  slot p d = (p + d) % s.count

  pub next_slot_lem : (p d : ℕ) → next_slot s (slot p d) ≡ slot p (suc d)
  next_slot_lem p d =
      masked-mod (slot p d + 1)
      ∙ mod-add-mod (p + d) s.count 1
      ∙ ap (λ (t : ℕ). t % s.count) (omega arith)

  pub first_slot : (p : ℕ) → bit_and p s.mask ≡ slot p 0
  first_slot p = masked-mod p ∙ ap (λ (t : ℕ). t % s.count) (sym (add-zero p))

  -- What holds of the steps before `d` holds of one more.
  before_suc : {P : ℕ → Type 0} (d : ℕ) → P d → ((e : ℕ) → e < d → P e) → (e : ℕ) → e < suc d → P e
  before_suc {P} d here before e h = elim (ℕ_discrete e d) [
    | yes same ↦ subst P (sym same) here
    | no other ↦ before e (omega arith)
  ]

  -- What the loop of `insert` does from `p`: it fills the slot `n` steps on, the first free one.
  pub record Fills (pid p : ℕ) (result : Run ResidentPageSet) : Type 0 where
    pub steps : ℕ
    pub near : steps < s.count
    pub result_lem : result ≡ done (fill s (slot p steps) pid)
    pub was_free : is_free (entry s (slot p steps)) ≡ true
    pub first : (e : ℕ) → e < steps → is_free (entry s (slot p e)) ≡ false

  module _ (pid p : ℕ) (absent : (e : ℕ) → entry s (slot p e) ≢ pid) where
    -- Within `far` steps from the `d`-th there is a free slot.
    pub insert_loop-Fills :
        (far d rounds : ℕ)
        → is_free (entry s (slot p (d + far))) ≡ true
        → far < rounds
        → d + far < s.count
        → ((e : ℕ) → e < d → is_free (entry s (slot p e)) ≡ false)
        → Fills pid p (insert_loop rounds s pid (slot p d))
    unfolding insert_loop
    insert_loop-Fills far d zero free enough near before = absurd (omega arith)
    insert_loop-Fills zero d (suc rounds) free enough near before =
        let here : is_free (entry s (slot p d)) ≡ true = rw add-zero at free in
        record {
          steps = d;
          near = omega arith;
          result_lem = rw (ne→==_false _ _ (absent d), here) refl;
          was_free = here;
          first = before;
        }
    insert_loop-Fills (suc far) d (suc rounds) free enough near before =
        elim (Bool-cases (is_free (entry s (slot p d)))) [
          | inl here ↦ record {
            steps = d;
            near = omega arith;
            result_lem = rw (ne→==_false _ _ (absent d), here) refl;
            was_free = here;
            first = before;
          }
          | inr taken ↦
              rw (ne→==_false _ _ (absent d), taken, next_slot_lem p d)
                (insert_loop-Fills far (suc d) rounds
                  (subst (λ t. is_free (entry s (slot p t)) ≡ true) (further d far) free)
                  (omega arith) (omega arith) (before_suc d taken before))
        ]

  -- What the loop of `remove` does from `p`: it buries the page id, which it has found.
  pub record Buries (pid p : ℕ) (result : Run (Bool × ResidentPageSet)) : Type 0 where
    pub steps : ℕ
    pub result_lem : result ≡ done (true, bury s (slot p steps))
    pub found : entry s (slot p steps) ≡ pid

  -- It does so when the page id stands at some distance, and no slot before it is empty.
  pub remove_loop-Buries :
      (pid p : ℕ)
      → pid ≢ empty
      → (far d rounds : ℕ) → entry s (slot p (d + far)) ≡ pid
      → far < rounds
      → ((e : ℕ) → e < d + far → entry s (slot p e) ≢ empty)
      → Buries pid p (remove_loop rounds s pid (slot p d))
  unfolding remove_loop
  remove_loop-Buries pid p real far d zero there enough full = absurd (omega arith)
  remove_loop-Buries pid p real zero d (suc rounds) there enough full =
      let here : entry s (slot p d) ≡ pid = rw add-zero at there in
      record {
        steps = d;
        result_lem = rw (here, ne→==_false _ _ real, ==_refl pid) refl;
        found = here;
      }
  remove_loop-Buries pid p real (suc far) d (suc rounds) there enough full =
      elim (Bool-cases (entry s (slot p d) == pid)) [
        | inl here ↦ record {
          steps = d;
          result_lem = rw (ne→==_false _ _ (full d (omega arith)), here) refl;
          found = (==_iff _ _).0 here;
        }
        | inr other ↦
            rw (ne→==_false _ _ (full d (omega arith)), other, next_slot_lem p d)
              (remove_loop-Buries pid p real far (suc d) rounds
                (subst (λ t. entry s (slot p t) ≡ pid) (further d far) there) (omega arith)
                (λ e h. full e (omega arith)))
      ]

  -- A page id that is not in the set: the first empty slot ends the loop, and nothing changes.
  pub remove_loop-absent :
      (pid p : ℕ)
      → ((e : ℕ) → entry s (slot p e) ≢ pid)
      → (far d rounds : ℕ) → entry s (slot p (d + far)) ≡ empty
      → far < rounds
      → remove_loop rounds s pid (slot p d) ≡ done (false, s)
  unfolding remove_loop
  remove_loop-absent pid p absent far d zero free enough = absurd (omega arith)
  remove_loop-absent pid p absent zero d (suc rounds) free enough =
      let here : entry s (slot p d) ≡ empty = rw add-zero at free in rw here refl
  remove_loop-absent pid p absent (suc far) d (suc rounds) free enough =
      elim (Bool-cases (entry s (slot p d) == empty)) [
        | inl here ↦ rw here refl
        | inr taken ↦
            rw (taken, ne→==_false _ _ (absent d), next_slot_lem p d)
              (remove_loop-absent pid p absent far (suc d) rounds
                (subst (λ t. entry s (slot p t) ≡ empty) (further d far) free) (omega arith))
      ]

  -- With no empty slot left the loop of `remove` goes round for ever after an absent page id.
  pub remove_loop-endless :
      (pid p d rounds : ℕ)
      → ((e : ℕ) → entry s (slot p e) ≢ pid)
      → ((e : ℕ) → entry s (slot p e) ≢ empty)
      → remove_loop rounds s pid (slot p d) ≡ out_of_rounds
  unfolding remove_loop
  remove_loop-endless pid p d zero absent full = refl
  remove_loop-endless pid p d (suc rounds) absent full =
      rw (ne→==_false _ _ (full d), ne→==_false _ _ (absent d), next_slot_lem p d)
        (remove_loop-endless pid p (suc d) rounds absent full)
