-- ===== src/ResidentPageSet/Remove.antt =====
-- page.hpp, `ResidentPageSet::remove`: it takes one page id out and keeps the rest of the set.
use mathlib.Core.Path.{subst}
use native.Mathlib.Nat.{mod-lt, zero-add, pow-le-pow_right}
use cloud_project.Prelude.{
  ℕ, ◌+◌, ◌-◌, ◌%◌, ◌^◌, ◌<◌, ◌≡◌, ◌≢◌, ◌↔◌, refl, sym, ap, ◌∙◌, ℕ_discrete, Bool, true, false,
  arith, ==_iff, ne→==_false, ◌==◌, if◌then◌else◌, length, set, Run, done, out_of_rounds, bit_and,
  u64,
}
use cloud_project.ResidentPageSet.{
  ResidentPageSet, empty, tombstone, entry, is_free, bury, remove_loop, hash, remove, occupied,
}
use cloud_project.ResidentPageSet.Probe.{
  slot, first_slot, Buries, remove_loop-Buries, remove_loop-absent, remove_loop-endless,
}
use cloud_project.ResidentPageSet.Members.{
  IsMember, Probed, IsValid, distance, length-occupied-bury, length-occupied-le, get_or-set,
  set-IsShaped,
}

module _ (k : ℕ) (s : ResidentPageSet) (valid : IsValid k s) (pid : ℕ)
    (real : is_free pid ≡ false) where
  open valid use {shaped, small, probed, unique, sized}

  module _ (i : ℕ) (h : i < s.count) (here : entry s i ≡ pid) where
    i-stored : i < length s.ht
    i-stored = subst (λ t. i < t) (sym shaped.stored) h

    used : is_free (entry s i) ≡ false
    used = rw here real

    entry-bury : (j : ℕ) → entry (bury s i) j ≡ (if i == j then tombstone else entry s j)
    unfolding bury
    entry-bury j = get_or-set s.ht i j tombstone i-stored

    entry_other : (j : ℕ) → i ≢ j → entry (bury s i) j ≡ entry s j
    entry_other j ne = entry-bury j ∙ rw (ne→==_false i j ne) refl

    stays_full : (j : ℕ) → entry s j ≢ empty → entry (bury s i) j ≢ empty
    stays_full j full = ground (arith, entry-bury j)

    bury-Probed : (j d : ℕ) → i ≢ j → Probed s j d → Probed (bury s i) j d
    unfolding bury
    bury-Probed j d ne old = record {
      near = old.near;
      there = rw (entry_other j ne) old.there;
      full = λ e q. rw (entry_other j ne) (stays_full _ (old.full e q));
    }

    size-bury :
        (0 < s.size) × (s.size < 2 ^ 64) × (s.size - 1 ≡ length (occupied (set s.ht i tombstone)))
    size-bury = omega (
      arith,
      length-occupied-bury s.ht i i-stored used,
      length-occupied-le s.ht,
      shaped.stored,
      shaped.slots,
      sized,
      pow-le-pow_right {n = 2} (omega arith) {i = k} {j = 63} (omega arith),
    )

    bury-IsValid : IsValid k (bury s i)
    unfolding bury
    bury-IsValid = record {
      shaped = set-IsShaped i tombstone (u64 (s.size + 2 ^ 64 - 1)) shaped;
      small = small;
      probed = λ j q busy. elim (ℕ_discrete i j) [
        | yes same ↦ absurd (ground (arith, entry-bury j, ==_iff i j))
        | no ne ↦
            let (d, old) = probed j q (subst (λ t. is_free t ≡ false) (entry_other j ne) busy) in
            (d, bury-Probed j d ne old)
      ];
      unique = λ a b ha hb busy same.
          ground (arith, entry-bury a, entry-bury b, ==_iff i a, ==_iff i b, unique a b ha hb);
      sized = omega (arith, size-bury);
    }

    bury-IsMember : (q : ℕ) → IsMember q (bury s i) ↔ (IsMember q s × (q ≢ pid))
    unfolding bury
    bury-IsMember q = (
      λ (j, p, e, busy). elim (ℕ_discrete i j) [
        | yes same ↦ absurd (ground (arith, entry-bury j, ==_iff i j))
        | no ne ↦ (
          (j, p, sym (entry_other j ne) ∙ e, busy),
          λ same. ne (unique i j h p used (here ∙ sym same ∙ sym e ∙ entry_other j ne)),
        )
      ],
      λ (m, ne). (
        m.0,
        m.1,
        entry_other m.0 (λ same. ne (sym m.2 ∙ ap (entry s) (sym same) ∙ here)) ∙ m.2,
        m.3,
      ),
    )

  -- What `remove` promises for a page id in the set: it says so, and returns a valid set without it.
  pub record Removes (result : Run (Bool × ResidentPageSet)) : Type 0 where
    pub after : ResidentPageSet
    pub result_lem : result ≡ done (true, after)
    pub valid_after : IsValid k after
    pub members : (q : ℕ) → IsMember q after ↔ (IsMember q s × (q ≢ pid))
    pub counted : after.size + 1 ≡ s.size
    pub clock : after.clock_pos ≡ s.clock_pos

  real_pid : pid ≢ empty
  real_pid e = ground (arith, e)

  walk : IsMember pid s → Buries k s shaped pid (hash pid) (remove s pid)
  unfolding remove
  walk (i, h, here, _) =
      let (d, found) = probed i h (rw here real) in
      let there : (hash pid + d) % s.count ≡ i =
        subst (λ t. (hash t + d) % s.count ≡ i) here found.there in
      let full : (e : ℕ) → e < d → entry s ((hash pid + e) % s.count) ≢ empty =
        subst (λ t. (e : ℕ) → e < d → entry s ((hash t + e) % s.count) ≢ empty) here found.full in
      rw (first_slot k s shaped (hash pid)) (
        remove_loop-Buries k s shaped pid (hash pid) real_pid d 0 s.count
          (rw (zero-add, there) here) found.near (rw zero-add full))

  finish :
      {result : Run (Bool × ResidentPageSet)}
      → Buries k s shaped pid (hash pid) result
      → Removes result
  unfolding bury
  finish buries =
      let i = slot k s shaped (hash pid) buries.steps in
      let h : i < s.count = mod-lt _ shaped.some_slot in
      record {
        after = bury s i;
        result_lem = buries.result_lem;
        valid_after = bury-IsValid i h buries.found;
        members = bury-IsMember i h buries.found;
        counted = ground (arith, size-bury i h buries.found);
        clock = refl;
      }

  -- A page id in the set is always found: `remove` answers true, the set loses that page id and no
  -- other, and `size` is one less.
  pub remove-Removes : IsMember pid s → Removes (remove s pid)
  remove-Removes m = finish (walk m)

  absent_slot : ¬ IsMember pid s → (e : ℕ) → entry s (slot k s shaped (hash pid) e) ≢ pid
  absent_slot absent e h = absent (slot k s shaped (hash pid) e, mod-lt _ shaped.some_slot, h, real)

  -- For a page id that is not in the set, and with an empty slot anywhere, `remove` answers false and
  -- changes nothing.
  pub remove_misses :
      ¬ IsMember pid s → (i : ℕ) → i < s.count → entry s i ≡ empty → remove s pid ≡ done (false, s)
  unfolding remove
  remove_misses absent i h free =
      let (d, near, there) = distance s.count (hash pid) i h in
      rw (first_slot k s shaped (hash pid)) (
        remove_loop-absent k s shaped pid (hash pid) (absent_slot absent) d 0 s.count
          (rw (zero-add, there) free) near)

  -- Once tombstones and page ids fill every slot, the loop of `remove` for a page id that is not in
  -- the set never ends: no number of rounds is enough.
  pub remove_endless :
      ¬ IsMember pid s
      → ((e : ℕ) → e < s.count → entry s e ≢ empty)
      → (rounds : ℕ) → remove_loop rounds s pid (bit_and (hash pid) s.mask) ≡ out_of_rounds
  remove_endless absent full rounds = rw (first_slot k s shaped (hash pid)) (
      remove_loop-endless k s shaped pid (hash pid) 0 rounds (absent_slot absent)
        (λ e. full _ (mod-lt _ shaped.some_slot)))
