-- ===== src/ResidentPageSet/Insert.antt =====
-- page.hpp, `ResidentPageSet::insert`: it adds one page id and keeps the rest of the set.
use mathlib.Core.Path.{subst}
use native.Mathlib.Nat.{mod-lt, zero-add, pow-le-pow_right}
use cloud_project.Prelude.{
  ℕ, ◌+◌, ◌%◌, ◌^◌, ◌<◌, ◌≡◌, ◌≢◌, ◌⊎◌, ◌↔◌, inl, inr, refl, sym, ◌∙◌, ℕ_discrete, true, false,
  arith, ==_iff, ==_refl, ne→==_false, ◌==◌, if◌then◌else◌, length, set, Run, done, length-set, u64,
}
use cloud_project.ResidentPageSet.{
  ResidentPageSet, empty, entry, is_free, fill, hash, insert, occupied,
}
use cloud_project.ResidentPageSet.Probe.{slot, first_slot, Fills, insert_loop-Fills}
use cloud_project.ResidentPageSet.Members.{
  IsMember, Probed, IsValid, distance, length-occupied-fill, length-occupied-le, get_or-set,
  set-IsShaped, free_slot,
}

module _ (k : ℕ) (s : ResidentPageSet) (valid : IsValid k s) (pid : ℕ) (real : is_free pid ≡ false)
    (absent : ¬ IsMember pid s) where
  open valid use {shaped, small, probed, unique, sized}

  absent_slot : (e : ℕ) → entry s (slot k s shaped (hash pid) e) ≢ pid
  absent_slot e h = absent (slot k s shaped (hash pid) e, mod-lt _ shaped.some_slot, h, real)

  -- The fill at the end of the walk.
  module _ (i n : ℕ) (ends : (hash pid + n) % s.count ≡ i) (near : n < s.count)
      (free : is_free (entry s i) ≡ true)
      (full : (e : ℕ) → e < n → is_free (entry s ((hash pid + e) % s.count)) ≡ false) where
    i-lt : i < s.count
    i-lt = subst (λ t. t < s.count) ends (mod-lt _ shaped.some_slot)

    entry-fill : (j : ℕ) → entry (fill s i pid) j ≡ (if i == j then pid else entry s j)
    unfolding fill
    entry-fill j = get_or-set s.ht i j pid (subst (λ t. i < t) (sym shaped.stored) i-lt)

    -- No slot but `i` changes, and no slot becomes empty.
    entry_other : (j : ℕ) → i ≢ j → entry (fill s i pid) j ≡ entry s j
    entry_other j ne = entry-fill j ∙ rw (ne→==_false i j ne) refl

    entry_self : entry (fill s i pid) i ≡ pid
    entry_self = entry-fill i ∙ rw (==_refl i) refl

    stays_full : (j : ℕ) → entry s j ≢ empty → entry (fill s i pid) j ≢ empty
    stays_full j h = ground (arith, entry-fill j, ==_iff pid empty)

    not_here : (j : ℕ) → j < s.count → entry s j ≢ pid
    not_here j h e = absent (j, h, e, real)

    fill-Probed_self : Probed (fill s i pid) i n
    unfolding fill
    fill-Probed_self = record {
      near = near;
      there = rw entry_self ends;
      full = λ e h. rw entry_self (stays_full _ (ground (arith, full e h)));
    }

    fill-Probed_other : (j d : ℕ) → i ≢ j → Probed s j d → Probed (fill s i pid) j d
    unfolding fill
    fill-Probed_other j d ne old = record {
      near = old.near;
      there = rw (entry_other j ne) old.there;
      full = λ e h. rw (entry_other j ne) (stays_full _ (old.full e h));
    }

    i-stored : i < length s.ht
    i-stored = subst (λ t. i < t) (sym shaped.stored) i-lt

    size-fill : (s.size + 1 < 2 ^ 64) × (s.size + 1 ≡ length (occupied (set s.ht i pid)))
    size-fill = omega (
      arith,
      length-occupied-fill s.ht i pid i-stored free real,
      length-occupied-le (set s.ht i pid),
      length-set s.ht i pid,
      shaped.stored,
      shaped.slots,
      sized,
      pow-le-pow_right {n = 2} (omega arith) {i = k} {j = 63} (omega arith),
    )

    pub fill-IsValid : IsValid k (fill s i pid)
    unfolding fill
    fill-IsValid = record {
      shaped = set-IsShaped i pid (u64 (s.size + 1)) shaped;
      small = small;
      probed = λ j h used. elim (ℕ_discrete i j) [
        | yes same ↦ subst (λ t. (d : ℕ) × Probed (fill s i pid) t d) same (n, fill-Probed_self)
        | no ne ↦
            let (d, old) = probed j h (subst (λ t. is_free t ≡ false) (entry_other j ne) used) in
            (d, fill-Probed_other j d ne old)
      ];
      unique = λ a b ha hb used same. ground (
        arith,
        entry-fill a,
        entry-fill b,
        ==_iff i a,
        ==_iff i b,
        not_here a ha,
        not_here b hb,
        unique a b ha hb,
      );
      sized = omega (arith, size-fill);
    }

    fill-IsMember : (q : ℕ) → IsMember q (fill s i pid) ↔ (IsMember q s ⊎ (q ≡ pid))
    unfolding fill
    fill-IsMember q = (
      λ (j, h, e, busy). elim (ℕ_discrete i j) [
        | yes same ↦ inr (sym e ∙ entry-fill j ∙ rw (same, ==_refl j) refl)
        | no ne ↦ inl (j, h, sym (entry_other j ne) ∙ e, busy)
      ],
      elim [
        | inl (j, h, e, busy) ↦
            (j, h, entry_other j (λ same. ground (arith, free, e, busy, same)) ∙ e, busy)
        | inr e ↦ (i, i-lt, entry_self ∙ sym e, rw e real)
      ],
    )

  -- What `insert` promises: it returns a valid set with one more page id.
  pub record Inserts (result : Run ResidentPageSet) : Type 0 where
    pub after : ResidentPageSet
    pub result_lem : result ≡ done after
    pub valid_after : IsValid k after
    pub members : (q : ℕ) → IsMember q after ↔ (IsMember q s ⊎ (q ≡ pid))
    pub counted : after.size ≡ s.size + 1
    pub clock : after.clock_pos ≡ s.clock_pos

  walk :
      (i : ℕ)
      → i < s.count
      → is_free (entry s i) ≡ true
      → Fills k s shaped pid (hash pid) (insert s pid)
  unfolding insert
  walk i h free =
      let (d, near, there) = distance s.count (hash pid) i h in
      rw (first_slot k s shaped (hash pid)) (
        insert_loop-Fills k s shaped pid (hash pid) absent_slot d 0 s.count
          (rw (zero-add, there) free) near (rw zero-add near)
          (λ e none_before. absurd (omega arith)))

  finish : {result : Run ResidentPageSet} → Fills k s shaped pid (hash pid) result → Inserts result
  unfolding fill
  finish fills =
      let i = slot k s shaped (hash pid) fills.steps in
      record {
        after = fill s i pid;
        result_lem = fills.result_lem;
        valid_after = fill-IsValid i fills.steps refl fills.near fills.was_free fills.first;
        members = fill-IsMember i fills.steps refl fills.near fills.was_free fills.first;
        counted =
            ground (arith, size-fill i fills.steps refl fills.near fills.was_free fills.first);
        clock = refl;
      }

  -- With fewer page ids than slots, `insert` of a page id that is not in the set returns: the set
  -- holds that page id and those it held before, each is found by probing, and `size` is one more.
  pub insert-Inserts : s.size < s.count → Inserts (insert s pid)
  insert-Inserts room =
      let (i, h, free) = free_slot s.ht (omega (arith, sized, shaped.stored)) in
      finish (walk i (omega (arith, shaped.stored)) free)
