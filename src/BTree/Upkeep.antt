-- ===== src/BTree/Upkeep.antt =====
-- btree.hpp, makeHint and updateHint: the hints belong to the slots again.
use mathlib.Core.Path.{subst}
use native.Mathlib.Nat.{mul-le-mul_left, mul-add, mul-div-le}
use cloud_project.Prelude.{
  ℕ, zero, suc, ◌+◌, ◌-◌, ◌*◌, ◌/◌, ◌≤◌, ◌<◌, ◌≡◌, inl, inr, refl, sym, ap, ◌∙◌, arith, List, ltb,
  ltb→lt, Bool-cases, length, get_or, set, get_or-set_self, get_or-set_ne, length-set,
}
use cloud_project.BTree.Compare.{Slot}
use cloud_project.BTree.Node.{
  Node, count, slot_at, hint_count, distance, hint_loop, make_hint, first_hint, update_hint,
}
use cloud_project.BTree.Hints.{AreHints}
use cloud_project.BTree.Update.{insert_at}
use cloud_project.BTree.Slots.{length-insert_at, slot_at-insert_at_before}

length-hint_loop :
    (rounds i dist : ℕ) (slots : List Slot) (hint : List ℕ)
    → length (hint_loop rounds i dist slots hint) ≡ length hint
unfolding hint_loop
length-hint_loop zero i dist slots hint = refl
length-hint_loop (suc rounds) i dist slots hint =
    length-hint_loop rounds (suc i) dist slots _ ∙ length-set hint i _

hint_loop_before :
    (rounds i dist k : ℕ) (slots : List Slot) (hint : List ℕ)
    → k < i
    → get_or (hint_loop rounds i dist slots hint) k 0 ≡ get_or hint k 0
unfolding hint_loop
hint_loop_before zero i dist k slots hint less = refl
hint_loop_before (suc rounds) i dist k slots hint less =
    hint_loop_before rounds (suc i) dist k slots _ (omega arith)
    ∙ get_or-set_ne hint i k _ 0 (λ e. absurd (omega (arith, e)))

hint_loop_made :
    (rounds i dist k : ℕ) (slots : List Slot) (hint : List ℕ)
    → i ≤ k
    → k < i + rounds
    → i + rounds ≤ length hint
    → get_or (hint_loop rounds i dist slots hint) k 0 ≡ (slot_at slots (dist * (k + 1))).head
unfolding hint_loop
hint_loop_made zero i dist k slots hint from to room = absurd (omega arith)
hint_loop_made (suc rounds) i dist k slots hint from to room = elim (Bool-cases (ltb i k)) [
  | inl less ↦
      hint_loop_made rounds (suc i) dist k slots _ (ltb→lt _ _ less) (omega arith)
        (omega (arith, length-set hint i (slot_at slots (dist * (i + 1))).head))
  | inr equal ↦
      let e : i ≡ k = ground arith in
      subst
        (λ j.
          get_or
            (hint_loop rounds (suc i) dist slots (set hint i (slot_at slots (dist * (i + 1))).head))
            j 0
          ≡ (slot_at slots (dist * (j + 1))).head)
        e
        (hint_loop_before rounds (suc i) dist i slots _ (omega arith)
          ∙ get_or-set_self hint i _ 0 (omega arith))
]

pub make_hint-AreHints :
    (n : Node) → length n.hint ≡ hint_count → AreHints n.slots (make_hint n).hint
unfolding make_hint
make_hint-AreHints n full = record {
  each = λ k less.
      hint_loop_made hint_count 0 (distance (count n)) k n.slots n.hint (omega arith) less
        (omega (arith, full));
}

first_hint_lem :
    (c r k : ℕ)
    → k < first_hint c r
    → (hint_count * 2 + 1 < c)
      × (distance (c - 1) ≡ distance c)
      × (1 < r / distance c)
      × (k < r / distance c - 1)
unfolding first_hint
first_hint_lem c r k h = ground arith

-- A hint before the first one that is made again stands for a slot before the new one.
hint_before : (r dist k : ℕ) → 0 < dist → k + 1 ≤ r / dist - 1 → 1 < r / dist → dist * (k + 1) < r
hint_before r dist k some_dist le more =
    let next : k + 2 ≤ r / dist = omega arith in
    omega (arith, mul-le-mul_left dist next, mul-add dist (k + 1) 1, mul-div-le r dist)

-- An insert in between keeps the hints that it does not make again.
pub update_hint-AreHints :
    (r : ℕ) (x : Slot) (n : Node)
    → r ≤ length n.slots
    → length n.hint ≡ hint_count
    → (hint_count * 2 < length n.slots → AreHints n.slots n.hint)
    → AreHints
        (insert_at r x n.slots)
        (update_hint r (record n { slots = insert_at r x n.slots })).hint
unfolding update_hint
update_hint-AreHints r x n inside full old = record { each = each }
  where
    slots : List Slot
    slots = insert_at r x n.slots

    more : length slots ≡ length n.slots + 1
    more = length-insert_at r x n.slots

    kept :
        (k : ℕ)
        → k < hint_count
        → k < first_hint (length slots) r
        → get_or n.hint k 0 ≡ (slot_at slots (distance (length slots) * (k + 1))).head
    kept k less early =
        let f = first_hint_lem (length slots) r k early in
        let old_hints = old (omega (arith, more, f.0)) in
        let same : distance (length n.slots) ≡ distance (length slots) =
          subst (λ c. distance c ≡ distance (length slots)) (omega (arith, more)) f.1 in
        let before =
          hint_before r (distance (length slots)) k (omega (arith, f.0)) (omega (arith, f.3)) f.2 in
        old_hints.each k less
        ∙ ap (λ d. (slot_at n.slots (d * (k + 1))).head) same
        ∙ ap (λ s. s.head)
            (sym (
              slot_at-insert_at_before r (distance (length slots) * (k + 1)) x n.slots before
                (omega (arith, before, inside))))

    each :
        (k : ℕ)
        → k < hint_count
        → get_or (update_hint r (record n { slots = slots })).hint k 0
          ≡ (slot_at slots (distance (length slots) * (k + 1))).head
    each k less = elim (Bool-cases (ltb k (first_hint (length slots) r))) [
      | inl early ↦
          hint_loop_before _ (first_hint (length slots) r) _ k slots n.hint (ltb→lt _ _ early)
          ∙ kept k less (ltb→lt _ _ early)
      | inr late ↦
          hint_loop_made _ (first_hint (length slots) r) _ k slots n.hint (ground arith)
            (ground arith) (ground (arith, full))
    ]

pub length-make_hint : (n : Node) → length (make_hint n).hint ≡ length n.hint
unfolding make_hint
length-make_hint n = length-hint_loop hint_count 0 (distance (count n)) n.slots n.hint

pub length-update_hint : (r : ℕ) (n : Node) → length (update_hint r n).hint ≡ length n.hint
unfolding update_hint
length-update_hint r n =
    length-hint_loop (hint_count - first_hint (count n) r) (first_hint (count n) r)
      (distance (count n)) n.slots n.hint
