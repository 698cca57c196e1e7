-- ===== src/BTree/Relink.antt =====
-- btree.hpp, splitNode: the parent's separator for the two halves, and where keys lead afterwards.
use mathlib.Core.Path.{subst}
use cloud_project.Prelude.{
  ℕ, suc, ◌+◌, ◌≤◌, ◌<◌, ◌≡◌, inl, inr, refl, sym, ap, ◌∙◌, arith, true, false, List, ◌++◌, length,
  ◌==◌, ==_iff, ne→==_false, Bool-cases,
}
use cloud_project.BTree.Keys.{Before, Before-trans}
use cloud_project.BTree.Compare.{Slot}
use cloud_project.BTree.Node.{Node, count, prefix, slot_at}
use cloud_project.BTree.Update.{insert_at}
use cloud_project.BTree.Slots.{length-insert_at, slot_at-insert_at_before, slot_at-insert_at_after}
use cloud_project.BTree.Sorted.{Place, place, early, here, late}
use cloud_project.BTree.LowerBound.{full_key}
use cloud_project.BTree.Fences.{UpTo}
use cloud_project.BTree.Split.{get_child}
use cloud_project.BTree.Children.{child_at, HasRank}

-- Keys and children of a node with one more slot at `r`.
module _ (p n' : Node) (r : ℕ) (x : Slot) (slots : n'.slots ≡ insert_at r x p.slots)
    (inside : r ≤ count p) (link : n'.neighbour ≡ p.neighbour)
    (prefixes : prefix n' ≡ prefix p) where
  pub grown : count n' ≡ count p + 1
  grown = ap length slots ∙ length-insert_at r x p.slots

  pub child_before : (i : ℕ) → i < r → child_at i n' ≡ child_at i p
  unfolding get_child
  child_before i less =
      let a : (i == count n') ≡ false = ne→==_false _ _ (λ e. absurd (omega (arith, e, grown))) in
      let b : (i == count p) ≡ false = ne→==_false _ _ (λ e. absurd (omega (arith, e))) in
      rw (a, b, slots, slot_at-insert_at_before r i x p.slots less (omega arith)) refl

  pub child_self : child_at r n' ≡ (get_child r n')
  child_self =
      let a : (r == count n') ≡ false = ne→==_false _ _ (λ e. absurd (omega (arith, e, grown))) in
      rw a refl

  pub child_after : (i : ℕ) → r ≤ i → i ≤ count p → child_at (suc i) n' ≡ child_at i p
  unfolding get_child
  child_after i le within = elim (Bool-cases (i == count p)) [
    | inl last ↦
        let e : i ≡ count p = (==_iff i (count p)).0 last in
        let a : (suc i == count n') ≡ true =
          (==_iff (suc i) (count n')).1 (omega (arith, e, grown)) in
        rw (last, a) link
    | inr slot ↦
        let a : (suc i == count n') ≡ false = ne→==_false _ _ (λ e. ground (arith, e, grown)) in
        rw (slot, a, slots, slot_at-insert_at_after r i x p.slots le inside) refl
  ]

  key_is : (i : ℕ) → full_key n' i ≡ prefix p ++ (slot_at (insert_at r x p.slots) i).key
  key_is i = rw (prefixes, slots) refl

  module _ (sep : List ℕ) (sep_key : prefix p ++ x.key ≡ sep)
      (before_sep : (i : ℕ) → i < r → Before (full_key p i) sep)
      (behind_sep : (i : ℕ) → r ≤ i → i < count p → Before sep (full_key p i)) (k : List ℕ) where
    -- The keys of the new node before a place, and from a place on.
    below_from :
        (a : ℕ)
        → ((i : ℕ) → i < a → i < r → Before (full_key p i) k)
        → (r < a → Before sep k)
        → ((i : ℕ) → suc i < a → r ≤ i → Before (full_key p i) k)
        → (i : ℕ) → i < a
        → i < count n'
        → Before (full_key n' i) k
    below_from a old new shifted i less within =
        go (place r i x p.slots inside (subst (λ xs. i < length xs) slots within))
      where
        go : Place r x p.slots i → Before (full_key n' i) k
        go (early b e) =
            subst (λ y. Before y k) (sym (key_is i ∙ ap (λ s. prefix p ++ s.key) e)) (old i less b)
        go (here b e) =
            subst (λ y. Before y k) (sym (key_is i ∙ ap (λ s. prefix p ++ s.key) e ∙ sep_key))
              (new (omega (arith, b)))
        go (late j b c e) =
            subst (λ y. Before y k) (sym (key_is i ∙ ap (λ s. prefix p ++ s.key) e))
              (shifted j (omega (arith, b)) c)

    above_from :
        (a : ℕ)
        → ((i : ℕ) → a ≤ i → i < r → UpTo k (full_key p i))
        → (a ≤ r → UpTo k sep)
        → ((i : ℕ) → a ≤ suc i → r ≤ i → i < count p → UpTo k (full_key p i))
        → (i : ℕ) → a ≤ i
        → i < count n'
        → UpTo k (full_key n' i)
    above_from a old new shifted i le within =
        go (place r i x p.slots inside (subst (λ xs. i < length xs) slots within))
      where
        go : Place r x p.slots i → UpTo k (full_key n' i)
        go (early b e) =
            subst (UpTo k) (sym (key_is i ∙ ap (λ s. prefix p ++ s.key) e)) (old i le b)
        go (here b e) =
            subst (UpTo k) (sym (key_is i ∙ ap (λ s. prefix p ++ s.key) e ∙ sep_key))
              (new (omega (arith, b)))
        go (late j b c e) =
            subst (UpTo k) (sym (key_is i ∙ ap (λ s. prefix p ++ s.key) e))
              (shifted j (omega (arith, b)) c (omega (arith, b, grown)))

    UpTo-Before : (y z : List ℕ) → UpTo k y → Before y z → UpTo k z
    UpTo-Before y z (inl a) b = inl (Before-trans k y z a b)
    UpTo-Before y z (inr e) b = inl (subst (λ w. Before w z) (sym e) b)

    -- A key at an earlier place stays there, one at a later place moves on by one.
    pub rank_before : (a : ℕ) → a < r → HasRank k p a → HasRank k n' a
    rank_before a less h = record {
      inside = omega (arith, grown);
      below = λ i l.
          below_from a (λ j m _. h.below j m) (λ m. absurd (omega arith))
            (λ j m c. absurd (omega arith)) i l (omega (arith, grown));
      above = λ i l within.
          above_from a (λ j m c. h.above j m (omega arith))
            (λ m.
              UpTo-Before (full_key p a) sep (h.above a (omega arith) (omega arith))
                (before_sep a less))
            (λ j m c d. h.above j (omega arith) d) i l within;
    }

    pub rank_after : (a : ℕ) → r < a → HasRank k p a → HasRank k n' (suc a)
    rank_after a more h = record {
      inside = omega (arith, grown, h.inside);
      below = λ i l.
          below_from (suc a) (λ j m c. h.below j (omega arith))
            (λ m.
              Before-trans sep (full_key p r) k
                (behind_sep r (omega arith) (omega (arith, h.inside))) (h.below r more))
            (λ j m c. h.below j (omega arith)) i l (omega (arith, grown, h.inside));
      above = λ i l within.
          above_from (suc a) (λ j m c. absurd (omega arith)) (λ m. absurd (omega arith))
            (λ j m c d. h.above j (omega arith) d) i l within;
    }

    -- A key at the separator's place goes to its left or to its right.
    pub rank_left : HasRank k p r → UpTo k sep → HasRank k n' r
    rank_left h le = record {
      inside = omega (arith, grown);
      below = λ i l.
          below_from r (λ j m _. h.below j m) (λ m. absurd (omega arith))
            (λ j m c. absurd (omega arith)) i l (omega (arith, grown));
      above = λ i l within.
          above_from r (λ j m c. absurd (omega arith)) (λ _. le) (λ j m c d. h.above j c d) i l
            within;
    }

    pub rank_right : HasRank k p r → Before sep k → HasRank k n' (suc r)
    rank_right h lt = record {
      inside = omega (arith, grown);
      below = λ i l.
          below_from (suc r) (λ j m c. h.below j c) (λ _. lt) (λ j m c. absurd (omega arith)) i l
            (omega (arith, grown));
      above = λ i l within.
          above_from (suc r) (λ j m c. absurd (omega arith)) (λ m. absurd (omega arith))
            (λ j m c d. h.above j c d) i l within;
    }
