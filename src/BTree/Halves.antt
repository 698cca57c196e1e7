-- ===== src/BTree/Halves.antt =====
-- btree.hpp, splitNode: the two halves of a leaf.
use mathlib.Core.Path.{subst}
use cloud_project.Prelude.{
  ℕ, ◌+◌, ◌≤◌, ◌<◌, ◌≡◌, ◌↔◌, inl, inr, refl, sym, ap, arith, List, ◌++◌, length, take, drop, done,
  ltb, ltb→lt, Bool-cases,
}
use cloud_project.BTree.Keys.{Before, Before-trans, Before-prefix, AreBytes}
use cloud_project.BTree.Compare.{Slot}
use cloud_project.BTree.Node.{Node, count, prefix, slot_at, make_hint}
use cloud_project.BTree.Update.{set_fences, insert_fence}
use cloud_project.BTree.LowerBound.{full_key, length-take}
use cloud_project.BTree.Valid.{IsValid, Holds}
use cloud_project.BTree.Separator.{Separates}
use cloud_project.BTree.Entries.{entries, Appends}
use cloud_project.BTree.Built.{length-slots_of, key_at, Built, built-IsValid, built-Holds}
use cloud_project.BTree.Fences.{UpTo, IsWithin, AreWithin, IsWithin-Begins}
use cloud_project.BTree.Update.{copied}
use cloud_project.BTree.Split.{split_leaf, no_neighbour}
use cloud_project.BTree.Parts.{
  IsPart, take-IsPart, drop-IsPart, Has-part, part-AreOrdered, length-entries, key_at-part,
  length-take_slots, length-drop,
}
use cloud_project.BTree.Filled.{Fits, target, copied-Appends, target-Built, Built-neighbour}

-- A node with the slots of `n` from `from` to `to`, and with its own fences.
pub record Carries (n : Node) (from to : ℕ) (lower upper : List ℕ) (m : Node) : Type 0 where
  pub valid : IsValid m
  pub within : AreWithin m
  pub lower_is : m.lower_fence ≡ lower
  pub upper_is : m.upper_fence ≡ upper
  pub holds :
      (k payload : List ℕ)
      → Holds k payload m ↔ (
          (i : ℕ) × (from ≤ i)
          × (i < to)
          × (full_key n i ≡ k)
          × ((slot_at n.slots i).payload ≡ payload))

module _ (n : Node) (v : IsValid n) (w : AreWithin n) (o : ℕ) (xs : List Slot)
    (part : IsPart n o xs) (lower upper : List ℕ) (bytes : AreBytes lower)
    (each : (i : ℕ) → o ≤ i → i < o + length xs → IsWithin lower upper (full_key n i)) where
  key_is : (i : ℕ) → i < length (entries n xs) → key_at (entries n xs) i ≡ full_key n (o + i)
  key_is i h = key_at-part n o xs v w.bytes part i (omega (arith, length-entries n xs))

  module _ (m : Node) (pid : ℕ) (b : Built lower upper (entries n xs) m) where
    abbrev made : Node
    made = record m { neighbour = pid }

    begins :
        (i : ℕ)
        → i < length (entries n xs)
        → prefix made ++ drop made.prefix_len (key_at (entries n xs) i) ≡ key_at (entries n xs) i
    begins i h = IsWithin-Begins made lower upper (key_at (entries n xs) i) b.lower_is b.common (
        subst (IsWithin lower upper) (sym (key_is i h))
          (each (o + i) (omega arith) (omega (arith, length-entries n xs))))

    pub made-Carries : Carries n o (o + length xs) lower upper (make_hint made)
    unfolding make_hint
    made-Carries =
        let built = Built-neighbour lower upper (entries n xs) m pid b in
        let ordered = part-AreOrdered n o xs v w.bytes part in
        let valid = built-IsValid lower upper (entries n xs) made built ordered begins in
        let there = λ (k payload : List ℕ). Has-part n o xs v w.bytes part k payload in
        let holds = built-Holds lower upper (entries n xs) made built ordered begins in
        record {
          valid = valid;
          within = record {
            bytes = subst AreBytes (sym b.lower_is) bytes;
            each = λ k payload h.
                let t = (there k payload).0 ((holds k payload).0 h) in
                rw (b.lower_is, b.upper_is)
                  (subst (IsWithin lower upper) t.key (each t.index t.from t.to));
          };
          lower_is = b.lower_is;
          upper_is = b.upper_is;
          holds = λ k payload. (
            λ h.
                let t = (there k payload).0 ((holds k payload).0 h) in
                (t.index, t.from, t.to, t.key, t.value),
            λ t. (holds k payload).1 (
                (there k payload).1
                  (record { index = t.0; from = t.1; to = t.2; key = t.3; value = t.4 })),
          );
        }

-- The keys up to the separator's slot, and those behind it, within the new fences.
module _ (n : Node) (w : AreWithin n) (s : ℕ) (sep : List ℕ) (v : IsValid n)
    (separates : Separates n sep s) where
  held-IsWithin : (i : ℕ) → i < count n → IsWithin n.lower_fence n.upper_fence (full_key n i)
  held-IsWithin i h =
      w.each (full_key n i) (slot_at n.slots i).payload
        (record { index = i; inside = h; key = refl; value = refl })

  pub UpTo-slot : (i : ℕ) → i ≤ s → UpTo (full_key n i) sep
  UpTo-slot i h = elim (Bool-cases (ltb i s)) [
    | inl less ↦ inl (
        through separates.upper (
          Before-prefix (prefix n) _ _
            (v.searchable.sorted.order i s (ltb→lt _ _ less) separates.inside)))
    | inr rest ↦
        let e : i ≡ s = ground arith in subst (λ j. UpTo (full_key n j) sep) (sym e) separates.upper
  ]
    where
      through :
          UpTo (full_key n s) sep → Before (full_key n i) (full_key n s) → Before (full_key n i) sep
      through (inl b) a = Before-trans _ _ _ a b
      through (inr e) a = subst (Before (full_key n i)) e a

  left-IsWithin : (i : ℕ) → i ≤ s → IsWithin n.lower_fence sep (full_key n i)
  left-IsWithin i h = record {
    above = (held-IsWithin i (omega (arith, separates.inside))).above;
    below = inr (UpTo-slot i h);
  }

  right-IsWithin : (i : ℕ) → s < i → i < count n → IsWithin sep n.upper_fence (full_key n i)
  right-IsWithin i h inside = record {
    above = inr (separates.lower i h inside);
    below = (held-IsWithin i inside).below;
  }

  -- What `splitNode` makes of a leaf.
  pub record Halves (new_pid : ℕ) (left right : Node) : Type 0 where
    pub left_part : Carries n 0 (s + 1) n.lower_fence sep left
    pub right_part : Carries n (s + 1) (count n) sep n.upper_fence right
    pub links : (left.neighbour ≡ new_pid) × (right.neighbour ≡ n.neighbour)
    pub leaves : (left.is_leaf ≡ n.is_leaf) × (right.is_leaf ≡ n.is_leaf)

  module _ (sep_bytes : AreBytes sep)
      (fits_left : Fits n.lower_fence sep (entries n (take (s + 1) n.slots)))
      (fits_right : Fits sep n.upper_fence (entries n (drop (s + 1) n.slots))) where
    abbrev left_target : Node
    left_target = target n.lower_fence sep n.is_leaf no_neighbour

    abbrev right_target : Node
    right_target = target sep n.upper_fence n.is_leaf no_neighbour

    whole : length (prefix n) ≡ n.prefix_len
    whole = length-take n.prefix_len n.lower_fence v.searchable.prefixed

    left_copy :
        (m : Node) × (copied n (take (s + 1) n.slots) left_target ≡ done m)
        × Appends (entries n (take (s + 1) n.slots)) left_target m
    unfolding set_fences insert_fence
    left_copy =
        copied-Appends n left_target (take (s + 1) n.slots) whole (omega arith) (omega arith)

    right_copy :
        (m : Node) × (copied n (drop (s + 1) n.slots) right_target ≡ done m)
        × Appends (entries n (drop (s + 1) n.slots)) right_target m
    unfolding set_fences insert_fence
    right_copy =
        copied-Appends n right_target (drop (s + 1) n.slots) whole (omega arith) (omega arith)

    pub split_leaf-Halves :
        (new_pid : ℕ)
        → (left : Node) × (right : Node) × (split_leaf new_pid s n left_target right_target
            ≡ done (left, right))
          × Halves new_pid left right
    unfolding split_leaf make_hint set_fences insert_fence
    split_leaf-Halves new_pid =
        let (l, el, al) = left_copy in
        let (r, er, ar) = right_copy in
        let size : count l ≡ s + 1 = omega (
          arith,
          ap length al.slots,
          length-slots_of left_target.prefix_len (entries n (take (s + 1) n.slots)),
          length-entries n (take (s + 1) n.slots),
          length-take_slots (s + 1) n.slots (omega (arith, separates.inside)),
        ) in
        let lp = take-IsPart n (s + 1) (omega (arith, separates.inside)) in
        let rp = drop-IsPart n (s + 1) (omega (arith, separates.inside)) in
        let taken = length-take_slots (s + 1) n.slots (omega (arith, separates.inside)) in
        let dropped = length-drop (s + 1) n.slots in
        let left_end : 0 + length (take (s + 1) n.slots) ≡ s + 1 = omega (arith, taken) in
        let right_end : s + 1 + length (drop (s + 1) n.slots) ≡ count n =
          omega (arith, dropped, separates.inside) in
        (
          make_hint (record l { neighbour = new_pid }),
          make_hint (record r { neighbour = n.neighbour }),
          rw (el, size, er) refl,
          record {
            left_part =
                subst
                  (λ to.
                    Carries n 0 to n.lower_fence sep (make_hint (record l { neighbour = new_pid })))
                  left_end
                  (made-Carries n v w 0 (take (s + 1) n.slots) lp n.lower_fence sep w.bytes
                    (λ i a b. left-IsWithin i (omega (arith, taken))) l new_pid
                    (target-Built n.lower_fence sep (entries n (take (s + 1) n.slots)) n.is_leaf
                      no_neighbour l fits_left al));
            right_part =
                subst
                  (λ to.
                    Carries n (s + 1) to sep n.upper_fence
                      (make_hint (record r { neighbour = n.neighbour })))
                  right_end
                  (made-Carries n v w (s + 1) (drop (s + 1) n.slots) rp sep n.upper_fence sep_bytes
                    (λ i a b. right-IsWithin i (omega arith) (omega (arith, right_end))) r
                    n.neighbour
                    (target-Built sep n.upper_fence (entries n (drop (s + 1) n.slots)) n.is_leaf
                      no_neighbour r fits_right ar));
            links = (refl, refl);
            leaves = (ap (λ x. x.is_leaf) al.same, ap (λ x. x.is_leaf) ar.same);
          },
        )
