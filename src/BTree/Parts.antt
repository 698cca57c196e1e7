-- ===== src/BTree/Parts.antt =====
-- btree.hpp: a run of slots of a node, copied to a node with other fences.
use mathlib.Core.Path.{subst}
use cloud_project.Prelude.{
  ℕ, zero, suc, ◌+◌, ◌-◌, ◌≤◌, ◌<◌, ◌≡◌, ◌↔◌, refl, sym, ap, ◌∙◌, arith, List, [], ◌∷◌, ◌++◌,
  length, take, drop,
}
use cloud_project.BTree.Keys.{Before, Before-prefix, AreBytes}
use cloud_project.BTree.Compare.{Slot}
use cloud_project.BTree.Node.{Node, count, prefix, slot_at}
use cloud_project.BTree.LowerBound.{full_key, take-AreBytes}
use cloud_project.BTree.Valid.{IsValid}
use cloud_project.BTree.Entries.{entry_of, entries}
use cloud_project.BTree.Built.{entry_at, key_at, AreOrdered, Has}

-- The slots from `o` on.
pub record IsPart (n : Node) (o : ℕ) (xs : List Slot) : Type 0 where
  pub inside : o + length xs ≤ count n
  pub same : (i : ℕ) → i < length xs → slot_at xs i ≡ slot_at n.slots (o + i)

slot_at-take :
    (k i : ℕ) (xs : List Slot) → i < length (take k xs) → slot_at (take k xs) i ≡ slot_at xs i
slot_at-take zero i xs h = absurd (omega arith)
slot_at-take (suc k) i [] h = refl
slot_at-take (suc k) zero (x ∷ xs) h = refl
slot_at-take (suc k) (suc i) (x ∷ xs) h = slot_at-take k i xs (omega arith)

pub length-take_slots : (k : ℕ) (xs : List Slot) → k ≤ length xs → length (take k xs) ≡ k
length-take_slots zero xs h = refl
length-take_slots (suc k) [] h = absurd (omega arith)
length-take_slots (suc k) (x ∷ xs) h = ap suc (length-take_slots k xs (omega arith))

slot_at-drop : (k i : ℕ) (xs : List Slot) → slot_at (drop k xs) i ≡ slot_at xs (k + i)
slot_at-drop zero i xs = let e : i ≡ 0 + i = omega arith in ap (slot_at xs) e
slot_at-drop (suc k) i [] = refl
slot_at-drop (suc k) i (x ∷ xs) =
    let e : suc (k + i) ≡ suc k + i = omega arith in slot_at-drop k i xs ∙ ap (slot_at (x ∷ xs)) e

pub length-drop : (k : ℕ) (xs : List Slot) → length (drop k xs) ≡ length xs - k
length-drop zero xs = omega arith
length-drop (suc k) [] = omega arith
length-drop (suc k) (x ∷ xs) = omega (arith, length-drop k xs)

pub take-IsPart : (n : Node) (k : ℕ) → k ≤ count n → IsPart n 0 (take k n.slots)
take-IsPart n k h = record {
  inside = omega (arith, length-take_slots k n.slots h);
  same = λ i less. slot_at-take k i n.slots less ∙ ap (slot_at n.slots) (omega arith);
}

pub drop-IsPart : (n : Node) (k : ℕ) → k ≤ count n → IsPart n k (drop k n.slots)
drop-IsPart n k h = record {
  inside = omega (arith, length-drop k n.slots);
  same = λ i less. slot_at-drop k i n.slots;
}

pub length-entries : (n : Node) (xs : List Slot) → length (entries n xs) ≡ length xs
length-entries n [] = refl
length-entries n (x ∷ xs) = ap suc (length-entries n xs)

pub entry_at-entries :
    (n : Node) (xs : List Slot) (i : ℕ)
    → i < length xs
    → entry_at (entries n xs) i ≡ entry_of n (slot_at xs i)
entry_at-entries n [] i h = absurd (omega arith)
entry_at-entries n (x ∷ xs) zero h = refl
entry_at-entries n (x ∷ xs) (suc i) h = entry_at-entries n xs i (omega arith)

append-AreBytes : (xs ys : List ℕ) → AreBytes xs → AreBytes ys → AreBytes (xs ++ ys)
append-AreBytes [] ys a b = b
append-AreBytes (x ∷ xs) ys a b = (a.0, append-AreBytes xs ys a.1 b)

module _ (n : Node) (o : ℕ) (xs : List Slot) (v : IsValid n) (bytes : AreBytes n.lower_fence)
    (part : IsPart n o xs) where
  pub key_at-part : (i : ℕ) → i < length xs → key_at (entries n xs) i ≡ full_key n (o + i)
  key_at-part i h =
      ap (λ e. e.0) (entry_at-entries n xs i h) ∙ ap (λ s. prefix n ++ s.key) (part.same i h)

  pub part-AreOrdered : AreOrdered (entries n xs)
  part-AreOrdered = record {
    order = λ i j less inside.
        let j_in : j < length xs = omega (arith, length-entries n xs) in
        let i_in : i < length xs = omega arith in
        subst (λ k. Before k (key_at (entries n xs) j)) (sym (key_at-part i i_in))
          (subst (Before (full_key n (o + i))) (sym (key_at-part j j_in)) (
            Before-prefix (prefix n) _ _ (
              v.searchable.sorted.order (o + i) (o + j) (omega arith)
                (omega (arith, part.inside)))));
    bytes = λ i inside.
        let i_in : i < length xs = omega (arith, length-entries n xs) in
        subst AreBytes (sym (key_at-part i i_in)) (
          append-AreBytes (prefix n) _ (take-AreBytes n.prefix_len n.lower_fence bytes)
            (v.searchable.sorted.bytes (o + i) (omega (arith, part.inside))));
  }

  -- An entry of the run is what the node holds there.
  pub record HoldsThere (k payload : List ℕ) : Type 0 where
    pub index : ℕ
    pub from : o ≤ index
    pub to : index < o + length xs
    pub key : full_key n index ≡ k
    pub value : (slot_at n.slots index).payload ≡ payload

  pub Has-part : (k payload : List ℕ) → Has k payload (entries n xs) ↔ HoldsThere k payload
  Has-part k payload = (
    λ h.
        let i_in : h.index < length xs = omega (arith, length-entries n xs, h.inside) in
        record {
          index = o + h.index;
          from = omega arith;
          to = omega arith;
          key = sym (key_at-part h.index i_in) ∙ ap (λ e. e.0) h.there;
          value =
              ap (λ s. s.payload) (sym (part.same h.index i_in))
              ∙ ap (λ e. e.1) (sym (entry_at-entries n xs h.index i_in))
              ∙ ap (λ e. e.1) h.there;
        },
    λ h.
        let i = h.index - o in
        let i_in : i < length xs = omega (arith, h.from, h.to) in
        let at_index : o + i ≡ h.index = omega (arith, h.from) in
        record {
          index = i;
          inside = omega (arith, length-entries n xs);
          there = λ j. (
            (key_at-part i i_in ∙ ap (full_key n) at_index ∙ h.key) j,
            (ap (λ e. e.1) (entry_at-entries n xs i i_in)
                  ∙ ap (λ s. s.payload) (part.same i i_in ∙ ap (slot_at n.slots) at_index)
                  ∙ h.value)
                j,
          );
        },
  )
