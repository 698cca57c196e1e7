-- ===== src/BTree/Sorted.antt =====
-- btree.hpp: the slots stay in order when one is put in at its place, or taken out.
use cloud_project.Prelude.{
  ℕ, suc, ◌+◌, ◌-◌, ◌^◌, ◌≤◌, ◌<◌, ◌≡◌, inl, inr, refl, sym, ap, ◌∙◌, arith, false, List, ltb,
  ltb→lt, ◌==◌, ==_iff, Bool-cases, if◌then◌else◌, length,
}
use mathlib.Core.Path.{subst}
use cloud_project.BTree.Keys.{head, Before, AreBytes}
use cloud_project.BTree.Compare.{Slot}
use cloud_project.BTree.Node.{slot_at}
use cloud_project.BTree.Update.{insert_at, remove_at}
use cloud_project.BTree.Search.{AreSorted, Finds}
use cloud_project.BTree.Slots.{
  length-insert_at, slot_at-insert_at_before, slot_at-insert_at_self, slot_at-insert_at_after,
  length-remove_at, slot_at-remove_at_before, slot_at-remove_at_after,
}

-- Where a slot was before one was put in at `r`.
pub data Place (r : ℕ) (x : Slot) (xs : List Slot) (j : ℕ) : Type 0 where
  early : j < r → slot_at (insert_at r x xs) j ≡ slot_at xs j → Place r x xs j
  here : j ≡ r → slot_at (insert_at r x xs) j ≡ x → Place r x xs j
  late : (i : ℕ) → j ≡ suc i → r ≤ i → slot_at (insert_at r x xs) j ≡ slot_at xs i → Place r x xs j

pub place :
    (r j : ℕ) (x : Slot) (xs : List Slot)
    → r ≤ length xs
    → j < length (insert_at r x xs)
    → Place r x xs j
place r j x xs inside h = elim (Bool-cases (ltb j r)) [
  | inl less ↦
      early (ltb→lt _ _ less)
        (slot_at-insert_at_before r j x xs (ltb→lt _ _ less) (omega (arith, ltb→lt j r less)))
  | inr rest ↦ elim (Bool-cases (j == r)) [
    | inl equal ↦
        let e : j ≡ r = (==_iff j r).0 equal in
        here e (ap (slot_at (insert_at r x xs)) e ∙ slot_at-insert_at_self r x xs inside)
    | inr other ↦
        let e : j ≡ suc (j - 1) = ground arith in
        let le : r ≤ j - 1 = ground arith in
        late (j - 1) e le
          (ap (slot_at (insert_at r x xs)) e ∙ slot_at-insert_at_after r (j - 1) x xs le inside)
  ]
]

module _ (key : List ℕ) (r : ℕ) (x : Slot) (xs : List Slot) (sorted : AreSorted xs)
    (finds : Finds key xs (false, r)) (key_of : x.key ≡ key) where
  grown : length (insert_at r x xs) ≡ length xs + 1
  grown = length-insert_at r x xs

  insert_at_order :
      (i j : ℕ)
      → i < j
      → j < length (insert_at r x xs)
      → Before (slot_at (insert_at r x xs) i).key (slot_at (insert_at r x xs) j).key
  insert_at_order i j less inside =
      go (place r i x xs finds.inside (omega arith)) (place r j x xs finds.inside inside)
    where
      go :
          Place r x xs i
          → Place r x xs j
          → Before (slot_at (insert_at r x xs) i).key (slot_at (insert_at r x xs) j).key
      go (early a e) (early b f) = rw (e, f) (sorted.order i j less (omega (arith, finds.inside)))
      go (early a e) (here b f) = rw (e, f, key_of) (finds.below i a)
      go (early a e) (late k b c f) =
          rw (e, f) (sorted.order i k (omega arith) (omega (arith, grown)))
      go (here a e) (early b f) = absurd (omega arith)
      go (here a e) (here b f) = absurd (omega arith)
      go (here a e) (late k b c f) = rw (e, f, key_of) (finds.miss refl k c (omega (arith, grown)))
      go (late l a d e) (early b f) = absurd (omega arith)
      go (late l a d e) (here b f) = absurd (omega arith)
      go (late l a d e) (late k b c f) =
          rw (e, f) (sorted.order l k (omega arith) (omega (arith, grown)))

  -- What holds of every slot and of the new one holds of every slot afterwards.
  insert_at_all :
      (P : Slot → Type 0)
      → P x
      → ((i : ℕ) → i < length xs → P (slot_at xs i))
      → (j : ℕ) → j < length (insert_at r x xs)
      → P (slot_at (insert_at r x xs) j)
  insert_at_all P new old j inside = go (place r j x xs finds.inside inside)
    where
      go : Place r x xs j → P (slot_at (insert_at r x xs) j)
      go (early b f) = subst P (sym f) (old j (omega (arith, finds.inside)))
      go (here b f) = subst P (sym f) new
      go (late k b c f) = subst P (sym f) (old k (omega (arith, grown)))

  -- A slot put in where the search for its key ends leaves the slots in order.
  pub insert_at-AreSorted :
      AreBytes key → x.head ≡ head x.key → length xs + 1 < 2 ^ 16 → AreSorted (insert_at r x xs)
  insert_at-AreSorted bytes head_of room = record {
    order = insert_at_order;
    heads = insert_at_all (λ s. s.head ≡ head s.key) head_of sorted.heads;
    bytes = insert_at_all (λ s. AreBytes s.key) (subst AreBytes (sym key_of) bytes) sorted.bytes;
    few = omega (arith, grown);
  }

-- Where a slot was before the one at `r` was taken out.
abbrev pub was : (r j : ℕ) → ℕ
was r j = if ltb j r then j else suc j

pub slot_at-remove_at :
    (r j : ℕ) (xs : List Slot) → slot_at (remove_at r xs) j ≡ slot_at xs (was r j)
slot_at-remove_at r j xs = elim (Bool-cases (ltb j r)) [
  | inl less ↦ rw less (slot_at-remove_at_before r j xs (ltb→lt _ _ less))
  | inr rest ↦ rw rest (slot_at-remove_at_after r j xs (ground arith))
]

pub remove_at-AreSorted :
    (r : ℕ) (xs : List Slot) → r < length xs → AreSorted xs → AreSorted (remove_at r xs)
remove_at-AreSorted r xs inside sorted =
    let shrunk = length-remove_at r xs inside in
    record {
      order = λ i j less h.
          rw (slot_at-remove_at r i xs, slot_at-remove_at r j xs)
            (sorted.order (was r i) (was r j) (ground arith) (ground (arith, shrunk)));
      heads =
          λ i h. rw (slot_at-remove_at r i xs) (sorted.heads (was r i) (ground (arith, shrunk)));
      bytes =
          λ i h. rw (slot_at-remove_at r i xs) (sorted.bytes (was r i) (ground (arith, shrunk)));
      few = omega (arith, shrunk, sorted.few);
    }
