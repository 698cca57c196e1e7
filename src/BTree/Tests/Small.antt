-- ===== src/BTree/Tests/Small.antt =====
-- Nodes with keys of one byte.
use cloud_project.Prelude.{
  ℕ, zero, suc, ◌+◌, ◌-◌, ◌≤◌, ◌<◌, ◌≡◌, inl, refl, arith, List, [], ◌∷◌, replicate, length, Bool,
}
use cloud_project.BTree.Keys.{head, AreBytes, Before}
use cloud_project.BTree.Compare.{Slot}
use cloud_project.BTree.Node.{Node, slot_at}
use cloud_project.BTree.Update.{common_len}
use cloud_project.BTree.Valid.{IsValid, slots_space}

abbrev pub slots_of_bytes : List (ℕ × List ℕ) → List Slot
slots_of_bytes [] = []
slots_of_bytes ((k, payload) ∷ ks) =
    record { head = head (k ∷ []); key = k ∷ []; payload = payload } ∷ slots_of_bytes ks

abbrev pub AreAbove : ℕ → List (ℕ × List ℕ) → Type 0
AreAbove a [] = Unit
AreAbove a ((k, payload) ∷ ks) = (a < k) × (k < 256) × AreAbove k ks

AreAbove-Before :
    (a : ℕ) (ks : List (ℕ × List ℕ)) (j : ℕ)
    → AreAbove a ks
    → j < length (slots_of_bytes ks)
    → Before (a ∷ []) (slot_at (slots_of_bytes ks) j).key
AreAbove-Before a [] j h inside = absurd (omega arith)
AreAbove-Before a ((k, payload) ∷ ks) zero h inside = inl h.0
AreAbove-Before a ((k, payload) ∷ ks) (suc j) h inside =
    AreAbove-Before a ks j (weaker ks h.2) (omega arith)
  where
    weaker : (ks : List (ℕ × List ℕ)) → AreAbove k ks → AreAbove a ks
    weaker [] w = tt
    weaker ((l, payload) ∷ ks) w = (omega (arith, w.0), w.1, w.2)

slots_of_bytes-order :
    (a : ℕ) (ks : List (ℕ × List ℕ)) (i j : ℕ)
    → AreAbove a ks
    → i < j
    → j < length (slots_of_bytes ks)
    → Before (slot_at (slots_of_bytes ks) i).key (slot_at (slots_of_bytes ks) j).key
slots_of_bytes-order a [] i j h less inside = absurd (omega arith)
slots_of_bytes-order a ((k, payload) ∷ ks) zero zero h less inside = absurd (omega arith)
slots_of_bytes-order a ((k, payload) ∷ ks) zero (suc j) h less inside =
    AreAbove-Before k ks j h.2 (omega arith)
slots_of_bytes-order a ((k, payload) ∷ ks) (suc i) zero h less inside = absurd (omega arith)
slots_of_bytes-order a ((k, payload) ∷ ks) (suc i) (suc j) h less inside =
    slots_of_bytes-order k ks i j h.2 (omega arith) (omega arith)

slots_of_bytes-heads :
    (ks : List (ℕ × List ℕ)) (i : ℕ)
    → i < length (slots_of_bytes ks)
    → (slot_at (slots_of_bytes ks) i).head ≡ head (slot_at (slots_of_bytes ks) i).key
slots_of_bytes-heads [] i inside = absurd (omega arith)
slots_of_bytes-heads ((k, payload) ∷ ks) zero inside = refl
slots_of_bytes-heads ((k, payload) ∷ ks) (suc i) inside = slots_of_bytes-heads ks i (omega arith)

slots_of_bytes-bytes :
    (a : ℕ) (ks : List (ℕ × List ℕ)) (i : ℕ)
    → AreAbove a ks
    → i < length (slots_of_bytes ks)
    → AreBytes (slot_at (slots_of_bytes ks) i).key
slots_of_bytes-bytes a [] i h inside = absurd (omega arith)
slots_of_bytes-bytes a ((k, payload) ∷ ks) zero h inside = (h.1, tt)
slots_of_bytes-bytes a ((k, payload) ∷ ks) (suc i) h inside =
    slots_of_bytes-bytes k ks i h.2 (omega arith)

abbrev pub small_node :
    (is_leaf : Bool) (neighbour : ℕ) (lower upper : List ℕ) (used : ℕ) → List (ℕ × List ℕ) → Node
small_node is_leaf neighbour lower upper used ks = record {
  is_leaf = is_leaf;
  neighbour = neighbour;
  lower_fence = lower;
  upper_fence = upper;
  prefix_len = 0;
  slots = slots_of_bytes ks;
  hint = replicate 16 0;
  space_used = used;
  data_offset = 4096 - used;
}

pub small_node-IsValid :
    (is_leaf : Bool) (neighbour : ℕ) (lower upper : List ℕ) (used : ℕ) (ks : List (ℕ × List ℕ))
    → AreAbove 0 ks
    → common_len lower upper ≡ 0
    → length (slots_of_bytes ks) ≤ 32
    → used ≡ length lower + length upper + slots_space (slots_of_bytes ks)
    → used ≤ 1000
    → IsValid (small_node is_leaf neighbour lower upper used ks)
small_node-IsValid is_leaf neighbour lower upper used ks above apart few space small = record {
  searchable = record {
    sorted = record {
      order = λ i j. slots_of_bytes-order 0 ks i j above;
      heads = slots_of_bytes-heads ks;
      bytes = λ i. slots_of_bytes-bytes 0 ks i above;
      few = omega arith;
    };
    hints = λ h. absurd (omega arith);
    prefixed = omega arith;
  };
  hinted = refl;
  common = omega (arith, apart);
  used = space;
  apart = omega arith;
  room = omega arith;
}
