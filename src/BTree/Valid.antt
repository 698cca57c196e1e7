-- ===== src/BTree/Valid.antt =====
-- btree.hpp: when a node is well-formed, and what it holds as a map from keys to payloads.
use cloud_project.Prelude.{
  ℕ, zero, suc, ◌+◌, ◌≤◌, ◌<◌, ◌≡◌, inl, inr, refl, arith, List, [], ◌∷◌, length, ltb, ltb→lt,
  Bool-cases, false,
}
use mathlib.Core.Path.{subst}
use cloud_project.BTree.Keys.{Before, Before-prefix, Before-irrefl}
use cloud_project.BTree.Compare.{Slot}
use cloud_project.BTree.Node.{Node, count, prefix, slot_at, page_size, hint_count}
use cloud_project.BTree.Update.{slots_end, insert_at, remove_at, common_len}
use cloud_project.BTree.LowerBound.{IsSearchable, full_key, Locates}

-- The heap's space that slots take.
abbrev pub slot_space : Slot → ℕ
slot_space s = length s.key + length s.payload

unfoldable pub slots_space : List Slot → ℕ
slots_space [] = 0
slots_space (s ∷ xs) = slot_space s + slots_space xs

pub record IsValid (n : Node) : Type 0 where
  pub searchable : IsSearchable n
  pub hinted : length n.hint ≡ hint_count
  pub common : n.prefix_len ≡ common_len n.lower_fence n.upper_fence
  pub used : n.space_used ≡ length n.lower_fence + length n.upper_fence + slots_space n.slots
  pub apart : slots_end n ≤ n.data_offset
  pub room : n.data_offset + n.space_used ≤ page_size

-- The node holds the payload for the key.
pub record Holds (k payload : List ℕ) (n : Node) : Type 0 where
  pub index : ℕ
  pub inside : index < count n
  pub key : full_key n index ≡ k
  pub value : (slot_at n.slots index).payload ≡ payload

pub slots_space-insert_at :
    (i : ℕ) (x : Slot) (xs : List Slot)
    → slots_space (insert_at i x xs) ≡ slot_space x + slots_space xs
unfolding slots_space
slots_space-insert_at zero x xs = refl
slots_space-insert_at (suc i) x [] = refl
slots_space-insert_at (suc i) x (y ∷ xs) = omega (arith, slots_space-insert_at i x xs)

pub slots_space-remove_at :
    (i : ℕ) (xs : List Slot)
    → i < length xs
    → slots_space (remove_at i xs) + slot_space (slot_at xs i) ≡ slots_space xs
unfolding slots_space
slots_space-remove_at i [] h = absurd (omega arith)
slots_space-remove_at zero (x ∷ xs) h = omega arith
slots_space-remove_at (suc i) (x ∷ xs) h = omega (arith, slots_space-remove_at i xs (omega arith))

-- No two slots have the same key.
pub full_key_unique :
    (n : Node) (i j : ℕ)
    → IsSearchable n
    → i < count n
    → j < count n
    → full_key n i ≡ full_key n j
    → i ≡ j
full_key_unique n i j s a b e = elim (Bool-cases (ltb i j)) [
  | inl less ↦ absurd (
      Before-irrefl (full_key n j) (
        subst (λ k. Before k (full_key n j)) e
          (Before-prefix (prefix n) _ _ (s.sorted.order i j (ltb→lt _ _ less) b))))
  | inr rest ↦ elim (Bool-cases (ltb j i)) [
    | inl more ↦ absurd (
        Before-irrefl (full_key n j) (
          subst (λ k. Before (full_key n j) k) e
            (Before-prefix (prefix n) _ _ (s.sorted.order j i (ltb→lt _ _ more) a))))
    | inr same ↦ ground arith
  ]
]

-- A key that is not found is not held.
pub missed :
    (skey : List ℕ) (n : Node) (r : ℕ)
    → Locates skey n (false, r)
    → (payload : List ℕ) → Holds skey payload n
    → ⊥
missed skey n r l payload h = elim (Bool-cases (ltb h.index r)) [
  | inl less ↦
      Before-irrefl skey (subst (λ k. Before k skey) h.key (l.below h.index (ltb→lt _ _ less)))
  | inr rest ↦
      Before-irrefl skey (subst (Before skey) h.key (l.miss refl h.index (ground arith) h.inside))
]
