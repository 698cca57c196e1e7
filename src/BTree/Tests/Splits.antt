-- ===== src/BTree/Tests/Splits.antt =====
-- Splits and merges of small leaves.
use cloud_project.Prelude.{
  ℕ, zero, suc, ◌<◌, ◌≡◌, inl, inr, refl, ap, arith, List, [], ◌∷◌, length, true, false, Bool, done,
}
use cloud_project.BTree.Keys.{Before}
use cloud_project.BTree.Node.{Node, slot_at}
use cloud_project.BTree.Update.{
  common_len, has_space_for, space_needed, free_space_after_compaction, make_slot,
}
use cloud_project.BTree.LowerBound.{full_key}
use cloud_project.BTree.Valid.{IsValid, slots_space}
use cloud_project.BTree.Separator.{Separates}
use cloud_project.BTree.Fences.{IsWithin, AreWithin}
use cloud_project.BTree.Split.{split_node, pid_bytes, le_bytes}
use cloud_project.BTree.SplitNode.{Splits, split_node-Splits}
use cloud_project.BTree.Merge.{merge_nodes}
use cloud_project.BTree.MergeLeaf.{AreNeighbours}
use cloud_project.BTree.MergeNodes.{Outcome, merge_nodes-Outcome}
use cloud_project.BTree.Tests.Small.{small_node, small_node-IsValid}

-- The keys 1, 2, 3 without fences, and their parent, which leads to them only.
abbrev three : Node
three = small_node true 99 [] [] 6 ((1, 9 ∷ []) ∷ (2, 8 ∷ []) ∷ (3, 7 ∷ []) ∷ [])

abbrev top : Node
top = small_node false 5 [] [] 0 []

three-IsValid : IsValid three
unfolding common_len slots_space
three-IsValid =
    small_node-IsValid true 99 [] [] 6 ((1, 9 ∷ []) ∷ (2, 8 ∷ []) ∷ (3, 7 ∷ []) ∷ []) (omega arith)
      refl (omega arith) refl (omega arith)

top-IsValid : IsValid top
unfolding common_len slots_space
top-IsValid = small_node-IsValid false 5 [] [] 0 [] tt refl (omega arith) refl (omega arith)

unfenced-AreWithin : AreWithin three
unfenced-AreWithin = record {
  bytes = tt;
  each = λ k payload h. record { above = inl refl; below = inl refl };
}

three-Separates : Separates three (2 ∷ []) 1
three-Separates = record { inside = omega arith; upper = inr refl; lower = go }
  where
    go : (i : ℕ) → 1 < i → i < 3 → Before (2 ∷ []) (full_key three i)
    go zero h inside = absurd (omega arith)
    go (suc zero) h inside = absurd (omega arith)
    go (suc (suc zero)) h inside = inl (omega arith)
    go (suc (suc (suc i))) h inside = absurd (omega arith)

split_node-Splits_example :
    (left : Node) × (right : Node) × (parent' : Node) × (split_node 5 6 1 (2 ∷ []) top three
      ≡ done (left, right, parent'))
    × Splits 5 6 0 (2 ∷ []) top three left right parent'
unfolding common_len slots_space has_space_for space_needed free_space_after_compaction make_slot
split_node-Splits_example =
    split_node-Splits 5 6 1 0 (2 ∷ []) top three three-IsValid unfenced-AreWithin refl
      three-Separates (omega arith) (omega arith, tt) (omega arith) (omega arith) top-IsValid
      (record { inner = refl; links = λ i h. absurd (omega arith) })
      (record { above = inl refl; below = inl refl })
      (record {
        inside = omega arith;
        below = λ i h. absurd (omega arith);
        hit = λ h. ground arith;
        miss = λ h i le inside. absurd (omega arith);
      })
      refl (omega arith) (omega arith) refl

-- The keys 1 and 2 up to the fence 2, the keys 3 and 4 behind it, and a parent of three pages.
abbrev ones : Node
ones = small_node true 6 [] (2 ∷ []) 5 ((1, 9 ∷ []) ∷ (2, 8 ∷ []) ∷ [])

abbrev others : Node
others = small_node true 99 (2 ∷ []) (4 ∷ []) 6 ((3, 7 ∷ []) ∷ (4, 6 ∷ []) ∷ [])

abbrev root : Node
root = small_node false 8 [] [] 18 ((2, pid_bytes 5) ∷ (4, pid_bytes 6) ∷ [])

ones-AreNeighbours : AreNeighbours ones others
unfolding common_len slots_space
ones-AreNeighbours = record {
  valid = (
    small_node-IsValid true 6 [] (2 ∷ []) 5 ((1, 9 ∷ []) ∷ (2, 8 ∷ []) ∷ []) (omega arith) refl
        (omega arith) refl (omega arith),
    small_node-IsValid true 99 (2 ∷ []) (4 ∷ []) 6 ((3, 7 ∷ []) ∷ (4, 6 ∷ []) ∷ []) (omega arith)
        refl (omega arith) refl (omega arith),
  );
  within = (
    record { bytes = tt; each = λ k payload h. ones_within k h.index h.inside h.key },
    record {
      bytes = (omega arith, tt);
      each = λ k payload h. others_within k h.index h.inside h.key;
    },
  );
  shared = refl;
  some_fence = λ e. absurd (omega (arith, ap (λ x. length x) e));
  between = record { above = inl refl; below = inr (inl (inl (omega arith))) };
}
  where
    ones_within : (k : List ℕ) (i : ℕ) → i < 2 → full_key ones i ≡ k → IsWithin [] (2 ∷ []) k
    ones_within k zero h e =
        rw (← e) (record { above = inl refl; below = inr (inl (inl (omega arith))) })
    ones_within k (suc zero) h e = rw (← e) (record { above = inl refl; below = inr (inr refl) })
    ones_within k (suc (suc i)) h e = absurd (omega arith)

    others_within :
        (k : List ℕ) (i : ℕ) → i < 2 → full_key others i ≡ k → IsWithin (2 ∷ []) (4 ∷ []) k
    others_within k zero h e =
        rw (← e) (record { above = inr (inl (omega arith)); below = inr (inl (inl (omega arith))) })
    others_within k (suc zero) h e =
        rw (← e) (record { above = inr (inl (omega arith)); below = inr (inr refl) })
    others_within k (suc (suc i)) h e = absurd (omega arith)

merge_nodes-Outcome_example :
    (answer : Bool × Node × Node) × (merge_nodes 5 0 root ones others ≡ done answer)
    × Outcome 5 0 root ones others answer
unfolding common_len slots_space le_bytes
merge_nodes-Outcome_example =
    merge_nodes-Outcome 5 0 root ones others ones-AreNeighbours refl refl
      (small_node-IsValid false 8 [] [] 18 ((2, pid_bytes 5) ∷ (4, pid_bytes 6) ∷ []) (omega arith)
        refl (omega arith) refl (omega arith))
      (record { inner = refl; links = links }) (omega arith) (omega arith) (omega arith)
  where
    links : (i : ℕ) → i < 2 → length (slot_at root.slots i).payload ≡ 8
    links zero h = refl
    links (suc zero) h = refl
    links (suc (suc i)) h = absurd (omega arith)
