-- ===== src/BTree/MergeNodes.antt =====
-- btree.hpp, mergeNodes as a whole.
use cloud_project.Prelude.{
  ◌+◌, ◌^◌, ◌≤◌, ◌<◌, ◌≡◌, List, ℕ, inl, inr, refl, ap, ◌∙◌, Bool, true, false, not, length, leb,
  done, Bool-cases, if◌then◌else◌,
}
use cloud_project.BTree.Node.{Node, count, page_size}
use cloud_project.BTree.Update.{fenced_node, common_len, set_fences, fresh_node}
use cloud_project.BTree.Valid.{IsValid}
use cloud_project.BTree.Split.{no_neighbour}
use cloud_project.BTree.Filled.{target, fenced_node_lem}
use cloud_project.BTree.Redirect.{IsInner}
use cloud_project.BTree.Merge.{
  space_upper_bound, unlink, merge_into, merge_choice, merge_leaves, merge_nodes,
}
use cloud_project.BTree.MergeLeaf.{AreNeighbours, Merges, merge_into-Merges}
use cloud_project.BTree.Unlink.{Unlinks, unlink-Unlinks}

-- What `mergeNodes` answers: it merged the two leaves and took one out of the parent, or it has
-- changed nothing because there might not be space.
pub data Outcome (pid s : ℕ) (parent n right : Node) : Bool × Node × Node → Type 0 where
  merged :
      (m parent' : Node)
      → Merges n right m
      → Unlinks pid s parent parent'
      → Outcome pid s parent n right (true, m, parent')
  refused :
      leb (space_upper_bound (common_len n.lower_fence right.upper_fence) n right) page_size ≡ false
      → Outcome pid s parent n right (false, n, parent)

module _ (pid s : ℕ) (parent n right tmp : Node) (leaf : n.is_leaf ≡ true)
    (right_leaf : right.is_leaf ≡ true) (inner : parent.is_leaf ≡ false)
    (fenced : fenced_node n.lower_fence right.upper_fence (fresh_node n.is_leaf no_neighbour)
      ≡ done tmp) where
  leaves_lem : merge_nodes pid s parent n right ≡ merge_leaves pid s parent n right
  unfolding merge_nodes
  leaves_lem =
      ap (λ b. if not b then done (true, n, parent) else merge_leaves pid s parent n right) leaf

  choice_lem : merge_leaves pid s parent n right ≡ merge_choice pid s parent n right tmp
  unfolding merge_leaves
  choice_lem = rw (right_leaf, inner, fenced) refl

  merged_lem :
      (m : Node)
      → leb (space_upper_bound tmp.prefix_len n right) page_size ≡ true
      → merge_into tmp n right ≡ done m
      → merge_choice pid s parent n right tmp ≡ done (true, m, unlink pid s parent)
  unfolding merge_choice
  merged_lem m fine e = rw (fine, e) refl

  refused_lem :
      leb (space_upper_bound tmp.prefix_len n right) page_size ≡ false
      → merge_choice pid s parent n right tmp ≡ done (false, n, parent)
  unfolding merge_choice
  refused_lem tight = rw tight refl

target_prefix :
    (lower upper : List ℕ) (is_leaf : Bool) (neighbour : ℕ)
    → (target lower upper is_leaf neighbour).prefix_len ≡ common_len lower upper
unfolding set_fences
target_prefix lower upper is_leaf neighbour = refl

-- `mergeNodes` of two neighbouring leaves, whose outer fences fit in a page together, as `setFences`
-- asserts, at a slot of a well-formed inner parent that is not its last one, returns, whatever else is in them: when the bound on the
-- space allows it, the node is well-formed, holds what the two held, has the outer fences and the right
-- node's link, and the parent is well-formed, leads the keys of both to the node, and all others
-- where they led; otherwise nothing has changed. No assertion fails, those of the stores and copies
-- included.
pub merge_nodes-Outcome :
    (pid s : ℕ) (parent n right : Node)
    → AreNeighbours n right
    → n.is_leaf ≡ true
    → right.is_leaf ≡ true
    → IsValid parent
    → IsInner parent
    → pid < 2 ^ 64
    → s + 1 < count parent
    → 112 + length n.lower_fence + length right.upper_fence ≤ page_size
    → (answer : Bool × Node × Node) × (merge_nodes pid s parent n right ≡ done answer)
      × Outcome pid s parent n right answer
merge_nodes-Outcome pid s parent n right nb leaf right_leaf pv pi fits inside room =
    let tmp = target n.lower_fence right.upper_fence n.is_leaf no_neighbour in
    let fenced = fenced_node_lem n.lower_fence right.upper_fence n.is_leaf no_neighbour room in
    let start =
      leaves_lem pid s parent n right tmp leaf right_leaf pi.inner fenced
      ∙ choice_lem pid s parent n right tmp leaf right_leaf pi.inner fenced in
    let prefix_is = target_prefix n.lower_fence right.upper_fence n.is_leaf no_neighbour in
    let bound_is = ap (λ q. leb (space_upper_bound q n right) page_size) prefix_is in
    elim (Bool-cases
      (leb (space_upper_bound (common_len n.lower_fence right.upper_fence) n right) page_size)) [
        | inl fine ↦
            let (m, e, merges) = merge_into-Merges n right nb fine in
            (
              (true, m, unlink pid s parent),
              start
                  ∙ merged_lem pid s parent n right tmp leaf right_leaf pi.inner fenced m
                      (bound_is ∙ fine) e,
              merged m (unlink pid s parent) merges (unlink-Unlinks pid s parent pv pi fits inside),
            )
        | inr tight ↦ (
          (false, n, parent),
          start
              ∙ refused_lem pid s parent n right tmp leaf right_leaf pi.inner fenced
                  (bound_is ∙ tight),
          refused tight,
        )
      ]
