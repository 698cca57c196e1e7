-- ===== src/BTree/Merge.antt =====
-- btree.hpp, mergeNodes: the right neighbour's slots come into the node.
use cloud_project.Prelude.{ℕ, ◌+◌, ◌*◌, Bool, true, false, not, leb, if◌then◌else◌, Run, done, u32}
use cloud_project.Prelude.Steps.{◌>>=◌, ◌>>◌, check}
use cloud_project.BTree.Node.{Node, count, page_size, header_size, slot_size, make_hint}
use cloud_project.BTree.Update.{fenced_node, copied, sub_u32, fresh_node, remove_slot}
use cloud_project.BTree.Split.{no_neighbour, set_child}

-- By how much the keys of a node grow when its prefix shrinks to `prefix_len`.
unfoldable pub grow : (prefix_len : ℕ) → Node → ℕ
grow prefix_len n = u32 (sub_u32 n.prefix_len prefix_len * count n)

unfoldable pub space_upper_bound : (prefix_len : ℕ) (n right : Node) → ℕ
space_upper_bound prefix_len n right = u32 (
    n.space_used
    + right.space_used
    + (header_size + slot_size * (count n + count right))
    + grow prefix_len n
    + grow prefix_len right)

-- The node's entry in the parent goes, and that of the right node leads to the node.
unfoldable pub unlink : (pid slot_id : ℕ) → Node → Node
unlink pid slot_id parent = remove_slot slot_id (set_child (slot_id + 1) pid parent)

-- The merged node, made in `tmp`.
unfoldable pub merge_into : (tmp n right : Node) → Run Node
merge_into tmp n right = do
  l ← copied n n.slots tmp
  r ← copied right right.slots l
  done (make_hint (record r { neighbour = right.neighbour }))

unfoldable pub merge_choice :
    (pid slot_id : ℕ) (parent n right tmp : Node) → Run (Bool × Node × Node)
merge_choice pid slot_id parent n right tmp =
    if leb (space_upper_bound tmp.prefix_len n right) page_size
    then (do m ← merge_into tmp n right; done (true, m, unlink pid slot_id parent))
    else done (false, n, parent)

unfoldable pub merge_leaves : (pid slot_id : ℕ) (parent n right : Node) → Run (Bool × Node × Node)
merge_leaves pid slot_id parent n right = do
  check right.is_leaf
  check (not parent.is_leaf)
  tmp ← fenced_node n.lower_fence right.upper_fence (fresh_node n.is_leaf no_neighbour)
  merge_choice pid slot_id parent n right tmp

-- Whether it merged, the node and the parent. Inner nodes are never merged; for them the answer is
-- true.
unfoldable pub merge_nodes : (pid slot_id : ℕ) (parent n right : Node) → Run (Bool × Node × Node)
merge_nodes pid slot_id parent n right =
    if not n.is_leaf then done (true, n, parent) else merge_leaves pid slot_id parent n right
