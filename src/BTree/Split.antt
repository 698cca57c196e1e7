-- ===== src/BTree/Split.antt =====
-- btree.hpp, splitNode, and the children of an inner node. A page id is the number, and 8 bytes of
-- payload in the parent.
use cloud_project.Prelude.{
  ℕ, zero, suc, ◌+◌, ◌*◌, ◌/◌, ◌%◌, List, [], ◌∷◌, ◌++◌, ltb, ◌==◌, if◌then◌else◌, take, drop, set,
  Run, done, max_u64, u16,
}
use cloud_project.Prelude.Steps.{◌>>=◌, ◌>>◌, check}
use cloud_project.BTree.Node.{Node, count, slot_at, page_size, make_hint, lower_bound}
use cloud_project.BTree.Update.{fenced_node, copied, fresh_node, insert_in_page}

-- `BTreeNodeHeader::noNeighbour`
abbrev pub no_neighbour : ℕ
no_neighbour = max_u64

-- The bytes of a number, the lowest one first, and the number that bytes make.
unfoldable pub le_bytes : (rounds n : ℕ) → List ℕ
le_bytes zero n = []
le_bytes (suc rounds) n = n % 256 ∷ le_bytes rounds (n / 256)

unfoldable pub le_number : List ℕ → ℕ
le_number [] = 0
le_number (b ∷ bs) = b + 256 * le_number bs

abbrev pub pid_bytes : ℕ → List ℕ
pid_bytes pid = le_bytes 8 pid

-- `getChild`: the first 8 bytes of the payload.
unfoldable pub get_child : (slot_id : ℕ) → Node → ℕ
get_child slot_id n = le_number (take 8 (slot_at n.slots slot_id).payload)

-- `memcpy(getPayload(slotId).data(), &pid, sizeof(PID))`
unfoldable pub set_child : (slot_id pid : ℕ) → Node → Node
set_child slot_id pid n =
    let s = slot_at n.slots slot_id in
    record n {
      slots = set n.slots slot_id (record s { payload = pid_bytes pid ++ drop 8 s.payload });
    }

-- The child for a key.
unfoldable pub lookup_inner : (key : List ℕ) → Node → Run ℕ
lookup_inner key n = do
  a ← lower_bound key n
  done (if a.1 == count n then n.neighbour else get_child a.1 n)

-- The parent's pointer to the node becomes one to the new node, and the separator leads to the node.
unfoldable pub redirect : (left_pid new_pid slot_id : ℕ) → Node → Run Node
redirect left_pid new_pid slot_id parent =
    if slot_id == count parent
    then check (parent.neighbour == left_pid) >> done (record parent { neighbour = new_pid })
    else check (get_child slot_id parent == left_pid) >> done (set_child slot_id new_pid parent)

unfoldable pub relink : (left_pid new_pid : ℕ) (sep : List ℕ) → Node → Run Node
relink left_pid new_pid sep parent = do
  a ← lower_bound sep parent
  p ← redirect left_pid new_pid (u16 a.1) parent
  insert_in_page sep (pid_bytes left_pid) p

-- The two halves, from nodes that have their fences.
unfoldable pub split_leaf : (new_pid sep_slot : ℕ) (n left right : Node) → Run (Node × Node)
split_leaf new_pid sep_slot n left right = do
  l ← copied n (take (sep_slot + 1) n.slots) left
  r ← copied n (drop (count l) n.slots) right
  done (
    make_hint (record l { neighbour = new_pid }),
    make_hint (record r { neighbour = n.neighbour }),
  )

-- The separator's slot moves to the parent, and its child is the left half's last one.
unfoldable pub split_inner : (sep_slot : ℕ) (n left right : Node) → Run (Node × Node)
split_inner sep_slot n left right = do
  l ← copied n (take sep_slot n.slots) left
  r ← copied n (drop (count l + 1) n.slots) right
  done (
    make_hint (record l { neighbour = get_child (count l) n }),
    make_hint (record r { neighbour = n.neighbour }),
  )

unfoldable pub split_halves : (new_pid sep_slot : ℕ) (n left right : Node) → Run (Node × Node)
split_halves new_pid sep_slot n left right =
    if n.is_leaf
    then split_leaf new_pid sep_slot n left right
    else split_inner sep_slot n left right

-- The node that stays, the new one, and the parent.
unfoldable pub split_node :
    (left_pid new_pid sep_slot : ℕ) (sep : List ℕ) (parent n : Node) → Run (Node × Node × Node)
split_node left_pid new_pid sep_slot sep parent n = do
  check (ltb 0 sep_slot)
  check (ltb sep_slot (page_size / 8))
  left ← fenced_node n.lower_fence sep (fresh_node n.is_leaf no_neighbour)
  right ← fenced_node sep n.upper_fence (fresh_node n.is_leaf no_neighbour)
  p ← relink left_pid new_pid sep parent
  halves ← split_halves new_pid sep_slot n left right
  done (halves.0, halves.1, p)
