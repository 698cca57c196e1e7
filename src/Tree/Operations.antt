-- ===== src/Tree/Operations.antt =====
-- btree.hpp and btree.cpp, BTree: lookup, updateInPlace, insert with its splits, and remove.
use cloud_project.Prelude.{
  ℕ, zero, suc, ◌+◌, ◌-◌, Bool, true, false, not, ◌&&◌, Option, none, some, List, ◌==◌, leb, ltb,
  if◌then◌else◌, length, take, set, Run, done, aborted, out_of_rounds,
}
use cloud_project.Prelude.Steps.{◌>>=◌, ◌>>◌, check}
use cloud_project.BTree.Compare.{least}
use cloud_project.BTree.Node.{Node, count, slot_at, page_size, lower_bound}
use cloud_project.BTree.Update.{
  fresh_node, has_space_for, free_space_after_compaction, insert_in_page, remove_slot,
}
use cloud_project.BTree.Insert.{max_kv_size}
use cloud_project.BTree.Separator.{SeparatorInfo, find_separator, get_sep}
use cloud_project.BTree.Split.{get_child, split_node}
use cloud_project.BTree.Merge.{merge_nodes}
use cloud_project.Tree.Pages.{
  Tree, Trail, page_at, write, next_pid, alloc, start, find_leaf, descend_to,
}

-- What a leaf has for a key.
unfoldable pub find_in : (key : List ℕ) → Node → Run (Option (List ℕ))
find_in key n = do
  a ← lower_bound key n
  done (if a.0 then some (slot_at n.slots a.1).payload else none)

-- `lookup(key, fn)`: what `fn` is called with.
unfoldable pub lookup : (rounds : ℕ) (key : List ℕ) → Tree → Run (Option (List ℕ))
lookup rounds key t = do p ← find_leaf rounds key t; find_in key (page_at p.pid t)

-- `lookup(key, payloadOut, payloadOutSize)`: the payload's length and the bytes that are copied;
-- `none` for -1.
unfoldable pub lookup_copy :
    (rounds : ℕ) (key : List ℕ) (out_size : ℕ) → Tree → Run (Option (ℕ × List ℕ))
lookup_copy rounds key out_size t = do
  found ← lookup rounds key t
  done (elim found [
    | none ↦ none
    | some payload ↦ some (length payload, take (least (length payload) out_size) payload)
  ])

-- `updateInPlace`: `fn` changes the payload's bytes and not their number.
unfoldable pub update_in_place :
    (rounds : ℕ) (key : List ℕ) (fn : List ℕ → List ℕ) → Tree → Run (Bool × Tree)
update_in_place rounds key fn t = do
  p ← find_leaf rounds key t
  a ← lower_bound key (page_at p.pid t)
  let n = page_at p.pid t
  let s = slot_at n.slots a.1
  done (
      if a.0
      then (
        true,
        write p.pid (record n { slots = set n.slots a.1 (record s { payload = fn s.payload }) }) t,
      )
      else (false, t))

-- The parent to split under: the metadata gets a new root, an inner node that leads to the node.
unfoldable pub with_parent : Trail → Tree → ℕ × Tree
with_parent p t = elim p.parent [
  | some parent ↦ (parent, t)
  | none ↦ (next_pid t, record (alloc (fresh_node false p.pid) t) { root = next_pid t })
]

unfoldable pub split_at : (parent pid : ℕ) (info : SeparatorInfo) (sep : List ℕ) → Tree → Run Tree
split_at parent pid info sep t = do
  r ← split_node pid (next_pid t) info.slot sep (page_at parent t) (page_at pid t)
  done (write parent r.2 (write pid r.0 (alloc r.1 t)))

-- `ensureSpace`, with the call of `trySplit` that it makes.
unfoldable pub ensure_space :
    (rounds to_split : ℕ) (key : List ℕ) (payload_len : ℕ) (split : Trail → Tree → Run Tree)
    → Tree
    → Run Tree
ensure_space rounds to_split key payload_len split t = do
  p ← descend_to rounds to_split key t (start t)
  (if not (p.pid == to_split)
      then done t
      else if has_space_for (length key) payload_len (page_at p.pid t)
      then done t
      else split p t)

-- `trySplit`: one level of the recursion for each round.
unfoldable pub try_split : (rounds : ℕ) → Trail → Tree → Run Tree
try_split zero p t = out_of_rounds
try_split (suc rounds) p t =
    let r = with_parent p t in
    let n = page_at p.pid r.1 in
    let info = find_separator t.split_ordered n in
    let sep = get_sep info n in
    elim (has_space_for info.len 8 (page_at r.0 r.1)) [
      | true ↦ split_at r.0 p.pid info sep r.1
      | false ↦ ensure_space (suc rounds) r.0 sep 8 (try_split rounds) r.1
    ]

-- A round of `insert`: the tree, and whether the insert has happened.
unfoldable pub insert_attempt : (rounds : ℕ) (key payload : List ℕ) → Tree → Run (Bool × Tree)
insert_attempt rounds key payload t = do
  p ← find_leaf rounds key t
  (if has_space_for (length key) (length payload) (page_at p.pid t)
      then (do n ← insert_in_page key payload (page_at p.pid t); done (true, write p.pid n t))
      else (do t' ← try_split rounds p t; done (false, t')))

unfoldable pub insert_attempts : (splits rounds : ℕ) (key payload : List ℕ) → Tree → Run Tree
insert_attempts zero rounds key payload t = out_of_rounds
insert_attempts (suc splits) rounds key payload t = insert_attempt rounds key payload t >>= λ r.
    elim r.0 [ true ↦ done r.1 | false ↦ insert_attempts splits rounds key payload r.1 ]

unfoldable pub insert : (splits rounds : ℕ) (key payload : List ℕ) → Tree → Run Tree
insert splits rounds key payload t =
    check (leb (length key + length payload) max_kv_size)
    >> insert_attempts splits rounds key payload t

-- `BTreeNodeHeader::underFullSize`
abbrev pub under_full_size : ℕ
under_full_size = 3072

-- Whether `remove` tries to merge the leaf with the next one of its parent.
unfoldable pub is_under_full : (slot_id : ℕ) → Trail → (parent : Option ℕ) → Tree → Bool
is_under_full slot_id p none t = false
is_under_full slot_id p (some parent) t =
    let n = page_at p.pid t in
    let s = slot_at n.slots slot_id in
    leb under_full_size (free_space_after_compaction n + (length s.key + length s.payload))
    && leb 2 (count (page_at parent t))
    && ltb (p.place + 1) (count (page_at parent t))

unfoldable pub remove_merging : (slot_id : ℕ) → Trail → (parent : Option ℕ) → Tree → Run Tree
remove_merging slot_id p none t = aborted
remove_merging slot_id p (some parent) t =
    let right = page_at (get_child (p.place + 1) (page_at parent t)) t in
    let n = remove_slot slot_id (page_at p.pid t) in
    if leb (page_size - under_full_size) (free_space_after_compaction right)
    then (do
      r ← merge_nodes p.pid p.place (page_at parent t) n right
      done (write parent r.2 (write p.pid r.1 t)))
    else done (write p.pid n t)

unfoldable pub remove : (rounds : ℕ) (key : List ℕ) → Tree → Run (Bool × Tree)
remove rounds key t = do
  p ← find_leaf rounds key t
  a ← lower_bound key (page_at p.pid t)
  (if not a.0
      then done (false, t)
      else if is_under_full a.1 p p.parent t
      then (do t' ← remove_merging a.1 p p.parent t; done (true, t'))
      else done (true, write p.pid (remove_slot a.1 (page_at p.pid t)) t))
