-- ===== src/BTree/Update.antt =====
-- btree.hpp, BTreeNode: what inserts a key and its payload in a node, and what takes them out.
use cloud_project.Prelude.{
  ◌&&◌, ◌||◌, ℕ, zero, suc, ◌+◌, ◌-◌, ◌*◌, ◌%◌, ◌^◌, Bool, true, false, List, [], ◌∷◌, ◌++◌, leb,
  ◌==◌, if◌then◌else◌, length, drop, replicate, Run, done, aborted, out_of_rounds, u16,
}
use cloud_project.Prelude.Steps.{◌>>=◌, ◌>>◌, check}
use cloud_project.BTree.Keys.{head}
use cloud_project.BTree.Compare.{Slot}
use cloud_project.BTree.Node.{
  Node, count, prefix, slot_at, page_size, header_size, slot_size, hint_count, make_hint,
  update_hint, lower_bound,
}

-- `a - b` on `u16`, and on `unsigned`.
abbrev pub sub_u16 : ℕ → ℕ → ℕ
sub_u16 a b = (a + 2 ^ 16 - b) % 2 ^ 16

abbrev pub sub_u32 : ℕ → ℕ → ℕ
sub_u32 a b = (a + 2 ^ 32 - b) % 2 ^ 32

-- Where the slots end.
abbrev pub slots_end : Node → ℕ
slots_end n = header_size + slot_size * count n

unfoldable pub free_space : Node → ℕ
free_space n = sub_u32 n.data_offset (slots_end n)

unfoldable pub free_space_after_compaction : Node → ℕ
free_space_after_compaction n = sub_u32 (sub_u32 page_size (slots_end n)) n.space_used

unfoldable pub space_needed : (key_len payload_len : ℕ) → Node → ℕ
space_needed key_len payload_len n = slot_size + sub_u32 key_len n.prefix_len + payload_len

unfoldable pub has_space_for : (key_len payload_len : ℕ) → Node → Bool
has_space_for key_len payload_len n =
    leb (space_needed key_len payload_len n) (free_space_after_compaction n)

-- The slots with a gap at `i` that `x` fills, and without the slot at `i`.
abbrev pub insert_at : ℕ → Slot → List Slot → List Slot
insert_at zero x xs = x ∷ xs
insert_at (suc i) x [] = x ∷ []
insert_at (suc i) x (y ∷ xs) = y ∷ insert_at i x xs

abbrev pub remove_at : ℕ → List Slot → List Slot
remove_at i [] = []
remove_at zero (x ∷ xs) = xs
remove_at (suc i) (x ∷ xs) = x ∷ remove_at i xs

-- The slot of a key and its payload, and the heap's space taken by it.
unfoldable pub make_slot : (key payload : List ℕ) → Slot
make_slot key payload = record { head = head key; key = key; payload = payload }

abbrev pub take_space : ℕ → Node → Node
take_space space n = record n {
  data_offset = sub_u16 n.data_offset space;
  space_used = u16 (n.space_used + space);
}

-- The key and its payload in the gap at `slot_id`, which `insertInPage` counts.
unfoldable pub with_key_value : (slot_id : ℕ) (skey payload : List ℕ) → Node → Node
with_key_value slot_id skey payload n =
    let key = drop n.prefix_len skey in
    record (take_space (length key + length payload) n) {
      slots = insert_at slot_id (make_slot key payload) n.slots;
    }

-- `storeKeyValue`: the heap must not reach the slot.
unfoldable pub store_key_value : (slot_id : ℕ) (skey payload : List ℕ) → Node → Run Node
store_key_value slot_id skey payload n = do
  let n' = with_key_value slot_id skey payload n
  check (leb (header_size + slot_size * slot_id) n'.data_offset)
  done n'

-- The length of the common prefix.
unfoldable pub common_len : (lower upper : List ℕ) → ℕ
common_len [] upper = 0
common_len (x ∷ lower) [] = 0
common_len (x ∷ lower) (y ∷ upper) =
    let rest = common_len lower upper in if x == y then suc rest else 0

unfoldable pub insert_fence : (key : List ℕ) → Node → Node
insert_fence key n = take_space (length key) n

unfoldable pub set_fences : (lower upper : List ℕ) → Node → Node
set_fences lower upper n = record (insert_fence upper (insert_fence lower n)) {
  lower_fence = lower;
  upper_fence = upper;
  prefix_len = common_len lower upper;
}

-- A node that has just been made; what the memory of the hints held is not read before they are
-- made.
abbrev pub fresh_node : (is_leaf : Bool) (neighbour : ℕ) → Node
fresh_node is_leaf neighbour = record {
  is_leaf = is_leaf;
  neighbour = neighbour;
  lower_fence = [];
  upper_fence = [];
  prefix_len = 0;
  slots = [];
  hint = replicate hint_count 0;
  space_used = 0;
  data_offset = page_size;
}

-- One slot is appended to `dst`: its key without the bytes by which the prefix grows, or, when it
-- does not, the whole key stored again.
unfoldable pub copy_slot : (src : Node) → Slot → (dst : Node) → Node
copy_slot src slot dst =
    let key = drop (dst.prefix_len - src.prefix_len) slot.key in
    if leb src.prefix_len dst.prefix_len
    then record (take_space (length key + length slot.payload) dst) {
      slots = dst.slots ++ (make_slot key slot.payload ∷ []);
    }
    else with_key_value (count dst) (prefix src ++ slot.key) slot.payload dst

unfoldable pub copy_key_value_range : (src : Node) → List Slot → (dst : Node) → Node
copy_key_value_range src [] dst = dst
copy_key_value_range src (slot ∷ slots) dst =
    copy_key_value_range src slots (copy_slot src slot dst)

-- `setFences` with the assertions of `insertFence`.
unfoldable pub fenced_node : (lower upper : List ℕ) → Node → Run Node
fenced_node lower upper n = do
  check (leb (length lower) (free_space n))
  check (leb (length upper) (free_space (insert_fence lower n)))
  done (set_fences lower upper n)

-- The assertions of `storeKeyValue` in the copies, where the prefix does not grow.
unfoldable pub stores_fit : (src : Node) → List Slot → (dst : Node) → Bool
stores_fit src [] dst = true
stores_fit src (slot ∷ slots) dst =
    let dst' = copy_slot src slot dst in
    let rest = stores_fit src slots dst' in
    (leb src.prefix_len dst.prefix_len
      || leb (header_size + slot_size * count dst) dst'.data_offset)
    && rest

-- `copyKeyValueRange` with its assertion and those of `storeKeyValue`.
unfoldable pub copied : (src : Node) → List Slot → (dst : Node) → Run Node
copied src slots dst = do
  let dst' = copy_key_value_range src slots dst
  check (stores_fit src slots dst)
  check (leb (slots_end dst') dst'.data_offset)
  done dst'

unfoldable pub compactify : Node → Run Node
compactify n = do
  tmp ← fenced_node n.lower_fence n.upper_fence (fresh_node n.is_leaf n.neighbour)
  dst ← copied n n.slots tmp
  let packed = make_hint dst
  check (free_space packed == free_space_after_compaction n)
  done packed

-- The place, the slot and the hints, when there is room.
unfoldable pub insert_slot : (skey payload : List ℕ) → Node → Run Node
insert_slot skey payload n = do
  answer ← lower_bound skey n
  stored ← store_key_value answer.1 skey payload n
  done (update_hint answer.1 stored)

unfoldable pub insert_in_page : (skey payload : List ℕ) → Node → Run Node
insert_in_page skey payload n =
    let needed = space_needed (length skey) (length payload) n in
    if leb needed (free_space n)
    then insert_slot skey payload n
    else if leb needed (free_space_after_compaction n)
    then packed (compactify n)
    else aborted
  where
    packed : Run Node → Run Node
    packed (done n') = insert_slot skey payload n'
    packed aborted = aborted
    packed out_of_rounds = out_of_rounds

unfoldable pub remove_slot : (slot_id : ℕ) → Node → Node
remove_slot slot_id n =
    let slot = slot_at n.slots slot_id in
    make_hint (record n {
      space_used = sub_u16 (sub_u16 n.space_used (length slot.key)) (length slot.payload);
      slots = remove_at slot_id n.slots;
    })

unfoldable pub remove_in_page : (skey : List ℕ) → Node → Run (Bool × Node)
remove_in_page skey n = at_place (lower_bound skey n)
  where
    at_place : Run (Bool × ℕ) → Run (Bool × Node)
    at_place (done answer) = done (if answer.0 then (true, remove_slot answer.1 n) else (false, n))
    at_place aborted = aborted
    at_place out_of_rounds = out_of_rounds
