-- ===== src/BTree/Node.antt =====
-- btree.hpp, BTreeNode: the search in a node, its hints, and what inserts and removes a slot. A
-- slot holds the bytes of its key and payload, which the code keeps at an offset in the heap; where
-- the heap begins and how much of it is used are counted as in the code.
use cloud_project.Prelude.{
  ℕ, zero, suc, ◌+◌, ◌-◌, ◌*◌, ◌/◌, Bool, true, false, ◌&&◌, not, List, [], ltb, ◌==◌,
  if◌then◌else◌, length, get_or, set, take, drop, Run, done, out_of_rounds, u16,
}
use cloud_project.Prelude.Int.{pos, ltb_ℤ}
use cloud_project.BTree.Keys.{head, cust_memcmp}
use cloud_project.BTree.Compare.{Slot, Way, left, right, found, least, way}

abbrev pub page_size : ℕ
page_size = 4096

abbrev pub hint_count : ℕ
hint_count = 16

-- `sizeof(BTreeNodeHeader)` and `sizeof(Slot)`, which is packed.
abbrev pub header_size : ℕ
header_size = 112

abbrev pub slot_size : ℕ
slot_size = 10

pub record Node : Type 0 where
  pub is_leaf : Bool
  pub neighbour : ℕ
  pub lower_fence : List ℕ
  pub upper_fence : List ℕ
  pub prefix_len : ℕ
  pub slots : List Slot
  pub hint : List ℕ
  pub space_used : ℕ
  pub data_offset : ℕ

abbrev pub count : Node → ℕ
count n = length n.slots

-- What stands behind the last slot is not read.
abbrev pub no_slot : Slot
no_slot = record { head = 0; key = []; payload = [] }

abbrev pub slot_at : List Slot → ℕ → Slot
slot_at slots i = get_or slots i no_slot

-- `getPrefix`: the prefix stands in front of every key, also of the lower fence.
abbrev pub prefix : Node → List ℕ
prefix n = take n.prefix_len n.lower_fence

-- The hints from `i` on, `rounds` of them, taken from the slots again.
unfoldable pub hint_loop : (rounds i dist : ℕ) → List Slot → List ℕ → List ℕ
hint_loop zero i dist slots hint = hint
hint_loop (suc rounds) i dist slots hint =
    hint_loop rounds (suc i) dist slots (set hint i (slot_at slots (dist * (i + 1))).head)

abbrev pub distance : ℕ → ℕ
distance count = count / (hint_count + 1)

unfoldable pub make_hint : Node → Node
make_hint n = record n { hint = hint_loop hint_count 0 (distance (count n)) n.slots n.hint }

-- The first hint that an insert at `slot_id` can have changed.
unfoldable pub first_hint : (count slot_id : ℕ) → ℕ
first_hint count slot_id =
    if ltb (hint_count * 2 + 1) count
      && (distance (count - 1) == distance count)
      && ltb 1 (slot_id / distance count)
    then slot_id / distance count - 1
    else 0

unfoldable pub update_hint : (slot_id : ℕ) → Node → Node
update_hint slot_id n =
    let begin = first_hint (count n) slot_id in
    record n { hint = hint_loop (hint_count - begin) begin (distance (count n)) n.slots n.hint }

-- The first position from `i` on, of `rounds` ones, that passes the test, or the one behind them.
unfoldable pub scan : (test : ℕ → Bool) (rounds i : ℕ) → ℕ
scan test zero i = i
scan test (suc rounds) i = let rest = scan test rounds (suc i) in if test i then i else rest

-- The first hint that is not below the key's head, and from there the first one that is another.
unfoldable pub first_not_below : (key_head : ℕ) → List ℕ → ℕ
first_not_below key_head hint = scan (λ i. not (ltb (get_or hint i 0) key_head)) hint_count 0

unfoldable pub first_other : (key_head i : ℕ) → List ℕ → ℕ
first_other key_head i hint = scan (λ j. not (get_or hint j 0 == key_head)) (hint_count - i) i

unfoldable pub search_hint : (key_head : ℕ) → Node → ℕ × ℕ
search_hint key_head n =
    let dist = distance (count n) in
    let i = first_not_below key_head n.hint in
    let j = first_other key_head i n.hint in
    if ltb (hint_count * 2) (count n)
    then (u16 (i * dist), if ltb j hint_count then u16 ((j + 1) * dist) else count n)
    else (0, count n)

abbrev pub next_lower : Way → (lower mid : ℕ) → ℕ
next_lower left lower mid = lower
next_lower right lower mid = u16 (mid + 1)
next_lower found lower mid = lower

abbrev pub next_upper : Way → (upper mid : ℕ) → ℕ
next_upper left upper mid = mid
next_upper right upper mid = upper
next_upper found upper mid = upper

abbrev pub is_found : Way → Bool
is_found left = false
is_found right = false
is_found found = true

-- The binary search between `lower` and `upper`; the answer is whether the key is there, and where.
unfoldable pub search_loop :
    (rounds key_head : ℕ) (key : List ℕ) (slots : List Slot) (lower upper : ℕ) → Run (Bool × ℕ)
search_loop zero key_head key slots lower upper =
    if ltb lower upper then out_of_rounds else done (false, lower)
search_loop (suc rounds) key_head key slots lower upper =
    let mid = (upper - lower) / 2 + lower in
    let w = way key_head key (slot_at slots mid) in
    let rest =
      search_loop rounds key_head key slots (next_lower w lower mid) (next_upper w upper mid) in
    if not (ltb lower upper)
    then done (false, lower)
    else if is_found w
    then done (true, mid)
    else rest

unfoldable pub lower_bound : (skey : List ℕ) → Node → Run (Bool × ℕ)
lower_bound skey n =
    let cmp = cust_memcmp skey (prefix n) (least (length skey) n.prefix_len) in
    let key = drop n.prefix_len skey in
    let hinted = search_hint (head key) n in
    if ltb_ℤ cmp (pos 0)
    then done (false, 0)
    else if ltb_ℤ (pos 0) cmp
    then done (false, count n)
    else if ltb (length skey) n.prefix_len
    then done (false, 0)
    else search_loop (count n) (head key) key n.slots hinted.0 hinted.1
