-- ===== src/BTree/Merging.antt =====
-- btree.hpp, mergeNodes: the bound on the space, and the merged leaf.
use native.Mathlib.Nat.{mul-le-mul}
use cloud_project.Prelude.{
  ℕ, zero, suc, ◌+◌, ◌-◌, ◌*◌, ◌≤◌, ◌≡◌, ap, ◌∙◌, arith, true, List, [], ◌∷◌, ◌++◌, length, drop,
  leb, leb→le, length-append,
}
use cloud_project.BTree.Compare.{Slot}
use cloud_project.BTree.Node.{Node, count, prefix, page_size}
use cloud_project.BTree.Update.{common_len, make_slot, sub_u32}
use cloud_project.BTree.LowerBound.{length-take}
use cloud_project.BTree.Valid.{IsValid, slots_space}
use cloud_project.BTree.Entries.{entries, slots_of}
use cloud_project.BTree.Parts.{length-entries}
use cloud_project.BTree.Filled.{Fits, slots_of-append, slots_space-append}
use cloud_project.BTree.Merge.{grow, space_upper_bound}
use cloud_project.BTree.Joined.{length-append_entries}

length-drop_bytes : (k : ℕ) (xs : List ℕ) → length (drop k xs) ≡ length xs - k
length-drop_bytes zero xs = omega arith
length-drop_bytes (suc k) [] = omega arith
length-drop_bytes (suc k) (x ∷ xs) = omega (arith, length-drop_bytes k xs)

-- Every key grows by as many bytes as the prefix loses.
grown_space :
    (q : ℕ) (n : Node) (xs : List Slot)
    → length (prefix n) ≡ n.prefix_len
    → q ≤ n.prefix_len
    → slots_space (slots_of q (entries n xs)) ≡ slots_space xs + (n.prefix_len - q) * length xs
unfolding slots_space make_slot
grown_space q n [] whole le = grind arith
grown_space q n (s ∷ xs) whole le =
    let size = length-drop_bytes q (prefix n ++ s.key) in
    let both = length-append (prefix n) s.key in
    let rest = grown_space q n xs whole le in
    let more : (n.prefix_len - q) * suc (length xs)
        ≡ (n.prefix_len - q) * length xs + (n.prefix_len - q) =
      grind arith in
    omega (arith, size, both, rest, more)

grow_lem :
    (q : ℕ) (n : Node)
    → q ≤ n.prefix_len
    → n.prefix_len ≤ 4096
    → count n ≤ 4096
    → (grow q n ≡ (n.prefix_len - q) * count n) × (grow q n ≤ 16777216)
unfolding grow
grow_lem q n le p c =
    let exact : sub_u32 n.prefix_len q ≡ n.prefix_len - q = omega arith in
    let small : (n.prefix_len - q) * count n ≤ 4096 * 4096 =
      let a : n.prefix_len - q ≤ 4096 = omega arith in mul-le-mul a c in
    rw exact (omega arith)

-- What the code checks is enough for the merged node.
pub bound-Fits :
    (n right : Node)
    → IsValid n
    → IsValid right
    → common_len n.lower_fence right.upper_fence ≤ n.prefix_len
    → common_len n.lower_fence right.upper_fence ≤ right.prefix_len
    → leb (space_upper_bound (common_len n.lower_fence right.upper_fence) n right) page_size ≡ true
    → Fits n.lower_fence right.upper_fence (entries n n.slots ++ entries right right.slots)
unfolding space_upper_bound
bound-Fits n right v w le_n le_r bound =
    let q = common_len n.lower_fence right.upper_fence in
    let whole_n = length-take n.prefix_len n.lower_fence v.searchable.prefixed in
    let whole_r = length-take right.prefix_len right.lower_fence w.searchable.prefixed in
    let gn =
      grow_lem q n le_n (omega (arith, v.searchable.prefixed, v.used, v.room))
        (omega (arith, v.apart, v.room)) in
    let gr =
      grow_lem q right le_r (omega (arith, w.searchable.prefixed, w.used, w.room))
        (omega (arith, w.apart, w.room)) in
    let sn = grown_space q n n.slots whole_n le_n in
    let sr = grown_space q right right.slots whole_r le_r in
    let es = entries n n.slots in
    let fs = entries right right.slots in
    let space : slots_space (slots_of q (es ++ fs))
        ≡ slots_space (slots_of q es) + slots_space (slots_of q fs) =
      ap slots_space (slots_of-append q es fs)
      ∙ slots_space-append (slots_of q es) (slots_of q fs) in
    omega (
      arith,
      leb→le _ _ bound,
      gn,
      gr,
      sn,
      sr,
      space,
      length-append_entries es fs,
      length-entries n n.slots,
      length-entries right right.slots,
      v.used,
      v.room,
      v.apart,
      w.used,
      w.room,
      w.apart,
    )
