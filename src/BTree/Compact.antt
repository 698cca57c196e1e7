-- ===== src/BTree/Compact.antt =====
-- btree.hpp, compactify: the holes in the heap go, and nothing else changes.
use cloud_project.Prelude.{
  le→leb, Bool-cases, inl, inr, ◌+◌, ◌≤◌, ◌≡◌, refl, sym, ap, ◌∙◌, arith, List, [], ◌∷◌, ◌++◌,
  length, true, done, leb, ==_iff, replicate, ◌==◌,
}
use mathlib.Core.Path.{subst}
use cloud_project.BTree.Compare.{Slot}
use cloud_project.BTree.Node.{Node, hint_count, make_hint, page_size}
use cloud_project.BTree.Search.{AreSorted}
use cloud_project.BTree.Upkeep.{make_hint-AreHints, length-make_hint}
use cloud_project.BTree.Update.{
  slots_end, fenced_node, copied, stores_fit, with_key_value, copy_slot, copy_key_value_range,
  set_fences, insert_fence, fresh_node, compactify, free_space, free_space_after_compaction,
  common_len,
}
use cloud_project.BTree.Valid.{IsValid}
use cloud_project.BTree.Filled.{fenced_node_lem}
use cloud_project.BTree.Copies.{Copies, copy_key_value_range-Copies}

-- What `compactify` leaves: the same slots and fences, and the heap without holes.
pub record Compacts (n n' : Node) : Type 0 where
  pub valid : IsValid n'
  pub slots : n'.slots ≡ n.slots
  pub lower : n'.lower_fence ≡ n.lower_fence
  pub upper : n'.upper_fence ≡ n.upper_fence
  pub prefixes : n'.prefix_len ≡ n.prefix_len
  pub neighbours : (n'.neighbour ≡ n.neighbour) × (n'.is_leaf ≡ n.is_leaf)
  pub full : n'.data_offset + n'.space_used ≡ page_size

-- What is copied to: a node with the fences only.
record Fenced (n tmp : Node) : Type 0 where
  offset : tmp.data_offset + (length n.lower_fence + length n.upper_fence) ≡ page_size
  used : tmp.space_used ≡ length n.lower_fence + length n.upper_fence
  shape : tmp ≡ record n {
    prefix_len = common_len n.lower_fence n.upper_fence;
    slots = [];
    hint = replicate hint_count 0;
    data_offset = tmp.data_offset;
    space_used = tmp.space_used;
  }

fences-Fenced :
    (n : Node)
    → length n.lower_fence + length n.upper_fence ≤ page_size
    → Fenced n (set_fences n.lower_fence n.upper_fence (fresh_node n.is_leaf n.neighbour))
unfolding set_fences insert_fence
fences-Fenced n room = record { offset = omega arith; used = omega arith; shape = refl }

-- The node that the copies end in, before its hints are made.
record Copied (n filled : Node) : Type 0 where
  slots : filled.slots ≡ n.slots
  lower : filled.lower_fence ≡ n.lower_fence
  upper : filled.upper_fence ≡ n.upper_fence
  prefixes : filled.prefix_len ≡ n.prefix_len
  neighbours : (filled.neighbour ≡ n.neighbour) × (filled.is_leaf ≡ n.is_leaf)
  hinted : length filled.hint ≡ hint_count
  used : filled.space_used ≡ n.space_used
  full : filled.data_offset + filled.space_used ≡ page_size

Copies-Copied :
    (n tmp copied : Node) → IsValid n → Fenced n tmp → Copies n.slots tmp copied → Copied n copied
Copies-Copied n tmp copied v f c = record {
  slots = c.slots ∙ ap (λ x. x.slots ++ n.slots) f.shape;
  lower = ap (λ x. x.lower_fence) c.same ∙ ap (λ x. x.lower_fence) f.shape;
  upper = ap (λ x. x.upper_fence) c.same ∙ ap (λ x. x.upper_fence) f.shape;
  prefixes = ap (λ x. x.prefix_len) c.same ∙ ap (λ x. x.prefix_len) f.shape ∙ sym v.common;
  neighbours = (
    ap (λ x. x.neighbour) c.same ∙ ap (λ x. x.neighbour) f.shape,
    ap (λ x. x.is_leaf) c.same ∙ ap (λ x. x.is_leaf) f.shape,
  );
  hinted = ap (λ x. length x.hint) c.same ∙ ap (λ x. length x.hint) f.shape;
  used = omega (arith, c.used, f.used, v.used);
  full = omega (arith, c.used, f.used, v.used, c.offset, f.offset);
}

packed-Compacts : (n copied : Node) → IsValid n → Copied n copied → Compacts n (make_hint copied)
unfolding make_hint
packed-Compacts n copied v c = record {
  valid = record {
    searchable = record {
      sorted = subst AreSorted (sym c.slots) v.searchable.sorted;
      hints = λ _. make_hint-AreHints copied c.hinted;
      prefixed = rw (c.lower, c.prefixes) v.searchable.prefixed;
    };
    hinted = length-make_hint copied ∙ c.hinted;
    common = rw (c.lower, c.upper) (c.prefixes ∙ v.common);
    used = rw (c.lower, c.upper, c.slots) (c.used ∙ v.used);
    apart = rw c.slots (omega (arith, v.apart, v.room, c.full, c.used));
    room = omega (arith, c.full);
  };
  slots = c.slots;
  lower = c.lower;
  upper = c.upper;
  prefixes = c.prefixes;
  neighbours = c.neighbours;
  full = c.full;
}

-- The assertion at the end.
packed_free :
    (n n' : Node)
    → IsValid n
    → Compacts n n'
    → n'.space_used ≡ n.space_used
    → free_space n' ≡ free_space_after_compaction n
unfolding free_space free_space_after_compaction
packed_free n n' v c used = rw c.slots (omega (arith, v.apart, v.room, c.full, used))

copy_slot-prefix_len :
    (src dst : Node) (s : Slot) → (copy_slot src s dst).prefix_len ≡ dst.prefix_len
unfolding copy_slot with_key_value
copy_slot-prefix_len src dst s = elim (Bool-cases (leb src.prefix_len dst.prefix_len)) [
  | inl grows ↦ rw grows refl
  | inr shrinks ↦ rw shrinks refl
]

-- A copy to a prefix that is not shorter does not call `storeKeyValue`.
stores_fit-grows :
    (src dst : Node) (xs : List Slot)
    → src.prefix_len ≤ dst.prefix_len
    → stores_fit src xs dst ≡ true
unfolding stores_fit
stores_fit-grows src dst [] grows = refl
stores_fit-grows src dst (s ∷ xs) grows =
    rw (le→leb _ _ grows) (
      stores_fit-grows src (copy_slot src s dst) xs (omega (arith, copy_slot-prefix_len src dst s)))

compactify_lem :
    (n tmp : Node)
    → fenced_node n.lower_fence n.upper_fence (fresh_node n.is_leaf n.neighbour) ≡ done tmp
    → copied n n.slots tmp ≡ done (copy_key_value_range n n.slots tmp)
    → (free_space (make_hint (copy_key_value_range n n.slots tmp)) == free_space_after_compaction n)
      ≡ true
    → compactify n ≡ done (make_hint (copy_key_value_range n n.slots tmp))
unfolding compactify
compactify_lem n tmp fenced copies asserted = rw (fenced, copies, asserted) refl

copied_lem :
    (n tmp : Node)
    → n.prefix_len ≤ tmp.prefix_len
    → slots_end (copy_key_value_range n n.slots tmp)
      ≤ (copy_key_value_range n n.slots tmp).data_offset
    → copied n n.slots tmp ≡ done (copy_key_value_range n n.slots tmp)
unfolding copied
copied_lem n tmp grows room = rw (stores_fit-grows n tmp n.slots grows, le→leb _ _ room) refl

-- `compactify` of a well-formed node returns, its assertions hold, and it leaves the slots and the
-- fences as they are, without a hole in the heap.
pub compactify-Compacts :
    (n : Node) → IsValid n → (n' : Node) × (compactify n ≡ done n') × Compacts n n'
unfolding make_hint
compactify-Compacts n v = (
  make_hint filled,
  compactify_lem n tmp
      (fenced_node_lem n.lower_fence n.upper_fence n.is_leaf n.neighbour
        (omega (arith, v.used, v.room, v.apart)))
      (copied_lem n tmp (omega (arith, v.common, ap (λ x. x.prefix_len) fenced.shape))
        (omega (arith, v.apart, v.room, whole.full, whole.used, ap length whole.slots)))
      asserted,
  compacts,
)
  where
    tmp : Node
    tmp = set_fences n.lower_fence n.upper_fence (fresh_node n.is_leaf n.neighbour)

    filled : Node
    filled = copy_key_value_range n n.slots tmp

    fenced : Fenced n tmp
    fenced = fences-Fenced n (omega (arith, v.used, v.room))

    copies : Copies n.slots tmp filled
    copies =
        copy_key_value_range-Copies n tmp n.slots
          (v.common ∙ sym (ap (λ x. x.prefix_len) fenced.shape)) v.searchable.sorted.heads
          (omega (arith, fenced.offset, v.used, v.room)) (omega (arith, fenced.offset))
          (omega (arith, fenced.used, v.used, v.room))

    whole : Copied n filled
    whole = Copies-Copied n tmp filled v fenced copies

    compacts : Compacts n (make_hint filled)
    compacts = packed-Compacts n filled v whole

    asserted : (free_space (make_hint filled) == free_space_after_compaction n) ≡ true
    asserted = (==_iff _ _).1 (packed_free n (make_hint filled) v compacts whole.used)
