-- ===== src/BTree/Tests.antt =====
-- A node of two slots, and the theorems at it.
pub mod Small
mod Splits
use cloud_project.Prelude.{
  ℕ, zero, suc, ◌<◌, ◌≡◌, inl, refl, ap, arith, List, [], ◌∷◌, replicate, length, true, false, Bool,
  done, get_or,
}
use cloud_project.BTree.Keys.{head, cust_memcmp, AreBytes, Before}
use cloud_project.BTree.Compare.{Slot, way, by_bytes, by_length}
use cloud_project.BTree.Node.{
  Node, slot_at, search_hint, search_loop, lower_bound, first_not_below, first_other, scan,
}
use cloud_project.BTree.Search.{AreSorted, Between}
use cloud_project.BTree.Hints.{search_hint-Between}
use cloud_project.BTree.LowerBound.{full_key, Locates, lower_bound-Locates}
use cloud_project.BTree.Update.{
  compactify, insert_in_page, remove_in_page, common_len, has_space_for, space_needed,
  free_space_after_compaction,
}
use cloud_project.BTree.Valid.{IsValid, slots_space}
use cloud_project.BTree.Compact.{Compacts, compactify-Compacts}
use cloud_project.BTree.Remove.{Removes, remove_in_page-Removes}
use cloud_project.BTree.Separator.{
  Separates, find_separator, get_sep, best_slot, truncates, common_prefix, find_separator-Separates,
}
use cloud_project.BTree.Stored.{Inserts}
use cloud_project.BTree.Insert.{IsAbsent, insert_in_page-Inserts}

abbrev slot : (key payload : List ℕ) → Slot
slot key payload = record { head = head key; key = key; payload = payload }

-- The keys 1.3.0 and 1.5, with the prefix 1.
abbrev two : Node
two = record {
  is_leaf = true;
  neighbour = 0;
  lower_fence = 1 ∷ 2 ∷ [];
  upper_fence = 1 ∷ 9 ∷ [];
  prefix_len = 1;
  slots = slot (3 ∷ 0 ∷ []) (7 ∷ []) ∷ slot (5 ∷ []) (8 ∷ []) ∷ [];
  hint = replicate 16 0;
  space_used = 9;
  data_offset = 4080;
}

two-AreSorted : AreSorted two.slots
two-AreSorted = record { order = order; heads = heads; bytes = bytes; few = omega arith }
  where
    order :
        (i j : ℕ)
        → i < j
        → j < length two.slots
        → Before (slot_at two.slots i).key (slot_at two.slots j).key
    order zero zero less inside = absurd (omega arith)
    order zero (suc zero) less inside = inl (omega arith)
    order (suc i) zero less inside = absurd (omega arith)
    order (suc i) (suc zero) less inside = absurd (omega arith)
    order i (suc (suc j)) less inside = absurd (omega arith)

    heads :
        (i : ℕ) → i < length two.slots → (slot_at two.slots i).head ≡ head (slot_at two.slots i).key
    heads zero inside = refl
    heads (suc zero) inside = refl
    heads (suc (suc i)) inside = absurd (omega arith)

    bytes : (i : ℕ) → i < length two.slots → AreBytes (slot_at two.slots i).key
    bytes zero inside = (omega arith, (omega arith, tt))
    bytes (suc zero) inside = (omega arith, tt)
    bytes (suc (suc i)) inside = absurd (omega arith)

two-IsValid : IsValid two
unfolding common_len slots_space
two-IsValid = record {
  searchable = record {
    sorted = two-AreSorted;
    hints = λ h. absurd (omega arith);
    prefixed = omega arith;
  };
  hinted = refl;
  common = refl;
  used = refl;
  apart = omega arith;
  room = omega arith;
}

abbrev new_key : List ℕ
new_key = 1 ∷ 4 ∷ []

new_key-AreBytes : AreBytes new_key
new_key-AreBytes = (omega arith, (omega arith, tt))

new_key-IsAbsent : IsAbsent new_key two
new_key-IsAbsent p h = go h.index h.inside h.key
  where
    go : (i : ℕ) → i < 2 → full_key two i ≡ new_key → ⊥
    go zero inside e = absurd (omega (arith, ap (λ k. get_or k 1 0) e))
    go (suc zero) inside e = absurd (omega (arith, ap (λ k. get_or k 1 0) e))
    go (suc (suc i)) inside e = absurd (omega arith)

lower_bound-Locates_example :
    (answer : Bool × ℕ) × (lower_bound new_key two ≡ done answer) × Locates new_key two answer
lower_bound-Locates_example =
    lower_bound-Locates new_key two two-IsValid.searchable new_key-AreBytes

compactify-Compacts_example : (n' : Node) × (compactify two ≡ done n') × Compacts two n'
compactify-Compacts_example = compactify-Compacts two two-IsValid

remove_in_page-Removes_example :
    (answer : Bool) × (n' : Node) × (remove_in_page new_key two ≡ done (answer, n'))
    × Removes new_key two n' answer
remove_in_page-Removes_example = remove_in_page-Removes new_key two two-IsValid new_key-AreBytes

insert_in_page-Inserts_example :
    (n' : Node) × (insert_in_page new_key (6 ∷ []) two ≡ done n') × Inserts new_key (6 ∷ []) two n'
unfolding has_space_for space_needed free_space_after_compaction
insert_in_page-Inserts_example =
    insert_in_page-Inserts new_key (6 ∷ []) two two-IsValid new_key-AreBytes (omega arith) refl
      new_key-IsAbsent refl

find_separator-Separates_example :
    Separates two (get_sep (find_separator false two) two) (find_separator false two).slot
find_separator-Separates_example =
    find_separator-Separates false two two-IsValid.searchable (omega arith)

-- The second key has one byte behind the prefix, so the first one is not cut.
separators : get_sep (find_separator false two) two ≡ 1 ∷ 3 ∷ 0 ∷ []
unfolding get_sep find_separator best_slot truncates common_prefix common_len
separators = refl

-- The new key stands between the two.
places :
    (lower_bound new_key two ≡ done (false, 1)) × (lower_bound (1 ∷ 5 ∷ []) two ≡ done (true, 1))
unfolding lower_bound search_loop search_hint first_not_below first_other scan way by_bytes
    by_length cust_memcmp head
places = (refl, refl)
