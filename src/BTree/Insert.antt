-- ===== src/BTree/Insert.antt =====
-- btree.hpp, insertInPage: the key and its payload are put in the map, and nothing else changes.
use cloud_project.Prelude.{
  le→leb, ℕ, ◌+◌, ◌-◌, ◌*◌, ◌/◌, ◌≤◌, ◌<◌, ◌≡◌, ◌⊎◌, ◌↔◌, inl, inr, refl, sym, ap, ◌∙◌, arith, List,
  length, length-append, drop, leb, leb→le, Bool-cases, Bool, true, false, done,
}
use mathlib.Core.Path.{subst}
use cloud_project.BTree.Keys.{AreBytes, Before}
use cloud_project.BTree.Node.{
  Node, count, prefix, slot_at, page_size, header_size, slot_size, update_hint, lower_bound,
}
use cloud_project.BTree.Update.{
  with_key_value, store_key_value, insert_slot, insert_in_page, free_space,
  free_space_after_compaction, space_needed, has_space_for,
}
use cloud_project.BTree.LowerBound.{full_key, Locates, lower_bound-Locates, length-take}
use cloud_project.BTree.Valid.{IsValid, Holds}
use cloud_project.BTree.Compact.{Compacts, compactify-Compacts}
use cloud_project.BTree.Stored.{Begins, Inserts, stored-Inserts}

-- A key is absent when the node holds nothing for it.
abbrev pub IsAbsent : (skey : List ℕ) → Node → Type 0
IsAbsent skey n = (p : List ℕ) → Holds skey p n → ⊥

key_len :
    (skey : List ℕ) (n : Node)
    → IsValid n
    → Begins skey n
    → n.prefix_len + length (drop n.prefix_len skey) ≡ length skey
key_len skey n v b = omega (
  arith,
  ap length b,
  length-append (prefix n) (drop n.prefix_len skey),
  length-take n.prefix_len n.lower_fence v.searchable.prefixed,
)

-- The assertion of `storeKeyValue`.
stored_room :
    (skey payload : List ℕ) (n : Node) (r : ℕ)
    → IsValid n
    → r ≤ count n
    → length (drop n.prefix_len skey) + length payload + 10 ≤ n.data_offset - (112 + 10 * count n)
    → header_size + slot_size * r ≤ (with_key_value r skey payload n).data_offset
unfolding with_key_value
stored_room skey payload n r v inside room = omega (arith, v.apart, v.room)

-- With room before the heap.
insert_slot-Inserts :
    (skey payload : List ℕ) (n : Node)
    → IsValid n
    → AreBytes skey
    → Begins skey n
    → IsAbsent skey n
    → length (drop n.prefix_len skey) + length payload + 10 ≤ n.data_offset - (112 + 10 * count n)
    → (n' : Node) × (insert_slot skey payload n ≡ done n') × Inserts skey payload n n'
unfolding insert_slot store_key_value
insert_slot-Inserts skey payload n v bytes begins absent room =
    go (lower_bound-Locates skey n v.searchable bytes)
  where
    go :
        (answer : Bool × ℕ) × (lower_bound skey n ≡ done answer) × Locates skey n answer
        → (n' : Node) × (insert_slot skey payload n ≡ done n') × Inserts skey payload n n'
    go ((true, r), e, l) =
        let hit = l.hit refl in
        absurd (
          absent (slot_at n.slots r).payload
            (record { index = r; inside = hit.0; key = hit.1; value = refl }))
    go ((false, r), e, l) = (
      update_hint r (with_key_value r skey payload n),
      rw (e, le→leb _ _ (stored_room skey payload n r v (l.inside) room)) refl,
      stored-Inserts skey payload n r v bytes begins l room,
    )

-- `maxKVSize`, which `BTree::insert` asserts.
abbrev pub max_kv_size : ℕ
max_kv_size = (page_size - header_size - 2 * slot_size) / 4

module _ (n n' : Node) (c : Compacts n n') where
  same_full_key : (i : ℕ) → full_key n' i ≡ full_key n i
  same_full_key i = rw (c.slots, c.lower, c.prefixes) refl

  compacted-Begins : (skey : List ℕ) → Begins skey n → Begins skey n'
  compacted-Begins skey b = rw (c.lower, c.prefixes) b

  compacted-Holds : (k p : List ℕ) → Holds k p n' ↔ Holds k p n
  compacted-Holds k p = (
    λ h. record {
      index = h.index;
      inside = subst (λ xs. h.index < length xs) c.slots h.inside;
      key = sym (same_full_key h.index) ∙ h.key;
      value = ap (λ xs. (slot_at xs h.index).payload) (sym c.slots) ∙ h.value;
    },
    λ h. record {
      index = h.index;
      inside = subst (λ xs. h.index < length xs) (sym c.slots) h.inside;
      key = same_full_key h.index ∙ h.key;
      value = ap (λ xs. (slot_at xs h.index).payload) c.slots ∙ h.value;
    },
  )

  compacted-Locates : (skey : List ℕ) (a : Bool × ℕ) → Locates skey n' a → Locates skey n a
  compacted-Locates skey a l = record {
    inside = subst (λ xs. a.1 ≤ length xs) c.slots l.inside;
    below = λ i h. subst (λ k. Before k skey) (same_full_key i) (l.below i h);
    hit = λ h.
        (subst (λ xs. a.1 < length xs) c.slots (l.hit h).0, sym (same_full_key a.1) ∙ (l.hit h).1);
    miss = λ h i le inside.
        subst (Before skey) (same_full_key i)
          (l.miss h i le (subst (λ xs. i < length xs) (sym c.slots) inside));
  }

  Inserts-compacted :
      (skey payload : List ℕ) (m : Node) → Inserts skey payload n' m → Inserts skey payload n m
  Inserts-compacted skey payload m i = record {
    valid = i.valid;
    holds = λ k p. (back k p, forth k p);
    place = i.place;
    placed = compacted-Locates skey (false, i.place) i.placed;
    slots = i.slots ∙ rw (c.slots, c.prefixes) refl;
    frame = record {
      prefixes = i.frame.prefixes ∙ c.prefixes;
      leaf = i.frame.leaf ∙ c.neighbours.1;
      link = i.frame.link ∙ c.neighbours.0;
      lower = i.frame.lower ∙ c.lower;
      upper = i.frame.upper ∙ c.upper;
    };
  }
    where
      back : (k p : List ℕ) → Holds k p m → Holds k p n ⊎ ((k ≡ skey) × (p ≡ payload))
      back k p h = elim ((i.holds k p).0 h) [
        | inl old ↦ inl ((compacted-Holds k p).0 old)
        | inr e ↦ inr e
      ]

      forth : (k p : List ℕ) → Holds k p n ⊎ ((k ≡ skey) × (p ≡ payload)) → Holds k p m
      forth k p (inl h) = (i.holds k p).1 (inl ((compacted-Holds k p).1 h))
      forth k p (inr e) = (i.holds k p).1 (inr e)

module _ (skey payload : List ℕ) (n : Node) (v : IsValid n) (begins : Begins skey n)
    (small : length skey + length payload ≤ page_size) where
  room_before :
      leb (space_needed (length skey) (length payload) n) (free_space n) ≡ true
      → length (drop n.prefix_len skey) + length payload + 10 ≤ n.data_offset - (112 + 10 * count n)
  unfolding space_needed free_space
  room_before fits = omega (arith, leb→le _ _ fits, key_len skey n v begins, v.apart, v.room)

  compacted_used : (n' : Node) → Compacts n n' → n'.space_used ≡ n.space_used
  compacted_used n' c = c.valid.used ∙ rw (c.lower, c.upper, c.slots) (sym v.used)

  room_after :
      (n' : Node)
      → Compacts n n'
      → leb (space_needed (length skey) (length payload) n) (free_space_after_compaction n) ≡ true
      → length (drop n'.prefix_len skey) + length payload + 10
        ≤ n'.data_offset - (112 + 10 * count n')
  unfolding space_needed free_space_after_compaction
  room_after n' c space =
      rw (c.prefixes, c.slots)
        (omega (
          arith,
          leb→le _ _ space,
          key_len skey n v begins,
          v.apart,
          v.room,
          c.full,
          compacted_used n' c,
        ))

-- On a well-formed node with space for the key and its payload, which are no longer than a page, where
-- the key begins with the node's prefix and is not there, `insertInPage` returns, with or without `compactify`: the node is well-formed
-- again and holds what it held and that payload for the key, with its fences and links as they were.
pub insert_in_page-Inserts :
    (skey payload : List ℕ) (n : Node)
    → IsValid n
    → AreBytes skey
    → length skey + length payload ≤ page_size
    → Begins skey n
    → IsAbsent skey n
    → has_space_for (length skey) (length payload) n ≡ true
    → (n' : Node) × (insert_in_page skey payload n ≡ done n') × Inserts skey payload n n'
unfolding insert_in_page has_space_for
insert_in_page-Inserts skey payload n v bytes small begins absent space =
    elim (Bool-cases (leb (space_needed (length skey) (length payload) n) (free_space n))) [
      | inl fits ↦
          let done_here =
            insert_slot-Inserts skey payload n v bytes begins absent
              (room_before skey payload n v begins small fits) in
          (done_here.0, rw fits done_here.1, done_here.2)
      | inr tight ↦
          let c = compactify-Compacts n v in
          let after =
            insert_slot-Inserts skey payload c.0 c.2.valid bytes
              (compacted-Begins n c.0 c.2 skey begins)
              (λ p h. absent p ((compacted-Holds n c.0 c.2 skey p).0 h))
              (room_after skey payload n v begins small c.0 c.2 space) in
          (
            after.0,
            rw (tight, space, c.1) after.1,
            Inserts-compacted n c.0 c.2 skey payload after.0 after.2,
          )
    ]
