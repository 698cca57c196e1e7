-- ===== src/BTree/Stored.antt =====
-- btree.hpp, storeKeyValue and updateHint: a slot put in at the place of its key.
use cloud_project.Prelude.{
  ℕ, suc, ◌+◌, ◌-◌, ◌*◌, ◌≤◌, ◌<◌, ◌≡◌, ◌⊎◌, ◌↔◌, inl, inr, refl, sym, ap, ◌∙◌, arith, List, ◌++◌,
  length, drop, ltb, ltb→lt, Bool-cases, false,
}
use mathlib.Core.Path.{subst}
use cloud_project.BTree.Keys.{AreBytes, Before, Before-cancel}
use cloud_project.BTree.Compare.{Slot}
use cloud_project.BTree.Node.{Node, count, prefix, slot_at, update_hint}
use cloud_project.BTree.Search.{Finds}
use cloud_project.BTree.Update.{insert_at, make_slot, with_key_value}
use cloud_project.BTree.LowerBound.{full_key, Locates, drop-AreBytes}
use cloud_project.BTree.Slots.{
  length-insert_at, slot_at-insert_at_before, slot_at-insert_at_self, slot_at-insert_at_after,
}
use cloud_project.BTree.Sorted.{Place, place, early, here, late, insert_at-AreSorted}
use cloud_project.BTree.Upkeep.{update_hint-AreHints, length-update_hint}
use cloud_project.BTree.Valid.{IsValid, Holds, slots_space-insert_at}

-- The key is in the node's range: it begins with the prefix.
abbrev pub Begins : (skey : List ℕ) → Node → Type 0
Begins skey n = prefix n ++ drop n.prefix_len skey ≡ skey

-- Two nodes with the same fences and links.
pub record SameFrame (n n' : Node) : Type 0 where
  pub prefixes : n'.prefix_len ≡ n.prefix_len
  pub leaf : n'.is_leaf ≡ n.is_leaf
  pub link : n'.neighbour ≡ n.neighbour
  pub lower : n'.lower_fence ≡ n.lower_fence
  pub upper : n'.upper_fence ≡ n.upper_fence

-- What `insertInPage` leaves: a well-formed node that holds what it held and the payload for the
-- key, in a slot at the key's place, with the fences and links as they were.
pub record Inserts (skey payload : List ℕ) (n n' : Node) : Type 0 where
  pub valid : IsValid n'
  pub holds : (k p : List ℕ) → Holds k p n' ↔ (Holds k p n ⊎ ((k ≡ skey) × (p ≡ payload)))
  pub place : ℕ
  pub placed : Locates skey n (false, place)
  pub slots : n'.slots ≡ insert_at place (make_slot (drop n.prefix_len skey) payload) n.slots
  pub frame : SameFrame n n'

module _ (skey payload : List ℕ) (n : Node) (r : ℕ) (v : IsValid n) (bytes : AreBytes skey)
    (begins : Begins skey n) (locates : Locates skey n (false, r)) where
  abbrev key : List ℕ
  key = drop n.prefix_len skey

  abbrev new : Slot
  new = make_slot key payload

  abbrev stored : Node
  stored = with_key_value r skey payload n

  finds : Finds key n.slots (false, r)
  finds = record {
    inside = locates.inside;
    below = λ i h.
        Before-cancel (prefix n) _ _
          (subst (Before (full_key n i)) (sym begins) (locates.below i h));
    hit = λ h. ground arith;
    miss = λ h i le inside.
        Before-cancel (prefix n) _ _
          (subst (λ x. Before x (full_key n i)) (sym begins) (locates.miss h i le inside));
  }

  grown : length (insert_at r new n.slots) ≡ count n + 1
  grown = length-insert_at r new n.slots

  pub stored-IsValid :
      length key + length payload + 10 ≤ n.data_offset - (112 + 10 * count n)
      → IsValid (update_hint r stored)
  unfolding update_hint with_key_value make_slot
  stored-IsValid room = record {
    searchable = record {
      sorted =
          insert_at-AreSorted key r new n.slots v.searchable.sorted finds refl
            (drop-AreBytes n.prefix_len skey bytes) refl (omega (arith, v.apart, v.room));
      hints = λ _. update_hint-AreHints r new n locates.inside v.hinted v.searchable.hints;
      prefixed = v.searchable.prefixed;
    };
    hinted = length-update_hint r stored ∙ v.hinted;
    common = v.common;
    used = omega (arith, v.used, v.room, v.apart, slots_space-insert_at r new n.slots);
    apart = omega (arith, v.apart, v.room, grown);
    room = omega (arith, v.apart, v.room);
  }

  full_key-stored :
      (i : ℕ)
      → full_key (update_hint r stored) i ≡ prefix n ++ (slot_at (insert_at r new n.slots) i).key
  unfolding update_hint with_key_value
  full_key-stored i = refl

  pub stored-Holds :
      (k p : List ℕ)
      → Holds k p (update_hint r stored) ↔ (Holds k p n ⊎ ((k ≡ skey) × (p ≡ payload)))
  unfolding update_hint with_key_value make_slot
  stored-Holds k p = (back, forth)
    where
      slots : List Slot
      slots = insert_at r new n.slots

      back : Holds k p (update_hint r stored) → Holds k p n ⊎ ((k ≡ skey) × (p ≡ payload))
      back h = from (place r h.index new n.slots locates.inside h.inside)
        where
          from : Place r new n.slots h.index → Holds k p n ⊎ ((k ≡ skey) × (p ≡ payload))
          from (early b e) = inl (record {
            index = h.index;
            inside = omega (arith, locates.inside);
            key = ap (λ s. prefix n ++ s.key) (sym e) ∙ h.key;
            value = ap (λ s. s.payload) (sym e) ∙ h.value;
          })
          from (here b e) = inr (
            sym h.key ∙ ap (λ s. prefix n ++ s.key) e ∙ begins,
            sym h.value ∙ ap (λ s. s.payload) e,
          )
          from (late i b c e) = inl (record {
            index = i;
            inside = omega (arith, h.inside, grown);
            key = ap (λ s. prefix n ++ s.key) (sym e) ∙ h.key;
            value = ap (λ s. s.payload) (sym e) ∙ h.value;
          })

      moved :
          (h : Holds k p n) (j : ℕ)
          → j < length slots
          → slot_at slots j ≡ slot_at n.slots h.index
          → Holds k p (update_hint r stored)
      moved h j inside e = record {
        index = j;
        inside = inside;
        key = ap (λ s. prefix n ++ s.key) e ∙ h.key;
        value = ap (λ s. s.payload) e ∙ h.value;
      }

      forth : Holds k p n ⊎ ((k ≡ skey) × (p ≡ payload)) → Holds k p (update_hint r stored)
      forth (inl h) = elim (Bool-cases (ltb h.index r)) [
        | inl less ↦
            moved h h.index (omega (arith, grown, h.inside))
              (slot_at-insert_at_before r h.index new n.slots (ltb→lt _ _ less) h.inside)
        | inr rest ↦
            moved h (suc h.index) (omega (arith, grown, h.inside))
              (slot_at-insert_at_after r h.index new n.slots (ground arith) locates.inside)
      ]
      forth (inr (e, q)) = record {
        index = r;
        inside = omega (arith, grown, locates.inside);
        key =
            ap (λ s. prefix n ++ s.key) (slot_at-insert_at_self r new n.slots locates.inside)
            ∙ begins
            ∙ sym e;
        value = ap (λ s. s.payload) (slot_at-insert_at_self r new n.slots locates.inside) ∙ sym q;
      }

  pub stored-Inserts :
      length key + length payload + 10 ≤ n.data_offset - (112 + 10 * count n)
      → Inserts skey payload n (update_hint r stored)
  unfolding update_hint with_key_value
  stored-Inserts room = record {
    valid = stored-IsValid room;
    holds = stored-Holds;
    place = r;
    placed = locates;
    slots = refl;
    frame = record { prefixes = refl; leaf = refl; link = refl; lower = refl; upper = refl };
  }
