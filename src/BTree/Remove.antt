-- ===== src/BTree/Remove.antt =====
-- btree.hpp, removeInPage: the key is taken out of the map, and nothing else.
use cloud_project.Prelude.{
  ℕ, ◌+◌, ◌-◌, ◌<◌, ◌≡◌, ◌≢◌, ◌↔◌, inl, inr, refl, sym, ap, ◌∙◌, arith, List, ◌++◌, length, ltb,
  ltb→lt, Bool-cases, Bool, true, false, done,
}
use mathlib.Core.Path.{subst}
use cloud_project.BTree.Keys.{AreBytes}
use cloud_project.BTree.Node.{Node, count, prefix, slot_at, make_hint, lower_bound}
use cloud_project.BTree.Update.{remove_at, remove_slot, remove_in_page}
use cloud_project.BTree.LowerBound.{full_key, Locates, lower_bound-Locates}
use cloud_project.BTree.Slots.{length-remove_at}
use cloud_project.BTree.Sorted.{was, slot_at-remove_at, remove_at-AreSorted}
use cloud_project.BTree.Upkeep.{make_hint-AreHints, length-make_hint}
use cloud_project.BTree.Valid.{IsValid, Holds, slots_space-remove_at, full_key_unique, missed}

module _ (n : Node) (r : ℕ) (v : IsValid n) (inside : r < count n) where
  shrunk : length (remove_at r n.slots) + 1 ≡ count n
  shrunk = length-remove_at r n.slots inside

  pub remove_slot-IsValid : IsValid (remove_slot r n)
  unfolding remove_slot make_hint
  remove_slot-IsValid = record {
    searchable = record {
      sorted = remove_at-AreSorted r n.slots inside v.searchable.sorted;
      hints = λ _. make_hint-AreHints (record n { slots = remove_at r n.slots }) v.hinted;
      prefixed = v.searchable.prefixed;
    };
    hinted = length-make_hint (record n { slots = remove_at r n.slots }) ∙ v.hinted;
    common = v.common;
    used = omega (arith, v.used, v.room, slots_space-remove_at r n.slots inside);
    apart = omega (arith, v.apart, shrunk);
    room = omega (arith, v.used, v.room, slots_space-remove_at r n.slots inside);
  }

  pub full_key-remove : (i : ℕ) → full_key (remove_slot r n) i ≡ full_key n (was r i)
  unfolding remove_slot make_hint
  full_key-remove i = ap (λ s. prefix n ++ s.key) (slot_at-remove_at r i n.slots)

  pub remove_slot-Holds :
      (k payload : List ℕ)
      → Holds k payload (remove_slot r n) ↔ (Holds k payload n × (k ≢ full_key n r))
  unfolding remove_slot make_hint
  remove_slot-Holds k payload = (back, forth)
    where
      back : Holds k payload (remove_slot r n) → Holds k payload n × (k ≢ full_key n r)
      back h = (
        record {
          index = was r h.index;
          inside = ground (arith, shrunk, h.inside);
          key = sym (full_key-remove h.index) ∙ h.key;
          value = ap (λ s. s.payload) (sym (slot_at-remove_at r h.index n.slots)) ∙ h.value;
        },
        λ e. not_r (
            full_key_unique n (was r h.index) r v.searchable (ground (arith, shrunk, h.inside))
              inside (sym (full_key-remove h.index) ∙ h.key ∙ e)),
      )
        where
          not_r : was r h.index ≢ r
          not_r e = ground arith

      forth : Holds k payload n × (k ≢ full_key n r) → Holds k payload (remove_slot r n)
      forth (h, other) = elim (Bool-cases (ltb h.index r)) [
        | inl less ↦ at_index h.index (omega (arith, shrunk, ltb→lt _ _ less)) (rw less refl)
        | inr rest ↦
            let ne : h.index ≢ r = λ e. other (sym h.key ∙ ap (full_key n) e) in
            at_index (h.index - 1) (ground (arith, shrunk, h.inside)) (ground arith)
      ]
        where
          at_index :
              (i : ℕ)
              → i < length (remove_at r n.slots)
              → was r i ≡ h.index
              → Holds k payload (remove_slot r n)
          at_index i i_inside e = record {
            index = i;
            inside = i_inside;
            key = full_key-remove i ∙ ap (full_key n) e ∙ h.key;
            value =
                ap (λ s. s.payload) (slot_at-remove_at r i n.slots)
                ∙ ap (λ j. (slot_at n.slots j).payload) e
                ∙ h.value;
          }

-- What `removeInPage` leaves: a well-formed node that holds what it held but the key; the answer is
-- whether the key was held.
pub record Removes (skey : List ℕ) (n n' : Node) (answer : Bool) : Type 0 where
  pub valid : IsValid n'
  pub holds : (k payload : List ℕ) → Holds k payload n' ↔ (Holds k payload n × (k ≢ skey))
  pub yes_held : answer ≡ true → (payload : List ℕ) × Holds skey payload n
  pub not_held : answer ≡ false → (payload : List ℕ) → Holds skey payload n → ⊥

-- On a well-formed node `removeInPage` of any key returns: the node is well-formed again and holds
-- what it held but that key, and the answer is whether the key was there.
pub remove_in_page-Removes :
    (skey : List ℕ) (n : Node)
    → IsValid n
    → AreBytes skey
    → (answer : Bool) × (n' : Node) × (remove_in_page skey n ≡ done (answer, n'))
      × Removes skey n n' answer
unfolding remove_in_page
remove_in_page-Removes skey n v bytes = go (lower_bound-Locates skey n v.searchable bytes)
  where
    go :
        (answer : Bool × ℕ) × (lower_bound skey n ≡ done answer) × Locates skey n answer
        → (answer : Bool) × (n' : Node) × (remove_in_page skey n ≡ done (answer, n'))
          × Removes skey n n' answer
    go ((true, r), e, l) =
        let hit = l.hit refl in
        (
          true,
          remove_slot r n,
          rw e refl,
          record {
            valid = remove_slot-IsValid n r v hit.0;
            holds = λ k payload.
                subst (λ x. Holds k payload (remove_slot r n) ↔ (Holds k payload n × (k ≢ x))) hit.1
                  (remove_slot-Holds n r v hit.0 k payload);
            yes_held = λ _. (
              (slot_at n.slots r).payload,
              record { index = r; inside = hit.0; key = hit.1; value = refl },
            );
            not_held = λ h. ground arith;
          },
        )
    go ((false, r), e, l) = (
      false,
      n,
      rw e refl,
      record {
        valid = v;
        holds = λ k payload. (
          λ h. (h, λ q. missed skey n r l payload (subst (λ x. Holds x payload n) q h)),
          λ h. h.0,
        );
        yes_held = λ h. ground arith;
        not_held = λ _ payload h. missed skey n r l payload h;
      },
    )
