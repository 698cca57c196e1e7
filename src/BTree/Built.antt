-- ===== src/BTree/Built.antt =====
-- btree.hpp: a node that is made from fences and entries, and what it then holds.
use mathlib.Core.Path.{subst}
use cloud_project.Prelude.{
  ℕ, zero, suc, ◌+◌, ◌≤◌, ◌<◌, ◌≡◌, ◌↔◌, refl, sym, ap, ◌∙◌, arith, List, [], ◌∷◌, ◌++◌, length,
  drop,
}
use cloud_project.BTree.Keys.{Before, Before-cancel, AreBytes}
use cloud_project.BTree.Node.{Node, prefix, slot_at, hint_count, make_hint, page_size}
use cloud_project.BTree.Search.{AreSorted}
use cloud_project.BTree.Upkeep.{make_hint-AreHints, length-make_hint}
use cloud_project.BTree.Update.{make_slot, common_len, slots_end}
use cloud_project.BTree.LowerBound.{full_key, drop-AreBytes}
use cloud_project.BTree.Valid.{IsValid, Holds, slots_space}
use cloud_project.BTree.Stored.{Begins}
use cloud_project.BTree.Entries.{Entry, slot_of, slots_of}

abbrev pub entry_at : List Entry → ℕ → Entry
entry_at [] i = ([], [])
entry_at (e ∷ es) zero = e
entry_at (e ∷ es) (suc i) = entry_at es i

abbrev pub key_at : List Entry → ℕ → List ℕ
key_at es i = (entry_at es i).0

pub record AreOrdered (es : List Entry) : Type 0 where
  pub order : (i j : ℕ) → i < j → j < length es → Before (key_at es i) (key_at es j)
  pub bytes : (i : ℕ) → i < length es → AreBytes (key_at es i)

-- The entry stands in the list.
pub record Has (k payload : List ℕ) (es : List Entry) : Type 0 where
  pub index : ℕ
  pub inside : index < length es
  pub there : entry_at es index ≡ (k, payload)

pub length-slots_of : (p : ℕ) (es : List Entry) → length (slots_of p es) ≡ length es
length-slots_of p [] = refl
length-slots_of p (e ∷ es) = ap suc (length-slots_of p es)

pub slot_at-slots_of :
    (p : ℕ) (es : List Entry) (i : ℕ)
    → i < length es
    → slot_at (slots_of p es) i ≡ slot_of p (entry_at es i)
slot_at-slots_of p [] i h = absurd (omega arith)
slot_at-slots_of p (e ∷ es) zero h = refl
slot_at-slots_of p (e ∷ es) (suc i) h = slot_at-slots_of p es i (omega arith)

-- The node before its hints are made.
pub record Built (lower upper : List ℕ) (es : List Entry) (m : Node) : Type 0 where
  pub slots : m.slots ≡ slots_of m.prefix_len es
  pub lower_is : m.lower_fence ≡ lower
  pub upper_is : m.upper_fence ≡ upper
  pub common : m.prefix_len ≡ common_len lower upper
  pub hinted : length m.hint ≡ hint_count
  pub used : m.space_used ≡ length lower + length upper + slots_space m.slots
  pub full : m.data_offset + m.space_used ≡ page_size
  pub apart : slots_end m ≤ m.data_offset

pub common_len-le :
    (xs ys : List ℕ) → (common_len xs ys ≤ length xs) × (common_len xs ys ≤ length ys)
unfolding common_len
common_len-le [] ys = omega arith
common_len-le (x ∷ xs) [] = omega arith
common_len-le (x ∷ xs) (y ∷ ys) = ground (arith, common_len-le xs ys)

module _ (lower upper : List ℕ) (es : List Entry) (m : Node) (b : Built lower upper es m)
    (ordered : AreOrdered es) (begins : (i : ℕ) → i < length es → Begins (key_at es i) m) where
  same_count : length m.slots ≡ length es
  same_count = ap length b.slots ∙ length-slots_of m.prefix_len es

  slot_is : (i : ℕ) → i < length es → slot_at m.slots i ≡ slot_of m.prefix_len (entry_at es i)
  slot_is i h = ap (λ xs. slot_at xs i) b.slots ∙ slot_at-slots_of m.prefix_len es i h

  built-AreSorted : AreSorted m.slots
  unfolding make_slot
  built-AreSorted = record {
    order = λ i j less inside.
        let j_in : j < length es = omega (arith, same_count) in
        let i_in : i < length es = omega arith in
        let step : Before (drop m.prefix_len (key_at es i)) (drop m.prefix_len (key_at es j)) =
          Before-cancel (prefix m) _ _ (
            subst (λ x. Before x (prefix m ++ drop m.prefix_len (key_at es j)))
              (sym (begins i i_in))
              (subst (Before (key_at es i)) (sym (begins j j_in)) (ordered.order i j less j_in))) in
        subst (λ s. Before s.key (slot_at m.slots j).key) (sym (slot_is i i_in))
          (subst (λ s. Before (drop m.prefix_len (key_at es i)) s.key) (sym (slot_is j j_in)) step);
    heads = λ i inside. rw (slot_is i (omega (arith, same_count))) refl;
    bytes = λ i inside.
        let i_in : i < length es = omega (arith, same_count) in
        subst (λ s. AreBytes s.key) (sym (slot_is i i_in))
          (drop-AreBytes m.prefix_len (key_at es i) (ordered.bytes i i_in));
    few = omega (arith, b.apart, b.full);
  }

  pub built-IsValid : IsValid (make_hint m)
  unfolding make_hint
  built-IsValid = record {
    searchable = record {
      sorted = built-AreSorted;
      hints = λ _. make_hint-AreHints m b.hinted;
      prefixed = omega (arith, b.common, (common_len-le lower upper).0, ap length b.lower_is);
    };
    hinted = length-make_hint m ∙ b.hinted;
    common = rw (b.lower_is, b.upper_is) b.common;
    used = rw (b.lower_is, b.upper_is) b.used;
    apart = b.apart;
    room = omega (arith, b.full);
  }

  full_key-built : (i : ℕ) → i < length es → full_key (make_hint m) i ≡ key_at es i
  unfolding make_hint make_slot
  full_key-built i h = ap (λ s. prefix m ++ s.key) (slot_is i h) ∙ begins i h

  pub built-Holds : (k payload : List ℕ) → Holds k payload (make_hint m) ↔ Has k payload es
  unfolding make_hint make_slot
  built-Holds k payload = (
    λ h.
        let i_in : h.index < length es = omega (arith, same_count, h.inside) in
        record {
          index = h.index;
          inside = i_in;
          there = λ i. (
            (sym (full_key-built h.index i_in) ∙ h.key) i,
            (ap (λ s. s.payload) (sym (slot_is h.index i_in)) ∙ h.value) i,
          );
        },
    λ h. record {
      index = h.index;
      inside = omega (arith, same_count, h.inside);
      key = full_key-built h.index h.inside ∙ ap (λ e. e.0) h.there;
      value = ap (λ s. s.payload) (slot_is h.index h.inside) ∙ ap (λ e. e.1) h.there;
    },
  )
