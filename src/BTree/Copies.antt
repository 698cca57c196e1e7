-- ===== src/BTree/Copies.antt =====
-- btree.hpp, copyKeyValueRange where the prefix stays: the slots are copied as they are.
use cloud_project.Prelude.{
  ℕ, suc, ◌+◌, ◌-◌, ◌^◌, ◌≤◌, ◌<◌, ◌≡◌, refl, sym, ap, ◌∙◌, arith, List, [], ◌∷◌, ◌++◌, length,
  true, leb,
}
use mathlib.Core.List.{append-nil, append_assoc}
use cloud_project.BTree.Keys.{head}
use cloud_project.BTree.Compare.{Slot}
use cloud_project.BTree.Node.{Node, slot_at}
use cloud_project.BTree.Update.{make_slot, copy_slot, copy_key_value_range}
use cloud_project.BTree.Valid.{slot_space, slots_space}

-- The heads belong to the keys.
abbrev pub AreHeaded : List Slot → Type 0
AreHeaded xs = (i : ℕ) → i < length xs → (slot_at xs i).head ≡ head (slot_at xs i).key

abbrev pub with_slots : List Slot → (offset used : ℕ) → Node → Node
with_slots slots offset used n = record n { slots = slots; data_offset = offset; space_used = used }

pub record Copies (xs : List Slot) (dst dst' : Node) : Type 0 where
  pub slots : dst'.slots ≡ dst.slots ++ xs
  pub offset : dst'.data_offset + slots_space xs ≡ dst.data_offset
  pub used : dst'.space_used ≡ dst.space_used + slots_space xs
  pub same : dst' ≡ with_slots dst'.slots dst'.data_offset dst'.space_used dst

copy_slot-Copies :
    (src dst : Node) (s : Slot)
    → src.prefix_len ≡ dst.prefix_len
    → s.head ≡ head s.key
    → slot_space s ≤ dst.data_offset
    → dst.data_offset < 2 ^ 16
    → dst.space_used + slot_space s < 2 ^ 16
    → Copies (s ∷ []) dst (copy_slot src s dst)
unfolding copy_slot make_slot slots_space
copy_slot-Copies src dst s e h room small used =
    let same : dst.prefix_len - src.prefix_len ≡ 0 = omega (arith, e) in
    let le : leb src.prefix_len dst.prefix_len ≡ true = ground (arith, e) in
    rw (le, same)
      (record {
        slots = ap (λ x. dst.slots ++ (record s { head = x } ∷ [])) (sym h);
        offset = omega arith;
        used = omega arith;
        same = refl;
      })

pub copy_key_value_range-Copies :
    (src dst : Node) (xs : List Slot)
    → src.prefix_len ≡ dst.prefix_len
    → AreHeaded xs
    → slots_space xs ≤ dst.data_offset
    → dst.data_offset < 2 ^ 16
    → dst.space_used + slots_space xs < 2 ^ 16
    → Copies xs dst (copy_key_value_range src xs dst)
unfolding copy_key_value_range slots_space
copy_key_value_range-Copies src dst [] e h room small used = record {
  slots = sym (append-nil dst.slots);
  offset = omega arith;
  used = omega arith;
  same = refl;
}
copy_key_value_range-Copies src dst (s ∷ xs) e h room small used =
    let dst1 = copy_slot src s dst in
    let one = copy_slot-Copies src dst s e (h 0 (omega arith)) (omega arith) small (omega arith) in
    let prefixes : src.prefix_len ≡ dst1.prefix_len = e ∙ sym (ap (λ n. n.prefix_len) one.same) in
    let rest =
      copy_key_value_range-Copies src dst1 xs prefixes (λ i less. h (suc i) (omega arith))
        (omega (arith, one.offset)) (omega (arith, one.offset)) (omega (arith, one.used)) in
    let dst2 = copy_key_value_range src xs dst1 in
    record {
      slots = rest.slots ∙ ap (λ l. l ++ xs) one.slots ∙ append_assoc dst.slots (s ∷ []) xs;
      offset = omega (arith, rest.offset, one.offset);
      used = omega (arith, rest.used, one.used);
      same = rest.same ∙ ap (with_slots dst2.slots dst2.data_offset dst2.space_used) one.same;
    }
