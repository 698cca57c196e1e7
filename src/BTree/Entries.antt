-- ===== src/BTree/Entries.antt =====
-- btree.hpp, copyKeyValueRange: what is copied, as whole keys with their payloads, also when the
-- prefix of the target is another one.
use mathlib.Core.List.{append_assoc, append-nil}
use cloud_project.Prelude.{
  ℕ, zero, suc, ◌+◌, ◌-◌, ◌^◌, ◌≤◌, ◌<◌, ◌≡◌, refl, sym, ap, ◌∙◌, arith, inl, inr, Bool-cases, leb,
  leb→le, List, [], ◌∷◌, ◌++◌, length, drop,
}
use cloud_project.BTree.Compare.{Slot}
use cloud_project.BTree.Node.{Node, prefix}
use cloud_project.BTree.Update.{
  make_slot, take_space, insert_at, with_key_value, copy_slot, copy_key_value_range,
}
use cloud_project.BTree.Valid.{slot_space, slots_space}

-- A whole key and its payload.
abbrev pub Entry : Type 0
Entry = List ℕ × List ℕ

abbrev pub entry_of : Node → Slot → Entry
entry_of n s = (prefix n ++ s.key, s.payload)

abbrev pub entries : Node → List Slot → List Entry
entries n [] = []
entries n (s ∷ xs) = entry_of n s ∷ entries n xs

-- The slot of an entry in a node with a prefix of length `p`.
abbrev pub slot_of : (p : ℕ) → Entry → Slot
slot_of p e = make_slot (drop p e.0) e.1

abbrev pub slots_of : (p : ℕ) → List Entry → List Slot
slots_of p [] = []
slots_of p (e ∷ es) = slot_of p e ∷ slots_of p es

drop-append : (k : ℕ) (xs ys : List ℕ) → length xs ≤ k → drop k (xs ++ ys) ≡ drop (k - length xs) ys
drop-append k [] ys h = ap (λ (n : ℕ). drop n ys) (omega arith)
drop-append zero (x ∷ xs) ys h = absurd (omega arith)
drop-append (suc k) (x ∷ xs) ys h =
    drop-append k xs ys (omega arith) ∙ ap (λ (n : ℕ). drop n ys) (omega arith)

insert_at_end : (x : Slot) (xs : List Slot) → insert_at (length xs) x xs ≡ xs ++ (x ∷ [])
insert_at_end x [] = refl
insert_at_end x (y ∷ xs) = ap (◌∷◌ y) (insert_at_end x xs)

-- The target with one more slot.
abbrev pub with_slot : Slot → Node → Node
with_slot x dst = record (take_space (slot_space x) dst) { slots = dst.slots ++ (x ∷ []) }

pub copy_slot_lem :
    (src dst : Node) (s : Slot)
    → length (prefix src) ≡ src.prefix_len
    → copy_slot src s dst ≡ with_slot (slot_of dst.prefix_len (entry_of src s)) dst
unfolding copy_slot with_key_value make_slot
copy_slot_lem src dst s whole = elim (Bool-cases (leb src.prefix_len dst.prefix_len)) [
  | inl grows ↦
      let e : drop dst.prefix_len (prefix src ++ s.key)
          ≡ drop (dst.prefix_len - src.prefix_len) s.key =
        drop-append dst.prefix_len (prefix src) s.key (omega (arith, leb→le _ _ grows, whole))
        ∙ ap (λ (n : ℕ). drop (dst.prefix_len - n) s.key) whole in
      rw (grows, e) refl
  | inr shrinks ↦ rw (shrinks, insert_at_end _ dst.slots) refl
]

abbrev pub with_slots : List Slot → (offset used : ℕ) → Node → Node
with_slots slots offset used n = record n { slots = slots; data_offset = offset; space_used = used }

-- What a copy leaves: the slots of the entries behind those of the target, and their space taken.
pub record Appends (es : List Entry) (dst dst' : Node) : Type 0 where
  pub slots : dst'.slots ≡ dst.slots ++ slots_of dst.prefix_len es
  pub offset : dst'.data_offset + slots_space (slots_of dst.prefix_len es) ≡ dst.data_offset
  pub used : dst'.space_used ≡ dst.space_used + slots_space (slots_of dst.prefix_len es)
  pub same : dst' ≡ with_slots dst'.slots dst'.data_offset dst'.space_used dst

pub with_slot-Appends :
    (e : Entry) (dst : Node)
    → slot_space (slot_of dst.prefix_len e) ≤ dst.data_offset
    → dst.data_offset < 2 ^ 16
    → dst.space_used + slot_space (slot_of dst.prefix_len e) < 2 ^ 16
    → Appends (e ∷ []) dst (with_slot (slot_of dst.prefix_len e) dst)
unfolding slots_space
with_slot-Appends e dst room small used = record {
  slots = refl;
  offset = omega arith;
  used = omega arith;
  same = refl;
}

pub copy_key_value_range-Appends :
    (src dst : Node) (xs : List Slot)
    → length (prefix src) ≡ src.prefix_len
    → slots_space (slots_of dst.prefix_len (entries src xs)) ≤ dst.data_offset
    → dst.data_offset < 2 ^ 16
    → dst.space_used + slots_space (slots_of dst.prefix_len (entries src xs)) < 2 ^ 16
    → Appends (entries src xs) dst (copy_key_value_range src xs dst)
unfolding copy_key_value_range slots_space
copy_key_value_range-Appends src dst [] whole room small used = record {
  slots = sym (append-nil dst.slots);
  offset = omega arith;
  used = omega arith;
  same = refl;
}
copy_key_value_range-Appends src dst (s ∷ xs) whole room small used =
    let x = slot_of dst.prefix_len (entry_of src s) in
    let dst1 = with_slot x dst in
    let one = with_slot-Appends (entry_of src s) dst (omega arith) small (omega arith) in
    let rest =
      copy_key_value_range-Appends src dst1 xs whole (omega (arith, one.offset))
        (omega (arith, one.offset)) (omega (arith, one.used)) in
    rw (copy_slot_lem src dst s whole) (record {
      slots =
          rest.slots ∙ append_assoc dst.slots (x ∷ []) (slots_of dst.prefix_len (entries src xs));
      offset = omega (arith, rest.offset, one.offset);
      used = omega (arith, rest.used, one.used);
      same = rest.same;
    })
