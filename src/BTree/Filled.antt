-- ===== src/BTree/Filled.antt =====
-- btree.hpp: a node made by setFences and copyKeyValueRange, with their assertions.
use mathlib.Core.List.{append_assoc}
use cloud_project.Prelude.{
  true, false, leb, ◌&&◌, ◌||◌, ℕ, ◌+◌, ◌-◌, ◌*◌, ◌%◌, ◌^◌, ◌≤◌, ◌≡◌, refl, sym, ap, ◌∙◌, arith,
  Bool, List, [], ◌∷◌, ◌++◌, length, done, le→leb, length-append,
}
use cloud_project.BTree.Compare.{Slot}
use cloud_project.BTree.Node.{Node, count, prefix, page_size}
use cloud_project.BTree.Update.{
  fenced_node, copied, stores_fit, set_fences, insert_fence, fresh_node, common_len, slots_end,
  free_space, copy_key_value_range,
}
use cloud_project.BTree.Valid.{slots_space}
use cloud_project.BTree.Entries.{
  Entry, entries, slot_of, slots_of, Appends, with_slots, copy_key_value_range-Appends, entry_of,
  with_slot, with_slot-Appends, copy_slot_lem,
}
use cloud_project.BTree.Built.{Built, length-slots_of}

-- The entries and the fences fit in a page.
abbrev pub Fits : (lower upper : List ℕ) → List Entry → Type 0
Fits lower upper es =
    112
      + 10 * length es
      + length lower
      + length upper
      + slots_space (slots_of (common_len lower upper) es)
    ≤ page_size

-- The target of the copies.
abbrev pub target : (lower upper : List ℕ) (is_leaf : Bool) (neighbour : ℕ) → Node
target lower upper is_leaf neighbour = set_fences lower upper (fresh_node is_leaf neighbour)

pub fenced_node_lem :
    (lower upper : List ℕ) (is_leaf : Bool) (neighbour : ℕ)
    → 112 + length lower + length upper ≤ page_size
    → fenced_node lower upper (fresh_node is_leaf neighbour)
      ≡ done (target lower upper is_leaf neighbour)
unfolding fenced_node free_space insert_fence
fenced_node_lem lower upper is_leaf neighbour room =
    let first : length lower ≤ (4096 + 2 ^ 32 - 112) % 2 ^ 32 = omega arith in
    let second : length upper ≤ ((4096 + 2 ^ 16 - length lower) % 2 ^ 16 + 2 ^ 32 - 112) % 2 ^ 32 =
      omega arith in
    ground arith

both_true : (a b c : Bool) → b ≡ true → c ≡ true → ((a || b) && c) ≡ true
both_true true b c e f = f
both_true false b c e f = rw (e, f) refl

-- Every copy leaves room for the slots before it.
stores_fit-room :
    (src dst : Node) (xs : List Slot)
    → length (prefix src) ≡ src.prefix_len
    → 112
        + 10 * (count dst + length (entries src xs))
        + slots_space (slots_of dst.prefix_len (entries src xs))
      ≤ dst.data_offset
    → dst.data_offset + dst.space_used ≡ page_size
    → stores_fit src xs dst ≡ true
unfolding stores_fit slots_space
stores_fit-room src dst [] whole room full = refl
stores_fit-room src dst (s ∷ xs) whole room full =
    let x = slot_of dst.prefix_len (entry_of src s) in
    let dst1 = with_slot x dst in
    let one = with_slot-Appends (entry_of src s) dst (omega arith) (omega arith) (omega arith) in
    let fits : leb (112 + 10 * count dst) dst1.data_offset ≡ true =
      le→leb _ _ (omega (arith, one.offset)) in
    let rest =
      stores_fit-room src dst1 xs whole
        (omega (arith, one.offset, length-append dst.slots (x ∷ [])))
        (omega (arith, one.offset, one.used)) in
    ap
      (λ m.
        (leb src.prefix_len dst.prefix_len || leb (112 + 10 * count dst) m.data_offset)
        && stores_fit src xs m)
      (copy_slot_lem src dst s whole)
    ∙ both_true (leb src.prefix_len dst.prefix_len) _ _ fits rest

pub copied-Appends :
    (src dst : Node) (xs : List Slot)
    → length (prefix src) ≡ src.prefix_len
    → 112
        + 10 * (count dst + length (entries src xs))
        + slots_space (slots_of dst.prefix_len (entries src xs))
      ≤ dst.data_offset
    → dst.data_offset + dst.space_used ≡ page_size
    → (dst' : Node) × (copied src xs dst ≡ done dst') × Appends (entries src xs) dst dst'
unfolding copied
copied-Appends src dst xs whole room full =
    let dst' = copy_key_value_range src xs dst in
    let a =
      copy_key_value_range-Appends src dst xs whole (omega arith) (omega arith) (omega arith) in
    let fits : slots_end dst' ≤ dst'.data_offset = omega (
      arith,
      ap length a.slots,
      length-append dst.slots (slots_of dst.prefix_len (entries src xs)),
      length-slots_of dst.prefix_len (entries src xs),
      a.offset,
    ) in
    (dst', rw (stores_fit-room src dst xs whole room full, le→leb _ _ fits) refl, a)

-- A second copy behind a first one.
pub slots_of-append :
    (p : ℕ) (es fs : List Entry) → slots_of p (es ++ fs) ≡ slots_of p es ++ slots_of p fs
slots_of-append p [] fs = refl
slots_of-append p (e ∷ es) fs = ap (◌∷◌ (slot_of p e)) (slots_of-append p es fs)

pub slots_space-append :
    (xs ys : List Slot) → slots_space (xs ++ ys) ≡ slots_space xs + slots_space ys
unfolding slots_space
slots_space-append [] ys = omega arith
slots_space-append (x ∷ xs) ys = omega (arith, slots_space-append xs ys)

pub Appends-trans :
    (es fs : List Entry) (m m1 m2 : Node)
    → Appends es m m1
    → Appends fs m1 m2
    → Appends (es ++ fs) m m2
Appends-trans es fs m m1 m2 a b =
    let p : m1.prefix_len ≡ m.prefix_len = ap (λ x. x.prefix_len) a.same in
    let both = slots_of-append m.prefix_len es fs in
    let fs_is : slots_of m1.prefix_len fs ≡ slots_of m.prefix_len fs = ap (λ q. slots_of q fs) p in
    let space : slots_space (slots_of m.prefix_len (es ++ fs))
        ≡ slots_space (slots_of m.prefix_len es) + slots_space (slots_of m1.prefix_len fs) =
      ap slots_space both
      ∙ slots_space-append (slots_of m.prefix_len es) (slots_of m.prefix_len fs)
      ∙ ap (λ (l : List Slot). slots_space (slots_of m.prefix_len es) + slots_space l)
          (sym fs_is) in
    record {
      slots =
          b.slots
          ∙ ap (λ l. l ++ slots_of m1.prefix_len fs) a.slots
          ∙ append_assoc m.slots (slots_of m.prefix_len es) (slots_of m1.prefix_len fs)
          ∙ ap (λ l. m.slots ++ (slots_of m.prefix_len es ++ l)) fs_is
          ∙ ap (λ l. m.slots ++ l) (sym both);
      offset = omega (arith, a.offset, b.offset, space);
      used = omega (arith, a.used, b.used, space);
      same = b.same ∙ ap (with_slots m2.slots m2.data_offset m2.space_used) a.same;
    }

pub target-Built :
    (lower upper : List ℕ) (es : List Entry) (is_leaf : Bool) (neighbour : ℕ) (m : Node)
    → Fits lower upper es
    → Appends es (target lower upper is_leaf neighbour) m
    → Built lower upper es m
unfolding set_fences insert_fence
target-Built lower upper es is_leaf neighbour m fits a =
    let p : m.prefix_len ≡ common_len lower upper = ap (λ x. x.prefix_len) a.same in
    record {
      slots = a.slots ∙ ap (λ q. slots_of q es) (sym p);
      lower_is = ap (λ x. x.lower_fence) a.same;
      upper_is = ap (λ x. x.upper_fence) a.same;
      common = p;
      hinted = ap (λ x. length x.hint) a.same;
      used = omega (arith, a.used, ap slots_space a.slots);
      full = omega (arith, a.used, a.offset);
      apart =
          omega (arith, a.offset, ap length a.slots, length-slots_of (common_len lower upper) es);
    }

-- The link to the neighbour is no part of that.
pub Built-neighbour :
    (lower upper : List ℕ) (es : List Entry) (m : Node) (pid : ℕ)
    → Built lower upper es m
    → Built lower upper es (record m { neighbour = pid })
Built-neighbour lower upper es m pid b = record {
  slots = b.slots;
  lower_is = b.lower_is;
  upper_is = b.upper_is;
  common = b.common;
  hinted = b.hinted;
  used = b.used;
  full = b.full;
  apart = b.apart;
}
