-- ===== src/BTree/Separator.antt =====
-- btree.hpp, findSeparator and getSep: where a node is split, and by which key.
use mathlib.Core.Path.{subst}
use cloud_project.Prelude.{
  ℕ, suc, ◌+◌, ◌-◌, ◌/◌, ◌<◌, ◌≡◌, ◌⊎◌, inl, inr, refl, sym, arith, Bool, true, false, not, ◌&&◌,
  List, [], ◌∷◌, ◌++◌, ltb, ltb→lt, ◌==◌, ==_iff, Bool-cases, if◌then◌else◌, length, take,
}
use cloud_project.BTree.Keys.{Before, Before-trans, Before-prefix}
use cloud_project.BTree.Node.{Node, count, prefix, slot_at, scan}
use cloud_project.BTree.Update.{common_len}
use cloud_project.BTree.LowerBound.{IsSearchable, full_key, take_all}
use cloud_project.BTree.Scans.{scan-Stops}

pub record SeparatorInfo : Type 0 where
  pub len : ℕ
  pub slot : ℕ
  pub is_truncated : Bool

unfoldable pub common_prefix : (slot_a slot_b : ℕ) → Node → ℕ
common_prefix slot_a slot_b n = common_len (slot_at n.slots slot_a).key (slot_at n.slots slot_b).key

-- The slot that a leaf is split after.
unfoldable pub best_slot : (split_ordered : Bool) → Node → ℕ
best_slot split_ordered n =
    let c = count n in
    let lower = c / 2 - c / 16 in
    let upper = c / 2 in
    let best_prefix_len = common_prefix lower 0 n in
    if split_ordered
    then c - 2
    else if ltb 16 c
    then (if best_prefix_len == common_prefix (upper - 1) 0 n
        then lower
        else scan (λ i. not (common_prefix i 0 n == best_prefix_len)) (upper - (lower + 1))
            (lower + 1))
    else (c - 1) / 2

-- Whether the separator can be cut behind the first byte by which the two keys differ.
unfoldable pub truncates : (slot : ℕ) → Node → Bool
truncates slot n =
    let common = common_prefix slot (slot + 1) n in
    ltb (slot + 1) (count n)
    && ltb common (length (slot_at n.slots slot).key)
    && ltb (common + 1) (length (slot_at n.slots (slot + 1)).key)

-- The whole key of a slot as the separator.
abbrev pub whole : Node → ℕ → SeparatorInfo
whole n slot = record {
  len = n.prefix_len + length (slot_at n.slots slot).key;
  slot = slot;
  is_truncated = false;
}

abbrev pub truncated : Node → ℕ → SeparatorInfo
truncated n slot = record {
  len = n.prefix_len + common_prefix slot (slot + 1) n + 1;
  slot = slot;
  is_truncated = true;
}

unfoldable pub find_separator : (split_ordered : Bool) → Node → SeparatorInfo
find_separator split_ordered n =
    let best = best_slot split_ordered n in
    if not n.is_leaf
    then whole n (count n / 2)
    else if truncates best n
    then truncated n best
    else whole n best

unfoldable pub get_sep : SeparatorInfo → Node → List ℕ
get_sep info n =
    prefix n
    ++ take (info.len - n.prefix_len)
        (slot_at n.slots (if info.is_truncated then info.slot + 1 else info.slot)).key

-- The first bytes of the greater key, up to the first one that differs, stand between the two.
common-Before :
    (xs ys : List ℕ)
    → Before xs ys
    → common_len xs ys < length xs
    → suc (common_len xs ys) < length ys
    → Before xs (take (suc (common_len xs ys)) ys) × Before (take (suc (common_len xs ys)) ys) ys
unfolding common_len
common-Before [] ys h a b = absurd (omega arith)
common-Before (x ∷ xs) [] h a b = absurd h
common-Before (x ∷ xs) (y ∷ ys) h a b = elim (Bool-cases (x == y)) [
  | inl equal ↦
      let e : x ≡ y = (==_iff x y).0 equal in
      let rest = common-Before xs ys (tails x y xs ys e h) (ground arith) (ground arith) in
      rw equal (inr (e, rest.0), inr (refl, rest.1))
  | inr other ↦ rw other (heads x y xs ys other h, inr (refl, shorter ys (ground arith)))
]
  where
    tails : (x y : ℕ) (xs ys : List ℕ) → x ≡ y → Before (x ∷ xs) (y ∷ ys) → Before xs ys
    tails x y xs ys e (inl h) = absurd (omega arith)
    tails x y xs ys e (inr h) = h.1

    heads :
        (x y : ℕ) (xs ys : List ℕ)
        → (x == y) ≡ false
        → Before (x ∷ xs) (y ∷ ys)
        → Before (x ∷ xs) (y ∷ [])
    heads x y xs ys ne (inl h) = inl h
    heads x y xs ys ne (inr h) = absurd (ground arith)

    shorter : (ys : List ℕ) → 0 < length ys → Before [] ys
    shorter [] h = absurd (omega arith)
    shorter (y ∷ ys) h = tt

-- The separator is not before the slot's key, and before every key after it.
pub record Separates (n : Node) (sep : List ℕ) (slot : ℕ) : Type 0 where
  pub inside : slot < count n
  pub upper : Before (full_key n slot) sep ⊎ (full_key n slot ≡ sep)
  pub lower : (i : ℕ) → slot < i → i < count n → Before sep (full_key n i)

module _ (n : Node) (slot : ℕ) (s : IsSearchable n) where
  whole-Separates : slot < count n → Separates n (get_sep (whole n slot) n) slot
  unfolding get_sep
  whole-Separates inside =
      let e : n.prefix_len + length (slot_at n.slots slot).key - n.prefix_len
          ≡ length (slot_at n.slots slot).key =
        omega arith in
      rw (e, take_all (slot_at n.slots slot).key)
        (record {
          inside = inside;
          upper = inr refl;
          lower =
              λ i less i_inside. Before-prefix (prefix n) _ _ (s.sorted.order slot i less i_inside);
        })

  truncates_lem :
      truncates slot n ≡ true
      → (slot + 1 < count n)
        × (common_prefix slot (slot + 1) n < length (slot_at n.slots slot).key)
        × (suc (common_prefix slot (slot + 1) n) < length (slot_at n.slots (slot + 1)).key)
  unfolding truncates
  truncates_lem h = ground arith

  truncated-Separates : truncates slot n ≡ true → Separates n (get_sep (truncated n slot) n) slot
  unfolding get_sep common_prefix
  truncated-Separates fits =
      let f = truncates_lem fits in
      let a = (slot_at n.slots slot).key in
      let b = (slot_at n.slots (slot + 1)).key in
      let between = common-Before a b (s.sorted.order slot (slot + 1) (omega arith) f.0) f.1 f.2 in
      let e : n.prefix_len + common_len a b + 1 - n.prefix_len ≡ suc (common_len a b) =
        omega arith in
      rw e (record {
        inside = omega (arith, f.0);
        upper = inl (Before-prefix (prefix n) _ _ between.0);
        lower = λ i less inside. Before-prefix (prefix n) _ _ (elim (Bool-cases (i == slot + 1)) [
          | inl next ↦
              let at_next : i ≡ slot + 1 = (==_iff i (slot + 1)).0 next in
              subst (λ j. Before (take (suc (common_len a b)) b) (slot_at n.slots j).key)
                (sym at_next) between.1
          | inr later ↦
              Before-trans _ _ _ between.1 (s.sorted.order (slot + 1) i (ground arith) inside)
        ]);
      })

best_slot_inside :
    (split_ordered : Bool) (n : Node) → 1 < count n → best_slot split_ordered n < count n
unfolding best_slot
best_slot_inside true n some_slots = omega arith
best_slot_inside false n some_slots = elim (Bool-cases (ltb 16 (count n))) [
  | inr few ↦ rw few (omega arith)
  | inl many ↦
      rw many
        (elim (Bool-cases
          (common_prefix (count n / 2 - count n / 16) 0 n == common_prefix (count n / 2 - 1) 0 n)) [
            | inl even ↦ rw even (omega arith)
            | inr uneven ↦ rw uneven (bounded (ltb→lt 16 (count n) many))
          ])
]
  where
    lower : ℕ
    lower = count n / 2 - count n / 16

    test : ℕ → Bool
    test i = not (common_prefix i 0 n == common_prefix lower 0 n)

    bounded : 16 < count n → scan test (count n / 2 - (lower + 1)) (lower + 1) < count n
    bounded h = omega (arith, (scan-Stops test (count n / 2 - (lower + 1)) (lower + 1)).to)

-- In a searchable node with more than one slot, leaf or not, the separator is not before the key of
-- the slot that the node is split after, and before all keys behind that, also when it has been cut.
pub find_separator-Separates :
    (split_ordered : Bool) (n : Node)
    → IsSearchable n
    → 1 < count n
    → Separates n (get_sep (find_separator split_ordered n) n) (find_separator split_ordered n).slot
unfolding find_separator
find_separator-Separates split_ordered n s some_slots = elim (Bool-cases (not n.is_leaf)) [
  | inl inner ↦ rw inner (whole-Separates n (count n / 2) s (omega arith))
  | inr leaf ↦ rw leaf (elim (Bool-cases (truncates (best_slot split_ordered n) n)) [
    | inl cut ↦ rw cut (truncated-Separates n (best_slot split_ordered n) s cut)
    | inr uncut ↦ rw uncut (
        whole-Separates n (best_slot split_ordered n) s
          (best_slot_inside split_ordered n some_slots))
  ])
]
