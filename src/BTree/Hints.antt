-- ===== src/BTree/Hints.antt =====
-- btree.hpp, searchHint: the hints leave the bounds between which the key's place lies.
use native.Mathlib.Nat.{mul-le-mul_left, mul-le-mul_right, mul_comm, mul-add}
use cloud_project.Prelude.{
  ℕ, zero, suc, ◌+◌, ◌*◌, ◌≤◌, ◌<◌, ◌≡◌, inl, inr, ◌∙◌, arith, List, ltb, ltb→lt, Bool-cases,
  if◌then◌else◌, length, get_or, u16,
}
use mathlib.Core.Path.{subst}
use cloud_project.BTree.Keys.{head, Before, Before-trans, Before-irrefl, AreBytes, head-Before}
use cloud_project.BTree.Compare.{Slot}
use cloud_project.BTree.Node.{Node, slot_at, hint_count, distance, search_hint}
use cloud_project.BTree.Search.{AreSorted, Between, below_mid, above_mid}
use cloud_project.BTree.Scans.{Hinted, scans-Hinted}

-- Each hint is the head of the slot at its multiple of the distance.
pub record AreHints (slots : List Slot) (hint : List ℕ) : Type 0 where
  pub each :
      (i : ℕ)
      → i < hint_count
      → get_or hint i 0 ≡ (slot_at slots (distance (length slots) * (i + 1))).head

Before-head : (xs ys : List ℕ) → AreBytes xs → AreBytes ys → Before xs ys → head xs ≤ head ys
Before-head xs ys bx by h = elim (Bool-cases (ltb (head ys) (head xs))) [
  | inl less ↦
      absurd
        (Before-irrefl xs (Before-trans xs ys xs h (head-Before ys xs by bx (ltb→lt _ _ less))))
  | inr fine ↦ ground arith
]

module _ (key : List ℕ) (n : Node) (sorted : AreSorted n.slots) (bytes : AreBytes key)
    (hints : AreHints n.slots n.hint) (many : hint_count * 2 < length n.slots) where
  abbrev dist : ℕ
  dist = distance (length n.slots)

  mid_inside : (k : ℕ) → k < hint_count → dist * (k + 1) < length n.slots
  mid_inside k less = let le : k + 1 ≤ 16 = omega arith in omega (arith, mul_le dist (k + 1) 16 le)
    where
      mul_le : (d a b : ℕ) → a ≤ b → d * a ≤ d * b
      mul_le d a b h = mul-le-mul_left d h

  -- A hint is the head of its slot's key.
  hint_lem :
      (k : ℕ) → k < hint_count → get_or n.hint k 0 ≡ head (slot_at n.slots (dist * (k + 1))).key
  hint_lem k less = hints.each k less ∙ sorted.heads (dist * (k + 1)) (mid_inside k less)

  below_hint :
      (i : ℕ)
      → i ≤ hint_count
      → ((k : ℕ) → k < i → get_or n.hint k 0 < head key)
      → (s : ℕ) → s < i * dist
      → Before (slot_at n.slots s).key key
  below_hint zero le smaller s h = absurd (omega arith)
  below_hint (suc i) le smaller s h =
      let inside = mid_inside i (omega arith) in
      below_mid key n.slots sorted bytes (dist * (i + 1)) s inside
        (omega (arith, mul_comm dist (i + 1)))
        (head-Before (slot_at n.slots (dist * (i + 1))).key key (sorted.bytes _ inside) bytes
          (omega (arith, hint_lem i (omega arith), smaller i (omega arith))))

  hint_grows : (i j : ℕ) → i ≤ j → j < hint_count → get_or n.hint i 0 ≤ get_or n.hint j 0
  hint_grows i j le less = elim (Bool-cases (ltb i j)) [
    | inr equal ↦
        let e : i ≡ j = ground arith in
        subst (λ k. get_or n.hint i 0 ≤ get_or n.hint k 0) e (omega arith)
    | inl smaller ↦
        let inside = mid_inside j less in
        let inside_i = mid_inside i (omega arith) in
        omega (
          arith,
          hint_lem i (omega arith),
          hint_lem j less,
          Before-head _ _ (sorted.bytes _ inside_i) (sorted.bytes _ inside) (
              sorted.order (dist * (i + 1)) (dist * (j + 1)) (apart i j (ltb→lt _ _ smaller))
                inside),
        )
  ]
    where
      apart : (a b : ℕ) → a < b → dist * (a + 1) < dist * (b + 1)
      apart a b h =
          let le : a + 1 + 1 ≤ b + 1 = omega arith in
          omega (arith, mul-le-mul_left dist le, mul-add dist (a + 1) 1)

  above_hint :
      (j : ℕ)
      → j < hint_count
      → head key < get_or n.hint j 0
      → (s : ℕ) → (j + 1) * dist ≤ s
      → s < length n.slots
      → Before key (slot_at n.slots s).key
  above_hint j less more s h inside =
      let inside_j = mid_inside j less in
      above_mid key n.slots sorted bytes (dist * (j + 1)) s inside
        (omega (arith, mul_comm dist (j + 1)))
        (head-Before key (slot_at n.slots (dist * (j + 1))).key bytes (sorted.bytes _ inside_j)
          (omega (arith, hint_lem j less)))

  Hinted-Between :
      (i j : ℕ)
      → Hinted (head key) n.hint i j
      → Between key n.slots
          (u16 (i * dist))
          (if ltb j hint_count then u16 ((j + 1) * dist) else length n.slots)
  Hinted-Between i j h =
      let to : i ≤ 16 = omega (arith, h.first, h.last) in
      let lower : u16 (i * dist) ≡ i * dist = omega (arith, mul-le-mul_right dist to, sorted.few) in
      rw lower (elim (Bool-cases (ltb j hint_count)) [
        | inl less ↦
            let j_less = ltb→lt j hint_count less in
            let next : j + 1 ≤ 16 = omega arith in
            let ahead : i ≤ j + 1 = omega (arith, h.first) in
            let upper : u16 ((j + 1) * dist) ≡ (j + 1) * dist =
              omega (arith, mul-le-mul_right dist next, sorted.few) in
            rw (less, upper)
              (record {
                ordered = mul-le-mul_right dist ahead;
                inside = omega (arith, mul-le-mul_right dist next);
                below = below_hint i to h.smaller;
                above = above_hint j j_less (
                    omega (
                      arith,
                      h.at_first (omega (arith, h.first)),
                      hint_grows i j h.first j_less,
                      h.other j_less,
                    ));
              })
        | inr last ↦ rw last (record {
          ordered = omega (arith, mul-le-mul_right dist to);
          inside = omega arith;
          below = below_hint i to h.smaller;
          above = λ s le inside. absurd (omega arith);
        })
      ])

-- Whatever the hints are made from, the key's place lies between the two bounds of the search.
pub search_hint-Between :
    (key : List ℕ) (n : Node)
    → AreSorted n.slots
    → AreBytes key
    → (hint_count * 2 < length n.slots → AreHints n.slots n.hint)
    → Between key n.slots (search_hint (head key) n).0 (search_hint (head key) n).1
unfolding search_hint
search_hint-Between key n sorted bytes hints =
    elim (Bool-cases (ltb (hint_count * 2) (length n.slots))) [
      | inl many ↦ rw many (
          Hinted-Between key n sorted bytes (hints (ltb→lt _ _ many)) (ltb→lt _ _ many) _ _
            (scans-Hinted (head key) n.hint))
      | inr few ↦ rw few (record {
        ordered = omega arith;
        inside = omega arith;
        below = λ i h. absurd (omega arith);
        above = λ i le inside. absurd (omega arith);
      })
    ]
