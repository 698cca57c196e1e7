-- ===== src/BTree/Search.antt =====
-- btree.hpp, lowerBound: the binary search between two bounds.
use cloud_project.Prelude.{
  ℕ, zero, suc, ◌+◌, ◌-◌, ◌/◌, ◌^◌, ◌≤◌, ◌<◌, ◌≡◌, inl, inr, refl, sym, arith, Bool, true, false,
  List, ltb, ltb→lt, le→ltb_false, Bool-cases, length, done, u16,
}
use mathlib.Core.Path.{subst}
use cloud_project.BTree.Keys.{head, Before, Before-trans, AreBytes}
use cloud_project.BTree.Compare.{Slot, Way, left, right, found, way, Says, way-Says}
use cloud_project.BTree.Node.{slot_at, next_lower, next_upper, is_found, search_loop}

-- The slots are in order of their keys, without doubles, each with the head of its key.
pub record AreSorted (slots : List Slot) : Type 0 where
  pub order :
      (i j : ℕ) → i < j → j < length slots → Before (slot_at slots i).key (slot_at slots j).key
  pub heads : (i : ℕ) → i < length slots → (slot_at slots i).head ≡ head (slot_at slots i).key
  pub bytes : (i : ℕ) → i < length slots → AreBytes (slot_at slots i).key
  pub few : length slots < 2 ^ 16

-- The key's place lies between the bounds.
pub record Between (key : List ℕ) (slots : List Slot) (lower upper : ℕ) : Type 0 where
  pub ordered : lower ≤ upper
  pub inside : upper ≤ length slots
  pub below : (i : ℕ) → i < lower → Before (slot_at slots i).key key
  pub above : (i : ℕ) → upper ≤ i → i < length slots → Before key (slot_at slots i).key

-- The answer: every slot before the position has a smaller key; the slot there has the key, or,
-- when the key was not found, it and all after it have greater ones.
pub record Finds (key : List ℕ) (slots : List Slot) (answer : Bool × ℕ) : Type 0 where
  pub inside : answer.1 ≤ length slots
  pub below : (i : ℕ) → i < answer.1 → Before (slot_at slots i).key key
  pub hit : answer.0 ≡ true → (answer.1 < length slots) × ((slot_at slots answer.1).key ≡ key)
  pub miss :
      answer.0 ≡ false
      → (i : ℕ) → answer.1 ≤ i
      → i < length slots
      → Before key (slot_at slots i).key

module _ (key : List ℕ) (slots : List Slot) (sorted : AreSorted slots) (bytes : AreBytes key) where
  pub below_mid :
      (mid i : ℕ)
      → mid < length slots
      → i ≤ mid
      → Before (slot_at slots mid).key key
      → Before (slot_at slots i).key key
  below_mid mid i inside le h = elim (Bool-cases (ltb i mid)) [
    | inl less ↦ Before-trans _ _ _ (sorted.order i mid (ltb→lt _ _ less) inside) h
    | inr equal ↦
        let e : i ≡ mid = ground arith in subst (λ j. Before (slot_at slots j).key key) (sym e) h
  ]

  pub above_mid :
      (mid i : ℕ)
      → i < length slots
      → mid ≤ i
      → Before key (slot_at slots mid).key
      → Before key (slot_at slots i).key
  above_mid mid i inside le h = elim (Bool-cases (ltb mid i)) [
    | inl less ↦ Before-trans _ _ _ h (sorted.order mid i (ltb→lt _ _ less) inside)
    | inr equal ↦
        let e : mid ≡ i = ground arith in subst (λ j. Before key (slot_at slots j).key) e h
  ]

  step-Between :
      (lower upper mid : ℕ) (w : Way)
      → Between key slots lower upper
      → lower ≤ mid
      → mid < upper
      → Says key (slot_at slots mid).key w
      → is_found w ≡ false
      → Between key slots (next_lower w lower mid) (next_upper w upper mid)
        × (next_upper w upper mid + 1 ≤ next_lower w lower mid + (upper - lower))
  step-Between lower upper mid left b low high says other = (
    record {
      ordered = low;
      inside = omega (arith, b.inside);
      below = b.below;
      above = λ i le inside. above_mid mid i inside le says;
    },
    omega arith,
  )
  step-Between lower upper mid right b low high says other =
      let narrow : u16 (mid + 1) ≡ mid + 1 = omega (arith, b.inside, sorted.few) in
      rw narrow (
        record {
          ordered = omega arith;
          inside = b.inside;
          below = λ i less. below_mid mid i (omega (arith, b.inside)) (omega arith) says;
          above = b.above;
        },
        omega arith,
      )
  step-Between lower upper mid found b low high says other = ground arith

  met : (lower : ℕ) → Between key slots lower lower → Finds key slots (false, lower)
  met lower b = record {
    inside = b.inside;
    below = b.below;
    hit = λ h. ground arith;
    miss = λ h i le inside. b.above i le inside;
  }

  hit-Finds :
      (mid : ℕ) (w : Way)
      → mid < length slots
      → Says key (slot_at slots mid).key w
      → is_found w ≡ true
      → Finds key slots (true, mid)
  hit-Finds mid left inside says hit = ground arith
  hit-Finds mid right inside says hit = ground arith
  hit-Finds mid found inside says hit = record {
    inside = omega arith;
    below = λ i less. subst (Before (slot_at slots i).key) says (sorted.order i mid less inside);
    hit = λ _. (inside, says);
    miss = λ h. ground arith;
  }

  way-slot_at-Says :
      (i : ℕ)
      → i < length slots
      → Says key (slot_at slots i).key (way (head key) key (slot_at slots i))
  way-slot_at-Says i inside =
      way-Says key (slot_at slots i) bytes (sorted.bytes i inside) (sorted.heads i inside)

  -- With as many rounds as there are slots between the bounds, the search ends with the answer.
  pub search_loop-Finds :
      (rounds lower upper : ℕ)
      → Between key slots lower upper
      → upper ≤ lower + rounds
      → (answer : Bool × ℕ) × (search_loop rounds (head key) key slots lower upper ≡ done answer)
        × Finds key slots answer
  unfolding search_loop
  search_loop-Finds zero lower upper b room =
      let e : upper ≡ lower = omega (arith, b.ordered) in
      (
        (false, lower),
        rw (le→ltb_false lower upper (omega arith)) refl,
        met lower (subst (Between key slots lower) e b),
      )
  search_loop-Finds (suc rounds) lower upper b room = elim (Bool-cases (ltb lower upper)) [
    | inr closed ↦
        let e : upper ≡ lower = ground (arith, b.ordered) in
        ((false, lower), rw closed refl, met lower (subst (Between key slots lower) e b))
    | inl more ↦
        let less = ltb→lt lower upper more in
        let mid : ℕ = (upper - lower) / 2 + lower in
        let says = way-slot_at-Says mid (omega (arith, b.inside)) in
        elim (Bool-cases (is_found (way (head key) key (slot_at slots mid)))) [
          | inl hit ↦
              ((true, mid), rw (more, hit) refl, hit-Finds mid _ (omega (arith, b.inside)) says hit)
          | inr other ↦
              let next = step-Between lower upper mid _ b (omega arith) (omega arith) says other in
              let rest = search_loop-Finds rounds _ _ next.0 (omega (arith, next.1)) in
              (rest.0, rw (more, other) rest.1, rest.2)
        ]
  ]
