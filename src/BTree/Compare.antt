-- ===== src/BTree/Compare.antt =====
-- btree.hpp: how the search compares a key with a slot's: by the heads, by the common bytes, and by
-- the lengths.
use cloud_project.Prelude.{
  ℕ, zero, suc, ◌≤◌, ◌≡◌, ◌⊎◌, inl, inr, refl, sym, arith, List, [], ◌∷◌, if◌then◌else◌, ◌==◌,
  Bool-cases, length, ltb, ltb→lt, ==_iff, true, false,
}
use cloud_project.Prelude.Int.{ℤ, pos, ltb_ℤ}
use cloud_project.BTree.Keys.{head, cust_memcmp, Before, AreBytes, head-Before}

pub record Slot : Type 0 where
  pub head : ℕ
  pub key : List ℕ
  pub payload : List ℕ

abbrev pub least : ℕ → ℕ → ℕ
least a b = if ltb a b then a else b

-- Where the search goes from a slot.
pub data Way : Type 0 where
  left : Way
  right : Way
  found : Way

unfoldable pub by_length : (key_len slot_len : ℕ) → Way
by_length key_len slot_len =
    if ltb key_len slot_len then left else if ltb slot_len key_len then right else found

unfoldable pub by_bytes : (key slot_key : List ℕ) → Way
by_bytes key slot_key =
    let cmp = cust_memcmp key slot_key (least (length key) (length slot_key)) in
    if ltb_ℤ cmp (pos 0)
    then left
    else if ltb_ℤ (pos 0) cmp
    then right
    else by_length (length key) (length slot_key)

unfoldable pub way : (key_head : ℕ) (key : List ℕ) → Slot → Way
way key_head key slot =
    if ltb key_head slot.head
    then left
    else if ltb slot.head key_head
    then right
    else by_bytes key slot.key

-- What a way says of the two keys.
abbrev pub Says : (key slot_key : List ℕ) → Way → Type 0
Says key slot_key left = Before key slot_key
Says key slot_key right = Before slot_key key
Says key slot_key found = slot_key ≡ key

-- What the sign of the comparison of the first bytes says.
record Signs (xs ys : List ℕ) (cmp : ℤ) : Type 0 where
  minus : ltb_ℤ cmp (pos 0) ≡ true → Before xs ys
  plus : ltb_ℤ (pos 0) cmp ≡ true → Before ys xs
  none :
      ltb_ℤ cmp (pos 0) ≡ false
      → ltb_ℤ (pos 0) cmp ≡ false
      → Says xs ys (by_length (length xs) (length ys))

by_length-suc : (a b : ℕ) → by_length (suc a) (suc b) ≡ by_length a b
unfolding by_length
by_length-suc a b = ground arith

by_length-zero : by_length 0 0 ≡ found
unfolding by_length
by_length-zero = refl

by_length-shorter : (n : ℕ) → by_length 0 (suc n) ≡ left
unfolding by_length
by_length-shorter n = ground arith

by_length-longer : (n : ℕ) → by_length (suc n) 0 ≡ right
unfolding by_length
by_length-longer n = ground arith

cons-Says : (x y : ℕ) (xs ys : List ℕ) (w : Way) → x ≡ y → Says xs ys w → Says (x ∷ xs) (y ∷ ys) w
cons-Says x y xs ys left e h = inr (e, h)
cons-Says x y xs ys right e h = inr (sym e, h)
cons-Says x y xs ys found e h = rw (e, h) refl

cons-Signs :
    (x y : ℕ) (xs ys : List ℕ) (cmp : ℤ) → x ≡ y → Signs xs ys cmp → Signs (x ∷ xs) (y ∷ ys) cmp
cons-Signs x y xs ys cmp e s = record {
  minus = λ h. inr (e, s.minus h);
  plus = λ h. inr (sym e, s.plus h);
  none = λ h k.
      rw (by_length-suc (length xs) (length ys))
        (cons-Says x y xs ys (by_length (length xs) (length ys)) e (s.none h k));
}

cust_memcmp-Signs :
    (xs ys : List ℕ) (num : ℕ)
    → num ≤ length xs
    → num ≤ length ys
    → (num ≡ length xs) ⊎ (num ≡ length ys)
    → Signs xs ys (cust_memcmp xs ys num)
unfolding cust_memcmp
cust_memcmp-Signs [] [] zero a b c = record {
  minus = λ h. ground arith;
  plus = λ h. ground arith;
  none = λ h k. rw by_length-zero refl;
}
cust_memcmp-Signs [] (y ∷ ys) zero a b c = record {
  minus = λ h. tt;
  plus = λ h. ground arith;
  none = λ h k. rw (by_length-shorter (length ys)) tt;
}
cust_memcmp-Signs (x ∷ xs) [] zero a b c = record {
  minus = λ h. ground arith;
  plus = λ h. tt;
  none = λ h k. rw (by_length-longer (length xs)) tt;
}
cust_memcmp-Signs (x ∷ xs) (y ∷ ys) zero a b (inl c) = absurd (omega arith)
cust_memcmp-Signs (x ∷ xs) (y ∷ ys) zero a b (inr c) = absurd (omega arith)
cust_memcmp-Signs [] ys (suc num) a b c = absurd (omega arith)
cust_memcmp-Signs (x ∷ xs) [] (suc num) a b c = absurd (omega arith)
cust_memcmp-Signs (x ∷ xs) (y ∷ ys) (suc num) a b c = elim (Bool-cases (x == y)) [
  | inl equal ↦ rw equal (
      cons-Signs x y xs ys _ ((==_iff x y).0 equal)
        (cust_memcmp-Signs xs ys num (omega arith) (omega arith) (shorter c)))
  | inr other ↦ rw other (record {
    minus = λ h. inl (ground arith);
    plus = λ h. inl (ground arith);
    none = λ h k. absurd (ground arith);
  })
]
  where
    shorter :
        (suc num ≡ suc (length xs)) ⊎ (suc num ≡ suc (length ys))
        → (num ≡ length xs) ⊎ (num ≡ length ys)
    shorter (inl e) = inl (omega arith)
    shorter (inr e) = inr (omega arith)

least_bounds : (a b : ℕ) → (least a b ≤ a) × (least a b ≤ b) × ((least a b ≡ a) ⊎ (least a b ≡ b))
least_bounds a b = ground arith

by_bytes-Says : (key slot_key : List ℕ) → Says key slot_key (by_bytes key slot_key)
unfolding by_bytes
by_bytes-Says key slot_key =
    let bounds = least_bounds (length key) (length slot_key) in
    let s =
      cust_memcmp-Signs key slot_key (least (length key) (length slot_key)) bounds.0 bounds.1
        bounds.2 in
    elim (Bool-cases
      (ltb_ℤ (cust_memcmp key slot_key (least (length key) (length slot_key))) (pos 0))) [
        | inl minus ↦ rw minus (s.minus minus)
        | inr not_minus ↦
            rw not_minus
              (elim (Bool-cases
                (ltb_ℤ (pos 0) (cust_memcmp key slot_key (least (length key) (length slot_key))))) [
                  | inl plus ↦ rw plus (s.plus plus)
                  | inr not_plus ↦ rw not_plus (s.none not_minus not_plus)
                ])
      ]

-- The comparison with a slot, whose head is that of its key, tells the order of the two keys.
pub way-Says :
    (key : List ℕ) (slot : Slot)
    → AreBytes key
    → AreBytes slot.key
    → slot.head ≡ head slot.key
    → Says key slot.key (way (head key) key slot)
unfolding way
way-Says key slot bytes slot_bytes e = elim (Bool-cases (ltb (head key) slot.head)) [
  | inl less ↦
      rw less (head-Before key slot.key bytes slot_bytes (omega (arith, e, ltb→lt _ _ less)))
  | inr not_less ↦ rw not_less (elim (Bool-cases (ltb slot.head (head key))) [
    | inl more ↦
        rw more (head-Before slot.key key slot_bytes bytes (omega (arith, e, ltb→lt _ _ more)))
    | inr same ↦ rw same (by_bytes-Says key slot.key)
  ])
]
