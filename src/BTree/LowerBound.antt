-- ===== src/BTree/LowerBound.antt =====
-- btree.hpp, lowerBound as a whole: the prefix, the hints and the binary search.
use mathlib.Core.Path.{subst}
use cloud_project.Prelude.{
  ℕ, zero, suc, ◌*◌, ◌≤◌, ◌<◌, ◌≡◌, inl, inr, refl, sym, ap, ◌∙◌, arith, Bool, true, false, List,
  [], ◌∷◌, ◌++◌, ltb, ◌==◌, ==_iff, ltb→lt, Bool-cases, length, take, drop, done,
}
use cloud_project.Prelude.Int.{ℤ, pos, ltb_ℤ}
use cloud_project.BTree.Keys.{cust_memcmp, Before, Before-prefix, AreBytes}
use cloud_project.BTree.Compare.{least}
use cloud_project.BTree.Node.{Node, count, prefix, slot_at, hint_count, lower_bound}
use cloud_project.BTree.Search.{AreSorted, Finds, search_loop-Finds}
use cloud_project.BTree.Hints.{AreHints, search_hint-Between}

-- What the comparison of the first `num` bytes says of a key and all keys that begin with `ys`.
record Leads (xs ys : List ℕ) (num : ℕ) (cmp : ℤ) : Type 0 where
  minus : ltb_ℤ cmp (pos 0) ≡ true → (zs : List ℕ) → Before xs (ys ++ zs)
  plus : ltb_ℤ (pos 0) cmp ≡ true → (zs : List ℕ) → Before (ys ++ zs) xs
  none : ltb_ℤ cmp (pos 0) ≡ false → ltb_ℤ (pos 0) cmp ≡ false → take num xs ≡ take num ys

cust_memcmp-Leads :
    (xs ys : List ℕ) (num : ℕ)
    → num ≤ length xs
    → num ≤ length ys
    → Leads xs ys num (cust_memcmp xs ys num)
unfolding cust_memcmp
cust_memcmp-Leads xs ys zero a b = record {
  minus = λ h zs. ground arith;
  plus = λ h zs. ground arith;
  none = λ h k. refl;
}
cust_memcmp-Leads [] ys (suc num) a b = absurd (omega arith)
cust_memcmp-Leads (x ∷ xs) [] (suc num) a b = absurd (omega arith)
cust_memcmp-Leads (x ∷ xs) (y ∷ ys) (suc num) a b = elim (Bool-cases (x == y)) [
  | inl equal ↦
      let e : x ≡ y = (==_iff x y).0 equal in
      let s = cust_memcmp-Leads xs ys num (omega arith) (omega arith) in
      rw equal (record {
        minus = λ h zs. inr (e, s.minus h zs);
        plus = λ h zs. inr (sym e, s.plus h zs);
        none = λ h k. rw (e, s.none h k) refl;
      })
  | inr other ↦ rw other (record {
    minus = λ h zs. inl (ground arith);
    plus = λ h zs. inl (ground arith);
    none = λ h k. absurd (ground arith);
  })
]

pub take_all : (xs : List ℕ) → take (length xs) xs ≡ xs
take_all [] = refl
take_all (x ∷ xs) = ap (◌∷◌ x) (take_all xs)

pub take-drop : (k : ℕ) (xs : List ℕ) → take k xs ++ drop k xs ≡ xs
take-drop zero xs = refl
take-drop (suc k) [] = refl
take-drop (suc k) (x ∷ xs) = ap (◌∷◌ x) (take-drop k xs)

pub length-take : (k : ℕ) (xs : List ℕ) → k ≤ length xs → length (take k xs) ≡ k
length-take zero xs h = refl
length-take (suc k) [] h = absurd (omega arith)
length-take (suc k) (x ∷ xs) h = ap suc (length-take k xs (omega arith))

-- A part of the prefix comes before every key.
take-Before : (k : ℕ) (p zs : List ℕ) → k < length p → Before (take k p) (p ++ zs)
take-Before k [] zs h = absurd (omega arith)
take-Before zero (x ∷ p) zs h = tt
take-Before (suc k) (x ∷ p) zs h = inr (refl, take-Before k p zs (omega arith))

pub drop-AreBytes : (k : ℕ) (xs : List ℕ) → AreBytes xs → AreBytes (drop k xs)
drop-AreBytes zero xs b = b
drop-AreBytes (suc k) [] b = tt
drop-AreBytes (suc k) (x ∷ xs) b = drop-AreBytes k xs b.1

pub take-AreBytes : (k : ℕ) (xs : List ℕ) → AreBytes xs → AreBytes (take k xs)
take-AreBytes zero xs b = tt
take-AreBytes (suc k) [] b = tt
take-AreBytes (suc k) (x ∷ xs) b = (b.0, take-AreBytes k xs b.1)

-- The whole key of a slot.
abbrev pub full_key : Node → ℕ → List ℕ
full_key n i = prefix n ++ (slot_at n.slots i).key

-- A node that can be searched.
pub record IsSearchable (n : Node) : Type 0 where
  pub sorted : AreSorted n.slots
  pub hints : hint_count * 2 < length n.slots → AreHints n.slots n.hint
  pub prefixed : n.prefix_len ≤ length n.lower_fence

-- The answer of the search over the whole keys.
pub record Locates (skey : List ℕ) (n : Node) (answer : Bool × ℕ) : Type 0 where
  pub inside : answer.1 ≤ count n
  pub below : (i : ℕ) → i < answer.1 → Before (full_key n i) skey
  pub hit : answer.0 ≡ true → (answer.1 < count n) × (full_key n answer.1 ≡ skey)
  pub miss : answer.0 ≡ false → (i : ℕ) → answer.1 ≤ i → i < count n → Before skey (full_key n i)

-- The key is a part of the prefix.
short-Locates :
    (skey : List ℕ) (n : Node)
    → length skey < n.prefix_len
    → length (prefix n) ≡ n.prefix_len
    → take (least (length skey) n.prefix_len) skey
      ≡ take (least (length skey) n.prefix_len) (prefix n)
    → Locates skey n (false, 0)
short-Locates skey n short p_len same =
    let e : least (length skey) n.prefix_len ≡ length skey = ground arith in
    let part : skey ≡ take (length skey) (prefix n) =
      sym (take_all skey) ∙ subst (λ k. take k skey ≡ take k (prefix n)) e same in
    record {
      inside = omega arith;
      below = λ i h. absurd (omega arith);
      hit = λ h. ground arith;
      miss = λ h i le inside.
          subst (λ x. Before x (full_key n i)) (sym part)
            (take-Before (length skey) (prefix n) _ (omega arith));
    }

-- The key begins with the prefix.
long_whole :
    (skey : List ℕ) (n : Node)
    → ltb (length skey) n.prefix_len ≡ false
    → length (prefix n) ≡ n.prefix_len
    → take (least (length skey) n.prefix_len) skey
      ≡ take (least (length skey) n.prefix_len) (prefix n)
    → prefix n ++ drop n.prefix_len skey ≡ skey
long_whole skey n long p_len same =
    let e : least (length skey) n.prefix_len ≡ n.prefix_len = rw long refl in
    let part : take n.prefix_len skey ≡ take n.prefix_len (prefix n) =
      subst (λ k. take k skey ≡ take k (prefix n)) e same in
    let all : take n.prefix_len (prefix n) ≡ prefix n =
      subst (λ k. take k (prefix n) ≡ prefix n) p_len (take_all (prefix n)) in
    ap (λ x. x ++ drop n.prefix_len skey) (sym (part ∙ all)) ∙ take-drop n.prefix_len skey

least_bounds : (a b : ℕ) → (least a b ≤ a) × (least a b ≤ b)
least_bounds a b = ground arith

Finds-Locates :
    (skey key : List ℕ) (n : Node) (answer : Bool × ℕ)
    → prefix n ++ key ≡ skey
    → Finds key n.slots answer
    → Locates skey n answer
Finds-Locates skey key n answer whole f = record {
  inside = f.inside;
  below = λ i h. subst (Before (full_key n i)) whole (Before-prefix (prefix n) _ _ (f.below i h));
  hit = λ h. ((f.hit h).0, ap (◌++◌ (prefix n)) (f.hit h).1 ∙ whole);
  miss = λ h i le inside.
      subst (λ x. Before x (full_key n i)) whole
        (Before-prefix (prefix n) _ _ (f.miss h i le inside));
}

-- In a node with slots in order and the hints that belong to them, the search for any key ends, and
-- answers with the number of smaller keys, and whether the key stands there.
pub lower_bound-Locates :
    (skey : List ℕ) (n : Node)
    → IsSearchable n
    → AreBytes skey
    → (answer : Bool × ℕ) × (lower_bound skey n ≡ done answer) × Locates skey n answer
unfolding lower_bound
lower_bound-Locates skey n s bytes =
    let p_len : length (prefix n) ≡ n.prefix_len =
      length-take n.prefix_len n.lower_fence s.prefixed in
    let bounds = least_bounds (length skey) n.prefix_len in
    let leads =
      cust_memcmp-Leads skey (prefix n) (least (length skey) n.prefix_len) bounds.0
        (omega (arith, bounds.1, p_len)) in
    elim (Bool-cases
      (ltb_ℤ (cust_memcmp skey (prefix n) (least (length skey) n.prefix_len)) (pos 0))) [
        | inl minus ↦ (
          (false, 0),
          rw minus refl,
          record {
            inside = omega arith;
            below = λ i h. absurd (omega arith);
            hit = λ h. ground arith;
            miss = λ h i le inside. leads.minus minus (slot_at n.slots i).key;
          },
        )
        | inr not_minus ↦
            elim (Bool-cases
              (ltb_ℤ (pos 0) (cust_memcmp skey (prefix n) (least (length skey) n.prefix_len)))) [
                | inl plus ↦ (
                  (false, count n),
                  rw (not_minus, plus) refl,
                  record {
                    inside = omega arith;
                    below = λ i h. leads.plus plus (slot_at n.slots i).key;
                    hit = λ h. ground arith;
                    miss = λ h i le inside. absurd (omega arith);
                  },
                )
                | inr not_plus ↦ elim (Bool-cases (ltb (length skey) n.prefix_len)) [
                  | inl short ↦ (
                    (false, 0),
                    rw (not_minus, not_plus, short) refl,
                    short-Locates skey n (ltb→lt _ _ short) p_len (leads.none not_minus not_plus),
                  )
                  | inr long ↦
                      let key = drop n.prefix_len skey in
                      let b =
                        search_hint-Between key n s.sorted (drop-AreBytes n.prefix_len skey bytes)
                          s.hints in
                      let found_at =
                        search_loop-Finds key n.slots s.sorted
                          (drop-AreBytes n.prefix_len skey bytes) (count n) _ _ b
                          (omega (arith, b.inside)) in
                      (
                        found_at.0,
                        rw (not_minus, not_plus, long) found_at.1,
                        Finds-Locates skey key n found_at.0
                            (long_whole skey n long p_len (leads.none not_minus not_plus))
                            found_at.2,
                      )
                ]
              ]
      ]
