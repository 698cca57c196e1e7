-- ===== src/BTree/Children.antt =====
-- btree.hpp: page ids in payloads, and the place of a key among the slots.
use mathlib.Core.Path.{subst}
use native.Mathlib.Nat.{pow-suc}
use cloud_project.Prelude.{
  ℕ, zero, suc, ◌/◌, ◌^◌, ◌≤◌, ◌<◌, ◌≡◌, inl, inr, refl, sym, ap, ◌∙◌, arith, Bool, true, false,
  List, [], ◌∷◌, ◌++◌, length, take, drop, done, ◌==◌, if◌then◌else◌, ltb, ltb→lt, Bool-cases,
  get_or-set_self,
}
use cloud_project.BTree.Keys.{Before, Before-trans, Before-prefix, Before-irrefl, AreBytes}
use cloud_project.BTree.Node.{Node, count, prefix, slot_at, no_slot}
use cloud_project.BTree.LowerBound.{full_key, Locates, lower_bound-Locates}
use cloud_project.BTree.Valid.{IsValid}
use cloud_project.BTree.Fences.{UpTo}
use cloud_project.BTree.Split.{le_bytes, le_number, pid_bytes, get_child, set_child, lookup_inner}

le_number-le_bytes : (rounds n : ℕ) → n < 256 ^ rounds → le_number (le_bytes rounds n) ≡ n
unfolding le_number le_bytes
le_number-le_bytes zero n h = omega arith
le_number-le_bytes (suc rounds) n h =
    let rest = le_number-le_bytes rounds (n / 256) (omega (arith, pow-suc 256 rounds)) in
    omega (arith, rest)

pub length-le_bytes : (rounds n : ℕ) → length (le_bytes rounds n) ≡ rounds
unfolding le_bytes
length-le_bytes zero n = refl
length-le_bytes (suc rounds) n = ap suc (length-le_bytes rounds (n / 256))

take-append : (xs ys : List ℕ) → take (length xs) (xs ++ ys) ≡ xs
take-append [] ys = refl
take-append (x ∷ xs) ys = ap (◌∷◌ x) (take-append xs ys)

-- A page id is read back, also in front of other bytes.
pub pid_bytes-read :
    (pid : ℕ) (ys : List ℕ) → pid < 2 ^ 64 → le_number (take 8 (pid_bytes pid ++ ys)) ≡ pid
pid_bytes-read pid ys h =
    ap (λ k. le_number (take k (pid_bytes pid ++ ys))) (sym (length-le_bytes 8 pid))
    ∙ ap le_number (take-append (pid_bytes pid) ys)
    ∙ le_number-le_bytes 8 pid h

-- The child at a place: that of a slot, or the last one.
abbrev pub child_at : ℕ → Node → ℕ
child_at i n = if i == count n then n.neighbour else get_child i n

-- `r` slots have smaller keys, and the next one has not.
pub record HasRank (k : List ℕ) (n : Node) (r : ℕ) : Type 0 where
  pub inside : r ≤ count n
  pub below : (i : ℕ) → i < r → Before (full_key n i) k
  pub above : (i : ℕ) → r ≤ i → i < count n → UpTo k (full_key n i)

pub Locates-HasRank :
    (k : List ℕ) (n : Node) (a : Bool × ℕ) → IsValid n → Locates k n a → HasRank k n a.1
Locates-HasRank k n (false, r) v l = record {
  inside = l.inside;
  below = l.below;
  above = λ i le inside. inl (l.miss refl i le inside);
}
Locates-HasRank k n (true, r) v l = record {
  inside = l.inside;
  below = l.below;
  above = λ i le inside. elim (Bool-cases (ltb r i)) [
    | inl more ↦ inl (
        subst (λ x. Before x (full_key n i)) (l.hit refl).1
          (Before-prefix (prefix n) _ _ (v.searchable.sorted.order r i (ltb→lt _ _ more) inside)))
    | inr same ↦
        let e : r ≡ i = ground arith in inr (sym (ap (full_key n) (sym e) ∙ (l.hit refl).1))
  ];
}

UpTo-not : (xs ys : List ℕ) → UpTo xs ys → Before ys xs → ⊥
UpTo-not xs ys (inl a) b = Before-irrefl xs (Before-trans xs ys xs a b)
UpTo-not xs ys (inr e) b = Before-irrefl xs (subst (λ x. Before x xs) (sym e) b)

pub HasRank-unique : (k : List ℕ) (n : Node) (r s : ℕ) → HasRank k n r → HasRank k n s → r ≡ s
HasRank-unique k n r s a b = elim (Bool-cases (ltb r s)) [
  | inl less ↦
      let lt = ltb→lt r s less in
      absurd (
        UpTo-not k (full_key n r) (a.above r (omega arith) (omega (arith, b.inside)))
          (b.below r lt))
  | inr rest ↦ elim (Bool-cases (ltb s r)) [
    | inl more ↦
        let lt = ltb→lt s r more in
        absurd (
          UpTo-not k (full_key n s) (b.above s (omega arith) (omega (arith, a.inside)))
            (a.below s lt))
    | inr same ↦ ground arith
  ]
]

-- The search of an inner node goes to the child at the key's place.
pub lookup_inner_lem :
    (k : List ℕ) (n : Node) (r : ℕ)
    → IsValid n
    → AreBytes k
    → HasRank k n r
    → lookup_inner k n ≡ done (child_at r n)
unfolding lookup_inner
lookup_inner_lem k n r v bytes rank =
    let (a, e, l) = lower_bound-Locates k n v.searchable bytes in
    let same : a.1 ≡ r = HasRank-unique k n a.1 r (Locates-HasRank k n a v l) rank in
    rw (e, same) refl

-- A place's child is replaced by another one; the keys and the other children stay.
pub set_child_self :
    (i pid : ℕ) (n : Node) → i < count n → pid < 2 ^ 64 → get_child i (set_child i pid n) ≡ pid
unfolding get_child set_child
set_child_self i pid n h fits =
    rw
      (get_or-set_self n.slots i
        (record (slot_at n.slots i) {
          payload = pid_bytes pid ++ drop 8 (slot_at n.slots i).payload;
        })
        no_slot h)
      (pid_bytes-read pid (drop 8 (slot_at n.slots i).payload) fits)
