-- ===== src/Tree/Lookup.antt =====
-- btree.hpp, BTree::lookup: what a leaf answers for a key is what it holds.
use cloud_project.Prelude.{
  ℕ, ◌≡◌, ◌↔◌, refl, sym, ap, ◌∙◌, Bool, true, false, Option, none, some, List, done,
}
use cloud_project.BTree.Keys.{AreBytes}
use mathlib.Core.Path.{subst}
use cloud_project.Prelude.Steps.{done_injective}
use cloud_project.BTree.Node.{Node, slot_at, lower_bound}
use cloud_project.BTree.LowerBound.{Locates, lower_bound-Locates}
use cloud_project.BTree.Valid.{IsValid, Holds, full_key_unique, missed}
use cloud_project.Tree.Operations.{find_in}

-- The payload for a key, or that there is none.
abbrev pub Answers : (k : List ℕ) → Node → Option (List ℕ) → Type 0
Answers k n none = (p : List ℕ) → Holds k p n → ⊥
Answers k n (some p) = Holds k p n

pub find_in-Answers :
    (k : List ℕ) (n : Node)
    → IsValid n
    → AreBytes k
    → (o : Option (List ℕ)) × (find_in k n ≡ done o) × Answers k n o
unfolding find_in
find_in-Answers k n v bytes = go (lower_bound-Locates k n v.searchable bytes)
  where
    go :
        (a : Bool × ℕ) × (lower_bound k n ≡ done a) × Locates k n a
        → (o : Option (List ℕ)) × (find_in k n ≡ done o) × Answers k n o
    go ((true, r), e, l) =
        let hit = l.hit refl in
        (
          some (slot_at n.slots r).payload,
          rw e refl,
          record { index = r; inside = hit.0; key = hit.1; value = refl },
        )
    go ((false, r), e, l) = (none, rw e refl, missed k n r l)

Holds-unique : (k p q : List ℕ) (n : Node) → IsValid n → Holds k p n → Holds k q n → p ≡ q
Holds-unique k p q n v a b =
    sym a.value
    ∙ ap (λ i. (slot_at n.slots i).payload)
        (full_key_unique n a.index b.index v.searchable a.inside b.inside (a.key ∙ sym b.key))
    ∙ b.value

pub Answers-same :
    (k : List ℕ) (n n' : Node) (o o' : Option (List ℕ))
    → IsValid n'
    → ((p : List ℕ) → Holds k p n' ↔ Holds k p n)
    → Answers k n o
    → Answers k n' o'
    → o' ≡ o
Answers-same k n n' none none v same a b = refl
Answers-same k n n' none (some p) v same a b = absurd (a p ((same p).0 b))
Answers-same k n n' (some p) none v same a b = absurd (b p ((same p).1 a))
Answers-same k n n' (some p) (some q) v same a b =
    ap some (Holds-unique k q p n' v b ((same p).1 a))

-- Nodes that hold the same for a key answer the same.
pub find_in-same :
    (k : List ℕ) (n n' : Node)
    → IsValid n
    → IsValid n'
    → AreBytes k
    → ((p : List ℕ) → Holds k p n' ↔ Holds k p n)
    → find_in k n' ≡ find_in k n
find_in-same k n n' v v' bytes same =
    let (o, e, a) = find_in-Answers k n v bytes in
    let (o', e', a') = find_in-Answers k n' v' bytes in
    e' ∙ ap done (Answers-same k n n' o o' v' same a a') ∙ sym e

pub find_in-Holds :
    (k p : List ℕ) (n : Node) → IsValid n → AreBytes k → Holds k p n → find_in k n ≡ done (some p)
find_in-Holds k p n v bytes h = go (find_in-Answers k n v bytes)
  where
    go :
        (o : Option (List ℕ)) × (find_in k n ≡ done o) × Answers k n o → find_in k n ≡ done (some p)
    go (none, e, a) = absurd (a p h)
    go (some q, e, a) = e ∙ ap (λ x. done (some x)) (Holds-unique k q p n v a h)

pub find_in-none :
    (k : List ℕ) (n : Node)
    → IsValid n
    → AreBytes k
    → ((p : List ℕ) → Holds k p n → ⊥)
    → find_in k n ≡ done none
find_in-none k n v bytes h = go (find_in-Answers k n v bytes)
  where
    go : (o : Option (List ℕ)) × (find_in k n ≡ done o) × Answers k n o → find_in k n ≡ done none
    go (none, e, a) = e
    go (some q, e, a) = absurd (h q a)

-- What is answered is held, and where nothing is answered nothing is.
pub find_in_back :
    (k : List ℕ) (n : Node) (o : Option (List ℕ))
    → IsValid n
    → AreBytes k
    → find_in k n ≡ done o
    → Answers k n o
find_in_back k n o v bytes e =
    let (o', e', a) = find_in-Answers k n v bytes in
    subst (Answers k n) (done_injective o' o (sym e' ∙ e)) a
