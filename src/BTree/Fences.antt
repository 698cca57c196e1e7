-- ===== src/BTree/Fences.antt =====
-- btree.hpp, setFences: the keys of a node lie between its fences, so they share the fences' prefix.
-- An empty fence is no bound.
use cloud_project.Prelude.{
  ℕ, ◌≡◌, ◌⊎◌, inl, inr, refl, sym, ap, ◌∙◌, arith, List, [], ◌∷◌, ◌++◌, take, drop, ◌==◌, ==_iff,
  Bool-cases,
}
use cloud_project.BTree.Keys.{Before, AreBytes}
use cloud_project.BTree.Node.{Node}
use cloud_project.BTree.Update.{common_len}
use cloud_project.BTree.LowerBound.{take-drop}
use cloud_project.BTree.Valid.{Holds}
use cloud_project.BTree.Stored.{Begins}

-- `xs` does not come after `ys`.
abbrev pub UpTo : (xs ys : List ℕ) → Type 0
UpTo xs ys = Before xs ys ⊎ (xs ≡ ys)

-- The lower fence is exclusive, the upper one inclusive.
pub record IsWithin (lower upper k : List ℕ) : Type 0 where
  pub above : (lower ≡ []) ⊎ Before lower k
  pub below : (upper ≡ []) ⊎ UpTo k upper

-- What is between two keys with the same first byte has that byte too.
pub squeezed :
    (x y z : ℕ) (lo hi k : List ℕ)
    → x ≡ y
    → Before (x ∷ lo) (z ∷ k)
    → UpTo (z ∷ k) (y ∷ hi)
    → (z ≡ x) × Before lo k × UpTo k hi
squeezed x y z lo hi k e (inl a) (inl (inl b)) = absurd (omega arith)
squeezed x y z lo hi k e (inl a) (inl (inr b)) = absurd (omega (arith, b.0))
squeezed x y z lo hi k e (inl a) (inr b) = absurd (omega (arith, ap (λ l. head_or l) b))
  where
    head_or : List ℕ → ℕ
    head_or [] = 0
    head_or (a ∷ l) = a
squeezed x y z lo hi k e (inr a) (inl (inl b)) = absurd (omega (arith, a.0))
squeezed x y z lo hi k e (inr a) (inl (inr b)) = (sym a.0, a.1, inl b.1)
squeezed x y z lo hi k e (inr a) (inr b) = (sym a.0, a.1, inr (cc))

common-take :
    (lo hi k : List ℕ)
    → Before lo k
    → UpTo k hi
    → take (common_len lo hi) k ≡ take (common_len lo hi) lo
unfolding common_len
common-take [] hi k a b = refl
common-take (x ∷ lo) [] k a b = refl
common-take (x ∷ lo) (y ∷ hi) [] a b = absurd a
common-take (x ∷ lo) (y ∷ hi) (z ∷ k) a b = elim (Bool-cases (x == y)) [
  | inr other ↦ rw other refl
  | inl equal ↦
      let s = squeezed x y z lo hi k ((==_iff x y).0 equal) a b in
      rw (equal, s.0) (ap (◌∷◌ x) (common-take lo hi k s.1 s.2))
]

pub common_len-none : (lo : List ℕ) → common_len lo [] ≡ 0
unfolding common_len
common_len-none [] = refl
common_len-none (x ∷ lo) = refl

IsWithin-take :
    (lo hi k : List ℕ) → IsWithin lo hi k → take (common_len lo hi) k ≡ take (common_len lo hi) lo
unfolding common_len
IsWithin-take lo hi k w = go w.above w.below
  where
    go :
        (lo ≡ []) ⊎ Before lo k
        → (hi ≡ []) ⊎ UpTo k hi
        → take (common_len lo hi) k ≡ take (common_len lo hi) lo
    go (inl e) b = rw e refl
    go (inr a) (inl e) = rw (e, common_len-none lo) refl
    go (inr a) (inr b) = common-take lo hi k a b

-- A key between the fences begins with the node's prefix.
pub IsWithin-Begins :
    (n : Node) (lo hi k : List ℕ)
    → n.lower_fence ≡ lo
    → n.prefix_len ≡ common_len lo hi
    → IsWithin lo hi k
    → Begins k n
IsWithin-Begins n lo hi k e common w =
    rw (e, common)
      (ap (λ x. x ++ drop (common_len lo hi) k) (sym (IsWithin-take lo hi k w))
        ∙ take-drop (common_len lo hi) k)

-- All that a node holds is between its fences.
pub record AreWithin (n : Node) : Type 0 where
  pub bytes : AreBytes n.lower_fence
  pub each : (k payload : List ℕ) → Holds k payload n → IsWithin n.lower_fence n.upper_fence k
