-- ===== src/Tree/Descent.antt =====
-- btree.hpp and btree.cpp, BTree: a change to a leaf leaves every descent as it is.
use cloud_project.Prelude.{
  some, if◌then◌else◌, ℕ, zero, suc, ◌<◌, ◌≡◌, ◌≢◌, refl, ap, ◌∙◌, arith, Bool, true, false, List,
  get_or-set_self, get_or-set_ne, length, ◌==◌, ==_iff, Bool-cases, inl, inr, Run, done, aborted,
  out_of_rounds,
}
use cloud_project.Prelude.Steps.{◌>>=◌}
use mathlib.Core.Path.{subst}
use cloud_project.BTree.Keys.{AreBytes}
use cloud_project.BTree.Node.{Node, count, lower_bound}
use cloud_project.BTree.Split.{get_child}
use cloud_project.BTree.Valid.{IsValid}
use cloud_project.BTree.Fences.{IsWithin}
use cloud_project.Tree.Pages.{Tree, Trail, page_at, write, no_page, start, step, descend, find_leaf}

-- Where a descent ends: at a leaf of the tree whose fences the key is between.
pub record Arrives (k : List ℕ) (p : Trail) (t : Tree) : Type 0 where
  pub inside : p.pid < length t.pages
  pub leaf : (page_at p.pid t).is_leaf ≡ true
  pub within : IsWithin (page_at p.pid t).lower_fence (page_at p.pid t).upper_fence k

-- The pages are well-formed, and for every key the descent ends at its leaf.
pub record IsTree (rounds : ℕ) (t : Tree) : Type 0 where
  pub valid : (pid : ℕ) → pid < length t.pages → IsValid (page_at pid t)
  pub leads :
      (k : List ℕ) → AreBytes k → (p : Trail) × (find_leaf rounds k t ≡ done p) × Arrives k p t

>>=-same {ℓ κ} :
    {A : Type ℓ} {B : Type κ} (m : Run A) (f g : A → Run B)
    → ((a : A) → f a ≡ g a)
    → (m >>= f) ≡ (m >>= g)
>>=-same (done a) f g same = same a
>>=-same aborted f g same = refl
>>=-same out_of_rounds f g same = refl

module _ (q : ℕ) (n : Node) (t : Tree) where
  pub page_at-write_self : q < length t.pages → page_at q (write q n t) ≡ n
  page_at-write_self inside = get_or-set_self t.pages q n no_page inside

  pub page_at-write_ne : (pid : ℕ) → q ≢ pid → page_at pid (write q n t) ≡ page_at pid t
  page_at-write_ne pid other = get_or-set_ne t.pages q pid n no_page other

both_end :
    (b b' : Bool) (p : Trail) (m m' : Run Trail)
    → b ≡ true
    → b' ≡ true
    → elim b [ true ↦ done p | false ↦ m ] ≡ elim b' [ true ↦ done p | false ↦ m' ]
both_end b b' p m m' e e' = rw (e, e') refl

both_go :
    (b b' : Bool) (p : Trail) (m m' : Run Trail)
    → b ≡ b'
    → m ≡ m'
    → elim b [ true ↦ done p | false ↦ m ] ≡ elim b' [ true ↦ done p | false ↦ m' ]
both_go b b' p m m' e e' =
    ap (λ x. elim x [ true ↦ done p | false ↦ m ]) e
    ∙ ap (λ x. elim b' [ true ↦ done p | false ↦ x ]) e'

module _ (q : ℕ) (n : Node) (t : Tree) (inside : q < length t.pages)
    (leaf : (page_at q t).is_leaf ≡ true) (still : n.is_leaf ≡ true) where
  step-write : (k : List ℕ) (p : Trail) → q ≢ p.pid → step k (write q n t) p ≡ step k t p
  unfolding step
  step-write k p ne =
      ap
        (λ m. lower_bound k m >>= λ a. done (record {
          parent = some p.pid;
          place = a.1;
          pid = if a.1 == count m then m.neighbour else get_child a.1 m;
        }))
        (page_at-write_ne q n t p.pid ne)

  descend-write :
      (rounds : ℕ) (k : List ℕ) (p : Trail)
      → descend rounds k (write q n t) p ≡ descend rounds k t p
  unfolding descend
  descend-write zero k p = refl
  descend-write (suc rounds) k p = elim (Bool-cases (q == p.pid)) [
    | inl here ↦
        let e : q ≡ p.pid = (==_iff q p.pid).0 here in
        both_end _ _ p _ _
          (subst (λ x. (page_at x (write q n t)).is_leaf ≡ true) e
            (ap (λ x. x.is_leaf) (page_at-write_self q n t inside) ∙ still))
          (subst (λ x. (page_at x t).is_leaf ≡ true) e leaf)
    | inr other ↦
        let ne : q ≢ p.pid = λ e. absurd (ground (arith, e)) in
        both_go _ _ p _ _ (ap (λ x. x.is_leaf) (page_at-write_ne q n t p.pid ne)) (
          ap (λ m. m >>= descend rounds k (write q n t)) (step-write k p ne)
          ∙ >>=-same (step k t p) _ _ (descend-write rounds k))
  ]

  pub find_leaf-write :
      (rounds : ℕ) (k : List ℕ) → find_leaf rounds k (write q n t) ≡ find_leaf rounds k t
  unfolding find_leaf
  find_leaf-write rounds k = descend-write rounds k (start t)
