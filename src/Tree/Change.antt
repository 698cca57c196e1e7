-- ===== src/Tree/Change.antt =====
-- btree.cpp, BTree: insert and remove where only a leaf changes.
use cloud_project.Prelude.{
  ℕ, ◌<◌, ◌≡◌, ◌≢◌, ◌↔◌, ◌⊎◌, inl, inr, refl, sym, ap, ◌∙◌, arith, true, List, length, ◌==◌, ==_iff,
  Bool-cases, length-set, done,
}
use mathlib.Core.Path.{subst}
use cloud_project.BTree.Keys.{AreBytes}
use cloud_project.BTree.Node.{Node}
use cloud_project.BTree.Valid.{IsValid, Holds}
use cloud_project.Tree.Pages.{Tree, Trail, page_at, write, find_leaf}
use cloud_project.Tree.Operations.{find_in, lookup}
use cloud_project.Tree.Lookup.{find_in-same}
use cloud_project.Tree.Descent.{
  Arrives, IsTree, page_at-write_self, page_at-write_ne, find_leaf-write,
}

-- The node that a leaf becomes: well-formed, a leaf with the same fences, and with what it held for
-- all keys but one.
pub record Changes (k : List ℕ) (n n' : Node) : Type 0 where
  pub valid : IsValid n'
  pub leaf : n'.is_leaf ≡ n.is_leaf
  pub lower : n'.lower_fence ≡ n.lower_fence
  pub upper : n'.upper_fence ≡ n.upper_fence
  pub others : (k' p : List ℕ) → k' ≢ k → Holds k' p n' ↔ Holds k' p n

-- What an operation on a key leaves: a tree that answers for the other keys as before.
pub record Alters (rounds : ℕ) (k : List ℕ) (t t' : Tree) : Type 0 where
  pub tree : IsTree rounds t'
  pub others : (k' : List ℕ) → AreBytes k' → k' ≢ k → lookup rounds k' t' ≡ lookup rounds k' t

pub lookup_at :
    (rounds : ℕ) (k : List ℕ) (t : Tree) (p : Trail)
    → find_leaf rounds k t ≡ done p
    → lookup rounds k t ≡ find_in k (page_at p.pid t)
unfolding lookup
lookup_at rounds k t p e = rw e refl

module _ (rounds q : ℕ) (k : List ℕ) (n : Node) (t : Tree) (tree : IsTree rounds t)
    (inside : q < length t.pages) (leaf : (page_at q t).is_leaf ≡ true)
    (changes : Changes k (page_at q t) n) where
  abbrev after : Tree
  after = write q n t

  still : n.is_leaf ≡ true
  still = changes.leaf ∙ leaf

  page_cases :
      (pid : ℕ) → ((q ≡ pid) × (page_at pid after ≡ n)) ⊎ ((page_at pid after ≡ page_at pid t))
  page_cases pid = elim (Bool-cases (q == pid)) [
    | inl here ↦
        let e : q ≡ pid = (==_iff q pid).0 here in
        inl (e, ap (λ x. page_at x after) (sym e) ∙ page_at-write_self q n t inside)
    | inr other ↦ inr (page_at-write_ne q n t pid (λ e. ground (arith, e)))
  ]

  kept :
      {A : Type 0} (f : Node → A)
      → f n ≡ f (page_at q t)
      → (pid : ℕ) → f (page_at pid after) ≡ f (page_at pid t)
  kept f same pid = elim (page_cases pid) [
    | inl (e, now) ↦ ap f now ∙ same ∙ ap (λ x. f (page_at x t)) e
    | inr now ↦ ap f now
  ]

  after-IsTree : IsTree rounds after
  after-IsTree = record {
    valid = λ pid h. elim (page_cases pid) [
      | inl (e, now) ↦ subst IsValid (sym now) changes.valid
      | inr now ↦
          subst IsValid (sym now) (tree.valid pid (omega (arith, h, length-set t.pages q n)))
    ];
    leads = λ k bytes.
        let (p, e, arrives) = tree.leads k bytes in
        (
          p,
          find_leaf-write q n t inside leaf still rounds k ∙ e,
          record {
            inside = omega (arith, arrives.inside, length-set t.pages q n);
            leaf = kept (λ x. x.is_leaf) changes.leaf p.pid ∙ arrives.leaf;
            within =
                rw
                  (
                    kept (λ x. x.lower_fence) changes.lower p.pid,
                    kept (λ x. x.upper_fence) changes.upper p.pid,
                  )
                  arrives.within;
          },
        );
  }

  others : (k' : List ℕ) → AreBytes k' → k' ≢ k → lookup rounds k' after ≡ lookup rounds k' t
  others k' bytes ne =
      let (p, e, arrives) = tree.leads k' bytes in
      lookup_at rounds k' after p (find_leaf-write q n t inside leaf still rounds k' ∙ e)
      ∙ same p arrives
      ∙ sym (lookup_at rounds k' t p e)
    where
      same :
          (p : Trail)
          → Arrives k' p t
          → find_in k' (page_at p.pid after) ≡ find_in k' (page_at p.pid t)
      same p arrives = elim (page_cases p.pid) [
        | inl (e, now) ↦
            ap (find_in k') now
            ∙ find_in-same k' (page_at q t) n (tree.valid q inside) changes.valid bytes
                (λ payload. changes.others k' payload ne)
            ∙ ap (λ x. find_in k' (page_at x t)) e
        | inr now ↦ ap (find_in k') now
      ]

  pub write-Alters : Alters rounds k t after
  write-Alters = record { tree = after-IsTree; others = others }

  -- The changed leaf is where the key is looked up.
  pub lookup-write :
      (p : Trail) → find_leaf rounds k t ≡ done p → p.pid ≡ q → lookup rounds k after ≡ find_in k n
  lookup-write p e at =
      lookup_at rounds k after p (find_leaf-write q n t inside leaf still rounds k ∙ e)
      ∙ ap (λ x. find_in k (page_at x after)) at
      ∙ ap (find_in k) (page_at-write_self q n t inside)
