-- ===== src/Tree/Insert.antt =====
-- btree.cpp, BTree::insert: with space in the leaf of the key, the tree maps the key to the payload
-- and all other keys as before.
use cloud_project.Prelude.{
  arith, ℕ, suc, ◌+◌, ◌≤◌, ◌≡◌, inl, inr, refl, sym, ◌∙◌, true, none, some, List, length, le→leb,
  done,
}
use cloud_project.BTree.Keys.{AreBytes}
use cloud_project.BTree.Node.{Node}
use cloud_project.BTree.Update.{has_space_for, insert_in_page}
use cloud_project.BTree.Stored.{Inserts}
use cloud_project.BTree.Insert.{insert_in_page-Inserts, max_kv_size}
use cloud_project.BTree.Fences.{IsWithin-Begins}
use cloud_project.Tree.Pages.{Tree, Trail, page_at, write, find_leaf}
use cloud_project.Tree.Operations.{lookup, insert_attempt, insert_attempts, insert}
use cloud_project.Tree.Lookup.{find_in_back, find_in-Holds}
use cloud_project.Tree.Descent.{IsTree}
use cloud_project.Tree.Change.{Changes, Alters, lookup_at, write-Alters, lookup-write}

-- The key's leaf has space for it and its payload.
abbrev pub HasSpace : (rounds : ℕ) (k payload : List ℕ) → Tree → Type 0
HasSpace rounds k payload t =
    (p : Trail)
    → find_leaf rounds k t ≡ done p
    → has_space_for (length k) (length payload) (page_at p.pid t) ≡ true

Inserts-Changes : (k payload : List ℕ) (n n' : Node) → Inserts k payload n n' → Changes k n n'
Inserts-Changes k payload n n' i = record {
  valid = i.valid;
  leaf = i.frame.leaf;
  lower = i.frame.lower;
  upper = i.frame.upper;
  others = λ k' p ne. (
    λ h. elim ((i.holds k' p).0 h) [ inl old ↦ old | inr e ↦ absurd (ne e.0) ],
    λ h. (i.holds k' p).1 (inl h),
  );
}

insert_in_leaf :
    (splits rounds : ℕ) (k payload : List ℕ) (t : Tree) (p : Trail) (n : Node)
    → length k + length payload ≤ max_kv_size
    → find_leaf rounds k t ≡ done p
    → has_space_for (length k) (length payload) (page_at p.pid t) ≡ true
    → insert_in_page k payload (page_at p.pid t) ≡ done n
    → insert (suc splits) rounds k payload t ≡ done (write p.pid n t)
unfolding insert insert_attempts insert_attempt
insert_in_leaf splits rounds k payload t p n small e space stored =
    rw (le→leb _ _ small, e, space, stored) refl

-- What an insert leaves: the payload for the key, and all else as it was.
pub record Stores (rounds : ℕ) (k payload : List ℕ) (t t' : Tree) : Type 0 where
  pub alters : Alters rounds k t t'
  pub there : lookup rounds k t' ≡ done (some payload)

-- On a well-formed tree, for a key that is not there, which is with its payload at most `maxKVSize`
-- long, as `insert` asserts, and with space for both in its leaf, `insert` returns in its first round: the tree is well-formed again, a lookup of the key has
-- the payload, and lookups of all other keys are as before.
pub insert-Stores :
    (splits rounds : ℕ) (k payload : List ℕ) (t : Tree)
    → IsTree rounds t
    → AreBytes k
    → length k + length payload ≤ max_kv_size
    → lookup rounds k t ≡ done none
    → HasSpace rounds k payload t
    → (t' : Tree) × (insert (suc splits) rounds k payload t ≡ done t')
      × Stores rounds k payload t t'
insert-Stores splits rounds k payload t tree bytes small missing space =
    let (p, e, arrives) = tree.leads k bytes in
    let n = page_at p.pid t in
    let v = tree.valid p.pid arrives.inside in
    let (n', stored, i) =
      insert_in_page-Inserts k payload n v bytes (omega (arith, small))
        (IsWithin-Begins n n.lower_fence n.upper_fence k refl v.common arrives.within)
        (find_in_back k n none v bytes (sym (lookup_at rounds k t p e) ∙ missing)) (space p e) in
    let changes = Inserts-Changes k payload n n' i in
    (
      write p.pid n' t,
      insert_in_leaf splits rounds k payload t p n' small e (space p e) stored,
      record {
        alters = write-Alters rounds p.pid k n' t tree arrives.inside arrives.leaf changes;
        there =
            lookup-write rounds p.pid k n' t tree arrives.inside arrives.leaf changes p e refl
            ∙ find_in-Holds k payload n' i.valid bytes ((i.holds k payload).1 (inr (refl, refl)));
      },
    )
