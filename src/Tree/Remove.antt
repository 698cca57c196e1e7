-- ===== src/Tree/Remove.antt =====
-- btree.cpp, BTree::remove: where no merge is tried, the tree has no payload for the key, and maps
-- all other keys as before.
use cloud_project.Prelude.{
  ℕ, ◌≡◌, ◌≢◌, ◌↔◌, arith, refl, ◌∙◌, Bool, true, false, none, some, List, done,
}
use mathlib.Core.Path.{subst}
use cloud_project.BTree.Keys.{AreBytes}
use cloud_project.BTree.Node.{Node, lower_bound, slot_at, make_hint}
use cloud_project.BTree.LowerBound.{Locates, lower_bound-Locates}
use cloud_project.BTree.Update.{remove_slot}
use cloud_project.BTree.Valid.{IsValid, Holds, missed}
use cloud_project.BTree.Remove.{remove_slot-IsValid, remove_slot-Holds}
use cloud_project.Tree.Pages.{Tree, Trail, page_at, write, find_leaf}
use cloud_project.Tree.Operations.{lookup, is_under_full, remove}
use cloud_project.Tree.Lookup.{find_in-Holds, find_in-none}
use cloud_project.Tree.Descent.{Arrives, IsTree}
use cloud_project.Tree.Change.{Changes, Alters, lookup_at, write-Alters, lookup-write}

-- The key's leaf is not under-full without the key, or is not in the place to be merged.
abbrev pub IsFull : (rounds : ℕ) (k : List ℕ) → Tree → Type 0
IsFull rounds k t =
    (p : Trail) (r : ℕ)
    → find_leaf rounds k t ≡ done p
    → lower_bound k (page_at p.pid t) ≡ done (true, r)
    → is_under_full r p p.parent t ≡ false

-- What a removal leaves: nothing for the key, and all else as it was; the answer is whether there
-- was a payload.
pub record Drops (rounds : ℕ) (k : List ℕ) (t t' : Tree) (answer : Bool) : Type 0 where
  pub alters : Alters rounds k t t'
  pub gone : lookup rounds k t' ≡ done none
  pub yes_there : answer ≡ true → (payload : List ℕ) × (lookup rounds k t ≡ done (some payload))
  pub not_there : answer ≡ false → lookup rounds k t ≡ done none

module _ (n : Node) (r : ℕ) (k : List ℕ) (v : IsValid n) (l : Locates k n (true, r)) where
  removed_slot_frame :
      ((remove_slot r n).is_leaf ≡ n.is_leaf)
      × ((remove_slot r n).lower_fence ≡ n.lower_fence)
      × ((remove_slot r n).upper_fence ≡ n.upper_fence)
  unfolding remove_slot make_hint
  removed_slot_frame = (refl, refl, refl)

  removed_slot_holds :
      (k' payload : List ℕ) → Holds k' payload (remove_slot r n) ↔ (Holds k' payload n × (k' ≢ k))
  removed_slot_holds k' payload =
      subst (λ x. Holds k' payload (remove_slot r n) ↔ (Holds k' payload n × (k' ≢ x)))
        (l.hit refl).1 (remove_slot-Holds n r v (l.hit refl).0 k' payload)

  removed_slot-Changes : Changes k n (remove_slot r n)
  removed_slot-Changes = record {
    valid = remove_slot-IsValid n r v (l.hit refl).0;
    leaf = removed_slot_frame.0;
    lower = removed_slot_frame.1;
    upper = removed_slot_frame.2;
    others = λ k' payload ne. (
      λ h. ((removed_slot_holds k' payload).0 h).0,
      λ h. (removed_slot_holds k' payload).1 (h, ne),
    );
  }

module _ (rounds : ℕ) (k : List ℕ) (t : Tree) (p : Trail) (e : find_leaf rounds k t ≡ done p) where
  remove_found :
      (r : ℕ)
      → lower_bound k (page_at p.pid t) ≡ done (true, r)
      → is_under_full r p p.parent t ≡ false
      → remove rounds k t ≡ done (true, write p.pid (remove_slot r (page_at p.pid t)) t)
  unfolding remove
  remove_found r found full = rw (e, found, full) refl

  remove_not_found :
      (r : ℕ)
      → lower_bound k (page_at p.pid t) ≡ done (false, r)
      → remove rounds k t ≡ done (false, t)
  unfolding remove
  remove_not_found r found = rw (e, found) refl

-- On a well-formed tree, where the key's leaf does not get under-full in a place to be merged,
-- `remove` returns: the tree is well-formed again, a lookup of the key has nothing, lookups of all
-- other keys are as before, and the answer is whether there was a payload.
pub remove-Drops :
    (rounds : ℕ) (k : List ℕ) (t : Tree)
    → IsTree rounds t
    → AreBytes k
    → IsFull rounds k t
    → (answer : Bool) × (t' : Tree) × (remove rounds k t ≡ done (answer, t'))
      × Drops rounds k t t' answer
remove-Drops rounds k t tree bytes full =
    let (p, e, arrives) = tree.leads k bytes in
    go p e arrives
      (lower_bound-Locates k (page_at p.pid t) (tree.valid p.pid arrives.inside).searchable bytes)
  where
    go :
        (p : Trail)
        → find_leaf rounds k t ≡ done p
        → Arrives k p t
        → (a : Bool × ℕ) × (lower_bound k (page_at p.pid t) ≡ done a)
          × Locates k (page_at p.pid t) a
        → (answer : Bool) × (t' : Tree) × (remove rounds k t ≡ done (answer, t'))
          × Drops rounds k t t' answer
    go p e arrives ((true, r), found, l) =
        let n = page_at p.pid t in
        let v = tree.valid p.pid arrives.inside in
        let changes = removed_slot-Changes n r k v l in
        let n' = remove_slot r n in
        (
          true,
          write p.pid n' t,
          remove_found rounds k t p e r found (full p r e found),
          record {
            alters = write-Alters rounds p.pid k n' t tree arrives.inside arrives.leaf changes;
            gone =
                lookup-write rounds p.pid k n' t tree arrives.inside arrives.leaf changes p e refl
                ∙ find_in-none k n' changes.valid bytes
                    (λ payload h. ((removed_slot_holds n r k v l k payload).0 h).1 refl);
            yes_there = λ _. (
              (slot_at n.slots r).payload,
              lookup_at rounds k t p e
                  ∙ find_in-Holds k _ n v bytes (record {
                    index = r;
                    inside = (l.hit refl).0;
                    key = (l.hit refl).1;
                    value = refl;
                  }),
            );
            not_there = λ h. ground arith;
          },
        )
    go p e arrives ((false, r), found, l) =
        let n = page_at p.pid t in
        let v = tree.valid p.pid arrives.inside in
        let none_there = lookup_at rounds k t p e ∙ find_in-none k n v bytes (missed k n r l) in
        (
          false,
          t,
          remove_not_found rounds k t p e r found,
          record {
            alters = record { tree = tree; others = λ k' b ne. refl };
            gone = none_there;
            yes_there = λ h. ground arith;
            not_there = λ _. none_there;
          },
        )
