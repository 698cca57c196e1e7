-- ===== src/BTree/Unlink.antt =====
-- btree.hpp, mergeNodes: the parent without the entry of the merged node.
use mathlib.Core.Path.{subst}
use cloud_project.Prelude.{
  ℕ, ◌+◌, ◌-◌, ◌^◌, ◌<◌, ◌≡◌, ◌≢◌, ◌⊎◌, inl, inr, refl, sym, ap, ◌∙◌, arith, false, List, length,
  done, ltb, ◌==◌, ==_iff, ==_refl, ne→==_false, Bool-cases, if◌then◌else◌,
}
use cloud_project.BTree.Keys.{Before, AreBytes}
use cloud_project.BTree.Node.{Node, count, make_hint}
use cloud_project.BTree.Update.{remove_slot}
use cloud_project.BTree.Slots.{length-remove_at}
use cloud_project.BTree.Sorted.{was, slot_at-remove_at}
use cloud_project.BTree.Valid.{IsValid}
use cloud_project.BTree.Remove.{remove_slot-IsValid, full_key-remove}
use cloud_project.BTree.Fences.{UpTo}
use cloud_project.BTree.Split.{get_child, set_child, lookup_inner}
use cloud_project.BTree.Children.{child_at, HasRank, lookup_inner_lem}
use cloud_project.BTree.Redirect.{IsInner, Redirects, set_child-Redirects}
use cloud_project.BTree.Splitting.{HasRank-redirected}
use cloud_project.BTree.Merge.{unlink}

-- Keys that led to either page lead to the merged one; the others lead where they did.
pub record Unlinks (pid s : ℕ) (parent parent' : Node) : Type 0 where
  pub valid : IsValid parent'
  pub inner : IsInner parent'
  pub to_merged :
      (k : List ℕ) (a : ℕ)
      → AreBytes k
      → HasRank k parent a
      → (a ≡ s) ⊎ (a ≡ s + 1)
      → lookup_inner k parent' ≡ done pid
  pub elsewhere :
      (k : List ℕ) (a : ℕ)
      → AreBytes k
      → HasRank k parent a
      → a ≢ s
      → a ≢ s + 1
      → lookup_inner k parent' ≡ lookup_inner k parent

-- Where a place is after the slot before place `s + 1` has gone.
abbrev pub now : (s a : ℕ) → ℕ
now s a = if ltb s a then a - 1 else a

module _ (p : Node) (s : ℕ) (v : IsValid p) (inside : s < count p) where
  shrunk_size : count (remove_slot s p) + 1 ≡ count p
  unfolding remove_slot make_hint
  shrunk_size = length-remove_at s p.slots inside

  removed_link : (i : ℕ) → get_child i (remove_slot s p) ≡ get_child (was s i) p
  unfolding get_child remove_slot make_hint
  removed_link i = rw (slot_at-remove_at s i p.slots) refl

  same_link : (remove_slot s p).neighbour ≡ p.neighbour
  unfolding remove_slot make_hint
  same_link = refl

  removed-IsInner : IsInner p → IsInner (remove_slot s p)
  unfolding remove_slot make_hint
  removed-IsInner n = record {
    inner = n.inner;
    links = λ i h.
        ap (λ x. length x.payload) (slot_at-remove_at s i p.slots)
        ∙ n.links (was s i) (ground (arith, shrunk_size));
  }

  -- The child at a place, which was there or one place on.
  removed_child : (i : ℕ) → i < count p → child_at i (remove_slot s p) ≡ child_at (was s i) p
  removed_child i h = elim (Bool-cases (i == count (remove_slot s p))) [
    | inl last ↦
        let e : i ≡ count (remove_slot s p) = (==_iff i _).0 last in
        let b : was s i ≡ count p = ground (arith, e, shrunk_size) in
        rw last (same_link ∙ sym (ap (λ j. child_at j p) b ∙ at_end))
    | inr slot ↦
        let b : (was s i == count p) ≡ false =
          ne→==_false _ _ (λ e. ground (arith, e, shrunk_size)) in
        rw (slot, b) (removed_link i)
  ]
    where
      at_end : child_at (count p) p ≡ p.neighbour
      at_end = rw (==_refl (count p)) refl

  removed_rank : (k : List ℕ) (a : ℕ) → HasRank k p a → HasRank k (remove_slot s p) (now s a)
  removed_rank k a h = record {
    inside = ground (arith, h.inside, shrunk_size);
    below = λ i l.
        subst (λ x. Before x k) (sym (full_key-remove p s v inside i))
          (h.below (was s i) (ground arith));
    above = λ i l within.
        subst (UpTo k) (sym (full_key-remove p s v inside i))
          (h.above (was s i) (ground arith) (ground (arith, shrunk_size)));
  }

module _ (pid s : ℕ) (parent : Node) (v : IsValid parent) (inner : IsInner parent)
    (fits : pid < 2 ^ 64) (inside : s + 1 < count parent) where
  abbrev linked : Node
  linked = set_child (s + 1) pid parent

  redirects : Redirects pid (s + 1) parent linked
  redirects = set_child-Redirects pid (s + 1) parent v inner fits inside

  still_inside : s < count linked
  still_inside = omega (arith, redirects.size)

  leads :
      (k : List ℕ) (a : ℕ)
      → AreBytes k
      → HasRank k parent a
      → lookup_inner k (remove_slot s linked) ≡ done (child_at (was s (now s a)) linked)
  leads k a bytes h =
      lookup_inner_lem k (remove_slot s linked) (now s a)
        (remove_slot-IsValid linked s redirects.valid still_inside) bytes
        (removed_rank linked s redirects.valid still_inside k a
          (HasRank-redirected k parent linked (s + 1) pid a redirects h))
      ∙ ap done (
          removed_child linked s redirects.valid still_inside (now s a)
            (ground (arith, h.inside, redirects.size)))

  pub unlink-Unlinks : Unlinks pid s parent (unlink pid s parent)
  unfolding unlink
  unlink-Unlinks = record {
    valid = remove_slot-IsValid linked s redirects.valid still_inside;
    inner = removed-IsInner linked s redirects.valid still_inside redirects.inner;
    to_merged = λ k a bytes h which.
        let there : was s (now s a) ≡ s + 1 = place_of a which in
        leads k a bytes h ∙ ap done (ap (λ j. child_at j linked) there ∙ redirects.here);
    elsewhere = λ k a bytes h other next.
        let there : was s (now s a) ≡ a = ground (arith, other, next) in
        leads k a bytes h
        ∙ ap done (ap (λ j. child_at j linked) there ∙ redirects.elsewhere a next)
        ∙ sym (lookup_inner_lem k parent a v bytes h);
  }
    where
      place_of : (a : ℕ) → (a ≡ s) ⊎ (a ≡ s + 1) → was s (now s a) ≡ s + 1
      place_of a (inl e) = ground (arith, e)
      place_of a (inr e) = ground (arith, e)
