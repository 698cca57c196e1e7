-- ===== src/BTree/Splitting.antt =====
-- btree.hpp, splitNode as a whole: the two halves of a leaf, and where the parent leads.
use mathlib.Core.Path.{subst}
use mathlib.Core.List.{append-nil}
use cloud_project.Prelude.{
  ℕ, suc, ◌+◌, ◌^◌, ◌≤◌, ◌<◌, ◌≡◌, ◌≢◌, inl, inr, refl, sym, ap, ◌∙◌, arith, Bool, true, false,
  List, [], ◌++◌, length, take, drop, done, Bool-cases, ltb, ltb→lt, u16,
}
use cloud_project.BTree.Keys.{Before, AreBytes}
use cloud_project.BTree.Compare.{Slot}
use cloud_project.BTree.Node.{page_size, Node, count, prefix}
use cloud_project.BTree.Update.{insert_at, make_slot, has_space_for, space_needed}
use cloud_project.BTree.LowerBound.{full_key, Locates, lower_bound-Locates}
use cloud_project.BTree.Valid.{IsValid, missed}
use cloud_project.BTree.Stored.{Begins, Inserts}
use cloud_project.BTree.Insert.{insert_in_page-Inserts, IsAbsent}
use cloud_project.BTree.Fences.{UpTo, IsWithin, IsWithin-Begins}
use cloud_project.BTree.Split.{get_child, lookup_inner, relink, pid_bytes, le_number}
use cloud_project.BTree.Slots.{slot_at-insert_at_self}
use cloud_project.BTree.Children.{
  child_at, HasRank, HasRank-unique, Locates-HasRank, lookup_inner_lem, length-le_bytes,
  pid_bytes-read,
}
use cloud_project.BTree.Redirect.{IsInner, Redirects, redirect-Redirects}
use cloud_project.BTree.Relink.{
  child_before, child_self, child_after, rank_before, rank_after, rank_left, rank_right,
}

-- What `splitNode` does to the parent, for a separator that is no key of it and that leads to place
-- `r`: keys that lead elsewhere lead where they did, and those that led to the place now lead to the
-- left or to the right page.
pub record Leads (left_pid new_pid r : ℕ) (sep : List ℕ) (parent parent' : Node) : Type 0 where
  pub valid : IsValid parent'
  pub inner : parent'.is_leaf ≡ false
  pub elsewhere :
      (k : List ℕ) (a : ℕ)
      → AreBytes k
      → HasRank k parent a
      → a ≢ r
      → lookup_inner k parent' ≡ lookup_inner k parent
  pub to_left :
      (k : List ℕ)
      → AreBytes k
      → HasRank k parent r
      → UpTo k sep
      → lookup_inner k parent' ≡ done left_pid
  pub to_right :
      (k : List ℕ)
      → AreBytes k
      → HasRank k parent r
      → Before sep k
      → lookup_inner k parent' ≡ done new_pid

-- The place of a key when only the children change.
pub HasRank-redirected :
    (k : List ℕ) (n p : Node) (r pid a : ℕ) → Redirects pid r n p → HasRank k n a → HasRank k p a
HasRank-redirected k n p r pid a d h = record {
  inside = omega (arith, d.size, h.inside);
  below = λ i l. subst (λ x. Before x k) (sym (d.keys i)) (h.below i l);
  above = λ i l within. subst (UpTo k) (sym (d.keys i)) (h.above i l (omega (arith, d.size)));
}

Locates-redirected :
    (k : List ℕ) (n p : Node) (r pid : ℕ) (a : Bool × ℕ)
    → Redirects pid r n p
    → Locates k p a
    → Locates k n a
Locates-redirected k n p r pid a d l = record {
  inside = omega (arith, d.size, l.inside);
  below = λ i less. subst (λ x. Before x k) (d.keys i) (l.below i less);
  hit = λ h. (omega (arith, d.size, (l.hit h).0), sym (d.keys a.1) ∙ (l.hit h).1);
  miss = λ h i le within. subst (Before k) (d.keys i) (l.miss h i le (omega (arith, d.size)));
}

module _ (left_pid new_pid r : ℕ) (sep : List ℕ) (n : Node) (v : IsValid n) (inner : IsInner n)
    (bytes : AreBytes sep) (within : IsWithin n.lower_fence n.upper_fence sep)
    (absent : Locates sep n (false, r)) (leads : child_at r n ≡ left_pid)
    (left_fits : left_pid < 2 ^ 64) (new_fits : new_pid < 2 ^ 64) where
  module _ (p : Node) (d : Redirects new_pid r n p) (n' : Node)
      (ins : Inserts sep (pid_bytes left_pid) p n') where
    sep-Begins : Begins sep p
    sep-Begins =
        IsWithin-Begins p n.lower_fence n.upper_fence sep d.fences.0 (d.prefix_size ∙ v.common)
          within

    place_is : ins.place ≡ r
    place_is =
        HasRank-unique sep n ins.place r
          (Locates-HasRank sep n (false, ins.place) v
            (Locates-redirected sep n p r new_pid (false, ins.place) d ins.placed))
          (Locates-HasRank sep n (false, r) v absent)

    slots_are :
        n'.slots ≡ insert_at r (make_slot (drop p.prefix_len sep) (pid_bytes left_pid)) p.slots
    slots_are =
        ins.slots
        ∙ ap (λ j. insert_at j (make_slot (drop p.prefix_len sep) (pid_bytes left_pid)) p.slots)
            place_is

    prefix_is : prefix n' ≡ prefix p
    prefix_is = rw (ins.frame.prefixes, ins.frame.lower) refl

    place_inside : r ≤ count p
    place_inside = omega (arith, d.size, absent.inside)

    sep_key : prefix p ++ (make_slot (drop p.prefix_len sep) (pid_bytes left_pid)).key ≡ sep
    unfolding make_slot
    sep_key = sep-Begins

    Before-sep : (i : ℕ) → i < r → Before (full_key p i) sep
    Before-sep i h = subst (λ x. Before x sep) (sym (d.keys i)) (absent.below i h)

    behind_sep : (i : ℕ) → r ≤ i → i < count p → Before sep (full_key p i)
    behind_sep i h inside =
        subst (Before sep) (sym (d.keys i)) (absent.miss refl i h (omega (arith, d.size)))

    new_child : get_child r n' ≡ left_pid
    unfolding get_child make_slot
    new_child =
        rw
          (
            slots_are,
            slot_at-insert_at_self r (make_slot (drop p.prefix_len sep) (pid_bytes left_pid))
                p.slots place_inside,
          )
          (ap (λ x. le_number (take 8 x)) (sym (append-nil (pid_bytes left_pid)))
            ∙ pid_bytes-read left_pid [] left_fits)

    -- The place of a key in the new parent, from its place in the old one.
    module _ (k : List ℕ) (k_bytes : AreBytes k) where
      leads_to : (a c : ℕ) → HasRank k n' a → child_at a n' ≡ c → lookup_inner k n' ≡ done c
      leads_to a c h e = lookup_inner_lem k n' a ins.valid k_bytes h ∙ ap done e

      abbrev new_slot : Slot
      new_slot = make_slot (drop p.prefix_len sep) (pid_bytes left_pid)

      moved : (a : ℕ) → HasRank k n a → HasRank k p a
      moved a h = HasRank-redirected k n p r new_pid a d h

      leads_elsewhere : (a : ℕ) → HasRank k n a → a ≢ r → lookup_inner k n' ≡ lookup_inner k n
      leads_elsewhere a h ne =
          let old : lookup_inner k n ≡ done (child_at a n) = lookup_inner_lem k n a v k_bytes h in
          elim (Bool-cases (ltb a r)) [
            | inl less ↦
                leads_to a (child_at a n)
                  (rank_before p n' r new_slot slots_are place_inside ins.frame.link prefix_is sep
                    sep_key Before-sep behind_sep k a (ltb→lt _ _ less) (moved a h))
                  (child_before p n' r new_slot slots_are place_inside ins.frame.link prefix_is a
                      (ltb→lt _ _ less)
                    ∙ d.elsewhere a ne)
                ∙ sym old
            | inr rest ↦
                let more : r < a = ground (arith, ne) in
                leads_to (suc a) (child_at a n)
                  (rank_after p n' r new_slot slots_are place_inside ins.frame.link prefix_is sep
                    sep_key Before-sep behind_sep k a more (moved a h))
                  (child_after p n' r new_slot slots_are place_inside ins.frame.link prefix_is a
                      (omega arith) (omega (arith, d.size, h.inside))
                    ∙ d.elsewhere a ne)
                ∙ sym old
          ]

      leads_left : HasRank k n r → UpTo k sep → lookup_inner k n' ≡ done left_pid
      leads_left h le =
          leads_to r left_pid
            (rank_left p n' r new_slot slots_are place_inside ins.frame.link prefix_is sep sep_key
              Before-sep behind_sep k (moved r h) le)
            (child_self p n' r new_slot slots_are place_inside ins.frame.link prefix_is ∙ new_child)

      leads_right : HasRank k n r → Before sep k → lookup_inner k n' ≡ done new_pid
      leads_right h lt =
          leads_to (suc r) new_pid
            (rank_right p n' r new_slot slots_are place_inside ins.frame.link prefix_is sep sep_key
              Before-sep behind_sep k (moved r h) lt)
            (child_after p n' r new_slot slots_are place_inside ins.frame.link prefix_is r
                (omega arith) place_inside
              ∙ d.here)

    inserted-Leads : Leads left_pid new_pid r sep n n'
    inserted-Leads = record {
      valid = ins.valid;
      inner = ins.frame.leaf ∙ d.inner.inner;
      elsewhere = λ k a k_bytes h ne. leads_elsewhere k k_bytes a h ne;
      to_left = λ k k_bytes h le. leads_left k k_bytes h le;
      to_right = λ k k_bytes h lt. leads_right k k_bytes h lt;
    }

  module _ (small : length sep + 8 ≤ page_size)
      (space : has_space_for (length sep) 8 n ≡ true) where
    space_there :
        (p : Node)
        → Redirects new_pid r n p
        → has_space_for (length sep) (length (pid_bytes left_pid)) p ≡ true
    unfolding has_space_for space_needed
    space_there p d = rw (length-le_bytes 8 left_pid, d.free, d.prefix_size) space

    IsAbsent-there : (p : Node) → Redirects new_pid r n p → IsAbsent sep p
    IsAbsent-there p d payload h =
        missed sep p r
          (record {
            inside = omega (arith, d.size, absent.inside);
            below = λ i l. subst (λ x. Before x sep) (sym (d.keys i)) (absent.below i l);
            hit = λ e. ground arith;
            miss = λ e i le inside.
                subst (Before sep) (sym (d.keys i)) (absent.miss refl i le (omega (arith, d.size)));
          })
          payload h

    -- The parent of a split node.
    pub relink-Leads :
        (n' : Node) × (relink left_pid new_pid sep n ≡ done n') × Leads left_pid new_pid r sep n n'
    unfolding relink
    relink-Leads =
        let (a, e, l) = lower_bound-Locates sep n v.searchable bytes in
        let at_r : a.1 ≡ r =
          HasRank-unique sep n a.1 r (Locates-HasRank sep n a v l)
            (Locates-HasRank sep n (false, r) v absent) in
        let fits : u16 a.1 ≡ r = omega (arith, at_r, absent.inside, v.searchable.sorted.few) in
        let (p, ep, d) =
          redirect-Redirects left_pid new_pid r n v inner new_fits absent.inside leads in
        let size = length-le_bytes 8 left_pid in
        let (n', en, ins) =
          insert_in_page-Inserts sep (pid_bytes left_pid) p d.valid bytes
            (omega (arith, small, size))
            (IsWithin-Begins p n.lower_fence n.upper_fence sep d.fences.0 (d.prefix_size ∙ v.common)
              within)
            (IsAbsent-there p d) (space_there p d) in
        (n', rw (e, fits, ep) en, inserted-Leads p d n' ins)
