-- ===== src/BTree/MergeLeaf.antt =====
-- btree.hpp, mergeNodes: what the merged leaf holds.
use mathlib.Core.Path.{subst}
use cloud_project.Prelude.{
  ℕ, length-append, ◌+◌, ◌≤◌, ◌<◌, ◌≡◌, ◌≢◌, ◌⊎◌, ◌↔◌, inl, inr, refl, sym, ap, ◌∙◌, arith, true,
  List, [], ◌++◌, length, done, leb,
}
use cloud_project.BTree.Keys.{Before, Before-trans, AreBytes}
use cloud_project.BTree.Node.{Node, count, slot_at, make_hint, page_size}
use cloud_project.BTree.Update.{common_len, set_fences, insert_fence}
use cloud_project.BTree.LowerBound.{length-take}
use cloud_project.BTree.Valid.{IsValid, Holds, slots_space}
use cloud_project.BTree.Stored.{Begins}
use cloud_project.BTree.Entries.{Entry, entries, Appends, slots_of}
use cloud_project.BTree.Built.{
  entry_at, key_at, AreOrdered, Has, Built, length-slots_of, built-IsValid, built-Holds,
}
use cloud_project.BTree.Fences.{common_len-none, UpTo, IsWithin, AreWithin, IsWithin-Begins}
use cloud_project.BTree.Update.{copied}
use cloud_project.BTree.Split.{no_neighbour}
use cloud_project.BTree.Parts.{IsPart, Has-part, part-AreOrdered}
use cloud_project.BTree.Filled.{
  Fits, target, copied-Appends, Appends-trans, target-Built, Built-neighbour, slots_of-append,
  slots_space-append,
}
use cloud_project.BTree.Merge.{space_upper_bound, merge_into}
use cloud_project.BTree.Joined.{
  Has-append, append-AreOrdered, common_len-squeezed, length-append_entries,
}
use cloud_project.BTree.Merging.{bound-Fits}

-- Two leaves next to each other: the fence in between is a key, within the outer ones.
pub record AreNeighbours (n right : Node) : Type 0 where
  pub valid : IsValid n × IsValid right
  pub within : AreWithin n × AreWithin right
  pub shared : n.upper_fence ≡ right.lower_fence
  pub some_fence : n.upper_fence ≢ []
  pub between : IsWithin n.lower_fence right.upper_fence n.upper_fence

-- What a merged leaf holds: what the two held.
pub record Merges (n right m : Node) : Type 0 where
  pub valid : IsValid m
  pub within : AreWithin m
  pub fences : (m.lower_fence ≡ n.lower_fence) × (m.upper_fence ≡ right.upper_fence)
  pub link : m.neighbour ≡ right.neighbour
  pub leaf : m.is_leaf ≡ n.is_leaf
  pub holds : (k payload : List ℕ) → Holds k payload m ↔ (Holds k payload n ⊎ Holds k payload right)

merge_into_lem :
    (tmp n right l r : Node)
    → copied n n.slots tmp ≡ done l
    → copied right right.slots l ≡ done r
    → merge_into tmp n right ≡ done (make_hint (record r { neighbour = right.neighbour }))
unfolding merge_into
merge_into_lem tmp n right l r e f = rw (e, f) refl

whole-IsPart : (n : Node) → IsPart n 0 n.slots
whole-IsPart n = record {
  inside = omega arith;
  same = λ i h. let e : i ≡ 0 + i = omega arith in ap (slot_at n.slots) e;
}

module _ (n : Node) (v : IsValid n) (w : AreWithin n) where
  Has-entries : (k payload : List ℕ) → Has k payload (entries n n.slots) ↔ Holds k payload n
  Has-entries k payload =
      let p = Has-part n 0 n.slots v w.bytes (whole-IsPart n) k payload in
      (
        λ h.
            let t = p.0 h in
            record { index = t.index; inside = omega (arith, t.to); key = t.key; value = t.value },
        λ h. p.1 (record {
          index = h.index;
          from = omega arith;
          to = omega (arith, h.inside);
          key = h.key;
          value = h.value;
        }),
      )

  entries-AreOrdered : AreOrdered (entries n n.slots)
  entries-AreOrdered = part-AreOrdered n 0 n.slots v w.bytes (whole-IsPart n)

  key-IsWithin :
      (i : ℕ)
      → i < length (entries n n.slots)
      → IsWithin n.lower_fence n.upper_fence (key_at (entries n n.slots) i)
  key-IsWithin i h =
      w.each (key_at (entries n n.slots) i) (entry_at (entries n n.slots) i).1
        ((Has-entries _ _).0 (record { index = i; inside = h; there = refl }))

module _ (n right : Node) (nb : AreNeighbours n right) where
  -- The keys of either side, within the outer fences.
  left-IsWithin :
      (k : List ℕ)
      → IsWithin n.lower_fence n.upper_fence k
      → IsWithin n.lower_fence right.upper_fence k
  left-IsWithin k w = record { above = w.above; below = go w.below nb.between.below }
    where
      chain : UpTo k n.upper_fence → UpTo n.upper_fence right.upper_fence → UpTo k right.upper_fence
      chain (inl a) (inl b) = inl (Before-trans _ _ _ a b)
      chain (inl a) (inr e) = inl (subst (Before k) e a)
      chain (inr e) b = subst (λ x. UpTo x right.upper_fence) (sym e) b

      go :
          (n.upper_fence ≡ []) ⊎ UpTo k n.upper_fence
          → (right.upper_fence ≡ []) ⊎ UpTo n.upper_fence right.upper_fence
          → (right.upper_fence ≡ []) ⊎ UpTo k right.upper_fence
      go (inl e) b = absurd (nb.some_fence e)
      go (inr a) (inl e) = inl e
      go (inr a) (inr b) = inr (chain a b)

  right-IsWithin :
      (k : List ℕ)
      → IsWithin right.lower_fence right.upper_fence k
      → IsWithin n.lower_fence right.upper_fence k
  right-IsWithin k w = record { above = go w.above nb.between.above; below = w.below }
    where
      go :
          (right.lower_fence ≡ []) ⊎ Before right.lower_fence k
          → (n.lower_fence ≡ []) ⊎ Before n.lower_fence n.upper_fence
          → (n.lower_fence ≡ []) ⊎ Before n.lower_fence k
      go (inl e) b = absurd (nb.some_fence (nb.shared ∙ e))
      go (inr a) (inl e) = inl e
      go (inr a) (inr b) = inr (Before-trans _ _ _ b (subst (λ x. Before x k) (sym nb.shared) a))

  abbrev both : List Entry
  both = entries n n.slots ++ entries right right.slots

  keys_apart :
      (i j : ℕ)
      → i < length (entries n n.slots)
      → j < length (entries right right.slots)
      → Before (key_at (entries n n.slots) i) (key_at (entries right right.slots) j)
  keys_apart i j hi hj =
      go (key-IsWithin n nb.valid.0 nb.within.0 i hi).below
        (key-IsWithin right nb.valid.1 nb.within.1 j hj).above
    where
      a : List ℕ
      a = key_at (entries n n.slots) i

      b : List ℕ
      b = key_at (entries right right.slots) j

      go :
          (n.upper_fence ≡ []) ⊎ UpTo a n.upper_fence
          → (right.lower_fence ≡ []) ⊎ Before right.lower_fence b
          → Before a b
      go (inl e) y = absurd (nb.some_fence e)
      go (inr x) (inl e) = absurd (nb.some_fence (nb.shared ∙ e))
      go (inr (inl x)) (inr y) =
          Before-trans a n.upper_fence b x (subst (λ f. Before f b) (sym nb.shared) y)
      go (inr (inr e)) (inr y) = subst (λ f. Before f b) (sym (e ∙ nb.shared)) y

  both-AreOrdered : AreOrdered both
  both-AreOrdered =
      append-AreOrdered (entries n n.slots) (entries right right.slots)
        (entries-AreOrdered n nb.valid.0 nb.within.0)
        (entries-AreOrdered right nb.valid.1 nb.within.1) keys_apart

  both_holds :
      (k payload : List ℕ) → Has k payload both ↔ (Holds k payload n ⊎ Holds k payload right)
  both_holds k payload =
      let a = Has-append k payload (entries n n.slots) (entries right right.slots) in
      let l = Has-entries n nb.valid.0 nb.within.0 k payload in
      let r = Has-entries right nb.valid.1 nb.within.1 k payload in
      (
        λ h. elim (a.0 h) [ inl x ↦ inl (l.0 x) | inr x ↦ inr (r.0 x) ],
        λ h. a.1 (elim h [ inl x ↦ inl (l.1 x) | inr x ↦ inr (r.1 x) ]),
      )

  held-IsWithin :
      (k payload : List ℕ)
      → Holds k payload n ⊎ Holds k payload right
      → IsWithin n.lower_fence right.upper_fence k
  held-IsWithin k payload (inl h) = left-IsWithin k (nb.within.0.each k payload h)
  held-IsWithin k payload (inr h) = right-IsWithin k (nb.within.1.each k payload h)

  key_both : (i : ℕ) → i < length both → IsWithin n.lower_fence right.upper_fence (key_at both i)
  key_both i h =
      held-IsWithin (key_at both i) (entry_at both i).1
        ((both_holds _ _).0 (record { index = i; inside = h; there = refl }))

  built-Merges :
      (m : Node)
      → Built n.lower_fence right.upper_fence both m
      → m.is_leaf ≡ n.is_leaf
      → Merges n right (make_hint (record m { neighbour = right.neighbour }))
  unfolding make_hint
  built-Merges m b leaf =
      let made = record m { neighbour = right.neighbour } in
      let built = Built-neighbour n.lower_fence right.upper_fence both m right.neighbour b in
      let begins : (i : ℕ) → i < length both → Begins (key_at both i) made = λ i h.
        IsWithin-Begins made n.lower_fence right.upper_fence (key_at both i) b.lower_is b.common
          (key_both i h) in
      let holds =
        built-Holds n.lower_fence right.upper_fence both made built both-AreOrdered begins in
      record {
        valid =
            built-IsValid n.lower_fence right.upper_fence both made built both-AreOrdered begins;
        within = record {
          bytes = subst AreBytes (sym b.lower_is) nb.within.0.bytes;
          each = λ k payload h.
              rw (b.lower_is, b.upper_is)
                (held-IsWithin k payload ((both_holds k payload).0 ((holds k payload).0 h)));
        };
        fences = (b.lower_is, b.upper_is);
        link = refl;
        leaf = leaf;
        holds = λ k payload. (
          λ h. (both_holds k payload).0 ((holds k payload).0 h),
          λ h. (holds k payload).1 ((both_holds k payload).1 h),
        );
      }

  prefixes_shrink :
      (common_len n.lower_fence right.upper_fence ≤ n.prefix_len)
      × (common_len n.lower_fence right.upper_fence ≤ right.prefix_len)
  unfolding common_len
  prefixes_shrink =
      let shrinks = go nb.between.above nb.between.below in
      (
        omega (arith, shrinks.0, nb.valid.0.common),
        omega (
          arith,
          shrinks.1,
          nb.valid.1.common,
          ap (λ x. common_len x right.upper_fence) nb.shared,
        ),
      )
    where
      go :
          (n.lower_fence ≡ []) ⊎ Before n.lower_fence n.upper_fence
          → (right.upper_fence ≡ []) ⊎ UpTo n.upper_fence right.upper_fence
          → (common_len n.lower_fence right.upper_fence ≤ common_len n.lower_fence n.upper_fence)
            × (common_len n.lower_fence right.upper_fence
                ≤ common_len n.upper_fence right.upper_fence)
      go (inl e) b =
          let none : common_len n.lower_fence right.upper_fence ≡ 0 =
            ap (λ x. common_len x right.upper_fence) e in
          omega (arith, none)
      go (inr a) (inl e) =
          let none : common_len n.lower_fence right.upper_fence ≡ 0 =
            ap (common_len n.lower_fence) e ∙ common_len-none n.lower_fence in
          omega (arith, none)
      go (inr a) (inr b) = common_len-squeezed n.lower_fence n.upper_fence right.upper_fence a b

  abbrev tmp : Node
  tmp = target n.lower_fence right.upper_fence n.is_leaf no_neighbour

  abbrev outer : ℕ
  outer = common_len n.lower_fence right.upper_fence

  abbrev left_entries : List Entry
  left_entries = entries n n.slots

  abbrev right_entries : List Entry
  right_entries = entries right right.slots

  module _ (fits : Fits n.lower_fence right.upper_fence both) where
    spaces :
        slots_space (slots_of outer both)
        ≡ slots_space (slots_of outer left_entries) + slots_space (slots_of outer right_entries)
    spaces =
        ap slots_space (slots_of-append outer left_entries right_entries)
        ∙ slots_space-append (slots_of outer left_entries) (slots_of outer right_entries)

    first_copy : (l : Node) × (copied n n.slots tmp ≡ done l) × Appends left_entries tmp l
    unfolding set_fences insert_fence
    first_copy =
        copied-Appends n tmp n.slots
          (length-take n.prefix_len n.lower_fence nb.valid.0.searchable.prefixed)
          (omega (arith, fits, spaces, length-append_entries left_entries right_entries))
          (omega (arith, fits))

    module _ (l : Node) (al : Appends left_entries tmp l) where
      tmp_is :
          (tmp.data_offset + (length n.lower_fence + length right.upper_fence) ≡ page_size)
          × (tmp.space_used ≡ length n.lower_fence + length right.upper_fence)
          × (length tmp.slots ≡ 0)
          × (tmp.prefix_len ≡ outer)
      unfolding set_fences insert_fence
      tmp_is = (omega (arith, fits), omega (arith, fits), refl, refl)

      taken_by :
          (p : ℕ)
          → p ≡ outer
          → slots_space (slots_of p left_entries) ≡ slots_space (slots_of outer left_entries)
      taken_by p e = ap (λ q. slots_space (slots_of q left_entries)) e

      leaf_is : tmp.is_leaf ≡ n.is_leaf
      unfolding set_fences insert_fence
      leaf_is = refl

      prefix_is : l.prefix_len ≡ outer
      prefix_is = ap (λ x. x.prefix_len) al.same ∙ tmp_is.3

      size_is : count l ≡ length left_entries
      size_is =
          let added = length-append tmp.slots (slots_of tmp.prefix_len left_entries) in
          omega (
            arith,
            ap length al.slots,
            added,
            tmp_is.2,
            length-slots_of tmp.prefix_len left_entries,
          )

      second_copy : (r : Node) × (copied right right.slots l ≡ done r) × Appends right_entries l r
      second_copy =
          copied-Appends right l right.slots
            (length-take right.prefix_len right.lower_fence nb.valid.1.searchable.prefixed)
            (omega (
              arith,
              fits,
              spaces,
              length-append_entries left_entries right_entries,
              ap (λ q. slots_space (slots_of q right_entries)) prefix_is,
              al.offset,
              tmp_is.0,
              taken_by tmp.prefix_len tmp_is.3,
              size_is,
            ))
            (omega (arith, al.offset, al.used, tmp_is.0, tmp_is.1))

      finish :
          (r : Node)
          → Appends right_entries l r
          → Merges n right (make_hint (record r { neighbour = right.neighbour }))
      finish r ar =
          let appended = Appends-trans left_entries right_entries tmp l r al ar in
          built-Merges r
            (target-Built n.lower_fence right.upper_fence both n.is_leaf no_neighbour r fits
              appended)
            (ap (λ x. x.is_leaf) appended.same ∙ leaf_is)

  -- When the bound allows it, both copies succeed.
  pub merge_into-Merges :
      leb (space_upper_bound (common_len n.lower_fence right.upper_fence) n right) page_size ≡ true
      → (m : Node) × (merge_into tmp n right ≡ done m) × Merges n right m
  merge_into-Merges bound =
      let fits =
        bound-Fits n right nb.valid.0 nb.valid.1 prefixes_shrink.0 prefixes_shrink.1 bound in
      let (l, el, al) = first_copy fits in
      let (r, er, ar) = second_copy fits l al in
      (
        make_hint (record r { neighbour = right.neighbour }),
        merge_into_lem tmp n right l r el er,
        finish fits l al r ar,
      )
