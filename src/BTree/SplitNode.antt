-- ===== src/BTree/SplitNode.antt =====
-- btree.hpp, splitNode of a leaf as a whole.
use mathlib.Core.Path.{subst}
use cloud_project.Prelude.{
  ℕ, ◌+◌, ◌^◌, ◌≤◌, ◌<◌, ◌≡◌, ◌⊎◌, ◌↔◌, inl, inr, refl, ap, ◌∙◌, arith, true, false, List, length,
  take, drop, done, ltb, ltb→lt, lt→ltb, Bool-cases, if◌then◌else◌,
}
use cloud_project.BTree.Keys.{Before, AreBytes}
use cloud_project.BTree.Node.{Node}
use cloud_project.BTree.Update.{has_space_for}
use cloud_project.BTree.LowerBound.{Locates}
use cloud_project.BTree.Valid.{IsValid, Holds}
use cloud_project.BTree.Separator.{Separates}
use cloud_project.BTree.Entries.{entries}
use cloud_project.BTree.Fences.{UpTo, IsWithin, AreWithin}
use cloud_project.BTree.Split.{split_node, split_leaf, split_inner, split_halves, no_neighbour}
use cloud_project.BTree.Filled.{Fits, target, fenced_node_lem}
use cloud_project.BTree.Children.{child_at}
use cloud_project.BTree.Redirect.{IsInner}
use cloud_project.BTree.Splitting.{Leads, relink-Leads}
use cloud_project.BTree.Halves.{Halves, split_leaf-Halves, UpTo-slot}

-- What `splitNode` makes of a leaf and its parent: the keys up to the separator stay, the others
-- are in the new page, which is linked in behind, and the parent leads to the right half.
pub record Splits (left_pid new_pid r : ℕ) (sep : List ℕ) (parent n left right parent' : Node)
    : Type 0 where
  pub valid : IsValid left × IsValid right
  pub within : AreWithin left × AreWithin right
  pub left_fences : (left.lower_fence ≡ n.lower_fence) × (left.upper_fence ≡ sep)
  pub right_fences : (right.lower_fence ≡ sep) × (right.upper_fence ≡ n.upper_fence)
  pub links : (left.neighbour ≡ new_pid) × (right.neighbour ≡ n.neighbour)
  pub leaves : (left.is_leaf ≡ true) × (right.is_leaf ≡ true)
  pub holds :
      (k payload : List ℕ)
      → Holds k payload n
        ↔ ((Holds k payload left × UpTo k sep) ⊎ (Holds k payload right × Before sep k))
  pub leads : Leads left_pid new_pid r sep parent parent'

module _ (n : Node) (w : AreWithin n) (s : ℕ) (sep : List ℕ) (v : IsValid n)
    (separates : Separates n sep s) (new_pid : ℕ) (left right : Node)
    (h : Halves n w s sep v separates new_pid left right) (k payload : List ℕ) where
  parted :
      Holds k payload n
      → (Holds k payload left × UpTo k sep) ⊎ (Holds k payload right × Before sep k)
  parted x = elim (Bool-cases (ltb s x.index)) [
    | inl more ↦ inr (
      (h.right_part.holds k payload).1
          (x.index, omega (arith, ltb→lt _ _ more), x.inside, x.key, x.value),
      subst (Before sep) x.key (separates.lower x.index (ltb→lt _ _ more) x.inside),
    )
    | inr rest ↦
        let le : x.index ≤ s = ground arith in
        inl (
          (h.left_part.holds k payload).1 (x.index, omega arith, omega arith, x.key, x.value),
          subst (λ y. UpTo y sep) x.key (UpTo-slot n w s sep v separates x.index le),
        )
  ]

  joined :
      (Holds k payload left × UpTo k sep) ⊎ (Holds k payload right × Before sep k)
      → Holds k payload n
  joined (inl (x, _)) =
      let t = (h.left_part.holds k payload).0 x in
      record { index = t.0; inside = omega (arith, t.2, separates.inside); key = t.3; value = t.4 }
  joined (inr (x, _)) =
      let t = (h.right_part.holds k payload).0 x in
      record { index = t.0; inside = t.2; key = t.3; value = t.4 }

leaf_halves :
    (new_pid s : ℕ) (n left right : Node)
    → n.is_leaf ≡ true
    → split_halves new_pid s n left right ≡ split_leaf new_pid s n left right
unfolding split_halves
leaf_halves new_pid s n left right leaf =
    ap (λ b. if b then split_leaf new_pid s n left right else split_inner s n left right) leaf

-- `splitNode` of a well-formed leaf, whose keys lie between its fences, behind the slot `s` > 0, with
-- a separator that separates there, returns when both halves fit in a page and the parent is a
-- well-formed inner node that has space, and whose fences the separator lies between, in which it is
-- not there and leads to the leaf's page: every assertion holds, those of the stores and copies
-- included. The two halves are well-formed, linked, and fenced by the
-- separator; together they hold what the leaf held, the keys up to the separator on the left and
-- those behind it on the right. The parent is well-formed, leads the keys that led to the leaf to
-- the half that has them, and all other keys where they led before.
pub split_node-Splits :
    (left_pid new_pid s r : ℕ) (sep : List ℕ) (parent n : Node)
    → IsValid n
    → AreWithin n
    → n.is_leaf ≡ true
    → Separates n sep s
    → 0 < s
    → AreBytes sep
    → Fits n.lower_fence sep (entries n (take (s + 1) n.slots))
    → Fits sep n.upper_fence (entries n (drop (s + 1) n.slots))
    → IsValid parent
    → IsInner parent
    → IsWithin parent.lower_fence parent.upper_fence sep
    → Locates sep parent (false, r)
    → child_at r parent ≡ left_pid
    → left_pid < 2 ^ 64
    → new_pid < 2 ^ 64
    → has_space_for (length sep) 8 parent ≡ true
    → (left : Node) × (right : Node) × (parent' : Node) × (split_node left_pid new_pid s sep parent
          n
        ≡ done (left, right, parent'))
      × Splits left_pid new_pid r sep parent n left right parent'
unfolding split_node
split_node-Splits left_pid new_pid s r sep parent n v w leaf sp pos bytes fl fr pv pi pw absent
      leads lf nf space =
    let (parent', ep, lead) =
      relink-Leads left_pid new_pid r sep parent pv pi bytes pw absent leads lf nf
        (omega (arith, fl)) space in
    let (left, right, eh, h) = split_leaf-Halves n w s sep v sp bytes fl fr new_pid in
    let first = lt→ltb 0 s pos in
    let second : ltb s 512 ≡ true = lt→ltb s 512 (omega (arith, v.apart, v.room, sp.inside)) in
    (
      left,
      right,
      parent',
      rw
          (
            first,
            second,
            fenced_node_lem n.lower_fence sep n.is_leaf no_neighbour (omega arith),
            fenced_node_lem sep n.upper_fence n.is_leaf no_neighbour (omega arith),
            ep,
            leaf_halves new_pid s n (target n.lower_fence sep n.is_leaf no_neighbour)
                  (target sep n.upper_fence n.is_leaf no_neighbour) leaf
                ∙ eh,
          )
          refl,
      record {
        valid = (h.left_part.valid, h.right_part.valid);
        within = (h.left_part.within, h.right_part.within);
        left_fences = (h.left_part.lower_is, h.left_part.upper_is);
        right_fences = (h.right_part.lower_is, h.right_part.upper_is);
        links = h.links;
        leaves = (h.leaves.0 ∙ leaf, h.leaves.1 ∙ leaf);
        holds = λ k payload. (
          parted n w s sep v sp new_pid left right h k payload,
          joined n w s sep v sp new_pid left right h k payload,
        );
        leads = lead;
      },
    )
