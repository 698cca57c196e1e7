-- ===== src/Tree/Visits.antt =====
-- btree.hpp, BTree: scanAsc calls `fn` for the slots of the leaves in order, until it says to stop.
use cloud_project.Prelude.{
  ℕ, zero, suc, ◌+◌, ◌-◌, ◌≤◌, ◌≡◌, ◌≢◌, inl, inr, refl, arith, Bool, true, false, List, [], ◌∷◌,
  ◌++◌, ne→==_false, lt→ltb, le→ltb_false, Bool-cases, done,
}
use cloud_project.BTree.Keys.{AreBytes}
use cloud_project.BTree.Node.{Node, count}
use cloud_project.BTree.LowerBound.{Locates, lower_bound-Locates}
use cloud_project.BTree.Valid.{IsValid}
use cloud_project.BTree.Split.{no_neighbour}
use cloud_project.Tree.Pages.{Tree, Trail, page_at, find_leaf}
use cloud_project.Tree.Scans.{scan_asc_loop, scan_asc}

-- `fn` is called for the places in order, until it says to stop.
abbrev pub visit : {S : Type 0} (fn : Node → ℕ → S → Bool × S) → List (Node × ℕ) → S → S
visit fn [] s = s
visit fn ((n, i) ∷ xs) s = let r = fn n i s in elim r.0 [ true ↦ visit fn xs r.1 | false ↦ r.1 ]

-- `k` places from `pos` on, and all places of leaves.
abbrev pub places : (k pos : ℕ) → Node → List (Node × ℕ)
places zero pos n = []
places (suc k) pos n = (n, pos) ∷ places k (pos + 1) n

abbrev pub all_places : List Node → List (Node × ℕ)
all_places [] = []
all_places (m ∷ ns) = places (count m) 0 m ++ all_places ns

-- The leaves behind a leaf, along the links.
abbrev pub AreNext : Tree → Node → List Node → Type 0
AreNext t n [] = n.neighbour ≡ no_neighbour
AreNext t n (m ∷ ns) = (n.neighbour ≢ no_neighbour) × (page_at n.neighbour t ≡ m) × AreNext t m ns

-- The rounds for leaves.
abbrev pub rounds_for : List Node → ℕ
rounds_for [] = 0
rounds_for (m ∷ ns) = count m + 1 + rounds_for ns

module _ {S : Type 0} (fn : Node → ℕ → S → Bool × S) (t : Tree) where
  scan_asc_loop_lem :
      (rounds k pos : ℕ) (n : Node) (ns : List Node) (s : S)
      → pos + k ≡ count n
      → AreNext t n ns
      → k + 1 + rounds_for ns ≤ rounds
      → scan_asc_loop rounds fn pos n t s ≡ done (visit fn (places k pos n ++ all_places ns) s)
  unfolding scan_asc_loop
  scan_asc_loop_lem zero k pos n ns s e next enough = absurd (omega arith)
  scan_asc_loop_lem (suc rounds) zero pos n [] s e next enough =
      rw (scan_asc_loop, le→ltb_false pos (count n) (omega arith), next) refl
  scan_asc_loop_lem (suc rounds) zero pos n (m ∷ ns) s e next enough =
      rw
        (
          scan_asc_loop,
          le→ltb_false pos (count n) (omega arith),
          ne→==_false n.neighbour no_neighbour next.0,
          next.1,
        )
        (scan_asc_loop_lem rounds (count m) 0 m ns s (omega arith) next.2 (omega arith))
  scan_asc_loop_lem (suc rounds) (suc k) pos n ns s e next enough =
      elim (Bool-cases (fn n pos s).0) [
        | inl on ↦
            rw (scan_asc_loop, lt→ltb pos (count n) (omega arith), on)
              (scan_asc_loop_lem rounds k (pos + 1) n ns (fn n pos s).1 (omega arith) next
                (omega arith))
        | inr off ↦ rw (scan_asc_loop, lt→ltb pos (count n) (omega arith), off) refl
      ]

  -- With the leaves behind the key's leaf along the links, and a round for each slot and leaf,
  -- `scanAsc` returns what `fn` makes of the slots in order, from the first one of the leaf that is
  -- not below the key on and through all those leaves, until it says to stop.
  pub scan_asc-visit :
      (depth rounds : ℕ) (key : List ℕ) (p : Trail) (ns : List Node) (s : S)
      → find_leaf depth key t ≡ done p
      → IsValid (page_at p.pid t)
      → AreBytes key
      → AreNext t (page_at p.pid t) ns
      → rounds_for (page_at p.pid t ∷ ns) ≤ rounds
      → (a : Bool × ℕ) × Locates key (page_at p.pid t) a
        × (scan_asc depth rounds key fn t s
            ≡ done (
                visit fn
                  (places (count (page_at p.pid t) - a.1) a.1 (page_at p.pid t) ++ all_places ns)
                  s))
  unfolding scan_asc
  scan_asc-visit depth rounds key p ns s e v bytes next enough =
      let n = page_at p.pid t in
      let (a, found, l) = lower_bound-Locates key n v.searchable bytes in
      (
        a,
        l,
        rw (e, found)
            (scan_asc_loop_lem rounds (count n - a.1) a.1 n ns s (omega (arith, l.inside)) next
              (omega arith)),
      )
