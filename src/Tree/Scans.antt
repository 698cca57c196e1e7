-- ===== src/Tree/Scans.antt =====
-- btree.hpp, BTree: scanAsc and scanDesc. What `fn` keeps is passed on, and `fn` says whether the scan
-- goes on.
use cloud_project.Prelude.{
  ℕ, zero, suc, ◌+◌, Bool, true, false, List, ◌==◌, ltb, if◌then◌else◌, length, Run, done,
  out_of_rounds,
}
use cloud_project.Prelude.Steps.{◌>>=◌}
use cloud_project.BTree.Node.{Node, count, lower_bound}
use cloud_project.BTree.Split.{no_neighbour}
use cloud_project.Tree.Pages.{Tree, page_at, find_leaf}

-- The loop of `scanAsc`, one round for each slot and for each step to the next leaf.
unfoldable pub scan_asc_loop :
    {S : Type 0} (rounds : ℕ) (fn : Node → ℕ → S → Bool × S) (pos : ℕ) → Node → Tree → S → Run S
scan_asc_loop zero fn pos n t s = out_of_rounds
scan_asc_loop (suc rounds) fn pos n t s = elim (ltb pos (count n)) [
  | true ↦
      let r = fn n pos s in
      elim r.0 [ true ↦ scan_asc_loop rounds fn (pos + 1) n t r.1 | false ↦ done r.1 ]
  | false ↦ elim (n.neighbour == no_neighbour) [
    | true ↦ done s
    | false ↦ scan_asc_loop rounds fn 0 (page_at n.neighbour t) t s
  ]
]

unfoldable pub scan_asc :
    {S : Type 0} (depth rounds : ℕ) (key : List ℕ) (fn : Node → ℕ → S → Bool × S) → Tree → S → Run S
scan_asc depth rounds key fn t s = do
  p ← find_leaf depth key t
  a ← lower_bound key (page_at p.pid t)
  scan_asc_loop rounds fn a.1 (page_at p.pid t) t s

-- The inner loop of `scanDesc`, over the slots below `above`: whether to go on, and what is kept.
unfoldable pub scan_down :
    {S : Type 0} (fn : Node → ℕ → Bool → S → Bool × S) (exact : Bool)
    → Node
    → (above : ℕ) → S
    → Bool × S
scan_down fn exact n zero s = (true, s)
scan_down fn exact n (suc pos) s =
    let r = fn n pos exact s in
    elim r.0 [ true ↦ scan_down fn exact n pos r.1 | false ↦ (false, r.1) ]

-- The loop of `scanDesc`, one round for each leaf.
unfoldable pub scan_desc_loop :
    {S : Type 0} (depth rounds : ℕ) (fn : Node → ℕ → Bool → S → Bool × S) (exact : Bool) (above : ℕ)
    → Node
    → Tree
    → S
    → Run S
scan_desc_loop depth zero fn exact above n t s = out_of_rounds
scan_desc_loop depth (suc rounds) fn exact above n t s =
    let r = scan_down fn exact n above s in
    elim r.0 [
      | true ↦ elim (length n.lower_fence == 0) [
        | true ↦ done r.1
        | false ↦ find_leaf depth n.lower_fence t >>= λ p.
            let m = page_at p.pid t in scan_desc_loop depth rounds fn exact (count m) m t r.1
      ]
      | false ↦ done r.1
    ]

-- Where `scanDesc` starts: behind the last slot the answer of the search is replaced.
unfoldable pub scan_desc :
    {S : Type 0} (depth rounds : ℕ) (key : List ℕ) (fn : Node → ℕ → Bool → S → Bool × S)
    → Tree
    → S
    → Run S
scan_desc depth rounds key fn t s = do
  p ← find_leaf depth key t
  a ← lower_bound key (page_at p.pid t)
  let n = page_at p.pid t
  (if a.1 == count n
      then scan_desc_loop depth rounds fn true (count n) n t s
      else scan_desc_loop depth rounds fn a.0 (a.1 + 1) n t s)
