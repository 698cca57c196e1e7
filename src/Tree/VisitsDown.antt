-- ===== src/Tree/VisitsDown.antt =====
-- btree.hpp, BTree: scanDesc calls `fn` for the slots of the leaves downwards, until it says to stop.
use cloud_project.Prelude.{
  ℕ, zero, suc, ◌+◌, ◌<◌, ◌≡◌, ◌≢◌, inl, inr, refl, sym, ap, ◌∙◌, arith, Bool, true, false, List,
  [], ◌∷◌, ◌++◌, ◌==◌, ne→==_false, Bool-cases, length, done, if◌then◌else◌,
}
use cloud_project.Prelude.Steps.{◌>>=◌}
use cloud_project.BTree.Keys.{AreBytes}
use cloud_project.BTree.Node.{Node, count}
use cloud_project.BTree.LowerBound.{Locates, lower_bound-Locates}
use cloud_project.BTree.Valid.{IsValid}
use cloud_project.Tree.Pages.{Tree, Trail, page_at, find_leaf}
use cloud_project.Tree.Scans.{scan_down, scan_desc_loop, scan_desc}
use cloud_project.Tree.Visits.{visit}

-- What is kept when a scan has stopped, and `f` of it otherwise.
abbrev settle : {S : Type 0} (f : S → S) → Bool × S → S
settle f r = elim r.0 [ true ↦ f r.1 | false ↦ r.1 ]

-- The places below `k`, downwards, and all places of leaves.
abbrev pub places_down : (k : ℕ) → Node → List (Node × ℕ)
places_down zero n = []
places_down (suc k) n = (n, k) ∷ places_down k n

abbrev pub all_places_down : List Node → List (Node × ℕ)
all_places_down [] = []
all_places_down (m ∷ ns) = places_down (count m) m ++ all_places_down ns

-- The leaves before a leaf, each one found by the lower fence of the one behind it.
abbrev pub AreBefore : (depth : ℕ) → Tree → Node → List Node → Type 0
AreBefore depth t n [] = length n.lower_fence ≡ 0
AreBefore depth t n (m ∷ ns) =
    (length n.lower_fence ≢ 0)
    × ((p : Trail) × (find_leaf depth n.lower_fence t ≡ done p) × (page_at p.pid t ≡ m))
    × AreBefore depth t m ns

module _ {S : Type 0} (depth : ℕ) (fn : Node → ℕ → Bool → S → Bool × S) (exact : Bool)
    (t : Tree) where
  abbrev visits : List (Node × ℕ) → S → S
  visits = visit (λ n i s. fn n i exact s)

  scan_down_none : (n : Node) (s : S) → scan_down fn exact n 0 s ≡ (true, s)
  unfolding scan_down
  scan_down_none n s = refl

  scan_down_on :
      (k : ℕ) (n : Node) (s : S)
      → (fn n k exact s).0 ≡ true
      → scan_down fn exact n (suc k) s ≡ scan_down fn exact n k (fn n k exact s).1
  unfolding scan_down
  scan_down_on k n s on = rw (scan_down, on) refl

  scan_down_off :
      (k : ℕ) (n : Node) (s : S)
      → (fn n k exact s).0 ≡ false
      → scan_down fn exact n (suc k) s ≡ (false, (fn n k exact s).1)
  unfolding scan_down
  scan_down_off k n s off = rw (scan_down, off) refl

  visit-scan_down :
      (k : ℕ) (n : Node) (xs : List (Node × ℕ)) (s : S)
      → visits (places_down k n ++ xs) s ≡ settle (visits xs) (scan_down fn exact n k s)
  visit-scan_down zero n xs s = ap (settle (visits xs)) (sym (scan_down_none n s))
  visit-scan_down (suc k) n xs s = elim (Bool-cases (fn n k exact s).0) [
    | inl on ↦
        let first : visits (places_down (suc k) n ++ xs) s
            ≡ visits (places_down k n ++ xs) (fn n k exact s).1 =
          rw on refl in
        first
        ∙ visit-scan_down k n xs (fn n k exact s).1
        ∙ ap (settle (visits xs)) (sym (scan_down_on k n s on))
    | inr off ↦
        let first : visits (places_down (suc k) n ++ xs) s ≡ (fn n k exact s).1 = rw off refl in
        first ∙ ap (settle (visits xs)) (sym (scan_down_off k n s off))
  ]

  scan_desc_loop_lem :
      (rounds k : ℕ) (n : Node) (ns : List Node) (s : S)
      → AreBefore depth t n ns
      → length ns < rounds
      → scan_desc_loop depth rounds fn exact k n t s
        ≡ done (visits (places_down k n ++ all_places_down ns) s)
  unfolding scan_desc_loop
  scan_desc_loop_lem zero k n ns s before enough = absurd (omega arith)
  scan_desc_loop_lem (suc rounds) k n ns s before enough =
      elim (Bool-cases (scan_down fn exact n k s).0) [
        | inl on ↦
            rw (scan_desc_loop, visit-scan_down k n (all_places_down ns) s, on)
              (onward ns before enough
                (λ m ns. scan_desc_loop_lem rounds (count m) m ns (scan_down fn exact n k s).1))
        | inr off ↦ rw (scan_desc_loop, visit-scan_down k n (all_places_down ns) s, off) refl
      ]
    where
      onward :
          (ns : List Node)
          → AreBefore depth t n ns
          → length ns < suc rounds
          → ((m : Node) (ns : List Node)
              → AreBefore depth t m ns
              → length ns < rounds
              → scan_desc_loop depth rounds fn exact (count m) m t (scan_down fn exact n k s).1
                ≡ done (visits (all_places_down (m ∷ ns)) (scan_down fn exact n k s).1))
          → elim (length n.lower_fence == 0) [
            | true ↦ done (scan_down fn exact n k s).1
            | false ↦ find_leaf depth n.lower_fence t >>= λ p.
                scan_desc_loop depth rounds fn exact
                  (count (page_at p.pid t))
                  (page_at p.pid t)
                  t
                  (scan_down fn exact n k s).1
          ]
            ≡ done (visits (all_places_down ns) (scan_down fn exact n k s).1)
      onward [] before enough rest = rw before refl
      onward (m ∷ ns) before enough rest =
          rw (ne→==_false (length n.lower_fence) 0 before.0, before.1.1, before.1.2)
            (rest m ns before.2 (omega arith))

-- Where a descent begins: with the slot that the search answers, or with the last one.
abbrev pub first_above : Bool × ℕ → Node → ℕ
first_above a n = if a.1 == count n then count n else a.1 + 1

abbrev pub is_exact : Bool × ℕ → Node → Bool
is_exact a n = if a.1 == count n then true else a.0

module _ {S : Type 0} (fn : Node → ℕ → Bool → S → Bool × S) (t : Tree) where
  -- With the leaves before the key's leaf along the lower fences, and a round for each leaf,
  -- `scanDesc` returns what `fn` makes of the slots downwards, from the first one of the leaf that is
  -- not below the key, or its last one if there is none, until it says to stop. The flag is the
  -- answer of the search all along, and true when there is none.
  pub scan_desc-visit :
      (depth rounds : ℕ) (key : List ℕ) (p : Trail) (ns : List Node) (s : S)
      → find_leaf depth key t ≡ done p
      → IsValid (page_at p.pid t)
      → AreBytes key
      → AreBefore depth t (page_at p.pid t) ns
      → length ns < rounds
      → (a : Bool × ℕ) × Locates key (page_at p.pid t) a
        × (scan_desc depth rounds key fn t s
            ≡ done (
                visit
                  (λ n i s. fn n i (is_exact a (page_at p.pid t)) s)
                  (places_down (first_above a (page_at p.pid t)) (page_at p.pid t)
                    ++ all_places_down ns)
                  s))
  unfolding scan_desc
  scan_desc-visit depth rounds key p ns s e v bytes before enough =
      let n = page_at p.pid t in
      let (a, found, l) = lower_bound-Locates key n v.searchable bytes in
      (
        a,
        l,
        elim (Bool-cases (a.1 == count n)) [
          | inl last ↦
              rw (e, found, last)
                (scan_desc_loop_lem depth fn true t rounds (count n) n ns s before enough)
          | inr inner ↦
              rw (e, found, inner)
                (scan_desc_loop_lem depth fn a.0 t rounds (a.1 + 1) n ns s before enough)
        ],
      )
