-- ===== src/Tree/Tests.antt =====
-- A tree of two leaves, and the theorems at it.
use cloud_project.Prelude.{
  ◌-◌, ◌++◌, ℕ, zero, suc, ◌<◌, ◌≡◌, inl, inr, refl, sym, ◌∙◌, arith, Bool, true, false, none, some,
  List, [], ◌∷◌, done,
}
use mathlib.Core.Path.{subst}
use cloud_project.Prelude.Steps.{done_injective}
use cloud_project.BTree.Keys.{head, cust_memcmp}
use cloud_project.BTree.Compare.{way, by_bytes, by_length}
use cloud_project.BTree.Node.{
  Node, slot_at, search_hint, search_loop, lower_bound, first_not_below, first_other, scan,
}
use cloud_project.BTree.LowerBound.{Locates, lower_bound-Locates}
use cloud_project.BTree.Update.{
  common_len, has_space_for, space_needed, free_space_after_compaction,
}
use cloud_project.BTree.Valid.{IsValid, slots_space}
use cloud_project.BTree.Fences.{IsWithin}
use cloud_project.BTree.Split.{no_neighbour, pid_bytes, le_bytes, le_number, get_child}
use cloud_project.BTree.Tests.Small.{small_node, small_node-IsValid}
use cloud_project.Tree.Pages.{Tree, Trail, page_at, no_page, step, descend, find_leaf}
use cloud_project.Tree.Operations.{find_in, lookup, insert, remove, is_under_full}
use cloud_project.Tree.Descent.{Arrives, IsTree}
use cloud_project.Tree.Insert.{HasSpace, Stores, insert-Stores}
use cloud_project.Tree.Scans.{scan_asc, scan_desc}
use cloud_project.Tree.Visits.{visit, places, all_places, scan_asc-visit}
use cloud_project.Tree.VisitsDown.{
  places_down, all_places_down, first_above, is_exact, scan_desc-visit,
}
use cloud_project.Tree.Remove.{IsFull, Drops, remove-Drops}

-- The key 2 up to the separator 5, and the key 7 behind it.
abbrev low : Node
low = small_node true 2 [] (5 ∷ []) 3 ((2, 9 ∷ []) ∷ [])

abbrev high : Node
high = small_node true no_neighbour (5 ∷ []) [] 3 ((7, 8 ∷ []) ∷ [])

abbrev top : Node
top = small_node false 2 [] [] 9 ((5, pid_bytes 1) ∷ [])

abbrev tree : Tree
tree = record { pages = no_page ∷ low ∷ high ∷ top ∷ []; root = 3; split_ordered = false }

low-IsValid : IsValid low
unfolding common_len slots_space
low-IsValid =
    small_node-IsValid true 2 [] (5 ∷ []) 3 ((2, 9 ∷ []) ∷ []) (omega arith) refl (omega arith) refl
      (omega arith)

high-IsValid : IsValid high
unfolding common_len slots_space
high-IsValid =
    small_node-IsValid true no_neighbour (5 ∷ []) [] 3 ((7, 8 ∷ []) ∷ []) (omega arith) refl
      (omega arith) refl (omega arith)

top-IsValid : IsValid top
unfolding common_len slots_space le_bytes
top-IsValid =
    small_node-IsValid false 2 [] [] 9 ((5, pid_bytes 1) ∷ []) (omega arith) refl (omega arith) refl
      (omega arith)

no_page-IsValid : IsValid no_page
unfolding common_len slots_space
no_page-IsValid =
    small_node-IsValid true no_neighbour [] [] 0 [] tt refl (omega arith) refl (omega arith)

pages_valid : (pid : ℕ) → pid < 4 → IsValid (page_at pid tree)
pages_valid zero h = no_page-IsValid
pages_valid (suc zero) h = low-IsValid
pages_valid (suc (suc zero)) h = high-IsValid
pages_valid (suc (suc (suc zero))) h = top-IsValid
pages_valid (suc (suc (suc (suc pid)))) h = absurd (omega arith)

abbrev to_low : Trail
to_low = record { parent = some 3; place = 0; pid = 1 }

abbrev to_high : Trail
to_high = record { parent = some 3; place = 1; pid = 2 }

low_route :
    (k : List ℕ) (b : Bool) → lower_bound k top ≡ done (b, 0) → find_leaf 2 k tree ≡ done to_low
unfolding find_leaf descend step get_child le_number le_bytes
low_route k b e = rw e refl

high_route :
    (k : List ℕ) (b : Bool) → lower_bound k top ≡ done (b, 1) → find_leaf 2 k tree ≡ done to_high
unfolding find_leaf descend step get_child le_number le_bytes
high_route k b e = rw e refl

up_to_five : (k : List ℕ) (b : Bool) → Locates k top (b, 0) → IsWithin [] (5 ∷ []) k
up_to_five k true l = record { above = inl refl; below = inr (inr (sym (l.hit refl).1)) }
up_to_five k false l = record {
  above = inl refl;
  below = inr (inl (l.miss refl 0 (omega arith) (omega arith)));
}

routes :
    (k : List ℕ) (a : Bool × ℕ)
    → lower_bound k top ≡ done a
    → Locates k top a
    → (p : Trail) × (find_leaf 2 k tree ≡ done p) × Arrives k p tree
routes k (b, zero) e l = (
  to_low,
  low_route k b e,
  record { inside = omega arith; leaf = refl; within = up_to_five k b l },
)
routes k (b, suc zero) e l = (
  to_high,
  high_route k b e,
  record {
    inside = omega arith;
    leaf = refl;
    within = record { above = inr (l.below 0 (omega arith)); below = inl refl };
  },
)
routes k (b, suc (suc i)) e l = absurd (omega (arith, l.inside))

tree-IsTree : IsTree 2 tree
tree-IsTree = record {
  valid = pages_valid;
  leads = λ k bytes.
      let (a, e, l) = lower_bound-Locates k top top-IsValid.searchable bytes in routes k a e l;
}

-- 4 is behind the 2 in the low leaf, and 7 is in the high one.
places_found :
    (lower_bound (4 ∷ []) top ≡ done (false, 0))
    × (lower_bound (7 ∷ []) top ≡ done (false, 1))
    × (lower_bound (4 ∷ []) low ≡ done (false, 1))
    × (lower_bound (7 ∷ []) high ≡ done (true, 0))
unfolding lower_bound search_loop search_hint first_not_below first_other scan way by_bytes
    by_length cust_memcmp head
places_found = (refl, refl, refl, refl)

four_missing : lookup 2 (4 ∷ []) tree ≡ done none
unfolding lookup find_in
four_missing = rw (low_route (4 ∷ []) false places_found.0, places_found.2) refl

four-HasSpace : HasSpace 2 (4 ∷ []) (6 ∷ []) tree
unfolding has_space_for space_needed free_space_after_compaction
four-HasSpace p e =
    subst (λ x. has_space_for 1 1 (page_at x.pid tree) ≡ true)
      (done_injective to_low p (sym (low_route (4 ∷ []) false places_found.0) ∙ e)) refl

seven-IsFull : IsFull 2 (7 ∷ []) tree
unfolding is_under_full free_space_after_compaction
seven-IsFull p r e found =
    subst (λ x. is_under_full r x x.parent tree ≡ false)
      (done_injective to_high p (sym (high_route (7 ∷ []) false places_found.1) ∙ e)) (ground arith)

insert-Stores_example :
    (t' : Tree) × (insert 1 2 (4 ∷ []) (6 ∷ []) tree ≡ done t') × Stores 2 (4 ∷ []) (6 ∷ []) tree t'
insert-Stores_example =
    insert-Stores 0 2 (4 ∷ []) (6 ∷ []) tree tree-IsTree (omega arith, tt) (omega arith)
      four_missing four-HasSpace

remove-Drops_example :
    (answer : Bool) × (t' : Tree) × (remove 2 (7 ∷ []) tree ≡ done (answer, t'))
    × Drops 2 (7 ∷ []) tree t' answer
remove-Drops_example = remove-Drops 2 (7 ∷ []) tree tree-IsTree (omega arith, tt) seven-IsFull

five_found : lower_bound (5 ∷ []) top ≡ done (true, 0)
unfolding lower_bound search_loop search_hint first_not_below first_other scan way by_bytes
    by_length cust_memcmp head
five_found = refl

-- The payloads, the last one first.
abbrev collect : Node → ℕ → List ℕ → Bool × List ℕ
collect n i s = (true, (slot_at n.slots i).payload ++ s)

abbrev collect_down : Node → ℕ → Bool → List ℕ → Bool × List ℕ
collect_down n i exact s = collect n i s

scan_asc-visit_example :
    (a : Bool × ℕ) × Locates (4 ∷ []) low a
    × (scan_asc 2 4 (4 ∷ []) collect tree []
        ≡ done (visit collect (places (1 - a.1) a.1 low ++ all_places (high ∷ [])) []))
scan_asc-visit_example =
    scan_asc-visit collect tree 2 4 (4 ∷ []) to_low (high ∷ []) []
      (low_route (4 ∷ []) false places_found.0) low-IsValid (omega arith, tt)
      ((λ e. absurd (omega (arith, e))), refl, refl) (omega arith)

scan_desc-visit_example :
    (a : Bool × ℕ) × Locates (7 ∷ []) high a
    × (scan_desc 2 2 (7 ∷ []) collect_down tree []
        ≡ done (
            visit
              (λ n i s. collect_down n i (is_exact a high) s)
              (places_down (first_above a high) high ++ all_places_down (low ∷ []))
              []))
scan_desc-visit_example =
    scan_desc-visit collect_down tree 2 2 (7 ∷ []) to_high (low ∷ []) []
      (high_route (7 ∷ []) false places_found.1) high-IsValid (omega arith, tt)
      ((λ e. absurd (omega (arith, e))), (to_low, low_route (5 ∷ []) true five_found, refl), refl)
      (omega arith)
