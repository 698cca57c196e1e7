-- ===== src/Tree/Pages.antt =====
-- btree.hpp, BTree: the pages of a tree and the descent. Page ids count up from 0, the page of the
-- metadata, of which the tree's root is kept. One operation runs at a time, so that no guard restarts.
use cloud_project.Prelude.{
  ℕ, zero, suc, Bool, true, false, Option, none, some, List, [], ◌∷◌, ◌++◌, ◌==◌, ◌||◌,
  if◌then◌else◌, length, get_or, set, Run, done, out_of_rounds,
}
use cloud_project.Prelude.Steps.{◌>>=◌}
use cloud_project.BTree.Node.{Node, count, lower_bound}
use cloud_project.BTree.Update.{fresh_node}
use cloud_project.BTree.Split.{get_child, no_neighbour}

pub record Tree : Type 0 where
  pub pages : List Node
  pub root : ℕ
  pub split_ordered : Bool

abbrev pub no_page : Node
no_page = fresh_node true no_neighbour

abbrev pub page_at : ℕ → Tree → Node
page_at pid t = get_or t.pages pid no_page

abbrev pub write : ℕ → Node → Tree → Tree
write pid n t = record t { pages = set t.pages pid n }

-- `AllocGuard`: the next page id, and the tree with the page.
abbrev pub next_pid : Tree → ℕ
next_pid t = length t.pages

abbrev pub alloc : Node → Tree → Tree
alloc n t = record t { pages = t.pages ++ (n ∷ []) }

-- `BTree()`: page 0 is there, and the root is a new leaf.
abbrev pub new_tree : Tree
new_tree = record {
  pages = no_page ∷ fresh_node true no_neighbour ∷ [];
  root = 1;
  split_ordered = false;
}

-- Where a descent has come to: the page, the one before it, if that is not the metadata, and the
-- place in there.
pub record Trail : Type 0 where
  pub parent : Option ℕ
  pub place : ℕ
  pub pid : ℕ

abbrev pub start : Tree → Trail
start t = record { parent = none; place = 0; pid = t.root }

-- One step down: `remove` looks the place up and reads the child there, as `lookupInner` does.
unfoldable pub step : (key : List ℕ) → Tree → Trail → Run Trail
step key t p = do
  let n = page_at p.pid t
  a ← lower_bound key n
  done (record {
    parent = some p.pid;
    place = a.1;
    pid = if a.1 == count n then n.neighbour else get_child a.1 n;
  })

-- Down to a leaf.
unfoldable pub descend : (rounds : ℕ) (key : List ℕ) → Tree → Trail → Run Trail
descend zero key t p = out_of_rounds
descend (suc rounds) key t p = elim (page_at p.pid t).is_leaf [
  | true ↦ done p
  | false ↦ step key t p >>= descend rounds key t
]

-- Down to a page, or to a leaf.
unfoldable pub descend_to : (rounds to_split : ℕ) (key : List ℕ) → Tree → Trail → Run Trail
descend_to zero to_split key t p = out_of_rounds
descend_to (suc rounds) to_split key t p = elim ((page_at p.pid t).is_leaf || (p.pid == to_split)) [
  | true ↦ done p
  | false ↦ step key t p >>= descend_to rounds to_split key t
]

unfoldable pub find_leaf : (rounds : ℕ) (key : List ℕ) → Tree → Run Trail
find_leaf rounds key t = descend rounds key t (start t)
