-- ===== src/BTree.antt =====
-- repo/PrediCache/btree.hpp: the nodes of the B-tree.
pub mod Keys
pub mod Compare
pub mod Node
pub mod Search
pub mod Scans
pub mod Hints
pub mod LowerBound
pub mod Update
pub mod Slots
pub mod Upkeep
pub mod Sorted
pub mod Valid
pub mod Remove
pub mod Copies
pub mod Compact
pub mod Stored
pub mod Insert
pub mod Separator
pub mod Entries
pub mod Built
pub mod Fences
pub mod Split
pub mod Parts
pub mod Filled
pub mod Halves
pub mod Children
pub mod Redirect
pub mod Relink
pub mod Splitting
pub mod SplitNode
pub mod Merge
pub mod Joined
pub mod Merging
pub mod MergeLeaf
pub mod Unlink
pub mod MergeNodes
pub mod Tests
