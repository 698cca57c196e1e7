-- ===== src/Tree.antt =====
-- repo/PrediCache/btree.hpp and btree.cpp, BTree: the tree over the nodes.
pub mod Pages
pub mod Operations
pub mod Descent
pub mod Lookup
pub mod Change
pub mod Insert
pub mod Remove
pub mod Scans
pub mod Visits
pub mod VisitsDown
mod Tests
