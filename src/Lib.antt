-- ===== src/Lib.antt =====
-- PrediCache, a buffer manager with an inverted page table and optimistic locks
-- (repo/PrediCache), and its control of promotions (repo/PrediCache/cbp.hpp).
--
-- The program. A page lives in a buffer frame. Each frame has a lock word, PageState (page.hpp), of a
-- state byte and a version of 56 bits: readers of the B-tree take the word, read, and compare the
-- version again (guards.hpp), writers hold the frame exclusively. The page ids of the cached pages
-- stand in an open addressing table, ResidentPageSet (page.hpp), whose clock hand gives the eviction
-- its candidates. The buckets of the hash table of frames (ht.hpp) are locked by VersionedLock
-- (versioned_lock.hpp). An access of a guard may promote a page to the place that its page id
-- predicts; how often is decided by cbp.hpp, by one of three controllers.
--
-- The files.
--   PageState: page.hpp, PageState, one function for each operation on the word, with its assertions
--     as results of type Option; PageState/Laws: the operations on their own; PageState/Threads: the
--     steps of threads that share one frame, from the loops of fixX and fixS and the upgrade of evict
--     (buffer_manager.hpp) and from GuardO (guards.hpp), one atomic access a step, with the
--     invariant in PageState/Threads/Invariant and its consequences in PageState/Threads/Safety.
--     A release at the last version starts the count again from 0, and sets the state byte wrong:
--     NeverWraps says that a run has no such step, and the theorems on threads are on such runs.
--   VersionedLock: versioned_lock.hpp. The rounds of lock() are the unit, since its loop waits.
--   ResidentPageSet: page.hpp, ResidentPageSet: insert and remove are recursions on fuel, which the
--     theorems give from the number of slots, iterateClockBatch and iterateAll are recursions on the
--     length of the batch and of the table. One operation runs at a time.
--   Cbp: cbp.hpp: HillClimb (v3), Bandit (v4), Probing (TPB), and Control with the modes, the
--     decision and init. Floating point operations are a parameter, FloatOps; no law of them is
--     assumed but where a theorem names it. One access runs at a time, and what the random number
--     generator returns is an argument.
--   BTree: btree.hpp, the nodes: Node has the search with the hints, Update what inserts and removes a
--     slot and compactify, Separator where a node is split, Split and Merge what splitNode and
--     mergeNodes do to two nodes and their parent. Valid says when a node is well-formed and what it
--     holds as a map, Fences that its keys lie between its fences; LowerBound, Insert, Remove,
--     Compact, SplitNode and MergeNodes have the theorems, and the other modules their lemmas:
--     Copies on copies to a node with the same prefix, Entries, Built, Parts and Filled to one with
--     another, Children, Redirect, Relink and Unlink on the parent. A slot has the bytes of its key
--     and payload where the code has an offset into the page, and where the heap begins and how
--     much of it is used are counted as in the code. The functions into Run have the code's
--     assertions: with_key_value and copy_key_value_range are what storeKeyValue and
--     copyKeyValueRange do, store_key_value, copied and stores_fit have their assertions too. The
--     rounds of the binary search are the number of slots.
--   Tree: btree.hpp and btree.cpp, BTree: Pages has the pages of a tree, a list by page id, and the
--     descent, Operations lookup, updateInPlace, insert with trySplit and ensureSpace, and remove,
--     Scans scanAsc and scanDesc. The rounds are the levels of the tree, the splits of an insert and
--     the slots or leaves of a scan. Descent says when a tree is well-formed, Lookup and Change have
--     the laws of a change to a leaf, Insert, Remove, Visits and VisitsDown the theorems. One operation
--     runs at a time, so no guard restarts; page ids are given out one after the other.
--   FrameTable: ht.hpp and buffer_frame.hpp: Frames has the entries and buckets, Rounds one round of
--     the loops of insert, remove and access, Table the loops, with the number of rounds as fuel;
--     one is enough when no other operation runs. Chain, Locks, Insert, Remove and Access have the
--     laws of a bucket, Map and Operations those of the table. The queue of freed entries, of the
--     third-party library, is a parameter, EntryQueue, and Locks.Keeps is what the code relies on.
--   Placement: buffer_manager.hpp: the predicted frame of a page id, trySetPresent,
--     getFreePageHTCache and promoteLocked on the memory of the pool and virtMemPids. The queue of free
--     frames and the division by the number of frames are third-party code and parameters, PageQueue
--     and the divider; what ht.access answers and what an eviction does to the pool are arguments. The
--     rounds are the tries of the queue. Places has the choice of a frame, Promotion and Promoting
--     the promotion.
--   RecordKeys: benchmarks/shared/Types.hpp, the integers and strings that are folded into keys of the
--     B-tree. A string is the list of its bytes.
--   Prelude: numbers, words, arrays, Boolean tests, the laws of the bit operations, threads.
--
-- Numbers are natural numbers; a word of w bits wraps by `% 2 ^ w` where the code can. Arrays are
-- lists, read and written by index.
--
-- Not modelled: faults, eviction and flushing of the buffer manager, the guards' moves, more than one
-- tree in a metadata page, the I/O interfaces, the other parts of the benchmarks and the entry point.
-- Memory orders weaker than sequential consistency are not modelled either: a step of a thread is
-- one atomic access.
pub mod Prelude
pub mod BTree
pub mod Cbp
pub mod FrameTable
pub mod PageState
pub mod Placement
pub mod RecordKeys
pub mod ResidentPageSet
pub mod Tree
pub mod VersionedLock
