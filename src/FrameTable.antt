-- ===== src/FrameTable.antt =====
-- repo/PrediCache/ht.hpp and buffer_frame.hpp: the hash table of buffer frames, a bucket a chain
-- whose first entry is inlined. One operation runs at a time; the queue of freed entries is a
-- parameter.
pub mod Frames
pub mod Rounds
pub mod Table
pub mod Chain
pub mod Locks
pub mod Insert
pub mod Remove
pub mod Access
pub mod Map
pub mod Operations
mod Tests
