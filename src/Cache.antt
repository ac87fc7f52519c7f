-- ===== src/Cache.antt =====
-- state.rs: the cache of simulation state, its writes, reads and subscriptions.
pub mod Inner
pub mod Writes
pub mod Groups
pub mod Resets
pub mod Reads
pub mod Index
pub mod Loops
pub mod Step
pub mod Emit
pub mod Frame
pub mod Replica
pub mod Tables
pub mod Passage
pub mod Sequence
pub mod Unique
pub mod Lookup
pub mod Listed
pub mod Repeat
pub mod Spec
