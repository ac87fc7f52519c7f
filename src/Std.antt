-- ===== src/Std.antt =====
-- What the source uses of Rust's standard library: collections, integers, floats and equality.
pub mod Key
pub mod HashMap
pub mod Reorder
pub mod BTreeSet
pub mod PartialEq
pub mod Num
pub mod Status
pub mod Lists
