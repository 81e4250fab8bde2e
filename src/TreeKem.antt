-- ===== src/TreeKem.antt =====
-- mls-rs/src/tree_kem: the ratchet tree of a group.
pub mod Leaf
pub mod Nodes
pub mod Index
pub mod Lifetimes
pub mod Public
pub mod Tests
