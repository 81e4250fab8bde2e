-- ===== src/SecretTree.antt =====
-- mls-rs/src/group/secret_tree.rs: the secret tree and its ratchets.
pub mod Derive
pub mod Ratchet
pub mod Tree
pub mod Tests
