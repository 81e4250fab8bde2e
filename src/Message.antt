-- ===== src/Message.antt =====
-- mls-rs/src/group/ciphertext_processor and mls-rs/src/group/padding.rs: what protects a private message.
pub mod Padding
pub mod ReuseGuard
pub mod SenderData
pub mod Tests
