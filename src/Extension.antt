-- ===== src/Extension.antt =====
-- mls-rs-core/src/extension.rs: an extension, its type, and its encoding.
pub mod List
pub mod Tests
mod Defs
pub use Defs.*
