-- ===== src/Codec.antt =====
-- mls-rs-codec/src/lib.rs: the errors and the three traits of the MLS encoding. A byte is a number,
-- a byte slice or buffer is a list; `usize` is unbounded.
pub mod Varint
pub mod Collection
pub mod Types
pub mod RoundTrip
pub mod Tests
mod Traits
unfoldable pub use Traits.*
