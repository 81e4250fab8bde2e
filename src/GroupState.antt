-- ===== src/GroupState.antt =====
-- mls-rs/src/group/state_repo.rs and the storage below it: prior epochs of a group, pending and stored.
pub mod Runs
pub mod Records
pub mod InMemory
pub mod Repository
pub mod Tests
