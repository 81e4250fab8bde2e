-- ===== src/GroupState/Records.antt =====
-- mls-rs-core/src/group/group_state.rs: what a storage of group states keeps, and its interface. An
-- error of a storage is a constant, since its callers wrap it.
use mls_rs_wasm_maybe_sync.Common.{ℕ, List, Option, Result}

pub record EpochRecord : Type 0 where
  pub id : ℕ
  pub bytes : List ℕ

pub record GroupState : Type 0 where
  pub id : List ℕ
  pub bytes : List ℕ

pub data AnyError : Type 0 where
  any_error : AnyError

-- `GroupStateStorage`, over the state of the storage
pub record GroupStateStorage (S : Type 0) : Type 0 where
  pub state : S → List ℕ → Result AnyError (Option (List ℕ))
  pub epoch : S → List ℕ → ℕ → Result AnyError (Option (List ℕ))
  pub write : S → GroupState → List EpochRecord → List EpochRecord → Result AnyError (Unit {0}) × S
  pub max_epoch_id : S → List ℕ → Result AnyError (Option ℕ)

-- `KeyPackageStorage`, as far as a group's repository calls it
pub record KeyPackageStorage (K : Type 0) : Type 0 where
  pub delete : K → List ℕ → Result AnyError (Unit {0}) × K
