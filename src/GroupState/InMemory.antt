-- ===== src/GroupState/InMemory.antt =====
-- mls-rs/src/storage_provider/in_memory/group_state_storage.rs. The mutex is one step of the caller. A
-- `LargeMap` is the function that looks its keys up.
pub mod Retention
use mls_rs_wasm_maybe_sync.Common.{
  ℕ, suc, ◌-◌, List, [], ◌∷◌, ◌++◌, length, get_elem?, set, head?, get_last?, bytes_eq, ltb, leb,
  if◌then◌else◌, Option, none, some, Result, ok, err,
}
use mls_rs_wasm_maybe_sync.MlsError.{MlsError, non_zero_retention_required}
use mls_rs_wasm_maybe_sync.GroupState.Records.{EpochRecord, GroupState, AnyError, GroupStateStorage}

-- `DEFAULT_EPOCH_RETENTION_LIMIT`
abbrev pub default_epoch_retention_limit : ℕ
default_epoch_retention_limit = 3

pub record InMemoryGroupData : Type 0 where
  pub state_data : List ℕ
  pub epoch_data : List EpochRecord

-- `InMemoryGroupData::new`
abbrev pub group_data_new : List ℕ → InMemoryGroupData
group_data_new state_data = record { state_data = state_data; epoch_data = [] }

-- `checked_sub`
abbrev pub checked_sub : ℕ → ℕ → Option ℕ
checked_sub a b = if leb b a then some (a - b) else none

unfoldable pub get_epoch_data_index : InMemoryGroupData → ℕ → Option ℕ
get_epoch_data_index d epoch_id = elim (head? d.epoch_data) [
  | none ↦ none
  | some e ↦ checked_sub epoch_id e.id
]

unfoldable pub get_epoch : InMemoryGroupData → ℕ → Option EpochRecord
unfolding get_epoch_data_index
get_epoch d epoch_id = elim (get_epoch_data_index d epoch_id) [
  | none ↦ none
  | some i ↦ get_elem? d.epoch_data i
]

unfoldable pub insert_epoch : InMemoryGroupData → EpochRecord → InMemoryGroupData
insert_epoch d epoch = record d { epoch_data = d.epoch_data ++ (epoch ∷ []) }

-- An update of an epoch that is not in the store changes nothing.
unfoldable pub update_epoch : InMemoryGroupData → EpochRecord → InMemoryGroupData
unfolding get_epoch_data_index
update_epoch d epoch = elim (get_epoch_data_index d epoch.id) [
  | none ↦ d
  | some i ↦ record d { epoch_data = set d.epoch_data i epoch }
]

-- `while self.epoch_data.len() > max_epoch_retention { self.epoch_data.pop_front(); }`
unfoldable pub pop_front_loop : ℕ → List EpochRecord → List EpochRecord
pop_front_loop max_epoch_retention [] = []
pop_front_loop max_epoch_retention (e ∷ es) =
    if ltb max_epoch_retention (length (e ∷ es))
    then pop_front_loop max_epoch_retention es
    else e ∷ es

unfoldable pub trim_epochs : ℕ → InMemoryGroupData → InMemoryGroupData
trim_epochs max_epoch_retention d = record d {
  epoch_data = pop_front_loop max_epoch_retention d.epoch_data;
}

pub record InMemoryGroupStateStorage : Type 0 where
  pub inner : List ℕ → Option InMemoryGroupData
  pub max_epoch_retention : ℕ

abbrev pub storage_new : InMemoryGroupStateStorage
storage_new = record { inner = λ id. none; max_epoch_retention = default_epoch_retention_limit }

unfoldable pub with_max_epoch_retention :
    InMemoryGroupStateStorage → ℕ → Result MlsError InMemoryGroupStateStorage
with_max_epoch_retention s max_epoch_retention =
    if ltb 0 max_epoch_retention
    then ok (record s { max_epoch_retention = max_epoch_retention })
    else err non_zero_retention_required

-- A new entry, or none, under one group id.
abbrev pub update_group :
    (List ℕ → Option InMemoryGroupData)
    → List ℕ
    → Option InMemoryGroupData
    → List ℕ
    → Option InMemoryGroupData
update_group m id entry j = if bytes_eq id j then entry else m j

unfoldable pub delete_group : List ℕ → InMemoryGroupStateStorage → InMemoryGroupStateStorage
delete_group group_id s = record s { inner = update_group s.inner group_id none }

unfoldable pub max_epoch_id : InMemoryGroupStateStorage → List ℕ → Result AnyError (Option ℕ)
max_epoch_id s group_id = ok (elim (s.inner group_id) [
  | none ↦ none
  | some d ↦ (elim (get_last? d.epoch_data) [ none ↦ none | some e ↦ some e.id ])
])

unfoldable pub state : InMemoryGroupStateStorage → List ℕ → Result AnyError (Option (List ℕ))
state s group_id = ok (elim (s.inner group_id) [ none ↦ none | some d ↦ some d.state_data ])

unfoldable pub epoch : InMemoryGroupStateStorage → List ℕ → ℕ → Result AnyError (Option (List ℕ))
unfolding get_epoch
epoch s group_id epoch_id = ok (elim (s.inner group_id) [
  | none ↦ none
  | some d ↦ (elim (get_epoch d epoch_id) [ none ↦ none | some e ↦ some e.bytes ])
])

-- The occupied or the new entry, with the new state.
abbrev pub enter : Option InMemoryGroupData → List ℕ → InMemoryGroupData
enter none state_data = group_data_new state_data
enter (some d) state_data = record d { state_data = state_data }

unfoldable pub insert_all : InMemoryGroupData → List EpochRecord → InMemoryGroupData
unfolding insert_epoch
insert_all d [] = d
insert_all d (e ∷ es) = insert_all (insert_epoch d e) es

unfoldable pub update_all : InMemoryGroupData → List EpochRecord → InMemoryGroupData
unfolding update_epoch
update_all d [] = d
update_all d (e ∷ es) = update_all (update_epoch d e) es

unfoldable pub written :
    ℕ → InMemoryGroupData → List EpochRecord → List EpochRecord → InMemoryGroupData
unfolding insert_all update_all trim_epochs
written max_epoch_retention d epoch_inserts epoch_updates =
    trim_epochs max_epoch_retention (update_all (insert_all d epoch_inserts) epoch_updates)

unfoldable pub write :
    InMemoryGroupStateStorage
    → GroupState
    → List EpochRecord
    → List EpochRecord
    → Result AnyError (Unit {0}) × InMemoryGroupStateStorage
unfolding written
write s group_state epoch_inserts epoch_updates = (
  ok tt,
  record s {
    inner = update_group s.inner group_state.id (
        some (
          written s.max_epoch_retention (enter (s.inner group_state.id) group_state.bytes)
            epoch_inserts epoch_updates));
  },
)

-- `impl GroupStateStorage for InMemoryGroupStateStorage`
abbrev pub in_memory : GroupStateStorage InMemoryGroupStateStorage
in_memory = record { state = state; epoch = epoch; write = write; max_epoch_id = max_epoch_id }
