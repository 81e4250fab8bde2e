-- ===== src/GroupState/Tests.antt =====
-- mls-rs/src/group/state_repo.rs and in_memory/group_state_storage.rs: runs on short lists of epochs. A
-- `PriorEpoch` is encoded as the byte of its number.
use mls_rs_wasm_maybe_sync.Common.{
  ℕ, zero, suc, ◌≤◌, ◌≡◌, ◌≢◌, refl, List, [], ◌∷◌, ◌++◌, length, bytes_eq, false, some, Result, ok,
  err, arith,
}
use mls_rs_wasm_maybe_sync.Codec.{Codec, Error, unexpected_eof, encode_to_vec}
use mls_rs_wasm_maybe_sync.MlsError.{key_package_repo_error}
use mls_rs_wasm_maybe_sync.SecretTree.Tree.{tree_empty}
use mls_rs_wasm_maybe_sync.GroupState.Runs.{IsRun, find}
use mls_rs_wasm_maybe_sync.GroupState.Records.{
  EpochRecord, GroupState, any_error, KeyPackageStorage,
}
use mls_rs_wasm_maybe_sync.GroupState.InMemory.{
  InMemoryGroupStateStorage, in_memory, storage_new, epoch, get_epoch, get_epoch_data_index, write,
}
use mls_rs_wasm_maybe_sync.GroupState.InMemory.Retention.{
  number, stored, records_after, bytes_of, epoch-write, write-IsRun,
}
use mls_rs_wasm_maybe_sync.GroupState.Repository.{
  PriorEpoch, epoch_id, Snapshot, GroupStateRepository, Slot, borrow, insert, load, decode_stored,
  get_epoch_mut, resumption_secret, epoch_records, write_arguments, delete_pending,
  write_to_storage,
}
use mls_rs_wasm_maybe_sync.GroupState.Repository.Pending.{IsPending, insert-IsPending}
use mls_rs_wasm_maybe_sync.GroupState.Repository.Borrow.{
  IsFaithful, get_epoch_mut_lem, resumption_secret_any_group,
}
use mls_rs_wasm_maybe_sync.GroupState.Repository.Faults.{
  AfterWrite, write_to_storage_lem, write_to_storage_repeats,
}

abbrev a_group : List ℕ
a_group = 1 ∷ 2 ∷ []

abbrev prior : ℕ → PriorEpoch
prior n = record {
  context = record {
    protocol_version = 1;
    cipher_suite = 1;
    group_id = a_group;
    epoch = n;
    tree_hash = [];
    confirmed_transcript_hash = [];
    extensions = [];
  };
  self_index = 0;
  secrets = record {
    resumption_secret = n ∷ n ∷ [];
    sender_data_secret = [];
    secret_tree = tree_empty;
  };
  signature_public_keys = [];
}

abbrev number_decode : List ℕ → Result Error (PriorEpoch × List ℕ)
number_decode [] = err unexpected_eof
number_decode (b ∷ bs) = ok (prior b, bs)

abbrev number_codec : Codec PriorEpoch
number_codec = record {
  encoded_len = λ _. ok 1;
  encode = λ e w. ok (w ++ (epoch_id e ∷ []));
  decode = number_decode;
}

-- A key package storage that always fails.
abbrev failing : KeyPackageStorage Unit
failing = record { delete = λ k r. (err any_error, k) }

-- One that forgets every key package.
abbrev deleting : KeyPackageStorage Unit
deleting = record { delete = λ k r. (ok tt, k) }

abbrev stored_record : ℕ → EpochRecord
stored_record n = record { id = n; bytes = n ∷ [] }

abbrev a_state : GroupState
a_state = record { id = a_group; bytes = 7 ∷ [] }

abbrev four_inserts : List EpochRecord
four_inserts = stored_record 4 ∷ stored_record 5 ∷ stored_record 6 ∷ stored_record 7 ∷ []

abbrev an_update : EpochRecord
an_update = record { id = 6; bytes = 66 ∷ [] }

epoch-write_example :
    epoch (write storage_new a_state four_inserts (an_update ∷ [])).1 a_group 6
    ≡ ok (bytes_of (find number 6 (records_after 3 [] four_inserts (an_update ∷ []))))
epoch-write_example =
    epoch-write storage_new a_state four_inserts (an_update ∷ []) 4 6
      (refl, (refl, (refl, (refl, tt))))

write-IsRun_example :
    ((start : ℕ) × IsRun number start
        (stored (write storage_new a_state four_inserts []).1 a_group))
    × (length (stored (write storage_new a_state four_inserts []).1 a_group) ≤ 3)
    × ((other : List ℕ)
        → bytes_eq a_group other ≡ false
        → stored (write storage_new a_state four_inserts []).1 other ≡ stored storage_new other)
write-IsRun_example =
    write-IsRun storage_new a_state four_inserts [] 4 (refl, (refl, (refl, (refl, tt))))

-- A storage that holds the epoch 4 of the group.
abbrev holds_four : InMemoryGroupStateStorage
holds_four = record {
  inner = λ _. some (record { state_data = []; epoch_data = stored_record 4 ∷ [] });
  max_epoch_retention = 3;
}

abbrev a_repository : GroupStateRepository InMemoryGroupStateStorage Unit
a_repository = record {
  pending_commit = record { inserts = prior 5 ∷ prior 6 ∷ []; updates = [] };
  pending_key_package_removal = some [];
  group_id = a_group;
  storage = holds_four;
  key_package_repo = tt;
}

abbrev a_repository-IsPending : IsPending a_repository
a_repository-IsPending = record {
  first = 5;
  run = (refl, (refl, tt));
  own = (refl, (refl, tt));
  distinct = tt;
}

insert-IsPending_example :
    IsPending (insert in_memory (prior 7) a_repository).1
    × ((insert in_memory (prior 7) a_repository).0 ≢ ok tt
        → (insert in_memory (prior 7) a_repository).1 ≡ a_repository)
insert-IsPending_example =
    insert-IsPending in_memory (prior 7) a_repository a_repository-IsPending (omega arith)

holds_four-IsFaithful : IsFaithful in_memory number_codec holds_four a_group
unfolding load decode_stored epoch get_epoch get_epoch_data_index
holds_four-IsFaithful zero e h = absurd (cc)
holds_four-IsFaithful (suc zero) e h = absurd (cc)
holds_four-IsFaithful (suc (suc zero)) e h = absurd (cc)
holds_four-IsFaithful (suc (suc (suc zero))) e h = absurd (cc)
holds_four-IsFaithful (suc (suc (suc (suc zero)))) e h = cc
holds_four-IsFaithful (suc (suc (suc (suc (suc k))))) e h = absurd (ground arith)

get_epoch_mut_lem_example :
    IsPending (get_epoch_mut in_memory number_codec 4 a_repository).1
    × ((slot : Slot)
        → (get_epoch_mut in_memory number_codec 4 a_repository).0 ≡ ok (some slot)
        → (e : PriorEpoch) × (borrow (get_epoch_mut in_memory number_codec 4 a_repository).1 slot
            ≡ some e)
          × (epoch_id e ≡ 4))
get_epoch_mut_lem_example =
    get_epoch_mut_lem in_memory number_codec 4 a_repository a_repository-IsPending
      holds_four-IsFaithful

resumption_secret_any_group_example :
    resumption_secret in_memory number_codec a_repository
      (record { psk_group_id = 9 ∷ []; psk_epoch = 6 })
    ≡ ok (some (6 ∷ 6 ∷ []))
resumption_secret_any_group_example =
    resumption_secret_any_group in_memory number_codec a_repository 1 (prior 6) (9 ∷ [])
      a_repository-IsPending refl

abbrev a_snapshot : Snapshot
a_snapshot = record { group_id = a_group; encoding = ok (7 ∷ []) }

write_to_storage_lem_example :
    AfterWrite in_memory number_codec deleting a_snapshot a_repository
      (write_to_storage in_memory number_codec deleting a_snapshot a_repository)
    × ((write_to_storage in_memory number_codec deleting a_snapshot
          a_repository).1.pending_key_package_removal
        ≡ a_repository.pending_key_package_removal)
write_to_storage_lem_example =
    write_to_storage_lem in_memory number_codec deleting a_snapshot a_repository

abbrev pending_records : List EpochRecord
pending_records = stored_record 5 ∷ stored_record 6 ∷ []

write_to_storage_repeats_example :
    ((write_to_storage in_memory number_codec failing a_snapshot a_repository).0
      ≡ err key_package_repo_error)
    × ((write_to_storage in_memory number_codec failing a_snapshot
          (write_to_storage in_memory number_codec failing a_snapshot a_repository).1).1.storage
        ≡ (write (write holds_four a_state pending_records []).1 a_state pending_records []).1)
unfolding write_arguments epoch_records encode_to_vec write delete_pending
write_to_storage_repeats_example =
    write_to_storage_repeats in_memory number_codec failing a_snapshot a_repository a_state
      pending_records [] (write holds_four a_state pending_records []).1 any_error tt refl refl refl
