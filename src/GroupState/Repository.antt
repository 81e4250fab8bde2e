-- ===== src/GroupState/Repository.antt =====
-- mls-rs/src/group/state_repo.rs, with mls-rs/src/group/epoch.rs and context.rs: the prior epochs of a
-- group that are to be written, over any storage. The encoding of a `PriorEpoch` is derived by a macro
-- and enters as the argument `codec`; of a snapshot only its group id and its bytes are used.
pub mod Pending
pub mod Borrow
pub mod Encoded
pub mod Faults
use mls_rs_wasm_maybe_sync.Common.{
  ℕ, zero, suc, ◌+◌, ◌-◌, ◌%◌, ◌^◌, List, [], ◌∷◌, ◌++◌, length, get_elem?, head?, get_last?,
  bytes_eq, leb, ◌==◌, if◌then◌else◌, Bool, true, false, not, Option, none, some, Result, ok, err,
  fault, ◌>>=◌,
}
use mls_rs_wasm_maybe_sync.Codec.{Codec, Error, encode_to_vec}
use mls_rs_wasm_maybe_sync.MlsError.{
  MlsError, group_storage_error, key_package_repo_error, codec_error, group_id_mismatch,
  invalid_epoch,
}
use mls_rs_wasm_maybe_sync.Extension.List.{ExtensionList}
use mls_rs_wasm_maybe_sync.SecretTree.Tree.{SecretTree}
use mls_rs_wasm_maybe_sync.GroupState.Records.{
  EpochRecord, GroupState, AnyError, GroupStateStorage, KeyPackageStorage,
}

pub record GroupContext : Type 0 where
  pub protocol_version : ℕ
  pub cipher_suite : ℕ
  pub group_id : List ℕ
  pub epoch : ℕ
  pub tree_hash : List ℕ
  pub confirmed_transcript_hash : List ℕ
  pub extensions : ExtensionList

pub record EpochSecrets : Type 0 where
  pub resumption_secret : List ℕ
  pub sender_data_secret : List ℕ
  pub secret_tree : SecretTree

pub record PriorEpoch : Type 0 where
  pub context : GroupContext
  pub self_index : ℕ
  pub secrets : EpochSecrets
  pub signature_public_keys : List (Option (List ℕ))

abbrev pub epoch_id : PriorEpoch → ℕ
epoch_id e = e.context.epoch

abbrev pub group_id : PriorEpoch → List ℕ
group_id e = e.context.group_id

-- `ResumptionPsk`, without its usage
pub record ResumptionPsk : Type 0 where
  pub psk_group_id : List ℕ
  pub psk_epoch : ℕ

pub record Snapshot : Type 0 where
  pub group_id : List ℕ
  pub encoding : Result Error (List ℕ)

pub record EpochStorageCommit : Type 0 where
  pub inserts : List PriorEpoch
  pub updates : List PriorEpoch

pub record GroupStateRepository (S K : Type 0) : Type 0 where
  pub pending_commit : EpochStorageCommit
  pub pending_key_package_removal : Option (List ℕ)
  pub group_id : List ℕ
  pub storage : S
  pub key_package_repo : K

-- `map_err(|e| MlsError::GroupStorageError(e.into_any_error()))` and the like
abbrev pub map_err {ℓ} : {E : Type 0} {A : Type ℓ} → MlsError → Result E A → Result MlsError A
map_err e (ok a) = ok a
map_err e (err x) = err e
map_err e (fault x) = fault x

-- `updates.iter().position(|ep| ep.context.epoch == epoch_id)`
unfoldable pub find_pending : List PriorEpoch → ℕ → Option ℕ
find_pending [] k = none
find_pending (e ∷ es) k =
    let rest = find_pending es k in
    if epoch_id e == k then some 0 else (elim rest [ none ↦ none | some i ↦ some (suc i) ])

-- The tests of the inserts cache: whether it answers for an epoch, and at which place.
abbrev pub is_insert : List PriorEpoch → ℕ → Bool
is_insert inserts k = elim (head? inserts) [ none ↦ false | some e ↦ leb (epoch_id e) k ]

abbrev pub insert_place : List PriorEpoch → ℕ → ℕ
insert_place inserts k = elim (head? inserts) [ none ↦ 0 | some e ↦ k - epoch_id e ]

-- Where a borrowed prior epoch stands.
pub data Slot : Type 0 where
  in_inserts in_updates : ℕ → Slot

abbrev slot_if {ℓ} : {A : Type ℓ} → Option A → Slot → Option Slot
slot_if none s = none
slot_if (some a) s = some s

-- `if let Some(expected_id) = .. { if epoch_id != expected_id { return Err(..) } }`
abbrev pub is_expected : Option ℕ → ℕ → Bool
is_expected none k = true
is_expected (some max) k = k == (max + 1) % 2 ^ 64

abbrev pub secret_of : Option PriorEpoch → Option (List ℕ)
secret_of none = none
secret_of (some e) = some e.secrets.resumption_secret

module _ (codec : Codec PriorEpoch) where
  -- `.map(|e| Ok(PriorEpoch::mls_decode(&mut &*e)?..)).transpose()`
  unfoldable pub decode_stored : Option (List ℕ) → Result MlsError (Option PriorEpoch)
  decode_stored none = ok none
  decode_stored (some bytes) = map_err codec_error (codec.decode bytes) >>= λ z. ok (some z.0)

  unfoldable pub load :
      {S : Type 0} → GroupStateStorage S → S → List ℕ → ℕ → Result MlsError (Option PriorEpoch)
  unfolding decode_stored
  load gs s group k = map_err group_storage_error (gs.epoch s group k) >>= decode_stored

  -- `.map(|e| Ok(EpochRecord::new(e.epoch_id(), e.mls_encode_to_vec()?))).collect()`
  unfoldable pub epoch_records : List PriorEpoch → Result MlsError (List EpochRecord)
  epoch_records [] = ok []
  epoch_records (e ∷ es) = do
    bytes ← map_err codec_error (encode_to_vec codec e)
    rest ← epoch_records es
    ok (record { id = epoch_id e; bytes = bytes } ∷ rest)

  -- The arguments of the storage's `write`: the state, the inserts and the updates.
  unfoldable pub write_arguments :
      EpochStorageCommit
      → Snapshot
      → Result MlsError (GroupState × List EpochRecord × List EpochRecord)
  write_arguments pending snapshot = do
    inserts ← epoch_records pending.inserts
    updates ← epoch_records pending.updates
    bytes ← map_err codec_error snapshot.encoding
    ok (record { id = snapshot.group_id; bytes = bytes }, inserts, updates)

module _ {S K : Type 0} where
  -- `GroupStateRepository::new`
  unfoldable pub repository_new : List ℕ → S → K → Option (List ℕ) → GroupStateRepository S K
  repository_new group_id storage key_package_repo key_package_to_remove = record {
    pending_commit = record { inserts = []; updates = [] };
    pending_key_package_removal = key_package_to_remove;
    group_id = group_id;
    storage = storage;
    key_package_repo = key_package_repo;
  }

  -- What a borrowed slot refers to.
  abbrev pub borrow : GroupStateRepository S K → Slot → Option PriorEpoch
  borrow r (in_inserts i) = get_elem? r.pending_commit.inserts i
  borrow r (in_updates i) = get_elem? r.pending_commit.updates i

  abbrev pub push_insert : PriorEpoch → GroupStateRepository S K → GroupStateRepository S K
  push_insert epoch r = record r {
    pending_commit = record r.pending_commit { inserts = r.pending_commit.inserts ++ (epoch ∷ []) };
  }

  abbrev pub push_update : PriorEpoch → GroupStateRepository S K → GroupStateRepository S K
  push_update epoch r = record r {
    pending_commit = record r.pending_commit { updates = r.pending_commit.updates ++ (epoch ∷ []) };
  }

  module _ (gs : GroupStateStorage S) where
    unfoldable pub find_max_id : GroupStateRepository S K → Result MlsError (Option ℕ)
    find_max_id r = elim (get_last? r.pending_commit.inserts) [
      | some e ↦ ok (some (epoch_id e))
      | none ↦ map_err group_storage_error (gs.max_epoch_id r.storage r.group_id)
    ]

    unfoldable pub insert :
        PriorEpoch
        → GroupStateRepository S K
        → Result MlsError (Unit {0}) × GroupStateRepository S K
    insert epoch r =
        if not (bytes_eq (group_id epoch) r.group_id)
        then (err group_id_mismatch, r)
        else (elim (find_max_id r) [
          | err e ↦ (err e, r)
          | fault x ↦ (fault x, r)
          | ok max ↦
              if is_expected max (epoch_id epoch)
              then (ok tt, push_insert epoch r)
              else (err invalid_epoch, r)
        ])

    module _ (codec : Codec PriorEpoch) where
      unfoldable pub resumption_secret :
          GroupStateRepository S K → ResumptionPsk → Result MlsError (Option (List ℕ))
      resumption_secret r psk_id =
          if is_insert r.pending_commit.inserts psk_id.psk_epoch
          then ok (
              secret_of (
                get_elem? r.pending_commit.inserts
                  (insert_place r.pending_commit.inserts psk_id.psk_epoch)))
          else (elim (find_pending r.pending_commit.updates psk_id.psk_epoch) [
            | some pending ↦ ok (secret_of (get_elem? r.pending_commit.updates pending))
            | none ↦ load codec gs r.storage psk_id.psk_group_id psk_id.psk_epoch >>= λ o.
                ok (secret_of o)
          ])

      -- The stored epoch joins the updates, and the last of them is borrowed.
      abbrev pub cached :
          Result MlsError (Option PriorEpoch)
          → GroupStateRepository S K
          → Result MlsError (Option Slot) × GroupStateRepository S K
      cached (ok none) r = (ok none, r)
      cached (ok (some e)) r =
          (ok (some (in_updates (length r.pending_commit.updates))), push_update e r)
      cached (err e) r = (err e, r)
      cached (fault x) r = (fault x, r)

      unfoldable pub get_epoch_mut :
          ℕ → GroupStateRepository S K → Result MlsError (Option Slot) × GroupStateRepository S K
      get_epoch_mut k r =
          if is_insert r.pending_commit.inserts k
          then (
            ok (
                slot_if
                  (get_elem? r.pending_commit.inserts (insert_place r.pending_commit.inserts k))
                  (in_inserts (insert_place r.pending_commit.inserts k))),
            r,
          )
          else (elim (find_pending r.pending_commit.updates k) [
            | some i ↦ (ok (some (in_updates i)), r)
            | none ↦ cached (load codec gs r.storage r.group_id k) r
          ])

      module _ (ks : KeyPackageStorage K) where
        unfoldable pub delete_pending : Option (List ℕ) → K → Result AnyError (Unit {0}) × K
        delete_pending none k = (ok tt, k)
        delete_pending (some key_package_ref) k = ks.delete k key_package_ref

        -- The pending epochs are cleared at the end, when nothing has failed.
        unfoldable pub after_delete :
            Result AnyError (Unit {0}) × K
            → GroupStateRepository S K
            → Result MlsError (Unit {0}) × GroupStateRepository S K
        after_delete (err e, k) r = (err key_package_repo_error, record r { key_package_repo = k })
        after_delete (fault x, k) r = (fault x, record r { key_package_repo = k })
        after_delete (ok u, k) r = (
          ok tt,
          record r { key_package_repo = k; pending_commit = record { inserts = []; updates = [] } },
        )

        unfoldable pub after_write :
            Result AnyError (Unit {0}) × S
            → GroupStateRepository S K
            → Result MlsError (Unit {0}) × GroupStateRepository S K
        unfolding delete_pending after_delete
        after_write (err e, s) r = (err group_storage_error, record r { storage = s })
        after_write (fault x, s) r = (fault x, record r { storage = s })
        after_write (ok u, s) r =
            after_delete (delete_pending r.pending_key_package_removal r.key_package_repo)
              (record r { storage = s })

        unfoldable pub after_encode :
            Result MlsError (GroupState × List EpochRecord × List EpochRecord)
            → GroupStateRepository S K
            → Result MlsError (Unit {0}) × GroupStateRepository S K
        after_encode (err e) r = (err e, r)
        after_encode (fault x) r = (fault x, r)
        after_encode (ok (group_state, inserts, updates)) r =
            after_write (gs.write r.storage group_state inserts updates) r

        unfoldable pub write_to_storage :
            Snapshot
            → GroupStateRepository S K
            → Result MlsError (Unit {0}) × GroupStateRepository S K
        unfolding after_encode after_write
        write_to_storage snapshot r =
            after_encode (write_arguments codec r.pending_commit snapshot) r
