-- ===== src/GroupState/Repository/Faults.antt =====
-- mls-rs/src/group/state_repo.rs: `write_to_storage`, when it succeeds and when a part of it fails.
use mls_rs_wasm_maybe_sync.Common.{
  ◌≡◌, ◌≢◌, refl, sym, ap, subst, ◌∙◌, List, [], Result, ok, err, fault, gives, fails, breaks,
  Result-cases, ℕ, Option, none, some,
}
use mls_rs_wasm_maybe_sync.Codec.{Codec}
use mls_rs_wasm_maybe_sync.MlsError.{MlsError, group_storage_error, key_package_repo_error}
use mls_rs_wasm_maybe_sync.GroupState.Records.{
  EpochRecord, GroupState, AnyError, GroupStateStorage, KeyPackageStorage,
}
use mls_rs_wasm_maybe_sync.GroupState.Repository.{
  PriorEpoch, Snapshot, GroupStateRepository, write_arguments, delete_pending, after_delete,
  after_write, after_encode, write_to_storage,
}
use mls_rs_wasm_maybe_sync.GroupState.Repository.Encoded.{AreRecords, write_arguments-records}

module _ {S K : Type 0} (gs : GroupStateStorage S) (codec : Codec PriorEpoch)
    (ks : KeyPackageStorage K) where
  -- What `write_to_storage` has done.
  data Written (snapshot : Snapshot) (r : GroupStateRepository S K) : Type 0 where
    committed :
        (g : GroupState) (inserts updates : List EpochRecord) (s : S) (k : K)
        → write_arguments codec r.pending_commit snapshot ≡ ok (g, inserts, updates)
        → gs.write r.storage g inserts updates ≡ (ok tt, s)
        → delete_pending gs codec ks r.pending_key_package_removal r.key_package_repo ≡ (ok tt, k)
        → write_to_storage gs codec ks snapshot r ≡ (
          ok tt,
          record r {
            storage = s;
            key_package_repo = k;
            pending_commit = record { inserts = []; updates = [] };
          },
        )
        → Written snapshot r
    kept :
        (x : Result MlsError (Unit {0})) (s : S) (k : K)
        → x ≢ ok tt
        → write_to_storage gs codec ks snapshot r
          ≡ (x, record r { storage = s; key_package_repo = k })
        → Written snapshot r

  from_delete :
      (snapshot : Snapshot) (r : GroupStateRepository S K) (g : GroupState)
      (inserts updates : List EpochRecord) (s : S)
      → write_arguments codec r.pending_commit snapshot ≡ ok (g, inserts, updates)
      → gs.write r.storage g inserts updates ≡ (ok tt, s)
      → (y : Result AnyError (Unit {0}) × K)
      → delete_pending gs codec ks r.pending_key_package_removal r.key_package_repo ≡ y
      → Written snapshot r
  unfolding write_to_storage after_encode after_write after_delete
  from_delete snapshot r g inserts updates s p w (ok u, k) d =
      committed g inserts updates s k p w d (rw (p, w, d))
  from_delete snapshot r g inserts updates s p w (err x, k) d =
      kept (err key_package_repo_error) s k (λ q. cc) (rw (p, w, d))
  from_delete snapshot r g inserts updates s p w (fault x, k) d =
      kept (fault x) s k (λ q. cc) (rw (p, w, d))

  from_write :
      (snapshot : Snapshot) (r : GroupStateRepository S K) (g : GroupState)
      (inserts updates : List EpochRecord)
      → write_arguments codec r.pending_commit snapshot ≡ ok (g, inserts, updates)
      → (y : Result AnyError (Unit {0}) × S) → gs.write r.storage g inserts updates ≡ y
      → Written snapshot r
  unfolding write_to_storage after_encode after_write
  from_write snapshot r g inserts updates p (ok u, s) w =
      from_delete snapshot r g inserts updates s p w _ refl
  from_write snapshot r g inserts updates p (err x, s) w =
      kept (err group_storage_error) s r.key_package_repo (λ q. cc) (rw (p, w))
  from_write snapshot r g inserts updates p (fault x, s) w =
      kept (fault x) s r.key_package_repo (λ q. cc) (rw (p, w))

  Written-cases : (snapshot : Snapshot) (r : GroupStateRepository S K) → Written snapshot r
  unfolding write_to_storage after_encode
  Written-cases snapshot r = elim (Result-cases (write_arguments codec r.pending_commit snapshot)) [
    | fails x p ↦ kept (err x) r.storage r.key_package_repo (λ q. cc) (rw p)
    | breaks x p ↦ kept (fault x) r.storage r.key_package_repo (λ q. cc) (rw p)
    | gives (g, inserts, updates) p ↦ from_write snapshot r g inserts updates p _ refl
  ]

  -- The deletion of a key package as its storage does it, when there is one to delete.
  abbrev pub HasDeleted : Option (List ℕ) → K → K → Type 0
  HasDeleted none k k' = k' ≡ k
  HasDeleted (some key_package_ref) k k' = ks.delete k key_package_ref ≡ (ok tt, k')

  delete_pending-HasDeleted :
      (o : Option (List ℕ)) (k k' : K)
      → delete_pending gs codec ks o k ≡ (ok tt, k')
      → HasDeleted o k k'
  unfolding delete_pending
  delete_pending-HasDeleted none k k' h = cc
  delete_pending-HasDeleted (some r) k k' h = h

  -- What the storage has been given, and what is left.
  pub record HasCommitted (snapshot : Snapshot) (r s : GroupStateRepository S K) : Type 0 where
    pub state_data : List ℕ
    pub inserts : List EpochRecord
    pub updates : List EpochRecord
    pub snapshot_encoded : snapshot.encoding ≡ ok state_data
    pub inserts_encoded : AreRecords codec r.pending_commit.inserts inserts
    pub updates_encoded : AreRecords codec r.pending_commit.updates updates
    pub handed_over :
        gs.write r.storage (record { id = snapshot.group_id; bytes = state_data }) inserts updates
        ≡ (ok tt, s.storage)
    pub deleted : HasDeleted r.pending_key_package_removal r.key_package_repo s.key_package_repo
    pub cleared : (s.pending_commit.inserts ≡ []) × (s.pending_commit.updates ≡ [])

  -- After a call: a success has committed, and otherwise all that was pending still is.
  abbrev pub AfterWrite :
      Snapshot
      → GroupStateRepository S K
      → Result MlsError (Unit {0}) × GroupStateRepository S K
      → Type 0
  AfterWrite snapshot r (ok u, s) = HasCommitted snapshot r s
  AfterWrite snapshot r (err e, s) = s.pending_commit ≡ r.pending_commit
  AfterWrite snapshot r (fault x, s) = s.pending_commit ≡ r.pending_commit

  -- A write_to_storage that succeeds has handed to the storage the encoded snapshot under its group id and
  -- one record for each pending insert and update, in order, with its epoch number and its encoding, has
  -- deleted the key package that is to be removed, and leaves no insert and no update pending; one that does
  -- not succeed leaves the pending inserts and updates. In both cases the reference of the key package
  -- stays.
  pub write_to_storage_lem :
      (snapshot : Snapshot) (r : GroupStateRepository S K)
      → AfterWrite snapshot r (write_to_storage gs codec ks snapshot r)
        × ((write_to_storage gs codec ks snapshot r).1.pending_key_package_removal
            ≡ r.pending_key_package_removal)
  write_to_storage_lem snapshot r = elim (Written-cases snapshot r) [
    | committed g inserts updates s k p w d q ↦
        let (state_data, inserts_encoded, updates_encoded, snapshot_encoded, named) =
          write_arguments-records codec r.pending_commit snapshot g inserts updates p in
        subst
          (λ z.
            AfterWrite snapshot r z
            × (z.1.pending_key_package_removal ≡ r.pending_key_package_removal))
          (sym q)
          (
            record {
              state_data = state_data;
              inserts = inserts;
              updates = updates;
              snapshot_encoded = snapshot_encoded;
              inserts_encoded = inserts_encoded;
              updates_encoded = updates_encoded;
              handed_over = ap (λ g. gs.write r.storage g inserts updates) (sym named) ∙ w;
              deleted = delete_pending-HasDeleted r.pending_key_package_removal _ k d;
              cleared = (refl, refl);
            },
            refl,
          )
    | kept x s k bad q ↦
        subst
          (λ z.
            AfterWrite snapshot r z
            × (z.1.pending_key_package_removal ≡ r.pending_key_package_removal))
          (sym q) (unchanged x s k bad, refl)
  ]
    where
      unchanged :
          (x : Result MlsError (Unit {0})) (s : S) (k : K)
          → x ≢ ok tt
          → AfterWrite snapshot r (x, record r { storage = s; key_package_repo = k })
      unchanged (ok tt) s k bad = absurd (bad refl)
      unchanged (err e) s k bad = refl
      unchanged (fault y) s k bad = refl

  stops :
      (snapshot : Snapshot) (r : GroupStateRepository S K) (g : GroupState)
      (inserts updates : List EpochRecord) (s : S) (x : AnyError) (k : K)
      → write_arguments codec r.pending_commit snapshot ≡ ok (g, inserts, updates)
      → gs.write r.storage g inserts updates ≡ (ok tt, s)
      → delete_pending gs codec ks r.pending_key_package_removal r.key_package_repo ≡ (err x, k)
      → write_to_storage gs codec ks snapshot r
        ≡ (err key_package_repo_error, record r { storage = s; key_package_repo = k })
  unfolding write_to_storage after_encode after_write after_delete
  stops snapshot r g inserts updates s x k p w d = rw (p, w, d)

  after_delete_storage :
      (y : Result AnyError (Unit {0}) × K) (r : GroupStateRepository S K)
      → (after_delete gs codec ks y r).1.storage ≡ r.storage
  unfolding after_delete
  after_delete_storage (ok u, k) r = refl
  after_delete_storage (err x, k) r = refl
  after_delete_storage (fault x, k) r = refl

  after_write_storage :
      (y : Result AnyError (Unit {0}) × S) (r : GroupStateRepository S K)
      → (after_write gs codec ks y r).1.storage ≡ y.1
  unfolding after_write
  after_write_storage (ok u, s) r = after_delete_storage _ (record r { storage = s })
  after_write_storage (err x, s) r = refl
  after_write_storage (fault x, s) r = refl

  reaches :
      (snapshot : Snapshot) (r : GroupStateRepository S K) (g : GroupState)
      (inserts updates : List EpochRecord)
      → write_arguments codec r.pending_commit snapshot ≡ ok (g, inserts, updates)
      → (write_to_storage gs codec ks snapshot r).1.storage
        ≡ (gs.write r.storage g inserts updates).1
  unfolding write_to_storage after_encode
  reaches snapshot r g inserts updates p = rw (p, after_write_storage)

  -- When the storage accepts the write and the key package cannot be deleted, the call fails, and a second
  -- call with the same snapshot hands the same inserts and updates to the storage once more.
  pub write_to_storage_repeats :
      (snapshot : Snapshot) (r : GroupStateRepository S K) (g : GroupState)
      (inserts updates : List EpochRecord) (s : S) (x : AnyError) (k : K)
      → write_arguments codec r.pending_commit snapshot ≡ ok (g, inserts, updates)
      → gs.write r.storage g inserts updates ≡ (ok tt, s)
      → delete_pending gs codec ks r.pending_key_package_removal r.key_package_repo ≡ (err x, k)
      → ((write_to_storage gs codec ks snapshot r).0 ≡ err key_package_repo_error)
        × ((write_to_storage gs codec ks snapshot
              (write_to_storage gs codec ks snapshot r).1).1.storage
            ≡ (gs.write s g inserts updates).1)
  write_to_storage_repeats snapshot r g inserts updates s x k p w d =
      let first = stops snapshot r g inserts updates s x k p w d in
      (
        ap (λ z. z.0) first,
        subst
            (λ z.
              (write_to_storage gs codec ks snapshot z.1).1.storage
              ≡ (gs.write s g inserts updates).1)
            (sym first) (reaches snapshot _ g inserts updates p),
      )
