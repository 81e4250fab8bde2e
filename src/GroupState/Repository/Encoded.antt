-- ===== src/GroupState/Repository/Encoded.antt =====
-- mls-rs/src/group/state_repo.rs: the arguments that `write_to_storage` hands to the storage.
use mls_rs_wasm_maybe_sync.Common.{
  ◌≡◌, refl, sym, ap, subst, List, [], Result, ok, err, fault, ◌∷◌, ℕ, ◌>>=◌, >>=-eq-ok,
}
use mls_rs_wasm_maybe_sync.Codec.{Codec, Error, encode_to_vec}
use mls_rs_wasm_maybe_sync.MlsError.{MlsError, codec_error}
use mls_rs_wasm_maybe_sync.GroupState.Records.{EpochRecord, GroupState}
use mls_rs_wasm_maybe_sync.GroupState.Repository.{
  PriorEpoch, epoch_id, EpochStorageCommit, map_err, epoch_records, Snapshot, write_arguments,
}

ok_injective : {A : Type 0} {a b : A} → ◌≡◌ {A = Result MlsError A} (ok a) (ok b) → a ≡ b
ok_injective h = cc

module _ (codec : Codec PriorEpoch) where
  -- The records of epochs, one for each in order: its number and what the codec appends to no bytes.
  abbrev pub AreRecords : List PriorEpoch → List EpochRecord → Type 0
  AreRecords [] [] = Unit
  AreRecords [] (r ∷ rs) = ⊥
  AreRecords (e ∷ es) [] = ⊥
  AreRecords (e ∷ es) (r ∷ rs) =
      (r.id ≡ e.context.epoch) × (codec.encode e [] ≡ ok r.bytes) × AreRecords es rs

  map_err-ok :
      (e : MlsError) (r : Result Error (List ℕ)) (bytes : List ℕ)
      → map_err e r ≡ ok bytes
      → r ≡ ok bytes
  map_err-ok e (ok b) bytes h = cc
  map_err-ok e (err x) bytes h = absurd (cc)
  map_err-ok e (fault x) bytes h = absurd (cc)

  epoch_records-AreRecords :
      (es : List PriorEpoch) (rs : List EpochRecord)
      → epoch_records codec es ≡ ok rs
      → AreRecords es rs
  unfolding epoch_records encode_to_vec
  epoch_records-AreRecords [] rs h = subst (AreRecords []) (ok_injective h) tt
  epoch_records-AreRecords (e ∷ es) rs h =
      let (bytes, encoded, more) = >>=-eq-ok (map_err codec_error (codec.encode e [])) _ h in
      let (rest, others, last) =
        >>=-eq-ok (epoch_records codec es)
          (λ rest. ok (record { id = epoch_id e; bytes = bytes } ∷ rest)) more in
      subst (AreRecords (e ∷ es)) (ok_injective last)
        (refl, map_err-ok codec_error _ bytes encoded, epoch_records-AreRecords es rest others)

  pub write_arguments-records :
      (pending : EpochStorageCommit) (snapshot : Snapshot) (g : GroupState)
      (inserts updates : List EpochRecord)
      → write_arguments codec pending snapshot ≡ ok (g, inserts, updates)
      → (state_data : List ℕ) × AreRecords pending.inserts inserts
        × AreRecords pending.updates updates
        × (snapshot.encoding ≡ ok state_data)
        × (g ≡ record { id = snapshot.group_id; bytes = state_data })
  unfolding write_arguments
  write_arguments-records pending snapshot g inserts updates h =
      let (is, p, rest) = >>=-eq-ok (epoch_records codec pending.inserts) _ h in
      let (us, q, rest') =
        >>=-eq-ok (epoch_records codec pending.updates)
          (λ us. map_err codec_error snapshot.encoding >>= λ bytes.
            ok (record { id = snapshot.group_id; bytes = bytes }, is, us))
          rest in
      let (state_data, encoded, last) =
        >>=-eq-ok (map_err codec_error snapshot.encoding)
          (λ bytes. ok (record { id = snapshot.group_id; bytes = bytes }, is, us)) rest' in
      let same = ok_injective last in
      (
        state_data,
        subst (AreRecords pending.inserts) (ap (λ z. z.1) same)
            (epoch_records-AreRecords pending.inserts is p),
        subst (AreRecords pending.updates) (ap (λ z. z.2) same)
            (epoch_records-AreRecords pending.updates us q),
        map_err-ok codec_error snapshot.encoding state_data encoded,
        sym (ap (λ z. z.0) same),
      )
