-- ===== src/MlsError.antt =====
-- mls-rs/src/client.rs: the errors that the modelled code returns. An error that carries another
-- crate's error is a constant.
use Prim.Native.Nat.{ℕ}

pub data MlsError : Type 0 where
  crypto_provider_error group_storage_error key_package_repo_error codec_error : MlsError
  identity_provider_error extension_error : MlsError
  leaf_node_no_children invalid_leaf_consumption : MlsError
  key_missing invalid_future_generation : ℕ → MlsError
  expected_node unexpected_empty_node removing_non_existing_member : MlsError
  updating_non_existing_member : MlsError
  invalid_node_index duplicate_leaf_data : ℕ → MlsError
  in_use_credential_type_unsupported_by_new_leaf : MlsError
  credential_type_of_new_leaf_is_unsupported : MlsError
  group_id_mismatch invalid_epoch non_zero_retention_required time_overflow : MlsError
