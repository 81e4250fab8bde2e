-- ===== src/SecretTree/Derive.antt =====
-- mls-rs/src/group/key_schedule.rs, `kdf_expand_with_label`, and the secrets that
-- mls-rs/src/group/secret_tree.rs derives with it. The crypto provider is not code of this
-- repository's core: it enters as the record `CipherSuite`.
use mls_rs_wasm_maybe_sync.Common.{
  ℕ, ◌%◌, ◌^◌, List, [], ◌∷◌, Option, none, some, Result, ok, err, fault, ok_or,
}
use mls_rs_wasm_maybe_sync.Codec.{Codec, encode_to_vec}
use mls_rs_wasm_maybe_sync.Codec.Types.{u16_codec, byte_vec_codec, pair_codec}
use mls_rs_wasm_maybe_sync.MlsError.{MlsError, crypto_provider_error, codec_error}

-- `CipherSuiteProvider`, as far as the secret tree calls it. `kdf_expand` takes the secret, the info
-- and the length, and `none` is its error.
pub record CipherSuite : Type 0 where
  pub kdf_expand : List ℕ → List ℕ → ℕ → Option (List ℕ)
  pub kdf_extract_size : ℕ
  pub aead_nonce_size : ℕ
  pub aead_key_size : ℕ

-- `Label`: the length, the label and the context.
abbrev label_codec : Codec (ℕ × (List ℕ × List ℕ))
label_codec = pair_codec u16_codec (pair_codec byte_vec_codec byte_vec_codec)

-- `Label::new`, with the prefix "MLS 1.0 "
abbrev label_new : ℕ → List ℕ → List ℕ → ℕ × (List ℕ × List ℕ)
label_new length' label context =
    (length', (b'M' ∷ b'L' ∷ b'S' ∷ b' ' ∷ b'1' ∷ b'.' ∷ b'0' ∷ b' ' ∷ label, context))

pub data KeyType : Type 0 where
  handshake application : KeyType

-- The labels of the ratchets and of the tree.
abbrev pub key_type_label : KeyType → List ℕ
key_type_label handshake = b'h' ∷ b'a' ∷ b'n' ∷ b'd' ∷ b's' ∷ b'h' ∷ b'a' ∷ b'k' ∷ b'e' ∷ []
key_type_label application =
    b'a' ∷ b'p' ∷ b'p' ∷ b'l' ∷ b'i' ∷ b'c' ∷ b'a' ∷ b't' ∷ b'i' ∷ b'o' ∷ b'n' ∷ []

abbrev pub tree_label : List ℕ
tree_label = b't' ∷ b'r' ∷ b'e' ∷ b'e' ∷ []

abbrev pub left_context : List ℕ
left_context = b'l' ∷ b'e' ∷ b'f' ∷ b't' ∷ []

abbrev pub right_context : List ℕ
right_context = b'r' ∷ b'i' ∷ b'g' ∷ b'h' ∷ b't' ∷ []

abbrev pub nonce_label : List ℕ
nonce_label = b'n' ∷ b'o' ∷ b'n' ∷ b'c' ∷ b'e' ∷ []

abbrev pub key_label : List ℕ
key_label = b'k' ∷ b'e' ∷ b'y' ∷ []

abbrev pub secret_label : List ℕ
secret_label = b's' ∷ b'e' ∷ b'c' ∷ b'r' ∷ b'e' ∷ b't' ∷ []

abbrev or_default : Option ℕ → ℕ → ℕ
or_default none d = d
or_default (some n) d = n

unfoldable pub kdf_expand_with_label :
    CipherSuite → List ℕ → List ℕ → List ℕ → Option ℕ → Result MlsError (List ℕ)
kdf_expand_with_label cs secret label context len =
    let len' = or_default len cs.kdf_extract_size in
    elim (encode_to_vec label_codec (label_new (len' % 2 ^ 16) label context)) [
      | ok info ↦ ok_or (cs.kdf_expand secret info len') crypto_provider_error
      | err e ↦ err codec_error
      | fault x ↦ fault x
    ]

-- `map_err(|e| MlsError::CryptoProviderError(e.into_any_error()))`
abbrev pub map_crypto_err {ℓ} : {A : Type ℓ} → Result MlsError A → Result MlsError A
map_crypto_err (ok a) = ok a
map_crypto_err (err e) = err crypto_provider_error
map_crypto_err (fault x) = fault x
