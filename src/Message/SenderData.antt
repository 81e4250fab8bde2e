-- ===== src/Message/SenderData.antt =====
-- mls-rs/src/group/ciphertext_processor/sender_data_key.rs and message_key.rs: the encryption of the content
-- of a private message, and of the data about its sender. The AEAD is the crypto provider's: it enters as
-- the record `Aead`.
pub mod RoundTrip
use mls_rs_wasm_maybe_sync.Common.{
  ℕ, ◌+◌, ◌≤◌, ◌<◌, ◌^◌, ◌≡◌, List, [], ◌∷◌, length, take, leb, if◌then◌else◌, Option, none, some,
  Result, ok, err, fault, ok_or, ◌>>=◌,
}
use mls_rs_wasm_maybe_sync.Codec.{Codec, encode_to_vec, Error}
use mls_rs_wasm_maybe_sync.Codec.Types.{
  u8_codec, u32_codec, u64_codec, array_codec, byte_vec_codec, pair_codec,
}
use mls_rs_wasm_maybe_sync.MlsError.{MlsError, crypto_provider_error, codec_error}
use mls_rs_wasm_maybe_sync.SecretTree.Derive.{
  CipherSuite, kdf_expand_with_label, key_label, nonce_label,
}
use mls_rs_wasm_maybe_sync.SecretTree.Ratchet.{MessageKeyData}
use mls_rs_wasm_maybe_sync.Message.ReuseGuard.{apply}

-- `aead_seal` and `aead_open` of `CipherSuiteProvider`: key, data, associated data and nonce
pub record Aead : Type 0 where
  pub aead_seal : List ℕ → List ℕ → List ℕ → List ℕ → Option (List ℕ)
  pub aead_open : List ℕ → List ℕ → List ℕ → List ℕ → Option (List ℕ)

-- What an AEAD documents: what it sealed it opens, under the same key, associated data and nonce.
abbrev pub Opens : Aead → Type 0
Opens a =
    (key text aad nonce sealed : List ℕ)
    → a.aead_seal key text aad nonce ≡ some sealed
    → a.aead_open key sealed aad nonce ≡ some text

-- `MessageKey::encrypt` and `MessageKey::decrypt`
unfoldable pub encrypt : Aead → MessageKeyData → List ℕ → List ℕ → List ℕ → Result MlsError (List ℕ)
unfolding apply
encrypt a message_key text aad reuse_guard =
    ok_or (a.aead_seal message_key.key text aad (apply reuse_guard message_key.nonce))
      crypto_provider_error

unfoldable pub decrypt : Aead → MessageKeyData → List ℕ → List ℕ → List ℕ → Result MlsError (List ℕ)
unfolding apply
decrypt a message_key sealed aad reuse_guard =
    ok_or (a.aead_open message_key.key sealed aad (apply reuse_guard message_key.nonce))
      crypto_provider_error

pub record SenderData : Type 0 where
  pub sender : ℕ
  pub generation : ℕ
  pub reuse_guard : List ℕ

-- The content type is its number.
pub record SenderDataAad : Type 0 where
  pub group_id : List ℕ
  pub epoch : ℕ
  pub content_type : ℕ

abbrev pub sender_data_codec : Codec (ℕ × (ℕ × List ℕ))
sender_data_codec = pair_codec u32_codec (pair_codec u32_codec (array_codec 4))

abbrev pub sender_data_fields : SenderData → ℕ × (ℕ × List ℕ)
sender_data_fields d = (d.sender, (d.generation, d.reuse_guard))

abbrev pub sender_data_aad_codec : Codec (List ℕ × (ℕ × ℕ))
sender_data_aad_codec = pair_codec byte_vec_codec (pair_codec u64_codec u8_codec)

abbrev pub sender_data_aad_fields : SenderDataAad → List ℕ × (ℕ × ℕ)
sender_data_aad_fields d = (d.group_id, (d.epoch, d.content_type))

-- `?` on a codec error
abbrev pub map_codec_err {ℓ} : {A : Type ℓ} → Result Error A → Result MlsError A
map_codec_err (ok a) = ok a
map_codec_err (err e) = err codec_error
map_codec_err (fault x) = fault x

pub record SenderDataKey : Type 0 where
  pub key : List ℕ
  pub nonce : List ℕ

-- `ciphertext.get(0..extract_size).unwrap_or(ciphertext)`
abbrev pub ciphertext_sample : ℕ → List ℕ → List ℕ
ciphertext_sample extract_size ciphertext =
    if leb extract_size (length ciphertext) then take extract_size ciphertext else ciphertext

-- `SenderDataKey::new`
unfoldable pub sender_data_key_new : CipherSuite → List ℕ → List ℕ → Result MlsError SenderDataKey
unfolding kdf_expand_with_label
sender_data_key_new cs sender_data_secret ciphertext = do
  key ←
      kdf_expand_with_label cs sender_data_secret key_label
        (ciphertext_sample cs.kdf_extract_size ciphertext) (some cs.aead_key_size)
  nonce ←
      kdf_expand_with_label cs sender_data_secret nonce_label
        (ciphertext_sample cs.kdf_extract_size ciphertext) (some cs.aead_nonce_size)
  ok (record { key = key; nonce = nonce })

-- `SenderDataKey::seal` and `SenderDataKey::open`
unfoldable pub seal_sender_data :
    Aead → SenderDataKey → SenderData → SenderDataAad → Result MlsError (List ℕ)
unfolding encode_to_vec
seal_sender_data a k sender_data aad = do
  text ← map_codec_err (encode_to_vec sender_data_codec (sender_data_fields sender_data))
  associated ← map_codec_err (encode_to_vec sender_data_aad_codec (sender_data_aad_fields aad))
  ok_or (a.aead_seal k.key text associated k.nonce) crypto_provider_error

-- The bytes behind the sender data are not looked at.
abbrev pub sender_data_of : (ℕ × (ℕ × List ℕ)) × List ℕ → SenderData
sender_data_of ((sender, (generation, reuse_guard)), rest) = record {
  sender = sender;
  generation = generation;
  reuse_guard = reuse_guard;
}

unfoldable pub open_sender_data :
    Aead → SenderDataKey → List ℕ → SenderDataAad → Result MlsError SenderData
unfolding encode_to_vec
open_sender_data a k sender_data aad = do
  associated ← map_codec_err (encode_to_vec sender_data_aad_codec (sender_data_aad_fields aad))
  text ← ok_or (a.aead_open k.key sender_data associated k.nonce) crypto_provider_error
  fields ← map_codec_err (sender_data_codec.decode text)
  ok (sender_data_of fields)
