-- ===== src/Message/SenderData/RoundTrip.antt =====
-- mls-rs/src/group/ciphertext_processor/sender_data_key.rs and message_key.rs: what was sealed is opened.
use mls_rs_wasm_maybe_sync.Common.{
  ℕ, ◌^◌, ◌<◌, ◌≡◌, ap, ◌∙◌, List, [], ◌++◌, append-nil, length, Option, none, some, Result, ok,
  err, fault, ok_or, >>=-eq-ok,
}
use mls_rs_wasm_maybe_sync.Codec.{encode_to_vec, IsCodec-RoundTrips, Error}
use mls_rs_wasm_maybe_sync.Codec.Types.{u32_codec, array_codec}
use mls_rs_wasm_maybe_sync.Codec.Types.Laws.{
  array_codec-IsCodec, int_codec-IsCodec, pair_codec-IsCodec,
}
use mls_rs_wasm_maybe_sync.MlsError.{MlsError, crypto_provider_error}
use mls_rs_wasm_maybe_sync.SecretTree.Ratchet.{MessageKeyData}
use mls_rs_wasm_maybe_sync.Message.SenderData.{
  Aead, Opens, encrypt, decrypt, SenderData, SenderDataAad, SenderDataKey, sender_data_codec,
  sender_data_fields, sender_data_aad_codec, sender_data_aad_fields, map_codec_err,
  seal_sender_data, open_sender_data,
}

ok_or-ok : {A : Type 0} (o : Option A) (e : MlsError) (a : A) → ok_or o e ≡ ok a → o ≡ some a
ok_or-ok none e a h = absurd (cc)
ok_or-ok (some b) e a h = cc

map_codec_err-ok : {A : Type 0} (r : Result Error A) (a : A) → map_codec_err r ≡ ok a → r ≡ ok a
map_codec_err-ok (ok b) a h = cc
map_codec_err-ok (err e) a h = absurd (cc)
map_codec_err-ok (fault x) a h = absurd (cc)

-- Whatever a message key and a reuse guard encrypted, they decrypt.
pub decrypt-encrypt :
    (a : Aead) (k : MessageKeyData) (text aad reuse_guard sealed : List ℕ)
    → Opens a
    → encrypt a k text aad reuse_guard ≡ ok sealed
    → decrypt a k sealed aad reuse_guard ≡ ok text
unfolding encrypt decrypt
decrypt-encrypt a k text aad reuse_guard sealed opens h =
    ap (λ (o : Option (List ℕ)). ok_or o crypto_provider_error) (opens _ _ _ _ _ (ok_or-ok _ _ _ h))

-- Sender data that fits its fields.
abbrev pub IsSenderData : SenderData → Type 0
IsSenderData d = (d.sender < 2 ^ 32) × ((d.generation < 2 ^ 32) × (length d.reuse_guard ≡ 4))

read_back :
    (d : SenderData) (text : List ℕ)
    → IsSenderData d
    → encode_to_vec sender_data_codec (sender_data_fields d) ≡ ok text
    → sender_data_codec.decode text ≡ ok (sender_data_fields d, [])
read_back d text valid h =
    let (bytes, written, told, read) =
      IsCodec-RoundTrips sender_data_codec
        (pair_codec-IsCodec u32_codec _ (int_codec-IsCodec 4) (
          pair_codec-IsCodec u32_codec (array_codec 4) (int_codec-IsCodec 4)
            (array_codec-IsCodec 4)))
        (sender_data_fields d) [] valid in
    let same : text ≡ bytes ++ [] = cc (h, written, append-nil bytes) in
    ap sender_data_codec.decode same ∙ read

-- With an AEAD that opens what it sealed, sender data whose leaf index and generation are u32 and whose
-- guard has four bytes is opened, under the same key and associated data, from what seal has returned.
pub open_sender_data-seal_sender_data :
    (a : Aead) (k : SenderDataKey) (sender_data : SenderData) (aad : SenderDataAad)
    (sealed : List ℕ)
    → Opens a
    → IsSenderData sender_data
    → seal_sender_data a k sender_data aad ≡ ok sealed
    → open_sender_data a k sealed aad ≡ ok sender_data
unfolding seal_sender_data open_sender_data
open_sender_data-seal_sender_data a k d aad sealed opens valid h =
    let (text, encoded, rest) = >>=-eq-ok _ _ h in
    let (associated, told, last) =
      >>=-eq-ok (map_codec_err (encode_to_vec sender_data_aad_codec (sender_data_aad_fields aad)))
        (λ associated. ok_or (a.aead_seal k.key text associated k.nonce) crypto_provider_error)
        rest in
    let opened : a.aead_open k.key sealed associated k.nonce ≡ some text =
      opens _ _ _ _ _ (ok_or-ok _ crypto_provider_error _ last) in
    let read : sender_data_codec.decode text ≡ ok (sender_data_fields d, []) =
      read_back d text valid (map_codec_err-ok _ _ encoded) in
    rw (told, open_sender_data, opened, read)
