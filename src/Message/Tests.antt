-- ===== src/Message/Tests.antt =====
-- mls-rs/src/group/ciphertext_processor and padding.rs: runs with a small AEAD.
use mls_rs_wasm_maybe_sync.Common.{
  ℕ, ◌-◌, ◌*◌, ◌≤◌, ◌<◌, ◌+◌, ◌≡◌, refl, List, [], ◌∷◌, ◌⊎◌, some, ok, arith,
}
use mls_rs_wasm_maybe_sync.Codec.{encode_to_vec}
use mls_rs_wasm_maybe_sync.Codec.Types.{pair_encode, be_bytes, byte_vec_encode}
use mls_rs_wasm_maybe_sync.Codec.Varint.{
  varint_try_from, varint_encode, count_bytes_to_encode_int, encoding_of_bits, leading_zeros,
}
use mls_rs_wasm_maybe_sync.Message.Padding.{
  step_function, padded_size, blind_of, power_from, trailing_zeros, IsPadded, padded_size-IsPadded,
  padded_size_bounds,
}
use mls_rs_wasm_maybe_sync.Message.ReuseGuard.{apply-eq}
use mls_rs_wasm_maybe_sync.Message.SenderData.{
  Aead, Opens, SenderData, SenderDataAad, SenderDataKey, seal_sender_data, open_sender_data,
}
use mls_rs_wasm_maybe_sync.Message.SenderData.RoundTrip.{open_sender_data-seal_sender_data}

-- The sizes of the test test_padding_length.
sizes :
    (padded_size step_function 0 ≡ 32)
    × (padded_size step_function 63 ≡ 64)
    × (padded_size step_function 64 ≡ 96)
    × (padded_size step_function 128 ≡ 160)
    × (padded_size step_function 260 ≡ 320)
    × (padded_size step_function 490 ≡ 512)
unfolding padded_size blind_of power_from trailing_zeros
sizes = (refl, refl, refl, refl, refl, refl)

padded_size-IsPadded_example : IsPadded 490 (padded_size step_function 490)
padded_size-IsPadded_example = padded_size-IsPadded 490 (omega arith)

padded_size_bounds_example :
    (490 < padded_size step_function 490)
    × ((padded_size step_function 490 ≤ 490 + 32)
        ⊎ (4 * (padded_size step_function 490 - 490) ≤ 490))
padded_size_bounds_example = padded_size_bounds 490 (omega arith)

abbrev a_guard : List ℕ
a_guard = 1 ∷ 2 ∷ 3 ∷ 4 ∷ []

abbrev the_guard : List ℕ
the_guard = 1 ∷ 2 ∷ 3 ∷ 4 ∷ []

apply-eq_example : a_guard ≡ the_guard
apply-eq_example = apply-eq a_guard the_guard (7 ∷ 8 ∷ 9 ∷ 10 ∷ 11 ∷ []) refl (omega arith) refl

-- An AEAD that hides nothing: the sealed text is the text.
abbrev open_aead : Aead
open_aead = record {
  aead_seal = λ key text aad nonce. some text;
  aead_open = λ key sealed aad nonce. some sealed;
}

open_aead-Opens : Opens open_aead
open_aead-Opens key text aad nonce sealed h = cc

abbrev a_key : SenderDataKey
a_key = record { key = 1 ∷ []; nonce = 2 ∷ [] }

abbrev a_sender : SenderData
a_sender = record { sender = 3; generation = 258; reuse_guard = 1 ∷ 2 ∷ 3 ∷ 4 ∷ [] }

abbrev an_aad : SenderDataAad
an_aad = record { group_id = 9 ∷ []; epoch = 5; content_type = 1 }

abbrev a_text : List ℕ
a_text = 0 ∷ 0 ∷ 0 ∷ 3 ∷ 0 ∷ 0 ∷ 1 ∷ 2 ∷ 1 ∷ 2 ∷ 3 ∷ 4 ∷ []

sealed_text : seal_sender_data open_aead a_key a_sender an_aad ≡ ok a_text
unfolding seal_sender_data encode_to_vec pair_encode be_bytes byte_vec_encode varint_try_from
    varint_encode count_bytes_to_encode_int encoding_of_bits leading_zeros
sealed_text = refl

open_sender_data-seal_sender_data_example :
    open_sender_data open_aead a_key a_text an_aad ≡ ok a_sender
open_sender_data-seal_sender_data_example =
    open_sender_data-seal_sender_data open_aead a_key a_sender an_aad a_text open_aead-Opens
      (omega arith, (omega arith, refl)) sealed_text
