-- ===== src/Codec/Tests.antt =====
-- mls-rs-codec/src: runs of the codec, among them the examples of RFC 9000.
use mls_rs_wasm_maybe_sync.Common.{
  ℕ, ◌^◌, ◌≤◌, ◌<◌, ◌≡◌, ◌≢◌, refl, [], ◌∷◌, ◌++◌, length, ok, err, fault, out_of_fuel, arith,
}
use mls_rs_wasm_maybe_sync.Codec.Traits.{RoundTrips, var_int_minimum_length_encoding}
use mls_rs_wasm_maybe_sync.Codec.Varint.{
  varint_max, varint_decode, fold_bytes, check_minimal, varint_decode_rest,
  count_bytes_to_encode_int, encoding_of_bits, leading_zeros,
}
use mls_rs_wasm_maybe_sync.Codec.Varint.RoundTrip.{varint_wire}
use mls_rs_wasm_maybe_sync.Codec.Varint.Canonical.{
  varint_decode_canonical, varint_decode-TakesInput,
}
use mls_rs_wasm_maybe_sync.Codec.Collection.{vec_codec, vec_decode}
use mls_rs_wasm_maybe_sync.Codec.Types.{be_bytes, int_codec}
use mls_rs_wasm_maybe_sync.Codec.Types.Laws.{int_codec-IsCodec}
use mls_rs_wasm_maybe_sync.Codec.RoundTrip.{
  varint_codec, varint_round_trip, vec_round_trip, vec_decode_returns,
}

decode_rfc_four : varint_decode (0x9d ∷ 0x7f ∷ 0x3e ∷ 0x7d ∷ []) ≡ ok (494878333, [])
unfolding varint_decode varint_decode_rest fold_bytes check_minimal count_bytes_to_encode_int
    encoding_of_bits leading_zeros
decode_rfc_four = refl

decode_rfc_two : varint_decode (0x7b ∷ 0xbd ∷ []) ≡ ok (15293, [])
unfolding varint_decode varint_decode_rest fold_bytes check_minimal count_bytes_to_encode_int
    encoding_of_bits leading_zeros
decode_rfc_two = refl

decode_padded : varint_decode (0x40 ∷ 0x25 ∷ []) ≡ err var_int_minimum_length_encoding
unfolding varint_decode varint_decode_rest fold_bytes check_minimal count_bytes_to_encode_int
    encoding_of_bits leading_zeros
decode_padded = refl

varint_decode_canonical_example :
    (15293 ≤ varint_max) × (0x7b ∷ 0xbd ∷ 9 ∷ [] ≡ varint_wire 15293 ++ (9 ∷ []))
unfolding varint_decode varint_decode_rest fold_bytes check_minimal count_bytes_to_encode_int
    encoding_of_bits leading_zeros
varint_decode_canonical_example =
    varint_decode_canonical (0x7b ∷ 0xbd ∷ 9 ∷ []) 15293 (9 ∷ [])
      (omega arith, (omega arith, (omega arith, tt))) refl

varint_round_trip_example : RoundTrips varint_codec 15293 (9 ∷ [])
varint_round_trip_example = varint_round_trip 15293 (9 ∷ []) (omega arith)

two_bytes : (x : ℕ) → x < 256 ^ 2 → 0 < length ((int_codec-IsCodec 2).wire x)
unfolding int_codec-IsCodec be_bytes
two_bytes x h = omega arith

vec_round_trip_example : RoundTrips (vec_codec (int_codec 2)) (1 ∷ 515 ∷ []) (9 ∷ [])
unfolding int_codec-IsCodec be_bytes
vec_round_trip_example =
    vec_round_trip (int_codec 2) (int_codec-IsCodec 2) two_bytes (1 ∷ 515 ∷ []) (9 ∷ [])
      (omega arith, (omega arith, tt)) (omega arith)

vec_decode_returns_example : vec_decode varint_codec (2 ∷ 7 ∷ 0xc0 ∷ []) ≢ fault out_of_fuel
vec_decode_returns_example =
    vec_decode_returns varint_codec (2 ∷ 7 ∷ 0xc0 ∷ []) out_of_fuel varint_decode-TakesInput
      (omega arith, (omega arith, (omega arith, tt)))
