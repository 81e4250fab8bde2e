-- ===== src/Codec/Varint.antt =====
-- mls-rs-codec/src/varint.rs and the `u8` of stdint.rs, on which it reads.
pub mod RoundTrip
pub mod Canonical
use mls_rs_wasm_maybe_sync.Common.{
  ℕ, zero, suc, ◌+◌, ◌-◌, ◌*◌, ◌/◌, ◌%◌, ◌^◌, bit_and, bit_or, List, [], ◌∷◌, ◌++◌, drop, ltb, leb,
  ◌==◌, if◌then◌else◌, Result, ok, err, fault, panicked, ensure, ◌>>=◌, ◌>>◌,
}
use mls_rs_wasm_maybe_sync.Codec.Traits.{
  Error, var_int_out_of_range, invalid_var_int_prefix, var_int_minimum_length_encoding,
  unexpected_eof,
}

-- `VarInt::MAX`
abbrev pub varint_max : ℕ
varint_max = 2 ^ 30 - 1

-- `TryFrom<u32>` and `TryFrom<usize>`
unfoldable pub varint_try_from_u32 : ℕ → Result Error ℕ
varint_try_from_u32 n = if leb n varint_max then ok n else err var_int_out_of_range

unfoldable pub varint_try_from : ℕ → Result Error ℕ
unfolding varint_try_from_u32
varint_try_from n = if ltb n (2 ^ 32) then varint_try_from_u32 n else err var_int_out_of_range

-- `leading_zeros` of a word of `w` bits.
unfoldable pub leading_zeros : ℕ → ℕ → ℕ
leading_zeros zero n = 0
leading_zeros (suc w) n = if ltb n (2 ^ w) then suc (leading_zeros w n) else 0

pub data LengthEncoding : Type 0 where
  one two four : LengthEncoding

-- `LengthEncoding as usize`
abbrev pub length_encoding : LengthEncoding → ℕ
length_encoding one = 1
length_encoding two = 2
length_encoding four = 4

-- `match used_bits { 0..=6, 7..=14, 15..=30, _ => panic!(..) }`
unfoldable pub encoding_of_bits : ℕ → Result Error LengthEncoding
encoding_of_bits used_bits =
    if leb used_bits 6
    then ok one
    else if leb used_bits 14
    then ok two
    else if leb used_bits 30
    then ok four
    else fault panicked

unfoldable pub count_bytes_to_encode_int : ℕ → Result Error LengthEncoding
count_bytes_to_encode_int n = encoding_of_bits (32 - leading_zeros 32 n)

unfoldable pub varint_encoded_len : ℕ → Result Error ℕ
varint_encoded_len n = do e ← count_bytes_to_encode_int n; ok (length_encoding e)

-- `u32::to_be_bytes`
abbrev byte0 : ℕ → ℕ
byte0 n = n / 2 ^ 24 % 256

abbrev byte1 : ℕ → ℕ
byte1 n = n / 2 ^ 16 % 256

abbrev byte2 : ℕ → ℕ
byte2 n = n / 2 ^ 8 % 256

abbrev byte3 : ℕ → ℕ
byte3 n = n % 256

-- The slice of `bytes` that is written, with the length marked in its first byte.
varint_bytes : ℕ → LengthEncoding → List ℕ
varint_bytes n one = byte3 n ∷ []
varint_bytes n two = bit_or (byte2 n) 0x40 ∷ byte3 n ∷ []
varint_bytes n four = bit_or (byte0 n) 0x80 ∷ byte1 n ∷ byte2 n ∷ byte3 n ∷ []

unfoldable pub varint_encode : ℕ → List ℕ → Result Error (List ℕ)
unfolding varint_bytes
varint_encode n writer = do e ← count_bytes_to_encode_int n; ok (writer ++ varint_bytes n e)

-- `u8::mls_decode`
unfoldable pub u8_decode : List ℕ → Result Error (ℕ × List ℕ)
u8_decode [] = err unexpected_eof
u8_decode (b ∷ rest) = ok (b, rest)

-- `(1..count).try_fold(n, |n, _| ..)` over the `rounds` elements of the range.
unfoldable pub fold_bytes : ℕ → ℕ → List ℕ → Result Error (ℕ × List ℕ)
fold_bytes zero n reader = ok (n, reader)
fold_bytes (suc rounds) n reader = do
  (b, rest) ← u8_decode reader
  fold_bytes rounds (bit_or (n * 2 ^ 8 % 2 ^ 32) b) rest

-- The encoding has to be the shortest.
unfoldable pub check_minimal : ℕ → ℕ × List ℕ → Result Error (ℕ × List ℕ)
check_minimal count (n, rest) = do
  e ← count_bytes_to_encode_int n
  if length_encoding e == count then ok (n, rest) else err var_int_minimum_length_encoding

-- What follows the first byte.
unfoldable pub varint_decode_rest : ℕ → List ℕ → Result Error (ℕ × List ℕ)
unfolding fold_bytes check_minimal u8_decode
varint_decode_rest first reader = do
  let prefix = first / 2 ^ 6
  ensure (ltb prefix 3) (invalid_var_int_prefix prefix)
  let count = 2 ^ prefix
  n ← fold_bytes (count - 1) (bit_and first 0x3f) reader
  check_minimal count n

unfoldable pub varint_decode : List ℕ → Result Error (ℕ × List ℕ)
unfolding varint_decode_rest u8_decode
varint_decode reader = do (first, rest) ← u8_decode reader; varint_decode_rest first rest
