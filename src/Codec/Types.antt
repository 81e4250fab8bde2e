-- ===== src/Codec/Types.antt =====
-- mls-rs-codec/src/array.rs, stdint.rs, option.rs, tuple.rs and byte_vec.rs.
pub mod Laws
use mls_rs_wasm_maybe_sync.Common.{
  ℕ, zero, suc, ◌+◌, ◌-◌, ◌*◌, ◌/◌, ◌%◌, ◌^◌, ◌≤◌, ◌<◌, ◌≡◌, ◌≢◌, ◌↔◌, refl, sym, ap, subst, ◌∙◌,
  bit_and, bit_or, bit_xor, max, min, List, [], ◌∷◌, ◌++◌, map, append-nil, append_assoc, length,
  length-append, length-set, length-drop, get_elem?, set, take, drop, take-append, drop-append,
  head?, get_last?, any, all, All, ltb, leb, ◌==◌, ==_iff, ltb→lt, lt→ltb, if◌then◌else◌, Bool,
  true, false, not, ◌&&◌, ◌||◌, Bool-cases, Option, none, some, Option-cases, is_some, is_none,
  Result, ok, err, fault, Fault, panicked, out_of_fuel, ensure, ok_or, try_for_each, ◌>>=◌, ◌>>◌,
  arith, ◌⊎◌, inl, inr,
}
use mls_rs_wasm_maybe_sync.Codec.Traits.{Error, unexpected_eof, option_out_of_range, Codec}
use mls_rs_wasm_maybe_sync.Codec.Varint.{
  varint_try_from, varint_encoded_len, varint_encode, u8_decode,
}
use mls_rs_wasm_maybe_sync.Codec.Collection.{header_or_zero, split_on_collection}

-- `[u8; N]`
unfoldable pub array_decode : ℕ → List ℕ → Result Error (List ℕ × List ℕ)
array_decode n reader =
    if leb n (length reader) then ok (take n reader, drop n reader) else err unexpected_eof

abbrev pub array_codec : ℕ → Codec (List ℕ)
array_codec n = record {
  encoded_len = λ a. ok n;
  encode = λ a writer. ok (writer ++ a);
  decode = array_decode n;
}

-- `to_be_bytes` of an integer of `n` bytes, and `from_be_bytes`.
unfoldable pub be_bytes : ℕ → ℕ → List ℕ
be_bytes zero x = []
be_bytes (suc n) x = x / 256 ^ n % 256 ∷ be_bytes n x

unfoldable pub from_be_bytes : ℕ → List ℕ → ℕ
from_be_bytes acc [] = acc
from_be_bytes acc (b ∷ bs) = from_be_bytes (acc * 256 + b) bs

unfoldable pub int_decode : ℕ → List ℕ → Result Error (ℕ × List ℕ)
unfolding array_decode
int_decode n reader = do (bytes, rest) ← array_decode n reader; ok (from_be_bytes 0 bytes, rest)

-- `impl_stdint!`, for the unsigned integer of `n` bytes
abbrev pub int_codec : ℕ → Codec ℕ
int_codec n = record {
  encoded_len = λ x. ok n;
  encode = λ x writer. ok (writer ++ be_bytes n x);
  decode = int_decode n;
}

abbrev pub u8_codec : Codec ℕ
u8_codec = int_codec 1

abbrev pub u16_codec : Codec ℕ
u16_codec = int_codec 2

abbrev pub u32_codec : Codec ℕ
u32_codec = int_codec 4

abbrev pub u64_codec : Codec ℕ
u64_codec = int_codec 8

module _ {ℓ} {A : Type ℓ} (c : Codec A) where
  pub option_encoded_len : Option A → Result Error ℕ
  option_encoded_len none = ok 1
  option_encoded_len (some v) = do n ← c.encoded_len v; ok (1 + n)

  pub option_encode : Option A → List ℕ → Result Error (List ℕ)
  option_encode none writer = ok (writer ++ (0 ∷ []))
  option_encode (some v) writer = c.encode v (writer ++ (1 ∷ []))

  pub option_decode : List ℕ → Result Error (Option A × List ℕ)
  unfolding u8_decode
  option_decode reader = do
    (tag, data') ← u8_decode reader
    if tag == 0
        then ok (none, data')
        else if tag == 1
        then (c.decode data' >>= λ r. ok (some r.0, r.1))
        else err (option_out_of_range tag)

  abbrev pub option_codec : Codec (Option A)
  option_codec = record {
    encoded_len = option_encoded_len;
    encode = option_encode;
    decode = option_decode;
  }

module _ {ℓ κ} {A : Type ℓ} {B : Type κ} (c : Codec A) (d : Codec B) where
  pub pair_encoded_len : A × B → Result Error ℕ
  pair_encoded_len (a, b) = do n ← c.encoded_len a; m ← d.encoded_len b; ok (n + m)

  unfoldable pub pair_encode : A × B → List ℕ → Result Error (List ℕ)
  pair_encode (a, b) writer = do writer' ← c.encode a writer; d.encode b writer'

  unfoldable pub pair_decode : List ℕ → Result Error ((A × B) × List ℕ)
  pair_decode reader = do
    (a, data') ← c.decode reader
    (b, rest) ← d.decode data'
    ok ((a, b), rest)

  abbrev pub pair_codec : Codec (A × B)
  pair_codec = record { encoded_len = pair_encoded_len; encode = pair_encode; decode = pair_decode }

-- `byte_vec`
pub byte_vec_encoded_len : List ℕ → Result Error ℕ
byte_vec_encoded_len bytes = do
  header_length ← varint_encoded_len (header_or_zero (length bytes))
  ok (header_length + length bytes)

unfoldable pub byte_vec_encode : List ℕ → List ℕ → Result Error (List ℕ)
byte_vec_encode bytes writer = do
  len ← varint_try_from (length bytes)
  writer' ← varint_encode len writer
  ok (writer' ++ bytes)

unfoldable pub byte_vec_decode : List ℕ → Result Error (List ℕ × List ℕ)
byte_vec_decode reader = split_on_collection reader

abbrev pub byte_vec_codec : Codec (List ℕ)
byte_vec_codec = record {
  encoded_len = byte_vec_encoded_len;
  encode = byte_vec_encode;
  decode = byte_vec_decode;
}
