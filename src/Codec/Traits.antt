-- ===== src/Codec/Traits.antt =====
-- mls-rs-codec/src/lib.rs: `Error`, and `MlsSize`, `MlsEncode` and `MlsDecode` as one record of
-- operations, with the laws that a well-behaved implementation keeps.
use mls_rs_wasm_maybe_sync.Common.{
  ℕ, ◌<◌, ◌≡◌, ◌≢◌, ◌++◌, List, [], length, Result, ok, fault, Fault, All,
}

pub data Error : Type 0 where
  var_int_out_of_range var_int_minimum_length_encoding unexpected_eof : Error
  unsupported_enum_discriminant utf8 : Error
  invalid_var_int_prefix option_out_of_range custom : ℕ → Error

-- `encode` returns the writer and `decode` the rest of the reader. `encoded_len` is a `Result`
-- because the length of a `VarInt` above 30 bits panics.
pub record Codec {ℓ} (A : Type ℓ) : Type ℓ where
  pub encoded_len : A → Result Error ℕ
  pub encode : A → List ℕ → Result Error (List ℕ)
  pub decode : List ℕ → Result Error (A × List ℕ)

-- `mls_encode_to_vec`, without the feature preallocate
unfoldable pub encode_to_vec {ℓ} : {A : Type ℓ} → Codec A → A → Result Error (List ℕ)
encode_to_vec c a = c.encode a []

-- The contract of an implementation on the values that meet `Valid`: there is a byte string for
-- each, which `encode` appends, `encoded_len` measures and `decode` reads back.
pub record IsCodec {ℓ κ} {A : Type ℓ} (c : Codec A) (Valid : A → Type κ) : Type (ℓ ⊔ κ) where
  pub wire : A → List ℕ
  pub len_wire : (a : A) → Valid a → c.encoded_len a ≡ ok (length (wire a))
  pub encode_wire : (a : A) (w : List ℕ) → Valid a → c.encode a w ≡ ok (w ++ wire a)
  pub decode_wire : (a : A) (rest : List ℕ) → Valid a → c.decode (wire a ++ rest) ≡ ok (a, rest)

abbrev pub IsByte : ℕ → Type 0
IsByte b = b < 256

-- A decoder that takes at least one byte whenever it succeeds, and that always returns.
pub record TakesInput {ℓ} {A : Type ℓ} (decode : List ℕ → Result Error (A × List ℕ)) : Type ℓ where
  pub takes :
      (input : List ℕ) (a : A) (rest : List ℕ)
      → All IsByte input
      → decode input ≡ ok (a, rest)
      → All IsByte rest × (length rest < length input)
  pub returns : (input : List ℕ) (x : Fault) → All IsByte input → decode input ≢ fault x

-- An encoding of the value has the length that was told, and is read back in front of anything.
abbrev pub RoundTrips {ℓ} : {A : Type ℓ} → Codec A → A → List ℕ → Type ℓ
RoundTrips c a rest =
    (bytes : List ℕ) × (encode_to_vec c a ≡ ok bytes)
    × (c.encoded_len a ≡ ok (length bytes))
    × (c.decode (bytes ++ rest) ≡ ok (a, rest))

pub IsCodec-RoundTrips {ℓ κ} :
    {A : Type ℓ} {Valid : A → Type κ} (c : Codec A) (k : IsCodec c Valid) (a : A) (rest : List ℕ)
    → Valid a
    → RoundTrips c a rest
unfolding encode_to_vec
IsCodec-RoundTrips c k a rest h =
    (k.wire a, k.encode_wire a [] h, k.len_wire a h, k.decode_wire a rest h)
