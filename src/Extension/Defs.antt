-- ===== src/Extension/Defs.antt =====
-- mls-rs-core/src/extension.rs: an extension, its type, and its encoding. The data of an extension is
-- a byte string; the conversions of typed extensions are the argument of what uses them.
use mls_rs_wasm_maybe_sync.Common.{
  ℕ, ◌^◌, ◌≤◌, ◌<◌, ◌≡◌, List, ◌++◌, length, leb, ◌==◌, if◌then◌else◌, Bool, not, Result, ok, err,
  fault, ◌>>=◌,
}
use mls_rs_wasm_maybe_sync.Codec.{RoundTrips, IsCodec-RoundTrips, Error, Codec, IsCodec}
use mls_rs_wasm_maybe_sync.Codec.Varint.{varint_max}
use mls_rs_wasm_maybe_sync.Codec.Types.{u16_codec, byte_vec_codec, pair_codec}
use mls_rs_wasm_maybe_sync.Codec.Types.Laws.{
  int_codec-IsCodec, byte_vec_codec-IsCodec, pair_codec-IsCodec,
}

-- `ExtensionType::is_default`
abbrev pub is_default : ℕ → Bool
is_default extension_type = leb extension_type 5

pub record Extension : Type 0 where
  pub extension_type : ℕ
  pub extension_data : List ℕ

pub data ExtensionError : Type 0 where
  serialization_error deserialization_error : ExtensionError
  incorrect_type : ℕ → ExtensionError

-- `MlsExtension`: what a type of extensions implements.
pub record MlsExtension {ℓ} (E : Type ℓ) : Type ℓ where
  pub type_id : ℕ
  pub to_bytes : E → Result Error (List ℕ)
  pub from_bytes : List ℕ → Result Error E

module _ {ℓ} {E : Type ℓ} (m : MlsExtension E) where
  unfoldable pub into_extension : E → Result ExtensionError Extension
  into_extension e = elim (m.to_bytes e) [
    | ok bytes ↦ ok (record { extension_type = m.type_id; extension_data = bytes })
    | err x ↦ err serialization_error
    | fault x ↦ fault x
  ]

  unfoldable pub from_extension : Extension → Result ExtensionError E
  from_extension ext =
      if not (ext.extension_type == m.type_id)
      then err (incorrect_type ext.extension_type)
      else elim (m.from_bytes ext.extension_data) [
        | ok e ↦ ok e
        | err x ↦ err deserialization_error
        | fault x ↦ fault x
      ]

-- `#[derive(MlsSize, MlsEncode, MlsDecode)]`: the fields in their order.
abbrev pub extension_fields : Codec (ℕ × List ℕ)
extension_fields = pair_codec u16_codec byte_vec_codec

abbrev pub to_fields : Extension → ℕ × List ℕ
to_fields e = (e.extension_type, e.extension_data)

unfoldable pub extension_decode : List ℕ → Result Error (Extension × List ℕ)
extension_decode reader = do
  (fields, rest) ← extension_fields.decode reader
  ok (record { extension_type = fields.0; extension_data = fields.1 }, rest)

abbrev pub extension_codec : Codec Extension
extension_codec = record {
  encoded_len = λ e. extension_fields.encoded_len (to_fields e);
  encode = λ e w. extension_fields.encode (to_fields e) w;
  decode = extension_decode;
}

abbrev pub IsEncodable : Extension → Type 0
IsEncodable e = (e.extension_type < 256 ^ 2) × (length e.extension_data ≤ varint_max)

abbrev extension_fields-IsCodec :
    IsCodec extension_fields (λ x. (x.0 < 256 ^ 2) × (length x.1 ≤ varint_max))
extension_fields-IsCodec =
    pair_codec-IsCodec u16_codec byte_vec_codec (int_codec-IsCodec 2) byte_vec_codec-IsCodec

extension_back :
    (e : Extension) (rest : List ℕ)
    → IsEncodable e
    → extension_decode (extension_fields-IsCodec.wire (to_fields e) ++ rest) ≡ ok (e, rest)
unfolding extension_decode
extension_back e rest h = rw (extension_fields-IsCodec.decode_wire (to_fields e) rest h)

-- An extension with a `u16` type and data that fits the header is read back.
pub extension_codec-IsCodec : IsCodec extension_codec IsEncodable
extension_codec-IsCodec = record {
  wire = λ e. extension_fields-IsCodec.wire (to_fields e);
  len_wire = λ e h. extension_fields-IsCodec.len_wire (to_fields e) h;
  encode_wire = λ e w h. extension_fields-IsCodec.encode_wire (to_fields e) w h;
  decode_wire = extension_back;
}

-- An extension with a `u16` type and data that fits the header is encoded in as many bytes as told, and
-- is read back in front of anything.
extension_round_trip :
    (e : Extension) (rest : List ℕ)
    → e.extension_type < 256 ^ 2
    → length e.extension_data ≤ varint_max
    → RoundTrips extension_codec e rest
extension_round_trip e rest h k =
    IsCodec-RoundTrips extension_codec extension_codec-IsCodec e rest (h, k)
