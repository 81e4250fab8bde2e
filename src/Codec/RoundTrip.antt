-- ===== src/Codec/RoundTrip.antt =====
-- mls-rs-codec/src: what is written is read back, type by type.
use mls_rs_wasm_maybe_sync.Common.{ℕ, ◌≤◌, ◌<◌, ◌≢◌, List, length, All, Option, fault, Fault}
use mls_rs_wasm_maybe_sync.Codec.Traits.{
  Codec, IsCodec, IsByte, RoundTrips, IsCodec-RoundTrips, TakesInput,
}
use mls_rs_wasm_maybe_sync.Codec.Varint.{
  varint_max, varint_encoded_len, varint_encode, varint_decode,
}
use mls_rs_wasm_maybe_sync.Codec.Varint.RoundTrip.{
  varint_wire, varint_encode-wire, varint_encoded_len-wire, varint_decode-wire,
}
use mls_rs_wasm_maybe_sync.Codec.Collection.{vec_codec, vec_decode}
use mls_rs_wasm_maybe_sync.Codec.Collection.RoundTrip.{items_wire, vec_codec-IsCodec}
use mls_rs_wasm_maybe_sync.Codec.Collection.Bounds.{vec_decode-TakesInput}
use mls_rs_wasm_maybe_sync.Codec.Types.{option_codec, pair_codec}
use mls_rs_wasm_maybe_sync.Codec.Types.Laws.{option_codec-IsCodec, pair_codec-IsCodec, OnSome}

-- `MlsSize`, `MlsEncode` and `MlsDecode` for `VarInt`
abbrev pub varint_codec : Codec ℕ
varint_codec = record {
  encoded_len = varint_encoded_len;
  encode = varint_encode;
  decode = varint_decode;
}

pub varint_codec-IsCodec : IsCodec varint_codec (λ n. n ≤ varint_max)
varint_codec-IsCodec = record {
  wire = varint_wire;
  len_wire = varint_encoded_len-wire;
  encode_wire = varint_encode-wire;
  decode_wire = varint_decode-wire;
}

-- A number up to VarInt::MAX is encoded in as many bytes as mls_encoded_len tells, and decoding them, with
-- anything behind them, gives the number back and leaves the rest.
pub varint_round_trip : (n : ℕ) (rest : List ℕ) → n ≤ varint_max → RoundTrips varint_codec n rest
varint_round_trip n rest h = IsCodec-RoundTrips varint_codec varint_codec-IsCodec n rest h

-- For items that keep the codec contract and take at least one byte each, a vector whose items fit the
-- header is encoded in as many bytes as told, and read back in front of anything.
pub vec_round_trip {ℓ κ} :
    {A : Type ℓ} {Valid : A → Type κ} (c : Codec A) (k : IsCodec c Valid)
    (nonempty : (a : A) → Valid a → 0 < length (k.wire a)) (xs : List A) (rest : List ℕ)
    → All Valid xs
    → length (items_wire k.wire xs) ≤ varint_max
    → RoundTrips (vec_codec c) xs rest
vec_round_trip c k nonempty xs rest h fits =
    IsCodec-RoundTrips (vec_codec c) (vec_codec-IsCodec c k nonempty) xs rest (h, fits)

-- When the item decoder always returns and takes at least one byte on success, decoding a vector from any
-- bytes returns a value or an error: the loop does not run out of rounds.
pub vec_decode_returns {ℓ} :
    {A : Type ℓ} (c : Codec A) (input : List ℕ) (x : Fault)
    → TakesInput c.decode
    → All IsByte input
    → vec_decode c input ≢ fault x
vec_decode_returns c input x t h = (vec_decode-TakesInput c t).returns input x h

-- Options and pairs of values that keep the codec contract are read back.
option_pair_round_trip {ℓ κ μ ν} :
    {A : Type ℓ} {B : Type κ} {P : A → Type μ} {Q : B → Type ν} (c : Codec A) (d : Codec B)
    (k : IsCodec c P) (l : IsCodec d Q) (a : Option A) (b : B) (rest : List ℕ)
    → OnSome P a
    → Q b
    → RoundTrips (pair_codec (option_codec c) d) (a, b) rest
option_pair_round_trip c d k l a b rest h g =
    IsCodec-RoundTrips (pair_codec (option_codec c) d)
      (pair_codec-IsCodec (option_codec c) d (option_codec-IsCodec c k) l) (a, b) rest (h, g)
