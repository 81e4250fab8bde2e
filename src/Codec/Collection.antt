-- ===== src/Codec/Collection.antt =====
-- mls-rs-codec/src/iter.rs and vec.rs: collections behind a length header, and the loop that
-- decodes their items. `usize` sums are unbounded; `mls_encode` is the one of the feature
-- `preallocate`, which is on by default.
pub mod RoundTrip
pub mod Bounds
use mls_rs_wasm_maybe_sync.Common.{
  ℕ, zero, suc, ◌+◌, ◌-◌, ◌*◌, ◌/◌, ◌%◌, ◌^◌, ◌≤◌, ◌<◌, ◌≡◌, ◌≢◌, ◌↔◌, refl, sym, ap, subst, ◌∙◌,
  bit_and, bit_or, bit_xor, max, min, List, [], ◌∷◌, ◌++◌, map, append-nil, append_assoc, length,
  length-append, length-set, length-drop, get_elem?, set, take, drop, take-append, drop-append,
  head?, get_last?, any, all, All, ltb, leb, ◌==◌, ==_iff, ltb→lt, lt→ltb, if◌then◌else◌, Bool,
  true, false, not, ◌&&◌, ◌||◌, Bool-cases, Option, none, some, Option-cases, is_some, is_none,
  Result, ok, err, fault, Fault, panicked, out_of_fuel, ensure, ok_or, try_for_each, ◌>>=◌, ◌>>◌,
  arith, ◌⊎◌, inl, inr,
}
use mls_rs_wasm_maybe_sync.Codec.Traits.{Error, unexpected_eof, Codec}
use mls_rs_wasm_maybe_sync.Codec.Varint.{
  varint_try_from, varint_encoded_len, varint_encode, varint_decode,
}

module _ {ℓ} {A : Type ℓ} (c : Codec A) where
  -- `iter.map(|x| x.mls_encoded_len()).sum()`
  pub sum_lens : List A → Result Error ℕ
  sum_lens [] = ok 0
  sum_lens (x ∷ xs) = do n ← c.encoded_len x; m ← sum_lens xs; ok (n + m)

  -- `iter.try_for_each(|x| x.mls_encode(writer))`
  pub encode_each : List A → List ℕ → Result Error (List ℕ)
  encode_each [] writer = ok writer
  encode_each (x ∷ xs) writer = do writer' ← c.encode x writer; encode_each xs writer'

-- `VarInt::try_from(len).unwrap_or(VarInt(0))`
abbrev pub header_or_zero : ℕ → ℕ
header_or_zero len = elim (varint_try_from len) [ ok v ↦ v | _ ↦ 0 ]

module _ {ℓ} {A : Type ℓ} (c : Codec A) where
  unfoldable pub collection_encoded_len : List A → Result Error ℕ
  collection_encoded_len xs = do
    len ← sum_lens c xs
    header_length ← varint_encoded_len (header_or_zero len)
    ok (header_length + len)

  unfoldable pub collection_encode : List A → List ℕ → Result Error (List ℕ)
  collection_encode xs writer = do
    len ← sum_lens c xs
    header ← varint_try_from len
    writer' ← varint_encode header writer
    encode_each c xs writer'

-- `mls_decode_split_on_collection`
unfoldable pub split_on_collection : List ℕ → Result Error (List ℕ × List ℕ)
split_on_collection reader = do
  (len, data') ← varint_decode reader
  if ltb (length data') len then err unexpected_eof else ok (take len data', drop len data')

-- `mls_decode_collection`
unfoldable pub decode_collection {ℓ} :
    {T : Type ℓ} → List ℕ → (List ℕ → Result Error T) → Result Error (T × List ℕ)
decode_collection reader item_decode = do
  (items_data, rest) ← split_on_collection reader
  items ← item_decode items_data
  ok (items, rest)

-- `while !data.is_empty() { .. }`, where `step` decodes one item and adds it to the state.
unfoldable pub decode_while {ℓ} :
    {S : Type ℓ} → (S → List ℕ → Result Error (S × List ℕ)) → ℕ → S → List ℕ → Result Error S
decode_while step fuel s [] = ok s
decode_while step zero s (b ∷ bs) = fault out_of_fuel
decode_while step (suc fuel) s (b ∷ bs) = do
  (s', rest) ← step s (b ∷ bs)
  decode_while step fuel s' rest

module _ {ℓ} {A : Type ℓ} (c : Codec A) where
  -- `items.push(T::mls_decode(data)?)`
  unfoldable pub vec_step : List A → List ℕ → Result Error (List A × List ℕ)
  vec_step items reader = do (x, rest) ← c.decode reader; ok (items ++ (x ∷ []), rest)

  -- An item takes at least one byte, so as many rounds as there are bytes are enough.
  unfoldable pub decode_items : List ℕ → Result Error (List A)
  decode_items reader = decode_while vec_step (length reader) [] reader

  unfoldable pub vec_decode : List ℕ → Result Error (List A × List ℕ)
  vec_decode reader = decode_collection reader decode_items

  -- `MlsSize`, `MlsEncode` and `MlsDecode` for `Vec<T>`
  abbrev pub vec_codec : Codec (List A)
  vec_codec = record {
    encoded_len = collection_encoded_len c;
    encode = collection_encode c;
    decode = vec_decode;
  }
