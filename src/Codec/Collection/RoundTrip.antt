-- ===== src/Codec/Collection/RoundTrip.antt =====
-- mls-rs-codec/src/iter.rs and vec.rs: a vector is read back, and what the header guards.
use mls_rs_wasm_maybe_sync.Common.{
  ℕ, zero, suc, ◌≤◌, ◌<◌, ◌≡◌, refl, ap, ◌∙◌, List, [], ◌∷◌, ◌++◌, append-nil, append_assoc, length,
  length-append, take-append, drop-append, All, Result, ok, err, arith,
}
use mls_rs_wasm_maybe_sync.Codec.Traits.{Error, var_int_out_of_range, Codec, IsCodec}
use mls_rs_wasm_maybe_sync.Codec.Varint.{varint_max, varint_try_from}
use mls_rs_wasm_maybe_sync.Codec.Varint.RoundTrip.{
  varint_wire, varint_encode-wire, varint_encoded_len-wire, varint_decode-wire,
}
use mls_rs_wasm_maybe_sync.Codec.Collection.{
  sum_lens, encode_each, header_or_zero, collection_encoded_len, collection_encode,
  split_on_collection, decode_collection, decode_while, vec_step, decode_items, vec_decode,
  vec_codec,
}

pub varint_try_from_fits : (n : ℕ) → n ≤ varint_max → varint_try_from n ≡ ok n
unfolding varint_try_from
varint_try_from_fits n h = ground arith

pub varint_try_from_large : (n : ℕ) → varint_max < n → varint_try_from n ≡ err var_int_out_of_range
unfolding varint_try_from
varint_try_from_large n h = ground arith

pub header_or_zero_fits : (n : ℕ) → n ≤ varint_max → header_or_zero n ≡ n
header_or_zero_fits n h = rw (varint_try_from_fits n h, header_or_zero)

-- A header and the bytes that it announces come apart again.
pub split_on_collection-wire :
    (items rest : List ℕ)
    → length items ≤ varint_max
    → split_on_collection (varint_wire (length items) ++ (items ++ rest)) ≡ ok (items, rest)
unfolding split_on_collection
split_on_collection-wire items rest h =
    rw (varint_decode-wire (length items) (items ++ rest) h)
      (ground (arith, length-append items rest, take-append items rest, drop-append items rest))

abbrev pub items_wire {ℓ} : {A : Type ℓ} → (A → List ℕ) → List A → List ℕ
items_wire wire [] = []
items_wire wire (x ∷ xs) = wire x ++ items_wire wire xs

decode_while_step {ℓ} :
    {S : Type ℓ} (step : S → List ℕ → Result Error (S × List ℕ)) (fuel : ℕ) (s : S) (input : List ℕ)
    {s' : S} {rest : List ℕ}
    → 0 < length input
    → step s input ≡ ok (s', rest)
    → decode_while step (suc fuel) s input ≡ decode_while step fuel s' rest
unfolding decode_while
decode_while_step step fuel s [] h e = absurd (omega arith)
decode_while_step step fuel s (b ∷ bs) h e = rw e

module _ {ℓ κ} {A : Type ℓ} {Valid : A → Type κ} (c : Codec A) (k : IsCodec c Valid) where
  sum_lens-wire : (xs : List A) → All Valid xs → sum_lens c xs ≡ ok (length (items_wire k.wire xs))
  unfolding sum_lens
  sum_lens-wire [] h = refl
  sum_lens-wire (x ∷ xs) (hx, hxs) =
      rw (k.len_wire x hx, sum_lens-wire xs hxs, length-append (k.wire x) (items_wire k.wire xs))

  encode_each-wire :
      (xs : List A) (w : List ℕ)
      → All Valid xs
      → encode_each c xs w ≡ ok (w ++ items_wire k.wire xs)
  unfolding encode_each
  encode_each-wire [] w h = rw append-nil
  encode_each-wire (x ∷ xs) w (hx, hxs) =
      rw (k.encode_wire x w hx, encode_each-wire xs (w ++ k.wire x) hxs, append_assoc)

  module _ (nonempty : (a : A) → Valid a → 0 < length (k.wire a)) where
    vec_step-wire :
        (x : A) (acc : List A) (more : List ℕ)
        → Valid x
        → vec_step c acc (k.wire x ++ more) ≡ ok (acc ++ (x ∷ []), more)
    unfolding vec_step
    vec_step-wire x acc more hx = rw (k.decode_wire x more hx)

    -- The loop reads every item and stops at the end of its input.
    decode_items-wire :
        (xs : List A) (fuel : ℕ) (acc : List A)
        → All Valid xs
        → length (items_wire k.wire xs) ≤ fuel
        → decode_while (vec_step c) fuel acc (items_wire k.wire xs) ≡ ok (acc ++ xs)
    decode_items-wire [] fuel acc h hf = rw append-nil (unfold decode_while in refl)
    decode_items-wire (x ∷ xs) zero acc (hx, hxs) hf =
        absurd (omega (arith, nonempty x hx, length-append (k.wire x) (items_wire k.wire xs)))
    decode_items-wire (x ∷ xs) (suc fuel) acc (hx, hxs) hf =
        let total = length-append (k.wire x) (items_wire k.wire xs) in
        decode_while_step (vec_step c) fuel acc (k.wire x ++ items_wire k.wire xs)
          (omega (arith, nonempty x hx, total)) (vec_step-wire x acc (items_wire k.wire xs) hx)
        ∙ decode_items-wire xs fuel (acc ++ (x ∷ [])) hxs (omega (arith, nonempty x hx, total))
        ∙ ap ok (append_assoc acc (x ∷ []) xs)

    vec_len :
        (xs : List A)
        → All Valid xs
        → length (items_wire k.wire xs) ≤ varint_max
        → collection_encoded_len c xs
          ≡ ok (length (varint_wire (length (items_wire k.wire xs)) ++ items_wire k.wire xs))
    unfolding collection_encoded_len
    vec_len xs h fits = rw (
      sum_lens-wire xs h,
      header_or_zero_fits (length (items_wire k.wire xs)) fits,
      varint_encoded_len-wire (length (items_wire k.wire xs)) fits,
      length-append (varint_wire (length (items_wire k.wire xs))) (items_wire k.wire xs),
    )

    vec_encode :
        (xs : List A) (w : List ℕ)
        → All Valid xs
        → length (items_wire k.wire xs) ≤ varint_max
        → collection_encode c xs w
          ≡ ok (w ++ (varint_wire (length (items_wire k.wire xs)) ++ items_wire k.wire xs))
    unfolding collection_encode
    vec_encode xs w h fits = rw (
      sum_lens-wire xs h,
      varint_try_from_fits (length (items_wire k.wire xs)) fits,
      varint_encode-wire (length (items_wire k.wire xs)) w fits,
      encode_each-wire xs (w ++ varint_wire (length (items_wire k.wire xs))) h,
      append_assoc,
    )

    vec_back :
        (xs : List A) (rest : List ℕ)
        → All Valid xs
        → length (items_wire k.wire xs) ≤ varint_max
        → vec_decode c
            ((varint_wire (length (items_wire k.wire xs)) ++ items_wire k.wire xs) ++ rest)
          ≡ ok (xs, rest)
    unfolding vec_decode decode_collection decode_items
    vec_back xs rest h fits = rw (
      append_assoc,
      split_on_collection-wire (items_wire k.wire xs) rest fits,
      decode_items-wire xs (length (items_wire k.wire xs)) [] h (omega arith),
    )

    -- A vector is well behaved when its items are, take at least a byte each, and fit the header.
    pub vec_codec-IsCodec :
        IsCodec (vec_codec c) (λ xs. All Valid xs × (length (items_wire k.wire xs) ≤ varint_max))
    vec_codec-IsCodec = record {
      wire = λ xs. varint_wire (length (items_wire k.wire xs)) ++ items_wire k.wire xs;
      len_wire = λ xs h. vec_len xs h.0 h.1;
      encode_wire = λ xs w h. vec_encode xs w h.0 h.1;
      decode_wire = λ xs rest h. vec_back xs rest h.0 h.1;
    }
