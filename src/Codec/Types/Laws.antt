-- ===== src/Codec/Types/Laws.antt =====
-- mls-rs-codec/src/array.rs, stdint.rs, option.rs, tuple.rs and byte_vec.rs keep the contract of
-- `IsCodec`.
use mls_rs_wasm_maybe_sync.Common.{
  ℕ, zero, suc, ◌+◌, ◌*◌, ◌/◌, ◌%◌, ◌^◌, ◌≤◌, ◌<◌, ◌≡◌, refl, sym, ap, subst, ◌∙◌, List, [], ◌∷◌,
  ◌++◌, append_assoc, length, length-append, take-append, drop-append, Option, none, some, ok,
  arith,
}
use mls_rs_wasm_maybe_sync.Codec.Traits.{Codec, IsCodec}
use mls_rs_wasm_maybe_sync.Codec.Varint.{varint_max}
use mls_rs_wasm_maybe_sync.Codec.Varint.RoundTrip.{
  varint_wire, varint_encode-wire, varint_encoded_len-wire,
}
use mls_rs_wasm_maybe_sync.Codec.Collection.RoundTrip.{
  varint_try_from_fits, header_or_zero_fits, split_on_collection-wire,
}
use mls_rs_wasm_maybe_sync.Codec.Types.{
  array_decode, array_codec, be_bytes, from_be_bytes, int_decode, int_codec, option_encoded_len,
  option_encode, option_decode, option_codec, pair_encoded_len, pair_encode, pair_decode,
  pair_codec, byte_vec_encoded_len, byte_vec_encode, byte_vec_decode, byte_vec_codec,
}
use native.Mathlib.Nat.{
  pow-suc, one-le-pow, div-add-mod, mod-lt, mod-eq_of_lt, add-mul-mod_self_left,
}

array_decode-wire :
    (bytes rest : List ℕ) → array_decode (length bytes) (bytes ++ rest) ≡ ok (bytes, rest)
unfolding array_decode
array_decode-wire bytes rest =
    ground (arith, length-append bytes rest, take-append bytes rest, drop-append bytes rest)

-- An array of `n` bytes is written as it is.
pub array_codec-IsCodec : (n : ℕ) → IsCodec (array_codec n) (λ a. length a ≡ n)
array_codec-IsCodec n = record {
  wire = λ a. a;
  len_wire = λ a h. ap ok (sym h);
  encode_wire = λ a w h. refl;
  decode_wire = λ a rest h.
      subst (λ m. array_decode m (a ++ rest) ≡ ok (a, rest)) h (array_decode-wire a rest);
}

pub length-be_bytes : (n x : ℕ) → length (be_bytes n x) ≡ n
unfolding be_bytes
length-be_bytes zero x = refl
length-be_bytes (suc n) x = ap suc (length-be_bytes n x)

mod_step : (x p : ℕ) → 0 < p → x % (p * 256) ≡ x / p % 256 * p + x % p
mod_step x p h =
    let q = x / p / 256 in
    let r = x / p % 256 * p + x % p in
    let whole : x ≡ r + p * 256 * q =
      omega (arith, div-add-mod x p, ap (λ (t : ℕ). p * t) (div-add-mod (x / p) 256)) in
    let small : r < p * 256 = grind (arith, mod-lt x h) in
    subst (λ z. z % (p * 256) ≡ r) (sym whole)
      (add-mul-mod_self_left r (p * 256) q ∙ mod-eq_of_lt small)

from_be_bytes-be_bytes :
    (n acc x : ℕ) → from_be_bytes acc (be_bytes n x) ≡ acc * 256 ^ n + x % 256 ^ n
unfolding be_bytes from_be_bytes
from_be_bytes-be_bytes zero acc x = omega arith
from_be_bytes-be_bytes (suc n) acc x =
    from_be_bytes-be_bytes n (acc * 256 + x / 256 ^ n % 256) x
    ∙ omega (
      arith,
      mod_step x (256 ^ n) (one-le-pow n 256 (omega arith)),
      ap (λ (t : ℕ). x % t) (pow-suc 256 n),
      ap (λ (t : ℕ). acc * t) (pow-suc 256 n),
    )

pub int_decode-wire :
    (n x : ℕ) (rest : List ℕ) → x < 256 ^ n → int_decode n (be_bytes n x ++ rest) ≡ ok (x, rest)
unfolding int_decode
int_decode-wire n x rest h =
    let read : array_decode n (be_bytes n x ++ rest) ≡ ok (be_bytes n x, rest) =
      subst (λ m. array_decode m (be_bytes n x ++ rest) ≡ ok (be_bytes n x, rest))
        (length-be_bytes n x) (array_decode-wire (be_bytes n x) rest) in
    rw (read, from_be_bytes-be_bytes n 0 x, mod-eq_of_lt h) (ground arith)

-- An unsigned integer of `n` bytes is written in `n` bytes, the highest first.
unfoldable pub int_codec-IsCodec : (n : ℕ) → IsCodec (int_codec n) (λ x. x < 256 ^ n)
int_codec-IsCodec n = record {
  wire = be_bytes n;
  len_wire = λ x h. ap ok (sym (length-be_bytes n x));
  encode_wire = λ x w h. refl;
  decode_wire = int_decode-wire n;
}

-- The values of an `Option` that are valid: no value, or a valid one.
abbrev pub OnSome {ℓ κ} : {A : Type ℓ} → (A → Type κ) → Option A → Type κ
OnSome P none = Unit
OnSome P (some a) = P a

module _ {ℓ κ} {A : Type ℓ} {Valid : A → Type κ} (c : Codec A) (k : IsCodec c Valid) where
  option_wire : Option A → List ℕ
  option_wire none = 0 ∷ []
  option_wire (some a) = 1 ∷ k.wire a

  option_len :
      (o : Option A) → OnSome Valid o → option_encoded_len c o ≡ ok (length (option_wire o))
  unfolding option_encoded_len option_wire
  option_len none h = refl
  option_len (some a) h = rw (k.len_wire a h) (ap ok (omega arith))

  option_write :
      (o : Option A) (w : List ℕ) → OnSome Valid o → option_encode c o w ≡ ok (w ++ option_wire o)
  unfolding option_encode option_wire
  option_write none w h = refl
  option_write (some a) w h = rw (k.encode_wire a (w ++ (1 ∷ [])) h, append_assoc)

  option_back :
      (o : Option A) (rest : List ℕ)
      → OnSome Valid o
      → option_decode c (option_wire o ++ rest) ≡ ok (o, rest)
  unfolding option_decode option_wire
  option_back none rest h = refl
  option_back (some a) rest h = rw (k.decode_wire a rest h)

  pub option_codec-IsCodec : IsCodec (option_codec c) (OnSome Valid)
  unfolding option_wire
  option_codec-IsCodec = record {
    wire = option_wire;
    len_wire = option_len;
    encode_wire = option_write;
    decode_wire = option_back;
  }

module _ {ℓ κ μ ν} {A : Type ℓ} {B : Type κ} {P : A → Type μ} {Q : B → Type ν} (c : Codec A)
    (d : Codec B) (k : IsCodec c P) (l : IsCodec d Q) where
  pair_len :
      (a : A) (b : B) → P a → Q b → pair_encoded_len c d (a, b) ≡ ok (length (k.wire a ++ l.wire b))
  unfolding pair_encoded_len
  pair_len a b p q = rw (k.len_wire a p, l.len_wire b q, length-append (k.wire a) (l.wire b))

  pair_write :
      (a : A) (b : B) (w : List ℕ)
      → P a
      → Q b
      → pair_encode c d (a, b) w ≡ ok (w ++ (k.wire a ++ l.wire b))
  unfolding pair_encode
  pair_write a b w p q = rw (k.encode_wire a w p, l.encode_wire b (w ++ k.wire a) q, append_assoc)

  pair_back :
      (a : A) (b : B) (rest : List ℕ)
      → P a
      → Q b
      → pair_decode c d ((k.wire a ++ l.wire b) ++ rest) ≡ ok ((a, b), rest)
  unfolding pair_decode
  pair_back a b rest p q =
      rw (append_assoc, k.decode_wire a (l.wire b ++ rest) p, l.decode_wire b rest q)

  pub pair_codec-IsCodec : IsCodec (pair_codec c d) (λ x. P x.0 × Q x.1)
  pair_codec-IsCodec = record {
    wire = λ x. k.wire x.0 ++ l.wire x.1;
    len_wire = λ x h. pair_len x.0 x.1 h.0 h.1;
    encode_wire = λ x w h. pair_write x.0 x.1 w h.0 h.1;
    decode_wire = λ x rest h. pair_back x.0 x.1 rest h.0 h.1;
  }

byte_vec_len :
    (bytes : List ℕ)
    → length bytes ≤ varint_max
    → byte_vec_encoded_len bytes ≡ ok (length (varint_wire (length bytes) ++ bytes))
unfolding byte_vec_encoded_len
byte_vec_len bytes h = rw (
  header_or_zero_fits (length bytes) h,
  varint_encoded_len-wire (length bytes) h,
  length-append (varint_wire (length bytes)) bytes,
)

byte_vec_write :
    (bytes w : List ℕ)
    → length bytes ≤ varint_max
    → byte_vec_encode bytes w ≡ ok (w ++ (varint_wire (length bytes) ++ bytes))
unfolding byte_vec_encode
byte_vec_write bytes w h =
    rw (varint_try_from_fits (length bytes) h, varint_encode-wire (length bytes) w h, append_assoc)

byte_vec_back :
    (bytes rest : List ℕ)
    → length bytes ≤ varint_max
    → byte_vec_decode ((varint_wire (length bytes) ++ bytes) ++ rest) ≡ ok (bytes, rest)
unfolding byte_vec_decode
byte_vec_back bytes rest h = rw (append_assoc, split_on_collection-wire bytes rest h)

-- A byte string that fits the header is read back.
pub byte_vec_codec-IsCodec : IsCodec byte_vec_codec (λ bytes. length bytes ≤ varint_max)
byte_vec_codec-IsCodec = record {
  wire = λ bytes. varint_wire (length bytes) ++ bytes;
  len_wire = λ bytes h. byte_vec_len bytes h;
  encode_wire = λ bytes w h. byte_vec_write bytes w h;
  decode_wire = λ bytes rest h. byte_vec_back bytes rest h;
}
