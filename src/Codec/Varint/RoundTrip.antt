-- ===== src/Codec/Varint/RoundTrip.antt =====
-- mls-rs-codec/src/varint.rs: sizes, and decoding after encoding.
use mls_rs_wasm_maybe_sync.Common.{
  ℕ, zero, suc, ◌+◌, ◌-◌, ◌*◌, ◌/◌, ◌%◌, ◌^◌, ◌≤◌, ◌<◌, ◌≡◌, refl, bit_and, bit_or, List, [], ◌∷◌,
  ◌++◌, length, ltb, ltb→lt, lt→ltb, if◌then◌else◌, Bool-cases, ok, fault, panicked, ◌>>=◌, arith,
  inl, inr,
}
use mls_rs_wasm_maybe_sync.Common.Bits.{bit_or_fields, bit_and_mask, bit_or_split, bit_or-zero}
use mls_rs_wasm_maybe_sync.Codec.Varint.{
  varint_max, leading_zeros, one, two, four, encoding_of_bits, count_bytes_to_encode_int,
  varint_encoded_len, varint_encode, u8_decode, fold_bytes, check_minimal, varint_decode_rest,
  varint_decode,
}
use native.Mathlib.Nat.{pow-le-pow_right, one-le-pow}

-- `w - leading_zeros` counts the digits: it is at most `k` exactly for the numbers below 2 ^ k.
leading_zeros-le : (w n : ℕ) → leading_zeros w n ≤ w
unfolding leading_zeros
leading_zeros-le zero n = omega arith
leading_zeros-le (suc w) n = ground (arith, leading_zeros-le w n)

lt_of_used_bits : (w k n : ℕ) → n < 2 ^ w → w - leading_zeros w n ≤ k → n < 2 ^ k
unfolding leading_zeros
lt_of_used_bits zero k n h le = omega (arith, one-le-pow k 2)
lt_of_used_bits (suc w) k n h le = elim (Bool-cases (ltb n (2 ^ w))) [
  | inl small ↦ lt_of_used_bits w k n (ltb→lt _ _ small) (ground (arith, leading_zeros-le w n))
  | inr large ↦
      omega (arith, pow-le-pow_right {n = 2} (omega arith) {i = suc w} {j = k} (ground arith))
]

used_bits_of_lt : (w k n : ℕ) → n < 2 ^ w → n < 2 ^ k → w - leading_zeros w n ≤ k
unfolding leading_zeros
used_bits_of_lt zero k n h lt = omega arith
used_bits_of_lt (suc w) k n h lt = elim (Bool-cases (ltb n (2 ^ w))) [
  | inl small ↦ ground (arith, leading_zeros-le w n, used_bits_of_lt w k n (ltb→lt _ _ small) lt)
  | inr large ↦ elim (Bool-cases (ltb w k)) [
    | inl more ↦ ground arith
    | inr less ↦
        absurd
          (ground (arith, pow-le-pow_right {n = 2} (omega arith) {i = k} {j = w} (ground arith)))
  ]
]

pub data Size (n : ℕ) : Type 0 where
  size_one : n < 64 → count_bytes_to_encode_int n ≡ ok one → Size n
  size_two : 64 ≤ n → n < 2 ^ 14 → count_bytes_to_encode_int n ≡ ok two → Size n
  size_four : 2 ^ 14 ≤ n → n < 2 ^ 30 → count_bytes_to_encode_int n ≡ ok four → Size n
  too_large : 2 ^ 30 ≤ n → count_bytes_to_encode_int n ≡ fault panicked → Size n

-- The four length classes of a u32.
pub Size-cases : (n : ℕ) → n < 2 ^ 32 → Size n
unfolding count_bytes_to_encode_int encoding_of_bits
Size-cases n h = elim (Bool-cases (ltb n (2 ^ 6))) [
  | inl a ↦ size_one (ground arith) (ground (arith, used_bits_of_lt 32 6 n))
  | inr a ↦ elim (Bool-cases (ltb n (2 ^ 14))) [
    | inl b ↦
        size_two (ground arith) (ground arith)
          (ground (arith, used_bits_of_lt 32 14 n, lt_of_used_bits 32 6 n))
    | inr b ↦ elim (Bool-cases (ltb n (2 ^ 30))) [
      | inl c ↦
          size_four (ground arith) (ground arith) (
            ground
              (arith, used_bits_of_lt 32 30 n, lt_of_used_bits 32 14 n, lt_of_used_bits 32 6 n))
      | inr c ↦
          too_large (ground arith) (
            ground
              (arith, lt_of_used_bits 32 30 n, lt_of_used_bits 32 14 n, lt_of_used_bits 32 6 n))
    ]
  ]
]

-- RFC 9000 section 16 in plain arithmetic: the two top bits of the first byte tell the length.
unfoldable pub varint_wire : ℕ → List ℕ
varint_wire n =
    if ltb n 64
    then n ∷ []
    else if ltb n (2 ^ 14)
    then (64 + n / 256) ∷ n % 256 ∷ []
    else (128 + n / 2 ^ 24) ∷ n / 2 ^ 16 % 256 ∷ n / 2 ^ 8 % 256 ∷ n % 256 ∷ []

mark_two : (a : ℕ) → a < 64 → bit_or a 0x40 ≡ 64 + a
mark_two a h = ground (arith, bit_or_split 6 0 1 a 0, bit_or-zero a)

mark_four : (a : ℕ) → a < 128 → bit_or a 0x80 ≡ 128 + a
mark_four a h = ground (arith, bit_or_split 7 0 1 a 0, bit_or-zero a)

pub varint_encode-wire :
    (n : ℕ) (w : List ℕ) → n ≤ varint_max → varint_encode n w ≡ ok (w ++ varint_wire n)
unfolding varint_encode varint_wire
varint_encode-wire n w h = elim (Size-cases n (omega arith)) [
  | size_one a e ↦ rw e (ground arith)
  | size_two a b e ↦ rw e (ground (arith, mark_two (n / 2 ^ 8 % 256)))
  | size_four a b e ↦ rw e (ground (arith, mark_four (n / 2 ^ 24 % 256)))
  | too_large a e ↦ absurd (omega arith)
]

pub varint_encoded_len-wire :
    (n : ℕ) → n ≤ varint_max → varint_encoded_len n ≡ ok (length (varint_wire n))
unfolding varint_encoded_len varint_wire
varint_encoded_len-wire n h = elim (Size-cases n (omega arith)) [
  | size_one a e ↦ rw e (ground arith)
  | size_two a b e ↦ rw e (ground arith)
  | size_four a b e ↦ rw e (ground arith)
  | too_large a e ↦ absurd (omega arith)
]

low_six : (b : ℕ) → bit_and b 0x3f ≡ b % 64
low_six b = bit_and_mask 6 b

-- `n << 8 | b` is a sum.
push_byte : (n b : ℕ) → n < 2 ^ 22 → b < 256 → bit_or (n * 2 ^ 8 % 2 ^ 32) b ≡ n * 256 + b
push_byte n b hn hb = ground (arith, bit_or_fields 8 n b)

pub data Prefix (b : ℕ) : Type 0 where
  prefix_one : b < 64 → Prefix b
  prefix_two : 64 ≤ b → b < 128 → Prefix b
  prefix_four : 128 ≤ b → b < 192 → Prefix b
  prefix_bad : 192 ≤ b → Prefix b

pub prefix_cases : (b : ℕ) → Prefix b
prefix_cases b = elim (Bool-cases (ltb b 64)) [
  | inl x ↦ prefix_one (ground arith)
  | inr x ↦ elim (Bool-cases (ltb b 128)) [
    | inl y ↦ prefix_two (ground arith) (ground arith)
    | inr y ↦ elim (Bool-cases (ltb b 192)) [
      | inl z ↦ prefix_four (ground arith) (ground arith)
      | inr z ↦ prefix_bad (ground arith)
    ]
  ]
]

-- The first byte decides how many bytes follow.
pub rest_of_prefix :
    (b p : ℕ) (reader : List ℕ)
    → b / 2 ^ 6 ≡ p
    → p < 3
    → varint_decode_rest b reader
      ≡ (fold_bytes (2 ^ p - 1) (b % 64) reader >>= check_minimal (2 ^ p))
unfolding varint_decode_rest
rest_of_prefix b p reader e h = rw (e, low_six b, lt→ltb _ _ h)

check_minimal_one : (n : ℕ) (rest : List ℕ) → n < 64 → check_minimal 1 (n, rest) ≡ ok (n, rest)
unfolding check_minimal
check_minimal_one n rest h = elim (Size-cases n (omega arith)) [
  | size_one a e ↦ rw e
  | size_two a b e ↦ absurd (omega arith)
  | size_four a b e ↦ absurd (omega arith)
  | too_large a e ↦ absurd (omega arith)
]

check_minimal_two :
    (n : ℕ) (rest : List ℕ) → 64 ≤ n → n < 2 ^ 14 → check_minimal 2 (n, rest) ≡ ok (n, rest)
unfolding check_minimal
check_minimal_two n rest h k = elim (Size-cases n (omega arith)) [
  | size_one a e ↦ absurd (omega arith)
  | size_two a b e ↦ rw e
  | size_four a b e ↦ absurd (omega arith)
  | too_large a e ↦ absurd (omega arith)
]

check_minimal_four :
    (n : ℕ) (rest : List ℕ) → 2 ^ 14 ≤ n → n < 2 ^ 30 → check_minimal 4 (n, rest) ≡ ok (n, rest)
unfolding check_minimal
check_minimal_four n rest h k = elim (Size-cases n (omega arith)) [
  | size_one a e ↦ absurd (omega arith)
  | size_two a b e ↦ absurd (omega arith)
  | size_four a b e ↦ rw e
  | too_large a e ↦ absurd (omega arith)
]

pub fold_three :
    (n a b c : ℕ) (rest : List ℕ)
    → n < 64
    → a < 256
    → b < 256
    → c < 256
    → fold_bytes 3 n (a ∷ b ∷ c ∷ rest) ≡ ok (((n * 256 + a) * 256 + b) * 256 + c, rest)
unfolding fold_bytes u8_decode
fold_three n a b c rest hn ha hb hc = rw (
  push_byte n a (omega arith) ha,
  push_byte (n * 256 + a) b (omega arith) hb,
  push_byte ((n * 256 + a) * 256 + b) c (omega arith) hc,
)

pub fold_one :
    (n a : ℕ) (rest : List ℕ)
    → n < 64
    → a < 256
    → fold_bytes 1 n (a ∷ rest) ≡ ok (n * 256 + a, rest)
unfolding fold_bytes u8_decode
fold_one n a rest hn ha = rw (push_byte n a (omega arith) ha)

-- Every VarInt is read back, and what follows it stays in the reader.
pub varint_decode-wire :
    (n : ℕ) (rest : List ℕ) → n ≤ varint_max → varint_decode (varint_wire n ++ rest) ≡ ok (n, rest)
unfolding varint_decode varint_wire
varint_decode-wire n rest h = elim (Size-cases n (omega arith)) [
  | size_one a e ↦
      ground (arith, rest_of_prefix n 0 rest, fold_zero (n % 64) rest, check_minimal_one n rest)
  | size_two a b e ↦ ground (
    arith,
    rest_of_prefix (64 + n / 256) 1 (n % 256 ∷ rest),
    fold_one (n / 256) (n % 256) rest,
    check_minimal_two n rest,
  )
  | size_four a b e ↦ ground (
    arith,
    rest_of_prefix (128 + n / 2 ^ 24) 2 (n / 2 ^ 16 % 256 ∷ n / 2 ^ 8 % 256 ∷ n % 256 ∷ rest),
    fold_three (n / 2 ^ 24) (n / 2 ^ 16 % 256) (n / 2 ^ 8 % 256) (n % 256) rest,
    check_minimal_four n rest,
  )
  | too_large a e ↦ absurd (omega arith)
]
  where
    fold_zero : (m : ℕ) (r : List ℕ) → fold_bytes 0 m r ≡ ok (m, r)
    fold_zero m r = refl
