-- ===== src/Codec/Varint/Canonical.antt =====
-- mls-rs-codec/src/varint.rs: what the decoder accepts, and that it always returns.
use mls_rs_wasm_maybe_sync.Common.{
  ℕ, ◌+◌, ◌*◌, ◌/◌, ◌%◌, ◌^◌, ◌≤◌, ◌<◌, ◌≡◌, ◌≢◌, refl, ap, subst, List, [], ◌∷◌, ◌++◌, length,
  length-append, All, ◌==◌, Bool-cases, ok, err, fault, Fault, arith, inl, inr,
}
use mls_rs_wasm_maybe_sync.Codec.Traits.{
  Error, IsByte, TakesInput, unexpected_eof, var_int_minimum_length_encoding,
  invalid_var_int_prefix,
}
use mls_rs_wasm_maybe_sync.Codec.Varint.{
  varint_max, check_minimal, varint_decode_rest, varint_decode,
}
use mls_rs_wasm_maybe_sync.Codec.Varint.RoundTrip.{
  size_one, size_two, size_four, too_large, Size-cases, varint_wire, prefix_cases, prefix_one,
  prefix_two, prefix_four, prefix_bad, rest_of_prefix, fold_one, fold_three,
}

-- A result of the check: the number has the size that its prefix told.
data Minimal (count n : ℕ) (rest : List ℕ) : Type 0 where
  minimal_one :
      n < 64 → count ≡ 1 → check_minimal count (n, rest) ≡ ok (n, rest) → Minimal count n rest
  minimal_two :
      64 ≤ n
      → n < 2 ^ 14
      → count ≡ 2
      → check_minimal count (n, rest) ≡ ok (n, rest)
      → Minimal count n rest
  minimal_four :
      2 ^ 14 ≤ n
      → n < 2 ^ 30
      → count ≡ 4
      → check_minimal count (n, rest) ≡ ok (n, rest)
      → Minimal count n rest
  padded : (e : Error) → check_minimal count (n, rest) ≡ err e → Minimal count n rest

Minimal-cases : (count n : ℕ) (rest : List ℕ) → n < 2 ^ 30 → Minimal count n rest
unfolding check_minimal
Minimal-cases count n rest h = elim (Size-cases n (omega arith)) [
  | size_one a e ↦ elim (Bool-cases (1 == count)) [
    | inl q ↦ minimal_one a (ground arith) (rw (e, q))
    | inr q ↦ padded var_int_minimum_length_encoding (rw (e, q))
  ]
  | size_two a b e ↦ elim (Bool-cases (2 == count)) [
    | inl q ↦ minimal_two a b (ground arith) (rw (e, q))
    | inr q ↦ padded var_int_minimum_length_encoding (rw (e, q))
  ]
  | size_four a b e ↦ elim (Bool-cases (4 == count)) [
    | inl q ↦ minimal_four a b (ground arith) (rw (e, q))
    | inr q ↦ padded var_int_minimum_length_encoding (rw (e, q))
  ]
  | too_large a e ↦ absurd (omega arith)
]

-- The three ways in which a decoding of bytes ends.
data Decoded (input : List ℕ) : Type 0 where
  decoded :
      (n : ℕ) (rest : List ℕ)
      → n ≤ varint_max
      → input ≡ varint_wire n ++ rest
      → All IsByte rest
      → varint_decode input ≡ ok (n, rest)
      → Decoded input
  refused : (e : Error) → varint_decode input ≡ err e → Decoded input

decode_two : (b : ℕ) (r : List ℕ) → 64 ≤ b → b < 128 → All IsByte r → Decoded (b ∷ r)
unfolding varint_decode varint_wire
decode_two b [] lo hi h = refused unexpected_eof (ground (arith, rest_of_prefix b 1 []))
decode_two b (a ∷ r) lo hi (ha, hr) = elim (Minimal-cases 2 (b % 64 * 256 + a) r (omega arith)) [
  | minimal_one x q e ↦ absurd (omega arith)
  | minimal_two x y q e ↦
      decoded (b % 64 * 256 + a) r (omega arith) (ground arith) hr
        (ground (arith, rest_of_prefix b 1 (a ∷ r), fold_one (b % 64) a r))
  | minimal_four x y q e ↦ absurd (omega arith)
  | padded x e ↦ refused x (ground (arith, rest_of_prefix b 1 (a ∷ r), fold_one (b % 64) a r))
]

varint_decode_cons : (b : ℕ) (r : List ℕ) → varint_decode (b ∷ r) ≡ varint_decode_rest b r
unfolding varint_decode
varint_decode_cons b r = refl

decode_four-All :
    (b c d e : ℕ) (r : List ℕ)
    → 128 ≤ b
    → b < 192
    → c < 256
    → d < 256
    → e < 256
    → All IsByte r
    → Decoded (b ∷ c ∷ d ∷ e ∷ r)
unfolding varint_wire
decode_four-All b c d e r lo hi hc hd he hr =
    let m = ((b % 64 * 256 + c) * 256 + d) * 256 + e in
    let step = rest_of_prefix b 2 (c ∷ d ∷ e ∷ r) (omega arith) (omega arith) in
    let read = fold_three (b % 64) c d e r (omega arith) hc hd he in
    elim (Minimal-cases 4 m r (omega arith)) [
      | minimal_one x q p ↦ absurd (omega arith)
      | minimal_two x y q p ↦ absurd (omega arith)
      | minimal_four x y q p ↦
          decoded m r (omega arith) (ground arith) hr (rw (varint_decode_cons, step, read, p))
      | padded x p ↦ refused x (rw (varint_decode_cons, step, read, p))
    ]

decode_four : (b : ℕ) (r : List ℕ) → 128 ≤ b → b < 192 → All IsByte r → Decoded (b ∷ r)
unfolding varint_decode
decode_four b [] lo hi h = refused unexpected_eof (ground (arith, rest_of_prefix b 2 []))
decode_four b (c ∷ []) lo hi h =
    refused unexpected_eof (ground (arith, rest_of_prefix b 2 (c ∷ [])))
decode_four b (c ∷ d ∷ []) lo hi h =
    refused unexpected_eof (ground (arith, rest_of_prefix b 2 (c ∷ d ∷ [])))
decode_four b (c ∷ d ∷ e ∷ r) lo hi (hc, (hd, (he, hr))) =
    decode_four-All b c d e r lo hi hc hd he hr

decode_cases : (input : List ℕ) → All IsByte input → Decoded input
unfolding varint_decode varint_wire
decode_cases [] h = refused unexpected_eof refl
decode_cases (b ∷ r) (hb, hr) = elim (prefix_cases b) [
  | prefix_one x ↦ elim (Minimal-cases 1 (b % 64) r (omega arith)) [
    | minimal_one y q e ↦
        decoded b r (omega arith) (ground arith) hr (ground (arith, rest_of_prefix b 0 r))
    | minimal_two y z q e ↦ absurd (omega arith)
    | minimal_four y z q e ↦ absurd (omega arith)
    | padded e q ↦ refused e (ground (arith, rest_of_prefix b 0 r))
  ]
  | prefix_two x y ↦ decode_two b r x y hr
  | prefix_four x y ↦ decode_four b r x y hr
  | prefix_bad x ↦ refused (invalid_var_int_prefix (b / 2 ^ 6)) (ground arith)
]

-- A decoding of bytes that succeeds returns a number up to VarInt::MAX, and the input is the shortest
-- encoding of that number followed by the rest.
pub varint_decode_canonical :
    (input : List ℕ) (n : ℕ) (rest : List ℕ)
    → All IsByte input
    → varint_decode input ≡ ok (n, rest)
    → (n ≤ varint_max) × (input ≡ varint_wire n ++ rest)
varint_decode_canonical input n rest h e = elim (decode_cases input h) [
  | decoded m r le split bytes q ↦ ground arith
  | refused x q ↦ cc
]

varint_wire_nonempty : (n : ℕ) → 0 < length (varint_wire n)
unfolding varint_wire
varint_wire_nonempty n = ground arith

varint_decode_takes :
    (input : List ℕ) (n : ℕ) (rest : List ℕ)
    → All IsByte input
    → varint_decode input ≡ ok (n, rest)
    → All IsByte rest × (length rest < length input)
varint_decode_takes input n rest h e = elim (decode_cases input h) [
  | decoded m r le split bytes q ↦
      let same : r ≡ rest = ground arith in
      (
        subst (All IsByte) same bytes,
        omega (
          arith,
          ap length split,
          ap (length {A = ℕ}) same,
          length-append (varint_wire m) r,
          varint_wire_nonempty m,
        ),
      )
  | refused x q ↦ absurd (ground arith)
]

varint_decode_returns :
    (input : List ℕ) (x : Fault) → All IsByte input → varint_decode input ≢ fault x
varint_decode_returns input x h e = elim (decode_cases input h) [
  | decoded m r le split bytes q ↦ cc
  | refused y q ↦ cc
]

-- On bytes the decoder always returns, and a success takes at least one byte.
pub varint_decode-TakesInput : TakesInput varint_decode
varint_decode-TakesInput = record { takes = varint_decode_takes; returns = varint_decode_returns }
