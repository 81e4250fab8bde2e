-- ===== src/Codec/Collection/Bounds.antt =====
-- mls-rs-codec/src/iter.rs and vec.rs: decoding any bytes comes to an end.
use mls_rs_wasm_maybe_sync.Common.{
  ℕ, zero, suc, ◌≤◌, ◌<◌, ◌≡◌, ◌≢◌, refl, ap, subst, List, [], ◌∷◌, length, length-drop, take, drop,
  All, ltb, Bool-cases, Result, ok, err, fault, Fault, arith, inl, inr,
}
use mls_rs_wasm_maybe_sync.Codec.Traits.{Error, Codec, IsByte, TakesInput}
use mls_rs_wasm_maybe_sync.Codec.Varint.{varint_decode}
use mls_rs_wasm_maybe_sync.Codec.Varint.Canonical.{varint_decode-TakesInput}
use mls_rs_wasm_maybe_sync.Codec.Collection.{
  split_on_collection, decode_collection, decode_while, vec_step, decode_items, vec_decode,
}

-- What a call on bytes can come to.
pub data Outcome {ℓ} {A : Type ℓ} (r : Result Error A) : Type ℓ where
  gives : (a : A) → r ≡ ok a → Outcome r
  fails : (e : Error) → r ≡ err e → Outcome r

pub outcome {ℓ} : {A : Type ℓ} (r : Result Error A) → ((x : Fault) → r ≢ fault x) → Outcome r
outcome (ok a) h = gives a refl
outcome (err e) h = fails e refl
outcome (fault x) h = absurd (h x refl)

pub All-take : (n : ℕ) (xs : List ℕ) → All IsByte xs → All IsByte (take n xs)
All-take zero xs h = tt
All-take (suc n) [] h = tt
All-take (suc n) (x ∷ xs) (hx, hxs) = (hx, All-take n xs hxs)

pub All-drop : (n : ℕ) (xs : List ℕ) → All IsByte xs → All IsByte (drop n xs)
All-drop zero xs h = h
All-drop (suc n) [] h = tt
All-drop (suc n) (x ∷ xs) (hx, hxs) = All-drop n xs hxs

-- A step of the loop that takes at least one byte and always returns, in any state.
module _ {ℓ} {S : Type ℓ} (step : S → List ℕ → Result Error (S × List ℕ))
    (takes : (s : S) → TakesInput (step s)) where
  pub decode_while_returns :
      (fuel : ℕ) (s : S) (input : List ℕ) (x : Fault)
      → All IsByte input
      → length input ≤ fuel
      → decode_while step fuel s input ≢ fault x
  unfolding decode_while
  decode_while_returns fuel s [] x h hf = λ e. cc
  decode_while_returns zero s (b ∷ bs) x h hf = absurd (omega arith)
  decode_while_returns (suc fuel) s (b ∷ bs) x h hf =
      elim (outcome (step s (b ∷ bs)) (λ y. (takes s).returns (b ∷ bs) y h)) [
        | gives (s', rest) e ↦
            let (bytes, less) = (takes s).takes (b ∷ bs) s' rest h e in
            rw e (decode_while_returns fuel s' rest x bytes (omega arith))
        | fails y e ↦ rw e (λ q. cc)
      ]

split_on_collection_takes :
    (input items rest : List ℕ)
    → All IsByte input
    → split_on_collection input ≡ ok (items, rest)
    → All IsByte items × (All IsByte rest × (length rest < length input))
unfolding split_on_collection
split_on_collection_takes input items rest h e =
    elim (outcome (varint_decode input) (λ y. varint_decode-TakesInput.returns input y h)) [
      | gives (len, r) q ↦
          let (bytes, less) = varint_decode-TakesInput.takes input len r h q in
          elim (Bool-cases (ltb (length r) len)) [
            | inl short ↦ absurd (ground (arith))
            | inr long ↦
                let same : (take len r, drop len r) ≡ (items, rest) = ground arith in
                (
                  subst (All IsByte) (ap (λ (p : List ℕ × List ℕ). p.0) same)
                      (All-take len r bytes),
                  (
                    subst (All IsByte) (ap (λ (p : List ℕ × List ℕ). p.1) same)
                        (All-drop len r bytes),
                    omega (arith, length-drop len r, ap (λ (p : List ℕ × List ℕ). length p.1) same),
                  ),
                )
          ]
      | fails y q ↦ absurd (ground arith)
    ]

split_on_collection_returns :
    (input : List ℕ) (x : Fault) → All IsByte input → split_on_collection input ≢ fault x
unfolding split_on_collection
split_on_collection_returns input x h =
    elim (outcome (varint_decode input) (λ y. varint_decode-TakesInput.returns input y h)) [
      | gives (len, r) q ↦ rw q (ground arith)
      | fails y q ↦ rw q (λ e. cc)
    ]

-- A collection takes its header at least, whatever its items are.
module _ {ℓ} {T : Type ℓ} (item_decode : List ℕ → Result Error T)
    (total : (items : List ℕ) (x : Fault) → All IsByte items → item_decode items ≢ fault x) where
  collection_takes :
      (input : List ℕ) (a : T) (rest : List ℕ)
      → All IsByte input
      → decode_collection input item_decode ≡ ok (a, rest)
      → All IsByte rest × (length rest < length input)
  unfolding decode_collection
  collection_takes input a rest h e =
      elim (outcome (split_on_collection input) (λ y. split_on_collection_returns input y h)) [
        | gives (items, r) q ↦
            let (bytes, (rest_bytes, less)) = split_on_collection_takes input items r h q in
            elim (outcome (item_decode items) (λ y. total items y bytes)) [
              | gives b p ↦
                  let same : r ≡ rest = ground arith in
                  (subst (All IsByte) same rest_bytes, omega (arith, ap (length {A = ℕ}) same))
              | fails y p ↦ absurd (ground arith)
            ]
        | fails y q ↦ absurd (ground arith)
      ]

  collection_returns :
      (input : List ℕ) (x : Fault)
      → All IsByte input
      → decode_collection input item_decode ≢ fault x
  unfolding decode_collection
  collection_returns input x h =
      elim (outcome (split_on_collection input) (λ y. split_on_collection_returns input y h)) [
        | gives (items, r) q ↦
            elim (outcome (item_decode items)
              (λ y. total items y (split_on_collection_takes input items r h q).0)) [
                | gives b p ↦ rw (q, p) (λ e. cc)
                | fails y p ↦ rw (q, p) (λ e. cc)
              ]
        | fails y q ↦ rw q (λ e. cc)
      ]

  pub decode_collection-TakesInput : TakesInput (λ input. decode_collection input item_decode)
  decode_collection-TakesInput = record { takes = collection_takes; returns = collection_returns }

module _ {ℓ} {A : Type ℓ} (c : Codec A) (t : TakesInput c.decode) where
  vec_step-TakesInput : (items : List A) → TakesInput (vec_step c items)
  unfolding vec_step
  vec_step-TakesInput items = record {
    takes = λ input a rest h e. step_takes input a rest h e;
    returns = λ input x h. step_returns input x h;
  }
    where
      step_takes :
          (input : List ℕ) (a : List A) (rest : List ℕ)
          → All IsByte input
          → vec_step c items input ≡ ok (a, rest)
          → All IsByte rest × (length rest < length input)
      step_takes input a rest h e = elim (outcome (c.decode input) (λ y. t.returns input y h)) [
        | gives (b, r) q ↦
            let same : r ≡ rest = ground arith in
            subst (λ z. All IsByte z × (length z < length input)) same (t.takes input b r h q)
        | fails y q ↦ absurd (ground arith)
      ]

      step_returns :
          (input : List ℕ) (x : Fault) → All IsByte input → vec_step c items input ≢ fault x
      step_returns input x h = elim (outcome (c.decode input) (λ y. t.returns input y h)) [
        | gives (b, r) q ↦ rw q (λ e. cc)
        | fails y q ↦ rw q (λ e. cc)
      ]

  -- Decoding a vector from any bytes comes to an end, and a success takes its header at least.
  pub vec_decode-TakesInput : TakesInput (vec_decode c)
  unfolding vec_decode decode_items
  vec_decode-TakesInput = decode_collection-TakesInput (decode_items c) (λ items x h.
      decode_while_returns (vec_step c) vec_step-TakesInput (length items) [] items x h
        (omega arith))
