-- ===== src/SecretTree/Ratchet/Chain.antt =====
-- mls-rs/src/group/secret_tree.rs: the keys of a ratchet by generation, and that a ratchet keeps to
-- them.
use mls_rs_wasm_maybe_sync.Common.{
  ℕ, zero, suc, ◌+◌, ◌%◌, ◌^◌, ◌<◌, ◌≡◌, ◌≢◌, refl, ap, ◌∙◌, List, ◌==◌, ==_iff, Bool-cases, none,
  some, Result, ok, err, fault, Fault, gives, fails, breaks, Result-cases, ◌>>=◌, arith, inl, inr,
}
use mls_rs_wasm_maybe_sync.Codec.Types.{be_bytes}
use mls_rs_wasm_maybe_sync.MlsError.{MlsError}
use mls_rs_wasm_maybe_sync.SecretTree.Derive.{
  CipherSuite, nonce_label, key_label, secret_label, kdf_expand_with_label, map_crypto_err,
}
use mls_rs_wasm_maybe_sync.SecretTree.Ratchet.{
  MessageKeyData, SecretKeyRatchet, update, derive_secret, next_message_key,
}

-- RFC 9420 section 9.1: `DeriveTreeSecret(secret, label, generation, length)`.
derive : CipherSuite → List ℕ → List ℕ → ℕ → ℕ → Result MlsError (List ℕ)
derive cs secret label generation len =
    map_crypto_err (kdf_expand_with_label cs secret label (be_bytes 4 generation) (some len))

-- The ratchet secret and the message key of each generation, from the first secret.
pub chain_secret : CipherSuite → List ℕ → ℕ → Result MlsError (List ℕ)
chain_secret cs s0 zero = ok s0
chain_secret cs s0 (suc n) = do
  s ← chain_secret cs s0 n
  derive cs s secret_label n cs.kdf_extract_size

pub chain_key : CipherSuite → List ℕ → ℕ → Result MlsError MessageKeyData
chain_key cs s0 n = do
  s ← chain_secret cs s0 n
  nonce ← derive cs s nonce_label n cs.aead_nonce_size
  key ← derive cs s key_label n cs.aead_key_size
  ok (record { nonce = nonce; key = key; generation = n })

-- The ratchet stands at its generation of the chain, and the history holds keys of earlier
-- generations, each its own.
pub record IsRatchet (cs : CipherSuite) (s0 : List ℕ) (r : SecretKeyRatchet) : Type 0 where
  pub at_chain : chain_secret cs s0 r.generation ≡ ok r.secret
  pub kept :
      (j : ℕ) (mk : MessageKeyData)
      → r.history j ≡ some mk
      → (j < r.generation) × (chain_key cs s0 j ≡ ok mk)

pub start-IsRatchet :
    (cs : CipherSuite) (s : List ℕ)
    → IsRatchet cs s (record { secret = s; generation = 0; history = λ _. none })
unfolding chain_secret
start-IsRatchet cs s = record { at_chain = refl; kept = λ j mk e. absurd (ground arith) }

-- The ways in which `next_message_key` ends; without a key it changes nothing.
data Next (cs : CipherSuite) (r : SecretKeyRatchet) : Type 0 where
  next_key :
      (mk : MessageKeyData) (s : List ℕ)
      → mk.generation ≡ r.generation
      → derive cs r.secret nonce_label r.generation cs.aead_nonce_size ≡ ok mk.nonce
      → derive cs r.secret key_label r.generation cs.aead_key_size ≡ ok mk.key
      → derive cs r.secret secret_label r.generation cs.kdf_extract_size ≡ ok s
      → next_message_key cs r
        ≡ (ok mk, record r { secret = s; generation = (r.generation + 1) % 2 ^ 32 })
      → Next cs r
  next_error : (e : MlsError) → next_message_key cs r ≡ (err e, r) → Next cs r
  next_fault : (x : Fault) → next_message_key cs r ≡ (fault x, r) → Next cs r

Next-cases : (cs : CipherSuite) (r : SecretKeyRatchet) → Next cs r
unfolding next_message_key derive_secret derive
Next-cases cs r =
    elim (Result-cases (derive cs r.secret nonce_label r.generation cs.aead_nonce_size)) [
      | fails e p ↦ next_error e (rw (p, derive_secret))
      | breaks x p ↦ next_fault x (rw p)
      | gives nonce p ↦
          elim (Result-cases (derive cs r.secret key_label r.generation cs.aead_key_size)) [
            | fails e q ↦ next_error e (rw (p, q))
            | breaks x q ↦ next_fault x (rw (p, q))
            | gives key q ↦
                elim (Result-cases
                  (derive cs r.secret secret_label r.generation cs.kdf_extract_size)) [
                    | fails e t ↦ next_error e (rw (p, q, t))
                    | breaks x t ↦ next_fault x (rw (p, q, t))
                    | gives s t ↦
                        next_key (record { nonce = nonce; key = key; generation = r.generation }) s
                          refl p q t (rw (p, q, t))
                  ]
          ]
    ]

-- A step of a ratchet that keeps to its chain.
pub data Advance (cs : CipherSuite) (s0 : List ℕ) (r : SecretKeyRatchet) : Type 0 where
  advanced :
      (mk : MessageKeyData) (r' : SecretKeyRatchet)
      → chain_key cs s0 r.generation ≡ ok mk
      → mk.generation ≡ r.generation
      → IsRatchet cs s0 r'
      → r'.generation ≡ r.generation + 1
      → r'.history ≡ r.history
      → next_message_key cs r ≡ (ok mk, r')
      → Advance cs s0 r
  stopped :
      (x : Result MlsError MessageKeyData)
      → ((mk : MessageKeyData) → x ≢ ok mk)
      → next_message_key cs r ≡ (x, r)
      → Advance cs s0 r

module _ (cs : CipherSuite) (s0 : List ℕ) where
  chain_secret_step :
      (n m : ℕ) (s s' : List ℕ)
      → m ≡ suc n
      → chain_secret cs s0 n ≡ ok s
      → derive cs s secret_label n cs.kdf_extract_size ≡ ok s'
      → chain_secret cs s0 m ≡ ok s'
  chain_secret_step n m s s' e p q =
      ap (chain_secret cs s0) e ∙ unfold chain_secret in rw (p, chain_secret) q

  chain_key_of :
      (n : ℕ) (s : List ℕ) (mk : MessageKeyData)
      → mk.generation ≡ n
      → chain_secret cs s0 n ≡ ok s
      → derive cs s nonce_label n cs.aead_nonce_size ≡ ok mk.nonce
      → derive cs s key_label n cs.aead_key_size ≡ ok mk.key
      → chain_key cs s0 n ≡ ok mk
  unfolding chain_key
  chain_key_of n s mk e p q t = rw (p, q, t) (ground arith)

  pub advance :
      (r : SecretKeyRatchet) → IsRatchet cs s0 r → r.generation + 1 < 2 ^ 32 → Advance cs s0 r
  advance r inv small = elim (Next-cases cs r) [
    | next_error e p ↦ stopped (err e) (λ mk q. cc) p
    | next_fault x p ↦ stopped (fault x) (λ mk q. cc) p
    | next_key mk s g p q t step ↦
        let up : (r.generation + 1) % 2 ^ 32 ≡ suc r.generation = omega arith in
        advanced mk (record r { secret = s; generation = (r.generation + 1) % 2 ^ 32 })
          (chain_key_of r.generation r.secret mk g inv.at_chain p q) g
          (record {
            at_chain = chain_secret_step r.generation _ r.secret s up inv.at_chain t;
            kept = λ j k e. (omega (arith, (inv.kept j k e).0), (inv.kept j k e).1);
          })
          (omega arith) refl step
  ]

-- The key that a step gave may be kept.
pub remember-IsRatchet :
    (cs : CipherSuite) (s0 : List ℕ) (r : SecretKeyRatchet) (mk : MessageKeyData)
    → IsRatchet cs s0 r
    → mk.generation < r.generation
    → chain_key cs s0 mk.generation ≡ ok mk
    → IsRatchet cs s0 (record r { history = update r.history mk.generation (some mk) })
remember-IsRatchet cs s0 r mk inv lt e = record { at_chain = inv.at_chain; kept = kept }
  where
    kept :
        (j : ℕ) (k : MessageKeyData)
        → update r.history mk.generation (some mk) j ≡ some k
        → (j < r.generation) × (chain_key cs s0 j ≡ ok k)
    kept j k p = elim (Bool-cases (j == mk.generation)) [
      | inl same ↦
          let here : j ≡ mk.generation = (==_iff j mk.generation).0 same in
          let this : mk ≡ k = ground arith in
          (omega arith, ap (chain_key cs s0) here ∙ e ∙ ap ok this)
      | inr other ↦ inv.kept j k (ground arith)
    ]

-- Removing a key from the history keeps the rest.
pub forget-IsRatchet :
    (cs : CipherSuite) (s0 : List ℕ) (r : SecretKeyRatchet) (g : ℕ)
    → IsRatchet cs s0 r
    → IsRatchet cs s0 (record r { history = update r.history g none })
forget-IsRatchet cs s0 r g inv = record { at_chain = inv.at_chain; kept = kept }
  where
    kept :
        (j : ℕ) (k : MessageKeyData)
        → update r.history g none j ≡ some k
        → (j < r.generation) × (chain_key cs s0 j ≡ ok k)
    kept j k p = elim (Bool-cases (j == g)) [
      | inl same ↦ absurd (ground arith)
      | inr other ↦ inv.kept j k (ground arith)
    ]
