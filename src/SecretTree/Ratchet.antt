-- ===== src/SecretTree/Ratchet.antt =====
-- mls-rs/src/group/secret_tree.rs: `SecretKeyRatchet` and `SecretRatchets`, with the feature
-- `out_of_order`, which is on by default. Generations are those of `u32` in a release build. A
-- `LargeMap` is the function that looks its keys up.
pub mod Chain
pub mod Keys
use mls_rs_wasm_maybe_sync.Common.{
  ℕ, zero, suc, ◌+◌, ◌-◌, ◌*◌, ◌/◌, ◌%◌, ◌^◌, ◌≤◌, ◌<◌, ◌≡◌, ◌≢◌, ◌↔◌, refl, sym, ap, subst, ◌∙◌,
  bit_and, bit_or, bit_xor, max, min, List, [], ◌∷◌, ◌++◌, map, append-nil, append_assoc, length,
  length-append, length-set, length-drop, bytes_eq, bytes_eq→eq, bytes_eq_self, get_elem?, set,
  take, drop, take-append, drop-append, head?, get_last?, any, all, All, ltb, leb, ◌==◌, ==_iff,
  ltb→lt, lt→ltb, if◌then◌else◌, Bool, true, false, not, ◌&&◌, ◌||◌, Bool-cases, Option, none, some,
  Option-cases, is_some, is_none, Result, ok, err, fault, Fault, panicked, out_of_fuel, ensure,
  ok_or, >>=-eq-ok, Ended, gives, fails, breaks, Result-cases, try_for_each, arith, ◌⊎◌, inl, inr,
}
use mls_rs_wasm_maybe_sync.Common.State.{
  Method, continue, ◌>>=◌, ◌>>◌, return, lift, self, set_self,
}
use mls_rs_wasm_maybe_sync.Codec.Types.{be_bytes}
use mls_rs_wasm_maybe_sync.MlsError.{MlsError, key_missing, invalid_future_generation}
use mls_rs_wasm_maybe_sync.SecretTree.Derive.{
  CipherSuite, KeyType, handshake, application, key_type_label, nonce_label, key_label,
  secret_label, kdf_expand_with_label, map_crypto_err,
}

-- `MAX_RATCHET_BACK_HISTORY`
abbrev pub max_ratchet_back_history : ℕ
max_ratchet_back_history = 1024

pub record MessageKeyData : Type 0 where
  pub nonce : List ℕ
  pub key : List ℕ
  pub generation : ℕ

pub record SecretKeyRatchet : Type 0 where
  pub secret : List ℕ
  pub generation : ℕ
  pub history : ℕ → Option MessageKeyData

-- `LargeMap`: insertion or removal of one key.
abbrev pub update {ℓ} : {V : Type ℓ} → (ℕ → Option V) → ℕ → Option V → ℕ → Option V
update m k v j = if j == k then v else m j

unfoldable pub derive_secret :
    CipherSuite → SecretKeyRatchet → List ℕ → ℕ → Result MlsError (List ℕ)
derive_secret cs r label len =
    map_crypto_err (kdf_expand_with_label cs r.secret label (be_bytes 4 r.generation) (some len))

-- `SecretKeyRatchet::new`
unfoldable pub ratchet_new : CipherSuite → List ℕ → KeyType → Result MlsError SecretKeyRatchet
ratchet_new cs secret key_type =
    elim (map_crypto_err (kdf_expand_with_label cs secret (key_type_label key_type) [] none)) [
      | ok s ↦ ok (record { secret = s; generation = 0; history = λ _. none })
      | err e ↦ err e
      | fault x ↦ fault x
    ]

unfoldable pub next_message_key : CipherSuite → Method SecretKeyRatchet MlsError MessageKeyData
next_message_key cs = do
  r ← self
  nonce ← lift (derive_secret cs r nonce_label cs.aead_nonce_size)
  key ← lift (derive_secret cs r key_label cs.aead_key_size)
  secret ← lift (derive_secret cs r secret_label cs.kdf_extract_size)
  set_self (record r { secret = secret; generation = (r.generation + 1) % 2 ^ 32 })
  return (record { nonce = nonce; key = key; generation = r.generation })

-- `self.history.insert(key_data.generation, key_data)`
abbrev pub remember : MessageKeyData → Method SecretKeyRatchet MlsError (Unit {0})
remember key_data r =
    (ok tt, record r { history = update r.history key_data.generation (some key_data) })

-- `while self.generation < generation`
unfoldable pub skip_loop : CipherSuite → ℕ → ℕ → Method SecretKeyRatchet MlsError (Unit {0})
skip_loop cs zero generation r =
    (if ltb r.generation generation then fault out_of_fuel else ok tt, r)
skip_loop cs (suc fuel) generation r =
    let rest =
      (next_message_key cs >>= λ key_data. remember key_data >>= λ _. skip_loop cs fuel generation)
        r in
    if ltb r.generation generation then rest else (ok tt, r)

-- `self.history.remove_entry(&generation)`
pub take_from_history : ℕ → Method SecretKeyRatchet MlsError MessageKeyData
take_from_history generation r = (
  ok_or (r.history generation) (key_missing generation),
  record r { history = update r.history generation none },
)

-- The window is `max_ratchet_back_history` generations wide, which bounds the rounds of the loop.
unfoldable pub get_message_key : CipherSuite → ℕ → Method SecretKeyRatchet MlsError MessageKeyData
unfolding take_from_history
get_message_key cs generation r =
    if ltb generation r.generation
    then take_from_history generation r
    else if ltb ((r.generation + max_ratchet_back_history) % 2 ^ 32) generation
    then (err (invalid_future_generation generation), r)
    else (skip_loop cs max_ratchet_back_history generation >> next_message_key cs) r

pub record SecretRatchets : Type 0 where
  pub application_ratchet : SecretKeyRatchet
  pub handshake_ratchet : SecretKeyRatchet

-- A method of the ratchet of one key type.
unfoldable pub on_ratchet {ℓ} :
    {A : Type ℓ} → KeyType → Method SecretKeyRatchet MlsError A → Method SecretRatchets MlsError A
on_ratchet handshake m rs =
    let (a, r) = m rs.handshake_ratchet in (a, record rs { handshake_ratchet = r })
on_ratchet application m rs =
    let (a, r) = m rs.application_ratchet in (a, record rs { application_ratchet = r })

unfoldable pub message_key_generation :
    CipherSuite → ℕ → KeyType → Method SecretRatchets MlsError MessageKeyData
unfolding on_ratchet
message_key_generation cs generation key_type = on_ratchet key_type (get_message_key cs generation)

unfoldable pub ratchets_next_message_key :
    CipherSuite → KeyType → Method SecretRatchets MlsError MessageKeyData
unfolding on_ratchet
ratchets_next_message_key cs key_type = on_ratchet key_type (next_message_key cs)
