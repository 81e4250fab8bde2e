-- ===== src/SecretTree/Tree/Secrets.antt =====
-- mls-rs/src/group/secret_tree.rs: the secrets of RFC 9420 section 9 by level and position, and the
-- trees that hold no other.
use mls_rs_wasm_maybe_sync.Common.{
  ℕ, zero, suc, ◌+◌, ◌/◌, ◌%◌, ◌^◌, ◌<◌, ◌≡◌, sym, subst, List, [], ◌==◌, ==_iff, if◌then◌else◌,
  Bool-cases, Option, none, some, Result, ok, ◌>>=◌, arith, inl, inr,
}
use mls_rs_wasm_maybe_sync.TreeMath.Levels.{node_at, node_at_injective}
use mls_rs_wasm_maybe_sync.MlsError.{MlsError}
use mls_rs_wasm_maybe_sync.SecretTree.Derive.{
  CipherSuite, KeyType, handshake, application, key_type_label, tree_label, left_context,
  right_context, kdf_expand_with_label, map_crypto_err,
}
use mls_rs_wasm_maybe_sync.SecretTree.Ratchet.{SecretRatchets, MessageKeyData, update}
use mls_rs_wasm_maybe_sync.SecretTree.Ratchet.Chain.{IsRatchet, chain_key}
use mls_rs_wasm_maybe_sync.SecretTree.Tree.{SecretTreeNode, secret, ratchet, SecretTree}

-- The secret of the node `n` levels below the root at position `q`.
unfoldable pub tree_secret : CipherSuite → List ℕ → ℕ → ℕ → Result MlsError (List ℕ)
tree_secret cs s0 zero q = ok s0
tree_secret cs s0 (suc n) q = do
  s ← tree_secret cs s0 n (q / 2)
  kdf_expand_with_label cs s tree_label (if q % 2 == 0 then left_context else right_context) none

-- The first secret of a ratchet of the leaf whose secret is given.
unfoldable pub ratchet_secret : CipherSuite → List ℕ → KeyType → Result MlsError (List ℕ)
ratchet_secret cs s key_type =
    map_crypto_err (kdf_expand_with_label cs s (key_type_label key_type) [] none)

-- The key of a message: of the leaf at position `q` of a tree of `2 ^ d` leaves, of a type, at a
-- generation.
unfoldable pub message_key :
    CipherSuite → List ℕ → ℕ → ℕ → KeyType → ℕ → Result MlsError MessageKeyData
message_key cs s0 d q key_type generation = do
  s ← tree_secret cs s0 d q
  start ← ratchet_secret cs s key_type
  chain_key cs start generation

-- The ratchets keep to the chains of the leaf.
pub record AreRatchets (cs : CipherSuite) (s : List ℕ) (rs : SecretRatchets) : Type 0 where
  pub app_secret : List ℕ
  pub app_start : ratchet_secret cs s application ≡ ok app_secret
  pub app_chain : IsRatchet cs app_secret rs.application_ratchet
  pub hand_secret : List ℕ
  pub hand_start : ratchet_secret cs s handshake ≡ ok hand_secret
  pub hand_chain : IsRatchet cs hand_secret rs.handshake_ratchet

-- What a tree of `2 ^ d` leaves may hold for a node: its secret, or its ratchets.
abbrev pub Holds : CipherSuite → List ℕ → ℕ → ℕ → SecretTreeNode → Type 0
Holds cs s0 n q (secret s) = tree_secret cs s0 n q ≡ ok s
Holds cs s0 n q (ratchet rs) = (s : List ℕ) × (tree_secret cs s0 n q ≡ ok s) × AreRatchets cs s rs

pub record IsKnown (cs : CipherSuite) (s0 : List ℕ) (d : ℕ) (known : ℕ → Option SecretTreeNode)
    : Type 0 where
  pub holds :
      (l n q : ℕ) (x : SecretTreeNode)
      → l + n ≡ d
      → q < 2 ^ n
      → known (node_at l q) ≡ some x
      → Holds cs s0 n q x

-- The invariant of a tree of `2 ^ d` leaves that started from the secret `s0`.
pub record IsSecretTree (cs : CipherSuite) (s0 : List ℕ) (d : ℕ) (t : SecretTree) : Type 0 where
  pub small : d < 32
  pub leaves : t.leaf_count ≡ 2 ^ d
  pub known : IsKnown cs s0 d t.known_secrets

module _ (cs : CipherSuite) (s0 : List ℕ) (d : ℕ) where
  pub clear-IsKnown :
      (known : ℕ → Option SecretTreeNode) (i : ℕ)
      → IsKnown cs s0 d known
      → IsKnown cs s0 d (update known i none)
  clear-IsKnown known i k = record { holds = holds }
    where
      holds :
          (l n q : ℕ) (x : SecretTreeNode)
          → l + n ≡ d
          → q < 2 ^ n
          → update known i none (node_at l q) ≡ some x
          → Holds cs s0 n q x
      holds l n q x e h p = elim (Bool-cases (node_at l q == i)) [
        | inl here ↦ absurd (ground arith)
        | inr other ↦ k.holds l n q x e h (ground arith)
      ]

  -- An entry may be written where it is the node's own.
  pub put-IsKnown :
      (known : ℕ → Option SecretTreeNode) (l n q : ℕ) (x : SecretTreeNode)
      → d < 32
      → l + n ≡ d
      → Holds cs s0 n q x
      → IsKnown cs s0 d known
      → IsKnown cs s0 d (update known (node_at l q) (some x))
  put-IsKnown known l n q x small e own k = record { holds = holds }
    where
      holds :
          (l' n' q' : ℕ) (y : SecretTreeNode)
          → l' + n' ≡ d
          → q' < 2 ^ n'
          → update known (node_at l q) (some x) (node_at l' q') ≡ some y
          → Holds cs s0 n' q' y
      holds l' n' q' y e' h' p = elim (Bool-cases (node_at l' q' == node_at l q)) [
        | inl here ↦
            let (level, position) =
              node_at_injective l' q' l q (omega arith) (omega arith)
                ((==_iff (node_at l' q') (node_at l q)).0 here) in
            let depth : n ≡ n' = omega arith in
            let same : x ≡ y = ground arith in
            subst (λ m. Holds cs s0 m q' y) depth
              (subst (λ c. Holds cs s0 n c y) (sym position) (subst (Holds cs s0 n q) same own))
        | inr other ↦ k.holds l' n' q' y e' h' (ground arith)
      ]
