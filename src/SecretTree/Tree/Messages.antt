-- ===== src/SecretTree/Tree/Messages.antt =====
-- mls-rs/src/group/secret_tree.rs: the keys that a tree gives out for messages are those of
-- RFC 9420, and each is given out once.
use mls_rs_wasm_maybe_sync.Common.{
  ℕ, ◌+◌, ◌^◌, ◌<◌, ◌≡◌, refl, subst, List, some, Result, ok, err, fault, arith,
}
use mls_rs_wasm_maybe_sync.Common.State.{
  Method, continue, After, After-bind, After-lift, return, lift, ◌>>=◌,
}
use mls_rs_wasm_maybe_sync.TreeMath.Levels.{node_at}
use mls_rs_wasm_maybe_sync.MlsError.{MlsError, key_missing}
use mls_rs_wasm_maybe_sync.SecretTree.Derive.{CipherSuite, KeyType, handshake, application}
use mls_rs_wasm_maybe_sync.SecretTree.Ratchet
use mls_rs_wasm_maybe_sync.SecretTree.Ratchet.{
  SecretRatchets, SecretKeyRatchet, MessageKeyData, update, get_message_key, on_ratchet,
}
use mls_rs_wasm_maybe_sync.SecretTree.Ratchet.Chain.{chain_key}
use mls_rs_wasm_maybe_sync.SecretTree.Ratchet.Keys.{get_message_key-IsRatchet, get_message_key_once}
use mls_rs_wasm_maybe_sync.SecretTree.Tree.{
  ratchet, SecretTree, set_node, take_node, ratchets_of, take_leaf_ratchet, with_leaf_ratchet,
  message_key_generation,
}
use mls_rs_wasm_maybe_sync.SecretTree.Tree.Secrets.{
  message_key, tree_secret, ratchet_secret, AreRatchets, IsSecretTree,
}
use mls_rs_wasm_maybe_sync.SecretTree.Tree.Consume.{LeafRatchets, take_leaf_ratchet-Kept, put}

module _ (cs : CipherSuite) (s0 : List ℕ) (d : ℕ) where
  abbrev IsKey : ℕ → KeyType → ℕ → MessageKeyData → Type 0
  IsKey q key_type g mk = message_key cs s0 d q key_type g ≡ ok mk

  key_of_leaf_lem :
      (q g : ℕ) (key_type : KeyType) (s start : List ℕ) (mk : MessageKeyData)
      → tree_secret cs s0 d q ≡ ok s
      → ratchet_secret cs s key_type ≡ ok start
      → chain_key cs start g ≡ ok mk
      → IsKey q key_type g mk
  unfolding message_key
  key_of_leaf_lem q g key_type s start mk a b c = rw (a, b, c)

  -- A request keeps the ratchets of a leaf to their chains.
  ratchets-generation :
      (s : List ℕ) (g : ℕ) (key_type : KeyType) (rs : SecretRatchets)
      → g + 1 < 2 ^ 32
      → AreRatchets cs s rs
      → AreRatchets cs s (Ratchet.message_key_generation cs g key_type rs).1
  unfolding Ratchet.message_key_generation on_ratchet
  ratchets-generation s g handshake rs small k = record {
    app_secret = k.app_secret;
    app_start = k.app_start;
    app_chain = k.app_chain;
    hand_secret = k.hand_secret;
    hand_start = k.hand_start;
    hand_chain =
        get_message_key-IsRatchet cs k.hand_secret g rs.handshake_ratchet k.hand_chain small;
  }
  ratchets-generation s g application rs small k = record {
    app_secret = k.app_secret;
    app_start = k.app_start;
    app_chain =
        get_message_key-IsRatchet cs k.app_secret g rs.application_ratchet k.app_chain small;
    hand_secret = k.hand_secret;
    hand_start = k.hand_start;
    hand_chain = k.hand_chain;
  }

  ratchets-IsKey :
      (q g : ℕ) (key_type : KeyType) (s : List ℕ) (rs : SecretRatchets) (mk : MessageKeyData)
      → g + 1 < 2 ^ 32
      → tree_secret cs s0 d q ≡ ok s
      → AreRatchets cs s rs
      → (Ratchet.message_key_generation cs g key_type rs).0 ≡ ok mk
      → IsKey q key_type g mk
        × ((Ratchet.message_key_generation cs g key_type
              (Ratchet.message_key_generation cs g key_type rs).1).0
            ≡ err (key_missing g))
  unfolding Ratchet.message_key_generation on_ratchet
  ratchets-IsKey q g handshake s rs mk small e k p =
      let r : SecretKeyRatchet = rs.handshake_ratchet in
      let (key, once) =
        get_message_key_once cs k.hand_secret g r (get_message_key cs g r).1 mk k.hand_chain small
          (λ i. (p i, (get_message_key cs g r).1)) in
      (key_of_leaf_lem q g handshake s k.hand_secret mk e k.hand_start key, once)
  ratchets-IsKey q g application s rs mk small e k p =
      let r : SecretKeyRatchet = rs.application_ratchet in
      let (key, once) =
        get_message_key_once cs k.app_secret g r (get_message_key cs g r).1 mk k.app_chain small
          (λ i. (p i, (get_message_key cs g r).1)) in
      (key_of_leaf_lem q g application s k.app_secret mk e k.app_start key, once)

  -- On a tree that keeps to the secrets of RFC 9420 from its first secret, a request for a leaf of the tree
  -- and a generation below the last leaves such a tree, also when it fails, and a key that it returns is the
  -- key of that leaf, type and generation.
  pub message_key_generation_lem :
      (q g : ℕ) (key_type : KeyType) (t : SecretTree)
      → q < 2 ^ d
      → g + 1 < 2 ^ 32
      → IsSecretTree cs s0 d t
      → After
          (IsSecretTree cs s0 d)
          (λ mk. message_key cs s0 d q key_type g ≡ ok mk)
          (message_key_generation cs (node_at 0 q) key_type g t)
  unfolding message_key_generation with_leaf_ratchet set_node
  message_key_generation_lem q g key_type t h small k =
      let m : Method SecretRatchets MlsError MessageKeyData =
        Ratchet.message_key_generation cs g key_type in
      After-bind (IsSecretTree cs s0 d) (LeafRatchets cs s0 d q) (IsKey q key_type g)
        (λ rs.
          lift (m rs).0 >>= λ res. set_node (node_at 0 q) (ratchet (m rs).1) >>= λ u. return res)
        (take_leaf_ratchet cs (node_at 0 q) t) (take_leaf_ratchet-Kept cs s0 d q t h k)
        (λ rs u p k' own.
          After-bind (IsSecretTree cs s0 d) (IsKey q key_type g) (IsKey q key_type g)
            (λ res. set_node (node_at 0 q) (ratchet (m rs).1) >>= λ v. return res) (lift (m rs).0 u)
            (After-lift (IsSecretTree cs s0 d) (IsKey q key_type g) (m rs).0 u k'
              (λ mk e. (ratchets-IsKey q g key_type own.0 rs mk small own.1 own.2 e).0))
            (λ mk v e k'' key. (
              put cs s0 d v 0 d q (ratchet (m rs).1) (omega arith)
                  (own.0, own.1, ratchets-generation own.0 g key_type rs small own.2) k'',
              key,
            )))

  -- The entry that a request leaves, and what a second request then gives.
  second :
      (i g : ℕ) (key_type : KeyType) (t : SecretTree) (rs : SecretRatchets) (e : MlsError)
      → t.known_secrets i ≡ some (ratchet rs)
      → (Ratchet.message_key_generation cs g key_type rs).0 ≡ err e
      → (message_key_generation cs i key_type g t).0 ≡ err e
  unfolding message_key_generation with_leaf_ratchet take_leaf_ratchet take_node ratchets_of
  second i g key_type t rs e here p = rw (here, p)

  -- On a tree that keeps to its secrets, once a request for a leaf of the tree and a generation below the
  -- last has returned a key, the same request finds no key for that generation.
  pub message_key_generation_once :
      (q g : ℕ) (key_type : KeyType) (t t' : SecretTree) (mk : MessageKeyData)
      → q < 2 ^ d
      → g + 1 < 2 ^ 32
      → IsSecretTree cs s0 d t
      → message_key_generation cs (node_at 0 q) key_type g t ≡ (ok mk, t')
      → (message_key_generation cs (node_at 0 q) key_type g t').0 ≡ err (key_missing g)
  unfolding message_key_generation with_leaf_ratchet set_node
  message_key_generation_once q g key_type t t' mk h small k call =
      on_taken (take_leaf_ratchet cs (node_at 0 q) t) (take_leaf_ratchet-Kept cs s0 d q t h k) call
    where
      m : Method SecretRatchets MlsError MessageKeyData
      m = Ratchet.message_key_generation cs g key_type

      on_key :
          (rs : SecretRatchets) (u : SecretTree) (r : Result MlsError MessageKeyData)
          → (m rs).0 ≡ r
          → LeafRatchets cs s0 d q rs
          → (lift r >>= λ res. set_node (node_at 0 q) (ratchet (m rs).1) >>= λ v. return res) u
            ≡ (ok mk, t')
          → (message_key_generation cs (node_at 0 q) key_type g t').0 ≡ err (key_missing g)
      on_key rs u (err x) p own e = absurd (ground arith)
      on_key rs u (fault x) p own e = absurd (ground arith)
      on_key rs u (ok a) p own e =
          second (node_at 0 q) g key_type t' (m rs).1 (key_missing g)
            (subst (λ w. w.known_secrets (node_at 0 q) ≡ some (ratchet (m rs).1)) (λ i. (e i).1)
              (ground arith))
            (ratchets-IsKey q g key_type own.0 rs a small own.1 own.2 p).1

      on_taken :
          (z : Result MlsError SecretRatchets × SecretTree)
          → After (IsSecretTree cs s0 d) (LeafRatchets cs s0 d q) z
          → continue
              (λ rs. lift (m rs).0 >>= λ res.
                set_node (node_at 0 q) (ratchet (m rs).1) >>= λ u. return res)
              z.0
              z.1
            ≡ (ok mk, t')
          → (message_key_generation cs (node_at 0 q) key_type g t').0 ≡ err (key_missing g)
      on_taken (err x, u) a e = absurd (ground arith)
      on_taken (fault x, u) a e = absurd (ground arith)
      on_taken (ok rs, u) a e = on_key rs u (m rs).0 refl a.1 e
