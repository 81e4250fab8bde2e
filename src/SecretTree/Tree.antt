-- ===== src/SecretTree/Tree.antt =====
-- mls-rs/src/group/secret_tree.rs: `SecretTree`, over `u32` indices. A node's secret is replaced by
-- those of its children when it is used; a leaf's secret becomes a pair of ratchets.
pub mod Secrets
pub mod Consume
pub mod Messages
pub mod Lost
use mls_rs_wasm_maybe_sync.Common.{
  ℕ, zero, suc, ◌+◌, ◌-◌, ◌*◌, ◌/◌, ◌%◌, ◌^◌, ◌≤◌, ◌<◌, ◌≡◌, ◌≢◌, ◌↔◌, refl, sym, ap, subst, ◌∙◌,
  bit_and, bit_or, bit_xor, max, min, List, [], ◌∷◌, ◌++◌, map, append-nil, append_assoc, length,
  length-append, length-set, length-drop, bytes_eq, bytes_eq→eq, bytes_eq_self, get_elem?, set,
  take, drop, take-append, drop-append, head?, get_last?, any, all, All, ltb, leb, ◌==◌, ==_iff,
  ltb→lt, lt→ltb, if◌then◌else◌, Bool, true, false, not, ◌&&◌, ◌||◌, Bool-cases, Option, none, some,
  Option-cases, is_some, is_none, Result, ok, err, fault, Fault, panicked, out_of_fuel, ensure,
  ok_or, >>=-eq-ok, Ended, gives, fails, breaks, Result-cases, try_for_each, arith, ◌⊎◌, inl, inr,
}
use mls_rs_wasm_maybe_sync.Common.State.{
  Method, continue, ◌>>=◌, ◌>>◌, return, lift, self, set_self,
}
use mls_rs_wasm_maybe_sync.TreeMath.{CopathNode, root, left, right, direct_copath}
use mls_rs_wasm_maybe_sync.MlsError.{MlsError, leaf_node_no_children, invalid_leaf_consumption}
use mls_rs_wasm_maybe_sync.SecretTree.Derive.{
  CipherSuite, KeyType, handshake, application, tree_label, left_context, right_context,
  kdf_expand_with_label,
}
use mls_rs_wasm_maybe_sync.SecretTree.Ratchet
use mls_rs_wasm_maybe_sync.SecretTree.Ratchet.{SecretRatchets, MessageKeyData, update, ratchet_new}
use mathlib.Core.List.{reverse}

pub data SecretTreeNode : Type 0 where
  secret : List ℕ → SecretTreeNode
  ratchet : SecretRatchets → SecretTreeNode

abbrev into_secret : SecretTreeNode → Option (List ℕ)
into_secret (secret s) = some s
into_secret (ratchet r) = none

-- `node.and_then(|n| n.into_secret())`
abbrev pub secret_of : Option SecretTreeNode → Option (List ℕ)
secret_of none = none
secret_of (some n) = into_secret n

pub record SecretTree : Type 0 where
  pub known_secrets : ℕ → Option SecretTreeNode
  pub leaf_count : ℕ

unfoldable pub tree_empty : SecretTree
tree_empty = record { known_secrets = λ _. none; leaf_count = 0 }

unfoldable pub tree_new : ℕ → List ℕ → SecretTree
tree_new leaf_count encryption_secret = record {
  known_secrets = update (λ _. none) (root leaf_count) (some (secret encryption_secret));
  leaf_count = leaf_count;
}

unfoldable pub set_node : ℕ → SecretTreeNode → Method SecretTree MlsError (Unit {0})
set_node index value t =
    (ok tt, record t { known_secrets = update t.known_secrets index (some value) })

unfoldable pub take_node : ℕ → Method SecretTree MlsError (Option SecretTreeNode)
take_node index t =
    (ok (t.known_secrets index), record t { known_secrets = update t.known_secrets index none })

-- The secrets of the two children of a node.
unfoldable pub child_secrets : CipherSuite → ℕ → List ℕ → Method SecretTree MlsError (Unit {0})
unfolding set_node
child_secrets cs index s = do
  left_index ← lift (ok_or (left index) leaf_node_no_children)
  right_index ← lift (ok_or (right index) leaf_node_no_children)
  left_secret ← lift (kdf_expand_with_label cs s tree_label left_context none)
  right_secret ← lift (kdf_expand_with_label cs s tree_label right_context none)
  set_node left_index (secret left_secret)
  set_node right_index (secret right_secret)

unfoldable pub consume_node : CipherSuite → ℕ → Method SecretTree MlsError (Unit {0})
unfolding take_node child_secrets
consume_node cs index = do
  node ← take_node index
  elim (secret_of node) [ none ↦ return tt | some s ↦ child_secrets cs index s ]

-- `for i in path { self.consume_node(cipher_suite, &i.path).await?; }`
unfoldable pub consume_path : CipherSuite → List CopathNode → Method SecretTree MlsError (Unit {0})
consume_path cs [] = return tt
consume_path cs (i ∷ path) = consume_node cs i.path >> consume_path cs path

-- The ratchets that a taken node holds or starts.
unfoldable pub ratchets_of :
    CipherSuite → SecretTreeNode → Method SecretTree MlsError SecretRatchets
ratchets_of cs (ratchet r) = return r
ratchets_of cs (secret s) = do
  application_ratchet ← lift (ratchet_new cs s application)
  handshake_ratchet ← lift (ratchet_new cs s handshake)
  return
      (record { application_ratchet = application_ratchet; handshake_ratchet = handshake_ratchet })

-- Without an entry for the leaf, the path from the root down to it is consumed first.
unfoldable pub leaf_node_from_path : CipherSuite → ℕ → Method SecretTree MlsError SecretTreeNode
unfolding consume_path take_node
leaf_node_from_path cs leaf_index = do
  t ← self
  path ← lift (direct_copath leaf_index t.leaf_count)
  consume_path cs (reverse path)
  node ← take_node leaf_index
  lift (ok_or node invalid_leaf_consumption)

unfoldable pub take_leaf_ratchet : CipherSuite → ℕ → Method SecretTree MlsError SecretRatchets
unfolding ratchets_of leaf_node_from_path take_node
take_leaf_ratchet cs leaf_index = do
  taken ← take_node leaf_index
  node ← (elim taken [ some node ↦ return node | none ↦ leaf_node_from_path cs leaf_index ])
  ratchets_of cs node

-- A method of the ratchets of a leaf: they are taken, used, and on success put back.
unfoldable pub with_leaf_ratchet {ℓ} :
    {A : Type ℓ} → CipherSuite → ℕ → Method SecretRatchets MlsError A → Method SecretTree MlsError A
unfolding take_leaf_ratchet set_node
with_leaf_ratchet cs leaf_index m = do
  rs ← take_leaf_ratchet cs leaf_index
  res ← lift (m rs).0
  set_node leaf_index (ratchet (m rs).1)
  return res

unfoldable pub next_message_key :
    CipherSuite → ℕ → KeyType → Method SecretTree MlsError MessageKeyData
unfolding with_leaf_ratchet
next_message_key cs leaf_index key_type =
    with_leaf_ratchet cs leaf_index (Ratchet.ratchets_next_message_key cs key_type)

unfoldable pub message_key_generation :
    CipherSuite → ℕ → KeyType → ℕ → Method SecretTree MlsError MessageKeyData
unfolding with_leaf_ratchet
message_key_generation cs leaf_index key_type generation =
    with_leaf_ratchet cs leaf_index (Ratchet.message_key_generation cs generation key_type)
