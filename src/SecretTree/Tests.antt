-- ===== src/SecretTree/Tests.antt =====
-- mls-rs/src/group/secret_tree.rs: runs with a small key derivation.
use mls_rs_wasm_maybe_sync.Common.{
  All, ◌^◌, ◌≡◌, refl, [], ◌∷◌, length, take, ◌==◌, if◌then◌else◌, none, some, Result, ok, err,
  arith,
}
use mls_rs_wasm_maybe_sync.Common.State.{After}
use mls_rs_wasm_maybe_sync.Codec.{encode_to_vec}
use mls_rs_wasm_maybe_sync.Codec.Types.{pair_encode, be_bytes, byte_vec_encode}
use mls_rs_wasm_maybe_sync.Codec.Varint.{
  varint_try_from, varint_encode, count_bytes_to_encode_int, encoding_of_bits, leading_zeros,
}
use mls_rs_wasm_maybe_sync.MlsError.{
  MlsError, key_missing, invalid_future_generation, invalid_leaf_consumption,
}
use mls_rs_wasm_maybe_sync.TreeMath.{
  direct_copath, is_in_tree, root, copath_loop, parent_sibling, parent_of, trailing_ones, left,
  right, is_leaf, left_unchecked, right_unchecked,
}
use mls_rs_wasm_maybe_sync.TreeMath.Levels.{node_at}
use mls_rs_wasm_maybe_sync.SecretTree.Derive.{
  kdf_expand_with_label, CipherSuite, application, handshake,
}
use mls_rs_wasm_maybe_sync.SecretTree.Ratchet.{
  ratchet_new, on_ratchet, max_ratchet_back_history, MessageKeyData, SecretKeyRatchet,
  SecretRatchets, next_message_key, get_message_key, derive_secret, skip_loop,
}
use mls_rs_wasm_maybe_sync.SecretTree.Ratchet
use mls_rs_wasm_maybe_sync.SecretTree.Ratchet.Chain.{chain_key, IsRatchet, start-IsRatchet}
use mls_rs_wasm_maybe_sync.SecretTree.Ratchet.Keys.{get_message_key-IsRatchet, get_message_key_once}
use mls_rs_wasm_maybe_sync.SecretTree.Tree.{
  with_leaf_ratchet, take_leaf_ratchet, ratchets_of, leaf_node_from_path, take_node, set_node,
  consume_path, consume_node, child_secrets, SecretTree, ratchet, tree_new, message_key_generation,
}
use mls_rs_wasm_maybe_sync.SecretTree.Tree.Secrets.{IsSecretTree, message_key}
use mls_rs_wasm_maybe_sync.SecretTree.Tree.Consume.{tree_new-IsSecretTree}
use mls_rs_wasm_maybe_sync.SecretTree.Tree.Messages.{
  message_key_generation_lem, message_key_generation_once,
}
use mls_rs_wasm_maybe_sync.SecretTree.Tree.Lost.{
  next_key, key_of, answers, message_key_generation_lost,
}

-- The expanded secret is the secret's bytes behind the lengths of the info and of the result.
abbrev suite : CipherSuite
suite = record {
  kdf_expand = λ secret info len. some (length info ∷ len ∷ take 2 secret);
  kdf_extract_size = 4;
  aead_nonce_size = 2;
  aead_key_size = 3;
}

abbrev fresh : SecretKeyRatchet
fresh = record { secret = 7 ∷ []; generation = 0; history = λ _. none }

get_message_key-IsRatchet_example : IsRatchet suite (7 ∷ []) (get_message_key suite 2 fresh).1
get_message_key-IsRatchet_example =
    get_message_key-IsRatchet suite (7 ∷ []) 2 fresh (start-IsRatchet suite (7 ∷ [])) (omega arith)

abbrev first_key : MessageKeyData
first_key = record { nonce = 21 ∷ 2 ∷ 7 ∷ []; key = 19 ∷ 3 ∷ 7 ∷ []; generation = 0 }

first_request : get_message_key suite 0 fresh ≡ (ok first_key, (get_message_key suite 0 fresh).1)
unfolding get_message_key skip_loop next_message_key derive_secret kdf_expand_with_label
    encode_to_vec pair_encode be_bytes byte_vec_encode varint_encode count_bytes_to_encode_int
    encoding_of_bits leading_zeros varint_try_from
first_request = refl

get_message_key_once_example :
    (chain_key suite (7 ∷ []) 0 ≡ ok first_key)
    × ((get_message_key suite 0 (get_message_key suite 0 fresh).1).0 ≡ err (key_missing 0))
get_message_key_once_example =
    get_message_key_once suite (7 ∷ []) 0 fresh (get_message_key suite 0 fresh).1 first_key
      (start-IsRatchet suite (7 ∷ [])) (omega arith) first_request

abbrev two_leaves : SecretTree
two_leaves = tree_new (2 ^ 1) (7 ∷ [])

message_key_generation_lem_example :
    After
      (IsSecretTree suite (7 ∷ []) 1)
      (λ mk. message_key suite (7 ∷ []) 1 1 application 2 ≡ ok mk)
      (message_key_generation suite (node_at 0 1) application 2 two_leaves)
message_key_generation_lem_example =
    message_key_generation_lem suite (7 ∷ []) 1 1 2 application two_leaves (omega arith)
      (omega arith) (tree_new-IsSecretTree suite (7 ∷ []) 1 (omega arith))

abbrev leaf_request : Result MlsError MessageKeyData × SecretTree
leaf_request = message_key_generation suite (node_at 0 1) application 0 two_leaves

abbrev leaf_key : MessageKeyData
leaf_key = record { nonce = 21 ∷ 2 ∷ 23 ∷ 4 ∷ []; key = 19 ∷ 3 ∷ 23 ∷ 4 ∷ []; generation = 0 }

leaf_request_key : leaf_request ≡ (ok leaf_key, leaf_request.1)
unfolding message_key_generation Ratchet.message_key_generation on_ratchet with_leaf_ratchet
    take_leaf_ratchet ratchets_of leaf_node_from_path take_node set_node consume_path consume_node
    child_secrets tree_new ratchet_new direct_copath is_in_tree root copath_loop parent_sibling
    parent_of trailing_ones left right is_leaf left_unchecked right_unchecked get_message_key
    skip_loop next_message_key derive_secret kdf_expand_with_label encode_to_vec pair_encode
    be_bytes byte_vec_encode varint_encode count_bytes_to_encode_int encoding_of_bits leading_zeros
    varint_try_from
leaf_request_key = refl

message_key_generation_once_example :
    (message_key_generation suite (node_at 0 1) application 0 leaf_request.1).0
    ≡ err (key_missing 0)
message_key_generation_once_example =
    message_key_generation_once suite (7 ∷ []) 1 1 0 application two_leaves leaf_request.1 leaf_key
      (omega arith) (omega arith) (tree_new-IsSecretTree suite (7 ∷ []) 1 (omega arith))
      leaf_request_key

abbrev used : SecretTree
used = record {
  known_secrets = λ i.
      if i == 0
      then some (ratchet (record { application_ratchet = fresh; handshake_ratchet = fresh }))
      else none;
  leaf_count = 2;
}

copath_of_zero : direct_copath {E = MlsError} 0 2 ≡ ok (record { path = 1; copath = 2 } ∷ [])
unfolding direct_copath is_in_tree root copath_loop parent_sibling parent_of trailing_ones
    left_unchecked right_unchecked
copath_of_zero = refl

message_key_generation_lost_example :
    ((message_key_generation suite 0 application 5000 used).0
      ≡ err (invalid_future_generation 5000))
    × All
        (λ r. r ≡ err invalid_leaf_consumption)
        (answers suite 0
          (key_of handshake 0 ∷ next_key application ∷ [])
          (message_key_generation suite 0 application 5000 used).1)
message_key_generation_lost_example =
    message_key_generation_lost suite 0 5000 application used
      (record { application_ratchet = fresh; handshake_ratchet = fresh })
      (record { path = 1; copath = 2 } ∷ []) (key_of handshake 0 ∷ next_key application ∷ []) refl
      copath_of_zero (refl, tt) (omega arith) (omega arith)
