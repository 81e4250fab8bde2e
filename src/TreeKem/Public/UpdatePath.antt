-- ===== src/TreeKem/Public/UpdatePath.antt =====
-- mls-rs/src/tree_kem/mod.rs: `apply_update_path`, up to the update of the parent hashes, with the data of
-- mls-rs/src/tree_kem/update_path.rs.
use mls_rs_wasm_maybe_sync.Common.{ℕ, List, [], ◌∷◌, set, Option, none, some, ok}
use mls_rs_wasm_maybe_sync.Common.State.{Method, ◌>>=◌, ◌>>◌, return, lift, self}
use mls_rs_wasm_maybe_sync.MlsError.{MlsError}
use mls_rs_wasm_maybe_sync.TreeMath.{CopathNode}
use mls_rs_wasm_maybe_sync.TreeKem.Leaf.{LeafNode}
use mls_rs_wasm_maybe_sync.TreeKem.Nodes.{leaf, node_index, borrow_as_leaf_mut, nodes_direct_copath}
use mls_rs_wasm_maybe_sync.TreeKem.Index.{TreeIndex, index_insert, remove}
use mls_rs_wasm_maybe_sync.TreeKem.Public.{
  TreeKemPublic, IdentityOf, on_index, on_nodes, update_node,
}

-- mls-rs-core/src/crypto.rs
pub record HpkeCiphertext : Type 0 where
  pub kem_output : List ℕ
  pub ciphertext : List ℕ

pub record UpdatePathNode : Type 0 where
  pub public_key : List ℕ
  pub encrypted_path_secret : List HpkeCiphertext

pub record ValidatedUpdatePath : Type 0 where
  pub leaf_node : LeafNode
  pub nodes : List (Option UpdatePathNode)

-- `for (node, pn) in update_path.nodes.iter().zip(path)`
unfoldable pub update_nodes :
    List (Option UpdatePathNode) → List CopathNode → Method TreeKemPublic MlsError (Unit {0})
unfolding update_node
update_nodes [] path = return tt
update_nodes (n ∷ nodes) [] = return tt
update_nodes (none ∷ nodes) (pn ∷ path) = update_nodes nodes path
update_nodes (some n ∷ nodes) (pn ∷ path) =
    update_node n.public_key pn.path >> update_nodes nodes path

-- `self.index.remove(..)`, which gives no value
abbrev pub remove_from : LeafNode → List ℕ → Method TreeIndex MlsError (Unit {0})
remove_from leaf_node identity index = (ok tt, remove leaf_node identity index)

-- From `let path = self.nodes.direct_copath(sender)` on
unfoldable pub after_leaf :
    IdentityOf
    → ℕ
    → ValidatedUpdatePath
    → LeafNode
    → List ℕ
    → Method TreeKemPublic MlsError (Unit {0})
unfolding nodes_direct_copath update_nodes remove index_insert
after_leaf identity sender update_path original_leaf_node original_identity = do
  t ← self
  path ← lift (nodes_direct_copath t.nodes sender)
  update_nodes update_path.nodes path
  on_index (remove_from original_leaf_node original_identity)
  on_index (index_insert identity update_path.leaf_node sender)

unfoldable pub apply_update_path :
    IdentityOf → ℕ → ValidatedUpdatePath → Method TreeKemPublic MlsError (Unit {0})
unfolding borrow_as_leaf_mut after_leaf
apply_update_path identity sender update_path = do
  t ← self
  existing_leaf ← lift (borrow_as_leaf_mut t.nodes sender)
  original_identity ← lift (identity existing_leaf.signing_identity)
  on_nodes (λ nodes. ok (set nodes (node_index sender) (some (leaf update_path.leaf_node))))
  after_leaf identity sender update_path existing_leaf original_identity
