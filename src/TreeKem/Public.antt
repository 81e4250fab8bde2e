-- ===== src/TreeKem/Public.antt =====
-- mls-rs/src/tree_kem/mod.rs: `TreeKemPublic`, the nodes of the ratchet tree with the index of its leaves, with
-- the features tree_index, custom_proposal and by_ref_proposal. `identity` is the identity provider's
-- function, which an application supplies. The tree hashes are left out.
pub mod Unmerged
pub mod Paths
pub mod Adding
pub mod Removing
pub mod Updating
pub mod Applying
pub mod Batch
pub mod PutBack
pub mod Outcomes
pub mod Reverting
pub mod Views
pub mod Importing
pub mod Tests
pub mod UpdateEdits
pub mod Removals
pub mod Edits
pub mod UpdatePath
pub mod PathNodes
pub mod PathApplied
pub mod Invariant
use mls_rs_wasm_maybe_sync.Common.{
  ℕ, bytes_eq, true, false, ◌&&◌, List, [], ◌∷◌, ◌++◌, ◌==◌, if◌then◌else◌, Bool, Option, none,
  some, Result, ok, err, fault, length, ◌%◌, ◌^◌,
}
use mls_rs_wasm_maybe_sync.Common
use mls_rs_wasm_maybe_sync.Common.State.{Method, continue, ◌>>=◌, ◌>>◌, return, lift}
use mls_rs_wasm_maybe_sync.MlsError.{MlsError}
use mls_rs_wasm_maybe_sync.TreeMath.{CopathNode}
use mls_rs_wasm_maybe_sync.TreeKem.Leaf.{LeafNode, SigningIdentity}
use mls_rs_wasm_maybe_sync.TreeKem.Nodes.{
  Parent, parent, NodeVec, non_empty_leaves, nodes_direct_copath, borrow_as_parent_mut,
  borrow_as_leaf, borrow_as_leaf_mut, borrow_or_fill_node_as_parent, next_empty_leaf, insert_leaf,
}
use mls_rs_wasm_maybe_sync.Common.{set}
use mls_rs_wasm_maybe_sync.TreeKem.Index.{
  TreeIndex, contains, tree_index_new, is_initialized, index_insert, count_supporting_proposal,
  get_leaf_index_with_identity,
}

pub record TreeKemPublic : Type 0 where
  pub index : TreeIndex
  pub nodes : NodeVec

abbrev pub IdentityOf : Type 0
IdentityOf = SigningIdentity → Result MlsError (List ℕ)

abbrev pub tree_kem_new : TreeKemPublic
tree_kem_new = record { index = tree_index_new; nodes = [] }

-- A method on `self.index`, and a call that changes `self.nodes`.
abbrev pub on_index {ℓ} :
    {A : Type ℓ} → Method TreeIndex MlsError A → Method TreeKemPublic MlsError A
on_index m t = ((m t.index).0, record t { index = (m t.index).1 })

abbrev pub put_nodes : Result MlsError NodeVec → Method TreeKemPublic MlsError (Unit {0})
put_nodes (ok nodes) t = (ok tt, record t { nodes = nodes })
put_nodes (err e) t = (err e, t)
put_nodes (fault x) t = (fault x, t)

abbrev pub on_nodes : (NodeVec → Result MlsError NodeVec) → Method TreeKemPublic MlsError (Unit {0})
on_nodes f t = put_nodes (f t.nodes) t

-- `for (leaf_index, leaf) in self.nodes.non_empty_leaves()`
unfoldable pub index_leaves :
    IdentityOf → List (ℕ × LeafNode) → Method TreeIndex MlsError (Unit {0})
unfolding index_insert
index_leaves identity [] = return tt
index_leaves identity ((leaf_index, leaf) ∷ leaves) =
    index_insert identity leaf leaf_index >> index_leaves identity leaves

unfoldable pub initialize_index_if_necessary : IdentityOf → Method TreeKemPublic MlsError (Unit {0})
unfolding is_initialized index_leaves non_empty_leaves
initialize_index_if_necessary identity t =
    if is_initialized t.index
    then (ok tt, t)
    else on_index (index_leaves identity (non_empty_leaves t.nodes))
        (record t { index = tree_index_new })

-- `Ok(tree)`, after `?`
abbrev pub tree_of : Result MlsError (Unit {0}) × TreeKemPublic → Result MlsError TreeKemPublic
tree_of (ok u, t) = ok t
tree_of (err e, t) = err e
tree_of (fault x, t) = fault x

unfoldable pub import_node_data : IdentityOf → NodeVec → Result MlsError TreeKemPublic
unfolding initialize_index_if_necessary
import_node_data identity nodes =
    tree_of
      (initialize_index_if_necessary identity (record { index = tree_index_new; nodes = nodes }))

unfoldable pub get_leaf_node_with_identity : TreeKemPublic → List ℕ → Option ℕ
unfolding get_leaf_index_with_identity
get_leaf_node_with_identity t identity = get_leaf_index_with_identity t.index identity

unfoldable pub get_leaf_node : TreeKemPublic → ℕ → Result MlsError LeafNode
unfolding borrow_as_leaf
get_leaf_node t index = borrow_as_leaf t.nodes index

-- `self.non_empty_leaves().count() as u32`
unfoldable pub occupied_leaf_count : TreeKemPublic → ℕ
unfolding non_empty_leaves
occupied_leaf_count t = length (non_empty_leaves t.nodes) % 2 ^ 32

unfoldable pub can_support_proposal : TreeKemPublic → ℕ → Bool
unfolding count_supporting_proposal occupied_leaf_count
can_support_proposal t proposal_type =
    count_supporting_proposal t.index proposal_type == occupied_leaf_count t

-- The same two without the feature tree_index: walks over the leaves.
unfoldable pub find_identity :
    IdentityOf → List ℕ → List (ℕ × LeafNode) → Result MlsError (Option ℕ)
find_identity identity wanted [] = ok none
find_identity identity wanted ((i, leaf) ∷ leaves) =
    Common.◌>>=◌ (identity leaf.signing_identity) (λ leaf_id.
      let rest = find_identity identity wanted leaves in
      if bytes_eq leaf_id wanted then ok (some i) else rest)

unfoldable pub get_leaf_node_with_identity_walk :
    IdentityOf → NodeVec → List ℕ → Result MlsError (Option ℕ)
unfolding find_identity non_empty_leaves
get_leaf_node_with_identity_walk identity nodes wanted =
    find_identity identity wanted (non_empty_leaves nodes)

-- `all(|(_, l)| l.capabilities.proposals.contains(&proposal_type))`
unfoldable pub all_support : ℕ → List (ℕ × LeafNode) → Bool
all_support proposal_type [] = true
all_support proposal_type ((i, leaf) ∷ leaves) =
    contains leaf.capabilities.proposals proposal_type && all_support proposal_type leaves

unfoldable pub can_support_proposal_walk : NodeVec → ℕ → Bool
unfolding all_support non_empty_leaves
can_support_proposal_walk nodes proposal_type = all_support proposal_type (non_empty_leaves nodes)

-- `borrow_or_fill_node_as_parent(..).map(|p| ..)`
abbrev pub put_parent :
    List ℕ → ℕ → Result MlsError Parent × NodeVec → Result MlsError (Unit {0}) × NodeVec
put_parent pub_key index (ok p, nodes) = (
  ok tt,
  set nodes index (some (parent (record p { public_key = pub_key; unmerged_leaves = [] }))),
)
put_parent pub_key index (err e, nodes) = (err e, nodes)
put_parent pub_key index (fault x, nodes) = (fault x, nodes)

unfoldable pub update_node : List ℕ → ℕ → Method TreeKemPublic MlsError (Unit {0})
unfolding borrow_or_fill_node_as_parent
update_node pub_key index t =
    let (r, nodes) =
      put_parent pub_key index (borrow_or_fill_node_as_parent t.nodes index pub_key) in
    (r, record t { nodes = nodes })

-- `if let Ok(p) = self.nodes.borrow_as_parent_mut(i.path) { p.unmerged_leaves.push(index) }`
abbrev pub push_unmerged : ℕ → ℕ → Result MlsError Parent → NodeVec → NodeVec
push_unmerged index i (ok p) nodes =
    set nodes i (some (parent (record p { unmerged_leaves = p.unmerged_leaves ++ (index ∷ []) })))
push_unmerged index i (err e) nodes = nodes
push_unmerged index i (fault x) nodes = nodes

unfoldable pub push_unmerged_path : ℕ → List CopathNode → NodeVec → NodeVec
unfolding borrow_as_parent_mut
push_unmerged_path index [] nodes = nodes
push_unmerged_path index (n ∷ path) nodes =
    push_unmerged_path index path
      (push_unmerged index n.path (borrow_as_parent_mut nodes n.path) nodes)

unfoldable pub update_unmerged : ℕ → NodeVec → Result MlsError NodeVec
unfolding nodes_direct_copath push_unmerged_path
update_unmerged index nodes =
    Common.◌>>=◌ (nodes_direct_copath nodes index)
      (λ path. ok (push_unmerged_path index path nodes))

-- `add_leaf`, with the index that `next_empty_leaf` gives
unfoldable pub add_leaf_at : IdentityOf → LeafNode → ℕ → Method TreeKemPublic MlsError ℕ
unfolding index_insert insert_leaf update_unmerged
add_leaf_at identity leaf index = do
  on_index (index_insert identity leaf index)
  on_nodes (λ nodes. insert_leaf nodes index leaf)
  on_nodes (update_unmerged index)
  return index

-- `start.unwrap_or(LeafIndex(0))`
abbrev pub start_or_zero : Option ℕ → ℕ
start_or_zero none = 0
start_or_zero (some start) = start

unfoldable pub add_leaf : IdentityOf → LeafNode → Option ℕ → Method TreeKemPublic MlsError ℕ
unfolding add_leaf_at next_empty_leaf
add_leaf identity leaf start t =
    add_leaf_at identity leaf (next_empty_leaf t.nodes (start_or_zero start)) t
