-- ===== src/TreeKem/Public/Removals.antt =====
-- mls-rs/src/tree_kem/mod.rs: the removals of `batch_edit`, and the old leaves that its updates take away.
use mls_rs_wasm_maybe_sync.Common.{
  ℕ, suc, List, [], ◌∷◌, ◌++◌, ◌||◌, not, if◌then◌else◌, Bool, true, false, Result, ok, err, fault,
}
use mls_rs_wasm_maybe_sync.Common.State.{Method, ◌>>=◌, ◌>>◌, return, lift}
use mls_rs_wasm_maybe_sync.MlsError.{MlsError, updating_non_existing_member}
use mls_rs_wasm_maybe_sync.Proposals.{ProposalInfo, is_by_value, is_by_reference}
use mls_rs_wasm_maybe_sync.TreeKem.Leaf.{LeafNode}
use mls_rs_wasm_maybe_sync.TreeKem.Nodes.{blank_leaf_node, blank_direct_path}
use mls_rs_wasm_maybe_sync.TreeKem.Index.{remove}
use mls_rs_wasm_maybe_sync.TreeKem.Public.{TreeKemPublic, IdentityOf, on_index, on_nodes}

-- `self.index.remove(&old_leaf, &identity)`, with the call of the identity provider before it
unfoldable pub forget : IdentityOf → LeafNode → Method TreeKemPublic MlsError (Unit {0})
unfolding remove
forget identity old_leaf = do
  id ← lift (identity old_leaf.signing_identity)
  on_index (λ t. (ok tt, remove old_leaf id t))

-- What a removal does with the result of `blank_leaf_node`: whether the proposal stays.
unfoldable pub removed :
    IdentityOf
    → Bool
    → ProposalInfo ℕ
    → Result MlsError LeafNode
    → Method TreeKemPublic MlsError Bool
unfolding forget blank_direct_path
removed identity filter p (ok old_leaf) = do
  on_nodes (λ nodes. blank_direct_path nodes p.proposal)
  forget identity old_leaf
  return true
removed identity filter p (err e) =
    if is_by_value p || not filter then lift (err e) else return false
removed identity filter p (fault x) = lift (fault x)

unfoldable pub apply_remove :
    IdentityOf → Bool → ProposalInfo ℕ → Method TreeKemPublic MlsError Bool
unfolding removed blank_leaf_node
apply_remove identity filter p t =
    let (r, nodes) = blank_leaf_node t.nodes p.proposal in
    removed identity filter p r (record t { nodes = nodes })

-- `for i in (0..len).rev()`: the last removal is the first to be applied. Those that stay are returned.
unfoldable pub apply_removes :
    IdentityOf
    → Bool
    → List (ProposalInfo ℕ)
    → Method TreeKemPublic MlsError (List (ProposalInfo ℕ))
unfolding apply_remove
apply_removes identity filter [] = return []
apply_removes identity filter (p ∷ ps) = do
  kept ← apply_removes identity filter ps
  keep ← apply_remove identity filter p
  return (if keep then p ∷ kept else kept)

-- An entry of `partial_updates`: the index, the old leaf, the new leaf, and the number of the proposal.
pub record PartialUpdate : Type 0 where
  pub index : ℕ
  pub old_leaf : LeafNode
  pub new_leaf : LeafNode
  pub position : ℕ

unfoldable pub take_old :
    IdentityOf
    → Bool
    → ℕ
    → ProposalInfo LeafNode
    → ℕ
    → Result MlsError LeafNode
    → Method TreeKemPublic MlsError (List PartialUpdate)
unfolding forget
take_old identity filter i p index (ok old_leaf) = do
  forget identity old_leaf
  return (record { index = index; old_leaf = old_leaf; new_leaf = p.proposal; position = i } ∷ [])
take_old identity filter i p index (err e) =
    if not filter || not (is_by_reference p)
    then lift (err updating_non_existing_member)
    else return []
take_old identity filter i p index (fault x) = lift (fault x)

unfoldable pub take_update :
    IdentityOf
    → Bool
    → ℕ
    → ProposalInfo LeafNode
    → ℕ
    → Method TreeKemPublic MlsError (List PartialUpdate)
unfolding take_old blank_leaf_node
take_update identity filter i p index t =
    let (r, nodes) = blank_leaf_node t.nodes index in
    take_old identity filter i p index r (record t { nodes = nodes })

-- `updates.iter().zip(senders).enumerate()`, from the number `i` on
unfoldable pub take_updates :
    IdentityOf
    → Bool
    → ℕ
    → List (ProposalInfo LeafNode)
    → List ℕ
    → Method TreeKemPublic MlsError (List PartialUpdate)
unfolding take_update
take_updates identity filter i [] senders = return []
take_updates identity filter i (p ∷ ps) [] = return []
take_updates identity filter i (p ∷ ps) (index ∷ senders) = do
  taken ← take_update identity filter i p index
  rest ← take_updates identity filter (suc i) ps senders
  return (taken ++ rest)
