-- ===== src/TreeKem/Public/UpdateEdits.antt =====
-- mls-rs/src/tree_kem/mod.rs: the updates of `batch_edit`, one by one, and how they are given up.
use mls_rs_wasm_maybe_sync.Common.{
  ℕ, zero, suc, List, [], ◌∷◌, ◌++◌, map, ◌||◌, not, if◌then◌else◌, Bool, true, false, Option, none,
  some, Result, ok, err, fault, panicked,
}
use mls_rs_wasm_maybe_sync.Common
use mls_rs_wasm_maybe_sync.Common.State.{Method, ◌>>◌, return, lift}
use mls_rs_wasm_maybe_sync.MlsError.{MlsError}
use mls_rs_wasm_maybe_sync.TreeKem.Leaf.{LeafNode}
use mls_rs_wasm_maybe_sync.TreeKem.Nodes.{NodeVec, insert_leaf}
use mls_rs_wasm_maybe_sync.TreeKem.Index.{TreeIndex, index_insert}
use mls_rs_wasm_maybe_sync.TreeKem.Public.{TreeKemPublic, IdentityOf, on_index, on_nodes}
use mls_rs_wasm_maybe_sync.TreeKem.Public.Removals.{PartialUpdate}

pub record Updates : Type 0 where
  pub removed_leaves : List LeafNode
  pub updated_indices : List ℕ
  pub bad_indices : List ℕ

-- `removed_leaves.into_iter().zip(updated_indices.iter()).for_each(..)`
unfoldable pub put_back : List LeafNode → List ℕ → NodeVec → Result MlsError NodeVec
unfolding insert_leaf
put_back [] indices nodes = ok nodes
put_back (leaf ∷ leaves) [] nodes = ok nodes
put_back (leaf ∷ leaves) (index ∷ indices) nodes =
    Common.◌>>=◌ (insert_leaf nodes index leaf) (put_back leaves indices)

abbrev put_index : TreeIndex → Method TreeKemPublic MlsError (Unit {0})
put_index index t = (ok tt, record t { index = index })

-- `self.index = index_clone`, and the leaves that updates have replaced. The loop is left.
unfoldable pub revert_updates : TreeIndex → Updates → Method TreeKemPublic MlsError Updates
unfolding put_back
revert_updates index_clone u = do
  put_index index_clone
  on_nodes (put_back u.removed_leaves u.updated_indices)
  return (record u { updated_indices = [] })

-- When the old leaf is entered again after its update was refused.
unfoldable pub restored :
    TreeIndex
    → PartialUpdate
    → Updates
    → (Updates → Method TreeKemPublic MlsError Updates)
    → Result MlsError (Unit {0})
    → Method TreeKemPublic MlsError Updates
unfolding revert_updates insert_leaf
restored index_clone p u next (ok done) = do
  on_nodes (λ nodes. insert_leaf nodes p.index p.old_leaf)
  next (record u { bad_indices = u.bad_indices ++ (p.position ∷ []) })
restored index_clone p u next (err e) = revert_updates index_clone u
restored index_clone p u next (fault x) = lift (fault x)

-- When the new leaf is entered, or refused.
unfoldable pub updated :
    IdentityOf
    → Bool
    → TreeIndex
    → PartialUpdate
    → Updates
    → (Updates → Method TreeKemPublic MlsError Updates)
    → Result MlsError (Unit {0})
    → Method TreeKemPublic MlsError Updates
unfolding restored index_insert insert_leaf
updated identity filter index_clone p u next (ok done) t =
    (on_nodes (λ nodes. insert_leaf nodes p.index p.new_leaf)
        >> next (record u {
          removed_leaves = u.removed_leaves ++ (p.old_leaf ∷ []);
          updated_indices = u.updated_indices ++ (p.index ∷ []);
        }))
      t
updated identity filter index_clone p u next (err e) t =
    if not filter
    then (err e, t)
    else (let (r, t') = on_index (index_insert identity p.old_leaf p.index) t in
        restored index_clone p u next r t')
updated identity filter index_clone p u next (fault x) t = (fault x, t)

unfoldable pub apply_updates :
    IdentityOf
    → Bool
    → TreeIndex
    → List PartialUpdate
    → Updates
    → Method TreeKemPublic MlsError Updates
unfolding updated index_insert
apply_updates identity filter index_clone [] u t = (ok u, t)
apply_updates identity filter index_clone (p ∷ ps) u t =
    let (r, t') = on_index (index_insert identity p.new_leaf p.index) t in
    updated identity filter index_clone p u (apply_updates identity filter index_clone ps) r t'
