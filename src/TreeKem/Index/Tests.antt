-- ===== src/TreeKem/Index/Tests.antt =====
-- mls-rs/src/tree_kem/tree_index.rs: runs on an index of one leaf.
use mls_rs_wasm_maybe_sync.Common.{ℕ, ◌≡◌, ◌↔◌, refl, List, [], ◌∷◌, map, Result, ok, arith}
use mls_rs_wasm_maybe_sync.MlsError.{MlsError}
use mls_rs_wasm_maybe_sync.TreeKem.Leaf.{SigningIdentity, basic, update}
use mls_rs_wasm_maybe_sync.TreeKem.Index.{
  TreeIndex, tree_index_new, lookup, or_insert, insert, insert_new, in_use_unsupported, unique,
  adjust, entered, remove, index_insert, index_insert_walk,
}
use mls_rs_wasm_maybe_sync.TreeKem.Index.Members.{tree_index_new-IsIndexOf, IsIndexOf}
use mls_rs_wasm_maybe_sync.TreeKem.Index.Removal.{remove-IsIndexOf}
use mls_rs_wasm_maybe_sync.TreeKem.Index.Insertion.{members_after, insert-IsIndexOf}
use mls_rs_wasm_maybe_sync.TreeKem.Index.Walk.{entry, index_insert-index_insert_walk}
use mls_rs_wasm_maybe_sync.TreeKem.Index.Owners.{Member}

abbrev member : ℕ → Member
member n = record {
  index = n;
  leaf = record {
    public_key = n ∷ [];
    signing_identity = record { signature_key = n ∷ []; credential = basic (n ∷ []) };
    capabilities = record {
      protocol_versions = 1 ∷ [];
      cipher_suites = 1 ∷ [];
      extensions = [];
      proposals = 9 ∷ [];
      credentials = 1 ∷ 2 ∷ [];
    };
    leaf_node_source = update;
    extensions = [];
    signature = [];
  };
  identity = n ∷ [];
}

-- An identity provider that takes the signature key for the identity.
abbrev by_key : SigningIdentity → Result MlsError (List ℕ)
by_key s = ok s.signature_key

abbrev one_leaf : TreeIndex
one_leaf = (insert 0 (member 0).leaf (0 ∷ []) tree_index_new).1

one_leaf-IsIndexOf : IsIndexOf one_leaf (member 0 ∷ [])
unfolding insert lookup or_insert
one_leaf-IsIndexOf =
    (insert-IsIndexOf (member 0) tree_index_new [] tree_index_new-IsIndexOf (omega arith))

insert-IsIndexOf_example :
    IsIndexOf
      (insert 1 (member 1).leaf (1 ∷ []) one_leaf).1
      (members_after (member 1) (member 0 ∷ []) (insert 1 (member 1).leaf (1 ∷ []) one_leaf).0)
insert-IsIndexOf_example =
    insert-IsIndexOf (member 1) one_leaf (member 0 ∷ []) one_leaf-IsIndexOf (omega arith)

abbrev two_leaves : TreeIndex
two_leaves = (insert 1 (member 1).leaf (1 ∷ []) one_leaf).1

two_leaves-IsIndexOf : IsIndexOf two_leaves (member 1 ∷ member 0 ∷ [])
unfolding insert insert_new in_use_unsupported unique adjust entered lookup or_insert
two_leaves-IsIndexOf =
    (insert-IsIndexOf (member 1) one_leaf (member 0 ∷ []) one_leaf-IsIndexOf (omega arith))

remove-IsIndexOf_example : IsIndexOf (remove (member 0).leaf (0 ∷ []) two_leaves) (member 1 ∷ [])
remove-IsIndexOf_example =
    remove-IsIndexOf (member 0) (member 1 ∷ []) [] two_leaves two_leaves-IsIndexOf (omega arith)

index_insert-index_insert_walk_example :
    ((index_insert by_key (member 1).leaf 1 one_leaf).0 ≡ ok tt)
    ↔ (index_insert_walk by_key (map entry (member 0 ∷ [])) (member 1).leaf 1 ≡ ok tt)
index_insert-index_insert_walk_example =
    index_insert-index_insert_walk by_key (member 1) one_leaf (member 0 ∷ []) refl (refl, tt)
      ((λ e. omega arith), tt) one_leaf-IsIndexOf (omega arith)
