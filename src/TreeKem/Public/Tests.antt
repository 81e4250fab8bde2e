-- ===== src/TreeKem/Public/Tests.antt =====
-- mls-rs/src/tree_kem/mod.rs: runs on trees of two and three leaves.
use mls_rs_wasm_maybe_sync.Common.{
  All, List, ℕ, ◌≡◌, refl, [], ◌∷◌, true, false, none, some, ok, arith, inr,
}
use mls_rs_wasm_maybe_sync.Common.State.{Ensures}
use mls_rs_wasm_maybe_sync.Proposals.{ProposalBundle, member, by_value, by_reference}
use mls_rs_wasm_maybe_sync.TreeKem.Leaf.{LeafNode, basic, update}
use mls_rs_wasm_maybe_sync.TreeMath.{
  direct_copath, copath_loop, parent_sibling, root, left_unchecked, right_unchecked, is_in_tree,
  parent_of, trailing_ones,
}
use mls_rs_wasm_maybe_sync.TreeKem.Nodes.{
  empty_leaf_from, trim_loop, log_ceil, validate_index, borrow_as_leaf_mut, nodes_direct_copath,
  borrow_or_fill_node_as_parent, leaf, NodeVec, node_in, non_empty_leaves, leaves,
}
use mls_rs_wasm_maybe_sync.TreeKem.Nodes.Leaves.{IsNextEmpty}
use mls_rs_wasm_maybe_sync.TreeKem.Index.{
  TreeIndex, tree_index_new, lookup, or_insert, insert, insert_new, in_use_unsupported, entered,
  unique, adjust, index_insert, is_initialized, remove, remove_key,
}
use mls_rs_wasm_maybe_sync.TreeKem.Public.{
  update_node, TreeKemPublic, IdentityOf, index_leaves, initialize_index_if_necessary,
  import_node_data, add_leaf, can_support_proposal, can_support_proposal_walk,
  get_leaf_node_with_identity, get_leaf_node_with_identity_walk,
}
use mls_rs_wasm_maybe_sync.TreeKem.Public.Adding.{LeafAdded, add_leaf-LeafAdded}
use mls_rs_wasm_maybe_sync.TreeKem.Public.Batch.{batch_edit-IsTree}
use mls_rs_wasm_maybe_sync.TreeKem.Public.Edits.{batch_edit}
use mls_rs_wasm_maybe_sync.TreeKem.Public.Removals.{PartialUpdate}
use mls_rs_wasm_maybe_sync.TreeKem.Public.UpdateEdits.{apply_updates}
use mls_rs_wasm_maybe_sync.TreeKem.Public.Importing.{Gives, import_node_data-IsTree}
use mls_rs_wasm_maybe_sync.TreeKem.Public.Invariant.{IsTree}
use mls_rs_wasm_maybe_sync.TreeKem.Public.Edits.{no_updates}
use mls_rs_wasm_maybe_sync.TreeKem.Public.Updating.{IsPending}
use mls_rs_wasm_maybe_sync.TreeKem.Public.UpdatePath.{
  ValidatedUpdatePath, update_nodes, after_leaf, apply_update_path,
}
use mls_rs_wasm_maybe_sync.TreeKem.Public.PathApplied.{PathApplied, apply_update_path-PathApplied}
use mls_rs_wasm_maybe_sync.TreeKem.Public.Removing.{Returns}
use mls_rs_wasm_maybe_sync.TreeKem.Public.Reverting.{apply_updates-Settled}
use mls_rs_wasm_maybe_sync.TreeKem.Public.Outcomes.{Settled}
use mls_rs_wasm_maybe_sync.TreeKem.Public.Views.{
  get_leaf_node_with_identity-get_leaf_node_with_identity_walk,
  can_support_proposal-can_support_proposal_walk,
}

-- A leaf with a public key and a signature key.
abbrev with_keys : ℕ → ℕ → LeafNode
with_keys hpke sig = record {
  public_key = hpke ∷ [];
  signing_identity = record { signature_key = sig ∷ []; credential = basic (sig ∷ []) };
  capabilities = record {
    protocol_versions = 1 ∷ [];
    cipher_suites = 1 ∷ [];
    extensions = [];
    proposals = 9 ∷ [];
    credentials = 1 ∷ [];
  };
  leaf_node_source = update;
  extensions = [];
  signature = [];
}

abbrev by_key : IdentityOf
by_key s = ok s.signature_key

by_key-Returns : Returns by_key
by_key-Returns s x h = cc

abbrev three : NodeVec
three =
    some (leaf (with_keys 1 1))
    ∷ none
    ∷ some (leaf (with_keys 2 2))
    ∷ none
    ∷ some (leaf (with_keys 3 3))
    ∷ []

import_node_data-IsTree_example :
    Gives (λ t. IsTree by_key t × (t.nodes ≡ three)) (import_node_data by_key three)
import_node_data-IsTree_example = import_node_data-IsTree by_key three by_key-Returns (omega arith)

abbrev three_index : TreeIndex
three_index = (index_leaves by_key (non_empty_leaves three) tree_index_new).1

abbrev tree_of_three : TreeKemPublic
tree_of_three = record { index = three_index; nodes = three }

tree_of_three-IsTree : IsTree by_key tree_of_three
unfolding import_node_data initialize_index_if_necessary is_initialized index_leaves index_insert
    insert insert_new in_use_unsupported entered lookup or_insert adjust unique non_empty_leaves
    leaves
tree_of_three-IsTree = import_node_data-IsTree_example.0

add_leaf-LeafAdded_example :
    (place : ℕ) × IsNextEmpty three 0 place
    × LeafAdded by_key
        (with_keys 4 4)
        place
        tree_of_three
        (add_leaf by_key (with_keys 4 4) none tree_of_three)
add_leaf-LeafAdded_example =
    add_leaf-LeafAdded by_key (with_keys 4 4) none 0 tree_of_three tree_of_three-IsTree
      by_key-Returns (inr refl) (inr (refl, refl)) (omega arith) (omega arith)

get_leaf_node_with_identity-get_leaf_node_with_identity_walk_example :
    get_leaf_node_with_identity_walk by_key three (2 ∷ [])
    ≡ ok (get_leaf_node_with_identity tree_of_three (2 ∷ []))
get_leaf_node_with_identity-get_leaf_node_with_identity_walk_example =
    get_leaf_node_with_identity-get_leaf_node_with_identity_walk by_key tree_of_three (2 ∷ [])
      tree_of_three-IsTree

can_support_proposal-can_support_proposal_walk_example :
    can_support_proposal tree_of_three 9 ≡ can_support_proposal_walk three 9
can_support_proposal-can_support_proposal_walk_example =
    can_support_proposal-can_support_proposal_walk by_key tree_of_three 9 tree_of_three-IsTree
      (omega arith)

-- The third leaf is removed, the first updated, and a leaf added.
abbrev edits : ProposalBundle
edits = record {
  additions = record { proposal = with_keys 4 4; sender = member 1; source = by_value } ∷ [];
  updates = record { proposal = with_keys 5 1; sender = member 0; source = by_reference [] } ∷ [];
  update_senders = 0 ∷ [];
  removals = record { proposal = 2; sender = member 1; source = by_value } ∷ [];
}

batch_edit-IsTree_example :
    Ensures (λ edited s. IsTree by_key s) (batch_edit by_key false edits tree_of_three)
batch_edit-IsTree_example =
    batch_edit-IsTree by_key edits tree_of_three by_key-Returns tree_of_three-IsTree (inr refl)
      (omega arith) (omega arith, tt) (omega arith, tt)

-- The first member takes the public key of the second, and the second that of the third: the update of the
-- second and its old leaf are both refused. Both leaves have been taken away.
abbrev two_updates : List PartialUpdate
two_updates =
    record { index = 0; old_leaf = with_keys 1 1; new_leaf = with_keys 2 1; position = 0 }
    ∷ record { index = 1; old_leaf = with_keys 2 2; new_leaf = with_keys 3 2; position = 1 }
    ∷ []

abbrev two_blank : TreeKemPublic
two_blank = record {
  index = (index_leaves by_key ((2, with_keys 3 3) ∷ []) tree_index_new).1;
  nodes = none ∷ none ∷ none ∷ none ∷ some (leaf (with_keys 3 3)) ∷ [];
}

two_updates-IsPending : All (IsPending two_blank.nodes) two_updates
unfolding node_in
two_updates-IsPending = ((refl, omega arith), ((refl, omega arith), tt))

apply_updates-Settled_example :
    Settled by_key two_blank.index two_updates no_updates two_blank
      (apply_updates by_key true two_blank.index two_updates no_updates two_blank)
apply_updates-Settled_example =
    apply_updates-Settled by_key two_updates two_blank by_key-Returns two_updates-IsPending
      (((λ e. omega (arith, e)), tt), (tt, tt))

-- The third member sends a path with a new leaf, and a key for the parent that it has.
abbrev sent_path : ValidatedUpdatePath
sent_path = record {
  leaf_node = with_keys 6 3;
  nodes = some (record { public_key = 7 ∷ []; encrypted_path_secret = [] }) ∷ none ∷ [];
}

apply_update_path-PathApplied_example :
    Ensures
      (λ u s. PathApplied by_key 2 (with_keys 6 3) tree_of_three s)
      (apply_update_path by_key 2 sent_path tree_of_three)
apply_update_path-PathApplied_example =
    apply_update_path-PathApplied by_key 2 sent_path tree_of_three by_key-Returns
      tree_of_three-IsTree (omega arith) (omega arith)

path_applied : (apply_update_path by_key 2 sent_path tree_of_three).0 ≡ ok tt
unfolding apply_update_path after_leaf update_nodes update_node borrow_as_leaf_mut validate_index
    nodes_direct_copath direct_copath borrow_or_fill_node_as_parent remove index_insert insert
    insert_new in_use_unsupported entered lookup or_insert adjust unique remove_key copath_loop
    parent_sibling root left_unchecked right_unchecked node_in index_leaves non_empty_leaves leaves
    log_ceil is_in_tree parent_of trailing_ones
path_applied = refl

leaves_edited :
    non_empty_leaves (batch_edit by_key false edits tree_of_three).1.nodes
    ≡ (0, with_keys 5 1) ∷ (1, with_keys 2 2) ∷ (2, with_keys 4 4) ∷ []
unfolding batch_edit non_empty_leaves validate_index log_ceil node_in direct_copath is_in_tree root
    copath_loop parent_sibling parent_of trailing_ones left_unchecked right_unchecked insert lookup
    index_leaves or_insert unique adjust remove_key entered in_use_unsupported insert_new leaves
    empty_leaf_from trim_loop
leaves_edited = refl

-- The same two updates in a whole edit: the second leaf is gone.
abbrev chained : ProposalBundle
chained = record {
  additions = [];
  updates =
      record { proposal = with_keys 2 1; sender = member 0; source = by_reference [] }
      ∷ record { proposal = with_keys 3 2; sender = member 1; source = by_reference [] }
      ∷ [];
  update_senders = 0 ∷ 1 ∷ [];
  removals = [];
}

second_lost :
    non_empty_leaves (batch_edit by_key true chained tree_of_three).1.nodes
    ≡ (0, with_keys 1 1) ∷ (2, with_keys 3 3) ∷ []
unfolding batch_edit non_empty_leaves validate_index log_ceil node_in insert lookup index_leaves
    or_insert unique adjust remove_key
second_lost = refl
