-- ===== src/TreeKem/Tests.antt =====
-- mls-rs/src/tree_kem/lifetime.rs and node.rs: runs, those of node.rs on a tree of four leaves, of which the second is blank and the
-- parent of the last two has the third as an unmerged leaf.
use mls_rs_wasm_maybe_sync.Common.{ℕ, ◌≡◌, refl, List, [], ◌∷◌, none, some, ok, arith}
use mls_rs_wasm_maybe_sync.TreeMath.{CopathNode}
use mls_rs_wasm_maybe_sync.TreeMath.Levels.{node_at}
use mls_rs_wasm_maybe_sync.TreeKem.Leaf.{LeafNode, basic, update}
use mls_rs_wasm_maybe_sync.TreeKem.Lifetimes.{
  seconds, days, years, LastsOrOverflows, seconds_counted, years_lem,
}
use mls_rs_wasm_maybe_sync.TreeKem.Nodes.{
  leaf, parent, NodeVec, log_ceil, get_resolution_index, filtered,
}
use mls_rs_wasm_maybe_sync.TreeKem.Nodes.Resolution.{
  spec_resolution, get_resolution_index-spec_resolution,
}
use mls_rs_wasm_maybe_sync.TreeKem.Nodes.Filtered.{depth, spec_filtered, filtered-spec_filtered}

abbrev a_leaf : ℕ → LeafNode
a_leaf n = record {
  public_key = n ∷ [];
  signing_identity = record { signature_key = n ∷ []; credential = basic (n ∷ []) };
  capabilities = record {
    protocol_versions = [];
    cipher_suites = [];
    extensions = [];
    proposals = [];
    credentials = [];
  };
  leaf_node_source = update;
  extensions = [];
  signature = [];
}

abbrev four_leaves : NodeVec
four_leaves =
    some (leaf (a_leaf 1))
    ∷ none
    ∷ none
    ∷ none
    ∷ some (leaf (a_leaf 3))
    ∷ some (parent (record { public_key = 5 ∷ []; parent_hash = []; unmerged_leaves = 2 ∷ [] }))
    ∷ some (leaf (a_leaf 4))
    ∷ []

get_resolution_index-spec_resolution_example :
    get_resolution_index four_leaves (node_at 2 0) ≡ ok (spec_resolution four_leaves 2 0)
get_resolution_index-spec_resolution_example =
    get_resolution_index-spec_resolution four_leaves 2 0 (omega arith)

filtered-spec_filtered_example :
    filtered four_leaves 0 ≡ ok (spec_filtered four_leaves (depth four_leaves) 0 0)
unfolding log_ceil
filtered-spec_filtered_example = filtered-spec_filtered four_leaves 0 (omega arith)

abbrev path_of_two : List CopathNode
path_of_two = record { path = 5; copath = 6 } ∷ record { path = 3; copath = 1 } ∷ []

-- 200 years are more seconds than `u32` counts.
years_lem_example : LastsOrOverflows 1700000000 (seconds_counted 200) (years 1700000000 200)
years_lem_example = years_lem 1700000000 200 (omega arith) (omega arith) (omega arith)

cut_short : years 1700000000 200 ≡ ok (record { not_before = 1699996400; not_after = 3712232704 })
unfolding years days seconds
cut_short = refl
