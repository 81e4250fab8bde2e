-- ===== src/TreeMath/Tests.antt =====
-- mls-rs/src/tree_kem/math.rs: runs on small trees.
use mls_rs_wasm_maybe_sync.Common.{ℕ, ◌^◌, ◌<◌, ◌≡◌, ◌≢◌, refl, [], ◌∷◌, some, ok, arith}
use mls_rs_wasm_maybe_sync.MlsError.{MlsError}
use mls_rs_wasm_maybe_sync.TreeMath.{
  direct_copath, copath_loop, parent_sibling, parent_of, leaf_lca_level, bfs_new, trailing_ones,
  root, is_in_tree, left_unchecked, right_unchecked,
}
use mls_rs_wasm_maybe_sync.TreeMath.Levels.{node_at}
use mls_rs_wasm_maybe_sync.TreeMath.Path.{spec_path, direct_copath-spec_path}
use mls_rs_wasm_maybe_sync.TreeMath.Leaves.{shr, leaf_lca_level_lem}
use mls_rs_wasm_maybe_sync.TreeMath.Bfs.{collect, below, bfs_levels}

copath_of_four :
    direct_copath {E = MlsError} 4 4
    ≡ ok (record { path = 5; copath = 6 } ∷ record { path = 3; copath = 1 } ∷ [])
unfolding direct_copath is_in_tree root copath_loop parent_sibling parent_of trailing_ones
    left_unchecked right_unchecked
copath_of_four = refl

direct_copath-spec_path_example :
    direct_copath {E = MlsError} (node_at 0 2) (2 ^ 2) ≡ ok (spec_path 2 0 2)
direct_copath-spec_path_example =
    direct_copath-spec_path {E = MlsError} 0 2 2 2 (omega arith) (omega arith) (omega arith)

leaf_lca_level_lem_example :
    (k : ℕ) × (leaf_lca_level {E = MlsError} 5 6 ≡ ok k)
    × (shr 5 k ≡ shr 6 k)
    × ((i : ℕ) → i < k → shr 5 i ≢ shr 6 i)
leaf_lca_level_lem_example = leaf_lca_level_lem {E = MlsError} 5 6 (omega arith) (omega arith)

bfs_levels_example : collect (2 ^ 3) (bfs_new (2 ^ 2)) ≡ some (node_at 2 0 ∷ below 2 1)
bfs_levels_example = bfs_levels 2 (omega arith)
