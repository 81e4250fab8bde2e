-- ===== src/TreeKem/Nodes/Filtered.antt =====
-- mls-rs/src/tree_kem/node.rs: the depth of the tree, and `filtered` against section 4.1.2 of RFC 9420.
use mls_rs_wasm_maybe_sync.Common.{
  ℕ, zero, suc, ◌+◌, ◌/◌, ◌%◌, ◌^◌, ◌≤◌, ◌<◌, ◌≡◌, refl, ap, ◌∙◌, List, [], ◌∷◌, length, Bool, ok,
  ◌>>=◌, arith,
}
use mls_rs_wasm_maybe_sync.TreeMath.{direct_copath}
use mls_rs_wasm_maybe_sync.TreeMath.Levels.{node_at}
use mls_rs_wasm_maybe_sync.TreeMath.Path.{sibling_of, spec_path, direct_copath-spec_path}
use mls_rs_wasm_maybe_sync.TreeKem.Nodes.{
  NodeVec, node_index, log_ceil, total_leaf_count, filter_path, filtered, nodes_direct_copath,
}
use mls_rs_wasm_maybe_sync.TreeKem.Nodes.Resolution.{spec_resolution}
use mls_rs_wasm_maybe_sync.TreeKem.Nodes.Emptiness.{is_nil, is_resolution_empty-spec_resolution}
use native.Mathlib.Nat.{pow-suc, pow-le-pow_right}

log_ceil_le : (w k n : ℕ) → n ≤ 2 ^ k → log_ceil w n ≤ k
unfolding log_ceil
log_ceil_le zero k n h = omega arith
log_ceil_le (suc w) zero n h = ground (arith)
log_ceil_le (suc w) (suc k) n h =
    ground (arith, log_ceil_le w k ((n + 1) / 2) (omega (arith, pow-suc 2 k)))

-- The level of the root.
abbrev pub depth : NodeVec → ℕ
depth nodes = log_ceil 64 (length nodes % 2 ^ 32 / 2 + 1)

pub depth_small : (nodes : NodeVec) → depth nodes < 32
depth_small nodes = omega (arith, log_ceil_le 64 31 (length nodes % 2 ^ 32 / 2 + 1) (omega arith))

module _ (nodes : NodeVec) where
  -- For each of `n` levels from level `l` on, whether the resolution of the sibling is empty that the path
  -- above position `q` leaves.
  pub spec_filtered : ℕ → ℕ → ℕ → List Bool
  spec_filtered zero l q = []
  spec_filtered (suc n) l q =
      is_nil (spec_resolution nodes l (sibling_of q)) ∷ spec_filtered n (suc l) (q / 2)

  filter_path-spec :
      (n l q : ℕ) → l + n < 32 → filter_path nodes (spec_path n l q) ≡ ok (spec_filtered n l q)
  unfolding filter_path spec_path spec_filtered
  filter_path-spec zero l q h = refl
  filter_path-spec (suc n) l q h = rw (
    is_resolution_empty-spec_resolution nodes l (sibling_of q) (omega arith),
    filter_path-spec n (suc l) (q / 2) (omega arith),
    filter_path,
    spec_path,
    spec_filtered,
  )

  -- For a leaf of the tree, filtered ends, and marks in the direct path of the leaf each node whose child on
  -- the copath has an empty resolution.
  pub filtered-spec_filtered :
      (index : ℕ)
      → index < total_leaf_count nodes
      → filtered nodes index ≡ ok (spec_filtered (depth nodes) 0 index)
  unfolding filtered nodes_direct_copath
  filtered-spec_filtered index h =
      let small : depth nodes ≤ 31 = omega (arith, depth_small nodes) in
      let u32 : 2 ^ depth nodes ≤ 2 ^ 31 =
        pow-le-pow_right {n = 2} (omega arith) {i = depth nodes} {j = 31} small in
      let leaf : node_index index ≡ node_at 0 index = omega (arith, h, u32) in
      ap (λ x. direct_copath x (total_leaf_count nodes) >>= filter_path nodes) leaf
      ∙ ap (λ r. r >>= filter_path nodes)
          (direct_copath-spec_path 0 (depth nodes) index (depth nodes) (omega arith)
            (depth_small nodes) h)
      ∙ filter_path-spec (depth nodes) 0 index (omega (arith, depth_small nodes))
