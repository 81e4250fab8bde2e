-- ===== src/TreeKem/Public/Paths.antt =====
-- mls-rs/src/tree_kem/node.rs and mod.rs: what a change along a direct path leaves of the leaves.
use mls_rs_wasm_maybe_sync.Common.{
  ℕ, zero, suc, ◌+◌, ◌*◌, ◌/◌, ◌%◌, ◌^◌, ◌≤◌, ◌<◌, ◌≡◌, refl, ap, ◌∙◌, List, [], ◌∷◌, length,
  length-set, length-append, ◌++◌, ltb, ltb→lt, ◌==◌, true, false, panicked, set, All, leb,
  Bool-cases, none, some, ok, fault, arith, inl, inr,
}
use mls_rs_wasm_maybe_sync.TreeMath.{CopathNode, direct_copath}
use mls_rs_wasm_maybe_sync.TreeMath.Levels.{node_at, node_at-suc}
use mls_rs_wasm_maybe_sync.TreeMath.Path.{spec_path, direct_copath-spec_path}
use mls_rs_wasm_maybe_sync.TreeKem.Leaf.{LeafNode}
use mls_rs_wasm_maybe_sync.TreeKem.Nodes.{
  leaf, NodeVec, node_index, leaf_of, log_ceil, total_leaf_count, nodes_direct_copath, blank_all,
  blank_direct_path, grow, insert_leaf,
}
use mls_rs_wasm_maybe_sync.TreeKem.Nodes.Filtered.{depth, depth_small}
use mls_rs_wasm_maybe_sync.TreeKem.Nodes.Places.{node_in-set_other}
use mls_rs_wasm_maybe_sync.TreeKem.Nodes.Walks.{leaf_at}
use native.Mathlib.Nat.{pow-suc, one-le-pow}

pub log_ceil_holds : (w n : ℕ) → n ≤ 2 ^ w → n ≤ 2 ^ log_ceil w n
unfolding log_ceil
log_ceil_holds zero n h = h
log_ceil_holds (suc w) n h = elim (Bool-cases (leb n 1)) [
  | inl low ↦ ground (arith, low, one-le-pow (log_ceil (suc w) n) 2)
  | inr high ↦
      let halves : (n + 1) / 2 ≤ 2 ^ log_ceil w ((n + 1) / 2) =
        log_ceil_holds w ((n + 1) / 2) (omega (arith, pow-suc 2 w)) in
      let one_more : log_ceil (suc w) n ≡ suc (log_ceil w ((n + 1) / 2)) = rw (log_ceil, high) in
      omega (arith, halves, ap (λ (k : ℕ). 2 ^ k) one_more, pow-suc 2 (log_ceil w ((n + 1) / 2)))
]

-- A leaf of the vector is a leaf of the tree.
leaf_in_tree :
    (nodes : NodeVec) (index : ℕ)
    → length nodes < 2 ^ 32
    → index * 2 < length nodes
    → index < total_leaf_count nodes
leaf_in_tree nodes index small inside =
    omega (arith, log_ceil_holds 64 (length nodes % 2 ^ 32 / 2 + 1) (omega arith))

pub nodes_direct_copath_lem :
    (nodes : NodeVec) (index : ℕ)
    → length nodes < 2 ^ 32
    → index * 2 < length nodes
    → nodes_direct_copath nodes index ≡ ok (spec_path (depth nodes) 0 index)
unfolding nodes_direct_copath
nodes_direct_copath_lem nodes index small inside =
    let place : node_index index ≡ node_at 0 index = omega arith in
    ap (λ x. direct_copath x (total_leaf_count nodes)) place
    ∙ direct_copath-spec_path 0 (depth nodes) index (depth nodes) (omega arith) (depth_small nodes)
        (leaf_in_tree nodes index small inside)

pub spec_path_odd : (n l q : ℕ) → All (λ (c : CopathNode). c.path % 2 ≡ 1) (spec_path n l q)
unfolding spec_path
spec_path_odd zero l q = tt
spec_path_odd (suc n) l q = (omega (arith, node_at-suc l (q / 2)), spec_path_odd n (suc l) (q / 2))

-- The same leaves, on a vector of the same length.
abbrev pub SameLeaves : NodeVec → NodeVec → Type 0
SameLeaves out nodes = ((i : ℕ) → leaf_at out i ≡ leaf_at nodes i) × (length out ≡ length nodes)

pub SameLeaves-trans : (a b c : NodeVec) → SameLeaves a b → SameLeaves b c → SameLeaves a c
SameLeaves-trans a b c h k = (λ i. h.0 i ∙ k.0 i, h.1 ∙ k.1)

blank_all_leaves :
    (path : List CopathNode) (nodes : NodeVec)
    → All (λ (c : CopathNode). c.path % 2 ≡ 1) path
    → SameLeaves (blank_all path nodes) nodes
blank_all_leaves [] nodes h = (λ i. refl, refl)
blank_all_leaves (n ∷ path) nodes (odd, h) =
    let rest : SameLeaves (blank_all path (set nodes n.path none)) (set nodes n.path none) =
      blank_all_leaves path (set nodes n.path none) h in
    (
      λ i.
          rest.0 i
          ∙ ap leaf_of (node_in-set_other nodes n.path (2 * i) none (λ e. omega (arith, odd, e))),
      rest.1 ∙ length-set nodes n.path none,
    )

pub blank_direct_path_leaves :
    (nodes : NodeVec) (index : ℕ)
    → length nodes < 2 ^ 32
    → index * 2 < length nodes
    → (out : NodeVec) × (blank_direct_path nodes index ≡ ok out) × SameLeaves out nodes
unfolding blank_direct_path
blank_direct_path_leaves nodes index small inside = (
  blank_all (spec_path (depth nodes) 0 index) nodes,
  rw (nodes_direct_copath_lem nodes index small inside),
  blank_all_leaves (spec_path (depth nodes) 0 index) nodes (spec_path_odd (depth nodes) 0 index),
)

length-grow : (nodes : NodeVec) (i : ℕ) → length (grow nodes i) ≤ length nodes + 2
length-grow nodes i = elim (Bool-cases (ltb (length nodes) i)) [
  | inl beyond ↦
      let two : grow nodes i ≡ nodes ++ (none ∷ none ∷ []) = rw beyond in
      omega (arith, ap (λ (z : NodeVec). length z) two, length-append nodes (none ∷ none ∷ []))
  | inr near ↦ elim (Bool-cases (length nodes == 0)) [
    | inl empty ↦
        let one : grow nodes i ≡ nodes ++ (none ∷ []) = rw (near, empty) in
        omega (arith, ap (λ (z : NodeVec). length z) one, length-append nodes (none ∷ []))
    | inr some_node ↦
        let same : grow nodes i ≡ nodes = rw (near, some_node) in
        omega (arith, ap (λ (z : NodeVec). length z) same)
  ]
]

-- The length after `insert_leaf`.
pub length-insert_leaf :
    (nodes out : NodeVec) (index : ℕ) (l : LeafNode)
    → insert_leaf nodes index l ≡ ok out
    → (index * 2 < length out) × (length out ≤ length nodes + 2)
unfolding insert_leaf
length-insert_leaf nodes out index l h =
    elim (Bool-cases (ltb (index * 2) (length (grow nodes (index * 2))))) [
      | inr outside ↦ absurd (cc (panics outside))
      | inl inside ↦
          let same : set (grow nodes (index * 2)) (index * 2) (some (leaf l)) ≡ out =
            cc (puts inside) in
          let count = length-set (grow nodes (index * 2)) (index * 2) (some (leaf l)) in
          let equal = ap (λ (z : NodeVec). length z) same in
          (
            omega (arith, ltb→lt _ _ inside, count, equal),
            omega (arith, length-grow nodes (index * 2), count, equal),
          )
    ]
  where
    panics :
        ltb (index * 2) (length (grow nodes (index * 2))) ≡ false
        → insert_leaf nodes index l ≡ fault panicked
    panics outside = unfold insert_leaf in rw outside

    puts :
        ltb (index * 2) (length (grow nodes (index * 2))) ≡ true
        → insert_leaf nodes index l ≡ ok (set (grow nodes (index * 2)) (index * 2) (some (leaf l)))
    puts inside = unfold insert_leaf in rw inside
