-- ===== src/TreeKem/Public/Unmerged.antt =====
-- mls-rs/src/tree_kem/mod.rs: what `update_unmerged` does to the parents, and that it leaves the leaves.
use mls_rs_wasm_maybe_sync.Common.{
  ℕ, zero, suc, ◌*◌, ◌^◌, ◌<◌, ◌≡◌, refl, sym, ap, subst, ◌∙◌, List, [], ◌∷◌, length, length-set,
  ◌++◌, ◌==◌, false, get_elem?, set, leb, Bool-cases, Option, none, some, ok, fault, ok_or,
  >>=-eq-ok, ◌>>=◌, Result-cases, gives, fails, breaks, arith, inl, inr, if◌then◌else◌,
  Option-cases, ==_iff, ◌≢◌, err, Result,
}
use mls_rs_wasm_maybe_sync.MlsError.{invalid_node_index, MlsError}
use mls_rs_wasm_maybe_sync.TreeMath.{CopathNode}
use mls_rs_wasm_maybe_sync.TreeMath.Path.{spec_path}
use mls_rs_wasm_maybe_sync.TreeKem.Nodes.{
  Node, leaf, parent, Parent, NodeVec, node_in, leaf_of, as_parent, validate_index,
  borrow_as_parent_mut, next_power_of_two,
}
use mls_rs_wasm_maybe_sync.TreeKem.Nodes.Blanking.{validate_index-cases}
use mls_rs_wasm_maybe_sync.TreeKem.Nodes.Filtered.{depth}
use mls_rs_wasm_maybe_sync.TreeKem.Nodes.Places.{
  node_in-get_elem?, get_elem?-node_in, node_in_inside, node_in-set, node_in-set_other,
}
use mls_rs_wasm_maybe_sync.TreeKem.Public.{push_unmerged, push_unmerged_path, update_unmerged}
use mls_rs_wasm_maybe_sync.TreeKem.Public.Paths.{
  SameLeaves, SameLeaves-trans, log_ceil_holds, nodes_direct_copath_lem,
}

-- A parent in the place of a parent.
set_parent_leaves :
    (nodes : NodeVec) (k j : ℕ) (p q : Parent)
    → get_elem? nodes k ≡ some (some (parent p))
    → leaf_of (node_in (set nodes k (some (parent q))) j) ≡ leaf_of (node_in nodes j)
unfolding node_in
set_parent_leaves [] k j p q h = absurd (cc)
set_parent_leaves (x ∷ xs) zero zero p q h =
    let here : x ≡ some (parent p) = cc in ap leaf_of (sym here)
set_parent_leaves (x ∷ xs) zero (suc j) p q h = refl
set_parent_leaves (x ∷ xs) (suc k) zero p q h = refl
set_parent_leaves (x ∷ xs) (suc k) (suc j) p q h = set_parent_leaves xs k j p q h

parent_there :
    (nodes : NodeVec) (i : ℕ) (p : Parent)
    → borrow_as_parent_mut nodes i ≡ ok p
    → get_elem? nodes i ≡ some (some (parent p))
unfolding borrow_as_parent_mut validate_index
parent_there nodes i p h =
    let (k, valid, rest) =
      >>=-eq-ok (validate_index nodes i)
        (λ k. ok_or (get_elem? nodes k) (invalid_node_index i) >>= as_parent) h in
    let (n, there, last) =
      >>=-eq-ok (ok_or (get_elem? nodes k) (invalid_node_index i)) as_parent rest in
    let same : k ≡ i = elim (validate_index-cases nodes i) [
      | inl valid_i ↦ cc
      | inr beyond ↦ absurd (cc)
    ] in
    let node : n ≡ some (parent p) = is_parent n p last in
    ap (get_elem? nodes) (sym same) ∙ found (get_elem? nodes k) n there ∙ ap some node
  where
    is_parent : (n : Option Node) (p : Parent) → as_parent n ≡ ok p → n ≡ some (parent p)
    is_parent none p h = absurd (cc)
    is_parent (some (leaf l)) p h = absurd (cc)
    is_parent (some (parent q)) p h = cc

    found :
        (o : Option (Option Node)) (n : Option Node)
        → ok_or o (invalid_node_index i) ≡ ok n
        → o ≡ some n
    found none n h = absurd (cc)
    found (some m) n h = cc

push_unmerged_leaves :
    (nodes : NodeVec) (index i : ℕ)
    → SameLeaves (push_unmerged index i (borrow_as_parent_mut nodes i) nodes) nodes
push_unmerged_leaves nodes index i = elim (Result-cases (borrow_as_parent_mut nodes i)) [
  | gives p here ↦
      subst (λ r. SameLeaves (push_unmerged index i r nodes) nodes) (sym here)
        (
          (λ j. set_parent_leaves nodes i (2 * j) p _ (parent_there nodes i p here)),
          length-set nodes i _,
        )
  | fails e here ↦
      subst (λ r. SameLeaves (push_unmerged index i r nodes) nodes) (sym here) (λ j. refl, refl)
  | breaks x here ↦
      subst (λ r. SameLeaves (push_unmerged index i r nodes) nodes) (sym here) (λ j. refl, refl)
]

push_unmerged_path_leaves :
    (index : ℕ) (path : List CopathNode) (nodes : NodeVec)
    → SameLeaves (push_unmerged_path index path nodes) nodes
unfolding push_unmerged_path
push_unmerged_path_leaves index [] nodes = (λ i. refl, refl)
push_unmerged_path_leaves index (n ∷ path) nodes =
    SameLeaves-trans _ _ _
      (push_unmerged_path_leaves index path
        (push_unmerged index n.path (borrow_as_parent_mut nodes n.path) nodes))
      (push_unmerged_leaves nodes index n.path)

-- A parent with one more unmerged leaf; another node as it is.
abbrev pub with_unmerged : ℕ → Option Node → Option Node
with_unmerged index none = none
with_unmerged index (some (leaf l)) = some (leaf l)
with_unmerged index (some (parent p)) =
    some (parent (record p { unmerged_leaves = p.unmerged_leaves ++ (index ∷ []) }))

-- The node at a place, once a leaf has been added to the unmerged leaves along a path.
abbrev pub merged_at : ℕ → List CopathNode → ℕ → Option Node → Option Node
merged_at index [] i n = n
merged_at index (c ∷ path) i n =
    merged_at index path i (if c.path == i then with_unmerged index n else n)

borrow_parent :
    (nodes : NodeVec) (k : ℕ) (p : Parent)
    → length nodes < 2 ^ 32
    → node_in nodes k ≡ some (parent p)
    → borrow_as_parent_mut nodes k ≡ ok p
unfolding borrow_as_parent_mut validate_index
borrow_parent nodes k p small here =
    let inside : k < length nodes = node_in_inside nodes k (parent p) here in
    let reached : leb (next_power_of_two (length nodes)) k ≡ false =
      ground (arith, inside, log_ceil_holds 64 (length nodes) (omega (arith, small))) in
    rw (reached, get_elem?-node_in nodes k inside, here) refl

push_unmerged_node :
    (nodes : NodeVec) (index k i : ℕ)
    → length nodes < 2 ^ 32
    → node_in (push_unmerged index k (borrow_as_parent_mut nodes k) nodes) i
      ≡ (if k == i then with_unmerged index (node_in nodes i) else node_in nodes i)
push_unmerged_node nodes index k i small = elim (Option-cases (node_in nodes k)) [
  | inr (parent p, here) ↦
      ap (λ r. node_in (push_unmerged index k r nodes) i) (borrow_parent nodes k p small here)
      ∙ elim (Bool-cases (k == i)) [
        | inl hit ↦
            let same : k ≡ i = (==_iff k i).0 hit in
            ap (node_in (set nodes k (with_unmerged index (some (parent p))))) (sym same)
            ∙ node_in-set nodes k _ (node_in_inside nodes k (parent p) here)
            ∙ ap (with_unmerged index) (sym here ∙ ap (node_in nodes) same)
            ∙ ap (λ b. if b then with_unmerged index (node_in nodes i) else node_in nodes i)
                (sym hit)
        | inr miss ↦
            node_in-set_other nodes k i _ (λ e. absurd (cc ((==_iff k i).1 e)))
            ∙ ap (λ b. if b then with_unmerged index (node_in nodes i) else node_in nodes i)
                (sym miss)
      ]
  | inr (leaf l, here) ↦
      stays (λ p e. absurd (cc (sym here ∙ e))) (ap (with_unmerged index) here ∙ sym here)
  | inl blank ↦
      stays (λ p e. absurd (cc (sym blank ∙ e))) (ap (with_unmerged index) blank ∙ sym blank)
]
  where
    kept :
        (r : Result MlsError Parent)
        → borrow_as_parent_mut nodes k ≡ r
        → ((p : Parent) → node_in nodes k ≢ some (parent p))
        → push_unmerged index k r nodes ≡ nodes
    kept (ok p) e other =
        absurd (other p (node_in-get_elem? nodes k (some (parent p)) (parent_there nodes k p e)))
    kept (err x) e other = refl
    kept (fault x) e other = refl

    stays :
        ((p : Parent) → node_in nodes k ≢ some (parent p))
        → with_unmerged index (node_in nodes k) ≡ node_in nodes k
        → node_in (push_unmerged index k (borrow_as_parent_mut nodes k) nodes) i
          ≡ (if k == i then with_unmerged index (node_in nodes i) else node_in nodes i)
    stays other same =
        ap (λ z. node_in z i) (kept (borrow_as_parent_mut nodes k) refl other)
        ∙ elim (Bool-cases (k == i)) [
          | inl hit ↦
              subst (λ j. node_in nodes j ≡ with_unmerged index (node_in nodes j))
                ((==_iff k i).0 hit) (sym same)
              ∙ ap (λ b. if b then with_unmerged index (node_in nodes i) else node_in nodes i)
                  (sym hit)
          | inr miss ↦
              ap (λ b. if b then with_unmerged index (node_in nodes i) else node_in nodes i)
                (sym miss)
        ]

push_unmerged_path_nodes :
    (index : ℕ) (path : List CopathNode) (nodes : NodeVec) (i : ℕ)
    → length nodes < 2 ^ 32
    → node_in (push_unmerged_path index path nodes) i ≡ merged_at index path i (node_in nodes i)
unfolding push_unmerged_path
push_unmerged_path_nodes index [] nodes i small = refl
push_unmerged_path_nodes index (n ∷ path) nodes i small =
    let same = (push_unmerged_leaves nodes index n.path).1 in
    push_unmerged_path_nodes index path _ i (omega (arith, small, same))
    ∙ ap (merged_at index path i) (push_unmerged_node nodes index n.path i small)

pub update_unmerged_leaves :
    (nodes : NodeVec) (index : ℕ)
    → length nodes < 2 ^ 32
    → index * 2 < length nodes
    → (out : NodeVec) × (update_unmerged index nodes ≡ ok out)
      × SameLeaves out nodes
      × ((i : ℕ)
          → node_in out i ≡ merged_at index (spec_path (depth nodes) 0 index) i (node_in nodes i))
unfolding update_unmerged
update_unmerged_leaves nodes index small inside = (
  push_unmerged_path index (spec_path (depth nodes) 0 index) nodes,
  rw (nodes_direct_copath_lem nodes index small inside),
  push_unmerged_path_leaves index (spec_path (depth nodes) 0 index) nodes,
  λ i. push_unmerged_path_nodes index (spec_path (depth nodes) 0 index) nodes i small,
)
