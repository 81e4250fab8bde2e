-- ===== src/TreeKem/Public/PathNodes.antt =====
-- mls-rs/src/tree_kem/mod.rs: the new keys of an update path leave the leaves, and the leaf of its sender.
use mls_rs_wasm_maybe_sync.Common.{
  ℕ, zero, suc, ◌+◌, ◌*◌, ◌%◌, ◌^◌, ◌<◌, ◌≤◌, ◌≡◌, ◌≢◌, refl, sym, ap, subst, ◌∙◌, List, [], ◌∷◌,
  length, length-set, set, get_elem?, All, Option, none, some, Result, ok, err, fault, ok_or,
  >>=-eq-ok, gives, fails, breaks, Result-cases, arith, ◌⊎◌, inl, inr,
}
use mls_rs_wasm_maybe_sync.Common
use mls_rs_wasm_maybe_sync.Common.State.{Ensures, Ensures-bind}
use mls_rs_wasm_maybe_sync.MlsError.{MlsError, invalid_node_index, expected_node}
use mls_rs_wasm_maybe_sync.TreeMath.{CopathNode}
use mls_rs_wasm_maybe_sync.TreeKem.Leaf.{LeafNode}
use mls_rs_wasm_maybe_sync.TreeKem.Nodes.{
  Node, leaf, parent, Parent, NodeVec, node_in, node_index, leaf_of, as_parent, validate_index,
  borrow_as_leaf_mut, borrow_or_fill_node_as_parent,
}
use mls_rs_wasm_maybe_sync.TreeKem.Nodes.Places.{node_in-get_elem?, node_in-set_other}
use mls_rs_wasm_maybe_sync.TreeKem.Nodes.Blanking.{
  validate_index-cases, borrow_or_fill_node_as_parent_lem,
}
use mls_rs_wasm_maybe_sync.TreeKem.Nodes.Walks.{leaf_at}
use mls_rs_wasm_maybe_sync.TreeKem.Public.{TreeKemPublic, put_parent, update_node}
use mls_rs_wasm_maybe_sync.TreeKem.Public.UpdatePath.{UpdatePathNode, update_nodes}

-- The same index, and the same leaves.
abbrev pub SameTree : TreeKemPublic → TreeKemPublic → Type 0
SameTree t s = (s.index ≡ t.index) × ((i : ℕ) → leaf_at s.nodes i ≡ leaf_at t.nodes i)

put_parent_leaves :
    (key : List ℕ) (k : ℕ) (t : TreeKemPublic) (r : Result MlsError Parent) (out : NodeVec)
    → k % 2 ≡ 1
    → ((x : Common.Fault) → r ≢ fault x)
    → ((i : ℕ) → k ≢ i → node_in out i ≡ node_in t.nodes i)
    → Ensures
        (λ u s. SameTree t s)
        ((put_parent key k (r, out)).0, record t { nodes = (put_parent key k (r, out)).1 })
put_parent_leaves key k t (err e) out odd steady others = tt
put_parent_leaves key k t (fault x) out odd steady others = absurd (steady x refl)
put_parent_leaves key k t (ok p) out odd steady others = (
  refl,
  λ i.
      let other : k ≢ 2 * i = λ e. omega (arith, e, odd) in
      ap leaf_of (node_in-set_other out k (2 * i) _ other ∙ others (2 * i) other),
)

-- A new key of a parent leaves the leaves.
update_node_leaves :
    (key : List ℕ) (k : ℕ) (t : TreeKemPublic)
    → k % 2 ≡ 1
    → Ensures (λ u s. SameTree t s) (update_node key k t)
unfolding update_node
update_node_leaves key k t odd = elim (validate_index-cases t.nodes k) [
  | inl valid ↦
      let (out, filled, there, others, inside) =
        borrow_or_fill_node_as_parent_lem t.nodes k key valid in
      rw filled (
        put_parent_leaves key k t (as_parent (node_in out k)) out odd
          (parent_or_error (node_in out k)) others)
  | inr beyond ↦ unfold borrow_or_fill_node_as_parent in rw beyond tt
]
  where
    parent_or_error : (n : Option Node) (x : Common.Fault) → as_parent n ≢ fault x
    parent_or_error none x h = cc
    parent_or_error (some (leaf l)) x h = cc
    parent_or_error (some (parent p)) x h = cc

pub update_nodes_leaves :
    (nodes : List (Option UpdatePathNode)) (path : List CopathNode) (t : TreeKemPublic)
    → All (λ (c : CopathNode). c.path % 2 ≡ 1) path
    → Ensures (λ u s. SameTree t s) (update_nodes nodes path t)
unfolding update_nodes
update_nodes_leaves [] path t odd = (refl, λ i. refl)
update_nodes_leaves (n ∷ nodes) [] t odd = (refl, λ i. refl)
update_nodes_leaves (none ∷ nodes) (pn ∷ path) t (here, odd) = update_nodes_leaves nodes path t odd
update_nodes_leaves (some n ∷ nodes) (pn ∷ path) t (here, odd) =
    Ensures-bind (λ u s. SameTree t s) (λ u s. SameTree t s) (λ u. update_nodes nodes path)
      (update_node n.public_key pn.path t) (update_node_leaves n.public_key pn.path t here)
      (λ u s k.
        Ensures-trans t s k (update_nodes nodes path s) (update_nodes_leaves nodes path s odd))
  where
    Ensures-trans :
        (t s : TreeKemPublic)
        → SameTree t s
        → (z : Result MlsError (Unit {0}) × TreeKemPublic) → Ensures (λ u s'. SameTree s s') z
        → Ensures (λ u s'. SameTree t s') z
    Ensures-trans t s k (ok u, s') j = (j.0 ∙ k.0, λ i. j.1 i ∙ k.1 i)
    Ensures-trans t s k (err e, s') j = tt
    Ensures-trans t s k (fault x, s') j = absurd j

-- The leaf that `borrow_as_leaf_mut` refers to.
pub data Borrowed (nodes : NodeVec) (index : ℕ) : Type 0 where
  present :
      (l : LeafNode)
      → borrow_as_leaf_mut nodes index ≡ ok l
      → node_in nodes (node_index index) ≡ some (leaf l)
      → Borrowed nodes index
  missing : (e : MlsError) → borrow_as_leaf_mut nodes index ≡ err e → Borrowed nodes index

pub Borrowed-cases : (nodes : NodeVec) (index : ℕ) → Borrowed nodes index
unfolding borrow_as_leaf_mut
Borrowed-cases nodes index = elim (validate_index-cases nodes (node_index index)) [
  | inr beyond ↦ missing (invalid_node_index (node_index index)) (rw beyond refl)
  | inl valid ↦ by_element (get_elem? nodes (node_index index)) refl valid
]
  where
    by_element :
        (o : Option (Option Node))
        → get_elem? nodes (node_index index) ≡ o
        → validate_index nodes (node_index index) ≡ ok (node_index index)
        → Borrowed nodes index
    by_element none h valid = missing (invalid_node_index (node_index index)) (rw (valid, h) refl)
    by_element (some none) h valid = missing expected_node (rw (valid, h) refl)
    by_element (some (some (parent p))) h valid = missing expected_node (rw (valid, h) refl)
    by_element (some (some (leaf l))) h valid =
        present l (rw (valid, h) refl) (node_in-get_elem? nodes (node_index index) _ h)
