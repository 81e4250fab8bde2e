-- ===== src/TreeKem/Public/PathApplied.antt =====
-- mls-rs/src/tree_kem/mod.rs: what `apply_update_path` does to the leaves and the index.
use mls_rs_wasm_maybe_sync.Common.{
  ℕ, ◌+◌, ◌*◌, ◌^◌, ◌<◌, ◌≡◌, ◌≢◌, refl, sym, ap, subst, ◌∙◌, List, length, length-set, set, Option,
  none, some, Result, ok, err, fault, gives, fails, breaks, Result-cases, arith,
}
use mls_rs_wasm_maybe_sync.Common.State.{Ensures, Ensures-bind}
use mls_rs_wasm_maybe_sync.MlsError.{MlsError}
use mls_rs_wasm_maybe_sync.TreeMath.Path.{spec_path}
use mls_rs_wasm_maybe_sync.TreeKem.Leaf.{LeafNode}
use mls_rs_wasm_maybe_sync.TreeKem.Nodes.{Node, leaf, NodeVec, node_in, node_index, leaf_of}
use mls_rs_wasm_maybe_sync.TreeKem.Nodes.Filtered.{depth}
use mls_rs_wasm_maybe_sync.TreeKem.Nodes.Places.{node_in-set, node_in-set_other}
use mls_rs_wasm_maybe_sync.TreeKem.Nodes.Walks.{leaf_at}
use mls_rs_wasm_maybe_sync.TreeKem.Index.{TreeIndex, index_insert, remove}
use mls_rs_wasm_maybe_sync.TreeKem.Index.Members.{IsIndexOf}
use mls_rs_wasm_maybe_sync.TreeKem.Public.{TreeKemPublic, IdentityOf, on_index}
use mls_rs_wasm_maybe_sync.TreeKem.Public.UpdatePath.{
  ValidatedUpdatePath, update_nodes, after_leaf, apply_update_path,
}
use mls_rs_wasm_maybe_sync.TreeKem.Public.Paths.{nodes_direct_copath_lem, spec_path_odd}
use mls_rs_wasm_maybe_sync.TreeKem.Public.Invariant.{
  IsTree, removed-IsTree, inserted-IsTree, length-members,
}
use mls_rs_wasm_maybe_sync.TreeKem.Public.Removing.{Returns, IsBlanked, taken-IsBlanked}
use mls_rs_wasm_maybe_sync.TreeKem.Public.Adding.{taken, rejected, broken, Indexed-cases}
use mls_rs_wasm_maybe_sync.TreeKem.Public.PathNodes.{
  SameTree, update_nodes_leaves, Borrowed-cases, present, missing,
}

-- The tree after the update path of a sender.
pub record PathApplied (identity : IdentityOf) (sender : ℕ) (leaf_node : LeafNode)
    (t s : TreeKemPublic) : Type 0 where
  pub tree : IsTree identity s
  pub installed : leaf_at s.nodes sender ≡ some leaf_node
  pub others : (i : ℕ) → i ≢ sender → leaf_at s.nodes i ≡ leaf_at t.nodes i

module _ (identity : IdentityOf) (returns : Returns identity) (sender : ℕ)
    (update_path : ValidatedUpdatePath) where
  -- When the index without the old leaf takes the new one.
  entered-PathApplied :
      (index : TreeIndex) (nodes : NodeVec)
      → (tree : IsTree identity (record { index = index; nodes = nodes }))
      → leaf_at nodes sender ≡ none
      → length nodes + 3 < 2 ^ 32
      → (s : TreeKemPublic) → IsIndexOf s.index tree.members
      → leaf_at s.nodes sender ≡ some update_path.leaf_node
      → ((i : ℕ) → i ≢ sender → leaf_at s.nodes i ≡ leaf_at nodes i)
      → Ensures
          (λ u s'. IsTree identity s' × (s'.nodes ≡ s.nodes))
          (on_index (index_insert identity update_path.leaf_node sender) s)
  entered-PathApplied index nodes tree blank small s indexed there others =
      elim (Indexed-cases identity update_path.leaf_node sender s.index tree.members indexed
        (omega (arith, small, length-members identity nodes tree.members tree.listed))) [
          | broken x unknown q ↦ absurd (returns update_path.leaf_node.signing_identity x unknown)
          | rejected e out q kept ↦ rw q tt
          | taken id out known q held ↦ rw q (
            inserted-IsTree identity
                (record { index = sender; leaf = update_path.leaf_node; identity = id }) nodes
                s.nodes out tree.members tree.listed known
                (record { without = blank; within = there; others = λ i e. sym (others i e) }) held,
            refl,
          )
        ]

  -- After the leaf of the sender has been replaced.
  after_leaf-PathApplied :
      (l : LeafNode) (id : List ℕ) (t : TreeKemPublic) (nodes : NodeVec)
      → IsTree identity t
      → length t.nodes + 3 < 2 ^ 32
      → identity l.signing_identity ≡ ok id
      → IsBlanked sender l t.nodes nodes
      → (put : NodeVec) → length put ≡ length t.nodes
      → leaf_at put sender ≡ some update_path.leaf_node
      → ((i : ℕ) → i ≢ sender → leaf_at put i ≡ leaf_at nodes i)
      → Ensures
          (λ u s. PathApplied identity sender update_path.leaf_node t s)
          (after_leaf identity sender update_path l id (record t { nodes = put }))
  unfolding after_leaf
  after_leaf-PathApplied l id t nodes h small known blanked put count there others =
      let rest : IsTree identity (record { index = remove l id t.index; nodes = nodes }) =
        removed-IsTree identity sender l id t nodes h known blanked.apart (omega (arith, small)) in
      let path =
        nodes_direct_copath_lem put sender (omega (arith, small, count))
          (omega (arith, blanked.inside, count)) in
      rw path (
        Ensures-bind (λ u s. SameTree (record t { nodes = put }) s)
          (λ u s. PathApplied identity sender update_path.leaf_node t s) _
          (update_nodes update_path.nodes (spec_path (depth put) 0 sender)
            (record t { nodes = put }))
          (update_nodes_leaves update_path.nodes (spec_path (depth put) 0 sender)
            (record t { nodes = put }) (spec_path_odd (depth put) 0 sender))
          (λ u s k.
            whole s k
              (on_index (index_insert identity update_path.leaf_node sender)
                (record s { index = remove l id s.index }))
              (entered-PathApplied (remove l id t.index) nodes rest blanked.apart.without
                (omega (arith, small, blanked.same_length))
                (record s { index = remove l id s.index })
                (subst (λ x. IsIndexOf (remove l id x) rest.members) (sym k.0) rest.indexed)
                (k.1 sender ∙ there) (λ i e. k.1 i ∙ others i e))))
    where
      whole :
          (s : TreeKemPublic)
          → SameTree (record t { nodes = put }) s
          → (z : Result MlsError (Unit {0}) × TreeKemPublic)
          → Ensures (λ u s'. IsTree identity s' × (s'.nodes ≡ s.nodes)) z
          → Ensures (λ u s'. PathApplied identity sender update_path.leaf_node t s') z
      whole s k (ok u, s') (tree, same) = record {
        tree = tree;
        installed = ap (λ n. leaf_at n sender) same ∙ k.1 sender ∙ there;
        others = λ i e. ap (λ n. leaf_at n i) same ∙ k.1 i ∙ others i e ∙ blanked.apart.others i e;
      }
      whole s k (err e, s') j = tt
      whole s k (fault x, s') j = absurd j

-- On a tree of fewer than 2 ^ 32 - 3 nodes whose index tells what a walk over its leaves would, with a
-- sender below 2 ^ 31 and an identity provider that does not panic, apply_update_path never panics, and when
-- it succeeds the leaf of the sender is the new one, every other leaf is as before, and the index again
-- tells what a walk over the leaves would.
pub apply_update_path-PathApplied :
    (identity : IdentityOf) (sender : ℕ) (update_path : ValidatedUpdatePath) (t : TreeKemPublic)
    → Returns identity
    → IsTree identity t
    → sender < 2 ^ 31
    → length t.nodes + 3 < 2 ^ 32
    → Ensures
        (λ u s. PathApplied identity sender update_path.leaf_node t s)
        (apply_update_path identity sender update_path t)
unfolding apply_update_path
apply_update_path-PathApplied identity sender update_path t returns h place small =
    elim (Borrowed-cases t.nodes sender) [
      | missing e q ↦ rw q tt
      | present l q here ↦ elim (Result-cases (identity l.signing_identity)) [
        | breaks x unknown ↦ absurd (returns l.signing_identity x unknown)
        | fails e unknown ↦ rw (q, unknown) tt
        | gives id known ↦
            let blanked = taken-IsBlanked t.nodes sender l place here in
            let k : ℕ = node_index sender in
            let double : 2 * sender ≡ k = omega (arith, place) in
            let n : Option Node = some (leaf update_path.leaf_node) in
            rw (q, known)
              (after_leaf-PathApplied identity returns sender update_path l id t _ h small known
                blanked (set t.nodes k n) (length-set t.nodes k n)
                (ap (λ i. leaf_of (node_in (set t.nodes k n) i)) double
                  ∙ ap leaf_of (node_in-set t.nodes k n (omega (arith, blanked.inside, place))))
                (λ i other.
                  let apart : k ≢ 2 * i = λ e. other (omega (arith, e, place)) in
                  ap leaf_of (node_in-set_other t.nodes k (2 * i) n apart)
                  ∙ sym (blanked.apart.others i other)))
      ]
    ]
