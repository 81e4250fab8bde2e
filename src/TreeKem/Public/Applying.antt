-- ===== src/TreeKem/Public/Applying.antt =====
-- mls-rs/src/tree_kem/mod.rs: the new leaves of the updates of `batch_edit`, and the paths above them, when
-- nothing is filtered.
use mls_rs_wasm_maybe_sync.Common.{
  ℕ, ◌*◌, ◌%◌, ◌<◌, ◌≡◌, ◌≢◌, refl, sym, ap, subst, ◌∙◌, List, [], ◌∷◌, ◌++◌, length, length-set,
  set, All, false, ◌==◌, ltb, lt→ltb, some, ok, arith, ◌⊎◌,
}
use mls_rs_wasm_maybe_sync.Common.State.{Ensures}
use mls_rs_wasm_maybe_sync.TreeKem.Leaf.{LeafNode}
use mls_rs_wasm_maybe_sync.TreeKem.Nodes.{NodeVec, node_in, leaf, leaf_of, grow, insert_leaf}
use mls_rs_wasm_maybe_sync.TreeKem.Nodes.Places.{node_in-set, node_in-set_other}
use mls_rs_wasm_maybe_sync.TreeKem.Index.{TreeIndex}
use mls_rs_wasm_maybe_sync.TreeKem.Index.Members.{IsIndexOf}
use mls_rs_wasm_maybe_sync.TreeKem.Public.{TreeKemPublic, IdentityOf}
use mls_rs_wasm_maybe_sync.TreeKem.Public.Adding.{taken, rejected, broken, Indexed-cases}
use mls_rs_wasm_maybe_sync.TreeKem.Public.Edits.{blank_paths}
use mls_rs_wasm_maybe_sync.TreeKem.Public.Removals.{PartialUpdate}
use mls_rs_wasm_maybe_sync.TreeKem.Public.UpdateEdits.{Updates, updated, apply_updates}
use mls_rs_wasm_maybe_sync.TreeKem.Public.Invariant.{
  length-members, inserted-IsTree, same_leaves-IsTree,
}
use mls_rs_wasm_maybe_sync.TreeKem.Public.Paths.{blank_direct_path_leaves}
use mls_rs_wasm_maybe_sync.TreeKem.Public.Removing.{Returns, IsEditable}
use mls_rs_wasm_maybe_sync.TreeKem.Public.Updating.{AreDistinct, IsPending, All-map}

-- Inside the vector, `insert_leaf` is an assignment.
pub insert_leaf_inside :
    (nodes : NodeVec) (index : ℕ) (l : LeafNode)
    → index * 2 < length nodes
    → insert_leaf nodes index l ≡ ok (set nodes (index * 2) (some (leaf l)))
unfolding insert_leaf
insert_leaf_inside nodes index l inside =
    let near : ltb (length nodes) (index * 2) ≡ false = ground (arith, inside) in
    let some_node : (length nodes == 0) ≡ false = ground (arith, inside) in
    let same : grow nodes (index * 2) ≡ nodes = rw (near, some_node) in rw (same, lt→ltb _ _ inside)

-- What the updates leave: the indices of the updated leaves are in the vector, and none was refused.
pub record HasUpdated (identity : IdentityOf) (n : ℕ) (u : Updates) (s : TreeKemPublic)
    : Type 0 where
  pub editable : IsEditable identity n s
  pub inside : All (λ index. index * 2 < length s.nodes) u.updated_indices
  pub none_bad : u.bad_indices ≡ []

module _ (identity : IdentityOf) (returns : Returns identity) (n : ℕ) where
  pub All-snoc : (P : ℕ → Type 0) (xs : List ℕ) (x : ℕ) → All P xs → P x → All P (xs ++ (x ∷ []))
  All-snoc P [] x h p = (p, tt)
  All-snoc P (y ∷ ys) x (q, h) p = (q, All-snoc P ys x h p)

  -- The tree after the index has taken a pending leaf.
  entered-IsEditable :
      (p : PartialUpdate) (id : List ℕ) (out : TreeIndex) (t : TreeKemPublic)
      → (h : IsEditable identity n t) → IsPending t.nodes p
      → identity p.new_leaf.signing_identity ≡ ok id
      → IsIndexOf out
          (record { index = p.index; leaf = p.new_leaf; identity = id } ∷ h.tree.members)
      → IsEditable identity n
          (record { index = out; nodes = set t.nodes (p.index * 2) (some (leaf p.new_leaf)) })
  entered-IsEditable p id out t h (blank, inside) known indexed =
      let twice : p.index * 2 ≡ 2 * p.index = omega arith in
      let count = length-set t.nodes (p.index * 2) (some (leaf p.new_leaf)) in
      record {
        tree =
            inserted-IsTree identity (record { index = p.index; leaf = p.new_leaf; identity = id })
              t.nodes _ out h.tree.members h.tree.listed known
              (record {
                without = blank;
                within =
                    ap
                      (λ i.
                        leaf_of (node_in (set t.nodes (p.index * 2) (some (leaf p.new_leaf))) i))
                      (sym twice)
                    ∙ ap leaf_of (node_in-set t.nodes (p.index * 2) _ inside);
                others = λ i other. sym (
                    ap leaf_of (
                      node_in-set_other t.nodes (p.index * 2) (2 * i) _
                        (λ e. other (omega (arith, e)))));
              })
              indexed;
        ends = subst (λ k. (k ≡ 0) ⊎ (k % 2 ≡ 1)) (sym count) h.ends;
        room = omega (arith, h.room, count);
      }

  -- The other pending leaves stay pending.
  pub still_pending :
      (nodes : NodeVec) (p q : PartialUpdate) (l : LeafNode)
      → q.index ≢ p.index
      → IsPending nodes q
      → IsPending (set nodes (p.index * 2) (some (leaf l))) q
  still_pending nodes p q l other (blank, inside) = (
    ap leaf_of
          (node_in-set_other nodes (p.index * 2) (2 * q.index) _ (λ e. other (omega (arith, e))))
        ∙ blank,
    omega (arith, inside, length-set nodes (p.index * 2) (some (leaf l))),
  )

  pub All-pending :
      (nodes : NodeVec) (p : PartialUpdate) (l : LeafNode) (ps : List PartialUpdate)
      → All (λ q. q.index ≢ p.index) ps
      → All (IsPending nodes) ps
      → All (IsPending (set nodes (p.index * 2) (some (leaf l)))) ps
  All-pending nodes p l [] others h = tt
  All-pending nodes p l (q ∷ ps) (other, others) (here, h) =
      (still_pending nodes p q l other here, All-pending nodes p l ps others h)

  pub apply_updates-HasUpdated :
      (index_clone : TreeIndex) (ps : List PartialUpdate) (u : Updates) (t : TreeKemPublic)
      → HasUpdated identity n u t
      → All (IsPending t.nodes) ps
      → AreDistinct ps
      → Ensures (HasUpdated identity n) (apply_updates identity false index_clone ps u t)
  unfolding apply_updates
  apply_updates-HasUpdated index_clone [] u t h pending distinct = h
  apply_updates-HasUpdated index_clone (p ∷ ps) u t h (here, pending) (others, distinct) =
      elim (Indexed-cases identity p.new_leaf p.index t.index h.editable.tree.members
        h.editable.tree.indexed
        (omega (
          arith,
          h.editable.room,
          length-members identity t.nodes h.editable.tree.members h.editable.tree.listed,
        ))) [
          | broken x unknown q ↦ absurd (returns p.new_leaf.signing_identity x unknown)
          | rejected e out q kept ↦ rw q (unfold updated in tt)
          | taken id out known q indexed ↦
              let nodes : NodeVec = set t.nodes (p.index * 2) (some (leaf p.new_leaf)) in
              let count = length-set t.nodes (p.index * 2) (some (leaf p.new_leaf)) in
              rw q (
                unfold updated in
                rw (insert_leaf_inside t.nodes p.index p.new_leaf here.1) (
                  apply_updates-HasUpdated index_clone ps _ (record { index = out; nodes = nodes })
                    (record {
                      editable = entered-IsEditable p id out t h.editable here known indexed;
                      inside =
                          All-snoc _ u.updated_indices p.index
                            (All-map _ _ u.updated_indices (λ i lt. omega (arith, lt, count))
                              h.inside)
                            (omega (arith, here.1, count));
                      none_bad = h.none_bad;
                    })
                    (All-pending t.nodes p p.new_leaf ps others pending) distinct))
        ]

  pub blank_paths-IsEditable :
      (indices : List ℕ) (index : TreeIndex) (nodes : NodeVec)
      → IsEditable identity n (record { index = index; nodes = nodes })
      → All (λ i. i * 2 < length nodes) indices
      → (out : NodeVec) × (blank_paths indices nodes ≡ ok out)
        × IsEditable identity n (record { index = index; nodes = out })
  unfolding blank_paths
  blank_paths-IsEditable [] index nodes h inside = (nodes, refl, h)
  blank_paths-IsEditable (i ∷ indices) index nodes h (here, inside) =
      let (out, path, same) = blank_direct_path_leaves nodes i (omega (arith, h.room)) here in
      let (last, rest, k) =
        blank_paths-IsEditable indices index out
          (record {
            tree =
                same_leaves-IsTree identity (record { index = index; nodes = nodes }) out h.tree
                  same.0;
            ends = subst (λ k. (k ≡ 0) ⊎ (k % 2 ≡ 1)) (sym same.1) h.ends;
            room = omega (arith, h.room, same.1);
          })
          (All-map _ _ indices (λ i lt. omega (arith, lt, same.1)) inside) in
      (last, rw path rest, k)
