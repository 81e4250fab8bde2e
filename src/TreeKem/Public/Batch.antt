-- ===== src/TreeKem/Public/Batch.antt =====
-- mls-rs/src/tree_kem/mod.rs: `batch_edit` keeps the index in step with the nodes, when nothing is filtered.
use mls_rs_wasm_maybe_sync.Common.{
  ℕ, ◌+◌, ◌*◌, ◌^◌, ◌≤◌, ◌<◌, ◌≡◌, refl, sym, ap, subst, List, [], ◌∷◌, length, All, false, Option,
  some, ok, arith, inl,
}
use mls_rs_wasm_maybe_sync.Common.State.{return, Ensures, Ensures-bind}
use mls_rs_wasm_maybe_sync.Proposals.{ProposalInfo, ProposalBundle, is_by_value}
use mls_rs_wasm_maybe_sync.TreeKem.Leaf.{LeafNode}
use mls_rs_wasm_maybe_sync.TreeKem.Nodes.{NodeVec, leaf_of, trim}
use mls_rs_wasm_maybe_sync.TreeKem.Nodes.Blanking.{trim-IsTrimmed}
use mls_rs_wasm_maybe_sync.TreeKem.Nodes.Leaves.{EndsWithLeaf}
use mls_rs_wasm_maybe_sync.TreeKem.Public.{TreeKemPublic, IdentityOf, add_leaf}
use mls_rs_wasm_maybe_sync.TreeKem.Public.Adding.{leaf_added, leaf_refused, add_leaf-LeafAdded}
use mls_rs_wasm_maybe_sync.TreeKem.Public.Applying.{
  HasUpdated, apply_updates-HasUpdated, blank_paths-IsEditable,
}
use mls_rs_wasm_maybe_sync.TreeKem.Public.Edits.{
  no_updates, added, or_start, with_added, accepted_updates, apply_adds, batch_edit, finish_edit,
}
use mls_rs_wasm_maybe_sync.TreeKem.Public.Removals.{apply_removes, take_updates}
use mls_rs_wasm_maybe_sync.TreeKem.Public.UpdateEdits.{Updates, apply_updates}
use mls_rs_wasm_maybe_sync.TreeKem.Public.Invariant.{IsTree, same_leaves-IsTree}
use mls_rs_wasm_maybe_sync.TreeKem.Public.Removing.{
  Returns, IsEditable, apply_removes-IsEditable, or_true,
}
use mls_rs_wasm_maybe_sync.TreeKem.Public.Updating.{HasTaken, take_updates-HasTaken}

module _ (identity : IdentityOf) (returns : Returns identity) where
  -- A leaf that was added uses up the room of two nodes.
  abbrev AddedOne : ℕ → Option ℕ → TreeKemPublic → Type 0
  AddedOne n index s =
      (i : ℕ) × (index ≡ some i) × IsEditable identity n s × (i * 2 ≤ length s.nodes + 1)

  one_added :
      (n start : ℕ) (p : ProposalInfo LeafNode) (t : TreeKemPublic)
      → IsEditable identity (n + 2) t
      → start * 2 ≤ length t.nodes + 1
      → Ensures (AddedOne n) (
          added false p
            (add_leaf identity p.proposal (some start) t).0
            (add_leaf identity p.proposal (some start) t).1)
  unfolding added
  one_added n start p t h near =
      elim (add_leaf-LeafAdded identity p.proposal (some start) start t h.tree returns h.ends
        (inl refl) near (omega (arith, h.room))).2 [
          | leaf_added done there others parents ends grown tree ↦
              subst
                (λ r.
                  Ensures (AddedOne n)
                    (added false p r (add_leaf identity p.proposal (some start) t).1))
                (sym done)
                (
                  _,
                  refl,
                  record { tree = tree; ends = ends; room = omega (arith, h.room, grown.1) },
                  omega (arith, grown.0),
                )
          | leaf_refused e failed same tree ↦
              subst
                (λ r.
                  Ensures (AddedOne n)
                    (added false p r (add_leaf identity p.proposal (some start) t).1))
                (sym failed) (rw (or_true (is_by_value p)) tt)
        ]

  apply_adds-IsEditable :
      (n start : ℕ) (ps : List (ProposalInfo LeafNode)) (t : TreeKemPublic)
      → IsEditable identity (n + 2 * length ps) t
      → start * 2 ≤ length t.nodes + 1
      → Ensures (λ r s. IsEditable identity n s) (apply_adds identity false start ps t)
  unfolding apply_adds
  apply_adds-IsEditable n start [] t h near = roomier n t h
    where
      roomier :
          (n : ℕ) (t : TreeKemPublic) → IsEditable identity (n + 2 * 0) t → IsEditable identity n t
      roomier n t h = record { tree = h.tree; ends = h.ends; room = omega (arith, h.room) }
  apply_adds-IsEditable n start (p ∷ ps) t h near =
      Ensures-bind (AddedOne (n + 2 * length ps)) (λ r s. IsEditable identity n s) _
        (added false p (add_leaf identity p.proposal (some start) t).0
          (add_leaf identity p.proposal (some start) t).1)
        (one_added (n + 2 * length ps) start p t
          (record { tree = h.tree; ends = h.ends; room = omega (arith, h.room) }) near)
        (λ index s (i, same, e, near').
          Ensures-bind (λ r s. IsEditable identity n s) (λ r s. IsEditable identity n s)
            (λ rest. return (with_added p index rest))
            (apply_adds identity false (or_start start index) ps s)
            (apply_adds-IsEditable n (or_start start index) ps s e
              (omega (arith, near', ap (or_start start) same)))
            (λ rest s' j. j))

  trim-IsTree :
      (t : TreeKemPublic)
      → IsTree identity t
      → (out : NodeVec) × (trim t.nodes ≡ ok out) × IsTree identity (record t { nodes = out })
  trim-IsTree t h =
      let (out, done, k) = trim-IsTrimmed t.nodes in
      (out, done, same_leaves-IsTree identity t out h (λ i. ap leaf_of (k.same (2 * i))))

  accepted_lem :
      (u : Updates) (bundle : ProposalBundle)
      → u.bad_indices ≡ []
      → (senders : List ℕ) × (updates : List (ProposalInfo LeafNode)) × (accepted_updates u bundle
          ≡ ok (updates, senders))
  unfolding accepted_updates
  accepted_lem u bundle clean = by_indices u.updated_indices refl
    where
      by_indices :
          (indices : List ℕ)
          → u.updated_indices ≡ indices
          → (senders : List ℕ) × (updates : List (ProposalInfo LeafNode)) × (accepted_updates u
                bundle
              ≡ ok (updates, senders))
      by_indices [] same = (bundle.update_senders, [], unfold accepted_updates in rw same)
      by_indices (i ∷ indices) same =
          (bundle.update_senders, bundle.updates, unfold accepted_updates in rw (same, clean))

  -- The rest of `batch_edit` after the updates.
  after_updates :
      (bundle : ProposalBundle) (removals : List (ProposalInfo ℕ)) (u : Updates) (s : TreeKemPublic)
      → HasUpdated identity (0 + 2 * length bundle.additions) u s
      → Ensures (λ edited s. IsTree identity s) (finish_edit identity false bundle removals u s)
  unfolding finish_edit
  after_updates bundle removals u s h =
      let (nodes, blanked, e) =
        blank_paths-IsEditable identity returns (0 + 2 * length bundle.additions) u.updated_indices
          s.index s.nodes h.editable h.inside in
      let (senders, updates, accepted) = accepted_lem u bundle h.none_bad in
      rw (blanked, accepted)
        (Ensures-bind (λ r s. IsEditable identity 0 s) (λ edited s. IsTree identity s) _
          (apply_adds identity false 0 bundle.additions (record { index = s.index; nodes = nodes }))
          (apply_adds-IsEditable 0 0 bundle.additions (record { index = s.index; nodes = nodes }) e
            (omega arith))
          (λ r s' k. let (out, done, tree) = trim-IsTree s' k.tree in rw done tree))

-- When no proposal may be dropped, batch_edit on a tree that ends with a leaf, has room for the additions
-- within u32 and whose index tells what a walk over its leaves would, with an identity provider that does
-- not panic and with the removals and updates at indices below 2 ^ 31, never panics, and when it succeeds
-- the index again tells what a walk over the leaves would.
pub batch_edit-IsTree :
    (identity : IdentityOf) (bundle : ProposalBundle) (t : TreeKemPublic)
    → Returns identity
    → IsTree identity t
    → EndsWithLeaf t.nodes
    → length t.nodes + 2 * length bundle.additions + 3 < 2 ^ 32
    → All (λ (p : ProposalInfo ℕ). p.proposal < 2 ^ 31) bundle.removals
    → All (λ index. index < 2 ^ 31) bundle.update_senders
    → Ensures (λ edited s. IsTree identity s) (batch_edit identity false bundle t)
unfolding batch_edit
batch_edit-IsTree identity bundle t returns h ends room removals senders =
    let n : ℕ = 0 + 2 * length bundle.additions in
    let start : IsEditable identity n t = record {
      tree = h;
      ends = ends;
      room = omega (arith, room);
    } in
    Ensures-bind (λ kept s. IsEditable identity n s) (λ edited s. IsTree identity s) _
      (apply_removes identity false bundle.removals t)
      (apply_removes-IsEditable identity returns n bundle.removals t removals start)
      (λ kept s k.
        Ensures-bind (HasTaken identity n s) (λ edited s. IsTree identity s) _
          (take_updates identity false 0 bundle.updates bundle.update_senders s)
          (take_updates-HasTaken identity returns n 0 bundle.updates bundle.update_senders s senders
            k)
          (λ partial_updates s' taken.
            Ensures-bind (HasUpdated identity n) (λ edited s. IsTree identity s)
              (finish_edit identity false bundle kept)
              (apply_updates identity false s'.index partial_updates no_updates s')
              (apply_updates-HasUpdated identity returns n s'.index partial_updates no_updates s'
                (record { editable = taken.editable; inside = tt; none_bad = refl }) taken.pending
                taken.distinct)
              (after_updates identity returns bundle kept)))
