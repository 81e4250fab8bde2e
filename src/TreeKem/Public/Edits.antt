-- ===== src/TreeKem/Public/Edits.antt =====
-- mls-rs/src/tree_kem/mod.rs: `batch_edit`, which applies the proposals of a commit to the tree, up to the
-- update of the tree hashes. The bundle is returned with the value, as it is after the call.
use mls_rs_wasm_maybe_sync.Common.{
  ℕ, zero, suc, List, [], ◌∷◌, ◌++◌, map, ◌||◌, not, if◌then◌else◌, Bool, true, false, Option, none,
  some, Result, ok, err, fault, panicked,
}
use mls_rs_wasm_maybe_sync.Common
use mls_rs_wasm_maybe_sync.Common.State.{Method, ◌>>=◌, ◌>>◌, return, lift, self}
use mls_rs_wasm_maybe_sync.MlsError.{MlsError}
use mls_rs_wasm_maybe_sync.Proposals.{ProposalInfo, is_by_value, ProposalBundle}
use mls_rs_wasm_maybe_sync.TreeKem.Leaf.{LeafNode}
use mls_rs_wasm_maybe_sync.TreeKem.Nodes.{NodeVec, blank_direct_path, trim}
use mls_rs_wasm_maybe_sync.TreeKem.Public.{TreeKemPublic, IdentityOf, on_nodes, add_leaf}
use mls_rs_wasm_maybe_sync.TreeKem.Public.UpdateEdits.{Updates, apply_updates}
use mls_rs_wasm_maybe_sync.TreeKem.Public.Removals.{apply_removes, take_updates}

-- `updated_indices.iter().try_for_each(|index| self.nodes.blank_direct_path(*index))`
unfoldable pub blank_paths : List ℕ → NodeVec → Result MlsError NodeVec
unfolding blank_direct_path
blank_paths [] nodes = ok nodes
blank_paths (index ∷ indices) nodes =
    Common.◌>>=◌ (blank_direct_path nodes index) (blank_paths indices)

-- `Vec::remove`, which panics out of bounds, and the removal of several positions, the last one first
abbrev pub remove_at {ℓ} : {A : Type ℓ} → ℕ → List A → Result MlsError (List A)
remove_at i [] = fault panicked
remove_at zero (x ∷ xs) = ok xs
remove_at (suc i) (x ∷ xs) = Common.◌>>=◌ (remove_at i xs) (λ rest. ok (x ∷ rest))

abbrev pub remove_positions {ℓ} : {A : Type ℓ} → List ℕ → List A → Result MlsError (List A)
remove_positions [] xs = ok xs
remove_positions (i ∷ positions) xs = Common.◌>>=◌ (remove_positions positions xs) (remove_at i)

-- `ProposalBundle::remove`, which does nothing out of bounds
abbrev pub drop_at {ℓ} : {A : Type ℓ} → ℕ → List A → List A
drop_at i [] = []
drop_at zero (x ∷ xs) = xs
drop_at (suc i) (x ∷ xs) = x ∷ drop_at i xs

abbrev pub drop_positions {ℓ} : {A : Type ℓ} → List ℕ → List A → List A
drop_positions [] xs = xs
drop_positions (i ∷ positions) xs = drop_at i (drop_positions positions xs)

-- `updates` and `update_senders` without the rejected updates
unfoldable pub accepted_updates :
    Updates → ProposalBundle → Result MlsError (List (ProposalInfo LeafNode) × List ℕ)
accepted_updates u bundle = elim u.updated_indices [
  | [] ↦ ok ([], bundle.update_senders)
  | index ∷ indices ↦
      Common.◌>>=◌ (remove_positions u.bad_indices bundle.update_senders)
        (λ senders. ok (drop_positions u.bad_indices bundle.updates, senders))
]

-- What an addition does with the result of `add_leaf`: the index, if the leaf was added.
unfoldable pub added :
    Bool → ProposalInfo LeafNode → Result MlsError ℕ → Method TreeKemPublic MlsError (Option ℕ)
added filter p (ok index) = return (some index)
added filter p (err e) = if is_by_value p || not filter then lift (err e) else return none
added filter p (fault x) = lift (fault x)

abbrev pub with_added :
    ProposalInfo LeafNode
    → Option ℕ
    → List (ProposalInfo LeafNode) × List ℕ
    → List (ProposalInfo LeafNode) × List ℕ
with_added p none (kept, indices) = (kept, indices)
with_added p (some index) (kept, indices) = (p ∷ kept, index ∷ indices)

abbrev pub or_start : ℕ → Option ℕ → ℕ
or_start start none = start
or_start start (some index) = index

-- The additions in order, each from the place of the one before. Those that stay are returned with the
-- indices of the added leaves.
unfoldable pub apply_adds :
    IdentityOf
    → Bool
    → ℕ
    → List (ProposalInfo LeafNode)
    → Method TreeKemPublic MlsError (List (ProposalInfo LeafNode) × List ℕ)
unfolding added add_leaf
apply_adds identity filter start [] = return ([], [])
apply_adds identity filter start (p ∷ ps) = do
  index ← (λ t. let (r, t') = add_leaf identity p.proposal (some start) t in added filter p r t')
  rest ← apply_adds identity filter (or_start start index) ps
  return (with_added p index rest)

abbrev pub no_updates : Updates
no_updates = record { removed_leaves = []; updated_indices = []; bad_indices = [] }

-- The added leaves, the leaves whose hashes change, and the bundle.
pub record Edited : Type 0 where
  pub added_leaves : List ℕ
  pub updated_leaves : List ℕ
  pub bundle : ProposalBundle

-- From `try_for_each(|index| self.nodes.blank_direct_path(*index))` on
unfoldable pub finish_edit :
    IdentityOf
    → Bool
    → ProposalBundle
    → List (ProposalInfo ℕ)
    → Updates
    → Method TreeKemPublic MlsError Edited
unfolding blank_paths accepted_updates apply_adds trim
finish_edit identity filter bundle removals u = do
  on_nodes (blank_paths u.updated_indices)
  (updates, update_senders) ← lift (accepted_updates u bundle)
  (additions, added_leaves) ← apply_adds identity filter 0 bundle.additions
  on_nodes trim
  return (record {
    added_leaves = added_leaves;
    updated_leaves = map (λ p. p.proposal) removals ++ (u.updated_indices ++ added_leaves);
    bundle = record {
      additions = additions;
      updates = updates;
      update_senders = update_senders;
      removals = removals;
    };
  })

unfoldable pub batch_edit :
    IdentityOf → Bool → ProposalBundle → Method TreeKemPublic MlsError Edited
unfolding apply_removes take_updates apply_updates finish_edit
batch_edit identity filter bundle = do
  removals ← apply_removes identity filter bundle.removals
  partial_updates ← take_updates identity filter 0 bundle.updates bundle.update_senders
  t ← self
  u ← apply_updates identity filter t.index partial_updates no_updates
  finish_edit identity filter bundle removals u
