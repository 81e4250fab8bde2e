-- ===== src/Proposals.antt =====
-- mls-rs/src/group/proposal_filter/bundle.rs: the proposals of a commit, as far as they edit the tree. An
-- Add is the leaf of its key package, an Update its new leaf, and a Remove the index of the leaf.
use mls_rs_wasm_maybe_sync.Common.{ℕ, List, Bool, true, false, not}
use mls_rs_wasm_maybe_sync.TreeKem.Leaf.{LeafNode}

-- mls-rs/src/group/framing.rs
pub data Sender : Type 0 where
  member external : ℕ → Sender
  new_member_proposal new_member_commit : Sender

-- The reference of a proposal is its hash.
pub data ProposalSource : Type 0 where
  by_value local : ProposalSource
  by_reference : List ℕ → ProposalSource

pub record ProposalInfo (T : Type 0) : Type 0 where
  pub proposal : T
  pub sender : Sender
  pub source : ProposalSource

abbrev pub is_by_value : {T : Type 0} → ProposalInfo T → Bool
is_by_value p = elim p.source [ by_value ↦ true | local ↦ false | by_reference r ↦ false ]

abbrev pub is_by_reference : {T : Type 0} → ProposalInfo T → Bool
is_by_reference p = not (is_by_value p)

pub record ProposalBundle : Type 0 where
  pub additions : List (ProposalInfo LeafNode)
  pub updates : List (ProposalInfo LeafNode)
  pub update_senders : List ℕ
  pub removals : List (ProposalInfo ℕ)
