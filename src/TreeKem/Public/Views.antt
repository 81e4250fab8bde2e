-- ===== src/TreeKem/Public/Views.antt =====
-- mls-rs/src/tree_kem/mod.rs: what the index answers, against the walks over the leaves that answer it without
-- the feature tree_index.
use mls_rs_wasm_maybe_sync.Common.{
  ℕ, suc, ◌%◌, ◌^◌, ◌<◌, ◌≡◌, refl, sym, ap, ◌∙◌, List, [], ◌∷◌, map, length, All, bytes_eq,
  Bool-cases, true, false, ◌==◌, some, ok, arith, inl, inr,
}
use mls_rs_wasm_maybe_sync.TreeKem.Leaf.{LeafNode}
use mls_rs_wasm_maybe_sync.TreeKem.Nodes.{non_empty_leaves}
use mls_rs_wasm_maybe_sync.TreeKem.Index.{count_supporting_proposal, get_leaf_index_with_identity}
use mls_rs_wasm_maybe_sync.TreeKem.Index.Owners.{
  Member, identity_of, owner, owner_hit, owner_miss, tally, tally_le, supports_proposal,
}
use mls_rs_wasm_maybe_sync.TreeKem.Index.Walk.{entry}
use mls_rs_wasm_maybe_sync.TreeKem.Public.{
  TreeKemPublic, IdentityOf, get_leaf_node_with_identity, occupied_leaf_count, can_support_proposal,
  find_identity, get_leaf_node_with_identity_walk, all_support, can_support_proposal_walk,
}
use mls_rs_wasm_maybe_sync.TreeKem.Public.Invariant.{IsTree, length-members}

find_identity-owner :
    (identity : IdentityOf) (wanted : List ℕ) (ms : List Member)
    → All (λ m. identity m.leaf.signing_identity ≡ ok m.identity) ms
    → find_identity identity wanted (map entry ms) ≡ ok (owner identity_of ms wanted)
unfolding find_identity owner
find_identity-owner identity wanted [] named = refl
find_identity-owner identity wanted (m ∷ ms) (known, named) =
    elim (Bool-cases (bytes_eq m.identity wanted)) [
      | inl hit ↦ found hit ∙ ap ok (sym (owner_hit identity_of m ms wanted hit))
      | inr miss ↦
          passed miss
          ∙ find_identity-owner identity wanted ms named
          ∙ ap ok (sym (owner_miss identity_of m ms wanted miss))
    ]
  where
    found :
        bytes_eq m.identity wanted ≡ true
        → find_identity identity wanted (map entry (m ∷ ms)) ≡ ok (some m.index)
    found hit = unfold find_identity in rw (known, hit)

    passed :
        bytes_eq m.identity wanted ≡ false
        → find_identity identity wanted (map entry (m ∷ ms))
          ≡ find_identity identity wanted (map entry ms)
    passed miss = unfold find_identity in rw (known, miss)

-- On a tree whose index tells what a walk over the leaves would, get_leaf_node_with_identity answers alike
-- with the index and with the walk of a build without it.
pub get_leaf_node_with_identity-get_leaf_node_with_identity_walk :
    (identity : IdentityOf) (t : TreeKemPublic) (wanted : List ℕ)
    → IsTree identity t
    → get_leaf_node_with_identity_walk identity t.nodes wanted
      ≡ ok (get_leaf_node_with_identity t wanted)
unfolding get_leaf_node_with_identity get_leaf_node_with_identity_walk get_leaf_index_with_identity
get_leaf_node_with_identity-get_leaf_node_with_identity_walk identity t wanted h =
    ap (find_identity identity wanted) (sym h.listed.walked)
    ∙ find_identity-owner identity wanted h.members h.listed.named
    ∙ ap ok (sym (h.indexed.identities wanted))

all_support-tally :
    (p : ℕ) (ms : List Member)
    → (tally (supports_proposal p) ms == length ms) ≡ all_support p (map entry ms)
unfolding all_support
all_support-tally p [] = refl
all_support-tally p (m ∷ ms) = elim (Bool-cases (supports_proposal p m)) [
  | inl passes ↦ ground (arith, passes, all_support-tally p ms, tally_le (supports_proposal p) ms)
  | inr fails ↦ ground (arith, fails, tally_le (supports_proposal p) ms)
]

-- On a tree of fewer than 2 ^ 32 nodes whose index tells what a walk over the leaves would,
-- can_support_proposal answers alike with the index and with the walk of a build without it.
pub can_support_proposal-can_support_proposal_walk :
    (identity : IdentityOf) (t : TreeKemPublic) (proposal_type : ℕ)
    → IsTree identity t
    → length t.nodes < 2 ^ 32
    → can_support_proposal t proposal_type ≡ can_support_proposal_walk t.nodes proposal_type
unfolding can_support_proposal can_support_proposal_walk count_supporting_proposal
    occupied_leaf_count
can_support_proposal-can_support_proposal_walk identity t p h small =
    let walked : length (non_empty_leaves t.nodes) ≡ length h.members =
      ap (λ (z : List (ℕ × LeafNode)). length z) (sym h.listed.walked) ∙ count h.members in
    let counted : length (non_empty_leaves t.nodes) % 2 ^ 32 ≡ length h.members =
      omega (arith, walked, small, length-members identity t.nodes h.members h.listed) in
    ap (λ (n : ℕ). n == (length (non_empty_leaves t.nodes) % 2 ^ 32)) (h.indexed.proposals p)
    ∙ ap (λ (n : ℕ). tally (supports_proposal p) h.members == n) counted
    ∙ all_support-tally p h.members
    ∙ ap (all_support p) h.listed.walked
  where
    count : (ms : List Member) → length (map entry ms) ≡ length ms
    count [] = refl
    count (m ∷ ms) = ap suc (count ms)
