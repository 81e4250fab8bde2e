-- ===== src/TreeKem/Public/Removing.antt =====
-- mls-rs/src/tree_kem/mod.rs: the removals of `batch_edit`, and the leaves that updates replace.
use mls_rs_wasm_maybe_sync.Common.{
  ltb, ltb→lt, ℕ, ◌+◌, ◌*◌, ◌%◌, ◌^◌, ◌<◌, ◌≡◌, ◌≢◌, refl, sym, ap, subst, ◌∙◌, List, [], ◌∷◌,
  length, length-set, set, All, Bool, Bool-cases, true, false, ◌||◌, none, some, ok, fault, Fault,
  gives, fails, breaks, Result-cases, arith, ◌⊎◌, inl, inr,
}
use mls_rs_wasm_maybe_sync.Common.State.{return, Ensures, Ensures-bind}
use mls_rs_wasm_maybe_sync.Proposals.{ProposalInfo, is_by_value}
use mls_rs_wasm_maybe_sync.TreeKem.Leaf.{LeafNode, SigningIdentity}
use mls_rs_wasm_maybe_sync.TreeKem.Nodes.{NodeVec, node_in, node_index, leaf, leaf_of}
use mls_rs_wasm_maybe_sync.TreeKem.Nodes.Leaves.{EndsWithLeaf}
use mls_rs_wasm_maybe_sync.TreeKem.Nodes.Places.{node_in_blanked, node_in-set_other, node_in_beyond}
use mls_rs_wasm_maybe_sync.TreeKem.Nodes.Blanking.{taken, refused, Blanked-cases}
use mls_rs_wasm_maybe_sync.TreeKem.Nodes.Walks.{leaf_at, AreApartAt}
use mls_rs_wasm_maybe_sync.TreeKem.Public.{TreeKemPublic, IdentityOf}
use mls_rs_wasm_maybe_sync.TreeKem.Public.Removals.{forget, removed, apply_remove, apply_removes}
use mls_rs_wasm_maybe_sync.TreeKem.Public.Paths.{SameLeaves, blank_direct_path_leaves}
use mls_rs_wasm_maybe_sync.TreeKem.Public.Invariant.{IsTree, removed-IsTree}

-- The identity provider returns an identity or an error for every signing identity.
abbrev pub Returns : IdentityOf → Type 0
Returns identity = (s : SigningIdentity) (x : Fault) → identity s ≢ fault x

-- A tree with an index that is in step with its nodes, and with room for `n` more nodes.
pub record IsEditable (identity : IdentityOf) (n : ℕ) (t : TreeKemPublic) : Type 0 where
  pub tree : IsTree identity t
  pub ends : EndsWithLeaf t.nodes
  pub room : length t.nodes + n + 3 < 2 ^ 32

-- A node vector after a leaf has been blanked.
pub record IsBlanked (place : ℕ) (l : LeafNode) (nodes nodes' : NodeVec) : Type 0 where
  pub apart : AreApartAt place l nodes' nodes
  pub inside : place * 2 < length nodes
  pub same_length : length nodes' ≡ length nodes

pub or_true : (b : Bool) → (b || true) ≡ true
or_true true = refl
or_true false = refl

leaf_inside :
    (nodes : NodeVec) (i : ℕ) (l : LeafNode) → leaf_at nodes i ≡ some l → i * 2 < length nodes
leaf_inside nodes i l h = elim (Bool-cases (ltb (i * 2) (length nodes))) [
  | inl inside ↦ ltb→lt _ _ inside
  | inr outside ↦ absurd (cc (ap leaf_of (node_in_beyond nodes (2 * i) (ground (arith, outside)))))
]

pub taken-IsBlanked :
    (nodes : NodeVec) (place : ℕ) (l : LeafNode)
    → place < 2 ^ 31
    → node_in nodes (node_index place) ≡ some (leaf l)
    → IsBlanked place l nodes (set nodes (node_index place) none)
taken-IsBlanked nodes place l small here =
    let twice : node_index place ≡ 2 * place = omega arith in
    let there : leaf_at nodes place ≡ some l =
      ap (λ i. leaf_of (node_in nodes i)) (sym twice) ∙ ap leaf_of here in
    record {
      apart = record {
        without =
            ap (λ i. leaf_of (node_in (set nodes (node_index place) none) i)) (sym twice)
            ∙ ap leaf_of (node_in_blanked nodes (node_index place));
        within = there;
        others = λ i other. ap leaf_of (
            node_in-set_other nodes (node_index place) (2 * i) none
              (λ e. other (omega (arith, e, small))));
      };
      inside = leaf_inside nodes place l there;
      same_length = length-set nodes (node_index place) none;
    }

module _ (identity : IdentityOf) (returns : Returns identity) (n : ℕ) where
  -- After `forget` the index is in step with the nodes without the leaf.
  pub forget-IsEditable :
      (place : ℕ) (l : LeafNode) (t : TreeKemPublic) (nodes' : NodeVec)
      → IsEditable identity n t
      → IsBlanked place l t.nodes nodes'
      → Ensures
          (λ u s. IsEditable identity n s × (s.nodes ≡ nodes'))
          (forget identity l (record t { nodes = nodes' }))
  unfolding forget
  forget-IsEditable place l t nodes' h blanked = elim (Result-cases (identity l.signing_identity)) [
    | breaks x unknown ↦ absurd (returns l.signing_identity x unknown)
    | fails e unknown ↦ rw (unknown) tt
    | gives id known ↦ rw (known) (
      record {
        tree =
            removed-IsTree identity place l id t nodes' h.tree known blanked.apart
              (omega (arith, h.room));
        ends = subst (λ k. (k ≡ 0) ⊎ (k % 2 ≡ 1)) (sym blanked.same_length) h.ends;
        room = omega (arith, h.room, blanked.same_length);
      },
      refl,
    )
  ]

  -- After the path of a blanked leaf is blanked too.
  path-IsBlanked :
      (place : ℕ) (l : LeafNode) (nodes nodes' out : NodeVec)
      → IsBlanked place l nodes nodes'
      → SameLeaves out nodes'
      → IsBlanked place l nodes out
  path-IsBlanked place l nodes nodes' out h same = record {
    apart = record {
      without = same.0 place ∙ h.apart.without;
      within = h.apart.within;
      others = λ i other. same.0 i ∙ h.apart.others i other;
    };
    inside = h.inside;
    same_length = same.1 ∙ h.same_length;
  }

  removed-IsEditable :
      (p : ProposalInfo ℕ) (l : LeafNode) (t : TreeKemPublic) (nodes' : NodeVec)
      → IsEditable identity n t
      → IsBlanked p.proposal l t.nodes nodes'
      → Ensures
          (λ keep s. IsEditable identity n s)
          (removed identity false p (ok l) (record t { nodes = nodes' }))
  unfolding removed
  removed-IsEditable p l t nodes' h blanked =
      let (out, path, same) =
        blank_direct_path_leaves nodes' p.proposal (omega (arith, h.room, blanked.same_length))
          (omega (arith, blanked.inside, blanked.same_length)) in
      rw path (
        Ensures-bind (λ u s. IsEditable identity n s × (s.nodes ≡ out))
          (λ keep s. IsEditable identity n s) (λ u. return true)
          (forget identity l (record t { nodes = out }))
          (forget-IsEditable p.proposal l t out h
            (path-IsBlanked p.proposal l t.nodes nodes' out blanked same))
          (λ u s k. k.0))

  apply_remove-IsEditable :
      (p : ProposalInfo ℕ) (t : TreeKemPublic)
      → p.proposal < 2 ^ 31
      → IsEditable identity n t
      → Ensures (λ keep s. IsEditable identity n s) (apply_remove identity false p t)
  unfolding apply_remove
  apply_remove-IsEditable p t small h = elim (Blanked-cases t.nodes p.proposal) [
    | taken l here q ↦
        rw q (removed-IsEditable p l t _ h (taken-IsBlanked t.nodes p.proposal l small here))
    | refused e out q ↦ rw q (unfold removed in rw (or_true (is_by_value p)) tt)
  ]

  pub apply_removes-IsEditable :
      (ps : List (ProposalInfo ℕ)) (t : TreeKemPublic)
      → All (λ (p : ProposalInfo ℕ). p.proposal < 2 ^ 31) ps
      → IsEditable identity n t
      → Ensures (λ kept s. IsEditable identity n s) (apply_removes identity false ps t)
  unfolding apply_removes
  apply_removes-IsEditable [] t small h = h
  apply_removes-IsEditable (p ∷ ps) t (here, small) h =
      Ensures-bind (λ kept s. IsEditable identity n s) (λ kept s. IsEditable identity n s) _
        (apply_removes identity false ps t) (apply_removes-IsEditable ps t small h)
        (λ kept s k.
          Ensures-bind (λ keep s. IsEditable identity n s) (λ kept s. IsEditable identity n s) _
            (apply_remove identity false p s) (apply_remove-IsEditable p s here k) (λ keep s j. j))
