-- ===== src/TreeKem/Public/Outcomes.antt =====
-- mls-rs/src/tree_kem/mod.rs: what can become of the updates of `batch_edit` when proposals may be dropped.
use mls_rs_wasm_maybe_sync.Common.{
  ℕ, ◌≡◌, List, [], ◌∷◌, ◌++◌, All, Bool, true, false, none, Result, ok, err,
}
use mls_rs_wasm_maybe_sync.MlsError.{MlsError}
use mls_rs_wasm_maybe_sync.TreeKem.Nodes.Walks.{leaf_at}
use mls_rs_wasm_maybe_sync.TreeKem.Index.{TreeIndex, index_insert}
use mls_rs_wasm_maybe_sync.TreeKem.Public.{TreeKemPublic, IdentityOf}
use mls_rs_wasm_maybe_sync.TreeKem.Public.PutBack.{
  leaf_after, old_leaf_of, accepted_indices, refused_positions, put_back_of,
}
use mls_rs_wasm_maybe_sync.TreeKem.Public.Removals.{PartialUpdate}
use mls_rs_wasm_maybe_sync.TreeKem.Public.UpdateEdits.{Updates}

-- What the index says to the updates one after the other: an update is accepted when the index takes its
-- new leaf, and refused when it does not and takes the old leaf again.
abbrev pub Decided : IdentityOf → TreeIndex → List (PartialUpdate × Bool) → TreeIndex → Type 0
Decided identity x [] y = x ≡ y
Decided identity x ((p, true) ∷ ps) y =
    (x' : TreeIndex) × (index_insert identity p.new_leaf p.index x ≡ (ok tt, x'))
    × Decided identity x' ps y
Decided identity x ((p, false) ∷ ps) y =
    (e : MlsError) × (x' : TreeIndex) × (x'' : TreeIndex) × (index_insert identity p.new_leaf
        p.index x
      ≡ (err e, x'))
    × (index_insert identity p.old_leaf p.index x' ≡ (ok tt, x''))
    × Decided identity x'' ps y

-- The index takes neither the new leaf of an update nor its old one.
abbrev pub Rejected : IdentityOf → TreeIndex → PartialUpdate → Type 0
Rejected identity x p =
    (e : MlsError) × (e' : MlsError) × (x' : TreeIndex) × (x'' : TreeIndex) × (index_insert identity
        p.new_leaf p.index x
      ≡ (err e, x'))
    × (index_insert identity p.old_leaf p.index x' ≡ (err e', x''))

abbrev pub updates_of : List (PartialUpdate × Bool) → List PartialUpdate
updates_of [] = []
updates_of ((p, b) ∷ ps) = p ∷ updates_of ps

-- Each update was accepted or refused, after those of `u`.
pub record Finished (identity : IdentityOf) (ps : List PartialUpdate) (u : Updates)
    (t : TreeKemPublic) (u' : Updates) (s : TreeKemPublic) : Type 0 where
  pub outcomes : List (PartialUpdate × Bool)
  pub whole : updates_of outcomes ≡ ps
  pub decided : Decided identity t.index outcomes s.index
  pub leaves : (i : ℕ) → leaf_at s.nodes i ≡ leaf_after outcomes i (leaf_at t.nodes i)
  pub updated_indices : u'.updated_indices ≡ u.updated_indices ++ accepted_indices outcomes
  pub bad_indices : u'.bad_indices ≡ u.bad_indices ++ refused_positions outcomes

-- All updates were given up at one that the index rejected. Those before it, and those of `u`, have their
-- old leaves again; its own leaf and those of the updates after it are blank.
pub record GivenUp (identity : IdentityOf) (index_clone : TreeIndex) (ps : List PartialUpdate)
    (u : Updates) (t : TreeKemPublic) (u' : Updates) (s : TreeKemPublic) : Type 0 where
  pub before : List (PartialUpdate × Bool)
  pub rejected : PartialUpdate
  pub after : List PartialUpdate
  pub met : TreeIndex
  pub whole : ps ≡ updates_of before ++ (rejected ∷ after)
  pub decided : Decided identity t.index before met
  pub conflict : Rejected identity met rejected
  pub leaves :
      (i : ℕ)
      → leaf_at s.nodes i
        ≡ old_leaf_of
            (updates_of before)
            i
            (put_back_of u.removed_leaves u.updated_indices i (leaf_at t.nodes i))
  pub lost : All (λ q. leaf_at s.nodes q.index ≡ none) (rejected ∷ after)
  pub index : s.index ≡ index_clone
  pub updated_indices : u'.updated_indices ≡ []

pub data Settled (identity : IdentityOf) (index_clone : TreeIndex) (ps : List PartialUpdate)
    (u : Updates) (t : TreeKemPublic) (z : Result MlsError Updates × TreeKemPublic) : Type 0 where
  finished :
      (u' : Updates) (s : TreeKemPublic)
      → z ≡ (ok u', s)
      → Finished identity ps u t u' s
      → Settled identity index_clone ps u t z
  given_up :
      (u' : Updates) (s : TreeKemPublic)
      → z ≡ (ok u', s)
      → GivenUp identity index_clone ps u t u' s
      → Settled identity index_clone ps u t z
