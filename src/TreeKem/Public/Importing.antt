-- ===== src/TreeKem/Public/Importing.antt =====
-- mls-rs/src/tree_kem/mod.rs: `import_node_data` enters every leaf of the nodes in the index.
use mls_rs_wasm_maybe_sync.Common.{
  ℕ, ◌+◌, ◌^◌, ◌<◌, ◌≡◌, refl, sym, ap, subst, List, [], ◌∷◌, ◌++◌, map, append-nil, append_assoc,
  length, length-append, All, Result, ok, err, fault, arith,
}
use mls_rs_wasm_maybe_sync.Common.State.{Ensures}
use mls_rs_wasm_maybe_sync.MlsError.{MlsError}
use mls_rs_wasm_maybe_sync.TreeKem.Leaf.{LeafNode}
use mls_rs_wasm_maybe_sync.TreeKem.Nodes.{NodeVec, non_empty_leaves}
use mls_rs_wasm_maybe_sync.TreeKem.Nodes.Walks.{length-non_empty_leaves}
use mls_rs_wasm_maybe_sync.TreeKem.Index.{TreeIndex, tree_index_new, is_initialized}
use mls_rs_wasm_maybe_sync.TreeKem.Index.Owners.{Member}
use mls_rs_wasm_maybe_sync.TreeKem.Index.Members.{IsIndexOf, tree_index_new-IsIndexOf}
use mls_rs_wasm_maybe_sync.TreeKem.Index.Moves.{IsIndexOf-move}
use mls_rs_wasm_maybe_sync.TreeKem.Index.Walk.{entry}
use mls_rs_wasm_maybe_sync.TreeKem.Public.{
  IdentityOf, index_leaves, initialize_index_if_necessary, import_node_data, tree_of,
}
use mls_rs_wasm_maybe_sync.TreeKem.Public.Adding.{taken, rejected, broken, Indexed-cases}
use mls_rs_wasm_maybe_sync.TreeKem.Public.Invariant.{IsTree}
use mls_rs_wasm_maybe_sync.TreeKem.Public.Removing.{Returns}

-- The index of members and of the leaves of a list behind them.
record HasIndexed (identity : IdentityOf) (done : List Member) (leaves : List (ℕ × LeafNode))
    (out : TreeIndex) : Type 0 where
  news : List Member
  walked : map entry news ≡ leaves
  named : All (λ m. identity m.leaf.signing_identity ≡ ok m.identity) news
  indexed : IsIndexOf out (done ++ news)

index_leaves-HasIndexed :
    (identity : IdentityOf) (leaves : List (ℕ × LeafNode)) (done : List Member) (t : TreeIndex)
    → Returns identity
    → IsIndexOf t done
    → length done + length leaves + 1 < 2 ^ 32
    → Ensures (λ u out. HasIndexed identity done leaves out) (index_leaves identity leaves t)
unfolding index_leaves
index_leaves-HasIndexed identity [] done t returns h small = record {
  news = [];
  walked = refl;
  named = tt;
  indexed = subst (IsIndexOf t) (sym (append-nil done)) h;
}
index_leaves-HasIndexed identity ((place, l) ∷ leaves) done t returns h small =
    elim (Indexed-cases identity l place t done h (omega (arith, small))) [
      | broken x unknown q ↦ absurd (returns l.signing_identity x unknown)
      | rejected e out q kept ↦ rw q tt
      | taken id out known q indexed ↦
          let new : Member = record { index = place; leaf = l; identity = id } in
          let moved : IsIndexOf out (done ++ (new ∷ [])) =
            IsIndexOf-move out new done []
              (subst (λ z. IsIndexOf out (new ∷ z)) (sym (append-nil done)) indexed) in
          rw q (
            Ensures-map (HasIndexed identity (done ++ (new ∷ [])) leaves) _
              (λ s k. record {
                news = new ∷ k.news;
                walked = ap (λ z. (place, l) ∷ z) k.walked;
                named = (known, k.named);
                indexed = subst (IsIndexOf s) (append_assoc done (new ∷ []) k.news) k.indexed;
              })
              (index_leaves identity leaves out)
              (index_leaves-HasIndexed identity leaves (done ++ (new ∷ [])) out returns moved
                (omega (arith, small, length-append done (new ∷ [])))))
    ]
  where
    Ensures-map :
        (P Q : TreeIndex → Type 0)
        → ((s : TreeIndex) → P s → Q s)
        → (z : Result MlsError (Unit {0}) × TreeIndex) → Ensures (λ u s. P s) z
        → Ensures (λ u s. Q s) z
    Ensures-map P Q f (ok u, s) h = f s h
    Ensures-map P Q f (err e, s) h = tt
    Ensures-map P Q f (fault x, s) h = h

-- What a call gives when it gives a value; it never breaks.
abbrev pub Gives {ℓ} : {A : Type ℓ} → (A → Type 0) → Result MlsError A → Type 0
Gives P (ok a) = P a
Gives P (err e) = Unit
Gives P (fault x) = ⊥

-- With an identity provider that does not panic, import_node_data of fewer than 2 ^ 32 - 3 nodes never
-- panics, and when it succeeds the tree has these nodes and an index that tells what a walk over the leaves
-- would.
pub import_node_data-IsTree :
    (identity : IdentityOf) (nodes : NodeVec)
    → Returns identity
    → length nodes + 3 < 2 ^ 32
    → Gives (λ t. IsTree identity t × (t.nodes ≡ nodes)) (import_node_data identity nodes)
unfolding import_node_data initialize_index_if_necessary is_initialized
import_node_data-IsTree identity nodes returns small =
    tree (index_leaves identity (non_empty_leaves nodes) tree_index_new) (
      index_leaves-HasIndexed identity (non_empty_leaves nodes) [] tree_index_new returns
        tree_index_new-IsIndexOf (omega (arith, small, length-non_empty_leaves nodes)))
  where
    tree :
        (z : Result MlsError (Unit {0}) × TreeIndex)
        → Ensures (λ u out. HasIndexed identity [] (non_empty_leaves nodes) out) z
        → Gives
            (λ t. IsTree identity t × (t.nodes ≡ nodes))
            (tree_of (z.0, record { index = z.1; nodes = nodes }))
    tree (ok u, out) k = (
      record {
        members = k.news;
        listed = record { walked = k.walked; named = k.named };
        indexed = k.indexed;
      },
      refl,
    )
    tree (err e, out) k = tt
    tree (fault x, out) k = k
