-- ===== src/TreeKem/Public/Adding.antt =====
-- mls-rs/src/tree_kem/mod.rs: `add_leaf` keeps the index in step with the nodes.
use mls_rs_wasm_maybe_sync.Common.{
  ℕ, ◌+◌, ◌*◌, ◌%◌, ◌^◌, ◌≤◌, ◌<◌, ◌≡◌, ◌≢◌, refl, sym, ap, subst, ◌∙◌, List, ◌∷◌, length, Option,
  none, some, Result, ok, err, fault, Fault, gives, fails, breaks, Result-cases, arith, ◌⊎◌, inl,
  inr, ◌/◌,
}
use mls_rs_wasm_maybe_sync.Common.State.{Method, continue, ◌>>◌, return}
use mls_rs_wasm_maybe_sync.MlsError.{MlsError}
use mls_rs_wasm_maybe_sync.TreeKem.Leaf.{LeafNode, SigningIdentity}
use mls_rs_wasm_maybe_sync.TreeKem.Nodes.{NodeVec, node_in, leaf_of, next_empty_leaf, insert_leaf}
use mls_rs_wasm_maybe_sync.TreeKem.Nodes.Leaves.{
  EndsWithLeaf, IsNextEmpty, next_empty_leaf-IsNextEmpty, insert_leaf_lem,
}
use mls_rs_wasm_maybe_sync.TreeMath.Path.{spec_path}
use mls_rs_wasm_maybe_sync.TreeKem.Nodes.{log_ceil}
use mls_rs_wasm_maybe_sync.TreeKem.Nodes.Filtered.{depth}
use mls_rs_wasm_maybe_sync.TreeKem.Nodes.Walks.{leaf_at}
use mls_rs_wasm_maybe_sync.TreeKem.Index.{TreeIndex, index_insert, insert, insert_identified}
use mls_rs_wasm_maybe_sync.TreeKem.Index.Owners.{Member}
use mls_rs_wasm_maybe_sync.TreeKem.Index.Members.{
  IsIndexOf, with_counter-IsIndexOf, entered-IsIndexOf,
}
use mls_rs_wasm_maybe_sync.TreeKem.Index.Insertion.{accepted, refused, Inserted-cases, IsFree-IsNew}
use mls_rs_wasm_maybe_sync.TreeKem.Public.{
  TreeKemPublic, IdentityOf, on_nodes, put_nodes, add_leaf_at, add_leaf, start_or_zero,
  update_unmerged,
}
use mls_rs_wasm_maybe_sync.TreeKem.Public.Paths.{length-insert_leaf}
use mls_rs_wasm_maybe_sync.TreeKem.Public.Unmerged.{merged_at, update_unmerged_leaves}
use mls_rs_wasm_maybe_sync.TreeKem.Public.Invariant.{
  IsTree, AreMembers, length-members, inserted-IsTree,
}

-- What `index_insert` has done to an index of the members.
pub data Indexed (identity : IdentityOf) (l : LeafNode) (place : ℕ) (index : TreeIndex)
    (ms : List Member) : Type 0 where
  taken :
      (id : List ℕ) (out : TreeIndex)
      → identity l.signing_identity ≡ ok id
      → index_insert identity l place index ≡ (ok tt, out)
      → IsIndexOf out (record { index = place; leaf = l; identity = id } ∷ ms)
      → Indexed identity l place index ms
  rejected :
      (e : MlsError) (out : TreeIndex)
      → index_insert identity l place index ≡ (err e, out)
      → IsIndexOf out ms
      → Indexed identity l place index ms
  broken :
      (x : Fault)
      → identity l.signing_identity ≡ fault x
      → index_insert identity l place index ≡ (fault x, index)
      → Indexed identity l place index ms

pub Indexed-cases :
    (identity : IdentityOf) (l : LeafNode) (place : ℕ) (index : TreeIndex) (ms : List Member)
    → IsIndexOf index ms
    → length ms + 1 < 2 ^ 32
    → Indexed identity l place index ms
unfolding index_insert
Indexed-cases identity l place index ms h small =
    elim (Result-cases (identity l.signing_identity)) [
      | fails e unknown ↦ rejected e index (ap (λ r. insert_identified place l r index) unknown) h
      | breaks x unknown ↦ broken x unknown (ap (λ r. insert_identified place l r index) unknown)
      | gives id known ↦
          let new : Member = record { index = place; leaf = l; identity = id } in
          let reached : index_insert identity l place index ≡ insert place l id index =
            ap (λ r. insert_identified place l r index) known in
          elim (Inserted-cases new index) [
            | accepted free done ↦
                taken id _ known (reached ∙ done)
                  (entered-IsIndexOf new index ms h (IsFree-IsNew free) small)
            | refused e out kept conflict done ↦ rejected e out (reached ∙ done) (elim kept [
              | inl same ↦ subst (λ z. IsIndexOf z ms) (sym same) h
              | inr default ↦
                  subst (λ z. IsIndexOf z ms) (sym default) (with_counter-IsIndexOf l index ms h)
            ])
          ]
    ]

-- What `add_leaf` does at a blank place that is at most one beyond the end.
pub data LeafAdded (identity : IdentityOf) (l : LeafNode) (place : ℕ) (t : TreeKemPublic)
    (z : Result MlsError ℕ × TreeKemPublic) : Type 0 where
  leaf_added :
      z.0 ≡ ok place
      → leaf_at z.1.nodes place ≡ some l
      → ((i : ℕ) → i ≢ place → leaf_at z.1.nodes i ≡ leaf_at t.nodes i)
      → ((i : ℕ)
          → i % 2 ≡ 1
          → node_in z.1.nodes i
            ≡ merged_at place (spec_path (depth z.1.nodes) 0 place) i (node_in t.nodes i))
      → EndsWithLeaf z.1.nodes
      → (place * 2 < length z.1.nodes) × (length z.1.nodes ≤ length t.nodes + 2)
      → IsTree identity z.1
      → LeafAdded identity l place t z
  leaf_refused :
      (e : MlsError)
      → z.0 ≡ err e
      → z.1.nodes ≡ t.nodes
      → IsTree identity z.1
      → LeafAdded identity l place t z

module _ (identity : IdentityOf) (l : LeafNode) (place : ℕ) (t : TreeKemPublic) where
  -- The nodes with the new leaf, after a change that leaves the leaves.
  abbrev put_leaf : Method TreeKemPublic MlsError ℕ
  put_leaf =
      on_nodes (λ nodes. insert_leaf nodes place l)
      >> (on_nodes (update_unmerged place) >> return place)

  after_index :
      (r : Result MlsError (Unit {0})) (out : TreeIndex)
      → index_insert identity l place t.index ≡ (r, out)
      → add_leaf_at identity l place t ≡ continue (λ u. put_leaf) r (record t { index = out })
  unfolding add_leaf_at
  after_index r out q = ap (λ z. continue {B = ℕ} (λ u. put_leaf) z.0 (record t { index = z.1 })) q

  after_put :
      (index : TreeIndex) (nodes nodes' : NodeVec)
      → insert_leaf t.nodes place l ≡ ok nodes
      → update_unmerged place nodes ≡ ok nodes'
      → put_leaf (record t { index = index }) ≡ (ok place, record { index = index; nodes = nodes' })
  after_put index nodes nodes' put merged =
      ap
        (λ r.
          continue {B = ℕ} (λ u. on_nodes (update_unmerged place) >> return place)
            (put_nodes r (record t { index = index })).0
            (put_nodes r (record t { index = index })).1)
        put
      ∙ ap
          (λ r.
            continue {B = ℕ} (λ u. return place)
              (put_nodes r (record { index = index; nodes = nodes })).0
              (put_nodes r (record { index = index; nodes = nodes })).1)
          merged

  -- The vector after `insert_leaf` and `update_unmerged`.
  record HasLeaf (nodes' : NodeVec) : Type 0 where
    nodes : NodeVec
    put : insert_leaf t.nodes place l ≡ ok nodes
    merged : update_unmerged place nodes ≡ ok nodes'
    holds : leaf_at nodes' place ≡ some l
    others : (i : ℕ) → i ≢ place → leaf_at nodes' i ≡ leaf_at t.nodes i
    parents :
        (i : ℕ)
        → i % 2 ≡ 1
        → node_in nodes' i
          ≡ merged_at place (spec_path (depth nodes') 0 place) i (node_in t.nodes i)
    ends : EndsWithLeaf nodes'
    grown : (place * 2 < length nodes') × (length nodes' ≤ length t.nodes + 2)

  has_leaf :
      EndsWithLeaf t.nodes
      → place * 2 ≤ length t.nodes + 1
      → length t.nodes + 3 < 2 ^ 32
      → (nodes' : NodeVec) × HasLeaf nodes'
  has_leaf ends near small =
      let (nodes, put, there, others, ends') = insert_leaf_lem t.nodes place l ends near in
      let (inside, short) = length-insert_leaf t.nodes nodes place l put in
      let (nodes', merged, same, pushed) =
        update_unmerged_leaves nodes place (omega (arith, short, small)) inside in
      let twice : 2 * place ≡ place * 2 = omega arith in
      (
        nodes',
        record {
          nodes = nodes;
          put = put;
          merged = merged;
          holds = same.0 place ∙ ap (λ i. leaf_of (node_in nodes i)) twice ∙ ap leaf_of there;
          others =
              λ i other. same.0 i ∙ ap leaf_of (others (2 * i) (λ e. other (omega (arith, e))));
          parents = λ i odd.
              pushed i
              ∙ ap (merged_at place (spec_path (depth nodes) 0 place) i)
                  (others i (λ e. omega (arith, e, odd)))
              ∙ ap (λ d. merged_at place (spec_path d 0 place) i (node_in t.nodes i))
                  (ap (λ (n : ℕ). log_ceil 64 (n % 2 ^ 32 / 2 + 1)) (sym same.1));
          ends = subst (λ n. (n ≡ 0) ⊎ (n % 2 ≡ 1)) (sym same.1) ends';
          grown = (omega (arith, inside, same.1), omega (arith, short, same.1));
        },
      )

  added-LeafAdded :
      (index : TreeIndex) (nodes' : NodeVec) (id : List ℕ) (ms : List Member)
      → HasLeaf nodes'
      → AreMembers identity t.nodes ms
      → identity l.signing_identity ≡ ok id
      → leaf_at t.nodes place ≡ none
      → IsIndexOf index (record { index = place; leaf = l; identity = id } ∷ ms)
      → LeafAdded identity l place t (ok place, record { index = index; nodes = nodes' })
  added-LeafAdded index nodes' id ms has h known blank indexed =
      leaf_added refl has.holds has.others has.parents has.ends has.grown (
        inserted-IsTree identity (record { index = place; leaf = l; identity = id }) t.nodes nodes'
          index ms h known
          (record { without = blank; within = has.holds; others = λ i e. sym (has.others i e) })
          indexed)

  -- At a blank place at most one leaf beyond the end, the leaf is entered, or refused and nothing is kept
  -- of it.
  pub add_leaf_at-LeafAdded :
      IsTree identity t
      → ((s : SigningIdentity) (x : Fault) → identity s ≢ fault x)
      → EndsWithLeaf t.nodes
      → place * 2 ≤ length t.nodes + 1
      → node_in t.nodes (place * 2) ≡ none
      → length t.nodes + 3 < 2 ^ 32
      → LeafAdded identity l place t (add_leaf_at identity l place t)
  add_leaf_at-LeafAdded h returns ends near blank small =
      let twice : 2 * place ≡ place * 2 = omega arith in
      let (nodes', has) = has_leaf ends near small in
      elim (Indexed-cases identity l place t.index h.members h.indexed
        (omega (arith, small, length-members identity t.nodes h.members h.listed))) [
          | broken x unknown q ↦ absurd (returns l.signing_identity x unknown)
          | rejected e out q kept ↦
              subst (LeafAdded identity l place t) (sym (after_index _ out q)) (
                leaf_refused e refl refl
                  (record { members = h.members; listed = h.listed; indexed = kept }))
          | taken id out known q indexed ↦
              subst (LeafAdded identity l place t)
                (sym (after_index _ out q ∙ after_put out has.nodes nodes' has.put has.merged))
                (added-LeafAdded out nodes' id h.members has h.listed known
                  (ap (λ i. leaf_of (node_in t.nodes i)) twice ∙ ap leaf_of blank) indexed)
        ]

-- The leaf from which the search starts: the one that is given, or the first.
abbrev pub StartsAt : Option ℕ → ℕ → Type 0
StartsAt given start = (given ≡ some start) ⊎ ((given ≡ none) × (start ≡ 0))

start_or_zero-StartsAt :
    (given : Option ℕ) (start : ℕ) → StartsAt given start → start_or_zero given ≡ start
start_or_zero-StartsAt given start (inl e) = ap start_or_zero e
start_or_zero-StartsAt given start (inr (e, first)) = ap start_or_zero e ∙ sym first

-- On a tree with fewer than 2 ^ 32 - 3 nodes that ends with a leaf and whose index tells what a walk over
-- its leaves would, from the start that is given, or the first leaf without one, where the start is at most
-- one leaf beyond the end, and with an identity provider that does not panic: there is a place, not before
-- the start and at most one leaf beyond the end, that is blank and before which every leaf from the start on
-- is occupied, and add_leaf either fails and leaves the nodes, or puts the leaf at this place, leaves every
-- other leaf, and appends the place to the unmerged leaves of the parents on its direct path and of no
-- others. In both cases the index keeps telling what a walk would.
pub add_leaf-LeafAdded :
    (identity : IdentityOf) (l : LeafNode) (given : Option ℕ) (start : ℕ) (t : TreeKemPublic)
    → IsTree identity t
    → ((s : SigningIdentity) (x : Fault) → identity s ≢ fault x)
    → EndsWithLeaf t.nodes
    → StartsAt given start
    → start * 2 ≤ length t.nodes + 1
    → length t.nodes + 3 < 2 ^ 32
    → (place : ℕ) × IsNextEmpty t.nodes start place
      × LeafAdded identity l place t (add_leaf identity l given t)
unfolding add_leaf
add_leaf-LeafAdded identity l given start t h returns ends starts near small =
    let place : ℕ = next_empty_leaf t.nodes start in
    let empty : IsNextEmpty t.nodes start place =
      next_empty_leaf-IsNextEmpty t.nodes start ends near (omega (arith, small)) in
    (
      place,
      empty,
      subst
          (λ k. LeafAdded identity l place t (add_leaf_at identity l (next_empty_leaf t.nodes k) t))
          (sym (start_or_zero-StartsAt given start starts))
          (add_leaf_at-LeafAdded identity l place t h returns ends empty.near_end empty.blank
            small),
    )
