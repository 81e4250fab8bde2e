-- ===== src/TreeKem/Public/Reverting.antt =====
-- mls-rs/src/tree_kem/mod.rs: the updates of `batch_edit` when proposals may be dropped: what becomes of each,
-- also when all are given up.
use mls_rs_wasm_maybe_sync.Common.{
  ℕ, ◌*◌, ◌<◌, ◌≡◌, ◌≢◌, refl, sym, ap, ◌∙◌, List, [], ◌∷◌, ◌++◌, append_assoc, append-nil, length,
  length-set, length-append, set, All, true, false, none, some, Result, ok, err, gives, fails,
  breaks, Result-cases, arith,
}
use mls_rs_wasm_maybe_sync.MlsError.{MlsError}
use mls_rs_wasm_maybe_sync.TreeKem.Leaf.{LeafNode}
use mls_rs_wasm_maybe_sync.TreeKem.Nodes.{NodeVec, leaf}
use mls_rs_wasm_maybe_sync.TreeKem.Nodes.Walks.{leaf_at}
use mls_rs_wasm_maybe_sync.TreeKem.Index.{TreeIndex, index_insert, insert_identified, insert}
use mls_rs_wasm_maybe_sync.TreeKem.Index.Insertion.{accepted, refused, Inserted-cases}
use mls_rs_wasm_maybe_sync.TreeKem.Index.Owners.{Member}
use mls_rs_wasm_maybe_sync.TreeKem.Public.{TreeKemPublic, IdentityOf}
use mls_rs_wasm_maybe_sync.TreeKem.Public.Applying.{insert_leaf_inside, All-pending, All-snoc}
use mls_rs_wasm_maybe_sync.TreeKem.Public.Edits.{no_updates}
use mls_rs_wasm_maybe_sync.TreeKem.Public.PutBack.{
  leaf_after, old_leaf_of, put_back_of, leaf_at-set, put_back_lem, put_back_of_other, back_accepted,
  back_refused,
}
use mls_rs_wasm_maybe_sync.TreeKem.Public.Removals.{PartialUpdate}
use mls_rs_wasm_maybe_sync.TreeKem.Public.Removing.{Returns}
use mls_rs_wasm_maybe_sync.TreeKem.Public.UpdateEdits.{
  Updates, revert_updates, restored, updated, apply_updates,
}
use mls_rs_wasm_maybe_sync.TreeKem.Public.Updating.{AreDistinct, IsPending, All-map}
use mls_rs_wasm_maybe_sync.TreeKem.Public.Outcomes.{updates_of, Settled, finished, given_up}

-- The two answers of the index, when the identity provider does not panic.
data Answered (identity : IdentityOf) (l : LeafNode) (place : ℕ) (x : TreeIndex) : Type 0 where
  takes :
      (x' : TreeIndex) → index_insert identity l place x ≡ (ok tt, x') → Answered identity l place x
  rejects :
      (e : MlsError) (x' : TreeIndex)
      → index_insert identity l place x ≡ (err e, x')
      → Answered identity l place x

Answered-cases :
    (identity : IdentityOf) (l : LeafNode) (place : ℕ) (x : TreeIndex)
    → Returns identity
    → Answered identity l place x
unfolding index_insert
Answered-cases identity l place x returns = elim (Result-cases (identity l.signing_identity)) [
  | fails e unknown ↦ rejects e x (ap (λ r. insert_identified place l r x) unknown)
  | breaks y unknown ↦ absurd (returns l.signing_identity y unknown)
  | gives id known ↦
      let new : Member = record { index = place; leaf = l; identity = id } in
      let reached : index_insert identity l place x ≡ insert place l id x =
        ap (λ r. insert_identified place l r x) known in
      elim (Inserted-cases new x) [
        | accepted free done ↦ takes _ (reached ∙ done)
        | refused e out kept conflict done ↦ rejects e out (reached ∙ done)
      ]
]

module _ (identity : IdentityOf) (returns : Returns identity) (index_clone : TreeIndex) where
  accept :
      (p : PartialUpdate) (ps : List PartialUpdate) (u : Updates) (t : TreeKemPublic)
      (x : TreeIndex) (z : Result MlsError Updates × TreeKemPublic)
      → index_insert identity p.new_leaf p.index t.index ≡ (ok tt, x)
      → p.index * 2 < length t.nodes
      → length u.removed_leaves ≡ length u.updated_indices
      → Settled identity index_clone ps
          (record u {
            removed_leaves = u.removed_leaves ++ (p.old_leaf ∷ []);
            updated_indices = u.updated_indices ++ (p.index ∷ []);
          })
          (record { index = x; nodes = set t.nodes (p.index * 2) (some (leaf p.new_leaf)) })
          z
      → Settled identity index_clone (p ∷ ps) u t z
  accept p ps u t x z q inside count (finished u' s e h) = finished u' s e (record {
    outcomes = (p, true) ∷ h.outcomes;
    whole = ap (λ z. p ∷ z) h.whole;
    decided = (x, q, h.decided);
    leaves = λ i.
        h.leaves i ∙ ap (leaf_after h.outcomes i) (leaf_at-set t.nodes p.index i p.new_leaf inside);
    updated_indices = h.updated_indices ∙ append_assoc u.updated_indices (p.index ∷ []) _;
    bad_indices = h.bad_indices;
  })
  accept p ps u t x z q inside count (given_up u' s e h) = given_up u' s e (record {
    before = (p, true) ∷ h.before;
    rejected = h.rejected;
    after = h.after;
    met = h.met;
    whole = ap (λ z. p ∷ z) h.whole;
    decided = (x, q, h.decided);
    conflict = h.conflict;
    leaves = λ i.
        h.leaves i
        ∙ ap (old_leaf_of (updates_of h.before) i) (
            ap
              (put_back_of (u.removed_leaves ++ (p.old_leaf ∷ []))
                (u.updated_indices ++ (p.index ∷ [])) i)
              (leaf_at-set t.nodes p.index i p.new_leaf inside)
            ∙ back_accepted u.removed_leaves u.updated_indices p i (leaf_at t.nodes i) count);
    lost = h.lost;
    index = h.index;
    updated_indices = h.updated_indices;
  })

  refuse :
      (p : PartialUpdate) (ps : List PartialUpdate) (u : Updates) (t : TreeKemPublic) (e : MlsError)
      (x x' : TreeIndex) (z : Result MlsError Updates × TreeKemPublic)
      → index_insert identity p.new_leaf p.index t.index ≡ (err e, x)
      → index_insert identity p.old_leaf p.index x ≡ (ok tt, x')
      → p.index * 2 < length t.nodes
      → All (λ k. k ≢ p.index) u.updated_indices
      → Settled identity index_clone ps
          (record u { bad_indices = u.bad_indices ++ (p.position ∷ []) })
          (record { index = x'; nodes = set t.nodes (p.index * 2) (some (leaf p.old_leaf)) })
          z
      → Settled identity index_clone (p ∷ ps) u t z
  refuse p ps u t e x x' z q q' inside others (finished u' s same h) = finished u' s same (record {
    outcomes = (p, false) ∷ h.outcomes;
    whole = ap (λ z. p ∷ z) h.whole;
    decided = (e, x, x', q, q', h.decided);
    leaves = λ i.
        h.leaves i ∙ ap (leaf_after h.outcomes i) (leaf_at-set t.nodes p.index i p.old_leaf inside);
    updated_indices = h.updated_indices;
    bad_indices = h.bad_indices ∙ append_assoc u.bad_indices (p.position ∷ []) _;
  })
  refuse p ps u t e x x' z q q' inside others (given_up u' s same h) = given_up u' s same (record {
    before = (p, false) ∷ h.before;
    rejected = h.rejected;
    after = h.after;
    met = h.met;
    whole = ap (λ z. p ∷ z) h.whole;
    decided = (e, x, x', q, q', h.decided);
    conflict = h.conflict;
    leaves = λ i.
        h.leaves i
        ∙ ap (old_leaf_of (updates_of h.before) i) (
            ap (put_back_of u.removed_leaves u.updated_indices i)
              (leaf_at-set t.nodes p.index i p.old_leaf inside)
            ∙ back_refused u.removed_leaves u.updated_indices p i (leaf_at t.nodes i) others);
    lost = h.lost;
    index = h.index;
    updated_indices = h.updated_indices;
  })

  -- The pending leaves stay blank when the leaves of `u` are put back.
  All-lost :
      (u : Updates) (nodes out : NodeVec) (ps : List PartialUpdate)
      → ((i : ℕ)
          → leaf_at out i ≡ put_back_of u.removed_leaves u.updated_indices i (leaf_at nodes i))
      → All (IsPending nodes) ps
      → All (λ q. All (λ k. k ≢ q.index) u.updated_indices) ps
      → All (λ q. leaf_at out q.index ≡ none) ps
  All-lost u nodes out [] h pending others = tt
  All-lost u nodes out (q ∷ ps) h ((blank, inside), pending) (other, others) = (
    h q.index ∙ put_back_of_other u.removed_leaves u.updated_indices q.index _ other ∙ blank,
    All-lost u nodes out ps h pending others,
  )

  settles :
      (ps : List PartialUpdate) (u : Updates) (t : TreeKemPublic)
      → All (IsPending t.nodes) ps
      → AreDistinct ps
      → length u.removed_leaves ≡ length u.updated_indices
      → All (λ k. k * 2 < length t.nodes) u.updated_indices
      → All (λ q. All (λ k. k ≢ q.index) u.updated_indices) ps
      → Settled identity index_clone ps u t (apply_updates identity true index_clone ps u t)
  unfolding apply_updates
  settles [] u t pending distinct count inside others = finished u t refl (record {
    outcomes = [];
    whole = refl;
    decided = refl;
    leaves = λ i. refl;
    updated_indices = sym (append-nil u.updated_indices);
    bad_indices = sym (append-nil u.bad_indices);
  })
  settles (p ∷ ps) u t (here, pending) (apart, distinct) count inside (other, others) =
      elim (Answered-cases identity p.new_leaf p.index t.index returns) [
        | takes x q ↦
            let size = length-set t.nodes (p.index * 2) (some (leaf p.new_leaf)) in
            rw q (
              unfold updated in
              rw (insert_leaf_inside t.nodes p.index p.new_leaf here.1) (
                accept p ps u t x _ q here.1 count (
                  settles ps _ _
                    (All-pending identity returns 0 t.nodes p p.new_leaf ps apart pending) distinct
                    (omega (
                      arith,
                      count,
                      length-append u.removed_leaves (p.old_leaf ∷ []),
                      length-append u.updated_indices (p.index ∷ []),
                    ))
                    (All-snoc identity returns 0 _ u.updated_indices p.index
                      (All-map _ _ u.updated_indices (λ k b. omega (arith, b, size)) inside)
                      (omega (arith, here.1, size)))
                    (each_apart ps apart others))))
        | rejects e x q ↦ elim (Answered-cases identity p.old_leaf p.index x returns) [
          | takes x' q' ↦
              let size = length-set t.nodes (p.index * 2) (some (leaf p.old_leaf)) in
              rw q (
                unfold updated in
                rw q' (
                  unfold restored in
                  rw (insert_leaf_inside t.nodes p.index p.old_leaf here.1) (
                    refuse p ps u t e x x' _ q q' here.1 other (
                      settles ps _ _
                        (All-pending identity returns 0 t.nodes p p.old_leaf ps apart pending)
                        distinct count
                        (All-map _ _ u.updated_indices (λ k b. omega (arith, b, size)) inside)
                        others))))
          | rejects e' x' q' ↦
              let (nodes, back, leaves) =
                put_back_lem u.removed_leaves u.updated_indices t.nodes inside in
              rw q (
                unfold updated in
                rw q' (
                  unfold restored revert_updates in
                  rw back (
                    given_up (record u { updated_indices = [] })
                      (record { index = index_clone; nodes = nodes }) refl
                      (record {
                        before = [];
                        rejected = p;
                        after = ps;
                        met = t.index;
                        whole = refl;
                        decided = refl;
                        conflict = (e, e', x, x', q, q');
                        leaves = leaves;
                        lost =
                            All-lost u t.nodes nodes (p ∷ ps) leaves (here, pending)
                              (other, others);
                        index = refl;
                        updated_indices = refl;
                      }))))
        ]
      ]
    where
      each_apart :
          (qs : List PartialUpdate)
          → All (λ q. q.index ≢ p.index) qs
          → All (λ q. All (λ k. k ≢ q.index) u.updated_indices) qs
          → All (λ q. All (λ k. k ≢ q.index) (u.updated_indices ++ (p.index ∷ []))) qs
      each_apart [] apart others = tt
      each_apart (q ∷ qs) (a, apart) (o, others) = (
        All-snoc identity returns 0 (λ k. k ≢ q.index) u.updated_indices p.index o (λ e. a (sym e)),
        each_apart qs apart others,
      )

-- When proposals may be dropped, for updates whose leaves are blank, within the tree and all different, and
-- with an identity provider that does not panic, the loop over the updates ends with a value in one of two
-- ways. Either each update has its new leaf, when the index takes it, or its old leaf, when the index takes
-- only that: then every other leaf is as before, and the loop returns the indices of the former and the
-- numbers of the latter. Or the index takes neither leaf of some update: then the updates before it have
-- their old leaves, its leaf and those of the updates after it are blank, every other leaf is as before, the
-- index is the one from before the loop, and no index counts as updated.
pub apply_updates-Settled :
    (identity : IdentityOf) (ps : List PartialUpdate) (t : TreeKemPublic)
    → Returns identity
    → All (IsPending t.nodes) ps
    → AreDistinct ps
    → Settled identity t.index ps no_updates t (apply_updates identity true t.index ps no_updates t)
apply_updates-Settled identity ps t returns pending distinct =
    settles identity returns t.index ps no_updates t pending distinct refl tt (none_before ps)
  where
    none_before :
        (qs : List PartialUpdate) → All (λ q. All (λ k. k ≢ q.index) no_updates.updated_indices) qs
    none_before [] = tt
    none_before (q ∷ qs) = (tt, none_before qs)
