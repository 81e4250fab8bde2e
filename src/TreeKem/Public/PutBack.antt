-- ===== src/TreeKem/Public/PutBack.antt =====
-- mls-rs/src/tree_kem/mod.rs: the leaves that the updates of `batch_edit` put, and that it puts back.
use mls_rs_wasm_maybe_sync.Common.{
  ℕ, ◌*◌, ◌<◌, ◌≡◌, ◌≢◌, refl, sym, ap, subst, ◌∙◌, List, [], ◌∷◌, ◌++◌, length, length-set, set,
  All, Bool, true, false, Bool-cases, ◌==◌, ==_iff, if◌then◌else◌, Option, some, ok, arith, inl,
  inr,
}
use mls_rs_wasm_maybe_sync.TreeKem.Leaf.{LeafNode}
use mls_rs_wasm_maybe_sync.TreeKem.Nodes.{NodeVec, leaf, leaf_of, node_in}
use mls_rs_wasm_maybe_sync.TreeKem.Nodes.Places.{node_in-set, node_in-set_other}
use mls_rs_wasm_maybe_sync.TreeKem.Nodes.Walks.{leaf_at}
use mls_rs_wasm_maybe_sync.TreeKem.Public.Applying.{insert_leaf_inside}
use mls_rs_wasm_maybe_sync.TreeKem.Public.Removals.{PartialUpdate}
use mls_rs_wasm_maybe_sync.TreeKem.Public.UpdateEdits.{put_back}
use mls_rs_wasm_maybe_sync.TreeKem.Public.Updating.{All-map}

-- A leaf at a place, over what an assignment at a place changes.
abbrev pub with_leaf : ℕ → LeafNode → ℕ → Option LeafNode → Option LeafNode
with_leaf place l i o = if place == i then some l else o

with_leaf_here : (i : ℕ) (l : LeafNode) (o : Option LeafNode) → with_leaf i l i o ≡ some l
with_leaf_here i l o =
    let same : (i == i) ≡ true = (==_iff i i).1 refl in ap (λ b. if b then some l else o) same

with_leaf_other :
    (place i : ℕ) (l : LeafNode) (o : Option LeafNode) → place ≢ i → with_leaf place l i o ≡ o
with_leaf_other place i l o other = elim (Bool-cases (place == i)) [
  | inl hit ↦ absurd (other ((==_iff place i).0 hit))
  | inr miss ↦ ap (λ b. if b then some l else o) miss
]

-- The leaves of a list of updates with what became of each: the new leaf, or the old one again.
abbrev pub leaf_after : List (PartialUpdate × Bool) → ℕ → Option LeafNode → Option LeafNode
leaf_after [] i o = o
leaf_after ((p, true) ∷ ps) i o = leaf_after ps i (with_leaf p.index p.new_leaf i o)
leaf_after ((p, false) ∷ ps) i o = leaf_after ps i (with_leaf p.index p.old_leaf i o)

-- The leaves when updates are undone: the old one of each.
abbrev pub old_leaf_of : List PartialUpdate → ℕ → Option LeafNode → Option LeafNode
old_leaf_of [] i o = o
old_leaf_of (p ∷ ps) i o = old_leaf_of ps i (with_leaf p.index p.old_leaf i o)

-- The indices of the updates that were accepted, and the numbers of those that were refused.
abbrev pub accepted_indices : List (PartialUpdate × Bool) → List ℕ
accepted_indices [] = []
accepted_indices ((p, true) ∷ ps) = p.index ∷ accepted_indices ps
accepted_indices ((p, false) ∷ ps) = accepted_indices ps

abbrev pub refused_positions : List (PartialUpdate × Bool) → List ℕ
refused_positions [] = []
refused_positions ((p, true) ∷ ps) = refused_positions ps
refused_positions ((p, false) ∷ ps) = p.position ∷ refused_positions ps

-- The leaves that `put_back` assigns.
abbrev pub put_back_of : List LeafNode → List ℕ → ℕ → Option LeafNode → Option LeafNode
put_back_of [] indices i o = o
put_back_of (l ∷ ls) [] i o = o
put_back_of (l ∷ ls) (k ∷ ks) i o = put_back_of ls ks i (with_leaf k l i o)

pub leaf_at-set :
    (nodes : NodeVec) (place i : ℕ) (l : LeafNode)
    → place * 2 < length nodes
    → leaf_at (set nodes (place * 2) (some (leaf l))) i ≡ with_leaf place l i (leaf_at nodes i)
leaf_at-set nodes place i l inside = elim (Bool-cases (place == i)) [
  | inl hit ↦
      let same : place ≡ i = (==_iff place i).0 hit in
      let twice : 2 * i ≡ place * 2 = omega (arith, same) in
      ap (λ k. leaf_of (node_in (set nodes (place * 2) (some (leaf l))) k)) twice
      ∙ ap leaf_of (node_in-set nodes (place * 2) (some (leaf l)) inside)
      ∙ ap (λ b. if b then some l else leaf_at nodes i) (sym hit)
  | inr miss ↦
      ap leaf_of (
        node_in-set_other nodes (place * 2) (2 * i) (some (leaf l))
          (λ e. absurd (cc ((==_iff place i).1 (omega (arith, e))))))
      ∙ ap (λ b. if b then some l else leaf_at nodes i) (sym miss)
]

pub put_back_lem :
    (ls : List LeafNode) (ks : List ℕ) (nodes : NodeVec)
    → All (λ k. k * 2 < length nodes) ks
    → (out : NodeVec) × (put_back ls ks nodes ≡ ok out)
      × ((i : ℕ) → leaf_at out i ≡ put_back_of ls ks i (leaf_at nodes i))
unfolding put_back
put_back_lem [] ks nodes h = (nodes, refl, λ i. refl)
put_back_lem (l ∷ ls) [] nodes h = (nodes, refl, λ i. refl)
put_back_lem (l ∷ ls) (k ∷ ks) nodes (inside, h) =
    let count = length-set nodes (k * 2) (some (leaf l)) in
    let (out, rest, leaves) =
      put_back_lem ls ks (set nodes (k * 2) (some (leaf l)))
        (All-map _ _ ks (λ j b. omega (arith, b, count)) h) in
    (
      out,
      rw (insert_leaf_inside nodes k l inside) rest,
      λ i. leaves i ∙ ap (put_back_of ls ks i) (leaf_at-set nodes k i l inside),
    )

put_back_of-snoc :
    (ls : List LeafNode) (ks : List ℕ) (l : LeafNode) (k i : ℕ) (o : Option LeafNode)
    → length ls ≡ length ks
    → put_back_of (ls ++ (l ∷ [])) (ks ++ (k ∷ [])) i o ≡ with_leaf k l i (put_back_of ls ks i o)
put_back_of-snoc [] [] l k i o h = refl
put_back_of-snoc [] (x ∷ ks) l k i o h = absurd (omega (arith, h))
put_back_of-snoc (x ∷ ls) [] l k i o h = absurd (omega (arith, h))
put_back_of-snoc (x ∷ ls) (y ∷ ks) l k i o h =
    put_back_of-snoc ls ks l k i (with_leaf y x i o) (omega (arith, h))

-- At a place that is not put back.
pub put_back_of_other :
    (ls : List LeafNode) (ks : List ℕ) (i : ℕ) (o : Option LeafNode)
    → All (λ k. k ≢ i) ks
    → put_back_of ls ks i o ≡ o
put_back_of_other [] ks i o h = refl
put_back_of_other (l ∷ ls) [] i o h = refl
put_back_of_other (l ∷ ls) (k ∷ ks) i o (other, h) =
    put_back_of_other ls ks i (with_leaf k l i o) h ∙ with_leaf_other k i l o other

-- A leaf that has been put back over a new one, and one that was never replaced.
pub back_accepted :
    (ls : List LeafNode) (ks : List ℕ) (p : PartialUpdate) (i : ℕ) (o : Option LeafNode)
    → length ls ≡ length ks
    → put_back_of
        (ls ++ (p.old_leaf ∷ []))
        (ks ++ (p.index ∷ []))
        i
        (with_leaf p.index p.new_leaf i o)
      ≡ with_leaf p.index p.old_leaf i (put_back_of ls ks i o)
back_accepted ls ks p i o h =
    put_back_of-snoc ls ks p.old_leaf p.index i _ h
    ∙ elim (Bool-cases (p.index == i)) [ inl hit ↦ rw hit refl | inr miss ↦ rw miss refl ]

pub back_refused :
    (ls : List LeafNode) (ks : List ℕ) (p : PartialUpdate) (i : ℕ) (o : Option LeafNode)
    → All (λ k. k ≢ p.index) ks
    → put_back_of ls ks i (with_leaf p.index p.old_leaf i o)
      ≡ with_leaf p.index p.old_leaf i (put_back_of ls ks i o)
back_refused ls ks p i o h = elim (Bool-cases (p.index == i)) [
  | inl hit ↦
      subst
        (λ j.
          put_back_of ls ks j (with_leaf p.index p.old_leaf j o)
          ≡ with_leaf p.index p.old_leaf j (put_back_of ls ks j o))
        ((==_iff p.index i).0 hit)
        (put_back_of_other ls ks p.index _ h
          ∙ with_leaf_here p.index p.old_leaf o
          ∙ sym (with_leaf_here p.index p.old_leaf (put_back_of ls ks p.index o)))
  | inr miss ↦ rw miss refl
]
