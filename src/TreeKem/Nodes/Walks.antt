-- ===== src/TreeKem/Nodes/Walks.antt =====
-- mls-rs/src/tree_kem/node.rs: `non_empty_leaves` of two vectors that differ in one leaf.
use mls_rs_wasm_maybe_sync.Common.{
  ℕ, zero, suc, ◌+◌, ◌*◌, ◌≤◌, ◌≡◌, ◌≢◌, refl, sym, ap, ◌∙◌, List, [], ◌∷◌, ◌++◌, length, Option,
  none, some, arith,
}
use mls_rs_wasm_maybe_sync.TreeKem.Leaf.{LeafNode}
use mls_rs_wasm_maybe_sync.TreeKem.Nodes.{
  NodeVec, node_in, leaf_of, leaves, numbered, non_empty_leaves,
}

-- The leaf of a number.
abbrev pub leaf_at : NodeVec → ℕ → Option LeafNode
leaf_at nodes i = leaf_of (node_in nodes (2 * i))

abbrev pub walk : ℕ → NodeVec → List (ℕ × LeafNode)
walk n nodes = numbered n (leaves nodes)

abbrev cons_leaf : ℕ → Option LeafNode → List (ℕ × LeafNode) → List (ℕ × LeafNode)
cons_leaf n none rest = rest
cons_leaf n (some l) rest = (n, l) ∷ rest

-- The nodes behind the first leaf and the parent next to it.
abbrev behind : NodeVec → NodeVec
behind [] = []
behind (x ∷ []) = []
behind (x ∷ y ∷ ns) = ns

walk_step :
    (n : ℕ) (ns : NodeVec) → walk n ns ≡ cons_leaf n (leaf_at ns 0) (walk (suc n) (behind ns))
unfolding leaves node_in
walk_step n [] = refl
walk_step n (x ∷ []) = one n (leaf_of x)
  where
    one : (n : ℕ) (o : Option LeafNode) → numbered n (o ∷ []) ≡ cons_leaf n o (numbered (suc n) [])
    one n none = refl
    one n (some l) = refl
walk_step n (x ∷ y ∷ ns) = more n (leaf_of x) (leaves ns)
  where
    more :
        (n : ℕ) (o : Option LeafNode) (ls : List (Option LeafNode))
        → numbered n (o ∷ ls) ≡ cons_leaf n o (numbered (suc n) ls)
    more n none ls = refl
    more n (some l) ls = refl

leaf_at-behind : (ns : NodeVec) (i : ℕ) → leaf_at (behind ns) i ≡ leaf_at ns (suc i)
unfolding node_in
leaf_at-behind [] i = refl
leaf_at-behind (x ∷ []) i = ap (λ j. leaf_of (node_in (x ∷ []) j)) (two_on i)
  where
    two_on : (i : ℕ) → suc (suc (2 * i)) ≡ 2 * suc i
    two_on i = omega arith
leaf_at-behind (x ∷ y ∷ ns) i = ap (λ j. leaf_of (node_in (x ∷ y ∷ ns) j)) (two_on i)
  where
    two_on : (i : ℕ) → suc (suc (2 * i)) ≡ 2 * suc i
    two_on i = omega arith

length-behind : (ns : NodeVec) (k : ℕ) → length ns ≤ suc k → length (behind ns) ≤ k
length-behind [] k h = omega arith
length-behind (x ∷ []) k h = omega arith
length-behind (x ∷ y ∷ ns) k h = omega arith

walk_same_below :
    (k n : ℕ) (a b : NodeVec)
    → length a ≤ k
    → length b ≤ k
    → ((i : ℕ) → leaf_at a i ≡ leaf_at b i)
    → walk n a ≡ walk n b
walk_same_below zero n [] [] ha hb same = refl
walk_same_below zero n (x ∷ a) b ha hb same = absurd (omega arith)
walk_same_below zero n a (x ∷ b) ha hb same = absurd (omega arith)
walk_same_below (suc k) n a b ha hb same =
    walk_step n a
    ∙ ap (λ o. cons_leaf n o (walk (suc n) (behind a))) (same 0)
    ∙ ap (cons_leaf n (leaf_at b 0)) (
        walk_same_below k (suc n) (behind a) (behind b) (length-behind a k ha)
          (length-behind b k hb)
          (λ i. leaf_at-behind a i ∙ same (suc i) ∙ sym (leaf_at-behind b i)))
    ∙ sym (walk_step n b)

-- Vectors with the same leaves have the same walk.
pub walk_same :
    (n : ℕ) (a b : NodeVec) → ((i : ℕ) → leaf_at a i ≡ leaf_at b i) → walk n a ≡ walk n b
walk_same n a b same = walk_same_below (length a + length b) n a b (omega arith) (omega arith) same

-- The same leaves but for one place, which has a leaf in the second vector only.
pub record AreApartAt (place : ℕ) (l : LeafNode) (a b : NodeVec) : Type 0 where
  pub without : leaf_at a place ≡ none
  pub within : leaf_at b place ≡ some l
  pub others : (i : ℕ) → i ≢ place → leaf_at a i ≡ leaf_at b i

pub record IsAmong (n place : ℕ) (l : LeafNode) (a b : List (ℕ × LeafNode)) : Type 0 where
  pub before : List (ℕ × LeafNode)
  pub after : List (ℕ × LeafNode)
  pub without : a ≡ before ++ after
  pub within : b ≡ before ++ ((n + place, l) ∷ after)

walk-IsAmong :
    (n place : ℕ) (l : LeafNode) (a b : NodeVec)
    → AreApartAt place l a b
    → IsAmong n place l (walk n a) (walk n b)
walk-IsAmong n zero l a b h =
    let rest : walk (suc n) (behind a) ≡ walk (suc n) (behind b) =
      walk_same (suc n) (behind a) (behind b) (λ i.
        leaf_at-behind a i ∙ h.others (suc i) (λ e. omega (arith, e)) ∙ sym (leaf_at-behind b i)) in
    let here : n ≡ n + 0 = omega arith in
    record {
      before = [];
      after = walk (suc n) (behind b);
      without = walk_step n a ∙ ap (λ o. cons_leaf n o (walk (suc n) (behind a))) h.without ∙ rest;
      within =
          walk_step n b
          ∙ ap (λ o. cons_leaf n o (walk (suc n) (behind b))) h.within
          ∙ ap (λ z. (z, l) ∷ walk (suc n) (behind b)) here;
    }
walk-IsAmong n (suc place) l a b h =
    let rest : IsAmong (suc n) place l (walk (suc n) (behind a)) (walk (suc n) (behind b)) =
      walk-IsAmong (suc n) place l (behind a) (behind b) (record {
        without = leaf_at-behind a place ∙ h.without;
        within = leaf_at-behind b place ∙ h.within;
        others = λ i e.
            leaf_at-behind a i
            ∙ h.others (suc i) (λ z. e (omega (arith, z)))
            ∙ sym (leaf_at-behind b i);
      }) in
    let first : leaf_at a 0 ≡ leaf_at b 0 = h.others 0 (λ e. omega (arith, e)) in
    let later : suc n + place ≡ n + suc place = omega arith in
    record {
      before = cons_leaf n (leaf_at b 0) rest.before;
      after = rest.after;
      without =
          walk_step n a
          ∙ ap (λ o. cons_leaf n o (walk (suc n) (behind a))) first
          ∙ ap (cons_leaf n (leaf_at b 0)) rest.without
          ∙ assoc n (leaf_at b 0) rest.before rest.after;
      within =
          walk_step n b
          ∙ ap (cons_leaf n (leaf_at b 0)) rest.within
          ∙ assoc n (leaf_at b 0) rest.before ((suc n + place, l) ∷ rest.after)
          ∙ ap (λ z. cons_leaf n (leaf_at b 0) rest.before ++ ((z, l) ∷ rest.after)) later;
    }
  where
    assoc :
        (n : ℕ) (o : Option LeafNode) (xs ys : List (ℕ × LeafNode))
        → cons_leaf n o (xs ++ ys) ≡ cons_leaf n o xs ++ ys
    assoc n none xs ys = refl
    assoc n (some l) xs ys = refl

-- When one vector has a leaf at a place and the other none, the walks differ by that leaf alone.
pub non_empty_leaves-IsAmong :
    (place : ℕ) (l : LeafNode) (a b : NodeVec)
    → AreApartAt place l a b
    → IsAmong 0 place l (non_empty_leaves a) (non_empty_leaves b)
unfolding non_empty_leaves
non_empty_leaves-IsAmong place l a b h = walk-IsAmong 0 place l a b h

pub non_empty_leaves_same :
    (a b : NodeVec)
    → ((i : ℕ) → leaf_at a i ≡ leaf_at b i)
    → non_empty_leaves a ≡ non_empty_leaves b
unfolding non_empty_leaves
non_empty_leaves_same a b same = walk_same 0 a b same

length-walk : (n : ℕ) (ns : NodeVec) → length (walk n ns) * 2 ≤ length ns + 1
unfolding leaves
length-walk n [] = omega arith
length-walk n (x ∷ []) = one (leaf_of x)
  where
    one : (o : Option LeafNode) → length (numbered n (o ∷ [])) * 2 ≤ 2
    one none = omega arith
    one (some l) = omega arith
length-walk n (x ∷ y ∷ ns) = more (leaf_of x) (leaves ns) (length-walk (suc n) ns)
  where
    more :
        (o : Option LeafNode) (ls : List (Option LeafNode))
        → length (numbered (suc n) ls) * 2 ≤ length ns + 1
        → length (numbered n (o ∷ ls)) * 2 ≤ suc (suc (length ns)) + 1
    more none ls h = omega arith
    more (some l) ls h = omega arith

-- There are no more leaves than places for them.
pub length-non_empty_leaves : (ns : NodeVec) → length (non_empty_leaves ns) * 2 ≤ length ns + 1
unfolding non_empty_leaves
length-non_empty_leaves ns = length-walk 0 ns
