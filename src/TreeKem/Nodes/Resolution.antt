-- ===== src/TreeKem/Nodes/Resolution.antt =====
-- mls-rs/src/tree_kem/node.rs: `get_resolution_index` and `is_resolution_empty` against the recursive
-- definition of RFC 9420, section 4.1.1.
use mls_rs_wasm_maybe_sync.Common.{
  ℕ, zero, suc, ◌+◌, ◌-◌, ◌*◌, ◌^◌, ◌≤◌, ◌<◌, ◌≡◌, refl, sym, ap, ◌∙◌, List, [], ◌∷◌, ◌++◌,
  append-nil, append_assoc, map, ◌%◌, true, false, none, some, Option-cases, ok, bit_and, arith,
  inl, inr,
}
use mls_rs_wasm_maybe_sync.Common.Bits.{bit_and_mask}
use mls_rs_wasm_maybe_sync.TreeMath.{is_leaf}
use mls_rs_wasm_maybe_sync.TreeMath.Levels.{
  node_at, node_at-suc, children-node_at, trailing_ones-node_at,
}
use mls_rs_wasm_maybe_sync.TreeKem.Nodes.{
  Node, leaf, parent, NodeVec, node_in, node_index, unmerged, resolution_loop, get_resolution_index,
  rounds,
}
use native.Mathlib.Nat.{pow-suc, one-le-pow}

pub is_leaf-node_at : (q : ℕ) → is_leaf (node_at 0 q) ≡ true
unfolding is_leaf
is_leaf-node_at q =
    let even : bit_and (node_at 0 q) 1 ≡ 0 = bit_and_mask 1 (node_at 0 q) ∙ omega arith in
    rw even refl

pub is_leaf-node_at-suc : (l q : ℕ) → is_leaf (node_at (suc l) q) ≡ false
unfolding is_leaf
is_leaf-node_at-suc l q =
    let odd : bit_and (node_at (suc l) q) 1 ≡ 1 =
      bit_and_mask 1 (node_at (suc l) q) ∙ omega (arith, node_at-suc l q) in
    rw odd refl

-- What a node that is not blank stands for: itself, and behind it the places of the leaves that a parent has
-- not merged, at the level of the leaves and as `u32`.
abbrev spec_node : ℕ → Node → List ℕ
spec_node i (leaf l) = i ∷ []
spec_node i (parent p) = i ∷ map (λ k. node_at 0 k % 2 ^ 32) p.unmerged_leaves

spec_node-unmerged : (i : ℕ) (node : Node) → spec_node i node ≡ i ∷ unmerged node
spec_node-unmerged i (leaf l) = refl
spec_node-unmerged i (parent p) = ap (λ z. i ∷ z) (places p.unmerged_leaves)
  where
    places : (ks : List ℕ) → map (λ k. node_at 0 k % 2 ^ 32) ks ≡ map node_index ks
    places [] = refl
    places (k ∷ ks) =
        let here : node_at 0 k % 2 ^ 32 ≡ node_index k = omega arith in rw (here, places ks) refl

module _ (nodes : NodeVec) where
  -- The resolution of the `q`-th node of a level: a node that is not blank stands for itself and for its
  -- unmerged leaves, a blank parent for the resolutions of its children, a blank leaf for nothing.
  pub spec_resolution : ℕ → ℕ → List ℕ
  spec_resolution zero q = elim (node_in nodes (node_at 0 q)) [
    | some node ↦ spec_node (node_at 0 q) node
    | none ↦ []
  ]
  spec_resolution (suc l) q =
      let lefts = spec_resolution l (2 * q) in
      let rights = spec_resolution l (2 * q + 1) in
      elim (node_in nodes (node_at (suc l) q)) [
        | some node ↦ spec_node (node_at (suc l) q) node
        | none ↦ lefts ++ rights
      ]

  -- The rounds that the subtree of a node takes.
  pub used : ℕ → ℕ → ℕ
  used zero q = 1
  used (suc l) q =
      let lefts = used l (2 * q) in
      let rights = used l (2 * q + 1) in
      elim (node_in nodes (node_at (suc l) q)) [ some node ↦ 1 | none ↦ suc (lefts + rights) ]

  pub used_leaf : (q : ℕ) → used 0 q ≡ 1
  unfolding used
  used_leaf q = refl

  pub used_here : (l q : ℕ) (node : Node) → node_in nodes (node_at l q) ≡ some node → used l q ≡ 1
  unfolding used
  used_here zero q node here = refl
  used_here (suc l) q node here = rw (here, used)

  pub used_blank :
      (l q : ℕ)
      → node_in nodes (node_at (suc l) q) ≡ none
      → used (suc l) q ≡ suc (used l (2 * q) + used l (2 * q + 1))
  unfolding used
  used_blank l q blank = rw (blank, used)

  pub spec_here :
      (l q : ℕ) (node : Node)
      → node_in nodes (node_at l q) ≡ some node
      → spec_resolution l q ≡ node_at l q ∷ unmerged node
  unfolding spec_resolution
  spec_here zero q node here = rw (here, spec_resolution) (spec_node-unmerged (node_at 0 q) node)
  spec_here (suc l) q node here =
      rw (here, spec_resolution) (spec_node-unmerged (node_at (suc l) q) node)

  pub spec_blank_leaf : (q : ℕ) → node_in nodes (node_at 0 q) ≡ none → spec_resolution 0 q ≡ []
  unfolding spec_resolution
  spec_blank_leaf q blank = rw (blank, spec_resolution)

  pub spec_blank :
      (l q : ℕ)
      → node_in nodes (node_at (suc l) q) ≡ none
      → spec_resolution (suc l) q ≡ spec_resolution l (2 * q) ++ spec_resolution l (2 * q + 1)
  unfolding spec_resolution
  spec_blank l q blank = rw (blank, spec_resolution)

  pub used_bounds : (l q : ℕ) → (0 < used l q) × (used l q + 1 ≤ 2 ^ suc l)
  unfolding used
  used_bounds zero q = (omega arith, omega arith)
  used_bounds (suc l) q = elim (Option-cases (node_in nodes (node_at (suc l) q))) [
    | inl blank ↦ (
      omega (arith, used_blank l q blank),
      omega (
        arith,
        used_blank l q blank,
        used_bounds l (2 * q),
        used_bounds l (2 * q + 1),
        pow-suc 2 (suc l),
      ),
    )
    | inr (node, here) ↦ (
      omega (arith, used_here (suc l) q node here),
      omega (arith, used_here (suc l) q node here, pow-suc 2 (suc l), one-le-pow (suc l) 2),
    )
  ]

  loop_here :
      (i n : ℕ) (indexes resolution : List ℕ) (node : Node)
      → node_in nodes i ≡ some node
      → resolution_loop nodes (suc n) (i ∷ indexes) resolution
        ≡ resolution_loop nodes n indexes (resolution ++ (i ∷ unmerged node))
  unfolding resolution_loop
  loop_here i n indexes resolution node here = rw (here, resolution_loop)

  loop_leaf :
      (q n : ℕ) (indexes resolution : List ℕ)
      → node_in nodes (node_at 0 q) ≡ none
      → resolution_loop nodes (suc n) (node_at 0 q ∷ indexes) resolution
        ≡ resolution_loop nodes n indexes resolution
  unfolding resolution_loop
  loop_leaf q n indexes resolution blank = rw (blank, is_leaf-node_at q, resolution_loop)

  loop_parent :
      (l q n : ℕ) (indexes resolution : List ℕ)
      → l < 31
      → node_in nodes (node_at (suc l) q) ≡ none
      → resolution_loop nodes (suc n) (node_at (suc l) q ∷ indexes) resolution
        ≡ resolution_loop nodes n (node_at l (2 * q) ∷ node_at l (2 * q + 1) ∷ indexes) resolution
  unfolding resolution_loop
  loop_parent l q n indexes resolution h blank =
      let (lefts, rights) = children-node_at l q h in
      rw (blank, is_leaf-node_at-suc l q, lefts, rights, resolution_loop)

  resolves :
      (l q n fuel : ℕ) (indexes resolution : List ℕ)
      → l < 32
      → fuel ≡ used l q + n
      → resolution_loop nodes fuel (node_at l q ∷ indexes) resolution
        ≡ resolution_loop nodes n indexes (resolution ++ spec_resolution l q)
  resolves zero q n fuel indexes resolution h e =
      let one_more : fuel ≡ suc n = unfold used in omega arith in
      ap (λ f. resolution_loop nodes f (node_at 0 q ∷ indexes) resolution) one_more
      ∙ elim (Option-cases (node_in nodes (node_at 0 q))) [
        | inl blank ↦
            loop_leaf q n indexes resolution blank
            ∙ ap (λ r. resolution_loop nodes n indexes r) (sym (append-nil resolution))
            ∙ ap (λ s. resolution_loop nodes n indexes (resolution ++ s))
                (sym (spec_blank_leaf q blank))
        | inr (node, here) ↦
            loop_here (node_at 0 q) n indexes resolution node here
            ∙ ap (λ s. resolution_loop nodes n indexes (resolution ++ s))
                (sym (spec_here 0 q node here))
      ]
  resolves (suc l) q n fuel indexes resolution h e =
      elim (Option-cases (node_in nodes (node_at (suc l) q))) [
        | inl blank ↦
            let more : fuel ≡ suc (used l (2 * q) + (used l (2 * q + 1) + n)) =
              omega (arith, used_blank l q blank) in
            ap (λ f. resolution_loop nodes f (node_at (suc l) q ∷ indexes) resolution) more
            ∙ loop_parent l q _ indexes resolution (omega arith) blank
            ∙ resolves l (2 * q) (used l (2 * q + 1) + n) _ _ resolution (omega arith) refl
            ∙ resolves l (2 * q + 1) n _ indexes _ (omega arith) refl
            ∙ ap (resolution_loop nodes n indexes)
                (append_assoc resolution (spec_resolution l (2 * q)) _)
            ∙ ap (λ s. resolution_loop nodes n indexes (resolution ++ s))
                (sym (spec_blank l q blank))
        | inr (node, here) ↦
            let one_more : fuel ≡ suc n = omega (arith, used_here (suc l) q node here) in
            ap (λ f. resolution_loop nodes f (node_at (suc l) q ∷ indexes) resolution) one_more
            ∙ loop_here (node_at (suc l) q) n indexes resolution node here
            ∙ ap (λ s. resolution_loop nodes n indexes (resolution ++ s))
                (sym (spec_here (suc l) q node here))
      ]

  -- For the q-th node of a level up to 31, the loop of get_resolution_index ends, with the resolution of the
  -- node as RFC 9420 defines it: a node that is not blank and behind it the places of its unmerged leaves,
  -- as u32; for a blank parent the resolutions of its left and its right child; for a blank leaf nothing.
  pub get_resolution_index-spec_resolution :
      (l q : ℕ) → l < 32 → get_resolution_index nodes (node_at l q) ≡ ok (spec_resolution l q)
  unfolding get_resolution_index resolution_loop
  get_resolution_index-spec_resolution l q h =
      let total : rounds (node_at l q) ≡ 2 ^ suc l =
        ap (λ (k : ℕ). 2 ^ k) (omega (arith, trailing_ones-node_at 32 l q h)) in
      resolves l q (rounds (node_at l q) - used l q) _ [] [] h
        (omega (arith, used_bounds l q, total))
