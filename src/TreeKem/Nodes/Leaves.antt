-- ===== src/TreeKem/Nodes/Leaves.antt =====
-- mls-rs/src/tree_kem/node.rs: `next_empty_leaf` and `insert_leaf`.
use mls_rs_wasm_maybe_sync.Common.{
  ℕ, zero, suc, ◌+◌, ◌-◌, ◌*◌, ◌/◌, ◌%◌, ◌^◌, ◌≤◌, ◌<◌, ◌≡◌, ◌≢◌, ◌⊎◌, refl, sym, ap, subst, ◌∙◌,
  [], ◌∷◌, ◌++◌, length, length-set, length-append, length-drop, set, drop, ltb, lt→ltb, ltb→lt,
  ◌==◌, ==_iff, Bool-cases, true, Option, none, some, Option-cases, is_some, ok, arith, inl, inr,
}
use mls_rs_wasm_maybe_sync.TreeKem.Leaf.{LeafNode}
use mls_rs_wasm_maybe_sync.TreeKem.Nodes.{
  Node, leaf, NodeVec, node_in, node_index, empty_leaf_from, next_empty_leaf, grow, insert_leaf,
}
use mls_rs_wasm_maybe_sync.TreeKem.Nodes.Places.{
  node_in-set, node_in-set_other, node_in-snoc_blank, node_in-two_blanks, node_in-drop,
  node_in_beyond,
}

-- The vector is empty, or it ends with the place of a leaf.
abbrev pub EndsWithLeaf : NodeVec → Type 0
EndsWithLeaf nodes = (length nodes ≡ 0) ⊎ (length nodes % 2 ≡ 1)

-- Before the place that is found every leaf is occupied, and without one all are.
abbrev AreFull : NodeVec → ℕ → Type 0
AreFull ns j = (i : ℕ) → i < j → 2 * i < length ns → is_some (node_in ns (2 * i)) ≡ true

AreFull-suc :
    (x : Node) (m : Option Node) (ns : NodeVec) (j : ℕ)
    → AreFull ns j
    → AreFull (some x ∷ m ∷ ns) (suc j)
unfolding node_in
AreFull-suc x m ns j h zero lt inside = refl
AreFull-suc x m ns j h (suc i) lt inside =
    let two_on : suc (suc (2 * i)) ≡ 2 * suc i = omega arith in
    subst (λ k. is_some (node_in (some x ∷ m ∷ ns) k) ≡ true) two_on
      (h i (omega arith) (omega arith))

found :
    (n : ℕ) (ns : NodeVec) (m : ℕ)
    → empty_leaf_from n ns ≡ some m
    → (j : ℕ) × (m ≡ n + 2 * j) × (2 * j < length ns) × (node_in ns (2 * j) ≡ none) × AreFull ns j
unfolding empty_leaf_from node_in
found n [] m e = absurd (cc)
found n (none ∷ ns) m e = (0, ground arith, omega arith, refl, λ i lt inside. absurd (omega arith))
found n (some x ∷ []) m e = absurd (cc)
found n (some x ∷ y ∷ ns) m e =
    let (j, there, inside, blank, full) = found (n + 2) ns m e in
    let two_on : suc (suc (2 * j)) ≡ 2 * suc j = omega arith in
    (
      suc j,
      omega (arith, there),
      omega (arith, inside),
      subst (λ k. node_in (some x ∷ y ∷ ns) k ≡ none) two_on blank,
      AreFull-suc x y ns j full,
    )

unfound : (n : ℕ) (ns : NodeVec) (j : ℕ) → empty_leaf_from n ns ≡ none → AreFull ns j
unfolding empty_leaf_from node_in
unfound n [] j e i lt inside = absurd (omega arith)
unfound n (none ∷ ns) j e i lt inside = absurd (cc)
unfound n (some x ∷ []) j e zero lt inside = refl
unfound n (some x ∷ []) j e (suc i) lt inside = absurd (omega arith)
unfound n (some x ∷ y ∷ ns) j e i lt inside =
    AreFull-suc x y ns j (unfound (n + 2) ns j e) i (omega arith) inside

-- A blank leaf, at most one beyond the end, with none before it from the start on.
pub record IsNextEmpty (nodes : NodeVec) (start r : ℕ) : Type 0 where
  pub not_before : start ≤ r
  pub near_end : r * 2 ≤ length nodes + 1
  pub blank : node_in nodes (r * 2) ≡ none
  pub full : (i : ℕ) → start ≤ i → i < r → is_some (node_in nodes (i * 2)) ≡ true

module _ (nodes : NodeVec) (start : ℕ) where
  full_from :
      (r j : ℕ)
      → start * 2 < 2 ^ 32
      → AreFull (drop (node_index start) nodes) j
      → r ≤ start + j
      → r * 2 ≤ length nodes + 1
      → (i : ℕ) → start ≤ i
      → i < r
      → is_some (node_in nodes (i * 2)) ≡ true
  full_from r j u32 full le near i from lt =
      let place : node_index start + 2 * (i - start) ≡ i * 2 = omega arith in
      let inside : 2 * (i - start) < length (drop (node_index start) nodes) =
        omega (arith, length-drop (node_index start) nodes) in
      subst (λ n. is_some n ≡ true)
        (node_in-drop (node_index start) (2 * (i - start)) nodes ∙ ap (node_in nodes) place)
        (full (i - start) (omega arith) inside)

  next_found :
      (j : ℕ)
      → start * 2 < 2 ^ 32
      → 2 * j < length (drop (node_index start) nodes)
      → node_in (drop (node_index start) nodes) (2 * j) ≡ none
      → AreFull (drop (node_index start) nodes) j
      → IsNextEmpty nodes start (start + j)
  next_found j u32 inside empty full =
      let place : node_index start + 2 * j ≡ (start + j) * 2 = omega arith in
      let near : (start + j) * 2 ≤ length nodes + 1 =
        omega (arith, length-drop (node_index start) nodes) in
      record {
        not_before = omega arith;
        near_end = near;
        blank =
            ap (node_in nodes) (sym place)
            ∙ sym (node_in-drop (node_index start) (2 * j) nodes)
            ∙ empty;
        full = full_from (start + j) j u32 full (omega arith) near;
      }

  next_beyond :
      EndsWithLeaf nodes
      → start * 2 ≤ length nodes + 1
      → length nodes + 1 < 2 ^ 32
      → ((j : ℕ) → AreFull (drop (node_index start) nodes) j)
      → IsNextEmpty nodes start ((length nodes + 1) / 2)
  next_beyond ends near small full = record {
    not_before = omega arith;
    near_end = omega arith;
    blank =
        node_in_beyond nodes ((length nodes + 1) / 2 * 2)
          (elim ends [ inl empty ↦ omega arith | inr odd ↦ omega arith ]);
    full =
        full_from ((length nodes + 1) / 2) ((length nodes + 1) / 2) (omega arith) (full _)
          (omega arith) (omega arith);
  }

  halved :
      (n j : ℕ)
      → n ≡ node_index start + 2 * j
      → 2 * j < length (drop (node_index start) nodes)
      → start * 2 ≤ length nodes + 1
      → length nodes + 1 < 2 ^ 32
      → n % 2 ^ 32 / 2 ≡ start + j
  halved n j place inside near small = omega (arith, length-drop (node_index start) nodes)

  -- On a vector of fewer than 2 ^ 32 - 1 nodes that ends with the place of a leaf, from a leaf that is at
  -- most one beyond the end, next_empty_leaf returns a leaf at most one beyond the end that is blank and not
  -- before the start, and every leaf from the start up to it is occupied.
  pub next_empty_leaf-IsNextEmpty :
      EndsWithLeaf nodes
      → start * 2 ≤ length nodes + 1
      → length nodes + 1 < 2 ^ 32
      → IsNextEmpty nodes start (next_empty_leaf nodes start)
  unfolding next_empty_leaf
  next_empty_leaf-IsNextEmpty ends near small =
      elim (Option-cases (empty_leaf_from (node_index start) (drop (node_index start) nodes))) [
        | inl full ↦
            let result : next_empty_leaf nodes start ≡ (length nodes + 1) / 2 =
              rw (full, next_empty_leaf) (omega arith) in
            subst (IsNextEmpty nodes start) (sym result)
              (next_beyond ends near small (λ j. unfound _ _ j full))
        | inr (n, there) ↦
            let u32 : start * 2 < 2 ^ 32 = omega arith in
            let (j, place, inside, empty, full) = found _ _ n there in
            let result : next_empty_leaf nodes start ≡ start + j =
              rw (there, next_empty_leaf) (halved n j place inside near small) in
            subst (IsNextEmpty nodes start) (sym result) (next_found j u32 inside empty full)
      ]

-- A vector after blanks have been pushed to reach a leaf.
abbrev IsGrown : NodeVec → ℕ → NodeVec → Type 0
IsGrown nodes index g =
    (index * 2 < length g) × ((i : ℕ) → node_in g i ≡ node_in nodes i) × (length g % 2 ≡ 1)

grow-IsGrown :
    (nodes : NodeVec) (index : ℕ)
    → EndsWithLeaf nodes
    → index * 2 ≤ length nodes + 1
    → IsGrown nodes index (grow nodes (index * 2))
grow-IsGrown nodes index ends near = elim (Bool-cases (ltb (length nodes) (index * 2))) [
  | inl beyond ↦
      let two : grow nodes (index * 2) ≡ nodes ++ (none ∷ none ∷ []) = rw beyond in
      let past : length nodes < index * 2 = ltb→lt _ _ beyond in
      let count : length (nodes ++ (none ∷ none ∷ [])) ≡ length nodes + 2 =
        length-append nodes (none ∷ none ∷ []) in
      subst (IsGrown nodes index) (sym two) (
        omega (arith, count, past, near),
        node_in-two_blanks nodes,
        omega (arith, count, past, near),
      )
  | inr within ↦ elim (Bool-cases (length nodes == 0)) [
    | inl empty ↦
        let one : grow nodes (index * 2) ≡ nodes ++ (none ∷ []) = rw (within, empty) in
        let nil : length nodes ≡ 0 = (==_iff (length nodes) 0).0 empty in
        let count : length (nodes ++ (none ∷ [])) ≡ length nodes + 1 =
          length-append nodes (none ∷ []) in
        subst (IsGrown nodes index) (sym one)
          (omega (arith, count, nil, near), node_in-snoc_blank nodes, omega (arith, count, nil))
    | inr some_node ↦
        let same : grow nodes (index * 2) ≡ nodes = rw (within, some_node) in
        let up_to : index * 2 ≤ length nodes = ground (arith, within) in
        let odd : length nodes % 2 ≡ 1 = ground (arith, ends, some_node) in
        subst (IsGrown nodes index) (sym same) (omega (arith, up_to, odd), λ i. refl, odd)
  ]
]

-- At a leaf that is at most one beyond the end of a vector that ends with the place of a leaf,
-- `insert_leaf` succeeds: it puts the leaf there, leaves the node at every other place, and the vector
-- ends with the place of a leaf.
pub insert_leaf_lem :
    (nodes : NodeVec) (index : ℕ) (l : LeafNode)
    → EndsWithLeaf nodes
    → index * 2 ≤ length nodes + 1
    → (out : NodeVec) × (insert_leaf nodes index l ≡ ok out)
      × (node_in out (index * 2) ≡ some (leaf l))
      × ((i : ℕ) → index * 2 ≢ i → node_in out i ≡ node_in nodes i)
      × EndsWithLeaf out
insert_leaf_lem nodes index l ends near =
    let (inside, same, odd) = grow-IsGrown nodes index ends near in
    (
      set (grow nodes (index * 2)) (index * 2) (some (leaf l)),
      unfold insert_leaf in rw (lt→ltb _ _ inside),
      node_in-set _ (index * 2) _ inside,
      λ i other. node_in-set_other _ (index * 2) i _ other ∙ same i,
      inr (ap (λ n. n % 2) (length-set (grow nodes (index * 2)) _ _) ∙ odd),
    )
