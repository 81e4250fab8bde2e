-- ===== src/TreeKem/Nodes/Emptiness.antt =====
-- mls-rs/src/tree_kem/node.rs: `is_resolution_empty`, which stops at the first node that is not blank.
use mls_rs_wasm_maybe_sync.Common.{
  ℕ, zero, suc, ◌+◌, ◌-◌, ◌*◌, ◌^◌, ◌<◌, ◌≡◌, refl, sym, ap, ◌∙◌, List, [], ◌∷◌, ◌++◌, Bool, true,
  false, Option, none, some, Option-cases, is_none, Result, ok, ◌>>=◌, arith, inl, inr,
}
use mls_rs_wasm_maybe_sync.MlsError.{MlsError}
use mls_rs_wasm_maybe_sync.TreeMath.Levels.{node_at, children-node_at, trailing_ones-node_at}
use mls_rs_wasm_maybe_sync.TreeKem.Nodes.{
  Node, NodeVec, node_in, rounds, find_loop, is_resolution_empty,
}
use mls_rs_wasm_maybe_sync.TreeKem.Nodes.Resolution.{
  is_leaf-node_at, is_leaf-node_at-suc, spec_resolution, spec_here, spec_blank_leaf, spec_blank,
  used, used_leaf, used_here, used_blank, used_bounds,
}

-- One of two values, by whether there is an entry.
abbrev if_nil {ℓ} : {A : Type ℓ} → List ℕ → A → A → A
if_nil [] a b = a
if_nil (x ∷ xs) a b = b

if_nil-append {ℓ} :
    {A : Type ℓ} (xs ys : List ℕ) (a b : A) → if_nil xs (if_nil ys a b) b ≡ if_nil (xs ++ ys) a b
if_nil-append [] ys a b = refl
if_nil-append (x ∷ xs) ys a b = refl

abbrev pub is_nil : List ℕ → Bool
is_nil [] = true
is_nil (x ∷ xs) = false

abbrev emptiness : Result MlsError (Option ℕ) → Result MlsError Bool
emptiness r = r >>= λ found. ok (is_none found)

found-is_nil : (xs : List ℕ) → emptiness (if_nil xs (ok none) (ok (some 0))) ≡ ok (is_nil xs)
found-is_nil [] = refl
found-is_nil (x ∷ xs) = refl

module _ (nodes : NodeVec) where
  find_here :
      (i n : ℕ) (indexes : List ℕ) (node : Node)
      → node_in nodes i ≡ some node
      → find_loop nodes (suc n) (i ∷ indexes) ≡ ok (some 0)
  unfolding find_loop
  find_here i n indexes node here = rw (here, find_loop)

  find_leaf :
      (q n : ℕ) (indexes : List ℕ)
      → node_in nodes (node_at 0 q) ≡ none
      → find_loop nodes (suc n) (node_at 0 q ∷ indexes) ≡ find_loop nodes n indexes
  unfolding find_loop
  find_leaf q n indexes blank = rw (blank, is_leaf-node_at q, find_loop)

  find_parent :
      (l q n : ℕ) (indexes : List ℕ)
      → l < 31
      → node_in nodes (node_at (suc l) q) ≡ none
      → find_loop nodes (suc n) (node_at (suc l) q ∷ indexes)
        ≡ find_loop nodes n (node_at l (2 * q) ∷ node_at l (2 * q + 1) ∷ indexes)
  unfolding find_loop
  find_parent l q n indexes h blank =
      let (lefts, rights) = children-node_at l q h in
      rw (blank, is_leaf-node_at-suc l q, lefts, rights, find_loop)

  finds :
      (l q n fuel : ℕ) (indexes : List ℕ)
      → l < 32
      → fuel ≡ used nodes l q + n
      → find_loop nodes fuel (node_at l q ∷ indexes)
        ≡ if_nil (spec_resolution nodes l q) (find_loop nodes n indexes) (ok (some 0))
  finds zero q n fuel indexes h e =
      let one_more : fuel ≡ suc n = omega (arith, used_leaf nodes q) in
      ap (λ f. find_loop nodes f (node_at 0 q ∷ indexes)) one_more
      ∙ elim (Option-cases (node_in nodes (node_at 0 q))) [
        | inl blank ↦
            find_leaf q n indexes blank
            ∙ ap (λ s. if_nil s (find_loop nodes n indexes) (ok (some 0)))
                (sym (spec_blank_leaf nodes q blank))
        | inr (node, here) ↦
            find_here (node_at 0 q) n indexes node here
            ∙ ap (λ s. if_nil s (find_loop nodes n indexes) (ok (some 0)))
                (sym (spec_here nodes 0 q node here))
      ]
  finds (suc l) q n fuel indexes h e = elim (Option-cases (node_in nodes (node_at (suc l) q))) [
    | inl blank ↦
        let more : fuel ≡ suc (used nodes l (2 * q) + (used nodes l (2 * q + 1) + n)) =
          omega (arith, used_blank nodes l q blank) in
        ap (λ f. find_loop nodes f (node_at (suc l) q ∷ indexes)) more
        ∙ find_parent l q _ indexes (omega arith) blank
        ∙ finds l (2 * q) (used nodes l (2 * q + 1) + n) _ _ (omega arith) refl
        ∙ ap (λ z. if_nil (spec_resolution nodes l (2 * q)) z (ok (some 0)))
            (finds l (2 * q + 1) n _ indexes (omega arith) refl)
        ∙ if_nil-append (spec_resolution nodes l (2 * q)) _ _ _
        ∙ ap (λ s. if_nil s (find_loop nodes n indexes) (ok (some 0)))
            (sym (spec_blank nodes l q blank))
    | inr (node, here) ↦
        let one_more : fuel ≡ suc n = omega (arith, used_here nodes (suc l) q node here) in
        ap (λ f. find_loop nodes f (node_at (suc l) q ∷ indexes)) one_more
        ∙ find_here (node_at (suc l) q) n indexes node here
        ∙ ap (λ s. if_nil s (find_loop nodes n indexes) (ok (some 0)))
            (sym (spec_here nodes (suc l) q node here))
  ]

  -- For the q-th node of a level up to 31, the search ends, and tells whether the resolution of the
  -- node as RFC 9420 defines it is empty.
  pub is_resolution_empty-spec_resolution :
      (l q : ℕ)
      → l < 32
      → is_resolution_empty nodes (node_at l q) ≡ ok (is_nil (spec_resolution nodes l q))
  unfolding is_resolution_empty find_loop
  is_resolution_empty-spec_resolution l q h =
      let total : rounds (node_at l q) ≡ 2 ^ suc l =
        ap (λ (k : ℕ). 2 ^ k) (omega (arith, trailing_ones-node_at 32 l q h)) in
      ap emptiness (
        finds l q (rounds (node_at l q) - used nodes l q) _ [] h
          (omega (arith, used_bounds nodes l q, total)))
      ∙ found-is_nil (spec_resolution nodes l q)
