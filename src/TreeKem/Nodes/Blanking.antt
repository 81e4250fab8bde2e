-- ===== src/TreeKem/Nodes/Blanking.antt =====
-- mls-rs/src/tree_kem/node.rs: `trim`, `blank_leaf_node`, `blank_direct_path` and
-- `borrow_or_fill_node_as_parent`.
use mls_rs_wasm_maybe_sync.Common.{
  ℕ, zero, suc, ◌+◌, ◌-◌, ◌≤◌, ◌<◌, ◌≡◌, ◌≢◌, ◌⊎◌, refl, sym, ap, ◌∙◌, List, [], ◌∷◌, ◌++◌, length,
  length-set, length-append, set, get_last?, leb, Bool-cases, true, false, Option, none, some,
  Option-cases, ok, err, All, arith, inl, inr,
}
use mls_rs_wasm_maybe_sync.MlsError.{MlsError, invalid_node_index}
use mls_rs_wasm_maybe_sync.TreeMath.{CopathNode}
use mls_rs_wasm_maybe_sync.TreeKem.Leaf.{LeafNode}
use mls_rs_wasm_maybe_sync.TreeKem.Nodes.{
  Node, leaf, parent, NodeVec, node_in, node_index, validate_index, as_parent, nodes_direct_copath,
  take_leaf, take_at, fill_at, blank_leaf_node, blank_all, blank_direct_path, pop, ends_blank,
  trim_loop, trim, push_blanks, filled, next_power_of_two, borrow_or_fill_node_as_parent,
}
use mls_rs_wasm_maybe_sync.TreeKem.Nodes.Places.{
  node_in-set, node_in-set_other, node_in_blanked, node_in_stays_blank, node_in-snoc_blank,
  node_in-pop, length-pop,
}

-- The same node at every place, no longer than before, and not blank at the end.
pub record IsTrimmed (nodes out : NodeVec) : Type 0 where
  pub same : (i : ℕ) → node_in out i ≡ node_in nodes i
  pub shorter : length out ≤ length nodes
  pub occupied_end : get_last? out ≢ some none

ends_blank-false : (nodes : NodeVec) → ends_blank nodes ≡ false → get_last? nodes ≢ some none
ends_blank-false nodes h p = cc

ends_blank-true : (nodes : NodeVec) → ends_blank nodes ≡ true → get_last? nodes ≡ some none
ends_blank-true nodes h = elim (Option-cases (get_last? nodes)) [
  | inl nothing ↦ absurd (cc)
  | inr (none, there) ↦ there
  | inr (some n, there) ↦ absurd (cc)
]

trims :
    (fuel : ℕ) (nodes : NodeVec)
    → length nodes ≤ fuel
    → (out : NodeVec) × (trim_loop fuel nodes ≡ ok out) × IsTrimmed nodes out
unfolding trim_loop
trims zero [] enough =
    ([], refl, record { same = λ i. refl; shorter = omega arith; occupied_end = λ p. cc })
trims (suc fuel) [] enough =
    ([], refl, record { same = λ i. refl; shorter = omega arith; occupied_end = λ p. cc })
trims zero (n ∷ ns) enough = absurd (omega arith)
trims (suc fuel) (n ∷ ns) enough = elim (Bool-cases (ends_blank (n ∷ ns))) [
  | inl blank ↦
      let (out, done, t) = trims fuel (pop (n ∷ ns)) (omega (arith, length-pop n ns)) in
      let last = ends_blank-true (n ∷ ns) blank in
      (
        out,
        rw (blank, trim_loop) done,
        record {
          same = λ i. t.same i ∙ node_in-pop (n ∷ ns) i last;
          shorter = omega (arith, t.shorter, length-pop n ns);
          occupied_end = t.occupied_end;
        },
      )
  | inr occupied ↦ (
    n ∷ ns,
    rw (occupied, trim_loop),
    record {
      same = λ i. refl;
      shorter = omega arith;
      occupied_end = ends_blank-false (n ∷ ns) occupied;
    },
  )
]

-- The loop of `trim` ends: it leaves the node at every place, and no blank node at the end.
pub trim-IsTrimmed :
    (nodes : NodeVec) → (out : NodeVec) × (trim nodes ≡ ok out) × IsTrimmed nodes out
unfolding trim
trim-IsTrimmed nodes = trims (length nodes) nodes (omega arith)

-- What `blank_leaf_node` has done.
pub data Blanked (nodes : NodeVec) (index : ℕ) : Type 0 where
  taken :
      (l : LeafNode)
      → node_in nodes (node_index index) ≡ some (leaf l)
      → blank_leaf_node nodes index ≡ (ok l, set nodes (node_index index) none)
      → Blanked nodes index
  refused :
      (x : MlsError) (out : NodeVec)
      → blank_leaf_node nodes index ≡ (err x, out)
      → Blanked nodes index

pub validate_index-cases :
    (nodes : NodeVec) (i : ℕ)
    → (validate_index nodes i ≡ ok i) ⊎ (validate_index nodes i ≡ err (invalid_node_index i))
unfolding validate_index
validate_index-cases nodes i = elim (Bool-cases (leb (next_power_of_two (length nodes)) i)) [
  | inl beyond ↦ inr (rw beyond)
  | inr inside ↦ inl (rw inside)
]

pub Blanked-cases : (nodes : NodeVec) (index : ℕ) → Blanked nodes index
unfolding blank_leaf_node
Blanked-cases nodes index = elim (validate_index-cases nodes (node_index index)) [
  | inr beyond ↦ refused _ _ (ap (λ i. take_at i nodes) beyond)
  | inl inside ↦ elim (Option-cases (node_in nodes (node_index index))) [
    | inl blank ↦ refused _ _ (ap (λ i. take_at i nodes) inside ∙ taking blank)
    | inr (leaf l, here) ↦ taken l here (ap (λ i. take_at i nodes) inside ∙ taking here)
    | inr (parent p, here) ↦ refused _ _ (ap (λ i. take_at i nodes) inside ∙ taking here)
  ]
]
  where
    taking :
        {n : Option Node}
        → node_in nodes (node_index index) ≡ n
        → take_leaf (node_in nodes (node_index index)) (node_index index) nodes
          ≡ take_leaf n (node_index index) nodes
    taking h = ap (λ n. take_leaf n (node_index index) nodes) h

-- A `blank_leaf_node` that succeeds returns the leaf of the index, which is blank afterwards, and every
-- other node stays.
blank_leaf_node_lem :
    (nodes : NodeVec) (index : ℕ) (l : LeafNode)
    → (blank_leaf_node nodes index).0 ≡ ok l
    → (node_in nodes (node_index index) ≡ some (leaf l))
      × (node_in (blank_leaf_node nodes index).1 (node_index index) ≡ none)
      × ((i : ℕ)
          → node_index index ≢ i
          → node_in (blank_leaf_node nodes index).1 i ≡ node_in nodes i)
blank_leaf_node_lem nodes index l h = elim (Blanked-cases nodes index) [
  | refused x out q ↦ absurd (cc)
  | taken l' here q ↦
      let same : l' ≡ l = cc (ap (λ z. z.0) q) in
      let left : (blank_leaf_node nodes index).1 ≡ set nodes (node_index index) none =
        ap (λ z. z.1) q in
      (
        here ∙ ap (λ z. some (leaf z)) same,
        ap (λ z. node_in z (node_index index)) left ∙ node_in_blanked nodes (node_index index),
        λ i other.
            ap (λ z. node_in z i) left ∙ node_in-set_other nodes (node_index index) i none other,
      )
]

blank_all_keeps :
    (path : List CopathNode) (nodes : NodeVec) (i : ℕ)
    → node_in nodes i ≡ none
    → node_in (blank_all path nodes) i ≡ none
blank_all_keeps [] nodes i h = h
blank_all_keeps (n ∷ path) nodes i h =
    blank_all_keeps path (set nodes n.path none) i (node_in_stays_blank nodes n.path i h)

blank_all_path :
    (path : List CopathNode) (nodes : NodeVec)
    → All (λ n. node_in (blank_all path nodes) n.path ≡ none) path
blank_all_path [] nodes = tt
blank_all_path (n ∷ path) nodes = (
  blank_all_keeps path (set nodes n.path none) n.path (node_in_blanked nodes n.path),
  blank_all_path path (set nodes n.path none),
)

blank_all_others :
    (path : List CopathNode) (nodes : NodeVec) (i : ℕ)
    → All (λ n. n.path ≢ i) path
    → node_in (blank_all path nodes) i ≡ node_in nodes i
blank_all_others [] nodes i h = refl
blank_all_others (n ∷ path) nodes i (hn, h) =
    blank_all_others path (set nodes n.path none) i h ∙ node_in-set_other nodes n.path i none hn

-- When the direct path of a leaf is a given path, blank_direct_path leaves every node of it blank
-- and the node at every other place as it was.
blank_direct_path_lem :
    (nodes : NodeVec) (index : ℕ) (path : List CopathNode)
    → nodes_direct_copath nodes index ≡ ok path
    → (out : NodeVec) × (blank_direct_path nodes index ≡ ok out)
      × All (λ n. node_in out n.path ≡ none) path
      × ((i : ℕ) → All (λ n. n.path ≢ i) path → node_in out i ≡ node_in nodes i)
unfolding blank_direct_path
blank_direct_path_lem nodes index path h =
    (blank_all path nodes, rw h, blank_all_path path nodes, blank_all_others path nodes)

node_in-push_blanks :
    (k : ℕ) (nodes : NodeVec) (i : ℕ) → node_in (push_blanks k nodes) i ≡ node_in nodes i
node_in-push_blanks zero nodes i = refl
node_in-push_blanks (suc k) nodes i =
    node_in-push_blanks k (nodes ++ (none ∷ [])) i ∙ node_in-snoc_blank nodes i

length-push_blanks : (k : ℕ) (nodes : NodeVec) → length (push_blanks k nodes) ≡ k + length nodes
length-push_blanks zero nodes = omega arith
length-push_blanks (suc k) nodes =
    omega (arith, length-push_blanks k (nodes ++ (none ∷ [])), length-append nodes (none ∷ []))

-- For an index that `validate_index` accepts, `borrow_or_fill_node_as_parent` grows the vector to reach
-- the index, puts an empty parent with the public key there if the node is blank, returns that node if it
-- is a parent, and leaves the node at every other place.
pub borrow_or_fill_node_as_parent_lem :
    (nodes : NodeVec) (index : ℕ) (public_key : List ℕ)
    → validate_index nodes index ≡ ok index
    → (out : NodeVec) × (borrow_or_fill_node_as_parent nodes index public_key
        ≡ (as_parent (node_in out index), out))
      × (node_in out index ≡ filled public_key (node_in nodes index))
      × ((i : ℕ) → index ≢ i → node_in out i ≡ node_in nodes i)
      × (index < length out)
unfolding borrow_or_fill_node_as_parent
borrow_or_fill_node_as_parent_lem nodes index public_key valid =
    let grown : NodeVec = push_blanks (suc index - length nodes) nodes in
    let count = length-push_blanks (suc index - length nodes) nodes in
    let inside : index < length grown = omega (arith, count) in
    let there = node_in-set grown index (filled public_key (node_in grown index)) inside in
    let old = node_in-push_blanks (suc index - length nodes) nodes in
    (
      set grown index (filled public_key (node_in grown index)),
      ap (λ i. fill_at i nodes public_key) valid
          ∙ ap (λ n. (as_parent n, set grown index (filled public_key (node_in grown index))))
              (sym there),
      there ∙ ap (filled public_key) (old index),
      λ i other. node_in-set_other grown index i _ other ∙ old i,
      omega (arith, inside, length-set grown index (filled public_key (node_in grown index))),
    )
