-- ===== src/TreeKem/Nodes/Places.antt =====
-- mls-rs/src/tree_kem/node.rs: the node at a place of the vector after a write, a push or a cut.
use mls_rs_wasm_maybe_sync.Common.{
  ℕ, zero, suc, ◌+◌, ◌<◌, ◌≤◌, ◌≡◌, ◌≢◌, refl, ap, List, [], ◌∷◌, ◌++◌, length, set, drop,
  get_last?, Option, none, some, arith, get_elem?,
}
use mls_rs_wasm_maybe_sync.TreeKem.Nodes.{Node, NodeVec, node_in, pop}

pub node_in-set :
    (nodes : NodeVec) (i : ℕ) (n : Option Node) → i < length nodes → node_in (set nodes i n) i ≡ n
unfolding node_in
node_in-set [] i n h = absurd (omega arith)
node_in-set (x ∷ xs) zero n h = refl
node_in-set (x ∷ xs) (suc i) n h = node_in-set xs i n (omega arith)

pub node_in-set_other :
    (nodes : NodeVec) (i j : ℕ) (n : Option Node)
    → i ≢ j
    → node_in (set nodes i n) j ≡ node_in nodes j
unfolding node_in
node_in-set_other [] i j n h = refl
node_in-set_other (x ∷ xs) zero zero n h = absurd (h refl)
node_in-set_other (x ∷ xs) zero (suc j) n h = refl
node_in-set_other (x ∷ xs) (suc i) zero n h = refl
node_in-set_other (x ∷ xs) (suc i) (suc j) n h = node_in-set_other xs i j n (λ e. h (ap suc e))

-- What is blanked stays blank, and a blank node can be written anywhere.
pub node_in_blanked : (nodes : NodeVec) (i : ℕ) → node_in (set nodes i none) i ≡ none
unfolding node_in
node_in_blanked [] i = refl
node_in_blanked (x ∷ xs) zero = refl
node_in_blanked (x ∷ xs) (suc i) = node_in_blanked xs i

pub node_in_stays_blank :
    (nodes : NodeVec) (i j : ℕ) → node_in nodes j ≡ none → node_in (set nodes i none) j ≡ none
unfolding node_in
node_in_stays_blank [] i j h = refl
node_in_stays_blank (x ∷ xs) zero zero h = refl
node_in_stays_blank (x ∷ xs) zero (suc j) h = h
node_in_stays_blank (x ∷ xs) (suc i) zero h = h
node_in_stays_blank (x ∷ xs) (suc i) (suc j) h = node_in_stays_blank xs i j h

pub node_in-snoc_blank :
    (nodes : NodeVec) (i : ℕ) → node_in (nodes ++ (none ∷ [])) i ≡ node_in nodes i
unfolding node_in
node_in-snoc_blank [] zero = refl
node_in-snoc_blank [] (suc i) = refl
node_in-snoc_blank (x ∷ xs) zero = refl
node_in-snoc_blank (x ∷ xs) (suc i) = node_in-snoc_blank xs i

pub node_in-two_blanks :
    (nodes : NodeVec) (i : ℕ) → node_in (nodes ++ (none ∷ none ∷ [])) i ≡ node_in nodes i
unfolding node_in
node_in-two_blanks [] zero = refl
node_in-two_blanks [] (suc zero) = refl
node_in-two_blanks [] (suc (suc i)) = refl
node_in-two_blanks (x ∷ xs) zero = refl
node_in-two_blanks (x ∷ xs) (suc i) = node_in-two_blanks xs i

pub node_in-drop : (k i : ℕ) (nodes : NodeVec) → node_in (drop k nodes) i ≡ node_in nodes (k + i)
unfolding node_in
node_in-drop zero i nodes = ap (node_in nodes) (omega arith)
node_in-drop (suc k) i [] = refl
node_in-drop (suc k) i (x ∷ xs) = ground (arith, node_in-drop k i xs)

pub node_in_beyond : (nodes : NodeVec) (i : ℕ) → length nodes ≤ i → node_in nodes i ≡ none
unfolding node_in
node_in_beyond [] i h = refl
node_in_beyond (x ∷ xs) zero h = absurd (omega arith)
node_in_beyond (x ∷ xs) (suc i) h = node_in_beyond xs i (omega arith)

-- A blank last node is taken off without a change to the node at any place.
pub node_in-pop :
    (nodes : NodeVec) (i : ℕ)
    → get_last? nodes ≡ some none
    → node_in (pop nodes) i ≡ node_in nodes i
unfolding node_in
node_in-pop [] i h = refl
node_in-pop (x ∷ []) zero h = cc
node_in-pop (x ∷ []) (suc i) h = refl
node_in-pop (x ∷ y ∷ xs) zero h = refl
node_in-pop (x ∷ y ∷ xs) (suc i) h = node_in-pop (y ∷ xs) i h

pub length-pop : {A : Type 0} (x : A) (xs : List A) → length (pop (x ∷ xs)) ≡ length xs
length-pop x [] = refl
length-pop x (y ∷ xs) = ap suc (length-pop y xs)

pub node_in-get_elem? :
    (nodes : NodeVec) (i : ℕ) (n : Option Node) → get_elem? nodes i ≡ some n → node_in nodes i ≡ n
unfolding node_in
node_in-get_elem? [] i n h = absurd (cc)
node_in-get_elem? (m ∷ nodes) zero n h = cc
node_in-get_elem? (m ∷ nodes) (suc i) n h = node_in-get_elem? nodes i n h

pub get_elem?-node_in :
    (nodes : NodeVec) (i : ℕ) → i < length nodes → get_elem? nodes i ≡ some (node_in nodes i)
unfolding node_in
get_elem?-node_in [] i h = absurd (omega arith)
get_elem?-node_in (m ∷ nodes) zero h = refl
get_elem?-node_in (m ∷ nodes) (suc i) h = get_elem?-node_in nodes i (omega arith)

-- A node that is not blank stands in the vector.
pub node_in_inside :
    (nodes : NodeVec) (i : ℕ) (n : Node) → node_in nodes i ≡ some n → i < length nodes
unfolding node_in
node_in_inside [] i n h = absurd (cc)
node_in_inside (m ∷ nodes) zero n h = omega arith
node_in_inside (m ∷ nodes) (suc i) n h =
    let rest : i < length nodes = node_in_inside nodes i n h in omega (arith, rest)
