-- ===== src/TreeKem/Nodes.antt =====
-- mls-rs/src/tree_kem/node.rs: the nodes of the ratchet tree as a vector, blank ones included. A mutable
-- borrow is the value that it refers to; the caller's write is `set`.
pub mod Resolution
pub mod Emptiness
pub mod Filtered
pub mod Places
pub mod Leaves
pub mod Blanking
pub mod Walks
use mls_rs_wasm_maybe_sync.Common.{
  ℕ, zero, suc, ◌+◌, ◌-◌, ◌*◌, ◌/◌, ◌%◌, ◌^◌, List, [], ◌∷◌, ◌++◌, map, length, get_elem?, set,
  drop, get_last?, ltb, leb, ◌==◌, if◌then◌else◌, Bool, true, false, Option, none, some, is_none,
  Result, ok, err, fault, out_of_fuel, panicked, ok_or, ◌>>=◌,
}
use mls_rs_wasm_maybe_sync.MlsError.{
  MlsError, expected_node, unexpected_empty_node, invalid_node_index, removing_non_existing_member,
}
use mls_rs_wasm_maybe_sync.TreeMath.{
  CopathNode, direct_copath, left_unchecked, right_unchecked, trailing_ones, is_leaf,
}
use mls_rs_wasm_maybe_sync.TreeKem.Leaf.{LeafNode}

pub record Parent : Type 0 where
  pub public_key : List ℕ
  pub parent_hash : List ℕ
  pub unmerged_leaves : List ℕ

pub data Node : Type 0 where
  leaf : LeafNode → Node
  parent : Parent → Node

-- `Node::public_key`
abbrev pub node_public_key : Node → List ℕ
node_public_key (leaf l) = l.public_key
node_public_key (parent p) = p.public_key

abbrev pub NodeVec : Type 0
NodeVec = List (Option Node)

-- `NodeIndex::from`
abbrev pub node_index : ℕ → ℕ
node_index leaf_index = leaf_index * 2 % 2 ^ 32

-- `NodeTypeResolver`
abbrev pub as_parent : Option Node → Result MlsError Parent
as_parent none = err expected_node
as_parent (some (leaf l)) = err expected_node
as_parent (some (parent p)) = ok p

abbrev pub as_leaf : Option Node → Result MlsError LeafNode
as_leaf none = err expected_node
as_leaf (some (leaf l)) = ok l
as_leaf (some (parent p)) = err expected_node

abbrev pub as_non_empty : Option Node → Result MlsError Node
as_non_empty n = ok_or n unexpected_empty_node

-- The least exponent of a power of two that is not below a word of `w` bits.
unfoldable pub log_ceil : ℕ → ℕ → ℕ
log_ceil zero n = 0
log_ceil (suc w) n = if leb n 1 then 0 else suc (log_ceil w ((n + 1) / 2))

abbrev pub next_power_of_two : ℕ → ℕ
next_power_of_two n = 2 ^ log_ceil 64 n

-- `self.len() as u32 / 2 + 1`
abbrev pub total_leaf_count : NodeVec → ℕ
total_leaf_count nodes = next_power_of_two (length nodes % 2 ^ 32 / 2 + 1)

-- `unwrap_or(&None)` and `if let Some(Some(node))`: the node at a place, if there is one.
unfoldable pub node_in : NodeVec → ℕ → Option Node
node_in [] i = none
node_in (n ∷ ns) zero = n
node_in (n ∷ ns) (suc i) = node_in ns i

unfoldable pub validate_index : NodeVec → ℕ → Result MlsError ℕ
validate_index nodes index =
    if leb (next_power_of_two (length nodes)) index
    then err (invalid_node_index index)
    else ok index

unfoldable pub borrow_node : NodeVec → ℕ → Result MlsError (Option Node)
borrow_node nodes index = validate_index nodes index >>= λ i. ok (node_in nodes i)

unfoldable pub is_blank : NodeVec → ℕ → Result MlsError Bool
is_blank nodes index = borrow_node nodes index >>= λ n. ok (is_none n)

-- `iter().step_by(2).map(|n| n.as_leaf().ok())`
abbrev pub leaf_of : Option Node → Option LeafNode
leaf_of none = none
leaf_of (some (leaf l)) = some l
leaf_of (some (parent p)) = none

unfoldable pub leaves : NodeVec → List (Option LeafNode)
leaves [] = []
leaves (n ∷ []) = leaf_of n ∷ []
leaves (n ∷ m ∷ ns) = leaf_of n ∷ leaves ns

-- `enumerate().filter_map(..)`, from a first number
abbrev pub numbered {ℓ} : {A : Type ℓ} → ℕ → List (Option A) → List (ℕ × A)
numbered i [] = []
numbered i (none ∷ xs) = numbered (suc i) xs
numbered i (some x ∷ xs) = (i, x) ∷ numbered (suc i) xs

unfoldable pub non_empty_leaves : NodeVec → List (ℕ × LeafNode)
unfolding leaves
non_empty_leaves nodes = numbered 0 (leaves nodes)

unfoldable pub nodes_direct_copath : NodeVec → ℕ → Result MlsError (List CopathNode)
nodes_direct_copath nodes index = direct_copath (node_index index) (total_leaf_count nodes)

-- `self.get_mut(node_index).and_then(Option::take)`, with what was taken
abbrev pub take_leaf : Option Node → ℕ → NodeVec → Result MlsError LeafNode × NodeVec
take_leaf none i nodes = (err removing_non_existing_member, nodes)
take_leaf (some (leaf l)) i nodes = (ok l, set nodes i none)
take_leaf (some (parent p)) i nodes = (err removing_non_existing_member, set nodes i none)

abbrev pub take_at : Result MlsError ℕ → NodeVec → Result MlsError LeafNode × NodeVec
take_at (err e) nodes = (err e, nodes)
take_at (fault x) nodes = (fault x, nodes)
take_at (ok i) nodes = take_leaf (node_in nodes i) i nodes

unfoldable pub blank_leaf_node : NodeVec → ℕ → Result MlsError LeafNode × NodeVec
blank_leaf_node nodes leaf_index = take_at (validate_index nodes (node_index leaf_index)) nodes

abbrev pub blank_all : List CopathNode → NodeVec → NodeVec
blank_all [] nodes = nodes
blank_all (n ∷ path) nodes = blank_all path (set nodes n.path none)

unfoldable pub blank_direct_path : NodeVec → ℕ → Result MlsError NodeVec
unfolding nodes_direct_copath
blank_direct_path nodes leaf_index =
    nodes_direct_copath nodes leaf_index >>= λ path. ok (blank_all path nodes)

-- `Vec::pop`, without the element
abbrev pub pop {ℓ} : {A : Type ℓ} → List A → List A
pop [] = []
pop (x ∷ []) = []
pop (x ∷ y ∷ xs) = x ∷ pop (y ∷ xs)

-- `self.last() == Some(&None)`
abbrev pub ends_blank : NodeVec → Bool
ends_blank nodes = elim (get_last? nodes) [ none ↦ false | some n ↦ is_none n ]

-- `while self.last() == Some(&None) { self.pop(); }`, for as many rounds as there are nodes
unfoldable pub trim_loop : ℕ → NodeVec → Result MlsError NodeVec
trim_loop zero nodes = if ends_blank nodes then fault out_of_fuel else ok nodes
trim_loop (suc fuel) nodes = elim (ends_blank nodes) [
  | false ↦ ok nodes
  | true ↦ trim_loop fuel (pop nodes)
]

unfoldable pub trim : NodeVec → Result MlsError NodeVec
unfolding trim_loop
trim nodes = trim_loop (length nodes) nodes

unfoldable pub borrow_as_parent : NodeVec → ℕ → Result MlsError Parent
unfolding borrow_node
borrow_as_parent nodes node_index = borrow_node nodes node_index >>= as_parent

unfoldable pub borrow_as_parent_mut : NodeVec → ℕ → Result MlsError Parent
borrow_as_parent_mut nodes node_index = do
  index ← validate_index nodes node_index
  n ← ok_or (get_elem? nodes index) (invalid_node_index node_index)
  as_parent n

unfoldable pub borrow_as_leaf_mut : NodeVec → ℕ → Result MlsError LeafNode
borrow_as_leaf_mut nodes index = do
  i ← validate_index nodes (node_index index)
  n ← ok_or (get_elem? nodes i) (invalid_node_index (node_index index))
  as_leaf n

unfoldable pub borrow_as_leaf : NodeVec → ℕ → Result MlsError LeafNode
unfolding borrow_node
borrow_as_leaf nodes index = borrow_node nodes (node_index index) >>= as_leaf

-- `while self.len() <= index { self.push(None); }`
abbrev pub push_blanks : ℕ → NodeVec → NodeVec
push_blanks zero nodes = nodes
push_blanks (suc n) nodes = push_blanks n (nodes ++ (none ∷ []))

abbrev pub filled : List ℕ → Option Node → Option Node
filled public_key (some n) = some n
filled public_key none =
    some (parent (record { public_key = public_key; parent_hash = []; unmerged_leaves = [] }))

abbrev pub fill_at : Result MlsError ℕ → NodeVec → List ℕ → Result MlsError Parent × NodeVec
fill_at (err e) nodes public_key = (err e, nodes)
fill_at (fault x) nodes public_key = (fault x, nodes)
fill_at (ok index) nodes public_key =
    let grown = push_blanks (suc index - length nodes) nodes in
    let n = filled public_key (node_in grown index) in (as_parent n, set grown index n)

unfoldable pub borrow_or_fill_node_as_parent :
    NodeVec → ℕ → List ℕ → Result MlsError Parent × NodeVec
borrow_or_fill_node_as_parent nodes node_index public_key =
    fill_at (validate_index nodes node_index) nodes public_key

-- The leaves that a parent adds to its resolution.
abbrev pub unmerged : Node → List ℕ
unmerged (leaf l) = []
unmerged (parent p) = map node_index p.unmerged_leaves

-- The stack of indices with its top first. A blank parent is taken off and its two children put on.
unfoldable pub resolution_loop : NodeVec → ℕ → List ℕ → List ℕ → Result MlsError (List ℕ)
resolution_loop nodes fuel [] resolution = ok resolution
resolution_loop nodes zero (index ∷ indexes) resolution = fault out_of_fuel
resolution_loop nodes (suc fuel) (index ∷ indexes) resolution = elim (node_in nodes index) [
  | some node ↦ resolution_loop nodes fuel indexes (resolution ++ (index ∷ unmerged node))
  | none ↦ (elim (is_leaf index) [
    | true ↦ resolution_loop nodes fuel indexes resolution
    | false ↦
        resolution_loop nodes fuel (left_unchecked index ∷ right_unchecked index ∷ indexes)
          resolution
  ])
]

-- The subtree of a node of level l has less than 2 ^ (l + 1) nodes.
abbrev pub rounds : ℕ → ℕ
rounds index = 2 ^ (trailing_ones 32 index + 1)

unfoldable pub get_resolution_index : NodeVec → ℕ → Result MlsError (List ℕ)
get_resolution_index nodes index = resolution_loop nodes (rounds index) (index ∷ []) []

-- `find_in_resolution` with nothing to find, as `is_resolution_empty` calls it: it ends at the first node.
unfoldable pub find_loop : NodeVec → ℕ → List ℕ → Result MlsError (Option ℕ)
find_loop nodes fuel [] = ok none
find_loop nodes zero (index ∷ indexes) = fault out_of_fuel
find_loop nodes (suc fuel) (index ∷ indexes) = elim (node_in nodes index) [
  | some node ↦ ok (some 0)
  | none ↦ (elim (is_leaf index) [
    | true ↦ find_loop nodes fuel indexes
    | false ↦ find_loop nodes fuel (left_unchecked index ∷ right_unchecked index ∷ indexes)
  ])
]

unfoldable pub is_resolution_empty : NodeVec → ℕ → Result MlsError Bool
unfolding find_loop
is_resolution_empty nodes index =
    find_loop nodes (rounds index) (index ∷ []) >>= λ found. ok (is_none found)

-- `.map(|cp| self.is_resolution_empty(cp.copath)).collect()`
unfoldable pub filter_path : NodeVec → List CopathNode → Result MlsError (List Bool)
unfolding is_resolution_empty
filter_path nodes [] = ok []
filter_path nodes (n ∷ path) = do
  empty ← is_resolution_empty nodes n.copath
  rest ← filter_path nodes path
  ok (empty ∷ rest)

unfoldable pub filtered : NodeVec → ℕ → Result MlsError (List Bool)
unfolding nodes_direct_copath filter_path
filtered nodes index = nodes_direct_copath nodes index >>= filter_path nodes

-- The steps of `while n < self.len()`, from the node `n` on: the first blank leaf, or none.
unfoldable pub empty_leaf_from : ℕ → NodeVec → Option ℕ
empty_leaf_from n [] = none
empty_leaf_from n (none ∷ ns) = some n
empty_leaf_from n (some x ∷ []) = none
empty_leaf_from n (some x ∷ m ∷ ns) = empty_leaf_from (n + 2) ns

unfoldable pub next_empty_leaf : NodeVec → ℕ → ℕ
unfolding empty_leaf_from
next_empty_leaf nodes start =
    elim (empty_leaf_from (node_index start) (drop (node_index start) nodes)) [
      | some n ↦ n % 2 ^ 32 / 2
      | none ↦ (length nodes + 1) % 2 ^ 32 / 2
    ]

abbrev pub grow : NodeVec → ℕ → NodeVec
grow nodes node_index =
    if ltb (length nodes) node_index
    then nodes ++ (none ∷ none ∷ [])
    else (if length nodes == 0 then nodes ++ (none ∷ []) else nodes)

-- The index of the assignment may be out of bounds.
unfoldable pub insert_leaf : NodeVec → ℕ → LeafNode → Result MlsError NodeVec
insert_leaf nodes index new_leaf =
    if ltb (index * 2) (length (grow nodes (index * 2)))
    then ok (set (grow nodes (index * 2)) (index * 2) (some (leaf new_leaf)))
    else fault panicked
