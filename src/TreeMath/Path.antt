-- ===== src/TreeMath/Path.antt =====
-- mls-rs/src/tree_kem/math.rs: parents, siblings and the direct path with its copath.
use mls_rs_wasm_maybe_sync.Common.{
  ℕ, zero, suc, ◌+◌, ◌-◌, ◌*◌, ◌/◌, ◌%◌, ◌^◌, ◌≤◌, ◌<◌, ◌≡◌, refl, sym, ap, subst, ◌∙◌, bit_and,
  bit_or, List, [], ◌∷◌, length, ltb, ◌==◌, ==_iff, lt→ltb, if◌then◌else◌, true, false, Bool-cases,
  none, some, ok, arith, inl, inr,
}
use mls_rs_wasm_maybe_sync.Common.Bits.{
  bit_and_split, bit_or_split, bit_or-zero, bit_and_mask, two_pow_add, bit_or_fields,
}
use mls_rs_wasm_maybe_sync.TreeMath.{
  CopathNode, not32, trailing_ones, root, parent_of, parent_sibling, is_in_tree, copath_loop,
  direct_copath,
}
use mls_rs_wasm_maybe_sync.TreeMath.Levels.{
  node_at, node_at_form, node_at-suc, trailing_ones-node_at, shl32-one, pow_small, children-node_at,
}
use native.Mathlib.Nat.{
  pow-suc, one-le-pow, pow-le-pow_right, mod-eq_of_lt, mul-le-mul_right, suc-add,
}
use native.Mathlib.Numerals.{add-one}

-- Bit 1 of twice a number is masked out.
and_mask_fields :
    (a r m : ℕ)
    → r < 2
    → a < 2 ^ m
    → bit_and (a * 2 ^ 2 + 2 * r) ((2 ^ m - 1) * 2 ^ 2 + 1) ≡ a * 2 ^ 2
and_mask_fields a zero m hr ha =
    ground (arith, bit_and_split 2 a (2 ^ m - 1) 0 1, bit_and_mask m a, mod-eq_of_lt ha)
and_mask_fields a (suc zero) m hr ha =
    ground (arith, bit_and_split 2 a (2 ^ m - 1) 2 1, bit_and_mask m a, mod-eq_of_lt ha)
and_mask_fields a (suc (suc r)) m hr ha = absurd (omega arith)

and_mask : (q m : ℕ) → q < 2 ^ suc m → bit_and (2 * q) (4 * (2 ^ m - 1) + 1) ≡ 4 * (q / 2)
and_mask q m h =
    ap (λ x. bit_and x (4 * (2 ^ m - 1) + 1)) (omega arith)
    ∙ ap (bit_and (q / 2 * 2 ^ 2 + 2 * (q % 2))) (omega arith)
    ∙ and_mask_fields (q / 2) (q % 2) m (omega arith) (omega (arith, pow-suc 2 m))
    ∙ omega arith

-- The mask `!(1 << (l + 1))` in fields around bit `l`, where `l + m` is 30.
mask_fields :
    (l m : ℕ) → l + m ≡ 30 → not32 (2 ^ suc l) ≡ (4 * (2 ^ m - 1) + 1) * 2 ^ l + (2 ^ l - 1)
mask_fields l m e =
    let whole : 2 ^ 30 ≡ 2 ^ m * 2 ^ l = ap (λ (t : ℕ). 2 ^ t) (sym e) ∙ two_pow_add l m in
    let above : 2 ^ m ≡ 2 ^ m - 1 + 1 = omega (arith, one-le-pow m 2) in
    let split : 2 ^ m * 2 ^ l ≡ (2 ^ m - 1) * 2 ^ l + 2 ^ l =
      ap (λ (t : ℕ). t * 2 ^ l) above ∙ omega arith in
    omega (arith, whole, split, pow-suc 2 l, one-le-pow l 2)

cleared :
    (l m q : ℕ)
    → l + m ≡ 30
    → q < 2 ^ suc m
    → bit_and (node_at l q) (not32 (2 ^ suc l)) ≡ 4 * (q / 2) * 2 ^ l + (2 ^ l - 1)
cleared l m q e h =
    ap (λ x. bit_and x (not32 (2 ^ suc l))) (omega (arith, ap (λ (t : ℕ). q * t) (pow-suc 2 l)))
    ∙ ap (bit_and (2 * q * 2 ^ l + (2 ^ l - 1))) (mask_fields l m e)
    ∙ bit_and_split l (2 * q) (4 * (2 ^ m - 1) + 1) (2 ^ l - 1) (2 ^ l - 1)
        (omega (arith, one-le-pow l 2)) (omega (arith, one-le-pow l 2))
    ∙ ground (
      arith,
      and_mask q m h,
      bit_and_mask l (2 ^ l - 1),
      mod-eq_of_lt {n = 2 ^ l - 1} {m = 2 ^ l} (omega (arith, one-le-pow l 2)),
    )

or_one : (a : ℕ) → bit_or (4 * a) 1 ≡ 4 * a + 1
or_one a = ground (arith, bit_or_fields 2 a 1)

marked : (l a : ℕ) → bit_or (4 * a * 2 ^ l + (2 ^ l - 1)) (2 ^ l) ≡ node_at (suc l) a
marked l a =
    ap (bit_or (4 * a * 2 ^ l + (2 ^ l - 1))) (omega arith)
    ∙ bit_or_split l (4 * a) 1 (2 ^ l - 1) 0 (omega (arith, one-le-pow l 2))
        (one-le-pow l 2 (omega arith))
    ∙ rw (or_one a, bit_or-zero (2 ^ l - 1)) (sym (node_at_form l a))

-- The parent of a node is the node of the next level at half its position.
parent_of-node_at :
    (l m q : ℕ) → l + m ≡ 30 → q < 2 ^ suc m → parent_of (node_at l q) ≡ node_at (suc l) (q / 2)
unfolding parent_of
parent_of-node_at l m q e h =
    rw
      (
        trailing_ones-node_at 32 l q (omega arith),
        add-one l,
        shl32-one (suc l) (omega arith),
        shl32-one l (omega arith),
        cleared l m q e h,
      )
      (marked l (q / 2))

-- The other child of the parent.
pub sibling_of : ℕ → ℕ
sibling_of q = if q % 2 == 0 then q + 1 else q - 1

left_position : (l a : ℕ) → node_at l (2 * a) < node_at (suc l) a
left_position l a =
    omega (arith, pow-suc 2 l, one-le-pow l 2, ap (λ (t : ℕ). a * t) (pow-suc 2 (suc l)))

right_position : (l a : ℕ) → node_at (suc l) a < node_at l (2 * a + 1)
right_position l a =
    omega (arith, pow-suc 2 l, one-le-pow l 2, ap (λ (t : ℕ). a * t) (pow-suc 2 (suc l)))

pub root-pow : (d : ℕ) → d < 32 → root (2 ^ d) ≡ node_at d 0
unfolding root
root-pow d h = omega (arith, pow_small d h, one-le-pow d 2)

node-ne-root : (l q d : ℕ) → l < d → d < 32 → (node_at l q == root (2 ^ d)) ≡ false
node-ne-root l q d h k = elim (Bool-cases (node_at l q == root (2 ^ d))) [
  | inl same ↦ absurd (
      omega (
        arith,
        trailing_ones-node_at 32 l q (omega arith),
        trailing_ones-node_at 32 d 0 k,
        ap (trailing_ones 32) ((==_iff (node_at l q) (root (2 ^ d))).0 same ∙ root-pow d k),
      ))
  | inr other ↦ other
]

ltb-false : (a b : ℕ) → b < a → ltb a b ≡ false
ltb-false a b h = ground arith

-- In a tree of `2 ^ d` leaves, at most 2 ^ 31, a node below the root has as parent the node of the next
-- level at half its position, and as sibling the parent's other child.
pub parent_sibling-node_at :
    (l m q d : ℕ)
    → l + m ≡ 30
    → q < 2 ^ suc m
    → l < d
    → d < 32
    → parent_sibling (node_at l q) (2 ^ d)
      ≡ some (record { parent = node_at (suc l) (q / 2); sibling = node_at l (sibling_of q) })
unfolding parent_sibling sibling_of
parent_sibling-node_at l m q d e h lt k =
    let parent = parent_of-node_at l m q e h in
    let (lefts, rights) = children-node_at l (q / 2) (omega arith) in
    elim (Bool-cases (q % 2 == 0)) [
      | inl even ↦
          let here : q ≡ 2 * (q / 2) = ground arith in
          let before : node_at l q < node_at (suc l) (q / 2) =
            subst (λ p. node_at l p < node_at (suc l) (q / 2)) (sym here)
              (left_position l (q / 2)) in
          rw (node-ne-root l q d lt k, parent, lt→ltb _ _ before, rights, even)
            (ap (λ p. some (record { parent = node_at (suc l) (q / 2); sibling = node_at l p }))
              (omega arith))
      | inr odd ↦
          let here : q ≡ 2 * (q / 2) + 1 = ground arith in
          let after : node_at (suc l) (q / 2) < node_at l q =
            subst (λ p. node_at (suc l) (q / 2) < node_at l p) (sym here)
              (right_position l (q / 2)) in
          rw (node-ne-root l q d lt k, parent, ltb-false _ _ after, lefts, odd)
            (ap (λ p. some (record { parent = node_at (suc l) (q / 2); sibling = node_at l p }))
              (omega arith))
    ]

parent_sibling-root : (x leaf_count : ℕ) → x ≡ root leaf_count → parent_sibling x leaf_count ≡ none
unfolding parent_sibling
parent_sibling-root x leaf_count e = rw ((==_iff x (root leaf_count)).1 e)

position_fits : (l n q d : ℕ) → l + suc n ≡ d → d < 32 → q < 2 ^ suc n → q < 2 ^ suc (30 - l)
position_fits l n q d e k h =
    omega
      (arith, pow-le-pow_right {n = 2} (omega arith) {i = suc n} {j = suc (30 - l)} (omega arith))

-- The path above position `q` of level `l`, over `n` levels, with the sibling at each.
unfoldable pub spec_path : ℕ → ℕ → ℕ → List CopathNode
spec_path zero l q = []
spec_path (suc n) l q =
    record { path = node_at (suc l) (q / 2); copath = node_at l (sibling_of q) }
    ∷ spec_path n (suc l) (q / 2)

copath_loop-spec :
    {E : Type 0} (n fuel l q d : ℕ)
    → l + n ≡ d
    → d < 32
    → q < 2 ^ n
    → n < fuel
    → copath_loop {E = E} fuel (node_at l q) (2 ^ d) ≡ ok (spec_path n l q)
unfolding copath_loop spec_path
copath_loop-spec {E} n zero l q d e k h f = absurd (omega arith)
copath_loop-spec {E} zero (suc fuel) l q d e k h f =
    let here : node_at l q ≡ root (2 ^ d) =
      ap (node_at l) (omega arith) ∙ ap (λ x. node_at x 0) (omega arith) ∙ sym (root-pow d k) in
    rw (parent_sibling-root (node_at l q) (2 ^ d) here, copath_loop, spec_path)
copath_loop-spec {E} (suc n) (suc fuel) l q d e k h f = rw (
  parent_sibling-node_at l (30 - l) q d (omega arith) (position_fits l n q d e k h) (omega arith) k,
  copath_loop-spec {E = E} n fuel (suc l) (q / 2) d (omega arith) k (omega (arith, pow-suc 2 n))
      (omega arith),
  copath_loop,
  spec_path,
)

-- A position below `2 ^ n` leaves the node within the tree of `2 ^ (l + n)` leaves.
node_at_bound : (l n q : ℕ) → q < 2 ^ n → node_at l q + 2 ^ l < 2 ^ suc (l + n)
node_at_bound l n q h =
    let room : suc q * 2 ^ suc l ≤ 2 ^ n * 2 ^ suc l = mul-le-mul_right (2 ^ suc l) h in
    omega (
      arith,
      room,
      two_pow_add (suc l) n,
      pow-suc 2 l,
      one-le-pow l 2,
      ap (λ (t : ℕ). 2 ^ t) (suc-add l n),
    )

in_tree :
    (l n q d : ℕ) → l + n ≡ d → d < 32 → q < 2 ^ n → is_in_tree (node_at l q) (root (2 ^ d)) ≡ true
unfolding is_in_tree
in_tree l n q d e k h =
    let bound : node_at l q + 2 ^ l < 2 ^ suc d =
      subst (λ t. node_at l q + 2 ^ l < 2 ^ suc t) e (node_at_bound l n q h) in
    let small = pow-le-pow_right {n = 2} (omega arith) {i = suc d} {j = 32} k in
    rw (root-pow d k) (ground (arith, bound, small, pow-suc 2 d, one-le-pow d 2, one-le-pow l 2))

-- In a tree of 2 ^ d leaves, at most 2 ^ 31, the direct path of a node climbs level by level to the root,
-- each node at half the position of the one below, beside the sibling that it left.
pub direct_copath-spec_path :
    {E : Type 0} (l n q d : ℕ)
    → l + n ≡ d
    → d < 32
    → q < 2 ^ n
    → direct_copath {E = E} (node_at l q) (2 ^ d) ≡ ok (spec_path n l q)
unfolding direct_copath
direct_copath-spec_path l n q d e k h =
    rw (in_tree l n q d e k h) (copath_loop-spec n 33 l q d e k h (omega arith))

-- Every node of the tree has a level and a position in it.
pub node_in_tree :
    (d x : ℕ)
    → x < 2 ^ suc d - 1
    → (l : ℕ) × (n : ℕ) × (q : ℕ) × (l + n ≡ d) × (q < 2 ^ n) × (x ≡ node_at l q)
node_in_tree zero x h = (0, 0, 0, omega arith, omega arith, omega arith)
node_in_tree (suc d) x h = elim (Bool-cases (x % 2 == 0)) [
  | inl even ↦ (0, suc d, x / 2, omega arith, omega (arith, pow-suc 2 (suc d)), ground arith)
  | inr odd ↦
      let (l, n, q, e, lt, here) = node_in_tree d (x / 2) (ground (arith, pow-suc 2 (suc d))) in
      (suc l, n, q, omega arith, lt, ground (arith, node_at-suc l q))
]

pub length-spec_path : (n l q : ℕ) → length (spec_path n l q) ≡ n
unfolding spec_path
length-spec_path zero l q = refl
length-spec_path (suc n) l q = ap suc (length-spec_path n (suc l) (q / 2))

-- In a tree of 2 ^ d leaves, at most 2 ^ 31, the loop ends for every node, and the path has one
-- entry for each level above the node.
direct_copath_total :
    {E : Type 0} (d x : ℕ)
    → d < 32
    → x < 2 ^ suc d - 1
    → (path : List CopathNode) × (direct_copath {E = E} x (2 ^ d) ≡ ok path)
      × (length path + trailing_ones 32 x ≡ d)
direct_copath_total {E} d x k h =
    let (l, n, q, e, lt, here) = node_in_tree d x h in
    (
      spec_path n l q,
      ap (λ y. direct_copath {E = E} y (2 ^ d)) here ∙ direct_copath-spec_path l n q d e k lt,
      omega (
        arith,
        length-spec_path n l q,
        ap (trailing_ones 32) here,
        trailing_ones-node_at 32 l q (omega arith),
      ),
    )
