-- ===== src/TreeMath/Levels.antt =====
-- mls-rs/src/tree_kem/math.rs: the nodes by level and position, and the steps between levels.
use mls_rs_wasm_maybe_sync.Common.{
  ℕ, zero, suc, ◌+◌, ◌-◌, ◌*◌, ◌/◌, ◌%◌, ◌^◌, ◌<◌, ◌≡◌, sym, ap, ◌∙◌, bit_and, bit_xor, ◌==◌,
  Bool-cases, some, arith, inl, inr,
}
use mls_rs_wasm_maybe_sync.Common.Bits.{bit_xor_split, bit_xor-zero, bit_and_mask}
use mls_rs_wasm_maybe_sync.TreeMath.{
  shl32, sub32, trailing_ones, left_unchecked, right_unchecked, is_leaf, left, right,
}
use native.Mathlib.Nat.{pow-suc, one-le-pow, pow-le-pow_right, mod-eq_of_lt}

-- The `q`-th node of level `l`, leaves being level 0.
abbrev pub node_at : ℕ → ℕ → ℕ
node_at l q = q * 2 ^ suc l + (2 ^ l - 1)

node_at-zero : (q : ℕ) → node_at 0 q ≡ 2 * q
node_at-zero q = omega arith

pub node_at-suc : (l q : ℕ) → node_at (suc l) q ≡ 2 * node_at l q + 1
node_at-suc l q = omega (
  arith,
  pow-suc 2 l,
  pow-suc 2 (suc l),
  one-le-pow l 2,
  ap (λ (t : ℕ). q * t) (pow-suc 2 (suc l)),
)

-- The node with its two lowest free bits apart.
pub node_at_form : (l q : ℕ) → node_at (suc l) q ≡ (4 * q + 1) * 2 ^ l + (2 ^ l - 1)
node_at_form l q = omega (
  arith,
  pow-suc 2 l,
  one-le-pow l 2,
  ap (λ (t : ℕ). q * t) (pow-suc 2 (suc l)),
  ap (λ (t : ℕ). q * t) (pow-suc 2 l),
)

pub trailing_ones-node_at : (w l q : ℕ) → l < w → trailing_ones w (node_at l q) ≡ l
unfolding trailing_ones
trailing_ones-node_at zero l q h = absurd (omega arith)
trailing_ones-node_at (suc w) zero q h = ground (arith, node_at-zero q)
trailing_ones-node_at (suc w) (suc l) q h =
    let half : node_at (suc l) q / 2 ≡ node_at l q = omega (arith, node_at-suc l q) in
    let odd : node_at (suc l) q % 2 ≡ 1 = omega (arith, node_at-suc l q) in
    rw (odd, half) (ap suc (trailing_ones-node_at w l q (omega arith)))

-- Every number below the all-ones word is a node.
pub node_of : (w x : ℕ) → x < 2 ^ w - 1 → (l : ℕ) × (q : ℕ) × (l < w) × (x ≡ node_at l q)
node_of zero x h = absurd (omega arith)
node_of (suc w) x h = elim (Bool-cases (x % 2 == 0)) [
  | inl even ↦ (0, x / 2, omega arith, ground arith)
  | inr odd ↦
      let (l, q, lt, e) = node_of w (x / 2) (ground (arith, pow-suc 2 w)) in
      (suc l, q, omega arith, ground (arith, node_at-suc l q))
]

pub pow_small : (l : ℕ) → l < 32 → 2 ^ l < 2 ^ 32
pow_small l h = omega (
  arith,
  pow-suc 2 l,
  one-le-pow l 2,
  pow-le-pow_right {n = 2} (omega arith) {i = suc l} {j = 32} h,
)

pub shl32-one : (l : ℕ) → l < 32 → shl32 1 l ≡ 2 ^ l
shl32-one l h = rw (mod-eq_of_lt h) (omega (arith, pow_small l h))

xor_one : (q : ℕ) → bit_xor (4 * q + 1) 1 ≡ 4 * q
xor_one q = ground (arith, bit_xor_split 2 q 0 1 1, bit_xor-zero q)

xor_three : (q : ℕ) → bit_xor (4 * q + 1) 3 ≡ 4 * q + 2
xor_three q = ground (arith, bit_xor_split 2 q 0 1 3, bit_xor-zero q)

-- The number of a node's level, as the code computes it.
sub32-suc : (l : ℕ) → l < 31 → sub32 (suc l) 1 ≡ l
sub32-suc l h = omega arith

shl32-three : (l : ℕ) → l < 31 → shl32 3 l ≡ 3 * 2 ^ l
shl32-three l h = rw (mod-eq_of_lt {n = l} {m = 32} (omega arith)) (
    omega (
      arith,
      pow-suc 2 l,
      pow-suc 2 (suc l),
      one-le-pow l 2,
      pow-le-pow_right {n = 2} (omega arith) {i = suc (suc l)} {j = 32} (omega arith),
    ))

-- Below the changed bits a node keeps its ones.
xor_ones :
    (l a b c : ℕ)
    → bit_xor a b ≡ c
    → bit_xor (a * 2 ^ l + (2 ^ l - 1)) (b * 2 ^ l) ≡ c * 2 ^ l + (2 ^ l - 1)
xor_ones l a b c e =
    ap (bit_xor (a * 2 ^ l + (2 ^ l - 1))) (omega arith)
    ∙ bit_xor_split l a b (2 ^ l - 1) 0 (omega (arith, one-le-pow l 2))
        (one-le-pow l 2 (omega arith))
    ∙ rw (e, bit_xor-zero (2 ^ l - 1))

left-node_at_pow : (l q : ℕ) → bit_xor (node_at (suc l) q) (2 ^ l) ≡ node_at l (2 * q)
left-node_at_pow l q =
    ap (λ x. bit_xor x (2 ^ l)) (node_at_form l q)
    ∙ ap (bit_xor ((4 * q + 1) * 2 ^ l + (2 ^ l - 1))) (omega arith)
    ∙ xor_ones l (4 * q + 1) 1 (4 * q) (xor_one q)
    ∙ omega (arith, pow-suc 2 l, ap (λ (t : ℕ). q * t) (pow-suc 2 l))

right-node_at_pow : (l q : ℕ) → bit_xor (node_at (suc l) q) (3 * 2 ^ l) ≡ node_at l (2 * q + 1)
right-node_at_pow l q =
    ap (λ x. bit_xor x (3 * 2 ^ l)) (node_at_form l q)
    ∙ xor_ones l (4 * q + 1) 3 (4 * q + 2) (xor_three q)
    ∙ omega (arith, pow-suc 2 l, ap (λ (t : ℕ). q * t) (pow-suc 2 l))

-- The children of a node are the two nodes of the level below at twice its position.
pub children-node_at :
    (l q : ℕ)
    → l < 31
    → (left_unchecked (node_at (suc l) q) ≡ node_at l (2 * q))
      × (right_unchecked (node_at (suc l) q) ≡ node_at l (2 * q + 1))
unfolding left_unchecked right_unchecked
children-node_at l q h =
    let lvl = trailing_ones-node_at 32 (suc l) q (omega arith) in
    (
      rw (lvl, sub32-suc l (omega arith), shl32-one l (omega arith)) (left-node_at_pow l q),
      rw (lvl, sub32-suc l (omega arith), shl32-three l h) (right-node_at_pow l q),
    )

-- A node has one level and one position.
pub node_at_injective :
    (l q l' q' : ℕ) → l < 32 → l' < 32 → node_at l q ≡ node_at l' q' → (l ≡ l') × (q ≡ q')
node_at_injective l q l' q' h h' e =
    let level : l ≡ l' = omega (
      arith,
      trailing_ones-node_at 32 l q h,
      trailing_ones-node_at 32 l' q' h',
      ap (trailing_ones 32) e,
    ) in
    (level, position (e ∙ ap (λ z. node_at z q') (sym level)))
  where
    position : node_at l q ≡ node_at l q' → q ≡ q'
    position p = grind (arith, one-le-pow (suc l) 2, p)

-- The children of the `q`-th node of a level above the leaves, up to level 31, are the nodes `2 * q` and
-- `2 * q + 1` of the level below.
pub left-right-node_at :
    (l q : ℕ)
    → l < 31
    → (left (node_at (suc l) q) ≡ some (node_at l (2 * q)))
      × (right (node_at (suc l) q) ≡ some (node_at l (2 * q + 1)))
unfolding left right is_leaf
left-right-node_at l q h =
    let (lefts, rights) = children-node_at l q h in
    let odd : bit_and (node_at (suc l) q) 1 ≡ 1 =
      bit_and_mask 1 (node_at (suc l) q) ∙ omega (arith, node_at-suc l q) in
    (rw (odd, lefts), rw (odd, rights))
