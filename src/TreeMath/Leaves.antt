-- ===== src/TreeMath/Leaves.antt =====
-- mls-rs/src/tree_kem/math.rs: the leaves below a node, and the level where two leaves meet.
use mls_rs_wasm_maybe_sync.Common.{
  ℕ, zero, suc, ◌+◌, ◌*◌, ◌/◌, ◌^◌, ◌<◌, ◌≡◌, ◌≢◌, sym, ap, ◌∙◌, ◌==◌, ==_iff, Bool-cases, ok,
  arith, inl, inr,
}
use mls_rs_wasm_maybe_sync.TreeMath.{lca_loop, leaf_lca_level, subtree}
use mls_rs_wasm_maybe_sync.TreeMath.Levels.{node_at, trailing_ones-node_at, shl32-one}
use native.Mathlib.Nat.{pow-suc, one-le-pow, pow-succ', div-div-eq-div-mul}

-- The leaves below the `q`-th node of level `l` are those from `q * 2 ^ l` up to the next multiple, where
-- the last of them is a `u32`.
subtree-node_at :
    (l q : ℕ)
    → l < 32
    → node_at l q + 2 ^ l < 2 ^ 32
    → subtree (node_at l q) ≡ (q * 2 ^ l, (q + 1) * 2 ^ l)
unfolding subtree
subtree-node_at l q h small =
    rw (trailing_ones-node_at 32 l q h, shl32-one l h)
      (ground (arith, small, pow-suc 2 l, one-le-pow l 2, ap (λ (t : ℕ). q * t) (pow-suc 2 l)))

-- `x >> k`
abbrev pub shr : ℕ → ℕ → ℕ
shr x k = x / 2 ^ k

shr-suc : (x k : ℕ) → shr x (suc k) ≡ shr (x / 2) k
shr-suc x k = ap (λ (t : ℕ). x / t) (pow-succ' 2 k) ∙ sym (div-div-eq-div-mul x 2 (2 ^ k))

differ_below :
    (x y j : ℕ)
    → x ≢ y
    → ((i : ℕ) → i < j → shr (x / 2) i ≢ shr (y / 2) i)
    → (i : ℕ) → i < suc j
    → shr x i ≢ shr y i
differ_below x y j ne below zero h = λ e. ne (omega (arith, e))
differ_below x y j ne below (suc i) h =
    λ e. below i (omega arith) (sym (shr-suc x i) ∙ e ∙ shr-suc y i)

lca_loop_returns :
    {E : Type 0} (fuel w x y k : ℕ)
    → x < 2 ^ w
    → y < 2 ^ w
    → w < fuel
    → (j : ℕ) × (lca_loop {E = E} fuel x y k ≡ ok (k + j))
      × (shr x j ≡ shr y j)
      × ((i : ℕ) → i < j → shr x i ≢ shr y i)
unfolding lca_loop
lca_loop_returns zero w x y k hx hy hf = absurd (omega arith)
lca_loop_returns {E} (suc fuel) zero x y k hx hy hf =
    (0, ground arith, omega arith, λ i h. absurd (omega arith))
lca_loop_returns {E} (suc fuel) (suc w) x y k hx hy hf = elim (Bool-cases (x == y)) [
  | inl same ↦ (
    0,
    rw same (ap ok (omega arith)),
    ap (λ z. shr z 0) ((==_iff x y).0 same),
    λ i h. absurd (omega arith),
  )
  | inr other ↦
      let (j, e, meet, below) =
        lca_loop_returns {E = E} fuel w (x / 2) (y / 2) (k + 1) (omega (arith, pow-suc 2 w))
          (omega (arith, pow-suc 2 w)) (omega arith) in
      (
        suc j,
        rw (other, e) (ap ok (omega arith)),
        shr-suc x j ∙ meet ∙ sym (shr-suc y j),
        differ_below x y j (λ q. cc (other, (==_iff x y).1 q)) below,
      )
]

-- For two u32 leaf indices the loop ends with the least shift that makes them equal: the level of their
-- lowest common ancestor.
pub leaf_lca_level_lem :
    {E : Type 0} (x y : ℕ)
    → x < 2 ^ 32
    → y < 2 ^ 32
    → (k : ℕ) × (leaf_lca_level {E = E} x y ≡ ok k)
      × (shr x k ≡ shr y k)
      × ((i : ℕ) → i < k → shr x i ≢ shr y i)
unfolding leaf_lca_level
leaf_lca_level_lem {E} x y hx hy =
    let (k, e, meet, below) = lca_loop_returns {E = E} 33 32 x y 0 hx hy (omega arith) in
    (k, e ∙ ap ok (omega arith), meet, below)
