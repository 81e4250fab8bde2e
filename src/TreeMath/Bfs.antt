-- ===== src/TreeMath/Bfs.antt =====
-- mls-rs/src/tree_kem/math.rs: the iterator visits the nodes level by level from the root.
use mls_rs_wasm_maybe_sync.Common.{
  ℕ, zero, suc, ◌+◌, ◌-◌, ◌*◌, ◌/◌, ◌%◌, ◌^◌, ◌<◌, ◌≡◌, refl, ap, subst, ◌∙◌, List, [], ◌∷◌, ◌++◌,
  Option, none, some, arith,
}
use mls_rs_wasm_maybe_sync.Common.Bits.{bit_or_fields}
use mls_rs_wasm_maybe_sync.TreeMath.{BfsIterTopDown, bfs_new, bfs_next, trailing_zeros}
use mls_rs_wasm_maybe_sync.TreeMath.Levels.{node_at}
use native.Mathlib.Nat.{pow-suc, one-le-pow}
use native.Mathlib.Numerals.{add-one}

-- `collect`, over `fuel` calls of `next` at most; `none` if the iterator has not ended by then.
unfoldable pub collect : ℕ → BfsIterTopDown → Option (List ℕ)
collect zero it = none
collect (suc fuel) it = elim (bfs_next it) [
  | none ↦ some []
  | some (x, it') ↦ (elim (collect fuel it') [ none ↦ none | some xs ↦ some (x ∷ xs) ])
]

-- The nodes of a level from position `q` on, `n` of them, and then all levels below it.
pub level_nodes : ℕ → ℕ → ℕ → List ℕ
level_nodes l q zero = []
level_nodes l q (suc n) = node_at l q ∷ level_nodes l (suc q) n

-- The levels below level `l` of `width` nodes.
pub below : ℕ → ℕ → List ℕ
below zero width = []
below (suc l) width = level_nodes l 0 (2 * width) ++ below l (2 * width)

-- How many nodes they have.
nodes_below : ℕ → ℕ → ℕ
nodes_below zero width = 0
nodes_below (suc l) width = 2 * width + nodes_below l (2 * width)

nodes_below-pow : (l width : ℕ) → nodes_below l width + 2 * width ≡ width * 2 ^ suc l
unfolding nodes_below
nodes_below-pow zero width = omega arith
nodes_below-pow (suc l) width =
    omega (arith, nodes_below-pow l (2 * width), ap (λ (t : ℕ). width * t) (pow-suc 2 (suc l)))

-- The state in which position `q` of level `l` comes next.
abbrev at : ℕ → ℕ → ℕ → BfsIterTopDown
at l width q = record { level = suc l; mask = 2 ^ l - 1; level_end = width; ctr = q }

next_here :
    (l width q : ℕ) → q < width → bfs_next (at l width q) ≡ some (node_at l q, at l width (suc q))
unfolding bfs_next
next_here l width q h =
    ground (arith, bit_or_fields (suc l) q (2 ^ l - 1), pow-suc 2 l, one-le-pow l 2)

next_level :
    (l width : ℕ)
    → 0 < width
    → bfs_next (at (suc l) width width) ≡ some (node_at l 0, at l (2 * width) 1)
unfolding bfs_next
next_level l width h = ground (
  arith,
  bit_or_fields 1 (width - 1) 1,
  bit_or_fields (suc l) 0 (2 ^ l - 1),
  pow-suc 2 l,
  one-le-pow l 2,
)

next_end : (width : ℕ) → bfs_next (at 0 width width) ≡ none
unfolding bfs_next
next_end width = ground arith

trailing_zeros-pow : (w d : ℕ) → d < w → trailing_zeros w (2 ^ d) ≡ d
unfolding trailing_zeros
trailing_zeros-pow zero d h = absurd (omega arith)
trailing_zeros-pow (suc w) zero h = refl
trailing_zeros-pow (suc w) (suc d) h =
    let half : 2 ^ suc d / 2 ≡ 2 ^ d = omega (arith, pow-suc 2 d) in
    let even : 2 ^ suc d % 2 ≡ 0 = omega (arith, pow-suc 2 d) in
    rw (even, half) (ap suc (trailing_zeros-pow w d (omega arith)))

collect-some :
    (fuel : ℕ) (it it' : BfsIterTopDown) (x : ℕ) (xs : List ℕ)
    → bfs_next it ≡ some (x, it')
    → collect fuel it' ≡ some xs
    → collect (suc fuel) it ≡ some (x ∷ xs)
unfolding collect
collect-some fuel it it' x xs e rest = rw (e, rest, collect)

collect-none :
    (fuel : ℕ) (it : BfsIterTopDown) → bfs_next it ≡ none → collect (suc fuel) it ≡ some []
unfolding collect
collect-none fuel it e = rw (e, collect)

collect-at :
    (fuel l n width q : ℕ)
    → q + n ≡ width
    → 0 < width
    → n + nodes_below l width < fuel
    → collect fuel (at l width q) ≡ some (level_nodes l q n ++ below l width)
unfolding below level_nodes nodes_below
collect-at zero l n width q e pos h = absurd (omega arith)
collect-at (suc fuel) l (suc n) width q e pos h =
    collect-some fuel (at l width q) (at l width (suc q)) (node_at l q) _
      (next_here l width q (omega arith))
      (collect-at fuel l n width (suc q) (omega arith) pos (omega arith))
collect-at (suc fuel) zero zero width q e pos h =
    let here : width ≡ q = omega arith in
    collect-none fuel (at 0 width q)
      (subst (λ c. bfs_next (at 0 width c) ≡ none) here (next_end width))
collect-at (suc fuel) (suc l) zero width q e pos h =
    let here : width ≡ q = omega arith in
    let first : suc (2 * width - 1) ≡ 2 * width = omega arith in
    collect-some fuel (at (suc l) width q) (at l (2 * width) 1) (node_at l 0) _
      (subst (λ c. bfs_next (at (suc l) width c) ≡ some (node_at l 0, at l (2 * width) 1)) here
        (next_level l width pos))
      (collect-at fuel l (2 * width - 1) (2 * width) 1 (omega arith) (omega arith) (omega arith))
    ∙ ap (λ m. some (level_nodes l 0 m ++ below l (2 * width))) first

-- Over a tree of 2 ^ d leaves, with d below 64, the iterator ends, and it yields the root, then each level
-- from left to right down to the leaves.
pub bfs_levels :
    (d : ℕ) → d < 64 → collect (2 ^ suc d) (bfs_new (2 ^ d)) ≡ some (node_at d 0 ∷ below d 1)
unfolding bfs_new level_nodes
bfs_levels d h =
    rw (trailing_zeros-pow 64 d h, add-one d)
      (collect-at (2 ^ suc d) d 1 1 0 (omega arith) (omega arith)
        (omega (arith, nodes_below-pow d 1, pow-suc 2 d, one-le-pow d 2)))
