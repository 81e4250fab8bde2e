-- ===== src/TreeMath.antt =====
-- mls-rs/src/tree_kem/math.rs: positions in a complete binary tree, as the numbers of `u32`. Overflow
-- is that of a release build: arithmetic wraps and a shift takes its distance modulo 32.
pub mod Levels
pub mod Path
pub mod Leaves
pub mod Bfs
pub mod Tests
use mls_rs_wasm_maybe_sync.Common.{
  ℕ, zero, suc, ◌+◌, ◌-◌, ◌*◌, ◌/◌, ◌%◌, ◌^◌, ◌≤◌, ◌<◌, ◌≡◌, ◌≢◌, ◌↔◌, refl, sym, ap, subst, ◌∙◌,
  bit_and, bit_or, bit_xor, max, min, List, [], ◌∷◌, ◌++◌, map, append-nil, append_assoc, length,
  length-append, length-set, length-drop, bytes_eq, bytes_eq→eq, bytes_eq_self, get_elem?, set,
  take, drop, take-append, drop-append, head?, get_last?, any, all, All, ltb, leb, ◌==◌, ==_iff,
  ltb→lt, lt→ltb, if◌then◌else◌, Bool, true, false, not, ◌&&◌, ◌||◌, Bool-cases, Option, none, some,
  Option-cases, is_some, is_none, Result, ok, err, fault, Fault, panicked, out_of_fuel, ensure,
  ok_or, >>=-eq-ok, Ended, gives, fails, breaks, Result-cases, try_for_each, ◌>>=◌, ◌>>◌, arith,
  ◌⊎◌, inl, inr,
}

pub record CopathNode : Type 0 where
  pub path : ℕ
  pub copath : ℕ

pub record ParentSibling : Type 0 where
  pub parent : ℕ
  pub sibling : ℕ

-- `<<`, `-` and `!` of `u32`
abbrev pub shl32 : ℕ → ℕ → ℕ
shl32 a k = a * 2 ^ (k % 32) % 2 ^ 32

abbrev pub sub32 : ℕ → ℕ → ℕ
sub32 a b = (a + 2 ^ 32 - b) % 2 ^ 32

abbrev pub not32 : ℕ → ℕ
not32 a = 2 ^ 32 - 1 - a

-- `trailing_ones` of a word of `w` bits
unfoldable pub trailing_ones : ℕ → ℕ → ℕ
trailing_ones zero x = 0
trailing_ones (suc w) x = if x % 2 == 1 then suc (trailing_ones w (x / 2)) else 0

unfoldable pub root : ℕ → ℕ
root leaf_count = sub32 leaf_count 1

unfoldable pub left_unchecked : ℕ → ℕ
left_unchecked x = bit_xor x (shl32 0x01 (sub32 (trailing_ones 32 x) 1))

unfoldable pub right_unchecked : ℕ → ℕ
right_unchecked x = bit_xor x (shl32 0x03 (sub32 (trailing_ones 32 x) 1))

-- `(x & !(1 << (lvl + 1))) | (1 << lvl)`
unfoldable pub parent_of : ℕ → ℕ
parent_of x =
    let lvl = trailing_ones 32 x in bit_or (bit_and x (not32 (shl32 1 (lvl + 1)))) (shl32 1 lvl)

unfoldable pub parent_sibling : ℕ → ℕ → Option ParentSibling
parent_sibling x leaf_count =
    if x == root leaf_count
    then none
    else (let p = parent_of x in
        let s = if ltb x p then right_unchecked p else left_unchecked p in
        some (record { parent = p; sibling = s }))

unfoldable pub is_leaf : ℕ → Bool
is_leaf x = bit_and x 1 == 0

unfoldable pub is_in_tree : ℕ → ℕ → Bool
is_in_tree x root = leb x (2 * root % 2 ^ 32)

unfoldable pub left : ℕ → Option ℕ
left x = if not (is_leaf x) then some (left_unchecked x) else none

unfoldable pub right : ℕ → Option ℕ
right x = if not (is_leaf x) then some (right_unchecked x) else none

-- `while let Some(ps) = parent.parent_sibling(leaf_count)`
unfoldable pub copath_loop : {E : Type 0} → ℕ → ℕ → ℕ → Result E (List CopathNode)
copath_loop zero parent leaf_count = fault out_of_fuel
copath_loop (suc fuel) parent leaf_count = elim (parent_sibling parent leaf_count) [
  | none ↦ ok []
  | some ps ↦ copath_loop fuel ps.parent leaf_count >>= λ path.
      ok (record { path = ps.parent; copath = ps.sibling } ∷ path)
]

-- A path has one node for each level above the first, and a word has 32 bits.
unfoldable pub direct_copath : {E : Type 0} → ℕ → ℕ → Result E (List CopathNode)
direct_copath x leaf_count =
    if not (is_in_tree x (root leaf_count)) then ok [] else copath_loop 33 x leaf_count

-- `while xn != yn { xn >>= 1; yn >>= 1; k += 1; }`
unfoldable pub lca_loop : {E : Type 0} → ℕ → ℕ → ℕ → ℕ → Result E ℕ
lca_loop zero xn yn k = fault out_of_fuel
lca_loop (suc fuel) xn yn k =
    let rest = lca_loop fuel (xn / 2) (yn / 2) (k + 1) in if xn == yn then ok k else rest

unfoldable pub leaf_lca_level : {E : Type 0} → ℕ → ℕ → Result E ℕ
leaf_lca_level x y = lca_loop 33 x y 0

-- The leaves below a node, from the first up to and without the second.
unfoldable pub subtree : ℕ → ℕ × ℕ
subtree x =
    let breadth = shl32 1 (trailing_ones 32 x) in
    (sub32 (x + 1) breadth / 2, (x + breadth) % 2 ^ 32 / 2 + 1)

-- `BfsIterTopDown`, over the unbounded `usize`
pub record BfsIterTopDown : Type 0 where
  pub level : ℕ
  pub mask : ℕ
  pub level_end : ℕ
  pub ctr : ℕ

-- `trailing_zeros` of a word of `w` bits
unfoldable pub trailing_zeros : ℕ → ℕ → ℕ
trailing_zeros zero x = 0
trailing_zeros (suc w) x = if x % 2 == 0 then suc (trailing_zeros w (x / 2)) else 0

unfoldable pub bfs_new : ℕ → BfsIterTopDown
bfs_new num_leaves =
    let depth = trailing_zeros 64 num_leaves in
    record { level = depth + 1; mask = 2 ^ depth - 1; level_end = 1; ctr = 0 }

bfs_emit : BfsIterTopDown → Option (ℕ × BfsIterTopDown)
bfs_emit it = some (bit_or (it.ctr * 2 ^ it.level) it.mask, record it { ctr = it.ctr + 1 })

unfoldable pub bfs_next : BfsIterTopDown → Option (ℕ × BfsIterTopDown)
unfolding bfs_emit
bfs_next it =
    if it.ctr == it.level_end
    then (if it.level == 1
        then none
        else bfs_emit (record {
          level = it.level - 1;
          mask = it.mask / 2;
          level_end = bit_or ((it.level_end - 1) * 2) 1 + 1;
          ctr = 0;
        }))
    else bfs_emit it
