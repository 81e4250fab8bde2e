-- ===== src/Common/Bits.antt =====
-- The bit operations that the program uses, as arithmetic, at every width.
use Prim.Native.Nat.{
  ℕ, zero, suc, ◌+◌, ◌-◌, ◌*◌, ◌/◌, ◌%◌, ◌^◌, ◌≤◌, ◌<◌, min, max, digits, bitwise, bit_and, bit_or,
  bit_xor, bit_and-bitwise, bit_or-bitwise, bit_xor-bitwise, differ,
}
use mathlib.Core.Path.{◌≡◌, refl, ap, ◌∙◌}
use mathlib.Core.Logic.{inl, inr}
use mls_rs_wasm_maybe_sync.Common.Tests.{ltb, ltb→lt, Bool-cases}
use native.Mathlib.Omega.{arith}
use native.Mathlib.Nat.{pow-suc, one-le-pow, add-zero, add-suc}

-- `bitwise` runs over binary digits with fuel. One unit of fuel beyond the number is never used,
surplus :
    (z : ℕ → ℕ) (f : ℕ → ℕ → ℕ) (fuel x y : ℕ)
    → x ≤ fuel
    → digits z f (suc fuel) x y ≡ digits z f fuel x y
surplus z f zero zero y h = refl
surplus z f zero (suc x) y h = absurd (omega arith)
surplus z f (suc fuel) zero y h = refl
surplus z f (suc fuel) (suc x) y h =
    ap (λ (t : ℕ). t * 2 + f (suc x % 2) (y % 2))
      (surplus z f fuel (suc x / 2) (y / 2) (omega arith))

-- so any fuel from the number on gives the same.
bitwise_of_fuel :
    (z : ℕ → ℕ) (f : ℕ → ℕ → ℕ) (fuel x y : ℕ) → x ≤ fuel → digits z f fuel x y ≡ bitwise z f x y
bitwise_of_fuel z f zero zero y h = refl
bitwise_of_fuel z f zero (suc x) y h = absurd (omega arith)
bitwise_of_fuel z f (suc fuel) x y h = elim (Bool-cases (ltb fuel x)) [
  | inl whole ↦
      let exact : suc fuel ≡ x = omega (arith, ltb→lt fuel x whole) in
      ap (λ (n : ℕ). digits z f n x y) exact
  | inr part ↦ surplus z f fuel x y (ground arith) ∙ bitwise_of_fuel z f fuel x y (ground arith)
]

-- The lowest digit apart, for an operation whose rule at 0 agrees with its rule on digits.
peel :
    (z : ℕ → ℕ) (f : ℕ → ℕ → ℕ)
    → ((y : ℕ) → z y ≡ z (y / 2) * 2 + f 0 (y % 2))
    → (x y : ℕ) → bitwise z f x y ≡ bitwise z f (x / 2) (y / 2) * 2 + f (x % 2) (y % 2)
peel z f at_zero zero y = at_zero y
peel z f at_zero (suc x) y =
    ap (λ (t : ℕ). t * 2 + f (suc x % 2) (y % 2))
      (bitwise_of_fuel z f x (suc x / 2) (y / 2) (omega arith))

differ-zero-left : (y : ℕ) → y ≡ y / 2 * 2 + differ 0 (y % 2)
differ-zero-left y = omega arith

pub bit_xor_step : (x y : ℕ) → bit_xor x y ≡ bit_xor (x / 2) (y / 2) * 2 + differ (x % 2) (y % 2)
bit_xor_step x y = simp bit_xor-bitwise (peel (λ b. b) differ differ-zero-left x y)

pub bit_or_step : (x y : ℕ) → bit_or x y ≡ bit_or (x / 2) (y / 2) * 2 + max (x % 2) (y % 2)
bit_or_step x y = simp bit_or-bitwise (peel (λ b. b) max (λ b. omega arith) x y)

pub bit_and_step : (x y : ℕ) → bit_and x y ≡ bit_and (x / 2) (y / 2) * 2 + min (x % 2) (y % 2)
bit_and_step x y = simp bit_and-bitwise (peel (λ b. 0) min (λ b. omega arith) x y)

double_shift : (k a : ℕ) → a * 2 ^ suc k ≡ 2 * (a * 2 ^ k)
double_shift k a = omega (arith, ap (λ (t : ℕ). a * t) (pow-suc 2 k))

-- An operation on digits works on the high and the low digits apart.
module _ (op f : ℕ → ℕ → ℕ) (op_zero : op 0 0 ≡ 0)
    (op_step : (a b : ℕ) → op a b ≡ op (a / 2) (b / 2) * 2 + f (a % 2) (b % 2)) where
  op_split :
      (k a b r s : ℕ)
      → r < 2 ^ k
      → s < 2 ^ k
      → op (a * 2 ^ k + r) (b * 2 ^ k + s) ≡ op a b * 2 ^ k + op r s
  op_split zero a b r s hr hs = ground (arith, op_zero)
  op_split (suc k) a b r s hr hs = ground (
    arith,
    op_step (a * 2 ^ suc k + r) (b * 2 ^ suc k + s),
    op_step r s,
    double_shift k a,
    double_shift k b,
    double_shift k (op a b),
    pow-suc 2 k,
    op_split k a b (r / 2) (s / 2) (omega (arith, pow-suc 2 k)) (omega (arith, pow-suc 2 k)),
  )

pub bit_and_split :
    (k a b r s : ℕ)
    → r < 2 ^ k
    → s < 2 ^ k
    → bit_and (a * 2 ^ k + r) (b * 2 ^ k + s) ≡ bit_and a b * 2 ^ k + bit_and r s
bit_and_split = op_split bit_and min refl bit_and_step

pub bit_or_split :
    (k a b r s : ℕ)
    → r < 2 ^ k
    → s < 2 ^ k
    → bit_or (a * 2 ^ k + r) (b * 2 ^ k + s) ≡ bit_or a b * 2 ^ k + bit_or r s
bit_or_split = op_split bit_or max refl bit_or_step

pub bit_xor_split :
    (k a b r s : ℕ)
    → r < 2 ^ k
    → s < 2 ^ k
    → bit_xor (a * 2 ^ k + r) (b * 2 ^ k + s) ≡ bit_xor a b * 2 ^ k + bit_xor r s
bit_xor_split = op_split bit_xor differ refl bit_xor_step

-- Strong induction in the form of a bound.
bit_or-zero_below : (n a : ℕ) → a ≤ n → bit_or a 0 ≡ a
bit_or-zero_below n zero h = refl
bit_or-zero_below zero (suc a) h = absurd (omega arith)
bit_or-zero_below (suc n) (suc a) h =
    omega (arith, bit_or_step (suc a) 0, bit_or-zero_below n (suc a / 2) (omega arith))

pub bit_or-zero : (a : ℕ) → bit_or a 0 ≡ a
bit_or-zero a = bit_or-zero_below a a (omega arith)

pub zero-bit_or : (a : ℕ) → bit_or 0 a ≡ a
zero-bit_or a = simp bit_or-bitwise

bit_xor-zero_below : (n a : ℕ) → a ≤ n → bit_xor a 0 ≡ a
bit_xor-zero_below n zero h = refl
bit_xor-zero_below zero (suc a) h = absurd (omega arith)
bit_xor-zero_below (suc n) (suc a) h = ground (
  arith,
  bit_xor_step (suc a) 0,
  differ-zero (suc a % 2),
  bit_xor-zero_below n (suc a / 2) (omega arith),
)
  where
    differ-zero : (d : ℕ) → differ d 0 ≡ d
    differ-zero zero = refl
    differ-zero (suc d) = refl

pub bit_xor-zero : (a : ℕ) → bit_xor a 0 ≡ a
bit_xor-zero a = bit_xor-zero_below a a (omega arith)

bit_and-zero_below : (n a : ℕ) → a ≤ n → bit_and a 0 ≡ 0
bit_and-zero_below n zero h = refl
bit_and-zero_below zero (suc a) h = absurd (omega arith)
bit_and-zero_below (suc n) (suc a) h =
    omega (arith, bit_and_step (suc a) 0, bit_and-zero_below n (suc a / 2) (omega arith))

pub bit_and-zero : (a : ℕ) → bit_and a 0 ≡ 0
bit_and-zero a = bit_and-zero_below a a (omega arith)

-- `(q << k) | r` is a sum when `r` fits `k` bits.
pub bit_or_fields : (k q r : ℕ) → r < 2 ^ k → bit_or (q * 2 ^ k) r ≡ q * 2 ^ k + r
bit_or_fields k q r h =
    ground (arith, bit_or_split k q 0 0 r, bit_or-zero q, zero-bit_or r, one-le-pow k 2)

-- The mask `(1 << k) - 1` keeps the low bits: the remainder by `2 ^ k`.
mask_keeps : (k high low : ℕ) → low < 2 ^ k → bit_and (high * 2 ^ k + low) (2 ^ k - 1) ≡ low
mask_keeps zero high low h = rw bit_and-zero (omega arith)
mask_keeps (suc k) high low h =
    let inner : bit_and (high * 2 ^ k + low / 2) (2 ^ k - 1) ≡ low / 2 =
      mask_keeps k high (low / 2) (omega (arith, pow-suc 2 k)) in
    ground (
      arith,
      inner,
      one-le-pow k 2,
      pow-suc 2 k,
      double_shift k high,
      bit_and_step (high * 2 ^ suc k + low) (2 ^ suc k - 1),
    )

pub bit_and_mask : (k x : ℕ) → bit_and x (2 ^ k - 1) ≡ x % 2 ^ k
bit_and_mask k x = ground (arith, mask_keeps k (x / 2 ^ k) (x % 2 ^ k), one-le-pow k 2)

pub two_pow_add : (l m : ℕ) → 2 ^ (l + m) ≡ 2 ^ m * 2 ^ l
two_pow_add l zero = ap (λ (t : ℕ). 2 ^ t) (add-zero l) ∙ omega arith
two_pow_add l (suc m) =
    ap (λ (t : ℕ). 2 ^ t) (add-suc l m)
    ∙ omega (arith, two_pow_add l m, pow-suc 2 (l + m), ap (λ (t : ℕ). t * 2 ^ l) (pow-suc 2 m))
