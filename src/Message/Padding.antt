-- ===== src/Message/Padding.antt =====
-- mls-rs/src/group/padding.rs: the size to which a private message is padded. `usize` has 64 bits.
use mls_rs_wasm_maybe_sync.Common.{
  ℕ, zero, suc, ◌+◌, ◌-◌, ◌*◌, ◌/◌, ◌%◌, ◌^◌, ◌≤◌, ◌<◌, ◌≡◌, ◌⊎◌, inl, inr, refl, sym, ap, subst,
  ◌∙◌, bit_or, max, true, false, leb, ◌==◌, if◌then◌else◌, Bool-cases, arith,
}
use mls_rs_wasm_maybe_sync.Common.Bits.{bit_or_step, bit_or_split, bit_or-zero, two_pow_add}
use native.Mathlib.Nat.{pow-suc, one-le-pow, pow-le-pow_right}

-- `PaddingMode`
pub data PaddingMode : Type 0 where
  step_function no_padding : PaddingMode

-- `usize::next_power_of_two`, without overflow checks: the first power of two from `2 ^ k` on that is at
-- least `x`, and 0 when 64 bits do not hold it. `fuel` is 64 - k.
unfoldable pub power_from : ℕ → ℕ → ℕ → ℕ
power_from zero k x = 0
power_from (suc fuel) k x =
    let rest = power_from fuel (suc k) x in if leb x (2 ^ k) then 2 ^ k else rest

abbrev pub next_power_of_two : ℕ → ℕ
next_power_of_two x = power_from 64 0 x

-- `usize::trailing_zeros`, over at most `fuel` bits
unfoldable pub trailing_zeros : ℕ → ℕ → ℕ
trailing_zeros zero x = 0
trailing_zeros (suc fuel) x =
    let rest = trailing_zeros fuel (x / 2) in if x % 2 == 0 then suc rest else 0

-- `1 << ((content_size + 1).next_power_of_two().max(256).trailing_zeros() - 3)`
unfoldable pub blind_of : ℕ → ℕ
unfolding power_from trailing_zeros
blind_of content_size =
    2 ^ (trailing_zeros 64 (max (next_power_of_two ((content_size + 1) % 2 ^ 64)) 256) - 3)

unfoldable pub padded_size : PaddingMode → ℕ → ℕ
unfolding blind_of
padded_size step_function content_size =
    (bit_or content_size (blind_of content_size - 1) + 1) % 2 ^ 64
padded_size no_padding content_size = content_size

-- The first power of two from 2 ^ k on that holds `x`.
record FirstPower (k x p : ℕ) : Type 0 where
  exponent : ℕ
  power : p ≡ 2 ^ exponent
  within : exponent < 64
  holds : x ≤ 2 ^ exponent
  least : (exponent ≡ k) ⊎ (2 ^ exponent < 2 * x)

first_here :
    (fuel k x : ℕ) → k < 64 → leb x (2 ^ k) ≡ true → FirstPower k x (power_from (suc fuel) k x)
unfolding power_from
first_here fuel k x small first = record {
  exponent = k;
  power = rw (power_from, first);
  within = small;
  holds = ground (arith, first);
  least = inl refl;
}

first_later :
    (fuel k x : ℕ)
    → leb x (2 ^ k) ≡ false
    → FirstPower (suc k) x (power_from fuel (suc k) x)
    → FirstPower k x (power_from (suc fuel) k x)
unfolding power_from
first_later fuel k x more rest = record {
  exponent = rest.exponent;
  power = rw (power_from, more) rest.power;
  within = rest.within;
  holds = rest.holds;
  least = inr (elim rest.least [
    | inl next ↦ ground (arith, more, pow-suc 2 k, ap (λ (e : ℕ). 2 ^ e) next)
    | inr least ↦ least
  ]);
}

power_from-FirstPower :
    (fuel k x : ℕ) → k + fuel ≡ 63 → x ≤ 2 ^ 63 → FirstPower k x (power_from (suc fuel) k x)
power_from-FirstPower zero k x all h =
    first_here zero k x (omega (arith, all))
      (ground (arith, h, ap (λ (e : ℕ). 2 ^ e) (the_last k all)))
  where
    the_last : (k : ℕ) → k + 0 ≡ 63 → k ≡ 63
    the_last k all = omega (arith, all)
power_from-FirstPower (suc fuel) k x all h = elim (Bool-cases (leb x (2 ^ k))) [
  | inl first ↦ first_here (suc fuel) k x (omega (arith, all)) first
  | inr more ↦
      first_later (suc fuel) k x more (power_from-FirstPower fuel (suc k) x (omega (arith, all)) h)
]

trailing_zeros_lem : (fuel e : ℕ) → e < fuel → trailing_zeros fuel (2 ^ e) ≡ e
unfolding trailing_zeros
trailing_zeros_lem zero e h = absurd (omega arith)
trailing_zeros_lem (suc fuel) zero h = refl
trailing_zeros_lem (suc fuel) (suc e) h =
    let even : (2 ^ suc e % 2 == 0) ≡ true = ground (arith, pow-suc 2 e) in
    let half : 2 ^ suc e / 2 ≡ 2 ^ e = omega (arith, pow-suc 2 e) in
    rw (even, half, trailing_zeros_lem fuel e (omega arith))

mask_fills : (k r : ℕ) → r < 2 ^ k → bit_or r (2 ^ k - 1) ≡ 2 ^ k - 1
mask_fills zero zero h = refl
mask_fills zero (suc r) h = absurd (omega arith)
mask_fills (suc k) r h =
    let inner : bit_or (r / 2) (2 ^ k - 1) ≡ 2 ^ k - 1 =
      mask_fills k (r / 2) (omega (arith, pow-suc 2 k)) in
    ground (arith, inner, one-le-pow k 2, pow-suc 2 k, bit_or_step r (2 ^ suc k - 1))

-- The size is the next multiple of a power of two above the content, of 32 bytes below 256, and such that
-- the three most significant bits of the content size decide it from there on.
pub record IsPadded (content_size padded : ℕ) : Type 0 where
  pub hidden : ℕ
  pub rounded : padded ≡ (content_size / 2 ^ hidden + 1) * 2 ^ hidden
  pub top_bits :
      ((hidden ≡ 5) × (content_size < 2 ^ 8))
      ⊎ ((2 ^ 8 ≤ content_size)
          × (2 ^ (hidden + 2) ≤ content_size)
          × (content_size < 2 ^ (hidden + 3)))

mask_rounds : (k c : ℕ) → bit_or c (2 ^ k - 1) + 1 ≡ (c / 2 ^ k + 1) * 2 ^ k
mask_rounds k c = ground (
  arith,
  one-le-pow k 2,
  bit_or_split k (c / 2 ^ k) 0 (c % 2 ^ k) (2 ^ k - 1),
  bit_or-zero (c / 2 ^ k),
  mask_fills k (c % 2 ^ k),
)

-- The exponent that `trailing_zeros` finds, from 2 ^ 8 on.
zeros_of : (e : ℕ) → e < 64 → trailing_zeros 64 (max (2 ^ e) 256) ≡ max e 8
zeros_of e small = elim (Bool-cases (leb e 8)) [
  | inl low ↦
      let least : max (2 ^ e) 256 ≡ 2 ^ 8 =
        omega (arith, pow-le-pow_right (the_base) (low_le e low)) in
      rw least (trailing_zeros_lem 64 8 (omega arith) ∙ ground (arith, low))
  | inr high ↦
      let itself : max (2 ^ e) 256 ≡ 2 ^ e =
        omega (arith, pow-le-pow_right (the_base) (high_le e high)) in
      rw itself (trailing_zeros_lem 64 e small ∙ ground (arith, high))
]
  where
    the_base : 0 < 2
    the_base = omega arith

    low_le : (e : ℕ) → leb e 8 ≡ true → e ≤ 8
    low_le e low = ground (arith, low)

    high_le : (e : ℕ) → leb e 8 ≡ false → 8 ≤ e
    high_le e high = ground (arith, high)

padding : ℕ → ℕ → ℕ
padding k c = (bit_or c (2 ^ k - 1) + 1) % 2 ^ 64

padding_lem : (k c : ℕ) → c < 2 ^ 63 → 2 ^ k * 2 ≤ c + 64 → padding k c ≡ (c / 2 ^ k + 1) * 2 ^ k
unfolding padding
padding_lem k c small fits =
    omega (arith, mask_rounds k c, bounded (c / 2 ^ k) (2 ^ k) (quotient k c))
  where
    quotient : (k c : ℕ) → c / 2 ^ k * 2 ^ k ≤ c
    quotient k c = omega (arith, one-le-pow k 2)

    bounded : (q b : ℕ) → q * b ≤ c → (q + 1) * b ≤ c + b
    bounded q b h = omega (arith, h)

padding-IsPadded :
    (e c : ℕ)
    → c < 2 ^ 63
    → c + 1 ≤ 2 ^ e
    → (e ≡ 0) ⊎ (2 ^ e < 2 * (c + 1))
    → IsPadded c (padding (max e 8 - 3) c)
padding-IsPadded e c small holds least = elim (Bool-cases (leb e 8)) [
  | inl low ↦
      let five : max e 8 - 3 ≡ 5 = ground (arith, low) in
      let below : 2 ^ e ≤ 2 ^ 8 = pow-le-pow_right (omega arith) (at_most e low) in
      record {
        hidden = 5;
        rounded = ap (λ k. padding k c) five ∙ padding_lem 5 c small (omega arith);
        top_bits = inl (refl, omega (arith, holds, below));
      }
  | inr high ↦
      let h : ℕ = e - 3 in
      let three : max e 8 - 3 ≡ h = ground (arith, high) in
      let whole : 2 ^ e ≡ 2 ^ (h + 3) = ap (λ (k : ℕ). 2 ^ k) (ground (arith, high)) in
      let quarter : 2 ^ (h + 2) ≡ 4 * 2 ^ h = two_pow_add h 2 in
      let half : 2 ^ (h + 3) ≡ 8 * 2 ^ h = two_pow_add h 3 in
      let large : 2 ^ 8 ≤ 2 ^ (h + 2) = pow-le-pow_right (omega arith) (at_least e high) in
      let lower : 2 ^ (h + 2) ≤ c = ground (arith, least, high, whole, half, quarter) in
      record {
        hidden = h;
        rounded =
            ap (λ k. padding k c) three ∙ padding_lem h c small (omega (arith, quarter, lower));
        top_bits = inr (omega (arith, lower, large), lower, omega (arith, holds, whole));
      }
]
  where
    at_most : (e : ℕ) → leb e 8 ≡ true → e ≤ 8
    at_most e low = ground (arith, low)

    at_least : (e : ℕ) → leb e 8 ≡ false → 8 ≤ e - 3 + 2
    at_least e high = ground (arith, high)

-- A content of fewer than 2 ^ 63 bytes is padded to the next multiple of 2 ^ k above its size, where k is 5
-- below 256 bytes, and otherwise 3 less than the number of bits of the size, so that its 3 most significant
-- bits decide the result.
pub padded_size-IsPadded :
    (content_size : ℕ)
    → content_size < 2 ^ 63
    → IsPadded content_size (padded_size step_function content_size)
unfolding padded_size blind_of padding
padded_size-IsPadded c small =
    subst (IsPadded c) (sym (ap (λ k. padding (k - 3) c) found))
      (padding-IsPadded first.exponent c small (omega (arith, first.holds)) (plain first.least))
  where
    first : FirstPower 0 ((c + 1) % 2 ^ 64) (next_power_of_two ((c + 1) % 2 ^ 64))
    first = power_from-FirstPower 63 0 ((c + 1) % 2 ^ 64) refl (omega (arith, small))

    found :
        trailing_zeros 64 (max (next_power_of_two ((c + 1) % 2 ^ 64)) 256) ≡ max first.exponent 8
    found =
        ap (λ (p : ℕ). trailing_zeros 64 (max p 256)) first.power
        ∙ zeros_of first.exponent first.within

    plain :
        (first.exponent ≡ 0) ⊎ (2 ^ first.exponent < 2 * ((c + 1) % 2 ^ 64))
        → (first.exponent ≡ 0) ⊎ (2 ^ first.exponent < 2 * (c + 1))
    plain (inl z) = inl z
    plain (inr l) = inr (omega (arith, l))

-- A content of fewer than 2 ^ 63 bytes is padded by one byte at least, and by at most 32 bytes or a quarter
-- of its size.
pub padded_size_bounds :
    (content_size : ℕ)
    → content_size < 2 ^ 63
    → (content_size < padded_size step_function content_size)
      × ((padded_size step_function content_size ≤ content_size + 32)
          ⊎ (4 * (padded_size step_function content_size - content_size) ≤ content_size))
padded_size_bounds c small = bounds (padded_size step_function c) (padded_size-IsPadded c small)
  where
    bounds : (p : ℕ) → IsPadded c p → (c < p) × ((p ≤ c + 32) ⊎ (4 * (p - c) ≤ c))
    bounds p i =
        let next : c < p = omega (arith, i.rounded, one-le-pow i.hidden 2) in
        let block : p ≤ c + 2 ^ i.hidden = omega (arith, i.rounded, one-le-pow i.hidden 2) in
        (
          next,
          elim i.top_bits [
            | inl (five, low) ↦ inl (omega (arith, block, ap (λ (k : ℕ). 2 ^ k) five))
            | inr (large, lower, upper) ↦
                let quarter : 2 ^ (i.hidden + 2) ≡ 4 * 2 ^ i.hidden = two_pow_add i.hidden 2 in
                inr (omega (arith, block, lower, quarter))
          ],
        )
