-- ===== src/Message/ReuseGuard.antt =====
-- mls-rs/src/group/ciphertext_processor/reuse_guard.rs: the guard on the nonce of a message key.
use mls_rs_wasm_maybe_sync.Common.{
  ℕ, zero, suc, ◌+◌, ◌/◌, ◌%◌, ◌≤◌, ◌<◌, List, [], ◌∷◌, ◌≡◌, refl, sym, ap, ◌∙◌, bit_xor, length,
  arith,
}
use mls_rs_wasm_maybe_sync.Common.Bits.{bit_xor_step}
use Prim.Native.Nat.{differ}

-- `ReuseGuard::apply`: the bytes of the guard change the first bytes of the nonce.
unfoldable pub apply : List ℕ → List ℕ → List ℕ
apply guard [] = []
apply [] (n ∷ nonce) = n ∷ nonce
apply (g ∷ guard) (n ∷ nonce) = bit_xor n g ∷ apply guard nonce

differ_small : (a b : ℕ) → a < 2 → b < 2 → differ a b < 2
differ_small zero b ha hb = hb
differ_small (suc a) zero ha hb = ha
differ_small (suc zero) (suc b) ha hb = omega arith
differ_small (suc (suc a)) (suc b) ha hb = absurd (omega arith)

differ_twice : (a b : ℕ) → a < 2 → b < 2 → differ (differ a b) b ≡ a
differ_twice zero zero ha hb = refl
differ_twice zero (suc zero) ha hb = refl
differ_twice (suc zero) zero ha hb = refl
differ_twice (suc zero) (suc zero) ha hb = refl
differ_twice (suc (suc a)) b ha hb = absurd (omega arith)
differ_twice a (suc (suc b)) ha hb = absurd (omega arith)

xor_digits :
    (a b : ℕ)
    → (bit_xor a b / 2 ≡ bit_xor (a / 2) (b / 2)) × (bit_xor a b % 2 ≡ differ (a % 2) (b % 2))
xor_digits a b =
    let small : differ (a % 2) (b % 2) < 2 =
      differ_small (a % 2) (b % 2) (omega arith) (omega arith) in
    (omega (arith, bit_xor_step a b, small), omega (arith, bit_xor_step a b, small))

twice_step :
    (a b : ℕ) → bit_xor (bit_xor (a / 2) (b / 2)) (b / 2) ≡ a / 2 → bit_xor (bit_xor a b) b ≡ a
twice_step a b halves =
    bit_xor_step (bit_xor a b) b
    ∙ rw
        (
          (xor_digits a b).0,
          (xor_digits a b).1,
          halves,
          differ_twice (a % 2) (b % 2) (omega arith) (omega arith),
        )
        (omega arith)

-- Strong induction in the form of a bound.
bit_xor_twice_below : (n a b : ℕ) → a + b ≤ n → bit_xor (bit_xor a b) b ≡ a
bit_xor_twice_below n zero zero h = refl
bit_xor_twice_below zero (suc a) b h = absurd (omega arith)
bit_xor_twice_below zero a (suc b) h = absurd (omega arith)
bit_xor_twice_below (suc n) a b h =
    twice_step a b (bit_xor_twice_below n (a / 2) (b / 2) (omega arith))

pub bit_xor_twice : (a b : ℕ) → bit_xor (bit_xor a b) b ≡ a
bit_xor_twice a b = bit_xor_twice_below (a + b) a b (omega arith)

differ_comm : (a b : ℕ) → differ a b ≡ differ b a
differ_comm zero zero = refl
differ_comm zero (suc b) = refl
differ_comm (suc a) zero = refl
differ_comm (suc a) (suc b) = differ_comm a b

bit_xor_comm_below : (n a b : ℕ) → a + b ≤ n → bit_xor a b ≡ bit_xor b a
bit_xor_comm_below n zero zero h = refl
bit_xor_comm_below zero (suc a) b h = absurd (omega arith)
bit_xor_comm_below zero a (suc b) h = absurd (omega arith)
bit_xor_comm_below (suc n) a b h = omega (
  arith,
  bit_xor_step a b,
  bit_xor_step b a,
  differ_comm (a % 2) (b % 2),
  bit_xor_comm_below n (a / 2) (b / 2) (omega arith),
)

xor_cancels : (n g h : ℕ) → bit_xor n g ≡ bit_xor n h → g ≡ h
xor_cancels n g h same =
    sym (bit_xor_twice g n)
    ∙ ap (λ (x : ℕ). bit_xor x n) (swapped g ∙ same ∙ sym (swapped h))
    ∙ bit_xor_twice h n
  where
    swapped : (g : ℕ) → bit_xor g n ≡ bit_xor n g
    swapped g = bit_xor_comm_below (g + n) g n (omega arith)

-- The guard applied twice gives the nonce back.
pub apply-apply : (guard nonce : List ℕ) → apply guard (apply guard nonce) ≡ nonce
unfolding apply
apply-apply guard [] = refl
apply-apply [] (n ∷ nonce) = refl
apply-apply (g ∷ guard) (n ∷ nonce) = rw (bit_xor_twice n g, apply-apply guard nonce)

pub length-apply : (guard nonce : List ℕ) → length (apply guard nonce) ≡ length nonce
unfolding apply
length-apply guard [] = refl
length-apply [] (n ∷ nonce) = refl
length-apply (g ∷ guard) (n ∷ nonce) = ap suc (length-apply guard nonce)

-- Two reuse guards of one length that change a nonce, which is at least as long, into the same nonce are the
-- same guard.
pub apply-eq :
    (g h nonce : List ℕ)
    → length g ≡ length h
    → length g ≤ length nonce
    → apply g nonce ≡ apply h nonce
    → g ≡ h
unfolding apply
apply-eq [] [] nonce same fits e = refl
apply-eq [] (y ∷ h) nonce same fits e = absurd (omega (arith, same))
apply-eq (x ∷ g) [] nonce same fits e = absurd (omega (arith, same))
apply-eq (x ∷ g) (y ∷ h) [] same fits e = absurd (omega (arith, fits))
apply-eq (x ∷ g) (y ∷ h) (n ∷ nonce) same fits e =
    rw (xor_cancels n x y (cc), apply-eq g h nonce (omega (arith, same)) (omega (arith, fits)) (cc))
