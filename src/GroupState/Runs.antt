-- ===== src/GroupState/Runs.antt =====
-- Lists of entries with consecutive numbers, as the epochs of mls-rs/src/group/state_repo.rs are kept.
use mls_rs_wasm_maybe_sync.Common.{
  ℕ, zero, suc, ◌+◌, ◌-◌, ◌≡◌, refl, sym, ap, subst, ◌∙◌, List, [], ◌∷◌, ◌++◌, length, get_elem?,
  get_last?, set, drop, leb, ◌==◌, if◌then◌else◌, Option, none, some, arith, Bool-cases, inl, inr,
  ◌≤◌,
}

module _ {A : Type 0} (number : A → ℕ) where
  -- The entries are numbered from `n` on, without gaps.
  abbrev pub IsRun : ℕ → List A → Type 0
  IsRun n [] = Unit
  IsRun n (x ∷ xs) = (number x ≡ n) × IsRun (suc n) xs

  -- The first entry with a number.
  unfoldable pub find : ℕ → List A → Option A
  find k [] = none
  find k (x ∷ xs) = if number x == k then some x else find k xs

  pub IsRun-get_elem? :
      (n i : ℕ) (xs : List A) (x : A) → IsRun n xs → get_elem? xs i ≡ some x → number x ≡ n + i
  IsRun-get_elem? n i [] x h e = absurd (ground arith)
  IsRun-get_elem? n zero (y ∷ xs) x (hy, h) e = ground arith
  IsRun-get_elem? n (suc i) (y ∷ xs) x (hy, h) e = omega (arith, IsRun-get_elem? (suc n) i xs x h e)

  pub IsRun-append :
      (n : ℕ) (xs ys : List A) → IsRun n xs → IsRun (n + length xs) ys → IsRun n (xs ++ ys)
  IsRun-append n [] ys h k = subst (λ m. IsRun m ys) (omega arith) k
  IsRun-append n (x ∷ xs) ys (hx, h) k =
      (hx, IsRun-append (suc n) xs ys h (subst (λ m. IsRun m ys) (omega arith) k))

  pub IsRun-set :
      (n i : ℕ) (xs : List A) (v : A) → IsRun n xs → number v ≡ n + i → IsRun n (set xs i v)
  IsRun-set n i [] v h e = tt
  IsRun-set n zero (x ∷ xs) v (hx, h) e = (omega arith, h)
  IsRun-set n (suc i) (x ∷ xs) v (hx, h) e = (hx, IsRun-set (suc n) i xs v h (omega arith))

  pub IsRun-drop : (n k : ℕ) (xs : List A) → IsRun n xs → IsRun (n + k) (drop k xs)
  IsRun-drop n zero xs h = subst (λ m. IsRun m xs) (omega arith) h
  IsRun-drop n (suc k) [] h = tt
  IsRun-drop n (suc k) (x ∷ xs) (hx, h) =
      subst (λ m. IsRun m (drop k xs)) (omega arith) (IsRun-drop (suc n) k xs h)

  find-below : (n k : ℕ) (xs : List A) → IsRun n xs → suc k ≤ n → find k xs ≡ none
  unfolding find
  find-below n k [] h lt = refl
  find-below n k (x ∷ xs) (hx, h) lt = ground (arith, find-below (suc n) k xs h (omega arith))

  find-at : (n i : ℕ) (xs : List A) → IsRun n xs → find (n + i) xs ≡ get_elem? xs i
  unfolding find
  find-at n i [] h = refl
  find-at n zero (x ∷ xs) (hx, h) = ground arith
  find-at n (suc i) (x ∷ xs) (hx, h) =
      ground (arith, find-at (suc n) i xs h, ap (λ (k : ℕ). find k xs) (shift n i))
    where
      shift : (a b : ℕ) → suc a + b ≡ a + suc b
      shift a b = omega arith

  -- In a run an entry stands at the distance of its number from the first.
  pub find-IsRun :
      (n k : ℕ) (xs : List A)
      → IsRun n xs
      → find k xs ≡ (if leb n k then get_elem? xs (k - n) else none)
  find-IsRun n k xs h = elim (Bool-cases (leb n k)) [
    | inl le ↦
        let here : n + (k - n) ≡ k = ground arith in
        rw le (ap (λ m. find m xs) (sym here) ∙ find-at n (k - n) xs h)
    | inr gt ↦ rw gt (find-below n k xs h (ground arith))
  ]

  pub get_last?-IsRun :
      (n : ℕ) (xs : List A) (x : A)
      → IsRun n xs
      → get_last? xs ≡ some x
      → number x + 1 ≡ n + length xs
  get_last?-IsRun n [] x h e = absurd (ground arith)
  get_last?-IsRun n (y ∷ []) x (hy, h) e = ground arith
  get_last?-IsRun n (y ∷ z ∷ xs) x (hy, h) e = omega (arith, get_last?-IsRun (suc n) (z ∷ xs) x h e)
