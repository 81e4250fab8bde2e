-- ===== src/SecretTree/Ratchet/Keys.antt =====
-- mls-rs/src/group/secret_tree.rs: which keys `get_message_key` gives out, and how often.
use mls_rs_wasm_maybe_sync.Common.{
  ℕ, zero, suc, ◌+◌, ◌%◌, ◌^◌, ◌≤◌, ◌<◌, ◌≡◌, ◌≢◌, refl, sym, ap, subst, ◌∙◌, List, ltb, ◌==◌,
  ltb→lt, lt→ltb, true, false, Bool-cases, none, some, Option-cases, Result, ok, err, fault,
  out_of_fuel, arith, inl, inr,
}
use mls_rs_wasm_maybe_sync.Common.State.{continue}
use mls_rs_wasm_maybe_sync.MlsError.{MlsError, key_missing, invalid_future_generation}
use mls_rs_wasm_maybe_sync.SecretTree.Derive.{CipherSuite}
use mls_rs_wasm_maybe_sync.SecretTree.Ratchet.{
  max_ratchet_back_history, MessageKeyData, SecretKeyRatchet, update, next_message_key, skip_loop,
  get_message_key,
}
use mls_rs_wasm_maybe_sync.SecretTree.Ratchet.Chain.{
  chain_key, IsRatchet, advanced, stopped, advance, remember-IsRatchet, forget-IsRatchet,
}

-- What the skipping loop leaves: the chain, the target generation, and the history with the skipped
-- keys added.
data Skipped (cs : CipherSuite) (s0 : List ℕ) (fuel g : ℕ) (r : SecretKeyRatchet) : Type 0 where
  skipped :
      (r' : SecretKeyRatchet)
      → IsRatchet cs s0 r'
      → r.generation ≤ r'.generation
      → g ≤ r'.generation
      → (r.generation ≤ g → r'.generation ≡ g)
      → ((j : ℕ) → j < r.generation → r'.history j ≡ r.history j)
      → ((j : ℕ) → r.generation ≤ j → j < g → (mk : MessageKeyData) × (r'.history j ≡ some mk))
      → skip_loop cs fuel g r ≡ (ok tt, r')
      → Skipped cs s0 fuel g r
  halted :
      (x : Result MlsError (Unit {0})) (r' : SecretKeyRatchet)
      → x ≢ ok tt
      → IsRatchet cs s0 r'
      → skip_loop cs fuel g r ≡ (x, r')
      → Skipped cs s0 fuel g r

module _ (cs : CipherSuite) (s0 : List ℕ) where
  skip_done :
      (fuel g : ℕ) (r : SecretKeyRatchet)
      → IsRatchet cs s0 r
      → ltb r.generation g ≡ false
      → Skipped cs s0 fuel g r
  unfolding skip_loop
  skip_done zero g r inv e =
      skipped r inv (omega arith) (ground arith) (λ h. ground arith) (λ j h. refl)
        (λ j h k. absurd (ground arith)) (rw e)
  skip_done (suc fuel) g r inv e =
      skipped r inv (omega arith) (ground arith) (λ h. ground arith) (λ j h. refl)
        (λ j h k. absurd (ground arith)) (rw e)

  -- The state after one round, with its key remembered.
  abbrev after_round : SecretKeyRatchet → MessageKeyData → SecretKeyRatchet
  after_round r mk = record r { history = update r.history mk.generation (some mk) }

  skip_step :
      (fuel g : ℕ) (r r' : SecretKeyRatchet) (mk : MessageKeyData)
      → ltb r.generation g ≡ true
      → next_message_key cs r ≡ (ok mk, r')
      → skip_loop cs (suc fuel) g r ≡ skip_loop cs fuel g (after_round r' mk)
  unfolding skip_loop
  skip_step fuel g r r' mk more e = rw (more, e)

  skip_stop :
      (fuel g : ℕ) (r : SecretKeyRatchet) (x : Result MlsError MessageKeyData)
      → ltb r.generation g ≡ true
      → ((mk : MessageKeyData) → x ≢ ok mk)
      → next_message_key cs r ≡ (x, r)
      → (y : Result MlsError (Unit {0})) × (y ≢ ok tt) × (skip_loop cs (suc fuel) g r ≡ (y, r))
  unfolding skip_loop
  skip_stop fuel g r (ok mk) more bad e = absurd (bad mk refl)
  skip_stop fuel g r (err x) more bad e = (err x, λ q. cc, rw (more, e))
  skip_stop fuel g r (fault x) more bad e = (fault x, λ q. cc, rw (more, e))

  -- One round before a loop that has been seen.
  skip_more :
      (fuel g : ℕ) (r r' : SecretKeyRatchet) (mk : MessageKeyData)
      → r.generation < g
      → mk.generation ≡ r.generation
      → r'.generation ≡ r.generation + 1
      → r'.history ≡ r.history
      → skip_loop cs (suc fuel) g r ≡ skip_loop cs fuel g (after_round r' mk)
      → Skipped cs s0 fuel g (after_round r' mk)
      → Skipped cs s0 (suc fuel) g r
  skip_more fuel g r r' mk more gen up same step (halted x z bad inv e) =
      halted x z bad inv (step ∙ e)
  skip_more fuel g r r' mk more gen up same step (skipped z inv le top exact old new e) =
      skipped z inv (omega arith) top (λ h. exact (omega arith)) before after (step ∙ e)
    where
      before : (j : ℕ) → j < r.generation → z.history j ≡ r.history j
      before j h = ground (arith, old j (omega arith), ap (λ f. f j) same)

      after : (j : ℕ) → r.generation ≤ j → j < g → (k : MessageKeyData) × (z.history j ≡ some k)
      after j h k = elim (Bool-cases (j == mk.generation)) [
        | inl here ↦ (mk, ground (arith, old j (ground arith)))
        | inr other ↦ new j (ground arith) k
      ]

  skip_cases :
      (fuel g : ℕ) (r : SecretKeyRatchet) → IsRatchet cs s0 r → g < 2 ^ 32 → Skipped cs s0 fuel g r
  unfolding skip_loop
  skip_cases zero g r inv small = elim (Bool-cases (ltb r.generation g)) [
    | inr done ↦ skip_done zero g r inv done
    | inl more ↦ halted (fault out_of_fuel) r (λ q. cc) inv (rw more)
  ]
  skip_cases (suc fuel) g r inv small = elim (Bool-cases (ltb r.generation g)) [
    | inr done ↦ skip_done (suc fuel) g r inv done
    | inl more ↦ elim (advance cs s0 r inv (ground arith)) [
      | stopped x bad e ↦
          let (y, worse, q) = skip_stop fuel g r x more bad e in halted y r worse inv q
      | advanced mk r' key gen inv' up same step ↦
          skip_more fuel g r r' mk (ground arith) gen up same (skip_step fuel g r r' mk more step) (
            skip_cases fuel g (after_round r' mk)
              (remember-IsRatchet cs s0 r' mk inv' (omega arith) (ap (chain_key cs s0) gen ∙ key))
              small)
    ]
  ]

-- What a successful call of `get_message_key` has done.
data Got (cs : CipherSuite) (s0 : List ℕ) (g : ℕ) (r : SecretKeyRatchet) : Type 0 where
  got :
      (mk : MessageKeyData) (r' : SecretKeyRatchet)
      → chain_key cs s0 g ≡ ok mk
      → IsRatchet cs s0 r'
      → g < r'.generation
      → r'.history g ≡ none
      → get_message_key cs g r ≡ (ok mk, r')
      → Got cs s0 g r
  refused :
      (x : Result MlsError MessageKeyData) (r' : SecretKeyRatchet)
      → ((mk : MessageKeyData) → x ≢ ok mk)
      → IsRatchet cs s0 r'
      → get_message_key cs g r ≡ (x, r')
      → Got cs s0 g r

module _ (cs : CipherSuite) (s0 : List ℕ) where
  from_history :
      (g : ℕ) (r : SecretKeyRatchet) → IsRatchet cs s0 r → g < r.generation → Got cs s0 g r
  unfolding get_message_key
  from_history g r inv old = elim (Option-cases (r.history g)) [
    | inl missing ↦
        refused (err (key_missing g)) (record r { history = update r.history g none }) (λ mk q. cc)
          (forget-IsRatchet cs s0 r g inv) (rw (lt→ltb g r.generation old, missing))
    | inr (mk, here) ↦
        got mk (record r { history = update r.history g none }) (inv.kept g mk here).1
          (forget-IsRatchet cs s0 r g inv) old (ground arith) (rw (lt→ltb g r.generation old, here))
  ]

  -- A request inside the window runs the loop and one more step.
  get_inside :
      (g : ℕ) (r : SecretKeyRatchet)
      → r.generation ≤ g
      → ltb ((r.generation + max_ratchet_back_history) % 2 ^ 32) g ≡ false
      → get_message_key cs g r
        ≡ continue
            (λ u. next_message_key cs)
            (skip_loop cs max_ratchet_back_history g r).0
            (skip_loop cs max_ratchet_back_history g r).1
  unfolding get_message_key
  get_inside g r new near = ground arith

  no_history :
      (g : ℕ) (r : SecretKeyRatchet) → IsRatchet cs s0 r → r.generation ≤ g → r.history g ≡ none
  no_history g r inv h = elim (Option-cases (r.history g)) [
    | inl missing ↦ missing
    | inr (mk, here) ↦ absurd (omega (arith, (inv.kept g mk here).0))
  ]

  last_step :
      (g : ℕ) (r r' : SecretKeyRatchet)
      → g + 1 < 2 ^ 32
      → IsRatchet cs s0 r'
      → r'.generation ≡ g
      → get_message_key cs g r ≡ next_message_key cs r'
      → Got cs s0 g r
  last_step g r r' small inv here e = elim (advance cs s0 r' inv (omega arith)) [
    | stopped x bad step ↦ refused x r' bad inv (e ∙ step)
    | advanced mk z key gen inv' up same step ↦
        got mk z (ap (chain_key cs s0) (sym here) ∙ key) inv' (omega arith)
          (ap (λ f. f g) same ∙ no_history g r' inv (omega arith)) (e ∙ step)
  ]

  halt_result :
      (x : Result MlsError (Unit {0})) (r' : SecretKeyRatchet)
      → x ≢ ok tt
      → (y : Result MlsError MessageKeyData) × ((mk : MessageKeyData) → y ≢ ok mk)
        × (continue (λ u. next_message_key cs) x r' ≡ (y, r'))
  halt_result (ok tt) r' bad = absurd (bad refl)
  halt_result (err e) r' bad = (err e, λ mk q. cc, refl)
  halt_result (fault e) r' bad = (fault e, λ mk q. cc, refl)

  get_cases : (g : ℕ) (r : SecretKeyRatchet) → IsRatchet cs s0 r → g + 1 < 2 ^ 32 → Got cs s0 g r
  unfolding get_message_key
  get_cases g r inv small = elim (Bool-cases (ltb g r.generation)) [
    | inl old ↦ from_history g r inv (ltb→lt g r.generation old)
    | inr new ↦ elim (Bool-cases (ltb ((r.generation + max_ratchet_back_history) % 2 ^ 32) g)) [
      | inl far ↦ refused (err (invalid_future_generation g)) r (λ mk q. cc) inv (rw (new, far))
      | inr near ↦ elim (skip_cases cs s0 max_ratchet_back_history g r inv (omega arith)) [
        | skipped r' inv' le top exact old added e ↦
            last_step g r r' small inv' (exact (ground arith)) (
              get_inside g r (ground arith) near
              ∙ ap (λ z. continue (λ u. next_message_key cs) z.0 z.1) e)
        | halted x r' bad inv' e ↦
            let (y, worse, q) = halt_result x r' bad in
            refused y r' worse inv' (
              get_inside g r (ground arith) near
              ∙ ap (λ z. continue (λ u. next_message_key cs) z.0 z.1) e
              ∙ q)
      ]
    ]
  ]

  -- On a ratchet that keeps to its chain, a request for a generation below the last leaves a ratchet that
  -- keeps to its chain, also when it fails.
  pub get_message_key-IsRatchet :
      (g : ℕ) (r : SecretKeyRatchet)
      → IsRatchet cs s0 r
      → g + 1 < 2 ^ 32
      → IsRatchet cs s0 (get_message_key cs g r).1
  get_message_key-IsRatchet g r inv small = elim (get_cases g r inv small) [
    | got mk r' key inv' lt gone e ↦ subst (λ z. IsRatchet cs s0 z.1) (sym e) inv'
    | refused x r' bad inv' e ↦ subst (λ z. IsRatchet cs s0 z.1) (sym e) inv'
  ]

  -- On a ratchet that keeps to its chain and a generation below the last, a key that a request returns is
  -- the key of its generation in the chain, and a second request for the generation finds the key missing.
  pub get_message_key_once :
      (g : ℕ) (r r' : SecretKeyRatchet) (mk : MessageKeyData)
      → IsRatchet cs s0 r
      → g + 1 < 2 ^ 32
      → get_message_key cs g r ≡ (ok mk, r')
      → (chain_key cs s0 g ≡ ok mk) × ((get_message_key cs g r').0 ≡ err (key_missing g))
  unfolding get_message_key
  get_message_key_once g r r' mk inv small call = elim (get_cases g r inv small) [
    | refused x z bad inv' e ↦ absurd (bad mk (ap (λ p. p.0) (sym e ∙ call)))
    | got k z key inv' lt gone e ↦
        let same : k ≡ mk = ground (arith, ap (λ p. p.0) (sym e ∙ call)) in
        let there : z ≡ r' = ap (λ p. p.1) (sym e ∙ call) in
        (
          key ∙ ap ok same,
          subst (λ s. (get_message_key cs g s).0 ≡ err (key_missing g)) there
              (rw (lt→ltb g z.generation lt, gone)),
        )
  ]

  -- A request for a u32 generation more than 1024 ahead fails, and leaves the ratchet as it was.
  pub get_message_key_window :
      (g : ℕ) (r : SecretKeyRatchet)
      → r.generation + max_ratchet_back_history < g
      → g < 2 ^ 32
      → get_message_key cs g r ≡ (err (invalid_future_generation g), r)
  unfolding get_message_key
  get_message_key_window g r far small = ground arith
