-- ===== src/Common/State.antt =====
-- Methods on `&mut self` that may fail: the object is returned with the result, also when the method
-- leaves by an error, so that what it changed before that is seen.
use mathlib.Core.Path.{◌≡◌, refl, subst}
use mls_rs_wasm_maybe_sync.Common.Results.{Result, ok, err, fault}

abbrev pub Method {ℓ κ} : Type ℓ → Type 0 → Type κ → Type (ℓ ⊔ κ)
Method S E A = S → Result E A × S

abbrev pub continue {ℓ κ μ} :
    {S : Type ℓ} {E : Type 0} {A : Type κ} {B : Type μ}
    → (A → Method S E B)
    → Result E A
    → S
    → Result E B × S
continue f (ok a) s = f a s
continue f (err e) s = (err e, s)
continue f (fault x) s = (fault x, s)

infixl 5 ◌>>=◌ ◌>>◌
abbrev pub ◌>>=◌ {ℓ κ μ} :
    {S : Type ℓ} {E : Type 0} {A : Type κ} {B : Type μ}
    → Method S E A
    → (A → Method S E B)
    → Method S E B
◌>>=◌ m f s = continue f (m s).0 (m s).1

abbrev pub ◌>>◌ {ℓ κ μ} :
    {S : Type ℓ} {E : Type 0} {A : Type κ} {B : Type μ} → Method S E A → Method S E B → Method S E B
m >> k = m >>= λ _. k

abbrev pub return {ℓ κ} : {S : Type ℓ} {E : Type 0} {A : Type κ} → A → Method S E A
return a s = (ok a, s)

-- A call that does not change the object.
abbrev pub lift {ℓ κ} : {S : Type ℓ} {E : Type 0} {A : Type κ} → Result E A → Method S E A
lift r s = (r, s)

abbrev pub self {ℓ} : {S : Type ℓ} {E : Type 0} → Method S E S
self s = (ok s, s)

abbrev pub set_self {ℓ} : {S : Type ℓ} {E : Type 0} → S → Method S E (Unit {0})
set_self s' s = (ok tt, s')

-- What holds after a method: `P` of the object in any case, and `Q` of a value that it returns.
abbrev pub OnOk {ℓ κ} : {E : Type 0} {A : Type ℓ} → (A → Type κ) → Result E A → Type κ
OnOk Q (ok a) = Q a
OnOk Q (err e) = Unit
OnOk Q (fault x) = Unit

abbrev pub After {ℓ κ μ ν} :
    {S : Type ℓ} {E : Type 0} {A : Type κ}
    → (S → Type μ)
    → (A → Type ν)
    → Result E A × S
    → Type (μ ⊔ ν)
After P Q z = P z.1 × OnOk Q z.0

module _ {ℓ κ μ ν} {S : Type ℓ} {E : Type 0} {A : Type κ} (P : S → Type μ) (Q : A → Type ν) where
  pub After-bind {β ρ} :
      {B : Type β} (R : B → Type ρ) (f : A → Method S E B) (z : Result E A × S)
      → After P Q z
      → ((a : A) (s : S) → z ≡ (ok a, s) → P s → Q a → After P R (f a s))
      → After P R (continue f z.0 z.1)
  After-bind R f (ok a, s) h k = k a s refl h.0 h.1
  After-bind R f (err e, s) h k = (h.0, tt)
  After-bind R f (fault x, s) h k = (h.0, tt)

  pub After-lift : (r : Result E A) (s : S) → P s → ((a : A) → r ≡ ok a → Q a) → After P Q (r, s)
  After-lift (ok a) s h k = (h, k a refl)
  After-lift (err e) s h k = (h, tt)
  After-lift (fault x) s h k = (h, tt)

  pub after_value : (z : Result E A × S) (a : A) (s : S) → After P Q z → z ≡ (ok a, s) → Q a
  after_value (ok b, t) a s h e = subst Q (cc) h.1
  after_value (err x, t) a s h e = absurd (cc)
  after_value (fault x, t) a s h e = absurd (cc)

-- A call that never breaks, and what holds of the value and the object when it gives a value.
abbrev pub Ensures {ℓ κ} :
    {S : Type ℓ} {E : Type 0} {A : Type κ} → (A → S → Type 0) → Result E A × S → Type 0
Ensures P (ok a, s) = P a s
Ensures P (err e, s) = Unit
Ensures P (fault x, s) = ⊥

module _ {ℓ κ} {S : Type ℓ} {E : Type 0} {A : Type κ} (P : A → S → Type 0) where
  pub Ensures-bind {β} :
      {B : Type β} (R : B → S → Type 0) (f : A → Method S E B) (z : Result E A × S)
      → Ensures P z
      → ((a : A) (s : S) → P a s → Ensures R (f a s))
      → Ensures R (continue f z.0 z.1)
  Ensures-bind R f (ok a, s) h k = k a s h
  Ensures-bind R f (err e, s) h k = tt
  Ensures-bind R f (fault x, s) h k = absurd h
