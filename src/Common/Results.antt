-- ===== src/Common/Results.antt =====
-- Rust's `Result<A, E>` with the two ways in which a call gives no value: a panic, and a loop that
-- its fuel did not see to the end.
use mathlib.Core.Path.{◌≡◌, refl}
use mathlib.Core.Bool.{Bool, true, false}
use mathlib.Core.Option.{Option, none, some}
use mathlib.Core.List.{List, [], ◌∷◌}

pub data Fault : Type 0 where
  panicked out_of_fuel : Fault

pub data Result {ℓ} (E : Type 0) (A : Type ℓ) : Type ℓ where
  ok : A → Result E A
  err : E → Result E A
  fault : Fault → Result E A

infixl 5 ◌>>=◌ ◌>>◌
abbrev pub ◌>>=◌ {ℓ κ} :
    {E : Type 0} {A : Type ℓ} {B : Type κ} → Result E A → (A → Result E B) → Result E B
ok a >>= f = f a
err e >>= f = err e
fault x >>= f = fault x

abbrev pub ◌>>◌ {ℓ} : {E : Type 0} {B : Type ℓ} → Result E (Unit {0}) → Result E B → Result E B
m >> k = m >>= λ _. k

-- `condition.then_some(()).ok_or(error)?`
abbrev pub ensure : {E : Type 0} → Bool → E → Result E (Unit {0})
ensure true e = ok tt
ensure false e = err e

-- `option.ok_or(error)`
abbrev pub ok_or {ℓ} : {E : Type 0} {A : Type ℓ} → Option A → E → Result E A
ok_or none e = err e
ok_or (some a) e = ok a

-- `Iterator::try_for_each`
abbrev pub try_for_each {ℓ} :
    {E : Type 0} {A : Type ℓ} → (A → Result E (Unit {0})) → List A → Result E (Unit {0})
try_for_each f [] = ok tt
try_for_each f (x ∷ xs) = f x >>= λ _. try_for_each f xs

-- A bind succeeds when both its parts do.
pub >>=-eq-ok {ℓ κ} :
    {E : Type 0} {A : Type ℓ} {B : Type κ} (first : Result E A) (next : A → Result E B) {v : B}
    → (first >>= next) ≡ ok v
    → (u : A) × (first ≡ ok u) × (next u ≡ ok v)
>>=-eq-ok (fault x) next h = absurd (cc)
>>=-eq-ok (err e) next h = absurd (cc)
>>=-eq-ok (ok u) next h = (u, refl, h)

pub data Ended {ℓ} {E : Type 0} {A : Type ℓ} (r : Result E A) : Type ℓ where
  gives : (a : A) → r ≡ ok a → Ended r
  fails : (e : E) → r ≡ err e → Ended r
  breaks : (x : Fault) → r ≡ fault x → Ended r

pub Result-cases {ℓ} : {E : Type 0} {A : Type ℓ} (r : Result E A) → Ended r
Result-cases (ok a) = gives a refl
Result-cases (err e) = fails e refl
Result-cases (fault x) = breaks x refl
