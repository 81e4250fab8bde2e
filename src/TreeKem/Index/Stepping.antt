-- ===== src/TreeKem/Index/Stepping.antt =====
-- mls-rs/src/tree_kem/tree_index.rs: counters that a walk over distinct types adds to or takes from.
use mls_rs_wasm_maybe_sync.Common.{
  ℕ, ◌+◌, ◌-◌, ◌^◌, ◌<◌, ◌≡◌, ◌≢◌, refl, sym, ap, subst, ◌∙◌, List, [], ◌∷◌, ◌==◌, ==_iff,
  if◌then◌else◌, Bool, Bool-cases, true, false, ◌||◌, Option, none, some, arith, inl, inr,
}
use mls_rs_wasm_maybe_sync.TreeKem.Index.{
  LargeMap, lookup, TypeCounter, contains, unique, for_each, number_in,
}

abbrev pub used_in : Option TypeCounter → ℕ
used_in none = 0
used_in (some k) = k.used

abbrev pub used_of : LargeMap ℕ TypeCounter → ℕ → ℕ
used_of m c = used_in (lookup ◌==◌ m c)

abbrev pub proposals_of : LargeMap ℕ ℕ → ℕ → ℕ
proposals_of m p = number_in (lookup ◌==◌ m p)

-- A way to count entries, and what it tells for each: a step from a number that allows it for an entry
-- that is counted, and no change for others.
pub record IsStepping {M : Type 0} (count : M → ℕ → M) (tells : M → ℕ → ℕ) (Allowed : ℕ → Type 0)
    (step : ℕ → ℕ) : Type 0 where
  pub here : (m : M) (c : ℕ) → Allowed (tells m c) → tells (count m c) c ≡ step (tells m c)
  pub elsewhere : (m : M) (j c : ℕ) → j ≢ c → tells (count m j) c ≡ tells m c

-- One more, below the largest number of `u32`, and one less, from 1 on.
abbrev pub IsCounting : {M : Type 0} → (M → ℕ → M) → (M → ℕ → ℕ) → Type 0
IsCounting add tells = IsStepping add tells (λ n. n + 1 < 2 ^ 32) (λ n. n + 1)

abbrev pub IsDropping : {M : Type 0} → (M → ℕ → M) → (M → ℕ → ℕ) → Type 0
IsDropping drop tells = IsStepping drop tells (λ n. (0 < n) × (n < 2 ^ 32)) (λ n. n - 1)

-- One for an entry that is in the list, and nothing otherwise.
abbrev pub once : List ℕ → ℕ → ℕ
once cs c = if contains cs c then 1 else 0

contains_hit : (d c : ℕ) (cs : List ℕ) → (d == c) ≡ true → contains (d ∷ cs) c ≡ true
contains_hit d c cs h = ap (λ b. b || contains cs c) h

pub contains_miss : (d c : ℕ) (cs : List ℕ) → (d == c) ≡ false → contains (d ∷ cs) c ≡ contains cs c
contains_miss d c cs h = ap (λ b. b || contains cs c) h

pub contains_apart :
    (d c : ℕ) (cs : List ℕ) → contains (d ∷ cs) c ≡ false → (d ≢ c) × (contains cs c ≡ false)
contains_apart d c cs h = elim (Bool-cases (d == c)) [
  | inl hit ↦ absurd (cc (contains_hit d c cs hit))
  | inr miss ↦ (λ e. cc ((==_iff d c).1 e), sym (contains_miss d c cs miss) ∙ h)
]

unique_again : (d : ℕ) (cs : List ℕ) → contains (unique cs) d ≡ true → unique (d ∷ cs) ≡ unique cs
unfolding unique
unique_again d cs h = rw (unique, h)

unique_new :
    (d : ℕ) (cs : List ℕ) → contains (unique cs) d ≡ false → unique (d ∷ cs) ≡ d ∷ unique cs
unfolding unique
unique_new d cs h = rw (unique, h)

pub contains-unique : (cs : List ℕ) (c : ℕ) → contains (unique cs) c ≡ contains cs c
unfolding unique
contains-unique [] c = refl
contains-unique (d ∷ cs) c = elim (Bool-cases (contains (unique cs) d)) [
  | inl again ↦ ap (λ z. contains z c) (unique_again d cs again) ∙ elim (Bool-cases (d == c)) [
    | inl hit ↦
        subst (λ z. contains (unique cs) z ≡ true) ((==_iff d c).0 hit) again
        ∙ sym (contains_hit d c cs hit)
    | inr miss ↦ contains-unique cs c ∙ sym (contains_miss d c cs miss)
  ]
  | inr new ↦
      ap (λ z. contains z c) (unique_new d cs new) ∙ ap (λ b. (d == c) || b) (contains-unique cs c)
]

module _ {M : Type 0} {Allowed : ℕ → Type 0} {step : ℕ → ℕ} (count : M → ℕ → M) (tells : M → ℕ → ℕ)
    (stepping : IsStepping count tells Allowed step) where
  for_each_apart :
      (cs : List ℕ) (m : M) (c : ℕ)
      → contains cs c ≡ false
      → tells (for_each count cs m) c ≡ tells m c
  for_each_apart [] m c h = refl
  for_each_apart (d ∷ cs) m c h =
      let (apart, rest) = contains_apart d c cs h in
      for_each_apart cs (count m d) c rest ∙ stepping.elsewhere m d c apart

  abbrev stepped : Bool → ℕ → ℕ
  stepped b n = if b then step n else n

  -- Counting the entries of a list once each is one step for those that are in the list.
  pub for_each-unique :
      (cs : List ℕ) (m : M) (c : ℕ)
      → (contains cs c ≡ true → Allowed (tells m c))
      → tells (for_each count (unique cs) m) c
        ≡ (if contains cs c then step (tells m c) else tells m c)
  unfolding unique
  for_each-unique [] m c h = refl
  for_each-unique (d ∷ cs) m c h = elim (Bool-cases (contains (unique cs) d)) [
    | inl again ↦
        let same : contains cs c ≡ contains (d ∷ cs) c =
          sym (contains-unique cs c)
          ∙ ap (λ z. contains z c) (sym (unique_again d cs again))
          ∙ contains-unique (d ∷ cs) c in
        ap (λ z. tells (for_each count z m) c) (unique_again d cs again)
        ∙ for_each-unique cs m c (λ e. h (sym same ∙ e))
        ∙ ap (λ (b : Bool). stepped b (tells m c)) same
    | inr new ↦
        ap (λ z. tells (for_each count z m) c) (unique_new d cs new) ∙ elim (Bool-cases (d == c)) [
          | inl hit ↦
              let equal : d ≡ c = (==_iff d c).0 hit in
              let there : contains (d ∷ cs) c ≡ true = contains_hit d c cs hit in
              for_each_apart (unique cs) (count m d) c
                (subst (λ z. contains (unique cs) z ≡ false) equal new)
              ∙ ap (λ z. tells (count m z) c) equal
              ∙ stepping.here m c (h there)
              ∙ ap (λ (b : Bool). stepped b (tells m c)) (sym there)
          | inr miss ↦
              let apart : d ≢ c = (contains_apart d c [] (contains_miss d c [] miss)).0 in
              let other : tells (count m d) c ≡ tells m c = stepping.elsewhere m d c apart in
              let same : contains (d ∷ cs) c ≡ contains cs c = contains_miss d c cs miss in
              for_each-unique cs (count m d) c (λ e. subst Allowed (sym other) (h (same ∙ e)))
              ∙ ap (λ (n : ℕ). stepped (contains cs c) n) other
              ∙ ap (λ (b : Bool). stepped b (tells m c)) (sym same)
        ]
  ]

-- One more for each entry that is in the list.
pub for_each-add :
    {M : Type 0} (add : M → ℕ → M) (tells : M → ℕ → ℕ) (counting : IsCounting add tells)
    (cs : List ℕ) (m : M) (c : ℕ)
    → tells m c + 1 < 2 ^ 32
    → tells (for_each add (unique cs) m) c ≡ tells m c + once cs c
for_each-add add tells counting cs m c h =
    for_each-unique add tells counting cs m c (λ e. h) ∙ elim (Bool-cases (contains cs c)) [
      | inl there ↦ ground (arith, there)
      | inr absent ↦ ground (arith, absent)
    ]

-- One less for each entry that is in the list and has been counted.
pub for_each-drop :
    {M : Type 0} (drop : M → ℕ → M) (tells : M → ℕ → ℕ) (dropping : IsDropping drop tells)
    (cs : List ℕ) (m : M) (c n : ℕ)
    → tells m c ≡ n + once cs c
    → n + 1 < 2 ^ 32
    → tells (for_each drop (unique cs) m) c ≡ n
for_each-drop drop tells dropping cs m c n counted small =
    for_each-unique drop tells dropping cs m c (λ e. ground (arith, e, counted))
    ∙ elim (Bool-cases (contains cs c)) [
      | inl there ↦ ground (arith, there, counted)
      | inr absent ↦ ground (arith, absent, counted)
    ]
