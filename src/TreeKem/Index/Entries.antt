-- ===== src/TreeKem/Index/Entries.antt =====
-- mls-rs/src/tree_kem/tree_index.rs: what a map holds under a key after a change of one entry.
use mls_rs_wasm_maybe_sync.Common.{
  ℕ, ◌≡◌, ◌≢◌, refl, sym, subst, ◌∙◌, List, [], ◌∷◌, ◌==◌, ==_iff, Bool-cases, true, false, Option,
  none, some, Option-cases, inl, inr,
}
use mls_rs_wasm_maybe_sync.TreeKem.Index.{
  LargeMap, lookup, adjust, or_insert, TypeCounter, no_counts, add_supported, add_used, for_each,
}

abbrev pub changed {ℓ} : {V : Type ℓ} → (V → V) → Option V → Option V
changed f none = none
changed f (some v) = some (f v)

abbrev pub or_value {ℓ} : {V : Type ℓ} → V → Option V → Option V
or_value v none = some v
or_value v (some w) = some w

-- A key equals itself, and no other.
==_self : (c : ℕ) → (c == c) ≡ true
==_self c = (==_iff c c).1 refl

==_apart : (j c : ℕ) → j ≢ c → (j == c) ≡ false
==_apart j c h = elim (Bool-cases (j == c)) [
  | inl same ↦ absurd (h ((==_iff j c).0 same))
  | inr apart ↦ apart
]

module _ {V : Type 0} where
  pub adjust_here :
      (f : V → V) (m : LargeMap ℕ V) (c : ℕ)
      → lookup ◌==◌ (adjust ◌==◌ f m c) c ≡ changed f (lookup ◌==◌ m c)
  unfolding lookup adjust
  adjust_here f [] c = refl
  adjust_here f ((i, v) ∷ m) c = elim (Bool-cases (i == c)) [
    | inl here ↦ rw (adjust, here, lookup, here)
    | inr there ↦ rw (adjust, there, lookup, there) (adjust_here f m c)
  ]

  pub adjust_elsewhere :
      (f : V → V) (m : LargeMap ℕ V) (j c : ℕ)
      → j ≢ c
      → lookup ◌==◌ (adjust ◌==◌ f m j) c ≡ lookup ◌==◌ m c
  unfolding lookup adjust
  adjust_elsewhere f [] j c h = refl
  adjust_elsewhere f ((i, v) ∷ m) j c h = elim (Bool-cases (i == j)) [
    | inl here ↦
        let other : (i == c) ≡ false = ==_apart i c (λ e. h (sym ((==_iff i j).0 here) ∙ e)) in
        rw (here, other, lookup, adjust)
    | inr there ↦ rw (there, adjust_elsewhere f m j c h, lookup, adjust)
  ]

  pub or_insert_here :
      (v : V) (m : LargeMap ℕ V) (c : ℕ)
      → lookup ◌==◌ (or_insert ◌==◌ v m c) c ≡ or_value v (lookup ◌==◌ m c)
  unfolding lookup or_insert
  or_insert_here v m c = elim (Option-cases (lookup ◌==◌ m c)) [
    | inl absent ↦ rw (absent, or_insert, ==_self c)
    | inr (w, present) ↦ rw (present, or_insert, present)
  ]

  pub or_insert_elsewhere :
      (v : V) (m : LargeMap ℕ V) (j c : ℕ)
      → j ≢ c
      → lookup ◌==◌ (or_insert ◌==◌ v m j) c ≡ lookup ◌==◌ m c
  unfolding lookup or_insert
  or_insert_elsewhere v m j c h = elim (Option-cases (lookup ◌==◌ m j)) [
    | inl absent ↦ rw (absent, or_insert, ==_apart j c h)
    | inr (w, present) ↦ rw (present, or_insert)
  ]

-- No two entries have one key.
abbrev pub AreKeyed : LargeMap ℕ TypeCounter → Type 0
AreKeyed [] = Unit
AreKeyed ((j, k) ∷ m) = (lookup ◌==◌ m j ≡ none) × AreKeyed m

pub AreKeyed-adjust :
    (f : TypeCounter → TypeCounter) (m : LargeMap ℕ TypeCounter) (c : ℕ)
    → AreKeyed m
    → AreKeyed (adjust ◌==◌ f m c)
unfolding adjust
AreKeyed-adjust f [] c h = tt
AreKeyed-adjust f ((j, k) ∷ m) c (new, h) = elim (Bool-cases (j == c)) [
  | inl hit ↦ subst AreKeyed (sym (first hit)) (new, h)
  | inr miss ↦
      subst AreKeyed (sym (later miss))
        (adjust_elsewhere f m c j (λ e. cc ((==_iff j c).1 (sym e))) ∙ new, AreKeyed-adjust f m c h)
]
  where
    first : (j == c) ≡ true → adjust ◌==◌ f ((j, k) ∷ m) c ≡ (j, f k) ∷ m
    first hit = rw (adjust, hit)

    later : (j == c) ≡ false → adjust ◌==◌ f ((j, k) ∷ m) c ≡ (j, k) ∷ adjust ◌==◌ f m c
    later miss = rw (adjust, miss)

pub AreKeyed-or_insert :
    (m : LargeMap ℕ TypeCounter) (c : ℕ) → AreKeyed m → AreKeyed (or_insert ◌==◌ no_counts m c)
unfolding or_insert
AreKeyed-or_insert m c h = elim (Option-cases (lookup ◌==◌ m c)) [
  | inl absent ↦ subst AreKeyed (sym (fresh absent)) (absent, h)
  | inr (k, present) ↦ subst AreKeyed (sym (old k present)) h
]
  where
    fresh : lookup ◌==◌ m c ≡ none → or_insert ◌==◌ no_counts m c ≡ (c, no_counts) ∷ m
    fresh absent = rw (or_insert, absent)

    old : (k : TypeCounter) → lookup ◌==◌ m c ≡ some k → or_insert ◌==◌ no_counts m c ≡ m
    old k present = rw (or_insert, present)

pub AreKeyed-add_used : (m : LargeMap ℕ TypeCounter) (c : ℕ) → AreKeyed m → AreKeyed (add_used m c)
AreKeyed-add_used m c h = AreKeyed-adjust _ m c h

pub AreKeyed-for_each :
    (cs : List ℕ) (m : LargeMap ℕ TypeCounter) → AreKeyed m → AreKeyed (for_each add_supported cs m)
AreKeyed-for_each [] m h = h
AreKeyed-for_each (c ∷ cs) m h =
    AreKeyed-for_each cs (add_supported m c)
      (AreKeyed-adjust _ (or_insert ◌==◌ no_counts m c) c (AreKeyed-or_insert m c h))
