-- ===== src/TreeKem/Index/Counters.antt =====
-- mls-rs/src/tree_kem/tree_index.rs: what the counters of the types tell after entries have been counted.
use mls_rs_wasm_maybe_sync.Common.{
  ℕ, ◌+◌, ◌^◌, ◌<◌, ◌≡◌, ◌≢◌, refl, ap, ◌∙◌, List, [], ◌∷◌, ◌==◌, ==_iff, Bool-cases, Option, none,
  some, arith, inl, inr,
}
use mls_rs_wasm_maybe_sync.TreeKem.Index.{
  LargeMap, lookup, or_insert, TypeCounter, no_counts, one_more, add_supported, add_used,
  add_proposal, for_each, supported_of, supported_in, number_in,
}
use mls_rs_wasm_maybe_sync.TreeKem.Index.Entries.{
  changed, or_value, adjust_here, adjust_elsewhere, or_insert_here, or_insert_elsewhere,
}
use mls_rs_wasm_maybe_sync.TreeKem.Index.Stepping.{
  contains_apart, contains_miss, used_in, used_of, proposals_of, IsCounting,
}

no_wrap : (n : ℕ) → n + 1 < 2 ^ 32 → one_more n ≡ n + 1
no_wrap n h = omega arith

pub add_supported-IsCounting : IsCounting add_supported supported_of
add_supported-IsCounting = record {
  here = λ m c small.
      ap supported_in (adjust_here _ _ c ∙ ap (changed _) (or_insert_here no_counts m c))
      ∙ counted (lookup ◌==◌ m c)
      ∙ no_wrap (supported_of m c) small;
  elsewhere = λ m j c h.
      ap supported_in (adjust_elsewhere _ _ j c h ∙ or_insert_elsewhere no_counts m j c h);
}
  where
    counted :
        (o : Option TypeCounter)
        → supported_in
            (changed (λ k. record k { supported = one_more k.supported }) (or_value no_counts o))
          ≡ one_more (supported_in o)
    counted none = refl
    counted (some k) = refl

pub add_proposal-IsCounting : IsCounting add_proposal proposals_of
add_proposal-IsCounting = record {
  here = λ m c small.
      ap number_in (adjust_here _ _ c ∙ ap (changed _) (or_insert_here 0 m c))
      ∙ counted (lookup ◌==◌ m c)
      ∙ no_wrap (proposals_of m c) small;
  elsewhere = λ m j c h. ap number_in (adjust_elsewhere _ _ j c h ∙ or_insert_elsewhere 0 m j c h);
}
  where
    counted : (o : Option ℕ) → number_in (changed one_more (or_value 0 o)) ≡ one_more (number_in o)
    counted none = refl
    counted (some n) = refl

-- Counting what is supported leaves what is used.
used_of-add_supported :
    (m : LargeMap ℕ TypeCounter) (j c : ℕ) → used_of (add_supported m j) c ≡ used_of m c
used_of-add_supported m j c = elim (Bool-cases (j == c)) [
  | inl hit ↦
      ap (λ z. used_of (add_supported m z) c) ((==_iff j c).0 hit)
      ∙ ap used_in (adjust_here _ _ c ∙ ap (changed _) (or_insert_here no_counts m c))
      ∙ kept (lookup ◌==◌ m c)
  | inr miss ↦
      let apart : j ≢ c = (contains_apart j c [] (contains_miss j c [] miss)).0 in
      ap used_in (adjust_elsewhere _ _ j c apart ∙ or_insert_elsewhere no_counts m j c apart)
]
  where
    kept :
        (o : Option TypeCounter)
        → used_in
            (changed (λ k. record k { supported = one_more k.supported }) (or_value no_counts o))
          ≡ used_in o
    kept none = refl
    kept (some k) = refl

pub used_of-for_each :
    (cs : List ℕ) (m : LargeMap ℕ TypeCounter) (c : ℕ)
    → used_of (for_each add_supported cs m) c ≡ used_of m c
used_of-for_each [] m c = refl
used_of-for_each (d ∷ cs) m c =
    used_of-for_each cs (add_supported m d) c ∙ used_of-add_supported m d c

-- A default entry tells what a missing one does.
pub lookup_default :
    (m : LargeMap ℕ TypeCounter) (j c : ℕ)
    → (supported_of (or_insert ◌==◌ no_counts m j) c ≡ supported_of m c)
      × (used_of (or_insert ◌==◌ no_counts m j) c ≡ used_of m c)
lookup_default m j c = elim (Bool-cases (j == c)) [
  | inl hit ↦
      let there =
        ap (λ z. lookup ◌==◌ (or_insert ◌==◌ no_counts m z) c) ((==_iff j c).0 hit)
        ∙ or_insert_here no_counts m c in
      (
        ap supported_in there ∙ (default (lookup ◌==◌ m c)).0,
        ap used_in there ∙ (default (lookup ◌==◌ m c)).1,
      )
  | inr miss ↦
      let apart : j ≢ c = (contains_apart j c [] (contains_miss j c [] miss)).0 in
      let there = or_insert_elsewhere no_counts m j c apart in
      (ap supported_in there, ap used_in there)
]
  where
    default :
        (o : Option TypeCounter)
        → (supported_in (or_value no_counts o) ≡ supported_in o)
          × (used_in (or_value no_counts o) ≡ used_in o)
    default none = (refl, refl)
    default (some k) = (refl, refl)

-- `used += 1` on the entry that `or_default` has left.
pub add_used_here :
    (m : LargeMap ℕ TypeCounter) (c : ℕ)
    → used_of (add_used (or_insert ◌==◌ no_counts m c) c) c ≡ one_more (used_of m c)
add_used_here m c =
    ap used_in (adjust_here _ _ c ∙ ap (changed _) (or_insert_here no_counts m c))
    ∙ counted (lookup ◌==◌ m c)
  where
    counted :
        (o : Option TypeCounter)
        → used_in (changed (λ k. record k { used = one_more k.used }) (or_value no_counts o))
          ≡ one_more (used_in o)
    counted none = refl
    counted (some k) = refl

pub add_used_elsewhere :
    (m : LargeMap ℕ TypeCounter) (j c : ℕ)
    → j ≢ c
    → used_of (add_used (or_insert ◌==◌ no_counts m j) j) c ≡ used_of m c
add_used_elsewhere m j c h =
    ap used_in (adjust_elsewhere _ _ j c h ∙ or_insert_elsewhere no_counts m j c h)

pub supported_of-add_used :
    (m : LargeMap ℕ TypeCounter) (j c : ℕ) → supported_of (add_used m j) c ≡ supported_of m c
supported_of-add_used m j c = elim (Bool-cases (j == c)) [
  | inl hit ↦
      ap (λ z. supported_of (add_used m z) c) ((==_iff j c).0 hit)
      ∙ ap supported_in (adjust_here _ m c)
      ∙ kept (lookup ◌==◌ m c)
  | inr miss ↦
      let apart : j ≢ c = (contains_apart j c [] (contains_miss j c [] miss)).0 in
      ap supported_in (adjust_elsewhere _ m j c apart)
]
  where
    kept :
        (o : Option TypeCounter)
        → supported_in (changed (λ k. record k { used = one_more k.used }) o) ≡ supported_in o
    kept none = refl
    kept (some k) = refl
