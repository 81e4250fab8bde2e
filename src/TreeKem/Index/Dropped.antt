-- ===== src/TreeKem/Index/Dropped.antt =====
-- mls-rs/src/tree_kem/tree_index.rs: what the counters of the types tell after `remove` has counted down.
use mls_rs_wasm_maybe_sync.Common.{
  ℕ, ◌-◌, ◌^◌, ◌<◌, ◌≡◌, refl, ap, ◌∙◌, List, [], ◌∷◌, ◌==◌, ==_iff, Bool-cases, Option, none, some,
  arith, inl, inr,
}
use mls_rs_wasm_maybe_sync.TreeKem.Index.{
  TypeCounter, LargeMap, lookup, for_each, one_less, drop_supported, drop_used, drop_proposal,
  supported_of, supported_in, number_in,
}
use mls_rs_wasm_maybe_sync.TreeKem.Index.Entries.{
  changed, adjust_here, adjust_elsewhere, AreKeyed, AreKeyed-adjust,
}
use mls_rs_wasm_maybe_sync.TreeKem.Index.Stepping.{used_in, used_of, proposals_of, IsDropping}

no_wrap : (n : ℕ) → (0 < n) × (n < 2 ^ 32) → one_less n ≡ n - 1
no_wrap n (some_one, small) = omega (arith, some_one, small)

pub drop_supported-IsDropping : IsDropping drop_supported supported_of
drop_supported-IsDropping = record {
  here = λ m c counted. ap supported_in (adjust_here _ m c) ∙ less (lookup ◌==◌ m c) counted;
  elsewhere = λ m j c h. ap supported_in (adjust_elsewhere _ m j c h);
}
  where
    less :
        (o : Option TypeCounter)
        → (0 < supported_in o) × (supported_in o < 2 ^ 32)
        → supported_in (changed (λ k. record k { supported = one_less k.supported }) o)
          ≡ supported_in o - 1
    less none counted = absurd (omega (arith, counted.0))
    less (some k) counted = no_wrap k.supported counted

pub drop_used-IsDropping : IsDropping drop_used used_of
drop_used-IsDropping = record {
  here = λ m c counted. ap used_in (adjust_here _ m c) ∙ less (lookup ◌==◌ m c) counted;
  elsewhere = λ m j c h. ap used_in (adjust_elsewhere _ m j c h);
}
  where
    less :
        (o : Option TypeCounter)
        → (0 < used_in o) × (used_in o < 2 ^ 32)
        → used_in (changed (λ k. record k { used = one_less k.used }) o) ≡ used_in o - 1
    less none counted = absurd (omega (arith, counted.0))
    less (some k) counted = no_wrap k.used counted

pub drop_proposal-IsDropping : IsDropping drop_proposal proposals_of
drop_proposal-IsDropping = record {
  here = λ m c counted. ap number_in (adjust_here _ m c) ∙ less (lookup ◌==◌ m c) counted;
  elsewhere = λ m j c h. ap number_in (adjust_elsewhere _ m j c h);
}
  where
    less :
        (o : Option ℕ)
        → (0 < number_in o) × (number_in o < 2 ^ 32)
        → number_in (changed one_less o) ≡ number_in o - 1
    less none counted = absurd (omega (arith, counted.0))
    less (some n) counted = no_wrap n counted

-- Dropping what is used leaves what is supported, and the other way round.
pub supported_of-drop_used :
    (m : LargeMap ℕ TypeCounter) (j c : ℕ) → supported_of (drop_used m j) c ≡ supported_of m c
supported_of-drop_used m j c = elim (Bool-cases (j == c)) [
  | inl hit ↦
      ap (λ z. supported_of (drop_used m z) c) ((==_iff j c).0 hit)
      ∙ ap supported_in (adjust_here _ m c)
      ∙ kept (lookup ◌==◌ m c)
  | inr miss ↦ ap supported_in (adjust_elsewhere _ m j c (λ e. cc ((==_iff j c).1 e)))
]
  where
    kept :
        (o : Option TypeCounter)
        → supported_in (changed (λ k. record k { used = one_less k.used }) o) ≡ supported_in o
    kept none = refl
    kept (some k) = refl

used_of-drop_supported :
    (m : LargeMap ℕ TypeCounter) (j c : ℕ) → used_of (drop_supported m j) c ≡ used_of m c
used_of-drop_supported m j c = elim (Bool-cases (j == c)) [
  | inl hit ↦
      ap (λ z. used_of (drop_supported m z) c) ((==_iff j c).0 hit)
      ∙ ap used_in (adjust_here _ m c)
      ∙ kept (lookup ◌==◌ m c)
  | inr miss ↦ ap used_in (adjust_elsewhere _ m j c (λ e. cc ((==_iff j c).1 e)))
]
  where
    kept :
        (o : Option TypeCounter)
        → used_in (changed (λ k. record k { supported = one_less k.supported }) o) ≡ used_in o
    kept none = refl
    kept (some k) = refl

pub used_of-for_each_drop :
    (cs : List ℕ) (m : LargeMap ℕ TypeCounter) (c : ℕ)
    → used_of (for_each drop_supported cs m) c ≡ used_of m c
used_of-for_each_drop [] m c = refl
used_of-for_each_drop (d ∷ cs) m c =
    used_of-for_each_drop cs (drop_supported m d) c ∙ used_of-drop_supported m d c

pub AreKeyed-for_each_drop :
    (cs : List ℕ) (m : LargeMap ℕ TypeCounter)
    → AreKeyed m
    → AreKeyed (for_each drop_supported cs m)
AreKeyed-for_each_drop [] m h = h
AreKeyed-for_each_drop (c ∷ cs) m h =
    AreKeyed-for_each_drop cs (drop_supported m c) (AreKeyed-adjust _ m c h)
