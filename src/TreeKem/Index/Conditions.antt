-- ===== src/TreeKem/Index/Conditions.antt =====
-- mls-rs/src/tree_kem/tree_index.rs: the conditions of `insert` on the index, over the members.
use mls_rs_wasm_maybe_sync.Common.{
  ℕ, ◌+◌, ◌%◌, ◌^◌, ◌<◌, ◌≡◌, ◌↔◌, refl, sym, ap, subst, ◌∙◌, List, [], ◌∷◌, length, any, All,
  bytes_eq, ltb, ltb→lt, lt→ltb, ◌==◌, ==_iff, Bool, Bool-cases, true, false, not, ◌&&◌, ◌||◌, none,
  some, Option-cases, arith, inl, inr,
}
use mls_rs_wasm_maybe_sync.TreeKem.Leaf.{LeafNode}
use mls_rs_wasm_maybe_sync.TreeKem.Index.{
  TreeIndex, TypeCounter, LargeMap, lookup, contains, leaf_credential_type, in_use_unsupported,
  with_counter, supported_of,
}
use mls_rs_wasm_maybe_sync.TreeKem.Index.Entries.{AreKeyed}
use mls_rs_wasm_maybe_sync.TreeKem.Index.Counters.{lookup_default}
use mls_rs_wasm_maybe_sync.TreeKem.Index.Stepping.{used_of, used_in}
use mls_rs_wasm_maybe_sync.TreeKem.Index.Members.{IsIndexOf}
use mls_rs_wasm_maybe_sync.TreeKem.Index.Insertion.{IsFree}
use mls_rs_wasm_maybe_sync.TreeKem.Index.Owners.{
  Member, signature_key_of, hpke_key_of, identity_of, supports, uses, tally, tally_le, owner-none,
}

tally_full :
    (p : Member → Bool) (ms : List Member) → (tally p ms ≡ length ms) ↔ All (λ m. p m ≡ true) ms
tally_full p [] = (λ h. tt, λ h. refl)
tally_full p (m ∷ ms) = elim (Bool-cases (p m)) [
  | inl passes ↦ (
    λ h. (passes, (tally_full p ms).0 (ground (arith, h, passes))),
    λ h. ground (arith, (tally_full p ms).1 h.1, passes),
  )
  | inr fails ↦ (λ h. absurd (ground (arith, h, fails, tally_le p ms)), λ h. absurd (cc (h.0)))
]

any-lookup :
    (p : ℕ × TypeCounter → Bool) (m : LargeMap ℕ TypeCounter) (c : ℕ) (k : TypeCounter)
    → lookup ◌==◌ m c ≡ some k
    → any p m ≡ false
    → p (c, k) ≡ false
unfolding lookup
any-lookup p [] c k there h = absurd (cc)
any-lookup p ((j, v) ∷ m) c k there h = elim (Bool-cases (j == c)) [
  | inl hit ↦
      let value : some v ≡ some k = sym (here j c v m hit) ∙ there in
      let key : j ≡ c = (==_iff j c).0 hit in
      let head : p (j, v) ≡ false = (either_false (p (j, v)) (any p m) h).0 in
      ap (λ z. p (z, k)) (sym key) ∙ ap (λ z. p (j, z)) (cc (value)) ∙ head
  | inr miss ↦
      any-lookup p m c k (sym (there_is j c v m miss) ∙ there)
        (either_false (p (j, v)) (any p m) h).1
]
  where
    here :
        (j c : ℕ) (v : TypeCounter) (m : LargeMap ℕ TypeCounter)
        → (j == c) ≡ true
        → lookup ◌==◌ ((j, v) ∷ m) c ≡ some v
    here j c v m hit = rw (lookup, hit)

    there_is :
        (j c : ℕ) (v : TypeCounter) (m : LargeMap ℕ TypeCounter)
        → (j == c) ≡ false
        → lookup ◌==◌ ((j, v) ∷ m) c ≡ lookup ◌==◌ m c
    there_is j c v m miss = rw (lookup, miss)

    either_false : (a b : Bool) → (a || b) ≡ false → (a ≡ false) × (b ≡ false)
    either_false true b h = absurd (cc)
    either_false false b h = (refl, h)

any_entry :
    (p : ℕ × TypeCounter → Bool) (m : LargeMap ℕ TypeCounter)
    → AreKeyed m
    → any p m ≡ true
    → (c : ℕ) × (k : TypeCounter) × (lookup ◌==◌ m c ≡ some k) × (p (c, k) ≡ true)
unfolding lookup
any_entry p [] keyed h = absurd (cc)
any_entry p ((j, v) ∷ m) (new, keyed) h = elim (Bool-cases (p (j, v))) [
  | inl holds ↦ (j, v, here, holds)
  | inr fails ↦
      let (c, k, there, holds) = any_entry p m keyed (ap (λ b. b || any p m) (sym fails) ∙ h) in
      let other : (j == c) ≡ false = elim (Bool-cases (j == c)) [
        | inl hit ↦ absurd (cc (subst (λ z. lookup ◌==◌ m z ≡ none) ((==_iff j c).0 hit) new))
        | inr miss ↦ miss
      ] in
      (c, k, behind c other ∙ there, holds)
]
  where
    here : lookup ◌==◌ ((j, v) ∷ m) j ≡ some v
    here = rw (lookup, (==_iff j j).1 refl)

    behind : (c : ℕ) → (j == c) ≡ false → lookup ◌==◌ ((j, v) ∷ m) c ≡ lookup ◌==◌ m c
    behind c miss = rw (lookup, miss)

-- The types in use are the types of the members.
types_of :
    (cs : List ℕ) (ms : List Member)
    → ((c : ℕ) → 0 < tally (uses c) ms → contains cs c ≡ true)
      ↔ All (λ m. contains cs (leaf_credential_type m.leaf) ≡ true) ms
types_of cs [] = (λ h. tt, λ h c used. absurd (omega arith))
types_of cs (m ∷ ms) = (
  λ h. (h (leaf_credential_type m.leaf) (own m), (types_of cs ms).0 (λ c used. h c (omega arith))),
  λ h c used. elim (Bool-cases (uses c m)) [
    | inl hit ↦
        subst (λ z. contains cs z ≡ true) ((==_iff (leaf_credential_type m.leaf) c).0 hit) h.0
    | inr miss ↦ (types_of cs ms).1 h.1 c (ground (arith, miss, used))
  ],
)
  where
    own : (m : Member) → 0 < tally (uses (leaf_credential_type m.leaf)) (m ∷ ms)
    own m =
        ground (arith, (==_iff (leaf_credential_type m.leaf) (leaf_credential_type m.leaf)).1 refl)

and_not-false : (a b : Bool) → a ≡ true → (a && not b) ≡ false → b ≡ true
and_not-false true true p q = refl
and_not-false true false p q = absurd (cc)
and_not-false false b p q = absurd (cc)

and_not-true : (a b : Bool) → (a && not b) ≡ true → (a ≡ true) × (b ≡ false)
and_not-true true true q = absurd (cc)
and_not-true true false q = (refl, refl)
and_not-true false b q = absurd (cc)

-- No type in use is unsupported when the list supports each that has a count.
in_use-types :
    (t : TreeIndex) (l : LeafNode)
    → AreKeyed t.credential_type_counters
    → (in_use_unsupported t l ≡ false) ↔ (
        (c : ℕ)
        → 0 < used_of t.credential_type_counters c
        → contains l.capabilities.credentials c ≡ true)
unfolding in_use_unsupported
in_use-types t l keyed = (
  λ h c used. elim (Option-cases (lookup ◌==◌ t.credential_type_counters c)) [
    | inl absent ↦ absurd (omega (arith, subst (λ o. 0 < used_in o) absent used))
    | inr (k, there) ↦
        and_not-false (ltb 0 k.used) (contains l.capabilities.credentials c)
          (lt→ltb 0 k.used (subst (λ o. 0 < used_in o) there used))
          (any-lookup unsupported t.credential_type_counters c k there h)
  ],
  λ h. elim (Bool-cases (in_use_unsupported t l)) [
    | inr free ↦ free
    | inl bad ↦
        let (c, k, there, holds) = any_entry unsupported t.credential_type_counters keyed bad in
        let (used, missing) = and_not-true (ltb 0 k.used) _ holds in
        let counted : 0 < used_of t.credential_type_counters c =
          subst (λ o. 0 < used_in o) (sym there) (ltb→lt 0 k.used used) in
        absurd (cc (h c counted))
  ],
)
  where
    unsupported : ℕ × TypeCounter → Bool
    unsupported e = ltb 0 e.1.used && not (contains l.capabilities.credentials e.0)

-- The conditions on a new member, over all the others.
pub record Fits (new : Member) (ms : List Member) : Type 0 where
  pub signature_key : All (λ m. bytes_eq (signature_key_of m) (signature_key_of new) ≡ false) ms
  pub hpke_key : All (λ m. bytes_eq (hpke_key_of m) (hpke_key_of new) ≡ false) ms
  pub identity : All (λ m. bytes_eq m.identity new.identity ≡ false) ms
  pub in_use :
      All (λ m. contains new.leaf.capabilities.credentials (leaf_credential_type m.leaf) ≡ true) ms
  pub own_type : All (λ m. supports (leaf_credential_type new.leaf) m ≡ true) ms

pub IsFree-Fits :
    (new : Member) (t : TreeIndex) (ms : List Member)
    → IsIndexOf t ms
    → length ms + 1 < 2 ^ 32
    → IsFree new t ↔ Fits new ms
IsFree-Fits new t ms h small = (
  λ f. record {
    signature_key = (owner-none _ ms _).0 (sym (h.signature_keys _) ∙ f.signature_key);
    hpke_key = (owner-none _ ms _).0 (sym (h.hpke_keys _) ∙ f.hpke_key);
    identity = (owner-none identity_of ms _).0 (sym (h.identities _) ∙ f.identity);
    in_use = (types_of _ ms).0 (λ c used.
        (in_use-types t new.leaf h.keyed).0 f.in_use c (subst (λ n. 0 < n) (sym (h.used c)) used));
    own_type = (tally_full (supports type) ms).0 (sym counted ∙ (==_iff _ _).0 f.own_type ∙ total);
  },
  λ f. record {
    signature_key = h.signature_keys _ ∙ (owner-none _ ms _).1 f.signature_key;
    hpke_key = h.hpke_keys _ ∙ (owner-none _ ms _).1 f.hpke_key;
    identity = h.identities _ ∙ (owner-none identity_of ms _).1 f.identity;
    in_use =
        (in_use-types t new.leaf h.keyed).1
          (λ c used. (types_of _ ms).1 f.in_use c (subst (λ n. 0 < n) (h.used c) used));
    own_type = (==_iff _ _).1 (counted ∙ (tally_full (supports type) ms).1 f.own_type ∙ sym total);
  },
)
  where
    type : ℕ
    type = leaf_credential_type new.leaf

    counted :
        supported_of (with_counter new.leaf t).credential_type_counters type
        ≡ tally (supports type) ms
    counted = (lookup_default t.credential_type_counters type type).0 ∙ h.supported type

    total : length t.credential_signature_key % 2 ^ 32 ≡ length ms
    total = omega (arith, h.size, small)
