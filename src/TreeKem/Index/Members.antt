-- ===== src/TreeKem/Index/Members.antt =====
-- mls-rs/src/tree_kem/tree_index.rs: the index tells what a walk over the leaves of the tree would.
use mls_rs_wasm_maybe_sync.Common.{
  refl, [], All, false, ℕ, suc, ◌+◌, ◌^◌, ◌<◌, ◌≡◌, sym, ap, ◌∙◌, List, [], ◌∷◌, length, bytes_eq,
  ◌==◌, ==_iff, if◌then◌else◌, Bool, Bool-cases, none, some, arith, inl, inr,
}
use mls_rs_wasm_maybe_sync.TreeKem.Leaf.{LeafNode}
use mls_rs_wasm_maybe_sync.TreeKem.Index.{
  TreeIndex, tree_index_new, TypeCounter, LargeMap, lookup, or_insert, no_counts, one_more, unique,
  add_supported, add_used, add_proposal, for_each, leaf_credential_type, with_counter, supported_of,
  entered,
}
use mls_rs_wasm_maybe_sync.TreeKem.Index.Entries.{
  AreKeyed, AreKeyed-or_insert, AreKeyed-add_used, AreKeyed-for_each,
}
use mls_rs_wasm_maybe_sync.TreeKem.Index.Counters.{
  add_supported-IsCounting, add_proposal-IsCounting, used_of-for_each, lookup_default,
  add_used_here, add_used_elsewhere, supported_of-add_used,
}
use mls_rs_wasm_maybe_sync.TreeKem.Index.Stepping.{used_of, proposals_of, once, for_each-add}
use mls_rs_wasm_maybe_sync.TreeKem.Index.Keys.{AreOnce}
use mls_rs_wasm_maybe_sync.TreeKem.Index.Owners.{
  Member, signature_key_of, hpke_key_of, identity_of, supports, uses, supports_proposal, owner,
  tally, tally_le, owner-none, AreDifferent, AreApart,
}

-- The index holds the keys and identities of the members, and counts their capabilities.
pub record IsIndexOf (t : TreeIndex) (ms : List Member) : Type 0 where
  pub signature_keys :
      (k : List ℕ) → lookup bytes_eq t.credential_signature_key k ≡ owner signature_key_of ms k
  pub hpke_keys : (k : List ℕ) → lookup bytes_eq t.hpke_key k ≡ owner hpke_key_of ms k
  pub identities : (k : List ℕ) → lookup bytes_eq t.identities k ≡ owner identity_of ms k
  pub size : length t.credential_signature_key ≡ length ms
  pub supported : (c : ℕ) → supported_of t.credential_type_counters c ≡ tally (supports c) ms
  pub used : (c : ℕ) → used_of t.credential_type_counters c ≡ tally (uses c) ms
  pub keyed : AreKeyed t.credential_type_counters
  pub proposals : (p : ℕ) → proposals_of t.proposal_type_counter p ≡ tally (supports_proposal p) ms
  pub apart : AreApart ms
  pub once : AreOnce t.credential_signature_key × AreOnce t.hpke_key × AreOnce t.identities

-- The empty index is that of no members.
pub tree_index_new-IsIndexOf : IsIndexOf tree_index_new []
unfolding lookup owner
tree_index_new-IsIndexOf = record {
  signature_keys = λ k. refl;
  hpke_keys = λ k. refl;
  identities = λ k. refl;
  size = refl;
  supported = λ c. refl;
  used = λ c. refl;
  keyed = tt;
  proposals = λ p. refl;
  apart = tt;
  once = (tt, tt, tt);
}

-- A default counter changes nothing that the index tells.
pub with_counter-IsIndexOf :
    (l : LeafNode) (t : TreeIndex) (ms : List Member)
    → IsIndexOf t ms
    → IsIndexOf (with_counter l t) ms
with_counter-IsIndexOf l t ms h = record {
  signature_keys = h.signature_keys;
  hpke_keys = h.hpke_keys;
  identities = h.identities;
  size = h.size;
  supported =
      λ c. (lookup_default t.credential_type_counters (leaf_credential_type l) c).0 ∙ h.supported c;
  used = λ c. (lookup_default t.credential_type_counters (leaf_credential_type l) c).1 ∙ h.used c;
  keyed = AreKeyed-or_insert t.credential_type_counters (leaf_credential_type l) h.keyed;
  proposals = h.proposals;
  apart = h.apart;
  once = h.once;
}

lookup_entered :
    (key : Member → List ℕ) (m : LargeMap (List ℕ) ℕ) (new : Member) (ms : List Member)
    → ((k : List ℕ) → lookup bytes_eq m k ≡ owner key ms k)
    → (k : List ℕ) → lookup bytes_eq ((key new, new.index) ∷ m) k ≡ owner key (new ∷ ms) k
unfolding lookup owner
lookup_entered key m new ms h k =
    ap (λ rest. if bytes_eq (key new) k then some new.index else rest) (h k)

-- No key and no identity of the new member is in the index.
pub record IsNew (new : Member) (t : TreeIndex) : Type 0 where
  pub signature_key : lookup bytes_eq t.credential_signature_key (signature_key_of new) ≡ none
  pub hpke_key : lookup bytes_eq t.hpke_key (hpke_key_of new) ≡ none
  pub identity : lookup bytes_eq t.identities new.identity ≡ none

All-AreDifferent :
    (new : Member) (t : TreeIndex) (ms : List Member)
    → IsIndexOf t ms
    → IsNew new t
    → All (AreDifferent new) ms
All-AreDifferent new t ms h fresh =
    together ms ((owner-none _ ms _).0 (sym (h.signature_keys _) ∙ fresh.signature_key))
      ((owner-none _ ms _).0 (sym (h.hpke_keys _) ∙ fresh.hpke_key))
      ((owner-none identity_of ms _).0 (sym (h.identities _) ∙ fresh.identity))
  where
    together :
        (ms : List Member)
        → All (λ x. bytes_eq (signature_key_of x) (signature_key_of new) ≡ false) ms
        → All (λ x. bytes_eq (hpke_key_of x) (hpke_key_of new) ≡ false) ms
        → All (λ x. bytes_eq x.identity new.identity ≡ false) ms
        → All (AreDifferent new) ms
    together [] a b c = tt
    together (x ∷ xs) (a, aa) (b, bb) (c, cs) = ((a, b, c), together xs aa bb cs)

-- The entry of a new member, behind the default counter for its type.
pub entered-IsIndexOf :
    (new : Member) (t : TreeIndex) (ms : List Member)
    → IsIndexOf t ms
    → IsNew new t
    → length ms + 1 < 2 ^ 32
    → IsIndexOf (entered new.index new.leaf new.identity (with_counter new.leaf t)) (new ∷ ms)
unfolding entered
entered-IsIndexOf new t ms h fresh small = record {
  signature_keys = lookup_entered signature_key_of _ new ms h.signature_keys;
  hpke_keys = lookup_entered hpke_key_of _ new ms h.hpke_keys;
  identities = lookup_entered identity_of _ new ms h.identities;
  size = ap suc h.size;
  supported = supported;
  used = used;
  keyed =
      AreKeyed-for_each (unique new.leaf.capabilities.credentials) _
        (AreKeyed-add_used _ type (AreKeyed-or_insert counters type h.keyed));
  proposals = proposals;
  apart = (All-AreDifferent new t ms h fresh, h.apart);
  once = ((fresh.signature_key, h.once.0), (fresh.hpke_key, h.once.1), (fresh.identity, h.once.2));
}
  where
    type : ℕ
    type = leaf_credential_type new.leaf

    counters : LargeMap ℕ TypeCounter
    counters = t.credential_type_counters

    before :
        (c : ℕ)
        → supported_of (add_used (or_insert ◌==◌ no_counts counters type) type) c
          ≡ tally (supports c) ms
    before c = supported_of-add_used _ type c ∙ (lookup_default counters type c).0 ∙ h.supported c

    supported :
        (c : ℕ)
        → supported_of
            (for_each add_supported
              (unique new.leaf.capabilities.credentials)
              (add_used (or_insert ◌==◌ no_counts counters type) type))
            c
          ≡ tally (supports c) (new ∷ ms)
    supported c =
        for_each-add add_supported supported_of add_supported-IsCounting
          new.leaf.capabilities.credentials _ c (omega (arith, before c, tally_le (supports c) ms))
        ∙ ap (λ (n : ℕ). n + once new.leaf.capabilities.credentials c) (before c)

    no_more : (c : ℕ) → tally (uses c) ms ≡ tally (uses c) ms + 0
    no_more c = omega arith

    used_before :
        (c : ℕ)
        → used_of (add_used (or_insert ◌==◌ no_counts counters type) type) c
          ≡ tally (uses c) (new ∷ ms)
    used_before c = elim (Bool-cases (type == c)) [
      | inl hit ↦
          let equal : type ≡ c = (==_iff type c).0 hit in
          let next : one_more (used_of counters c) ≡ tally (uses c) ms + 1 =
            omega (arith, h.used c, tally_le (uses c) ms) in
          ap (λ z. used_of (add_used (or_insert ◌==◌ no_counts counters z) z) c) equal
          ∙ add_used_here counters c
          ∙ next
          ∙ ap (λ (b : Bool). tally (uses c) ms + (if b then 1 else 0)) (sym hit)
      | inr miss ↦
          add_used_elsewhere counters type c (λ e. cc ((==_iff type c).1 e))
          ∙ h.used c
          ∙ no_more c
          ∙ ap (λ (b : Bool). tally (uses c) ms + (if b then 1 else 0)) (sym miss)
    ]

    used :
        (c : ℕ)
        → used_of
            (for_each add_supported
              (unique new.leaf.capabilities.credentials)
              (add_used (or_insert ◌==◌ no_counts counters type) type))
            c
          ≡ tally (uses c) (new ∷ ms)
    used c = used_of-for_each (unique new.leaf.capabilities.credentials) _ c ∙ used_before c

    proposals :
        (p : ℕ)
        → proposals_of
            (for_each add_proposal (unique new.leaf.capabilities.proposals) t.proposal_type_counter)
            p
          ≡ tally (supports_proposal p) (new ∷ ms)
    proposals p =
        for_each-add add_proposal proposals_of add_proposal-IsCounting
          new.leaf.capabilities.proposals _ p
          (omega (arith, h.proposals p, tally_le (supports_proposal p) ms))
        ∙ ap (λ (n : ℕ). n + once new.leaf.capabilities.proposals p) (h.proposals p)
