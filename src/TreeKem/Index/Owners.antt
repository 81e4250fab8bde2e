-- ===== src/TreeKem/Index/Owners.antt =====
-- mls-rs/src/tree_kem/tree_index.rs: the members of a tree, and which of them has a key or an identity.
use mls_rs_wasm_maybe_sync.Common.{
  ℕ, ◌+◌, ◌≤◌, ◌≡◌, ◌↔◌, refl, sym, ◌∙◌, List, [], ◌∷◌, length, bytes_eq, ◌==◌, All, if◌then◌else◌,
  Bool, Bool-cases, true, false, Option, none, some, arith, inl, inr,
}
use mls_rs_wasm_maybe_sync.TreeKem.Leaf.{LeafNode}
use mls_rs_wasm_maybe_sync.TreeKem.Index.{contains, leaf_credential_type}

-- A leaf of the tree with its index, and the identity that the provider gives for it.
pub record Member : Type 0 where
  pub index : ℕ
  pub leaf : LeafNode
  pub identity : List ℕ

abbrev pub signature_key_of : Member → List ℕ
signature_key_of m = m.leaf.signing_identity.signature_key

abbrev pub hpke_key_of : Member → List ℕ
hpke_key_of m = m.leaf.public_key

abbrev pub identity_of : Member → List ℕ
identity_of m = m.identity

abbrev pub supports : ℕ → Member → Bool
supports c m = contains m.leaf.capabilities.credentials c

abbrev pub uses : ℕ → Member → Bool
uses c m = leaf_credential_type m.leaf == c

abbrev pub supports_proposal : ℕ → Member → Bool
supports_proposal p m = contains m.leaf.capabilities.proposals p

-- The member with a key, and the number of the members that pass a test.
unfoldable pub owner : (Member → List ℕ) → List Member → List ℕ → Option ℕ
owner key [] k = none
owner key (m ∷ ms) k =
    let rest = owner key ms k in if bytes_eq (key m) k then some m.index else rest

abbrev pub tally : (Member → Bool) → List Member → ℕ
tally p [] = 0
tally p (m ∷ ms) = tally p ms + (if p m then 1 else 0)

pub tally_le : (p : Member → Bool) (ms : List Member) → tally p ms ≤ length ms
tally_le p [] = omega arith
tally_le p (m ∷ ms) = elim (Bool-cases (p m)) [
  | inl passes ↦ ground (arith, tally_le p ms)
  | inr fails ↦ ground (arith, tally_le p ms)
]

pub owner_hit :
    (key : Member → List ℕ) (m : Member) (ms : List Member) (k : List ℕ)
    → bytes_eq (key m) k ≡ true
    → owner key (m ∷ ms) k ≡ some m.index
unfolding owner
owner_hit key m ms k hit = rw (owner, hit)

pub owner_miss :
    (key : Member → List ℕ) (m : Member) (ms : List Member) (k : List ℕ)
    → bytes_eq (key m) k ≡ false
    → owner key (m ∷ ms) k ≡ owner key ms k
unfolding owner
owner_miss key m ms k miss = rw (owner, miss)

pub owner-none :
    (key : Member → List ℕ) (ms : List Member) (k : List ℕ)
    → (owner key ms k ≡ none) ↔ All (λ m. bytes_eq (key m) k ≡ false) ms
unfolding owner
owner-none key [] k = (λ h. tt, λ h. refl)
owner-none key (m ∷ ms) k = elim (Bool-cases (bytes_eq (key m) k)) [
  | inl hit ↦ (λ h. absurd (cc (owner_hit key m ms k hit)), λ h. absurd (cc (h.0)))
  | inr miss ↦ (
    λ h. (miss, (owner-none key ms k).0 (sym (owner_miss key m ms k miss) ∙ h)),
    λ h. owner_miss key m ms k miss ∙ (owner-none key ms k).1 h.1,
  )
]

-- No key and no identity in common.
abbrev pub AreDifferent : Member → Member → Type 0
AreDifferent m x =
    (bytes_eq (signature_key_of x) (signature_key_of m) ≡ false)
    × (bytes_eq (hpke_key_of x) (hpke_key_of m) ≡ false)
    × (bytes_eq x.identity m.identity ≡ false)

abbrev pub AreApart : List Member → Type 0
AreApart [] = Unit
AreApart (m ∷ ms) = All (AreDifferent m) ms × AreApart ms
