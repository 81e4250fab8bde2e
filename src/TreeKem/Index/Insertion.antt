-- ===== src/TreeKem/Index/Insertion.antt =====
-- mls-rs/src/tree_kem/tree_index.rs: what `insert` does, and that it keeps the index.
use mls_rs_wasm_maybe_sync.Common.{
  ℕ, ◌+◌, ◌%◌, ◌^◌, ◌<◌, ◌≡◌, refl, sym, ap, subst, ◌∙◌, List, ◌∷◌, length, bytes_eq, ◌==◌,
  Bool-cases, true, false, Option, none, some, Option-cases, Result, ok, err, fault, inl, inr, ◌⊎◌,
}
use mls_rs_wasm_maybe_sync.MlsError.{
  MlsError, duplicate_leaf_data, in_use_credential_type_unsupported_by_new_leaf,
  credential_type_of_new_leaf_is_unsupported,
}
use mls_rs_wasm_maybe_sync.TreeKem.Index.{
  TreeIndex, lookup, leaf_credential_type, in_use_unsupported, with_counter, supported_of, entered,
  insert_new, duplicate_or, insert,
}
use mls_rs_wasm_maybe_sync.TreeKem.Index.Members.{
  IsNew, IsIndexOf, with_counter-IsIndexOf, entered-IsIndexOf,
}
use mls_rs_wasm_maybe_sync.TreeKem.Index.Owners.{Member, signature_key_of, hpke_key_of}

-- The index is ready to take a new member: no key and no identity is a duplicate, every credential type
-- in use is supported by the member, and its own type by all others.
pub record IsFree (new : Member) (t : TreeIndex) : Type 0 where
  pub signature_key : lookup bytes_eq t.credential_signature_key (signature_key_of new) ≡ none
  pub hpke_key : lookup bytes_eq t.hpke_key (hpke_key_of new) ≡ none
  pub identity : lookup bytes_eq t.identities new.identity ≡ none
  pub in_use : in_use_unsupported t new.leaf ≡ false
  pub own_type :
      (supported_of
          (with_counter new.leaf t).credential_type_counters
          (leaf_credential_type new.leaf)
        == length t.credential_signature_key % 2 ^ 32)
      ≡ true

pub IsFree-IsNew : {new : Member} {t : TreeIndex} → IsFree new t → IsNew new t
IsFree-IsNew free = record {
  signature_key = free.signature_key;
  hpke_key = free.hpke_key;
  identity = free.identity;
}

-- What `insert` has done.
pub data Inserted (new : Member) (t : TreeIndex) : Type 0 where
  accepted :
      IsFree new t
      → insert new.index new.leaf new.identity t
        ≡ (ok tt, entered new.index new.leaf new.identity (with_counter new.leaf t))
      → Inserted new t
  refused :
      (e : MlsError) (out : TreeIndex)
      → (out ≡ t) ⊎ (out ≡ with_counter new.leaf t)
      → ¬ IsFree new t
      → insert new.index new.leaf new.identity t ≡ (err e, out)
      → Inserted new t

-- The members once `insert` has returned.
abbrev pub members_after : Member → List Member → Result MlsError (Unit {0}) → List Member
members_after new ms (ok u) = new ∷ ms
members_after new ms (err e) = ms
members_after new ms (fault x) = ms

module _ (new : Member) (t : TreeIndex) where
  -- When a key or the identity is there already.
  is_duplicate :
      (o : Option ℕ) (m : TreeIndex → Result MlsError (Unit {0}) × TreeIndex) (i : ℕ)
      → o ≡ some i
      → duplicate_or o m t ≡ (err (duplicate_leaf_data i), t)
  is_duplicate o m i h = ap (λ z. duplicate_or z m t) h

  is_new :
      (o : Option ℕ) (m : TreeIndex → Result MlsError (Unit {0}) × TreeIndex)
      → o ≡ none
      → duplicate_or o m t ≡ m t
  is_new o m h = ap (λ z. duplicate_or z m t) h

  with_types :
      lookup bytes_eq t.credential_signature_key (signature_key_of new) ≡ none
      → lookup bytes_eq t.hpke_key (hpke_key_of new) ≡ none
      → lookup bytes_eq t.identities new.identity ≡ none
      → insert new.index new.leaf new.identity t ≡ insert_new new.index new.leaf new.identity t
      → Inserted new t
  unfolding insert_new
  with_types sig hpke id reached = elim (Bool-cases (in_use_unsupported t new.leaf)) [
    | inl other ↦
        refused in_use_credential_type_unsupported_by_new_leaf t (inl refl) (λ f. cc (f.in_use))
          (reached ∙ rw (insert_new, other))
    | inr none_other ↦
        elim (Bool-cases (
          supported_of (with_counter new.leaf t).credential_type_counters
            (leaf_credential_type new.leaf)
          == length t.credential_signature_key % 2 ^ 32)) [
            | inl all ↦
                accepted
                  (record {
                    signature_key = sig;
                    hpke_key = hpke;
                    identity = id;
                    in_use = none_other;
                    own_type = all;
                  })
                  (reached ∙ rw (insert_new, none_other, all))
            | inr not_all ↦
                refused credential_type_of_new_leaf_is_unsupported (with_counter new.leaf t)
                  (inr refl) (λ f. cc (f.own_type)) (reached ∙ rw (insert_new, none_other, not_all))
          ]
  ]

  pub Inserted-cases : Inserted new t
  unfolding insert
  Inserted-cases =
      elim (Option-cases (lookup bytes_eq t.credential_signature_key (signature_key_of new))) [
        | inr (i, p) ↦ refused _ t (inl refl) (λ f. cc (f.signature_key)) (is_duplicate _ _ i p)
        | inl sig ↦ elim (Option-cases (lookup bytes_eq t.hpke_key (hpke_key_of new))) [
          | inr (i, p) ↦
              refused _ t (inl refl) (λ f. cc (f.hpke_key)) (is_new _ _ sig ∙ is_duplicate _ _ i p)
          | inl hpke ↦ elim (Option-cases (lookup bytes_eq t.identities new.identity)) [
            | inr (i, p) ↦
                refused _ t (inl refl) (λ f. cc (f.identity))
                  (is_new _ _ sig ∙ is_new _ _ hpke ∙ is_duplicate _ _ i p)
            | inl id ↦ with_types sig hpke id (is_new _ _ sig ∙ is_new _ _ hpke ∙ is_new _ _ id)
          ]
        ]
      ]

  -- On an index that tells what a walk over the members would, and with fewer than 2 ^ 32 - 1 of them,
  -- insert leaves such an index: of the members with the new one when it succeeds, and of the same members
  -- when it fails.
  pub insert-IsIndexOf :
      (ms : List Member)
      → IsIndexOf t ms
      → length ms + 1 < 2 ^ 32
      → IsIndexOf
          (insert new.index new.leaf new.identity t).1
          (members_after new ms (insert new.index new.leaf new.identity t).0)
  insert-IsIndexOf ms h small = elim Inserted-cases [
    | accepted free q ↦
        subst (λ z. IsIndexOf z.1 (members_after new ms z.0)) (sym q)
          (entered-IsIndexOf new t ms h (IsFree-IsNew free) small)
    | refused e out kept conflict q ↦
        subst (λ z. IsIndexOf z.1 (members_after new ms z.0)) (sym q)
          (elim kept [
            | inl same ↦ subst (λ z. IsIndexOf z ms) (sym same) h
            | inr default ↦
                subst (λ z. IsIndexOf z ms) (sym default) (with_counter-IsIndexOf new.leaf t ms h)
          ])
  ]
