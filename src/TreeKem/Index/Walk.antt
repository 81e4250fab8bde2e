-- ===== src/TreeKem/Index/Walk.antt =====
-- mls-rs/src/tree_kem/tree_index.rs: `index_insert` over the index against `index_insert` over the leaves.
use mls_rs_wasm_maybe_sync.Common.{
  ℕ, ◌+◌, ◌^◌, ◌<◌, ◌≡◌, ◌≢◌, ◌↔◌, refl, sym, ap, ◌∙◌, List, [], ◌∷◌, map, length, All, bytes_eq,
  ◌==◌, ==_iff, Bool, Bool-cases, true, false, not, Result, ok, ensure, try_for_each, ◌>>=◌, ◌>>◌,
  >>=-eq-ok, inl, inr,
}
use mls_rs_wasm_maybe_sync.MlsError.{
  MlsError, duplicate_leaf_data, in_use_credential_type_unsupported_by_new_leaf,
  credential_type_of_new_leaf_is_unsupported,
}
use mls_rs_wasm_maybe_sync.TreeKem.Leaf.{SigningIdentity, LeafNode}
use mls_rs_wasm_maybe_sync.TreeKem.Index.{
  TreeIndex, contains, leaf_credential_type, insert, insert_identified, index_insert, check_leaf,
  without_index, index_insert_walk,
}
use mls_rs_wasm_maybe_sync.TreeKem.Index.Members.{IsIndexOf}
use mls_rs_wasm_maybe_sync.TreeKem.Index.Insertion.{IsFree, accepted, refused, Inserted-cases}
use mls_rs_wasm_maybe_sync.TreeKem.Index.Conditions.{Fits, IsFree-Fits}
use mls_rs_wasm_maybe_sync.TreeKem.Index.Owners.{Member, signature_key_of, hpke_key_of, supports}

abbrev pub entry : Member → ℕ × LeafNode
entry m = (m.index, m.leaf)

without_index-entry :
    (index : ℕ) (ms : List Member)
    → All (λ m. m.index ≢ index) ms
    → without_index index (map entry ms) ≡ map entry ms
unfolding without_index
without_index-entry index [] h = refl
without_index-entry index (m ∷ ms) (apart, h) =
    let other : (m.index == index) ≡ false = elim (Bool-cases (m.index == index)) [
      | inl same ↦ absurd (apart ((==_iff m.index index).0 same))
      | inr other ↦ other
    ] in
    rw (other, without_index) (ap (λ l. entry m ∷ l) (without_index-entry index ms h))

ensure-ok :
    (b : Bool) (e : MlsError) (r : Result MlsError (Unit {0}))
    → ((ensure b e >> r) ≡ ok tt) ↔ ((b ≡ true) × (r ≡ ok tt))
ensure-ok true e r = (λ h. (refl, h), λ h. h.1)
ensure-ok false e r = (λ h. absurd (cc), λ h. absurd (cc (h.0)))

ensure_last : (b : Bool) (e : MlsError) → (ensure b e ≡ ok tt) ↔ (b ≡ true)
ensure_last true e = (λ h. refl, λ h. refl)
ensure_last false e = (λ h. absurd (cc), λ h. absurd (cc))

not-true : (b : Bool) → (not b ≡ true) ↔ (b ≡ false)
not-true true = (λ h. absurd (cc), λ h. absurd (cc))
not-true false = (λ h. refl, λ h. refl)

module _ (identity : SigningIdentity → Result MlsError (List ℕ)) (new : Member) where
  -- The checks of one leaf.
  Passes : Member → Type 0
  Passes m =
      (bytes_eq (hpke_key_of m) (hpke_key_of new) ≡ false)
      × (bytes_eq (signature_key_of m) (signature_key_of new) ≡ false)
      × (bytes_eq m.identity new.identity ≡ false)
      × (contains new.leaf.capabilities.credentials (leaf_credential_type m.leaf) ≡ true)
      × (supports (leaf_credential_type new.leaf) m ≡ true)

  check_leaf-Passes :
      (m : Member)
      → identity m.leaf.signing_identity ≡ ok m.identity
      → (check_leaf identity new.leaf new.identity (entry m) ≡ ok tt) ↔ Passes m
  unfolding check_leaf Passes
  check_leaf-Passes m known = (
    λ h.
        let (hpke, h1) = (ensure-ok _ _ _).0 h in
        let (sig, h2) = (ensure-ok _ _ _).0 h1 in
        let (id, h3) = (ensure-ok _ _ _).0 (sym (ap (λ r. r >>= rest) known) ∙ h2) in
        let (in_use, h4) = (ensure-ok _ _ _).0 h3 in
        (
          (not-true _).0 hpke,
          (not-true _).0 sig,
          (not-true _).0 id,
          in_use,
          (ensure_last _ _).0 h4,
        ),
    λ (hpke, sig, id, in_use, own). (ensure-ok _ _ _).1 (
      (not-true _).1 hpke,
      (ensure-ok _ _ _).1 (
        (not-true _).1 sig,
        ap (λ r. r >>= rest) known
            ∙ (ensure-ok _ _ _).1
                ((not-true _).1 id, (ensure-ok _ _ _).1 (in_use, (ensure_last _ _).1 own)),
      ),
    ),
  )
    where
      rest : List ℕ → Result MlsError (Unit {0})
      rest id = do
        ensure (not (bytes_eq id new.identity)) (duplicate_leaf_data m.index)
        ensure (contains new.leaf.capabilities.credentials (leaf_credential_type m.leaf))
            in_use_credential_type_unsupported_by_new_leaf
        ensure (supports (leaf_credential_type new.leaf) m)
            credential_type_of_new_leaf_is_unsupported

  walk-Passes :
      (ms : List Member)
      → All (λ m. identity m.leaf.signing_identity ≡ ok m.identity) ms
      → (try_for_each (check_leaf identity new.leaf new.identity) (map entry ms) ≡ ok tt)
        ↔ All Passes ms
  walk-Passes [] known = (λ h. tt, λ h. refl)
  walk-Passes (m ∷ ms) (knows, known) = (
    λ h.
        let (u, first, later) =
          >>=-eq-ok (check_leaf identity new.leaf new.identity (entry m)) _ h in
        ((check_leaf-Passes m knows).0 first, (walk-Passes ms known).0 later),
    λ h.
        ap (λ r. r >>= λ _. try_for_each (check_leaf identity new.leaf new.identity) (map entry ms))
          ((check_leaf-Passes m knows).1 h.0)
        ∙ (walk-Passes ms known).1 h.1,
  )

  Fits-Passes : (ms : List Member) → Fits new ms ↔ All Passes ms
  unfolding Passes
  Fits-Passes [] = (
    λ f. tt,
    λ h. record { signature_key = tt; hpke_key = tt; identity = tt; in_use = tt; own_type = tt },
  )
  Fits-Passes (m ∷ ms) = (
    λ f. (
      (f.hpke_key.0, f.signature_key.0, f.identity.0, f.in_use.0, f.own_type.0),
      (Fits-Passes ms).0 (record {
        signature_key = f.signature_key.1;
        hpke_key = f.hpke_key.1;
        identity = f.identity.1;
        in_use = f.in_use.1;
        own_type = f.own_type.1;
      }),
    ),
    λ ((hpke, sig, id, in_use, own), h).
        let f = (Fits-Passes ms).1 h in
        record {
          signature_key = (sig, f.signature_key);
          hpke_key = (hpke, f.hpke_key);
          identity = (id, f.identity);
          in_use = (in_use, f.in_use);
          own_type = (own, f.own_type);
        },
  )

insert-IsFree :
    (new : Member) (t : TreeIndex)
    → ((insert new.index new.leaf new.identity t).0 ≡ ok tt) ↔ IsFree new t
insert-IsFree new t = elim (Inserted-cases new t) [
  | accepted free q ↦ (λ h. free, λ f. ap (λ z. z.0) q)
  | refused e out kept conflict q ↦
      (λ h. absurd (cc (sym (ap (λ z. z.0) q) ∙ h)), λ f. absurd (conflict f))
]

-- When the identity provider knows the new member and the others, none of which has the index of the new
-- one, and the index tells what a walk over fewer than 2 ^ 32 - 1 others would, the insertion over the index
-- succeeds exactly when the walk does.
pub index_insert-index_insert_walk :
    (identity : SigningIdentity → Result MlsError (List ℕ)) (new : Member) (t : TreeIndex)
    (ms : List Member)
    → identity new.leaf.signing_identity ≡ ok new.identity
    → All (λ m. identity m.leaf.signing_identity ≡ ok m.identity) ms
    → All (λ m. m.index ≢ new.index) ms
    → IsIndexOf t ms
    → length ms + 1 < 2 ^ 32
    → ((index_insert identity new.leaf new.index t).0 ≡ ok tt)
      ↔ (index_insert_walk identity (map entry ms) new.leaf new.index ≡ ok tt)
unfolding index_insert index_insert_walk
index_insert-index_insert_walk identity new t ms knows known apart h small =
    let over_index : (index_insert identity new.leaf new.index t).0
        ≡ (insert new.index new.leaf new.identity t).0 =
      ap (λ r. (insert_identified new.index new.leaf r t).0) knows in
    let over_leaves : index_insert_walk identity (map entry ms) new.leaf new.index
        ≡ try_for_each (check_leaf identity new.leaf new.identity) (map entry ms) =
      ap
        (λ r. r >>= λ id.
          try_for_each (check_leaf identity new.leaf id) (without_index new.index (map entry ms)))
        knows
      ∙ ap (try_for_each (check_leaf identity new.leaf new.identity))
          (without_index-entry new.index ms apart) in
    let free = IsFree-Fits new t ms h small in
    let fits = Fits-Passes identity new ms in
    let passes = walk-Passes identity new ms known in
    (
      λ good.
          over_leaves
          ∙ passes.1 (fits.0 (free.0 ((insert-IsFree new t).0 (sym over_index ∙ good)))),
      λ good.
          over_index
          ∙ (insert-IsFree new t).1 (free.1 (fits.1 (passes.0 (sym over_leaves ∙ good)))),
    )
