-- ===== src/TreeKem/Index/Removal.antt =====
-- mls-rs/src/tree_kem/tree_index.rs: what `remove` leaves of an index.
use mls_rs_wasm_maybe_sync.Common.{
  ℕ, ◌+◌, ◌^◌, ◌<◌, ◌≡◌, sym, ap, subst, ◌∙◌, List, ◌∷◌, ◌++◌, length, bytes_eq, bytes_eq→eq,
  bytes_eq_self, ◌==◌, ==_iff, All, if◌then◌else◌, Bool, Bool-cases, true, false, is_some, arith,
  inl, inr,
}
use mls_rs_wasm_maybe_sync.TreeKem.Index.{
  TreeIndex, LargeMap, lookup, remove_key, unique, drop_supported, drop_used, drop_proposal,
  without_keys, without_counts, remove, leaf_credential_type, supported_of,
}
use mls_rs_wasm_maybe_sync.TreeKem.Index.Entries.{AreKeyed-adjust}
use mls_rs_wasm_maybe_sync.TreeKem.Index.Stepping.{used_of, proposals_of, for_each-drop, once}
use mls_rs_wasm_maybe_sync.TreeKem.Index.Dropped.{
  drop_supported-IsDropping, drop_used-IsDropping, drop_proposal-IsDropping, supported_of-drop_used,
  used_of-for_each_drop, AreKeyed-for_each_drop,
}
use mls_rs_wasm_maybe_sync.TreeKem.Index.Keys.{
  AreOnce, AreOnce-remove_key, remove_key_here, remove_key_elsewhere, length-remove_key,
}
use mls_rs_wasm_maybe_sync.TreeKem.Index.Owners.{
  Member, signature_key_of, hpke_key_of, identity_of, supports, uses, supports_proposal, owner,
  tally, tally_le, owner_hit, owner_miss, owner-none,
}
use mls_rs_wasm_maybe_sync.TreeKem.Index.Members.{IsIndexOf}
use mls_rs_wasm_maybe_sync.TreeKem.Index.Moves.{IsIndexOf-back, map-All}

-- A map without the key of the first member.
lookup_removed :
    (key : Member → List ℕ) (map : LargeMap (List ℕ) ℕ) (m : Member) (ms : List Member)
    → AreOnce map
    → All (λ x. bytes_eq (key x) (key m) ≡ false) ms
    → ((k : List ℕ) → lookup bytes_eq map k ≡ owner key (m ∷ ms) k)
    → (k : List ℕ) → lookup bytes_eq (remove_key bytes_eq map (key m)) k ≡ owner key ms k
lookup_removed key map m ms once away h k = elim (Bool-cases (bytes_eq (key m) k)) [
  | inl hit ↦
      let same : key m ≡ k = bytes_eq→eq (key m) k hit in
      ap (λ z. lookup bytes_eq (remove_key bytes_eq map (key m)) z) (sym same)
      ∙ remove_key_here map (key m) once
      ∙ sym ((owner-none key ms (key m)).1 away)
      ∙ ap (owner key ms) same
  | inr miss ↦ remove_key_elsewhere map (key m) k miss ∙ h k ∙ owner_miss key m ms k miss
]

module _ (m : Member) (ms : List Member) (t : TreeIndex) (h : IsIndexOf t (m ∷ ms))
    (small : length ms + 1 < 2 ^ 32) where
  abbrev type : ℕ
  type = leaf_credential_type m.leaf

  known : is_some (lookup bytes_eq t.identities m.identity) ≡ true
  known =
      ap is_some
        (h.identities m.identity ∙ owner_hit identity_of m ms m.identity (bytes_eq_self m.identity))

  reached : remove m.leaf m.identity t ≡ without_counts m.leaf (without_keys m.leaf m.identity t)
  unfolding remove
  reached = rw (known, remove)

  used_less : (c : ℕ) → used_of (drop_used t.credential_type_counters type) c ≡ tally (uses c) ms
  used_less c = elim (Bool-cases (type == c)) [
    | inl hit ↦
        let same : type ≡ c = (==_iff type c).0 hit in
        let counted : used_of t.credential_type_counters c ≡ tally (uses c) ms + 1 =
          h.used c ∙ ap (λ (b : Bool). tally (uses c) ms + (if b then 1 else 0)) hit in
        ap (λ z. used_of (drop_used t.credential_type_counters z) c) same
        ∙ drop_used-IsDropping.here t.credential_type_counters c (
          omega (arith, counted, tally_le (uses c) ms, small),
          omega (arith, counted, tally_le (uses c) ms, small),
        )
        ∙ omega (arith, counted)
    | inr miss ↦
        drop_used-IsDropping.elsewhere t.credential_type_counters type c
          (λ e. cc ((==_iff type c).1 e))
        ∙ h.used c
        ∙ ap (λ (b : Bool). tally (uses c) ms + (if b then 1 else 0)) miss
        ∙ omega arith
  ]

  counts-IsIndexOf : IsIndexOf (without_counts m.leaf (without_keys m.leaf m.identity t)) ms
  counts-IsIndexOf = record {
    signature_keys =
        lookup_removed signature_key_of _ m ms h.once.0 (map-All ms (λ x d. d.0) h.apart.0)
          h.signature_keys;
    hpke_keys =
        lookup_removed hpke_key_of _ m ms h.once.1 (map-All ms (λ x d. d.1) h.apart.0) h.hpke_keys;
    identities =
        lookup_removed identity_of _ m ms h.once.2 (map-All ms (λ x d. d.2) h.apart.0) h.identities;
    size = omega (
      arith,
      h.size,
      length-remove_key t.credential_signature_key (signature_key_of m) m.index (
          h.signature_keys _
          ∙ owner_hit signature_key_of m ms _ (bytes_eq_self (signature_key_of m))),
    );
    supported = λ c.
        for_each-drop drop_supported supported_of drop_supported-IsDropping
          m.leaf.capabilities.credentials (drop_used t.credential_type_counters type) c _
          (supported_of-drop_used t.credential_type_counters type c ∙ h.supported c)
          (omega (arith, tally_le (supports c) ms, small));
    used = λ c. used_of-for_each_drop (unique m.leaf.capabilities.credentials) _ c ∙ used_less c;
    keyed =
        AreKeyed-for_each_drop (unique m.leaf.capabilities.credentials) _
          (AreKeyed-adjust _ t.credential_type_counters type h.keyed);
    proposals = λ p.
        for_each-drop drop_proposal proposals_of drop_proposal-IsDropping
          m.leaf.capabilities.proposals t.proposal_type_counter p _ (h.proposals p)
          (omega (arith, tally_le (supports_proposal p) ms, small));
    apart = h.apart.1;
    once = (
      AreOnce-remove_key _ _ h.once.0,
      AreOnce-remove_key _ _ h.once.1,
      AreOnce-remove_key _ _ h.once.2,
    );
  }

-- On an index that tells what a walk over fewer than 2 ^ 32 members would, removing one of them leaves such
-- an index of the others, wherever it stands among them.
pub remove-IsIndexOf :
    (m : Member) (xs ys : List Member) (t : TreeIndex)
    → IsIndexOf t (xs ++ (m ∷ ys))
    → length (xs ++ ys) + 1 < 2 ^ 32
    → IsIndexOf (remove m.leaf m.identity t) (xs ++ ys)
remove-IsIndexOf m xs ys t h small =
    let front : IsIndexOf t (m ∷ (xs ++ ys)) = IsIndexOf-back t m xs ys h in
    subst (λ z. IsIndexOf z (xs ++ ys)) (sym (reached m (xs ++ ys) t front small))
      (counts-IsIndexOf m (xs ++ ys) t front small)
