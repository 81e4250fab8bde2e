-- ===== src/TreeKem/Index/Keys.antt =====
-- mls-rs/src/tree_kem/tree_index.rs: the maps from keys and identities after the removal of an entry.
use mls_rs_wasm_maybe_sync.Common.{
  ℕ, suc, ◌≡◌, refl, sym, ap, subst, ◌∙◌, List, [], ◌∷◌, length, bytes_eq, bytes_eq→eq,
  bytes_eq_self, Bool-cases, true, false, some, none, inl, inr,
}
use mls_rs_wasm_maybe_sync.TreeKem.Index.{LargeMap, lookup, remove_key}

pub bytes_eq_apart : (j k : List ℕ) → bytes_eq j k ≡ false → bytes_eq k j ≡ false
bytes_eq_apart j k h = elim (Bool-cases (bytes_eq k j)) [
  | inl same ↦
      absurd (cc (subst (λ z. bytes_eq z k ≡ true) (bytes_eq→eq k j same) (bytes_eq_self k)))
  | inr apart ↦ apart
]

-- No two entries of a map from keys or identities have one key.
abbrev pub AreOnce : LargeMap (List ℕ) ℕ → Type 0
AreOnce [] = Unit
AreOnce ((j, v) ∷ m) = (lookup bytes_eq m j ≡ none) × AreOnce m

removed_first :
    (m : LargeMap (List ℕ) ℕ) (j : List ℕ) (v : ℕ) (k : List ℕ)
    → bytes_eq j k ≡ true
    → remove_key bytes_eq ((j, v) ∷ m) k ≡ m
unfolding remove_key
removed_first m j v k hit = rw (remove_key, hit)

removed_later :
    (m : LargeMap (List ℕ) ℕ) (j : List ℕ) (v : ℕ) (k : List ℕ)
    → bytes_eq j k ≡ false
    → remove_key bytes_eq ((j, v) ∷ m) k ≡ (j, v) ∷ remove_key bytes_eq m k
unfolding remove_key
removed_later m j v k miss = rw (remove_key, miss)

lookup_miss :
    (m : LargeMap (List ℕ) ℕ) (j : List ℕ) (v : ℕ) (k : List ℕ)
    → bytes_eq j k ≡ false
    → lookup bytes_eq ((j, v) ∷ m) k ≡ lookup bytes_eq m k
unfolding lookup
lookup_miss m j v k miss = rw (lookup, miss)

lookup_hit :
    (m : LargeMap (List ℕ) ℕ) (j : List ℕ) (v : ℕ) (k : List ℕ)
    → bytes_eq j k ≡ true
    → lookup bytes_eq ((j, v) ∷ m) k ≡ some v
unfolding lookup
lookup_hit m j v k hit = rw (lookup, hit)

pub remove_key_elsewhere :
    (m : LargeMap (List ℕ) ℕ) (j k : List ℕ)
    → bytes_eq j k ≡ false
    → lookup bytes_eq (remove_key bytes_eq m j) k ≡ lookup bytes_eq m k
unfolding remove_key
remove_key_elsewhere [] j k h = refl
remove_key_elsewhere ((i, v) ∷ m) j k h = elim (Bool-cases (bytes_eq i j)) [
  | inl hit ↦
      let other : bytes_eq i k ≡ false = ap (λ z. bytes_eq z k) (bytes_eq→eq i j hit) ∙ h in
      ap (λ z. lookup bytes_eq z k) (removed_first m i v j hit) ∙ sym (lookup_miss m i v k other)
  | inr miss ↦
      ap (λ z. lookup bytes_eq z k) (removed_later m i v j miss)
      ∙ elim (Bool-cases (bytes_eq i k)) [
        | inl here ↦ lookup_hit _ i v k here ∙ sym (lookup_hit m i v k here)
        | inr there ↦
            lookup_miss _ i v k there
            ∙ remove_key_elsewhere m j k h
            ∙ sym (lookup_miss m i v k there)
      ]
]

pub remove_key_here :
    (m : LargeMap (List ℕ) ℕ) (k : List ℕ)
    → AreOnce m
    → lookup bytes_eq (remove_key bytes_eq m k) k ≡ none
unfolding remove_key lookup
remove_key_here [] k h = refl
remove_key_here ((i, v) ∷ m) k (new, h) = elim (Bool-cases (bytes_eq i k)) [
  | inl hit ↦
      ap (λ z. lookup bytes_eq z k) (removed_first m i v k hit)
      ∙ ap (lookup bytes_eq m) (sym (bytes_eq→eq i k hit))
      ∙ new
  | inr miss ↦
      ap (λ z. lookup bytes_eq z k) (removed_later m i v k miss)
      ∙ lookup_miss _ i v k miss
      ∙ remove_key_here m k h
]

pub length-remove_key :
    (m : LargeMap (List ℕ) ℕ) (k : List ℕ) (v : ℕ)
    → lookup bytes_eq m k ≡ some v
    → suc (length (remove_key bytes_eq m k)) ≡ length m
unfolding remove_key lookup
length-remove_key [] k v there = absurd (cc)
length-remove_key ((i, w) ∷ m) k v there = elim (Bool-cases (bytes_eq i k)) [
  | inl hit ↦ ap (λ z. suc (length z)) (removed_first m i w k hit)
  | inr miss ↦
      ap (λ z. suc (length z)) (removed_later m i w k miss)
      ∙ ap suc (length-remove_key m k v (sym (lookup_miss m i w k miss) ∙ there))
]

pub AreOnce-remove_key :
    (m : LargeMap (List ℕ) ℕ) (k : List ℕ) → AreOnce m → AreOnce (remove_key bytes_eq m k)
unfolding remove_key
AreOnce-remove_key [] k h = tt
AreOnce-remove_key ((i, v) ∷ m) k (new, h) = elim (Bool-cases (bytes_eq i k)) [
  | inl hit ↦ subst AreOnce (sym (removed_first m i v k hit)) h
  | inr miss ↦
      let other : bytes_eq k i ≡ false = bytes_eq_apart i k miss in
      subst AreOnce (sym (removed_later m i v k miss))
        (remove_key_elsewhere m k i other ∙ new, AreOnce-remove_key m k h)
]
