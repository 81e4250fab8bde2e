-- ===== src/TreeKem/Index.antt =====
-- mls-rs/src/tree_kem/tree_index.rs, with the features tree_index and custom_proposal and without std: the
-- keys, identities and capabilities of the leaves of a tree.
pub mod Entries
pub mod Stepping
pub mod Counters
pub mod Keys
pub mod Owners
pub mod Members
pub mod Moves
pub mod Dropped
pub mod Removal
pub mod Insertion
pub mod Conditions
pub mod Walk
pub mod Tests
use mls_rs_wasm_maybe_sync.Common.{
  ℕ, zero, suc, ◌+◌, ◌-◌, ◌%◌, ◌^◌, List, [], ◌∷◌, length, any, bytes_eq, ltb, ◌==◌, if◌then◌else◌,
  Bool, true, false, not, ◌&&◌, Option, none, some, is_some, Result, ok, err, fault, ensure,
  try_for_each, ◌>>=◌, ◌>>◌,
}
use mls_rs_wasm_maybe_sync.Common.State.{Method}
use mls_rs_wasm_maybe_sync.MlsError.{
  MlsError, duplicate_leaf_data, in_use_credential_type_unsupported_by_new_leaf,
  credential_type_of_new_leaf_is_unsupported,
}
use mls_rs_wasm_maybe_sync.TreeMath.{sub32}
use mls_rs_wasm_maybe_sync.TreeKem.Leaf.{SigningIdentity, LeafNode, credential_type}

-- `LargeMap`: the entries, of which no two have one key
abbrev pub LargeMap : Type 0 → Type 0 → Type 0
LargeMap K V = List (K × V)

module _ {K V : Type 0} (eq : K → K → Bool) where
  unfoldable pub lookup : LargeMap K V → K → Option V
  lookup [] k = none
  lookup ((j, v) ∷ m) k = let rest = lookup m k in if eq j k then some v else rest

  unfoldable pub remove_key : LargeMap K V → K → LargeMap K V
  remove_key [] k = []
  remove_key ((j, v) ∷ m) k = let rest = remove_key m k in if eq j k then m else (j, v) ∷ rest

  -- `get_mut`, and a change of the value
  unfoldable pub adjust : (V → V) → LargeMap K V → K → LargeMap K V
  adjust f [] k = []
  adjust f ((j, v) ∷ m) k =
      let rest = adjust f m k in if eq j k then (j, f v) ∷ m else (j, v) ∷ rest

  -- `entry(k).or_insert(v)`
  unfoldable pub or_insert : V → LargeMap K V → K → LargeMap K V
  unfolding lookup
  or_insert v m k = if is_some (lookup m k) then m else (k, v) ∷ m

pub record TypeCounter : Type 0 where
  pub supported : ℕ
  pub used : ℕ

pub record TreeIndex : Type 0 where
  pub credential_signature_key : LargeMap (List ℕ) ℕ
  pub hpke_key : LargeMap (List ℕ) ℕ
  pub identities : LargeMap (List ℕ) ℕ
  pub credential_type_counters : LargeMap ℕ TypeCounter
  pub proposal_type_counter : LargeMap ℕ ℕ

abbrev pub tree_index_new : TreeIndex
tree_index_new = record {
  credential_signature_key = [];
  hpke_key = [];
  identities = [];
  credential_type_counters = [];
  proposal_type_counter = [];
}

unfoldable pub is_initialized : TreeIndex → Bool
is_initialized t = not (length t.identities == 0)

abbrev pub no_counts : TypeCounter
no_counts = record { supported = 0; used = 0 }

abbrev pub one_more : ℕ → ℕ
one_more n = (n + 1) % 2 ^ 32

-- `contains`
abbrev pub contains : List ℕ → ℕ → Bool
contains cs c = any (λ d. d == c) cs

-- `collect::<BTreeSet<_>>()`: each entry once. What is done for each does not depend on the order.
unfoldable pub unique : List ℕ → List ℕ
unique [] = []
unique (c ∷ cs) = let rest = unique cs in if contains rest c then rest else c ∷ rest

-- `entry(cred_type).or_default().supported += 1`, and `used += 1`
abbrev pub add_supported : LargeMap ℕ TypeCounter → ℕ → LargeMap ℕ TypeCounter
add_supported m c =
    adjust ◌==◌ (λ k. record k { supported = one_more k.supported }) (or_insert ◌==◌ no_counts m c)
      c

abbrev pub add_used : LargeMap ℕ TypeCounter → ℕ → LargeMap ℕ TypeCounter
add_used m c = adjust ◌==◌ (λ k. record k { used = one_more k.used }) m c

abbrev pub add_proposal : LargeMap ℕ ℕ → ℕ → LargeMap ℕ ℕ
add_proposal m p = adjust ◌==◌ one_more (or_insert ◌==◌ 0 m p) p

abbrev pub for_each {ℓ} : {M : Type ℓ} → (M → ℕ → M) → List ℕ → M → M
for_each f [] m = m
for_each f (c ∷ cs) m = for_each f cs (f m c)

abbrev pub leaf_credential_type : LeafNode → ℕ
leaf_credential_type l = credential_type l.signing_identity.credential

-- Whether some credential type is in use that the new leaf does not support.
unfoldable pub in_use_unsupported : TreeIndex → LeafNode → Bool
in_use_unsupported t leaf_node =
    any (λ e. ltb 0 e.1.used && not (contains leaf_node.capabilities.credentials e.0))
      t.credential_type_counters

-- `TypeCounter::default()` enters for the type of the new leaf.
abbrev pub with_counter : LeafNode → TreeIndex → TreeIndex
with_counter leaf_node t = record t {
  credential_type_counters =
      or_insert ◌==◌ no_counts t.credential_type_counters (leaf_credential_type leaf_node);
}

-- What a counter tells, a missing one included.
abbrev pub supported_in : Option TypeCounter → ℕ
supported_in none = 0
supported_in (some k) = k.supported

abbrev pub supported_of : LargeMap ℕ TypeCounter → ℕ → ℕ
supported_of m c = supported_in (lookup ◌==◌ m c)

abbrev pub number_in : Option ℕ → ℕ
number_in none = 0
number_in (some n) = n

unfoldable pub entered : ℕ → LeafNode → List ℕ → TreeIndex → TreeIndex
entered index leaf_node identity t = record {
  credential_signature_key =
      (leaf_node.signing_identity.signature_key, index) ∷ t.credential_signature_key;
  hpke_key = (leaf_node.public_key, index) ∷ t.hpke_key;
  identities = (identity, index) ∷ t.identities;
  credential_type_counters =
      for_each add_supported (unique leaf_node.capabilities.credentials)
        (add_used t.credential_type_counters (leaf_credential_type leaf_node));
  proposal_type_counter =
      for_each add_proposal (unique leaf_node.capabilities.proposals) t.proposal_type_counter;
}

-- The counters of the credential types, when no key and no identity is a duplicate.
unfoldable pub insert_new : ℕ → LeafNode → List ℕ → Method TreeIndex MlsError (Unit {0})
unfolding in_use_unsupported entered
insert_new index leaf_node identity t =
    if in_use_unsupported t leaf_node
    then (err in_use_credential_type_unsupported_by_new_leaf, t)
    else if not (
        supported_of (with_counter leaf_node t).credential_type_counters
          (leaf_credential_type leaf_node)
        == length t.credential_signature_key % 2 ^ 32)
    then (err credential_type_of_new_leaf_is_unsupported, with_counter leaf_node t)
    else (ok tt, entered index leaf_node identity (with_counter leaf_node t))

abbrev pub duplicate_or :
    Option ℕ → Method TreeIndex MlsError (Unit {0}) → Method TreeIndex MlsError (Unit {0})
duplicate_or (some i) m t = (err (duplicate_leaf_data i), t)
duplicate_or none m t = m t

unfoldable pub insert : ℕ → LeafNode → List ℕ → Method TreeIndex MlsError (Unit {0})
unfolding insert_new
insert index leaf_node identity t =
    duplicate_or
      (lookup bytes_eq t.credential_signature_key leaf_node.signing_identity.signature_key)
      (duplicate_or (lookup bytes_eq t.hpke_key leaf_node.public_key) (
        duplicate_or (lookup bytes_eq t.identities identity) (insert_new index leaf_node identity)))
      t

-- `index_insert` over the index; `identity` is the call of the identity provider.
abbrev pub insert_identified :
    ℕ → LeafNode → Result MlsError (List ℕ) → Method TreeIndex MlsError (Unit {0})
insert_identified index leaf_node (ok new_id) t = insert index leaf_node new_id t
insert_identified index leaf_node (err e) t = (err e, t)
insert_identified index leaf_node (fault x) t = (fault x, t)

unfoldable pub index_insert :
    (SigningIdentity → Result MlsError (List ℕ))
    → LeafNode
    → ℕ
    → Method TreeIndex MlsError (Unit {0})
index_insert identity new_leaf new_leaf_idx t =
    insert_identified new_leaf_idx new_leaf (identity new_leaf.signing_identity) t

-- `index_insert` without the feature tree_index: a walk over the leaves.
unfoldable pub check_leaf :
    (SigningIdentity → Result MlsError (List ℕ))
    → LeafNode
    → List ℕ
    → ℕ × LeafNode
    → Result MlsError (Unit {0})
check_leaf identity new_leaf new_id (i, leaf) = do
  ensure (not (bytes_eq leaf.public_key new_leaf.public_key)) (duplicate_leaf_data i)
  ensure
      (not (bytes_eq leaf.signing_identity.signature_key new_leaf.signing_identity.signature_key))
      (duplicate_leaf_data i)
  id ← identity leaf.signing_identity
  ensure (not (bytes_eq id new_id)) (duplicate_leaf_data i)
  ensure (contains new_leaf.capabilities.credentials (leaf_credential_type leaf))
      in_use_credential_type_unsupported_by_new_leaf
  ensure (contains leaf.capabilities.credentials (leaf_credential_type new_leaf))
      credential_type_of_new_leaf_is_unsupported

-- `.filter(|(i, _)| i != &new_leaf_idx)`
unfoldable pub without_index : ℕ → List (ℕ × LeafNode) → List (ℕ × LeafNode)
without_index index [] = []
without_index index ((i, leaf) ∷ leaves) =
    let rest = without_index index leaves in if i == index then rest else (i, leaf) ∷ rest

unfoldable pub index_insert_walk :
    (SigningIdentity → Result MlsError (List ℕ))
    → List (ℕ × LeafNode)
    → LeafNode
    → ℕ
    → Result MlsError (Unit {0})
unfolding check_leaf without_index
index_insert_walk identity leaves new_leaf new_leaf_idx = do
  new_id ← identity new_leaf.signing_identity
  try_for_each (check_leaf identity new_leaf new_id) (without_index new_leaf_idx leaves)

unfoldable pub get_leaf_index_with_identity : TreeIndex → List ℕ → Option ℕ
get_leaf_index_with_identity t identity = lookup bytes_eq t.identities identity

abbrev pub one_less : ℕ → ℕ
one_less n = sub32 n 1

abbrev pub drop_supported : LargeMap ℕ TypeCounter → ℕ → LargeMap ℕ TypeCounter
drop_supported m c = adjust ◌==◌ (λ k. record k { supported = one_less k.supported }) m c

abbrev pub drop_used : LargeMap ℕ TypeCounter → ℕ → LargeMap ℕ TypeCounter
drop_used m c = adjust ◌==◌ (λ k. record k { used = one_less k.used }) m c

abbrev pub drop_proposal : LargeMap ℕ ℕ → ℕ → LargeMap ℕ ℕ
drop_proposal m p = adjust ◌==◌ one_less m p

abbrev pub without_keys : LeafNode → List ℕ → TreeIndex → TreeIndex
without_keys leaf_node identity t = record t {
  identities = remove_key bytes_eq t.identities identity;
  credential_signature_key =
      remove_key bytes_eq t.credential_signature_key leaf_node.signing_identity.signature_key;
  hpke_key = remove_key bytes_eq t.hpke_key leaf_node.public_key;
}

abbrev pub without_counts : LeafNode → TreeIndex → TreeIndex
without_counts leaf_node t = record t {
  credential_type_counters =
      for_each drop_supported (unique leaf_node.capabilities.credentials)
        (drop_used t.credential_type_counters (leaf_credential_type leaf_node));
  proposal_type_counter =
      for_each drop_proposal (unique leaf_node.capabilities.proposals) t.proposal_type_counter;
}

unfoldable pub remove : LeafNode → List ℕ → TreeIndex → TreeIndex
remove leaf_node identity t =
    if is_some (lookup bytes_eq t.identities identity)
    then without_counts leaf_node (without_keys leaf_node identity t)
    else without_keys leaf_node identity t

-- `get(..).copied().unwrap_or_default()`
unfoldable pub count_supporting_proposal : TreeIndex → ℕ → ℕ
count_supporting_proposal t proposal_type =
    number_in (lookup ◌==◌ t.proposal_type_counter proposal_type)
