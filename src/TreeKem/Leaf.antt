-- ===== src/TreeKem/Leaf.antt =====
-- mls-rs/src/tree_kem/leaf_node.rs, with mls-rs-core/src/identity and group/roster.rs: what a leaf of the
-- ratchet tree holds. A type of a protocol version, cipher suite, extension, proposal or credential is its
-- number.
use mls_rs_wasm_maybe_sync.Common.{ℕ, List}
use mls_rs_wasm_maybe_sync.Extension.List.{ExtensionList}

pub data Credential : Type 0 where
  basic : List ℕ → Credential
  x509 : List (List ℕ) → Credential
  custom : ℕ → List ℕ → Credential

-- `Credential::credential_type`, with `CredentialType::BASIC` and `CredentialType::X509`
abbrev pub credential_type : Credential → ℕ
credential_type (basic identifier) = 1
credential_type (x509 chain) = 2
credential_type (custom t bytes) = t

pub record SigningIdentity : Type 0 where
  pub signature_key : List ℕ
  pub credential : Credential

pub record Capabilities : Type 0 where
  pub protocol_versions : List ℕ
  pub cipher_suites : List ℕ
  pub extensions : List ℕ
  pub proposals : List ℕ
  pub credentials : List ℕ

pub record Lifetime : Type 0 where
  pub not_before : ℕ
  pub not_after : ℕ

pub data LeafNodeSource : Type 0 where
  key_package : Lifetime → LeafNodeSource
  update : LeafNodeSource
  commit : List ℕ → LeafNodeSource

pub record LeafNode : Type 0 where
  pub public_key : List ℕ
  pub signing_identity : SigningIdentity
  pub capabilities : Capabilities
  pub leaf_node_source : LeafNodeSource
  pub extensions : ExtensionList
  pub signature : List ℕ
