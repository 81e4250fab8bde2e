-- ===== src/Lib.antt =====
-- A model of the core of mls-rs, an implementation of Messaging Layer Security (RFC 9420).
--
-- The program. A group is a ratchet tree (mls-rs/src/tree_kem) whose leaves are the members. The
-- tree is a vector of nodes addressed by the index arithmetic of mls-rs/src/tree_kem/math.rs. From
-- an epoch's encryption secret a secret tree (mls-rs/src/group/secret_tree.rs) derives a ratchet of
-- message keys for each leaf, along the same index arithmetic. The epochs that are past are kept by
-- a repository (mls-rs/src/group/state_repo.rs), which holds them back until a commit of the group
-- is written to a storage, such as the one in memory (mls-
-- rs/src/storage_provider/in_memory/group_state_storage.rs). All that is stored, sent or hashed goes
-- through the codec (mls-rs-codec/src), and contexts, leaves and messages carry extension lists
-- (mls-rs-core/src/extension). A commit edits the tree by a bundle of proposals (batch_edit of mls-
-- rs/src/tree_kem/mod.rs), which keeps an index of the leaves in step with the nodes. A private message
-- is padded, and encrypted under a key of the secret tree.
--
-- Files and code.
--   Codec: mls-rs-codec/src. Codec/Traits has the errors and the three traits as one record; Codec/Varint
--     is varint.rs, Codec/Collection is iter.rs and vec.rs, Codec/Types is array.rs, stdint.rs, option.rs,
--     tuple.rs and byte_vec.rs.
--   Extension: mls-rs-core/src/extension.rs (Extension/Defs) and extension/list.rs (Extension/List).
--   TreeMath: mls-rs/src/tree_kem/math.rs.
--   TreeKem: mls-rs/src/tree_kem/node.rs (TreeKem/Nodes) and tree_index.rs (TreeKem/Index), with the data of
--     leaf_node.rs (TreeKem/Leaf), and mod.rs: TreeKem/Public has TreeKemPublic with its views and the adding
--     of leaves, TreeKem/Public/Edits its batch_edit with
--     the removals (TreeKem/Public/Removals) and the updates (TreeKem/Public/UpdateEdits),
--     TreeKem/Public/UpdatePath its apply_update_path with the data of update_path.rs. TreeKem/Lifetimes is lifetime.rs.
--   Proposals: the data of a commit's proposals, of mls-rs/src/group/proposal_filter/bundle.rs and framing.rs.
--   Message: mls-rs/src/group/padding.rs (Message/Padding) and group/ciphertext_processor (Message/ReuseGuard,
--     Message/SenderData with message_key.rs).
--   SecretTree: mls-rs/src/group/secret_tree.rs, with kdf_expand_with_label of key_schedule.rs
--     (SecretTree/Derive); SecretTree/Ratchet is one ratchet, SecretTree/Tree the tree.
--   GroupState: mls-rs-core/src/group/group_state.rs (GroupState/Records), the storage in memory
--     (GroupState/InMemory) and the repository over any storage (GroupState/Repository).
--   MlsError: the errors of mls-rs/src/client.rs that this code returns.
--   Common: lists over the native numbers, results, bit operations, stateful methods.
--
-- A function has the name of its Rust function. A method with &mut self takes the state and returns it
-- beside its result, also on an error, so what an early return leaves behind is part of the model. A result
-- is a value, an error of the code, or a fault: a panic, or a loop that has run out of its rounds.
--
-- Bounds and rounds. u32 and u64 wrap as in a release build and a shift takes its distance modulo
-- the width; usize has 64 bits (a u64 becomes one unchanged, which a 32-bit target would cut), and
-- lengths are unbounded. A walk over the levels of a tree of u32 indices has 33 rounds, one for
-- each level and one to end. The skip of a ratchet has 1024 rounds, the width of its window. The
-- loop that decodes a vector has a round for each byte, since each item takes one at least. The
-- search for a resolution has 2 ^ (l + 1) rounds at level l, more than there are nodes below. trim
-- has a round for each node. The next power of two is looked for among the 64 of a usize of 64
-- bits, and so are the zeros behind it (Message/Padding).
--
-- Parameters. The identity provider is a function (TreeKem/Index and TreeKem/Public); the theorems on a tree
-- ask that it does not panic, which is `Returns`. The cipher suite is a record of its operations
-- (SecretTree/Derive), and so is its AEAD (Message/SenderData), of which `Opens` states that it opens what
-- it sealed. The clock is an argument (TreeKem/Lifetimes). The encodings that the derive macro generates are parameters
-- where they are used (GroupState/Repository); for Extension and the label of the key schedule they
-- are written out from the attributes of the struct.
--
-- Not modelled: the cryptographic providers and the code that calls them for signatures and HPKE,
-- async and mutexes (a call is one step), the allocation ahead of an encoding (the feature
-- preallocate), Debug and serde instances, the sqlite storage, the bindings, and the encoding of
-- stored ratchets. batch_edit and apply_update_path end before the update of the hashes. The
-- hashes, the encryption of path secrets, the filtering of proposals and the handling of commits,
-- the validation of trees and leaf nodes, and the framing and signing of messages are left out as
-- well.
pub mod Common
pub mod Codec
pub mod Extension
pub mod TreeMath
pub mod MlsError
pub mod SecretTree
pub mod TreeKem
pub mod GroupState
pub mod Message
pub mod Proposals
