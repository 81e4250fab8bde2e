-- ===== src/SecretTree/Tree/Lost.antt =====
-- mls-rs/src/group/secret_tree.rs: what a tree holds for a leaf after a request that failed.
use mls_rs_wasm_maybe_sync.Common.{
  ℕ, ◌+◌, ◌^◌, ◌<◌, ◌≡◌, refl, sym, ap, subst, List, [], ◌∷◌, ◌++◌, All, Option, none, some, Result,
  ok, err, arith,
}
use mls_rs_wasm_maybe_sync.Common.State.{Method}
use mls_rs_wasm_maybe_sync.TreeMath.{CopathNode, direct_copath}
use mls_rs_wasm_maybe_sync.MlsError.{MlsError, invalid_leaf_consumption, invalid_future_generation}
use mls_rs_wasm_maybe_sync.SecretTree.Derive.{CipherSuite, KeyType, handshake, application}
use mls_rs_wasm_maybe_sync.SecretTree.Ratchet
use mls_rs_wasm_maybe_sync.SecretTree.Ratchet.{
  SecretRatchets, SecretKeyRatchet, MessageKeyData, max_ratchet_back_history, update, on_ratchet,
}
use mls_rs_wasm_maybe_sync.SecretTree.Ratchet.Keys.{get_message_key_window}
use mls_rs_wasm_maybe_sync.SecretTree.Tree.{
  SecretTreeNode, ratchet, SecretTree, take_node, consume_node, consume_path, leaf_node_from_path,
  ratchets_of, take_leaf_ratchet, with_leaf_ratchet, message_key_generation, next_message_key,
}
use mathlib.Core.List.{reverse, reverse-cons}

abbrev ratchet_of : KeyType → SecretRatchets → SecretKeyRatchet
ratchet_of handshake rs = rs.handshake_ratchet
ratchet_of application rs = rs.application_ratchet

-- No node of a path has an entry.
abbrev pub IsConsumed : (ℕ → Option SecretTreeNode) → List CopathNode → Type 0
IsConsumed known path = All (λ i. known i.path ≡ none) path

module _ (cs : CipherSuite) where
  -- The tree without the entry of a leaf.
  abbrev pub without : ℕ → SecretTree → SecretTree
  without i t = record t { known_secrets = update t.known_secrets i none }

  too_far :
      (g : ℕ) (key_type : KeyType) (rs : SecretRatchets)
      → (ratchet_of key_type rs).generation + max_ratchet_back_history < g
      → g < 2 ^ 32
      → (Ratchet.message_key_generation cs g key_type rs).0 ≡ err (invalid_future_generation g)
  unfolding Ratchet.message_key_generation on_ratchet
  too_far g handshake rs far small =
      ap (λ z. z.0) (get_message_key_window cs [] g rs.handshake_ratchet far small)
  too_far g application rs far small =
      ap (λ z. z.0) (get_message_key_window cs [] g rs.application_ratchet far small)

  fails_without :
      (i g : ℕ) (key_type : KeyType) (t : SecretTree) (rs : SecretRatchets) (e : MlsError)
      → t.known_secrets i ≡ some (ratchet rs)
      → (Ratchet.message_key_generation cs g key_type rs).0 ≡ err e
      → message_key_generation cs i key_type g t ≡ (err e, without i t)
  unfolding message_key_generation with_leaf_ratchet take_leaf_ratchet take_node ratchets_of
  fails_without i g key_type t rs e here p = rw (here, p)

  without_kept :
      (known : ℕ → Option SecretTreeNode) (i j : ℕ) → known j ≡ none → update known i none j ≡ none
  without_kept known i j h = ground arith

  IsConsumed-update :
      (known : ℕ → Option SecretTreeNode) (i : ℕ) (path : List CopathNode)
      → IsConsumed known path
      → IsConsumed (update known i none) path
  IsConsumed-update known i [] h = tt
  IsConsumed-update known i (x ∷ path) (p, h) =
      (without_kept known i x.path p, IsConsumed-update known i path h)

  -- On a path without entries nothing is consumed, and no entry comes up.
  consume_none :
      (path : List CopathNode) (t : SecretTree)
      → IsConsumed t.known_secrets path
      → (known : ℕ → Option SecretTreeNode) × (consume_path cs path t
          ≡ (ok tt, record t { known_secrets = known }))
        × ((j : ℕ) → t.known_secrets j ≡ none → known j ≡ none)
  unfolding consume_path consume_node take_node
  consume_none [] t h = (t.known_secrets, refl, λ j p. p)
  consume_none (i ∷ path) t (p, h) =
      let (known, e, k) =
        consume_none path (without i.path t) (IsConsumed-update t.known_secrets i.path path h) in
      (known, rw p e, λ j q. k j (without_kept t.known_secrets i.path j q))

  IsConsumed-snoc :
      (known : ℕ → Option SecretTreeNode) (xs : List CopathNode) (x : CopathNode)
      → IsConsumed known xs
      → known x.path ≡ none
      → IsConsumed known (xs ++ (x ∷ []))
  IsConsumed-snoc known [] x h p = (p, tt)
  IsConsumed-snoc known (y ∷ xs) x (py, h) p = (py, IsConsumed-snoc known xs x h p)

  IsConsumed-reverse :
      (known : ℕ → Option SecretTreeNode) (xs : List CopathNode)
      → IsConsumed known xs
      → IsConsumed known (reverse xs)
  IsConsumed-reverse known [] h = tt
  IsConsumed-reverse known (x ∷ xs) (p, h) =
      subst (IsConsumed known) (sym (reverse-cons x xs))
        (IsConsumed-snoc known (reverse xs) x (IsConsumed-reverse known xs h) p)

  -- The ratchets of a leaf are lost: it has no entry, and neither has a node above it.
  record IsLost (i : ℕ) (path : List CopathNode) (t : SecretTree) : Type 0 where
    no_entry : t.known_secrets i ≡ none
    consumed : IsConsumed t.known_secrets path
    above : direct_copath {E = MlsError} i t.leaf_count ≡ ok path

  IsConsumed-fewer :
      (known known' : ℕ → Option SecretTreeNode)
      → ((j : ℕ) → known j ≡ none → known' j ≡ none)
      → (path : List CopathNode) → IsConsumed known path
      → IsConsumed known' path
  IsConsumed-fewer known known' fewer [] h = tt
  IsConsumed-fewer known known' fewer (x ∷ path) (p, h) =
      (fewer x.path p, IsConsumed-fewer known known' fewer path h)

  -- A call on the ratchets of such a leaf fails, and they stay lost.
  stays-IsLost :
      {A : Type 0} (i : ℕ) (path : List CopathNode) (t : SecretTree)
      (m : Method SecretRatchets MlsError A)
      → IsLost i path t
      → (s : SecretTree) × (with_leaf_ratchet cs i m t ≡ (err invalid_leaf_consumption, s))
        × IsLost i path s
  unfolding with_leaf_ratchet take_leaf_ratchet leaf_node_from_path take_node
  stays-IsLost i path t m h =
      let gone = without_kept t.known_secrets i in
      let (known, e, k) = consume_none (reverse path) (without i t) (
        IsConsumed-update t.known_secrets i (reverse path)
          (IsConsumed-reverse t.known_secrets path h.consumed)) in
      let fewer : (j : ℕ) → t.known_secrets j ≡ none → update known i none j ≡ none =
        λ j p. without_kept known i j (k j (gone j p)) in
      (
        record t { known_secrets = update known i none },
        rw (h.no_entry, h.above, e, k i (gone i h.no_entry)) refl,
        record {
          no_entry = fewer i h.no_entry;
          consumed = IsConsumed-fewer t.known_secrets _ fewer path h.consumed;
          above = h.above;
        },
      )

  -- A request for a message key of a leaf: the next one, or that of a generation.
  pub data Request : Type 0 where
    next_key : KeyType → Request
    key_of : KeyType → ℕ → Request

  abbrev pub answer : ℕ → Request → Method SecretTree MlsError MessageKeyData
  answer i (next_key key_type) = next_message_key cs i key_type
  answer i (key_of key_type generation) = message_key_generation cs i key_type generation

  -- The answers to requests for a leaf, one after the other.
  abbrev pub answers : ℕ → List Request → SecretTree → List (Result MlsError MessageKeyData)
  answers i [] t = []
  answers i (request ∷ requests) t =
      (answer i request t).0 ∷ answers i requests (answer i request t).1

  answer-IsLost :
      (i : ℕ) (path : List CopathNode) (request : Request) (t : SecretTree)
      → IsLost i path t
      → (s : SecretTree) × (answer i request t ≡ (err invalid_leaf_consumption, s))
        × IsLost i path s
  unfolding next_message_key message_key_generation
  answer-IsLost i path (next_key key_type) t h = stays-IsLost i path t _ h
  answer-IsLost i path (key_of key_type generation) t h = stays-IsLost i path t _ h

  answers_lost :
      (i : ℕ) (path : List CopathNode) (requests : List Request) (t : SecretTree)
      → IsLost i path t
      → All (λ r. r ≡ err invalid_leaf_consumption) (answers i requests t)
  answers_lost i path [] t h = tt
  answers_lost i path (request ∷ requests) t h =
      let (s, same, lost) = answer-IsLost i path request t h in
      (
        ap (λ z. z.0) same,
        subst (λ z. All (λ r. r ≡ err invalid_leaf_consumption) (answers i requests z))
            (sym (ap (λ z. z.1) same)) (answers_lost i path requests s lost),
      )

  -- In a tree that holds the ratchets of a leaf and nothing for the nodes above it, a request for a u32
  -- generation beyond the window fails with InvalidFutureGeneration, and afterwards every request of a
  -- sequence of requests for the leaf, for the next key or for that of any generation, fails with
  -- InvalidLeafConsumption.
  pub message_key_generation_lost :
      (i g : ℕ) (key_type : KeyType) (t : SecretTree) (rs : SecretRatchets) (path : List CopathNode)
      (requests : List Request)
      → t.known_secrets i ≡ some (ratchet rs)
      → direct_copath {E = MlsError} i t.leaf_count ≡ ok path
      → IsConsumed t.known_secrets path
      → (ratchet_of key_type rs).generation + max_ratchet_back_history < g
      → g < 2 ^ 32
      → ((message_key_generation cs i key_type g t).0 ≡ err (invalid_future_generation g))
        × All
            (λ r. r ≡ err invalid_leaf_consumption)
            (answers i requests (message_key_generation cs i key_type g t).1)
  message_key_generation_lost i g key_type t rs path requests here p h far small =
      let failed =
        fails_without i g key_type t rs (invalid_future_generation g) here
          (too_far g key_type rs far small) in
      let lost : IsLost i path (without i t) = record {
        no_entry = ground arith;
        consumed = IsConsumed-update t.known_secrets i path h;
        above = p;
      } in
      (
        ap (λ z. z.0) failed,
        subst (λ z. All (λ r. r ≡ err invalid_leaf_consumption) (answers i requests z))
            (sym (ap (λ z. z.1) failed)) (answers_lost i path requests (without i t) lost),
      )
