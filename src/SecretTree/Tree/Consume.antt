-- ===== src/SecretTree/Tree/Consume.antt =====
-- mls-rs/src/group/secret_tree.rs: every method keeps to the secrets of RFC 9420, on every path.
use mls_rs_wasm_maybe_sync.Common.{
  ℕ, zero, suc, ◌+◌, ◌*◌, ◌/◌, ◌%◌, ◌^◌, ◌<◌, ◌≡◌, refl, sym, ap, subst, ◌∙◌, List, [], ◌∷◌, ◌++◌,
  All, Option, none, some, ok, ok_or, gives, fails, breaks, Result-cases, arith,
}
use mls_rs_wasm_maybe_sync.Common.State.{return, After, After-bind, After-lift, lift, ◌>>=◌}
use mls_rs_wasm_maybe_sync.TreeMath.{CopathNode, direct_copath}
use mls_rs_wasm_maybe_sync.TreeMath.Levels.{node_at, left-right-node_at}
use mls_rs_wasm_maybe_sync.TreeMath.Path.{spec_path, direct_copath-spec_path, root-pow}
use mls_rs_wasm_maybe_sync.MlsError.{MlsError, invalid_leaf_consumption}
use mls_rs_wasm_maybe_sync.SecretTree.Derive.{
  map_crypto_err, key_type_label, CipherSuite, KeyType, handshake, application, tree_label,
  left_context, right_context, kdf_expand_with_label,
}
use mls_rs_wasm_maybe_sync.SecretTree.Ratchet.{
  SecretKeyRatchet, SecretRatchets, update, ratchet_new,
}
use mls_rs_wasm_maybe_sync.SecretTree.Tree.{
  SecretTreeNode, secret, ratchet, SecretTree, tree_new, set_node, take_node, child_secrets,
  consume_node, consume_path, ratchets_of, leaf_node_from_path, take_leaf_ratchet,
}
use mls_rs_wasm_maybe_sync.SecretTree.Tree.Secrets.{
  tree_secret, ratchet_secret, AreRatchets, Holds, IsKnown, IsSecretTree, clear-IsKnown,
  put-IsKnown,
}
use mls_rs_wasm_maybe_sync.SecretTree.Ratchet.Chain.{IsRatchet, start-IsRatchet}
use mathlib.Core.List.{reverse, reverse-cons}
use native.Mathlib.Nat.{pow-suc}

module _ (cs : CipherSuite) (s0 : List ℕ) (d : ℕ) where
  abbrev Kept : SecretTree → Type 0
  Kept = IsSecretTree cs s0 d

  unfoldable pub Any {ℓ} : {A : Type ℓ} → A → Type 0
  Any a = Unit

  pub tree_new-IsSecretTree : d < 32 → Kept (tree_new (2 ^ d) s0)
  unfolding tree_new tree_secret
  tree_new-IsSecretTree h = record {
    small = h;
    leaves = refl;
    known =
        subst (λ i. IsKnown cs s0 d (update (λ _. none) i (some (secret s0)))) (sym (root-pow d h))
          (put-IsKnown cs s0 d (λ _. none) d 0 0 (secret s0) h (omega arith) refl nothing);
  }
    where
      nothing : IsKnown cs s0 d (λ _. none)
      nothing = record { holds = λ l n q x e k p. absurd (cc) }

  cleared :
      (t : SecretTree) (i : ℕ)
      → Kept t
      → Kept (record t { known_secrets = update t.known_secrets i none })
  cleared t i k = record {
    small = k.small;
    leaves = k.leaves;
    known = clear-IsKnown cs s0 d t.known_secrets i k.known;
  }

  pub put :
      (t : SecretTree) (l n q : ℕ) (x : SecretTreeNode)
      → l + n ≡ d
      → Holds cs s0 n q x
      → Kept t
      → Kept (record t { known_secrets = update t.known_secrets (node_at l q) (some x) })
  put t l n q x e own k = record {
    small = k.small;
    leaves = k.leaves;
    known = put-IsKnown cs s0 d t.known_secrets l n q x k.small e own k.known;
  }

  child_left :
      (n q : ℕ) (s s' : List ℕ)
      → tree_secret cs s0 n q ≡ ok s
      → kdf_expand_with_label cs s tree_label left_context none ≡ ok s'
      → tree_secret cs s0 (suc n) (2 * q) ≡ ok s'
  unfolding tree_secret
  child_left n q s s' e k =
      let half : 2 * q / 2 ≡ q = omega arith in
      let even : 2 * q % 2 ≡ 0 = omega arith in rw (half, even, e) k

  child_right :
      (n q : ℕ) (s s' : List ℕ)
      → tree_secret cs s0 n q ≡ ok s
      → kdf_expand_with_label cs s tree_label right_context none ≡ ok s'
      → tree_secret cs s0 (suc n) (2 * q + 1) ≡ ok s'
  unfolding tree_secret
  child_right n q s s' e k =
      let half : (2 * q + 1) / 2 ≡ q = omega arith in
      let odd : (2 * q + 1) % 2 ≡ 1 = omega arith in rw (half, odd, e) k

  children-Kept :
      (l n q : ℕ) (s : List ℕ) (t : SecretTree)
      → suc l + n ≡ d
      → tree_secret cs s0 n q ≡ ok s
      → Kept t
      → After Kept Any (child_secrets cs (node_at (suc l) q) s t)
  unfolding child_secrets set_node Any
  children-Kept l n q s t e own k =
      let (lefts, rights) = left-right-node_at l q (omega (arith, k.small)) in
      elim (Result-cases (kdf_expand_with_label cs s tree_label left_context none)) [
        | fails x a ↦ rw (lefts, rights, a) (k, tt)
        | breaks x a ↦ rw (lefts, rights, a) (k, tt)
        | gives sl a ↦
            elim (Result-cases (kdf_expand_with_label cs s tree_label right_context none)) [
              | fails x b ↦ rw (lefts, rights, a, b) (k, tt)
              | breaks x b ↦ rw (lefts, rights, a, b) (k, tt)
              | gives sr b ↦
                  rw (lefts, rights, a, b)
                    (
                      put
                          (record t {
                            known_secrets =
                                update t.known_secrets (node_at l (2 * q)) (some (secret sl));
                          })
                          l (suc n) (2 * q + 1) (secret sr) (omega arith)
                          (child_right n q s sr own b)
                          (put t l (suc n) (2 * q) (secret sl) (omega arith)
                            (child_left n q s sl own a) k),
                      tt,
                    )
            ]
      ]

  consume-Kept :
      (l n q : ℕ) (t : SecretTree)
      → suc l + n ≡ d
      → q < 2 ^ n
      → Kept t
      → After Kept Any (consume_node cs (node_at (suc l) q) t)
  unfolding consume_node Any
  consume-Kept l n q t e h k = on_entry (t.known_secrets (node_at (suc l) q)) refl
    where
      left_over :
          Kept (record t { known_secrets = update t.known_secrets (node_at (suc l) q) none })
      left_over = cleared t (node_at (suc l) q) k

      on_entry :
          (o : Option SecretTreeNode)
          → t.known_secrets (node_at (suc l) q) ≡ o
          → After Kept Any (consume_node cs (node_at (suc l) q) t)
      on_entry none p = rw p (left_over, tt)
      on_entry (some (ratchet rs)) p = rw p (left_over, tt)
      on_entry (some (secret s)) p = rw p (
          children-Kept l n q s
            (record t { known_secrets = update t.known_secrets (node_at (suc l) q) none }) e
            (k.known.holds (suc l) n q (secret s) e h p) left_over)

  -- The nodes of a path that may be consumed: those above the leaves, in the tree.
  abbrev IsInner : CopathNode → Type 0
  IsInner i =
      (l : ℕ) × (n : ℕ) × (q : ℕ) × (suc l + n ≡ d) × (q < 2 ^ n) × (i.path ≡ node_at (suc l) q)

  path-Kept :
      (path : List CopathNode) (t : SecretTree)
      → All IsInner path
      → Kept t
      → After Kept Any (consume_path cs path t)
  unfolding consume_path Any
  path-Kept [] t h k = (k, tt)
  path-Kept (i ∷ path) t ((l, n, q, e, lt, here), h) k =
      After-bind Kept Any Any (λ u. consume_path cs path) (consume_node cs i.path t)
        (subst (λ x. After Kept Any (consume_node cs x t)) (sym here) (consume-Kept l n q t e lt k))
        (λ a s p k' o. path-Kept path s h k')

  spec_path-IsInner : (n l q : ℕ) → l + n ≡ d → q < 2 ^ n → All IsInner (spec_path n l q)
  unfolding spec_path
  spec_path-IsInner zero l q e h = tt
  spec_path-IsInner (suc n) l q e h = (
    (l, n, q / 2, omega arith, omega (arith, pow-suc 2 n), refl),
    spec_path-IsInner n (suc l) (q / 2) (omega arith) (omega (arith, pow-suc 2 n)),
  )

  All-snoc :
      (xs : List CopathNode) (x : CopathNode)
      → All IsInner xs
      → IsInner x
      → All IsInner (xs ++ (x ∷ []))
  All-snoc [] x h k = (k, tt)
  All-snoc (y ∷ xs) x (hy, h) k = (hy, All-snoc xs x h k)

  All-reverse : (xs : List CopathNode) → All IsInner xs → All IsInner (reverse xs)
  All-reverse [] h = tt
  All-reverse (x ∷ xs) (hx, h) =
      subst (All IsInner) (sym (reverse-cons x xs)) (All-snoc (reverse xs) x (All-reverse xs h) hx)

  take-Kept :
      (q : ℕ) (t : SecretTree)
      → q < 2 ^ d
      → Kept t
      → After Kept
          (Holds cs s0 d q)
          ((take_node (node_at 0 q) >>= λ node. lift (ok_or node invalid_leaf_consumption)) t)
  unfolding take_node
  take-Kept q t h k =
      After-lift Kept (Holds cs s0 d q)
        (ok_or (t.known_secrets (node_at 0 q)) invalid_leaf_consumption)
        (record t { known_secrets = update t.known_secrets (node_at 0 q) none })
        (cleared t (node_at 0 q) k) (λ x e. k.known.holds 0 d q x (omega arith) h (ground arith))

  leaf-Kept :
      (q : ℕ) (t : SecretTree)
      → q < 2 ^ d
      → Kept t
      → After Kept (Holds cs s0 d q) (leaf_node_from_path cs (node_at 0 q) t)
  unfolding leaf_node_from_path take_node
  leaf-Kept q t h k =
      let path : direct_copath {E = MlsError} (node_at 0 q) t.leaf_count ≡ ok (spec_path d 0 q) =
        ap (direct_copath (node_at 0 q)) k.leaves
        ∙ direct_copath-spec_path 0 d q d (omega arith) k.small h in
      rw path (
        After-bind Kept Any (Holds cs s0 d q)
          (λ u. take_node (node_at 0 q) >>= λ node. lift (ok_or node invalid_leaf_consumption))
          (consume_path cs (reverse (spec_path d 0 q)) t)
          (path-Kept (reverse (spec_path d 0 q)) t
            (All-reverse (spec_path d 0 q) (spec_path-IsInner d 0 q (omega arith) h)) k)
          (λ a s p k' o. take-Kept q s h k'))

  -- The ratchets of a leaf that the tree gives out.
  abbrev pub LeafRatchets : ℕ → SecretRatchets → Type 0
  LeafRatchets q rs = (s : List ℕ) × (tree_secret cs s0 d q ≡ ok s) × AreRatchets cs s rs

  -- A new ratchet stands at the start of its chain.
  ratchet_new_kept :
      (s : List ℕ) (key_type : KeyType) (r : SecretKeyRatchet)
      → ratchet_new cs s key_type ≡ ok r
      → (a : List ℕ) × (ratchet_secret cs s key_type ≡ ok a) × IsRatchet cs a r
  unfolding ratchet_new ratchet_secret
  ratchet_new_kept s key_type r p =
      elim (Result-cases
        (map_crypto_err (kdf_expand_with_label cs s (key_type_label key_type) [] none))) [
          | fails x a ↦ absurd (ground arith)
          | breaks x a ↦ absurd (ground arith)
          | gives v a ↦
              let same : record { secret = v; generation = 0; history = λ _. none } ≡ r =
                ground arith in
              (v, a, subst (IsRatchet cs v) same (start-IsRatchet cs v))
        ]

  ratchets-Kept :
      (q : ℕ) (x : SecretTreeNode) (t : SecretTree)
      → Holds cs s0 d q x
      → Kept t
      → After Kept (LeafRatchets q) (ratchets_of cs x t)
  unfolding ratchets_of
  ratchets-Kept q (ratchet rs) t own k = (k, own)
  ratchets-Kept q (secret s) t own k =
      let Start : KeyType → SecretKeyRatchet → Type 0 =
        λ kt r. (a : List ℕ) × (ratchet_secret cs s kt ≡ ok a) × IsRatchet cs a r in
      After-bind Kept (Start application) (LeafRatchets q)
        (λ a. lift (ratchet_new cs s handshake) >>= λ h.
          return (record { application_ratchet = a; handshake_ratchet = h }))
        (lift (ratchet_new cs s application) t)
        (After-lift Kept (Start application) (ratchet_new cs s application) t k
          (ratchet_new_kept s application))
        (λ a u p k' app.
          After-bind Kept (Start handshake) (LeafRatchets q)
            (λ h. return (record { application_ratchet = a; handshake_ratchet = h }))
            (lift (ratchet_new cs s handshake) u)
            (After-lift Kept (Start handshake) (ratchet_new cs s handshake) u k'
              (ratchet_new_kept s handshake))
            (λ h v p' k'' hand. (
              k'',
              (
                s,
                own,
                record {
                  app_secret = app.0;
                  app_start = app.1;
                  app_chain = app.2;
                  hand_secret = hand.0;
                  hand_start = hand.1;
                  hand_chain = hand.2;
                },
              ),
            )))

  -- Taking the ratchets of a leaf keeps the tree to its secrets, and the ratchets are those of the leaf.
  pub take_leaf_ratchet-Kept :
      (q : ℕ) (t : SecretTree)
      → q < 2 ^ d
      → Kept t
      → After Kept (LeafRatchets q) (take_leaf_ratchet cs (node_at 0 q) t)
  unfolding take_leaf_ratchet take_node
  take_leaf_ratchet-Kept q t h k = on_entry (t.known_secrets (node_at 0 q)) refl
    where
      rest : SecretTree
      rest = record t { known_secrets = update t.known_secrets (node_at 0 q) none }

      on_entry :
          (o : Option SecretTreeNode)
          → t.known_secrets (node_at 0 q) ≡ o
          → After Kept (LeafRatchets q) (take_leaf_ratchet cs (node_at 0 q) t)
      on_entry none p = rw p (
          After-bind Kept (Holds cs s0 d q) (LeafRatchets q) (ratchets_of cs)
            (leaf_node_from_path cs (node_at 0 q) rest)
            (leaf-Kept q rest h (cleared t (node_at 0 q) k))
            (λ x u e k' own. ratchets-Kept q x u own k'))
      on_entry (some x) p = rw p (
          ratchets-Kept q x rest (k.known.holds 0 d q x (omega arith) h p)
            (cleared t (node_at 0 q) k))
