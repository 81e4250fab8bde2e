-- ===== src/TreeKem/Public/Invariant.antt =====
-- mls-rs/src/tree_kem/mod.rs: the index of a tree tells what a walk over the leaves of its nodes would.
use mls_rs_wasm_maybe_sync.Common.{
  ℕ, suc, ◌+◌, ◌*◌, ◌^◌, ◌≤◌, ◌<◌, ◌≡◌, refl, sym, ap, subst, ◌∙◌, List, [], ◌∷◌, ◌++◌, map, length,
  All, Result, ok, arith,
}
use mls_rs_wasm_maybe_sync.MlsError.{MlsError}
use mls_rs_wasm_maybe_sync.TreeKem.Leaf.{LeafNode}
use mls_rs_wasm_maybe_sync.TreeKem.Nodes.{NodeVec, non_empty_leaves}
use mls_rs_wasm_maybe_sync.TreeKem.Nodes.Walks.{
  leaf_at, AreApartAt, non_empty_leaves-IsAmong, non_empty_leaves_same, length-non_empty_leaves,
}
use mls_rs_wasm_maybe_sync.TreeKem.Index.{TreeIndex, remove}
use mls_rs_wasm_maybe_sync.TreeKem.Index.Owners.{Member}
use mls_rs_wasm_maybe_sync.TreeKem.Index.Members.{IsIndexOf}
use mls_rs_wasm_maybe_sync.TreeKem.Index.Moves.{IsIndexOf-move}
use mls_rs_wasm_maybe_sync.TreeKem.Index.Removal.{remove-IsIndexOf}
use mls_rs_wasm_maybe_sync.TreeKem.Index.Walk.{entry}
use mls_rs_wasm_maybe_sync.TreeKem.Public.{TreeKemPublic, IdentityOf}

-- The members are the leaves with the identities that the provider gives for them.
pub record AreMembers (identity : IdentityOf) (nodes : NodeVec) (ms : List Member) : Type 0 where
  pub walked : map entry ms ≡ non_empty_leaves nodes
  pub named : All (λ m. identity m.leaf.signing_identity ≡ ok m.identity) ms

pub record IsTree (identity : IdentityOf) (t : TreeKemPublic) : Type 0 where
  pub members : List Member
  pub listed : AreMembers identity t.nodes members
  pub indexed : IsIndexOf t.index members

length-map-entry : (ms : List Member) → length (map entry ms) ≡ length ms
length-map-entry [] = refl
length-map-entry (m ∷ ms) = ap suc (length-map-entry ms)

pub length-members :
    (identity : IdentityOf) (nodes : NodeVec) (ms : List Member)
    → AreMembers identity nodes ms
    → length ms * 2 ≤ length nodes + 1
length-members identity nodes ms h = omega (
  arith,
  length-map-entry ms,
  ap (λ (ls : List (ℕ × LeafNode)). length ls) h.walked,
  length-non_empty_leaves nodes,
)

-- The members before and after a place of the walk.
record Split (ms : List Member) (xs ys : List (ℕ × LeafNode)) : Type 0 where
  first : List Member
  second : List Member
  whole : ms ≡ first ++ second
  first_walked : map entry first ≡ xs
  second_walked : map entry second ≡ ys

split : (ms : List Member) (xs ys : List (ℕ × LeafNode)) → map entry ms ≡ xs ++ ys → Split ms xs ys
split ms [] ys h = record {
  first = [];
  second = ms;
  whole = refl;
  first_walked = refl;
  second_walked = h;
}
split [] (x ∷ xs) ys h = absurd (cc)
split (m ∷ ms) (x ∷ xs) ys h =
    let rest : Split ms xs ys = split ms xs ys (cc) in
    let head : entry m ≡ x = cc in
    record {
      first = m ∷ rest.first;
      second = rest.second;
      whole = ap (λ z. m ∷ z) rest.whole;
      first_walked = rw (head, rest.first_walked);
      second_walked = rest.second_walked;
    }

uncons :
    (ms : List Member) (x : ℕ × LeafNode) (ys : List (ℕ × LeafNode))
    → map entry ms ≡ x ∷ ys
    → (m : Member) × (rest : List Member) × (ms ≡ m ∷ rest) × (entry m ≡ x) × (map entry rest ≡ ys)
uncons [] x ys h = absurd (cc)
uncons (m ∷ ms) x ys h = (m, ms, refl, cc, cc)

map-append : (xs ys : List Member) → map entry (xs ++ ys) ≡ map entry xs ++ map entry ys
map-append [] ys = refl
map-append (x ∷ xs) ys = ap (λ z. entry x ∷ z) (map-append xs ys)

All-insert :
    (P : Member → Type 0) (m : Member) (xs ys : List Member)
    → P m
    → All P (xs ++ ys)
    → All P (xs ++ (m ∷ ys))
All-insert P m [] ys p h = (p, h)
All-insert P m (x ∷ xs) ys p (q, h) = (q, All-insert P m xs ys p h)

All-without :
    (P : Member → Type 0) (m : Member) (xs ys : List Member)
    → All P (xs ++ (m ∷ ys))
    → P m × All P (xs ++ ys)
All-without P m [] ys h = h
All-without P m (x ∷ xs) ys (q, h) = let rest = All-without P m xs ys h in (rest.0, (q, rest.1))

module _ (identity : IdentityOf) where
  -- A new leaf at a blank place, when the index has taken it as a member.
  pub inserted-IsTree :
      (new : Member) (nodes nodes' : NodeVec) (index : TreeIndex) (ms : List Member)
      → AreMembers identity nodes ms
      → identity new.leaf.signing_identity ≡ ok new.identity
      → AreApartAt new.index new.leaf nodes nodes'
      → IsIndexOf index (new ∷ ms)
      → IsTree identity (record { index = index; nodes = nodes' })
  inserted-IsTree new nodes nodes' index ms h knows apart indexed =
      let among = non_empty_leaves-IsAmong new.index new.leaf nodes nodes' apart in
      let s : Split ms among.before among.after =
        split ms among.before among.after (h.walked ∙ among.without) in
      let place : new.index ≡ 0 + new.index = omega arith in
      record {
        members = s.first ++ (new ∷ s.second);
        listed = record {
          walked =
              map-append s.first (new ∷ s.second)
              ∙ ap (λ z. z ++ (entry new ∷ map entry s.second)) s.first_walked
              ∙ ap (λ z. among.before ++ (entry new ∷ z)) s.second_walked
              ∙ ap (λ z. among.before ++ ((z, new.leaf) ∷ among.after)) place
              ∙ sym among.within;
          named =
              All-insert _ new s.first s.second knows (
                subst (All (λ m. identity m.leaf.signing_identity ≡ ok m.identity)) s.whole
                  h.named);
        };
        indexed =
            IsIndexOf-move index new s.first s.second
              (subst (λ z. IsIndexOf index (new ∷ z)) s.whole indexed);
      }

  -- A leaf that becomes blank, when the index forgets it.
  pub removed-IsTree :
      (place : ℕ) (l : LeafNode) (id : List ℕ) (t : TreeKemPublic) (nodes' : NodeVec)
      → IsTree identity t
      → identity l.signing_identity ≡ ok id
      → AreApartAt place l nodes' t.nodes
      → length t.nodes < 2 ^ 32
      → IsTree identity (record { index = remove l id t.index; nodes = nodes' })
  removed-IsTree place l id t nodes' h knows apart small =
      let among = non_empty_leaves-IsAmong place l nodes' t.nodes apart in
      let s : Split h.members among.before ((0 + place, l) ∷ among.after) =
        split h.members among.before ((0 + place, l) ∷ among.after)
          (h.listed.walked ∙ among.within) in
      let (m, rest, second, there, rest_walked) = uncons s.second _ _ s.second_walked in
      let whole : h.members ≡ s.first ++ (m ∷ rest) = s.whole ∙ ap (λ z. s.first ++ z) second in
      let known : (identity m.leaf.signing_identity ≡ ok m.identity)
          × All (λ m. identity m.leaf.signing_identity ≡ ok m.identity) (s.first ++ rest) =
        All-without _ m s.first rest (
          subst (All (λ m. identity m.leaf.signing_identity ≡ ok m.identity)) whole
            h.listed.named) in
      let leaf_is : m.leaf ≡ l = ap (λ e. e.1) there in
      let same : m.identity ≡ id =
        named_same m.identity
          (sym known.0 ∙ ap (λ z. identity z.signing_identity) leaf_is ∙ knows) in
      let count : length (s.first ++ rest) * 2 ≤ length t.nodes + 1 = omega (
        arith,
        shorter m s.first rest,
        ap (λ (z : List Member). length z) whole,
        length-members identity t.nodes h.members h.listed,
      ) in
      record {
        members = s.first ++ rest;
        listed = record {
          walked =
              map-append s.first rest
              ∙ ap (λ z. z ++ map entry rest) s.first_walked
              ∙ ap (λ z. among.before ++ z) rest_walked
              ∙ sym among.without;
          named = known.1;
        };
        indexed =
            subst (λ z. IsIndexOf (remove l z t.index) (s.first ++ rest)) same
              (subst (λ z. IsIndexOf (remove z m.identity t.index) (s.first ++ rest)) leaf_is
                (remove-IsIndexOf m s.first rest t.index
                  (subst (λ z. IsIndexOf t.index z) whole h.indexed)
                  (omega (arith, count, small))));
      }
    where
      given : List ℕ → Result MlsError (List ℕ)
      given a = ok a

      named_same : (a : List ℕ) → given a ≡ given id → a ≡ id
      named_same a h = cc

      shorter :
          (m : Member) (xs ys : List Member) → length (xs ++ (m ∷ ys)) ≡ suc (length (xs ++ ys))
      shorter m [] ys = refl
      shorter m (x ∷ xs) ys = ap suc (shorter m xs ys)

  -- A change of the nodes that leaves every leaf.
  pub same_leaves-IsTree :
      (t : TreeKemPublic) (nodes' : NodeVec)
      → IsTree identity t
      → ((i : ℕ) → leaf_at nodes' i ≡ leaf_at t.nodes i)
      → IsTree identity (record t { nodes = nodes' })
  same_leaves-IsTree t nodes' h same = record {
    members = h.members;
    listed = record {
      walked = h.listed.walked ∙ sym (non_empty_leaves_same nodes' t.nodes same);
      named = h.listed.named;
    };
    indexed = h.indexed;
  }
