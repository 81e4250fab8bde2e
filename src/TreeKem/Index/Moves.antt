-- ===== src/TreeKem/Index/Moves.antt =====
-- mls-rs/src/tree_kem/tree_index.rs: an index does not depend on the order of the members.
use mls_rs_wasm_maybe_sync.Common.{
  ℕ, suc, ◌≡◌, refl, sym, ap, ◌∙◌, List, [], ◌∷◌, ◌++◌, length, bytes_eq, bytes_eq→eq, All,
  if◌then◌else◌, Bool, Bool-cases, false, some, arith, inl, inr,
}
use mls_rs_wasm_maybe_sync.TreeKem.Index.{TreeIndex}
use mls_rs_wasm_maybe_sync.TreeKem.Index.Keys.{bytes_eq_apart}
use mls_rs_wasm_maybe_sync.TreeKem.Index.Owners.{
  Member, signature_key_of, hpke_key_of, identity_of, supports, uses, supports_proposal, owner,
  tally, owner_hit, owner_miss, AreDifferent, AreApart,
}
use mls_rs_wasm_maybe_sync.TreeKem.Index.Members.{IsIndexOf}

tally-move :
    (p : Member → Bool) (m : Member) (xs ys : List Member)
    → tally p (xs ++ (m ∷ ys)) ≡ tally p (m ∷ xs ++ ys)
tally-move p m [] ys = refl
tally-move p m (x ∷ xs) ys = omega (arith, tally-move p m xs ys)

length-move : (m : Member) (xs ys : List Member) → length (xs ++ (m ∷ ys)) ≡ length (m ∷ xs ++ ys)
length-move m [] ys = refl
length-move m (x ∷ xs) ys = ap suc (length-move m xs ys)

All-move :
    (P : Member → Type 0) (m : Member) (xs ys : List Member)
    → All P (m ∷ xs ++ ys)
    → All P (xs ++ (m ∷ ys))
All-move P m [] ys h = h
All-move P m (x ∷ xs) ys (p, (q, h)) = (q, All-move P m xs ys (p, h))

All-back :
    (P : Member → Type 0) (m : Member) (xs ys : List Member)
    → All P (xs ++ (m ∷ ys))
    → All P (m ∷ xs ++ ys)
All-back P m [] ys h = h
All-back P m (x ∷ xs) ys (q, h) = let rest = All-back P m xs ys h in (rest.0, (q, rest.1))

different : (m x : Member) → AreDifferent m x → AreDifferent x m
different m x (s, h, i) = (
  bytes_eq_apart (signature_key_of x) (signature_key_of m) s,
  bytes_eq_apart (hpke_key_of x) (hpke_key_of m) h,
  bytes_eq_apart x.identity m.identity i,
)

AreApart-move :
    (m : Member) (xs ys : List Member) → AreApart (m ∷ xs ++ ys) → AreApart (xs ++ (m ∷ ys))
AreApart-move m [] ys h = h
AreApart-move m (x ∷ xs) ys ((d, away), (others, h)) =
    (All-move (AreDifferent x) m xs ys (different m x d, others), AreApart-move m xs ys (away, h))

AreApart-back :
    (m : Member) (xs ys : List Member) → AreApart (xs ++ (m ∷ ys)) → AreApart (m ∷ xs ++ ys)
AreApart-back m [] ys h = h
AreApart-back m (x ∷ xs) ys (away, h) =
    let (mine, others) = All-back (AreDifferent x) m xs ys away in
    let rest = AreApart-back m xs ys h in ((different x m mine, rest.0), (others, rest.1))

owner-move :
    (key : Member → List ℕ) (m : Member) (xs ys : List Member) (k : List ℕ)
    → All (λ x. bytes_eq (key x) (key m) ≡ false) (xs ++ ys)
    → owner key (xs ++ (m ∷ ys)) k ≡ owner key (m ∷ xs ++ ys) k
unfolding owner
owner-move key m [] ys k h = refl
owner-move key m (x ∷ xs) ys k (other, h) = elim (Bool-cases (bytes_eq (key x) k)) [
  | inl hit ↦
      let missed : bytes_eq (key m) k ≡ false =
        bytes_eq_apart k (key m)
          (ap (λ z. bytes_eq z (key m)) (sym (bytes_eq→eq _ _ hit)) ∙ other) in
      owner_hit key x _ k hit
      ∙ sym (owner_miss key m (x ∷ xs ++ ys) k missed ∙ owner_hit key x (xs ++ ys) k hit)
  | inr miss ↦
      owner_miss key x _ k miss
      ∙ owner-move key m xs ys k h
      ∙ ap (λ rest. if bytes_eq (key m) k then some m.index else rest)
          (sym (owner_miss key x _ k miss))
]

pub map-All :
    {P Q : Member → Type 0} (ms : List Member) → ((x : Member) → P x → Q x) → All P ms → All Q ms
map-All [] f h = tt
map-All (x ∷ xs) f (p, h) = (f x p, map-All xs f h)

-- The index does not depend on the place of the first member in the list.
pub IsIndexOf-move :
    (t : TreeIndex) (m : Member) (xs ys : List Member)
    → IsIndexOf t (m ∷ xs ++ ys)
    → IsIndexOf t (xs ++ (m ∷ ys))
IsIndexOf-move t m xs ys h =
    let away = h.apart.0 in
    record {
      signature_keys = λ k.
          h.signature_keys k ∙ sym (owner-move _ m xs ys k (map-All (xs ++ ys) (λ x d. d.0) away));
      hpke_keys =
          λ k. h.hpke_keys k ∙ sym (owner-move _ m xs ys k (map-All (xs ++ ys) (λ x d. d.1) away));
      identities = λ k.
          h.identities k
          ∙ sym (owner-move identity_of m xs ys k (map-All (xs ++ ys) (λ x d. d.2) away));
      size = h.size ∙ sym (length-move m xs ys);
      supported = λ c. h.supported c ∙ sym (tally-move (supports c) m xs ys);
      used = λ c. h.used c ∙ sym (tally-move (uses c) m xs ys);
      keyed = h.keyed;
      proposals = λ p. h.proposals p ∙ sym (tally-move (supports_proposal p) m xs ys);
      apart = AreApart-move m xs ys h.apart;
      once = h.once;
    }

pub IsIndexOf-back :
    (t : TreeIndex) (m : Member) (xs ys : List Member)
    → IsIndexOf t (xs ++ (m ∷ ys))
    → IsIndexOf t (m ∷ xs ++ ys)
IsIndexOf-back t m xs ys h =
    let apart : AreApart (m ∷ xs ++ ys) = AreApart-back m xs ys h.apart in
    let away = apart.0 in
    record {
      signature_keys =
          λ k. h.signature_keys k ∙ owner-move _ m xs ys k (map-All (xs ++ ys) (λ x d. d.0) away);
      hpke_keys =
          λ k. h.hpke_keys k ∙ owner-move _ m xs ys k (map-All (xs ++ ys) (λ x d. d.1) away);
      identities = λ k.
          h.identities k ∙ owner-move identity_of m xs ys k (map-All (xs ++ ys) (λ x d. d.2) away);
      size = h.size ∙ length-move m xs ys;
      supported = λ c. h.supported c ∙ tally-move (supports c) m xs ys;
      used = λ c. h.used c ∙ tally-move (uses c) m xs ys;
      keyed = h.keyed;
      proposals = λ p. h.proposals p ∙ tally-move (supports_proposal p) m xs ys;
      apart = apart;
      once = h.once;
    }
