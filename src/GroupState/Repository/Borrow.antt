-- ===== src/GroupState/Repository/Borrow.antt =====
-- mls-rs/src/group/state_repo.rs: an epoch that is borrowed or read is the one asked for.
use mls_rs_wasm_maybe_sync.Common.{
  ℕ, ◌-◌, ◌≡◌, ◌≢◌, refl, sym, ap, subst, ◌∙◌, List, [], ◌∷◌, ◌++◌, length, get_elem?, Bool-cases,
  true, false, Option, none, some, Option-cases, Result, ok, err, fault, gives, fails, breaks,
  Result-cases, arith, inl, inr,
}
use mls_rs_wasm_maybe_sync.Codec.{Codec}
use mls_rs_wasm_maybe_sync.MlsError.{MlsError}
use mls_rs_wasm_maybe_sync.GroupState.Records.{GroupStateStorage}
use mls_rs_wasm_maybe_sync.GroupState.Runs.{IsRun, IsRun-get_elem?}
use mls_rs_wasm_maybe_sync.GroupState.Repository.{
  PriorEpoch, epoch_id, GroupStateRepository, find_pending, is_insert, insert_place, Slot,
  in_inserts, in_updates, borrow, push_update, load, get_epoch_mut, resumption_secret,
}
use mls_rs_wasm_maybe_sync.GroupState.Repository.Pending.{
  IsPending, AreDistinct-snoc, find_pending_place,
}

-- The place in the inserts cache is that of the epoch with the number.
place_number :
    (xs : List PriorEpoch) (k first : ℕ) (e : PriorEpoch)
    → IsRun epoch_id first xs
    → is_insert xs k ≡ true
    → get_elem? xs (insert_place xs k) ≡ some e
    → epoch_id e ≡ k
place_number [] k first e run hit there = absurd (cc)
place_number (x ∷ xs) k first e (hx, run) hit there =
    let number = IsRun-get_elem? epoch_id first (k - epoch_id x) (x ∷ xs) e (hx, run) there in
    ground (arith, number)

pub place_of :
    (xs : List PriorEpoch) (i first : ℕ) (e : PriorEpoch)
    → IsRun epoch_id first xs
    → get_elem? xs i ≡ some e
    → (is_insert xs (epoch_id e) ≡ true) × (get_elem? xs (insert_place xs (epoch_id e)) ≡ some e)
place_of [] i first e run there = absurd (ground arith)
place_of (x ∷ xs) i first e (hx, run) there =
    let number = IsRun-get_elem? epoch_id first i (x ∷ xs) e (hx, run) there in
    let place : epoch_id e - epoch_id x ≡ i = omega (arith, number, hx) in
    (ground (arith, number, hx), subst (λ j. get_elem? (x ∷ xs) j ≡ some e) (sym place) there)

-- The storage gives under a number an epoch of that number.
abbrev pub IsFaithful : {S : Type 0} → GroupStateStorage S → Codec PriorEpoch → S → List ℕ → Type 0
IsFaithful gs codec s group =
    (k : ℕ) (e : PriorEpoch) → load codec gs s group k ≡ ok (some e) → epoch_id e ≡ k

get_elem?-snoc :
    (xs : List PriorEpoch) (e : PriorEpoch) → get_elem? (xs ++ (e ∷ [])) (length xs) ≡ some e
get_elem?-snoc [] e = refl
get_elem?-snoc (x ∷ xs) e = get_elem?-snoc xs e

module _ {S K : Type 0} (gs : GroupStateStorage S) (codec : Codec PriorEpoch) where
  -- What `get_epoch_mut` has done.
  data Borrowed (k : ℕ) (r : GroupStateRepository S K) : Type 0 where
    pending :
        (slot : Slot) (e : PriorEpoch)
        → borrow r slot ≡ some e
        → epoch_id e ≡ k
        → get_epoch_mut gs codec k r ≡ (ok (some slot), r)
        → Borrowed k r
    loaded :
        (e : PriorEpoch)
        → load codec gs r.storage r.group_id k ≡ ok (some e)
        → find_pending r.pending_commit.updates k ≡ none
        → get_epoch_mut gs codec k r
          ≡ (ok (some (in_updates (length r.pending_commit.updates))), push_update e r)
        → Borrowed k r
    missing :
        (x : Result MlsError (Option Slot))
        → ((slot : Slot) → x ≢ ok (some slot))
        → get_epoch_mut gs codec k r ≡ (x, r)
        → Borrowed k r

  from_inserts :
      (k : ℕ) (r : GroupStateRepository S K)
      → IsPending r
      → is_insert r.pending_commit.inserts k ≡ true
      → Borrowed k r
  unfolding get_epoch_mut
  from_inserts k r h hit =
      elim (Option-cases
        (get_elem? r.pending_commit.inserts (insert_place r.pending_commit.inserts k))) [
          | inl nothing ↦ missing (ok none) (λ s q. cc) (rw (hit, nothing))
          | inr (e, there) ↦
              pending (in_inserts (insert_place r.pending_commit.inserts k)) e there
                (place_number r.pending_commit.inserts k h.first e h.run hit there)
                (rw (hit, there))
        ]

  from_updates :
      (k : ℕ) (r : GroupStateRepository S K)
      → is_insert r.pending_commit.inserts k ≡ false
      → Borrowed k r
  unfolding get_epoch_mut
  from_updates k r miss = elim (Option-cases (find_pending r.pending_commit.updates k)) [
    | inr (i, place) ↦
        let (e, there, number) = find_pending_place r.pending_commit.updates k i place in
        pending (in_updates i) e there number (rw (miss, place))
    | inl new ↦ elim (Result-cases (load codec gs r.storage r.group_id k)) [
      | fails x q ↦ missing (err x) (λ s p. cc) (rw (miss, new, q))
      | breaks x q ↦ missing (fault x) (λ s p. cc) (rw (miss, new, q))
      | gives o q ↦ elim (Option-cases o) [
        | inl nothing ↦ missing (ok none) (λ s p. cc) (rw (miss, new, q, nothing))
        | inr (e, some_e) ↦ loaded e (q ∙ ap ok some_e) new (rw (miss, new, q, some_e))
      ]
    ]
  ]

  Borrowed-cases : (k : ℕ) (r : GroupStateRepository S K) → IsPending r → Borrowed k r
  Borrowed-cases k r h = elim (Bool-cases (is_insert r.pending_commit.inserts k)) [
    | inl hit ↦ from_inserts k r h hit
    | inr miss ↦ from_updates k r miss
  ]

  -- On pending epochs numbered without gaps and over a storage that gives under a number an epoch of that
  -- number, a slot that get_epoch_mut returns refers to an epoch of the number asked for, and the pending
  -- epochs stay as required, also when the call fails.
  pub get_epoch_mut_lem :
      (k : ℕ) (r : GroupStateRepository S K)
      → IsPending r
      → IsFaithful gs codec r.storage r.group_id
      → IsPending (get_epoch_mut gs codec k r).1
        × ((slot : Slot)
            → (get_epoch_mut gs codec k r).0 ≡ ok (some slot)
            → (e : PriorEpoch) × (borrow (get_epoch_mut gs codec k r).1 slot ≡ some e)
              × (epoch_id e ≡ k))
  get_epoch_mut_lem k r h faithful = elim (Borrowed-cases k r h) [
    | pending slot e there number q ↦
        returned (λ z. IsPending z.1 × Answers z) (sym q)
          (h, λ s p. (e, subst (λ t. borrow r t ≡ some e) (slot_of p) there, number))
    | loaded e stored new q ↦
        returned (λ z. IsPending z.1 × Answers z) (sym q)
          (
            record {
              first = h.first;
              run = h.run;
              own = h.own;
              distinct =
                  AreDistinct-snoc r.pending_commit.updates e h.distinct
                    (rw (faithful k e stored) new);
            },
            λ s p. (
              e,
              subst (λ t. borrow (push_update e r) t ≡ some e) (slot_of p)
                  (get_elem?-snoc r.pending_commit.updates e),
              faithful k e stored,
            ),
          )
    | missing x bad q ↦
        returned (λ z. IsPending z.1 × Answers z) (sym q) (h, λ s p. absurd (bad s p))
  ]
    where
      returns_slot : Slot → Result MlsError (Option Slot)
      returns_slot a = ok (some a)

      slot_of : {a b : Slot} → returns_slot a ≡ returns_slot b → a ≡ b
      slot_of p = cc p

      Answers : Result MlsError (Option Slot) × GroupStateRepository S K → Type 0
      Answers z =
          (s : Slot)
          → z.0 ≡ ok (some s)
          → (e : PriorEpoch) × (borrow z.1 s ≡ some e) × (epoch_id e ≡ k)

      returned :
          (P : Result MlsError (Option Slot) × GroupStateRepository S K → Type 0)
          {y z : Result MlsError (Option Slot) × GroupStateRepository S K}
          → y ≡ z
          → P y
          → P z
      returned P p u = subst P p u

  -- On pending epochs numbered without gaps, the resumption secret of a pending insert is found under its
  -- number, whatever group the request names.
  pub resumption_secret_any_group :
      (r : GroupStateRepository S K) (i : ℕ) (e : PriorEpoch) (any_group : List ℕ)
      → IsPending r
      → get_elem? r.pending_commit.inserts i ≡ some e
      → resumption_secret gs codec r (record { psk_group_id = any_group; psk_epoch = epoch_id e })
        ≡ ok (some e.secrets.resumption_secret)
  unfolding resumption_secret
  resumption_secret_any_group r i e any_group h there =
      let (hit, place) = place_of r.pending_commit.inserts i h.first e h.run there in
      rw (hit, place)
