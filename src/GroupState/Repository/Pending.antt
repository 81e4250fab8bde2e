-- ===== src/GroupState/Repository/Pending.antt =====
-- mls-rs/src/group/state_repo.rs: the pending epochs are numbered without gaps, and an epoch that is
-- borrowed is the one asked for.
use mls_rs_wasm_maybe_sync.Common.{
  ℕ, suc, ◌+◌, ◌^◌, ◌<◌, ◌≡◌, ◌≢◌, refl, sym, ap, subst, List, [], ◌∷◌, ◌++◌, length, get_elem?,
  get_last?, bytes_eq, bytes_eq→eq, All, ◌==◌, ==_iff, true, false, Bool-cases, Option, none, some,
  Option-cases, Result, ok, err, fault, gives, fails, breaks, Result-cases, arith, inl, inr,
}
use mls_rs_wasm_maybe_sync.MlsError.{MlsError, group_id_mismatch, invalid_epoch}
use mls_rs_wasm_maybe_sync.GroupState.Records.{GroupStateStorage}
use mls_rs_wasm_maybe_sync.GroupState.Runs.{IsRun, IsRun-append, get_last?-IsRun}
use mls_rs_wasm_maybe_sync.GroupState.Repository.{
  PriorEpoch, epoch_id, group_id, GroupStateRepository, find_pending, push_insert, find_max_id,
  is_expected, insert,
}

-- No two of the cached updates have one number.
abbrev pub AreDistinct : List PriorEpoch → Type 0
AreDistinct [] = Unit
AreDistinct (e ∷ es) = (find_pending es (epoch_id e) ≡ none) × AreDistinct es

-- The inserts are epochs of the group, numbered without gaps.
pub record IsPending {S K : Type 0} (r : GroupStateRepository S K) : Type 0 where
  pub first : ℕ
  pub run : IsRun epoch_id first r.pending_commit.inserts
  pub own : All (λ e. group_id e ≡ r.group_id) r.pending_commit.inserts
  pub distinct : AreDistinct r.pending_commit.updates

All-snoc :
    (P : PriorEpoch → Type 0) (xs : List PriorEpoch) (x : PriorEpoch)
    → All P xs
    → P x
    → All P (xs ++ (x ∷ []))
All-snoc P [] x h p = (p, tt)
All-snoc P (y ∷ xs) x (hy, h) p = (hy, All-snoc P xs x h p)

find_pending-snoc :
    (es : List PriorEpoch) (e : PriorEpoch) (k : ℕ)
    → find_pending es k ≡ none
    → epoch_id e ≢ k
    → find_pending (es ++ (e ∷ [])) k ≡ none
unfolding find_pending
find_pending-snoc [] e k h ne = ground arith
find_pending-snoc (x ∷ es) e k h ne = ground (arith, find_pending-snoc es e k)

find_pending_miss :
    (y : PriorEpoch) (ys : List PriorEpoch) (k : ℕ)
    → find_pending (y ∷ ys) k ≡ none
    → (epoch_id y ≢ k) × (find_pending ys k ≡ none)
unfolding find_pending
find_pending_miss y ys k p = ground arith

pub AreDistinct-snoc :
    (es : List PriorEpoch) (e : PriorEpoch)
    → AreDistinct es
    → find_pending es (epoch_id e) ≡ none
    → AreDistinct (es ++ (e ∷ []))
AreDistinct-snoc [] e h new = (unfold find_pending in refl, tt)
AreDistinct-snoc (x ∷ es) e (hx, h) new =
    let (other, later) = find_pending_miss x es (epoch_id e) new in
    (find_pending-snoc es e (epoch_id x) hx (λ q. other (sym q)), AreDistinct-snoc es e h later)

find_pending_hit :
    (y : PriorEpoch) (ys : List PriorEpoch) (k i : ℕ)
    → (epoch_id y == k) ≡ false
    → find_pending (y ∷ ys) k ≡ some i
    → (j : ℕ) × (find_pending ys k ≡ some j) × (i ≡ suc j)
unfolding find_pending
find_pending_hit y ys k i other p = elim (Option-cases (find_pending ys k)) [
  | inl q ↦ absurd (ground arith)
  | inr (j, q) ↦ (j, q, ground arith)
]

-- The place that `find_pending` gives holds an epoch of the number.
pub find_pending_place :
    (es : List PriorEpoch) (k i : ℕ)
    → find_pending es k ≡ some i
    → (e : PriorEpoch) × (get_elem? es i ≡ some e) × (epoch_id e ≡ k)
find_pending_place [] k i h = absurd (unfold find_pending in cc)
find_pending_place (x ∷ es) k i h = elim (Bool-cases (epoch_id x == k)) [
  | inl same ↦
      let zeroth : 0 ≡ i = unfold find_pending in ground arith in
      (x, subst (λ j. get_elem? (x ∷ es) j ≡ some x) zeroth refl, (==_iff (epoch_id x) k).0 same)
  | inr other ↦
      let (j, q, next) = find_pending_hit x es k i other h in
      let (e, there, number) = find_pending_place es k j q in
      (e, subst (λ n. get_elem? (x ∷ es) n ≡ some e) (sym next) there, number)
]

module _ {S K : Type 0} (gs : GroupStateStorage S) where
  -- What a call of `insert` does: it appends an epoch of the group whose number is expected, or fails
  -- and changes nothing.
  data Inserted (e : PriorEpoch) (r : GroupStateRepository S K) : Type 0 where
    appended :
        (max : Option ℕ)
        → group_id e ≡ r.group_id
        → find_max_id gs r ≡ ok max
        → is_expected max (epoch_id e) ≡ true
        → insert gs e r ≡ (ok tt, push_insert e r)
        → Inserted e r
    refused : (x : Result MlsError (Unit {0})) → x ≢ ok tt → insert gs e r ≡ (x, r) → Inserted e r

  Inserted-cases : (e : PriorEpoch) (r : GroupStateRepository S K) → Inserted e r
  unfolding insert
  Inserted-cases e r = elim (Bool-cases (bytes_eq (group_id e) r.group_id)) [
    | inr other ↦ refused (err group_id_mismatch) (λ q. cc) (rw other)
    | inl same ↦ elim (Result-cases (find_max_id gs r)) [
      | fails x p ↦ refused (err x) (λ q. cc) (rw (same, p))
      | breaks x p ↦ refused (fault x) (λ q. cc) (rw (same, p))
      | gives max p ↦ elim (Bool-cases (is_expected max (epoch_id e))) [
        | inl next ↦
            appended max (bytes_eq→eq (group_id e) r.group_id same) p next (rw (same, p, next))
        | inr other ↦ refused (err invalid_epoch) (λ q. cc) (rw (same, p, other))
      ]
    ]
  ]

  -- With the epochs so far below the last `u64`, a new insert continues the run.
  continues :
      (e : PriorEpoch) (r : GroupStateRepository S K) (max : Option ℕ) (first : ℕ)
      → IsRun epoch_id first r.pending_commit.inserts
      → first + length r.pending_commit.inserts < 2 ^ 64
      → find_max_id gs r ≡ ok max
      → is_expected max (epoch_id e) ≡ true
      → (start : ℕ) × IsRun epoch_id start (r.pending_commit.inserts ++ (e ∷ []))
  unfolding find_max_id
  continues e r max first run small p next =
      elim (Option-cases (get_last? r.pending_commit.inserts)) [
        | inl nil ↦ (
          epoch_id e,
          subst (λ xs. IsRun epoch_id (epoch_id e) (xs ++ (e ∷ [])))
              (sym (get_last?-none r.pending_commit.inserts nil)) (refl, tt),
        )
        | inr (l, last) ↦
            let count = get_last?-IsRun epoch_id first r.pending_commit.inserts l run last in
            let here : some (epoch_id l) ≡ max = cc (max_of l last, p) in
            let number : epoch_id e ≡ first + length r.pending_commit.inserts =
              after l here count in
            (first, IsRun-append epoch_id first r.pending_commit.inserts (e ∷ []) run (number, tt))
      ]
    where
      get_last?-none : (xs : List PriorEpoch) → get_last? xs ≡ none → xs ≡ []
      get_last?-none [] h = refl
      get_last?-none (x ∷ []) h = absurd (cc)
      get_last?-none (x ∷ y ∷ xs) h = absurd (cc (get_last?-none (y ∷ xs) h))

      max_of :
          (l : PriorEpoch)
          → get_last? r.pending_commit.inserts ≡ some l
          → find_max_id gs r ≡ ok (some (epoch_id l))
      max_of l last = rw (last, find_max_id)

      after :
          (l : PriorEpoch)
          → some (epoch_id l) ≡ max
          → epoch_id l + 1 ≡ first + length r.pending_commit.inserts
          → epoch_id e ≡ first + length r.pending_commit.inserts
      after l here count =
          ground (arith, subst (λ m. is_expected m (epoch_id e) ≡ true) (sym here) next)

  -- While the pending epochs stay below the last u64, insert keeps them epochs of the group that are
  -- numbered without gaps, and a call that does not succeed changes nothing.
  pub insert-IsPending :
      (e : PriorEpoch) (r : GroupStateRepository S K) (h : IsPending r)
      → h.first + length r.pending_commit.inserts < 2 ^ 64
      → IsPending (insert gs e r).1 × ((insert gs e r).0 ≢ ok tt → (insert gs e r).1 ≡ r)
  insert-IsPending e r h small = elim (Inserted-cases e r) [
    | refused x bad q ↦ (subst (λ z. IsPending z.1) (sym q) h, λ n. ap (λ z. z.1) q)
    | appended max mine p next q ↦
        let (start, run) = continues e r max h.first h.run small p next in
        (
          subst (λ z. IsPending z.1) (sym q)
              (record {
                first = start;
                run = run;
                own = All-snoc _ r.pending_commit.inserts e h.own mine;
                distinct = h.distinct;
              }),
          λ n. absurd (n (ap (λ z. z.0) q)),
        )
  ]
