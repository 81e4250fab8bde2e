-- ===== src/GroupState/InMemory/Retention.antt =====
-- mls-rs/src/storage_provider/in_memory/group_state_storage.rs: the storage answers as a search in the
-- latest records does.
use mls_rs_wasm_maybe_sync.Common.{
  ℕ, zero, suc, ◌+◌, ◌-◌, ◌≤◌, ◌≡◌, refl, sym, ap, subst, ◌∙◌, List, [], ◌∷◌, ◌++◌, map, append-nil,
  append_assoc, length, length-drop, get_elem?, set, drop, ltb, leb, ◌==◌, ==_iff, if◌then◌else◌,
  true, false, Bool-cases, bytes_eq, bytes_eq_self, Option, none, some, ok, arith, inl, inr,
}
use mls_rs_wasm_maybe_sync.GroupState.Records.{EpochRecord, GroupState}
use mls_rs_wasm_maybe_sync.GroupState.Runs.{IsRun, find, IsRun-drop, find-IsRun}
use mls_rs_wasm_maybe_sync.GroupState.InMemory.{
  InMemoryGroupData, InMemoryGroupStateStorage, get_epoch, insert_all, update_epoch, update_all,
  pop_front_loop, written, write, epoch, enter,
}

abbrev pub number : EpochRecord → ℕ
number e = e.id

-- What is stored for a group.
abbrev pub records_of : Option InMemoryGroupData → List EpochRecord
records_of none = []
records_of (some d) = d.epoch_data

abbrev pub stored : InMemoryGroupStateStorage → List ℕ → List EpochRecord
stored s group_id = records_of (s.inner group_id)

-- The last `n` entries.
unfoldable pub latest : ℕ → List EpochRecord → List EpochRecord
latest n xs = drop (length xs - n) xs

-- A record after updates: the last one with its number, if any.
unfoldable pub revised : List EpochRecord → EpochRecord → EpochRecord
revised [] x = x
revised (u ∷ us) x = revised us (if x.id == u.id then u else x)

insert_all-append :
    (es : List EpochRecord) (d : InMemoryGroupData)
    → insert_all d es ≡ record d { epoch_data = d.epoch_data ++ es }
unfolding insert_all
insert_all-append [] d = ap (λ l. record d { epoch_data = l }) (sym (append-nil d.epoch_data))
insert_all-append (e ∷ es) d =
    insert_all-append es (record d { epoch_data = d.epoch_data ++ (e ∷ []) })
    ∙ ap (λ l. record d { epoch_data = l }) (append_assoc d.epoch_data (e ∷ []) es)

replace : EpochRecord → EpochRecord → EpochRecord
replace u x = if x.id == u.id then u else x

replace_past :
    (n : ℕ) (u : EpochRecord) (xs : List EpochRecord)
    → IsRun number n xs
    → suc u.id ≤ n
    → map (replace u) xs ≡ xs
unfolding replace
replace_past n u [] h lt = refl
replace_past n u (x ∷ xs) (hx, h) lt =
    let other : (x.id == u.id) ≡ false = ground arith in
    rw (other, replace_past (suc n) u xs h (omega arith))

set-replace :
    (n i : ℕ) (u : EpochRecord) (xs : List EpochRecord)
    → IsRun number n xs
    → u.id ≡ n + i
    → set xs i u ≡ map (replace u) xs
unfolding replace
set-replace n i u [] h e = refl
set-replace n zero u (x ∷ xs) (hx, h) e =
    let same : (x.id == u.id) ≡ true = ground arith in
    rw (same, replace_past (suc n) u xs h (omega arith))
set-replace n (suc i) u (x ∷ xs) (hx, h) e =
    let other : (x.id == u.id) ≡ false = ground arith in
    rw (other, set-replace (suc n) i u xs h (omega arith))

replace_before :
    (n : ℕ) (u : EpochRecord) (xs : List EpochRecord)
    → IsRun number n xs
    → leb n u.id ≡ false
    → map (replace u) xs ≡ xs
replace_before n u xs h e = replace_past n u xs h (ground arith)

number-replace : (u x : EpochRecord) → (replace u x).id ≡ x.id
unfolding replace
number-replace u x = ground arith

IsRun-replace :
    (n : ℕ) (u : EpochRecord) (xs : List EpochRecord)
    → IsRun number n xs
    → IsRun number n (map (replace u) xs)
IsRun-replace n u [] h = tt
IsRun-replace n u (x ∷ xs) (hx, h) =
    (omega (arith, number-replace u x), IsRun-replace (suc n) u xs h)

module _ (state_data : List ℕ) where
  abbrev holding : List EpochRecord → InMemoryGroupData
  holding xs = record { state_data = state_data; epoch_data = xs }

  -- On a run an update replaces the record of its number, and nothing without one.
  update_epoch-replace :
      (n : ℕ) (u : EpochRecord) (xs : List EpochRecord)
      → IsRun number n xs
      → update_epoch (holding xs) u ≡ holding (map (replace u) xs)
  unfolding update_epoch
  update_epoch-replace n u [] h = refl
  update_epoch-replace n u (x ∷ xs) (hx, h) = elim (Bool-cases (leb x.id u.id)) [
    | inl le ↦
        rw (le, update_epoch)
          (ap holding (set-replace n (u.id - x.id) u (x ∷ xs) (hx, h) (ground arith)))
    | inr gt ↦
        rw (gt, update_epoch)
          (ap holding (sym (replace_before n u (x ∷ xs) (hx, h) (rw (← hx) gt))))
  ]

  update_all-revised :
      (n : ℕ) (us xs : List EpochRecord)
      → IsRun number n xs
      → update_all (holding xs) us ≡ holding (map (revised us) xs)
  unfolding update_all revised replace
  update_all-revised n [] xs h = ap holding (sym (map-revised_nil xs))
    where
      map-revised_nil : (ys : List EpochRecord) → map (revised []) ys ≡ ys
      map-revised_nil [] = refl
      map-revised_nil (y ∷ ys) = ap (◌∷◌ y) (map-revised_nil ys)
  update_all-revised n (u ∷ us) xs h =
      ap (λ d. update_all d us) (update_epoch-replace n u xs h)
      ∙ update_all-revised n us (map (replace u) xs) (IsRun-replace n u xs h)
      ∙ ap holding (map-revised_cons xs)
    where
      map-revised_cons :
          (ys : List EpochRecord)
          → map (revised us) (map (replace u) ys) ≡ map (revised (u ∷ us)) ys
      map-revised_cons [] = refl
      map-revised_cons (y ∷ ys) = ap (◌∷◌ (revised (u ∷ us) y)) (map-revised_cons ys)

number-revised : (us : List EpochRecord) (x : EpochRecord) → (revised us x).id ≡ x.id
unfolding revised
number-revised [] x = refl
number-revised (u ∷ us) x = elim (Bool-cases (x.id == u.id)) [
  | inl same ↦ rw (same, revised) (number-revised us u ∙ sym ((==_iff x.id u.id).0 same))
  | inr other ↦ rw (other, revised) (number-revised us x)
]

IsRun-revised :
    (n : ℕ) (us xs : List EpochRecord) → IsRun number n xs → IsRun number n (map (revised us) xs)
IsRun-revised n us [] h = tt
IsRun-revised n us (x ∷ xs) (hx, h) = (number-revised us x ∙ hx, IsRun-revised (suc n) us xs h)

pop_front_loop-latest : (n : ℕ) (xs : List EpochRecord) → pop_front_loop n xs ≡ latest n xs
unfolding pop_front_loop latest
pop_front_loop-latest n [] =
    let nothing : 0 ≡ 0 - n = omega arith in ap (λ (k : ℕ). drop k []) nothing
pop_front_loop-latest n (x ∷ xs) = elim (Bool-cases (ltb n (length (x ∷ xs)))) [
  | inl long ↦
      let more : suc (length xs - n) ≡ suc (length xs) - n = ground arith in
      rw long (pop_front_loop-latest n xs ∙ ap (λ (k : ℕ). drop k (x ∷ xs)) more)
  | inr short ↦
      let none_left : 0 ≡ suc (length xs) - n = ground arith in
      rw short (ap (λ (k : ℕ). drop k (x ∷ xs)) none_left)
]

-- What a write leaves for its group.
abbrev pub records_after :
    ℕ → List EpochRecord → List EpochRecord → List EpochRecord → List EpochRecord
records_after n old inserts updates = latest n (map (revised updates) (old ++ inserts))

written-latest :
    (n first : ℕ) (d : InMemoryGroupData) (inserts updates : List EpochRecord)
    → IsRun number first (d.epoch_data ++ inserts)
    → (written n d inserts updates).epoch_data ≡ records_after n d.epoch_data inserts updates
unfolding written
written-latest n first d inserts updates h =
    ap (λ (z : InMemoryGroupData). pop_front_loop n (update_all z updates).epoch_data)
      (insert_all-append inserts d)
    ∙ ap (λ (z : InMemoryGroupData). pop_front_loop n z.epoch_data)
        (update_all-revised d.state_data first updates (d.epoch_data ++ inserts) h)
    ∙ pop_front_loop-latest n (map (revised updates) (d.epoch_data ++ inserts))

records_of-enter :
    (o : Option InMemoryGroupData) (bytes : List ℕ) → (enter o bytes).epoch_data ≡ records_of o
records_of-enter none bytes = refl
records_of-enter (some d) bytes = refl

stored-write :
    (s : InMemoryGroupStateStorage) (g : GroupState) (first : ℕ)
    (inserts updates : List EpochRecord)
    → IsRun number first (stored s g.id ++ inserts)
    → stored (write s g inserts updates).1 g.id
      ≡ records_after s.max_epoch_retention (stored s g.id) inserts updates
unfolding write
stored-write s g first inserts updates h =
    let same = records_of-enter (s.inner g.id) g.bytes in
    rw (bytes_eq_self g.id) (
      written-latest s.max_epoch_retention first (enter (s.inner g.id) g.bytes) inserts updates
        (subst (λ l. IsRun number first (l ++ inserts)) (sym same) h)
      ∙ ap (λ l. records_after s.max_epoch_retention l inserts updates) same)

IsRun-latest :
    (first n : ℕ) (xs : List EpochRecord)
    → IsRun number first xs
    → IsRun number (first + (length xs - n)) (latest n xs)
unfolding latest
IsRun-latest first n xs h = IsRun-drop number first (length xs - n) xs h

-- On records without gaps the lookup by distance is a search.
get_epoch-find :
    (first k : ℕ) (s : List ℕ) (xs : List EpochRecord)
    → IsRun number first xs
    → get_epoch (holding s xs) k ≡ find number k xs
unfolding get_epoch
get_epoch-find first k s [] h = unfold find in refl
get_epoch-find first k s (x ∷ xs) (hx, h) = elim (Bool-cases (leb x.id k)) [
  | inl le ↦
      rw (le, get_epoch)
        (sym (find-IsRun number first k (x ∷ xs) (hx, h) ∙ rw (rw hx at le) (shift hx)))
  | inr gt ↦
      rw (gt, get_epoch) (sym (find-IsRun number first k (x ∷ xs) (hx, h) ∙ rw (rw hx at gt)))
]
  where
    shift : x.id ≡ first → get_elem? (x ∷ xs) (k - first) ≡ get_elem? (x ∷ xs) (k - x.id)
    shift e = rw e

abbrev pub bytes_of : Option EpochRecord → Option (List ℕ)
bytes_of none = none
bytes_of (some e) = some e.bytes

epoch-find :
    (s : InMemoryGroupStateStorage) (group_id : List ℕ) (first k : ℕ)
    → IsRun number first (stored s group_id)
    → epoch s group_id k ≡ ok (bytes_of (find number k (stored s group_id)))
unfolding epoch
epoch-find s group_id first k h = ap ok (by_entry (s.inner group_id) h)
  where
    by_epoch :
        (o : Option EpochRecord) → (elim o [ none ↦ none | some e ↦ some e.bytes ]) ≡ bytes_of o
    by_epoch none = refl
    by_epoch (some e) = refl

    by_entry :
        (o : Option InMemoryGroupData)
        → IsRun number first (records_of o)
        → (elim o [
          | none ↦ none
          | some d ↦ (elim (get_epoch d k) [ none ↦ none | some e ↦ some e.bytes ])
        ])
          ≡ bytes_of (find number k (records_of o))
    by_entry none h = unfold find in refl
    by_entry (some d) h =
        by_epoch (get_epoch d k) ∙ ap bytes_of (get_epoch-find first k d.state_data d.epoch_data h)

-- When the stored records of the group and the inserts are numbered without gaps, then after a write the
-- storage answers for the group as a search does in its last max_epoch_retention records, with the inserts
-- behind the old ones and the updates applied.
pub epoch-write :
    (s : InMemoryGroupStateStorage) (g : GroupState) (inserts updates : List EpochRecord)
    (first k : ℕ)
    → IsRun number first (stored s g.id ++ inserts)
    → epoch (write s g inserts updates).1 g.id k
      ≡ ok (
          bytes_of
            (find number k (records_after s.max_epoch_retention (stored s g.id) inserts updates)))
epoch-write s g inserts updates first k h =
    let left = stored-write s g first inserts updates h in
    let run =
      IsRun-latest first s.max_epoch_retention _
        (IsRun-revised first updates (stored s g.id ++ inserts) h) in
    epoch-find (write s g inserts updates).1 g.id _ k (subst (IsRun number _) (sym left) run)
    ∙ ap (λ l. ok (bytes_of (find number k l))) left

length-latest_le : (n : ℕ) (xs : List EpochRecord) → length (latest n xs) ≤ n
unfolding latest
length-latest_le n xs = omega (arith, length-drop {0} (length xs - n) xs)

-- When the stored records of the group and the inserts are numbered without gaps, a write leaves records
-- without gaps, at most max_epoch_retention of them, and the records of every other group as they were.
pub write-IsRun :
    (s : InMemoryGroupStateStorage) (g : GroupState) (inserts updates : List EpochRecord)
    (first : ℕ)
    → IsRun number first (stored s g.id ++ inserts)
    → ((start : ℕ) × IsRun number start (stored (write s g inserts updates).1 g.id))
      × (length (stored (write s g inserts updates).1 g.id) ≤ s.max_epoch_retention)
      × ((other : List ℕ)
          → bytes_eq g.id other ≡ false
          → stored (write s g inserts updates).1 other ≡ stored s other)
write-IsRun s g inserts updates first h =
    let left = stored-write s g first inserts updates h in
    let run =
      IsRun-latest first s.max_epoch_retention _
        (IsRun-revised first updates (stored s g.id ++ inserts) h) in
    (
      (_, subst (IsRun number _) (sym left) run),
      subst (λ l. length l ≤ s.max_epoch_retention) (sym left)
          (length-latest_le s.max_epoch_retention _),
      λ other e. unfold write in rw e,
    )
