-- ===== src/TreeKem/Lifetimes.antt =====
-- mls-rs/src/tree_kem/lifetime.rs, with the feature std and without overflow checks: how long a key package
-- may be used. Seconds are `u64`, days `u32` and years `u8`; `now` is what the system's clock says.
use mls_rs_wasm_maybe_sync.Common.{
  ℕ, ◌+◌, ◌-◌, ◌*◌, ◌%◌, ◌^◌, ◌≤◌, ◌<◌, ◌≡◌, ◌⊎◌, inl, inr, refl, Bool, ◌&&◌, ltb, leb,
  if◌then◌else◌, Bool-cases, Result, ok, err, arith,
}
use mls_rs_wasm_maybe_sync.MlsError.{MlsError, time_overflow}
use mls_rs_wasm_maybe_sync.TreeKem.Leaf.{Lifetime}

abbrev pub hour : ℕ
hour = 3600

abbrev pub seconds_per_day : ℕ
seconds_per_day = 86400

-- `checked_add` on `u64`, and the wrapping subtraction of an hour
unfoldable pub seconds : ℕ → ℕ → Result MlsError Lifetime
seconds now s =
    if ltb (now + s) (2 ^ 64)
    then ok (record { not_before = (now + 2 ^ 64 - hour) % 2 ^ 64; not_after = now + s })
    else err time_overflow

unfoldable pub days : ℕ → ℕ → Result MlsError Lifetime
unfolding seconds
days now d = seconds now ((d * seconds_per_day) % 2 ^ 32)

unfoldable pub years : ℕ → ℕ → Result MlsError Lifetime
unfolding days
years now y = days now ((365 * y) % 2 ^ 32)

unfoldable pub within_lifetime : Lifetime → ℕ → Bool
within_lifetime l time = leb l.not_before time && leb time l.not_after

-- What a lifetime promises: it starts an hour before now, and ends `s` seconds after now.
abbrev pub Lasts : ℕ → ℕ → Lifetime → Type 0
Lasts now s l = (l.not_before + hour ≡ now) × (l.not_after ≡ now + s)

-- The outcome for a number of seconds: an error exactly when the end is past `u64`.
abbrev pub LastsOrOverflows : ℕ → ℕ → Result MlsError Lifetime → Type 0
LastsOrOverflows now s r =
    ((l : Lifetime) × (r ≡ ok l) × (now + s < 2 ^ 64) × Lasts now s l)
    ⊎ (r ≡ err time_overflow) × (2 ^ 64 ≤ now + s)

pub seconds_lem : (now s : ℕ) → hour ≤ now → now < 2 ^ 64 → LastsOrOverflows now s (seconds now s)
unfolding seconds
seconds_lem now s after before = elim (Bool-cases (ltb (now + s) (2 ^ 64))) [
  | inl fits ↦
      inl (
        started (now + 2 ^ 64 - hour),
        rw (fits, seconds),
        ground (arith, fits),
        (omega arith, refl),
      )
  | inr past ↦ inr (rw (past, seconds), ground (arith, past))
]
  where
    started : ℕ → Lifetime
    started start = record { not_before = start % 2 ^ 64; not_after = now + s }

-- The seconds of the years that `u32` can count, and 2 ^ 32 less for more years than that.
abbrev pub seconds_counted : ℕ → ℕ
seconds_counted y =
    if leb y 136 then y * 365 * seconds_per_day else y * 365 * seconds_per_day - 2 ^ 32

-- When the clock shows a u64 of at least 3600 seconds, years gives up to 136 years a lifetime from an hour
-- before now to that many years after it, from 137 years on one that ends 2 ^ 32 seconds too early, and in
-- both cases a TimeOverflow exactly when that end is past u64.
pub years_lem :
    (now y : ℕ)
    → hour ≤ now
    → now < 2 ^ 64
    → y < 256
    → LastsOrOverflows now (seconds_counted y) (years now y)
unfolding years days
years_lem now y after before byte =
    let total : (365 * y) % 2 ^ 32 * seconds_per_day % 2 ^ 32 ≡ seconds_counted y =
      ground (arith, byte) in
    rw total (seconds_lem now (seconds_counted y) after before)

-- A lifetime that lasts `s` seconds holds the times from an hour before now up to `s` seconds after it.
pub within_lifetime-Lasts :
    (now s : ℕ) (l : Lifetime) (time : ℕ)
    → Lasts now s l
    → within_lifetime l time ≡ (leb now (time + hour) && leb time (now + s))
unfolding within_lifetime
within_lifetime-Lasts now s l time (start, end') = ground (arith, start, end')
