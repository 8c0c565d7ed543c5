-- ===== src/Core/RateLimiter.antt =====
-- backend/samfscon/core/ratelimit.py: a sliding window of attempts for each key.
-- `time.monotonic()` is the argument `now`, in microseconds; the lock makes each call one step.
pub mod Window
pub mod Retry
pub mod Table
mod Tests
use samfscon.Prelude.{
  ℕ, ◌+◌, ◌-◌, ◌/◌, Bool, true, false, Option, none, some, List, [], ◌∷◌, ◌++◌, ltb, leb, length,
  if◌then◌else◌, keep, not,
}
use samfscon.Prelude.Text.{Text}
use samfscon.Prelude.Dict.{Dict, get, put, remove}
use samfscon.Core.Clock.{second}

pub record RateLimiter : Type 0 where
  pub max_events : ℕ
  pub window : ℕ
  pub events : Dict (List ℕ)

-- How `check` ends: it returns, raises `rate_limited` with the seconds to wait, or, with a limit of
-- zero and nothing recorded, fails at `bucket[0]`.
pub data Outcome : Type 0 where
  allowed : Outcome
  rate_limited : (retry_after_seconds : ℕ) → Outcome
  index_error : Outcome

pub is_allowed : Outcome → Bool
is_allowed allowed = true
is_allowed (rate_limited s) = false
is_allowed index_error = false

-- `while bucket and now - bucket[0] > self.window: bucket.popleft()`
pub evict : ℕ → ℕ → List ℕ → List ℕ
evict window now [] = []
evict window now (t ∷ ts) = if ltb window (now - t) then evict window now ts else t ∷ ts

pub bucket_of : RateLimiter → Text → List ℕ
bucket_of r key = elim (get r.events key) [ none ↦ [] | some bucket ↦ bucket ]

pub refusal : ℕ → ℕ → List ℕ → Outcome
refusal window now [] = index_error
refusal window now (t ∷ ts) = rate_limited ((window + t - now) / second + 1)

pub is_nonempty : List ℕ → Bool
is_nonempty [] = false
is_nonempty (t ∷ ts) = true

-- The removal of empty buckets from a table of more than 1024 keys.
pub drop_stale : Dict (List ℕ) → Dict (List ℕ)
unfolding is_nonempty
drop_stale m = if ltb 1024 (length m) then keep (λ e. is_nonempty e.1) m else m

pub check : RateLimiter → Text → ℕ → Outcome × RateLimiter
unfolding bucket_of refusal
check r key now =
    let bucket = evict r.window now (bucket_of r key) in
    if leb r.max_events (length bucket)
    then (refusal r.window now bucket, record r { events = put r.events key bucket })
    else (allowed, record r { events = drop_stale (put r.events key (bucket ++ now ∷ [])) })

pub reset : RateLimiter → Option Text → RateLimiter
reset r none = record r { events = [] }
reset r (some key) = record r { events = remove r.events key }

-- `probe_limiter`: 20 probes in 60 seconds.
abbrev pub probe_limiter : RateLimiter
probe_limiter = record { max_events = 20; window = 60000000; events = [] }
