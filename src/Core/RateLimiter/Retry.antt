-- ===== src/Core/RateLimiter/Retry.antt =====
-- What a refusal promises: its `retry_after_seconds`.
use samfscon.Prelude.{
  ℕ, suc, ◌+◌, ◌-◌, ◌*◌, ◌/◌, ◌≤◌, ◌≡◌, ◌∙◌, lt→ltb, true, false, List, [], ◌∷◌, arith, leb, length,
  length-append,
}
use samfscon.Prelude.Text.{Text, eq_text_iff}
use samfscon.Prelude.Dict.{IsDict}
use samfscon.Core.Clock.{second}
use samfscon.Core.RateLimiter.{
  RateLimiter, rate_limited, evict, bucket_of, refusal, check, is_allowed,
}
use samfscon.Core.RateLimiter.Window.{bucket-check, is_allowed-check, limits-check}

pub length-evict : (window now : ℕ) (ts : List ℕ) → length (evict window now ts) ≤ length ts
unfolding evict
length-evict window now [] = omega arith
length-evict window now (t ∷ ts) = ground (arith, length-evict window now ts)

-- The head of an evicted bucket is still in the window.
evict_head : (window now t : ℕ) (ts us : List ℕ) → evict window now ts ≡ t ∷ us → now - t ≤ window
unfolding evict
evict_head window now t [] us e = cc
evict_head window now t (s ∷ ts) us e = ground (arith, evict_head window now t ts us)

-- No bucket holds more than `max_events` times.
abbrev pub IsBounded : RateLimiter → Type 0
IsBounded r = (key : Text) → length (bucket_of r key) ≤ r.max_events

-- In a limiter with no key twice, a call keeps every bucket at `max_events` times at most, on every branch.
pub check-IsBounded :
    (r : RateLimiter) (key : Text) (now : ℕ)
    → IsDict r.events
    → IsBounded r
    → IsBounded (check r key now).1
check-IsBounded r key now d h other =
    rw (bucket-check r key other now d, (limits-check r key now).1)
      (ground (
        arith,
        h key,
        h other,
        length-evict r.window now (bucket_of r key),
        length-append (evict r.window now (bucket_of r key)) (now ∷ []),
      ))

-- Once the announced seconds are over, the oldest time is out of the window.
evict-wait :
    (window now later s : ℕ) (b : List ℕ)
    → refusal window now b ≡ rate_limited s
    → now + s * second ≤ later
    → suc (length (evict window later b)) ≤ length b
unfolding evict refusal
evict-wait window now later s [] e h = cc
evict-wait window now later s (t ∷ us) e h =
    let wait : (window + t - now) / second + 1 ≡ s = ground arith in
    rw (lt→ltb window (later - t) (omega arith)) (omega (arith, length-evict window later us))

outcome-check :
    (r : RateLimiter) (key : Text) (now s : ℕ)
    → (check r key now).0 ≡ rate_limited s
    → let b = evict r.window now (bucket_of r key) in
      (refusal r.window now b ≡ rate_limited s) × (leb r.max_events (length b) ≡ true)
unfolding check
outcome-check r key now s e = ground arith

-- In a limiter with no key twice and no bucket above `max_events`: if a call is refused with `s` seconds to wait, then the next call on the key is let through at
-- any time that is at least `s` seconds later.
pub allowed_after_wait :
    (r : RateLimiter) (key : Text) (now s later : ℕ)
    → IsDict r.events
    → IsBounded r
    → (check r key now).0 ≡ rate_limited s
    → now + s * second ≤ later
    → is_allowed (check (check r key now).1 key later).0 ≡ true
allowed_after_wait r key now s later d h e le =
    let b = evict r.window now (bucket_of r key) in
    let (refused, full) = outcome-check r key now s e in
    let wait = evict-wait r.window now later s b refused le in
    let same : bucket_of (check r key now).1 key ≡ b =
      rw (bucket-check r key key now d) (ground (arith, eq_text_iff key key)) in
    let room : leb r.max_events (length (evict r.window later b)) ≡ false =
      ground (arith, h key, length-evict r.window now (bucket_of r key)) in
    is_allowed-check (check r key now).1 key later
    ∙ rw (same, (limits-check r key now).0, (limits-check r key now).1, room)
