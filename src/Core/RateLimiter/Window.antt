-- ===== src/Core/RateLimiter/Window.antt =====
-- The sliding window: how many attempts on one key are let through.
use samfscon.Prelude.{
  ℕ, suc, ◌+◌, ◌-◌, ◌≤◌, ◌<◌, ◌≡◌, refl, ◌∙◌, ◌&&◌, not, List, [], ◌∷◌, ◌++◌, arith, leb, length,
  if◌then◌else◌, keep, length-keep, Bool-cases, inl, inr,
}
use samfscon.Prelude.Text.{Text, eq_text, eq_text_iff}
use samfscon.Prelude.Dict.{Dict, IsDict, put, get-put, get-keep, put-IsDict, keep-IsDict}
use samfscon.Core.RateLimiter.{
  RateLimiter, evict, bucket_of, refusal, is_nonempty, drop_stale, check, is_allowed,
}

-- How many of the times lie within `window` before `now`.
pub recent : ℕ → ℕ → List ℕ → ℕ
recent window now ts = length (keep (λ t. leb (now - t) window) ts)

recent-evict :
    (window now later : ℕ) (ts : List ℕ)
    → now ≤ later
    → recent window later (evict window now ts) ≡ recent window later ts
unfolding recent evict
recent-evict window now later [] h = refl
recent-evict window now later (t ∷ ts) h = ground (arith, recent-evict window now later ts h)

recent-cons :
    (window now t : ℕ) (ts : List ℕ)
    → recent window now (t ∷ ts)
      ≡ (if leb (now - t) window then suc (recent window now ts) else recent window now ts)
unfolding recent
recent-cons window now t ts = ground arith

recent-append :
    (window now : ℕ) (ts us : List ℕ)
    → recent window now (ts ++ us) ≡ recent window now ts + recent window now us
unfolding recent
recent-append window now [] us = omega arith
recent-append window now (t ∷ ts) us = ground (arith, recent-append window now ts us)

recent-le-length : (window now : ℕ) (ts : List ℕ) → recent window now ts ≤ length ts
unfolding recent
recent-le-length window now ts = length-keep (λ t. leb (now - t) window) ts

-- Dropping empty buckets changes the bucket of no key.
bucket-drop_stale :
    (r : RateLimiter) (m : Dict (List ℕ)) (key : Text)
    → IsDict m
    → bucket_of (record r { events = drop_stale m }) key ≡ bucket_of (record r { events = m }) key
unfolding bucket_of drop_stale
bucket-drop_stale r m key h =
    ground (arith, get-keep {0} (λ (e : Text × List ℕ). is_nonempty e.1) m key h)

-- The bucket of a key after a call about a key, where the call is let through and where it is not.
abbrev pub bucket_after : RateLimiter → Text → ℕ → List ℕ
bucket_after r key now =
    let bucket = evict r.window now (bucket_of r key) in
    if leb r.max_events (length bucket) then bucket else bucket ++ now ∷ []

bucket-put :
    (r : RateLimiter) (key other : Text) (bucket : List ℕ)
    → bucket_of (record r { events = put r.events key bucket }) other
      ≡ (if eq_text key other then bucket else bucket_of r other)
unfolding bucket_of
bucket-put r key other bucket = ground (arith, get-put r.events key other bucket)

pub bucket-check :
    (r : RateLimiter) (key other : Text) (now : ℕ)
    → IsDict r.events
    → bucket_of (check r key now).1 other
      ≡ (if eq_text key other then bucket_after r key now else bucket_of r other)
unfolding check
bucket-check r key other now h =
    elim (Bool-cases (leb r.max_events (length (evict r.window now (bucket_of r key))))) [
      | inl full ↦ rw full (bucket-put r key other (evict r.window now (bucket_of r key)))
      | inr room ↦ rw room (
          rw (bucket-drop_stale r _ other (put-IsDict r.events key _ h))
            (bucket-put r key other (evict r.window now (bucket_of r key) ++ now ∷ [])))
    ]

pub check-IsDict :
    (r : RateLimiter) (key : Text) (now : ℕ) → IsDict r.events → IsDict (check r key now).1.events
unfolding check drop_stale
check-IsDict r key now h =
    let bucket = evict r.window now (bucket_of r key) in
    let d = put-IsDict r.events key bucket h in
    let d' = put-IsDict r.events key (bucket ++ now ∷ []) h in
    let k = keep-IsDict (λ (e : Text × List ℕ). is_nonempty e.1) _ d' in ground arith

-- The attempts on `key` that are let through in a history of calls, the latest first.
pub served : RateLimiter → Text → List ℕ → List (Text × ℕ) → List ℕ
served r key seen [] = seen
served r key seen ((k, now) ∷ calls) =
    let (outcome, r') = check r k now in
    served r' key (if eq_text k key && is_allowed outcome then now ∷ seen else seen) calls

-- The clock of a history of calls does not run backwards.
abbrev pub InOrder : ℕ → List (Text × ℕ) → Type 0
InOrder last [] = Unit
InOrder last ((k, now) ∷ calls) = (last ≤ now) × InOrder now calls

-- Each time in the list, the latest first, has fewer than `most` earlier ones in its window.
abbrev pub Spaced : ℕ → ℕ → List ℕ → Type 0
Spaced window most [] = Unit
Spaced window most (t ∷ earlier) = (recent window t earlier < most) × Spaced window most earlier

-- What the bucket of a key knows of the attempts let through: every one still in the window.
abbrev Remembers : RateLimiter → Text → List ℕ → ℕ → Type 0
Remembers r key seen last =
    (later : ℕ)
    → last ≤ later
    → recent r.window later seen ≤ recent r.window later (bucket_of r key)

module _ (r : RateLimiter) (k : Text) (now : ℕ) where
  pub limits-check :
      ((check r k now).1.window ≡ r.window) × ((check r k now).1.max_events ≡ r.max_events)
  unfolding check
  limits-check = ground arith

  pub is_allowed-check :
      is_allowed (check r k now).0
      ≡ not (leb r.max_events (length (evict r.window now (bucket_of r k))))
  unfolding check is_allowed refusal
  is_allowed-check = ground arith

module _ (r : RateLimiter) (k key : Text) (now last : ℕ) (seen : List ℕ) (d : IsDict r.events) where
  abbrev seen_after : List ℕ
  seen_after = if eq_text k key && is_allowed (check r k now).0 then now ∷ seen else seen

  Remembers-check :
      last ≤ now → Remembers r key seen last → Remembers (check r k now).1 key seen_after now
  Remembers-check le h later ge =
      rw ((limits-check r k now).0, bucket-check r k key now d, is_allowed-check r k now)
        (elim (Bool-cases (eq_text k key)) [
          | inl same ↦
              let e = (eq_text_iff k key).0 same in
              let old = h later (omega arith) in
              let b = bucket_of r key in
              rw (same, e)
                (ground (
                  arith,
                  h later,
                  recent-evict r.window now later b,
                  recent-append r.window later (evict r.window now b) (now ∷ []),
                  recent-cons r.window later now seen,
                  recent-cons r.window later now [],
                ))
          | inr other ↦ rw other (h later (omega arith))
        ])

  Spaced-check :
      (window most : ℕ)
      → r.window ≡ window
      → r.max_events ≡ most
      → last ≤ now
      → Remembers r key seen last
      → Spaced window most seen
      → Spaced window most seen_after
  Spaced-check window most ew em le h s =
      rw (is_allowed-check r k now) (elim (Bool-cases (eq_text k key)) [
        | inl same ↦
            let e = (eq_text_iff k key).0 same in
            let b = bucket_of r key in
            rw (same, e)
              (ground (
                arith,
                h now,
                recent-evict r.window now now b,
                recent-le-length r.window now (evict r.window now b),
              ))
        | inr other ↦ rw other s
      ])

Spaced-served :
    (window most : ℕ) (r : RateLimiter) (key : Text) (seen : List ℕ) (last : ℕ)
    (calls : List (Text × ℕ))
    → r.window ≡ window
    → r.max_events ≡ most
    → IsDict r.events
    → InOrder last calls
    → Remembers r key seen last
    → Spaced window most seen
    → Spaced window most (served r key seen calls)
unfolding served
Spaced-served window most r key seen last [] ew em d o h s = s
Spaced-served window most r key seen last ((k, now) ∷ calls) ew em d o h s =
    let lim = limits-check r k now in
    Spaced-served window most (check r k now).1 key (seen_after r k key now last seen d) now calls
      (lim.0 ∙ ew) (lim.1 ∙ em) (check-IsDict r k now d) o.1
      (Remembers-check r k key now last seen d o.0 h)
      (Spaced-check r k key now last seen d window most ew em o.0 h s)

-- From an empty limiter, whatever calls are made on whatever keys by a clock that does not run
-- backwards: each attempt on `key` that is let through has, in the `window` before it, fewer than
-- `max_events` earlier attempts on `key` that were let through.
pub served-Spaced :
    (most window : ℕ) (key : Text) (calls : List (Text × ℕ))
    → InOrder 0 calls
    → Spaced window most
        (served (record { max_events = most; window = window; events = [] }) key [] calls)
unfolding recent
served-Spaced most window key calls o =
    Spaced-served window most (record { max_events = most; window = window; events = [] }) key [] 0
      calls refl refl tt o (λ later le. omega arith) tt
