-- ===== src/Auth/Throttle.antt =====
-- `LoginThrottle` of backend/samfscon/auth/session.py: failed sign-ins, counted by account and by
-- address. `_now()` is the argument `now`, in microseconds; a length of time is in microseconds.
-- A difference of times stops at 0 here; where it is compared with the lockout, a negative
-- difference and 0 have the same result.
pub mod Refusal
pub mod Lockout
pub mod Isolation
mod Tests
use samfscon.Prelude.{
  ℕ, ◌+◌, ◌-◌, ◌/◌, Bool, true, false, Option, none, some, List, [], ◌∷◌, ◌++◌, ltb, leb, max, ◌&&◌,
  if◌then◌else◌,
}
use samfscon.Prelude.Text.{Text, codes, lower}
use samfscon.Prelude.Dict.{Dict, get, put, remove}
use samfscon.Core.Clock.{second}

pub record LoginThrottle : Type 0 where
  pub max_attempts : ℕ
  pub lockout : ℕ
  -- The number of failures under a key, and the time of the last one.
  pub failures : Dict (ℕ × ℕ)

pub enabled : LoginThrottle → Bool
enabled t = ltb 0 t.max_attempts && ltb 0 t.lockout

pub user_key : Text → Text
user_key username = codes "user:" ++ lower username

pub ip_key : Text → Text
ip_key client_ip = codes "ip:" ++ client_ip

-- `None` and the empty address add no key.
pub keys : Text → Option Text → List Text
unfolding user_key ip_key
keys username none = user_key username ∷ []
keys username (some []) = user_key username ∷ []
keys username (some (c ∷ ip)) = user_key username ∷ ip_key (c ∷ ip) ∷ []

-- `check` returns, or raises `login_throttled` with the seconds to wait.
pub data Verdict : Type 0 where
  passed : Verdict
  login_throttled : (retry_after_seconds : ℕ) → Verdict

pub is_stale : LoginThrottle → ℕ → ℕ → Bool
is_stale t now last = ltb t.lockout (now - last)

pub retry_after : LoginThrottle → ℕ → ℕ → ℕ
retry_after t now last = max ((t.lockout + last - now) / second) 1

-- What the loop of `check` finds under one key.
pub data Found : Type 0 where
  untouched : Found
  stale : Found
  blocked : ℕ → Found

pub judge : LoginThrottle → ℕ → Option (ℕ × ℕ) → Found
judge t now none = untouched
judge t now (some (count, last)) =
    if is_stale t now last
    then stale
    else if leb t.max_attempts count
    then blocked (retry_after t now last)
    else untouched

-- The loop of `check`: a stale entry is deleted on the way, also where a later key raises.
pub check_keys : LoginThrottle → ℕ → List Text → Verdict × LoginThrottle
check_keys t now [] = (passed, t)
check_keys t now (k ∷ ks) = elim (judge t now (get t.failures k)) [
  | untouched ↦ check_keys t now ks
  | stale ↦ check_keys (record t { failures = remove t.failures k }) now ks
  | blocked s ↦ (login_throttled s, t)
]

pub check : LoginThrottle → Text → Option Text → ℕ → Verdict × LoginThrottle
check t username client_ip now =
    if enabled t then check_keys t now (keys username client_ip) else (passed, t)

pub count_after : LoginThrottle → ℕ → Option (ℕ × ℕ) → ℕ
count_after t now none = 1
count_after t now (some (count, last)) = (if is_stale t now last then 0 else count) + 1

pub record_keys : LoginThrottle → ℕ → List Text → LoginThrottle
record_keys t now [] = t
record_keys t now (k ∷ ks) =
    record_keys
      (record t { failures = put t.failures k (count_after t now (get t.failures k), now) }) now ks

pub record_failure : LoginThrottle → Text → Option Text → ℕ → LoginThrottle
record_failure t username client_ip now =
    if enabled t then record_keys t now (keys username client_ip) else t

pub clear_keys : LoginThrottle → List Text → LoginThrottle
clear_keys t [] = t
clear_keys t (k ∷ ks) = clear_keys (record t { failures = remove t.failures k }) ks

pub record_success : LoginThrottle → Text → Option Text → LoginThrottle
record_success t username client_ip = clear_keys t (keys username client_ip)

pub is_refusal : Verdict → Bool
is_refusal passed = false
is_refusal (login_throttled s) = true

pub is_blocked : Found → Bool
is_blocked untouched = false
is_blocked stale = false
is_blocked (blocked s) = true
