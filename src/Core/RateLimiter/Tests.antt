-- ===== src/Core/RateLimiter/Tests.antt =====
-- Examples of backend/samfscon/core/ratelimit.py.
use samfscon.Prelude.{ℕ, true, List, [], ◌∷◌, ◌≡◌, refl, arith}
use samfscon.Prelude.Text.{Text, codes, eq_text}
use samfscon.Prelude.Dict.{put, get}
use samfscon.Core.RateLimiter.{
  RateLimiter, check, is_allowed, evict, bucket_of, refusal, is_nonempty,
}
use samfscon.Core.RateLimiter.Window.{served, Spaced, served-Spaced}
use samfscon.Core.RateLimiter.Retry.{IsBounded, allowed_after_wait}
use samfscon.Core.RateLimiter.Table.{NoneEmpty, check-NoneEmpty}

abbrev alice : Text
alice = codes "alice"

abbrev calls : List (Text × ℕ)
calls = (alice, 1) ∷ (codes "bob", 2) ∷ (alice, 3) ∷ (alice, 4) ∷ (alice, 70) ∷ []

served-Spaced_example :
    Spaced 60 2 (served (record { max_events = 2; window = 60; events = [] }) alice [] calls)
served-Spaced_example =
    served-Spaced 2 60 alice calls
      (omega arith, (omega arith, (omega arith, (omega arith, (omega arith, tt)))))

-- One attempt of alice at 10, which fills her bucket.
abbrev full : RateLimiter
full = record { max_events = 1; window = 60000000; events = (alice, 10 ∷ []) ∷ [] }

full-IsBounded : IsBounded full
unfolding bucket_of get
full-IsBounded key = ground arith

allowed_after_wait_example : is_allowed (check (check full alice 20).1 alice 60000020).0 ≡ true
unfolding check evict refusal bucket_of get eq_text
allowed_after_wait_example =
    allowed_after_wait full alice 20 60 60000020 (refl, tt) full-IsBounded refl (omega arith)

check-NoneEmpty_example :
    NoneEmpty (check full alice 20).1.events
    × ((b : List ℕ) × ((check full alice 20).1.events ≡ put full.events alice b))
unfolding is_nonempty
check-NoneEmpty_example = check-NoneEmpty full alice 20 (omega arith) (refl, tt)
