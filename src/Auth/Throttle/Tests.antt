-- ===== src/Auth/Throttle/Tests.antt =====
-- Examples of `LoginThrottle`.
use samfscon.Prelude.{
  ◌+◌, ◌*◌, true, Option, none, some, [], ◌∷◌, ◌≡◌, refl, arith, ◌&&◌, ◌||◌, ◌++◌, ltb,
}
use samfscon.Prelude.Text.{Text, codes, eq_text, lower, to_lower}
use samfscon.Prelude.Dict.{get}
use samfscon.Core.Clock.{second}
use samfscon.Auth.Throttle.{
  LoginThrottle, enabled, keys, user_key, ip_key, check, check_keys, judge, is_stale, retry_after,
  record_failure, is_refusal,
}
use samfscon.Auth.Throttle.Refusal.{is_locked, is_ip_locked, check_refuses, refused_after_wait}
use samfscon.Auth.Throttle.Lockout.{fail_all, locked_out}
use samfscon.Auth.Throttle.Isolation.{check_of_others}

-- Two failures lock for five minutes; `root` has failed twice, half a second past 1.
abbrev throttle : LoginThrottle
throttle = record {
  max_attempts = 2;
  lockout = 300000000;
  failures = (codes "user:root", (2, 1500000)) ∷ [];
}

abbrev root : Text
root = codes "root"

abbrev here : Option Text
here = some (codes "10.0.0.1")

check_refuses_example : is_refusal (check throttle root here 2000000).0 ≡ (
    ltb 0 throttle.max_attempts
    && (ltb 0 throttle.lockout
        && (is_locked throttle 2000000 (get throttle.failures (codes "user:" ++ lower root))
            || is_ip_locked throttle 2000000 here)))
check_refuses_example = check_refuses throttle root here 2000000

refused_after_wait_example :
    is_refusal (check (check throttle root here 2000000).1 root here (2000000 + 299 * second)).0
    ≡ true
unfolding check check_keys judge is_stale retry_after enabled keys user_key ip_key lower to_lower
    get eq_text
refused_after_wait_example = refused_after_wait throttle root here 2000000 299 refl (omega arith)

abbrev fresh : LoginThrottle
fresh = record { max_attempts = 2; lockout = 300000000; failures = [] }

locked_out_example :
    is_refusal (check (fail_all fresh root ((here, 1) ∷ (none, 2) ∷ [])) root none 3).0 ≡ true
unfolding enabled
locked_out_example =
    locked_out fresh root here 1 ((none, 2) ∷ []) none 3 refl (omega arith, tt) (omega arith)
      (omega arith)

check_of_others_example :
    is_refusal
      (check
        (record_failure throttle (codes "eve") (some (codes "10.0.0.2")) 2000000)
        root
        here
        2000001).0
    ≡ is_refusal (check throttle root here 2000001).0
unfolding keys user_key ip_key lower to_lower eq_text
check_of_others_example =
    check_of_others throttle (codes "eve") root (some (codes "10.0.0.2")) here 2000000 2000001
      (refl, (refl, tt))
