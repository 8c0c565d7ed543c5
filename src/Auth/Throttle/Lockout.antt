-- ===== src/Auth/Throttle/Lockout.antt =====
-- That repeated failures lock an account, whatever addresses they come from, and what unlocks it.
use samfscon.Prelude.{
  ℕ, suc, ◌+◌, ◌-◌, ◌≤◌, ◌≡◌, refl, Bool, true, false, Option, none, some, List, [], ◌∷◌, arith,
  ◌∙◌, any, length, le→ltb, le→leb, subst, sym,
}
use samfscon.Prelude.Text.{Text, eq_text, eq_text_refl}
use samfscon.Prelude.Dict.{get, put, get-put}
use samfscon.Auth.Throttle.{
  LoginThrottle, enabled, keys, user_key, ip_key, is_stale, judge, check, is_refusal, is_blocked,
  count_after, record_keys, record_failure,
}
use samfscon.Auth.Throttle.Refusal.{blocks, check_refuses_blocked}

pub ip_key-ne-user_key : (ip username : Text) → eq_text (ip_key ip) (user_key username) ≡ false
unfolding ip_key user_key eq_text
ip_key-ne-user_key ip username = refl

-- The entry of the account after a failure: one more, now.
get-record_failure :
    (t : LoginThrottle) (username : Text) (client_ip : Option Text) (now : ℕ)
    → enabled t ≡ true
    → get (record_failure t username client_ip now).failures (user_key username)
      ≡ some (count_after t now (get t.failures (user_key username)), now)
unfolding record_failure record_keys
get-record_failure t username none now on =
    unfold keys in rw on (rw (get-put, eq_text_refl (user_key username)))
get-record_failure t username (some []) now on =
    unfold keys in rw on (rw (get-put, eq_text_refl (user_key username)))
get-record_failure t username (some (c ∷ ip)) now on =
    unfold keys in
    rw on (
      rw (get-put, ip_key-ne-user_key (c ∷ ip) username)
        (rw (get-put, eq_text_refl (user_key username))))

limits-record_keys :
    (ks : List Text) (t : LoginThrottle) (now : ℕ)
    → ((record_keys t now ks).max_attempts ≡ t.max_attempts)
      × ((record_keys t now ks).lockout ≡ t.lockout)
unfolding record_keys
limits-record_keys [] t now = (refl, refl)
limits-record_keys (k ∷ ks) t now =
    limits-record_keys ks
      (record t { failures = put t.failures k (count_after t now (get t.failures k), now) }) now

pub limits-record_failure :
    (t : LoginThrottle) (username : Text) (client_ip : Option Text) (now : ℕ)
    → ((record_failure t username client_ip now).max_attempts ≡ t.max_attempts)
      × ((record_failure t username client_ip now).lockout ≡ t.lockout)
unfolding record_failure
limits-record_failure t username client_ip now =
    let l = limits-record_keys (keys username client_ip) t now in ground arith

-- A history of failures of one account: the addresses and the times.
pub fail_all : LoginThrottle → Text → List (Option Text × ℕ) → LoginThrottle
fail_all t username [] = t
fail_all t username ((client_ip, now) ∷ fs) =
    fail_all (record_failure t username client_ip now) username fs

-- Each failure comes within the lockout after the one before.
abbrev pub Close : ℕ → ℕ → List (Option Text × ℕ) → Type 0
Close lockout last [] = Unit
Close lockout last ((client_ip, now) ∷ fs) = (now - last ≤ lockout) × Close lockout now fs

abbrev pub last_time : ℕ → List (Option Text × ℕ) → ℕ
last_time last [] = last
last_time last ((client_ip, now) ∷ fs) = last_time now fs

-- The account has at least `n` failures, the last at a given time.
abbrev Counted : LoginThrottle → Text → ℕ → ℕ → Type 0
Counted t username n last =
    (c : ℕ) × (get t.failures (user_key username) ≡ some (c, last)) × (n ≤ c)

Counted-record_failure :
    (t : LoginThrottle) (username : Text) (client_ip : Option Text) (n last now : ℕ)
    → enabled t ≡ true
    → now - last ≤ t.lockout
    → Counted t username n last
    → Counted (record_failure t username client_ip now) username (suc n) now
unfolding count_after is_stale
Counted-record_failure t username client_ip n last now on close (c, e, le) =
    let g = get-record_failure t username client_ip now on in
    (c + 1, rw g (rw e (rw (le→ltb t.lockout (now - last) close))), omega arith)

enabled-record_failure :
    (t : LoginThrottle) (username : Text) (client_ip : Option Text) (now : ℕ)
    → enabled (record_failure t username client_ip now) ≡ enabled t
unfolding enabled
enabled-record_failure t username client_ip now =
    let l = limits-record_failure t username client_ip now in rw (l.0, l.1)

Counted-fail_all :
    (fs : List (Option Text × ℕ)) (t : LoginThrottle) (username : Text) (n last : ℕ)
    → enabled t ≡ true
    → Close t.lockout last fs
    → Counted t username n last
    → Counted (fail_all t username fs) username (length fs + n) (last_time last fs)
      × ((fail_all t username fs).lockout ≡ t.lockout)
      × ((fail_all t username fs).max_attempts ≡ t.max_attempts)
unfolding fail_all
Counted-fail_all [] t username n last on close h = ((h.0, h.1, omega (arith, h.2)), refl, refl)
Counted-fail_all ((ip, now) ∷ fs) t username n last on close h =
    let t' = record_failure t username ip now in
    let l = limits-record_failure t username ip now in
    let ((c, found, le), rl, rm) =
      Counted-fail_all fs t' username (suc n) now (enabled-record_failure t username ip now ∙ on)
        (subst (λ w. Close w now fs) (sym l.1) close.1)
        (Counted-record_failure t username ip n last now on close.0 h) in
    ((c, found, omega arith), rl ∙ l.1, rm ∙ l.0)

blocks-Counted :
    (t : LoginThrottle) (username : Text) (n last now : ℕ)
    → Counted t username n last
    → t.max_attempts ≤ n
    → now - last ≤ t.lockout
    → blocks t now (user_key username) ≡ true
unfolding judge is_blocked is_stale
blocks-Counted t username n last now (c, found, le) enough close =
    rw found (rw (le→ltb t.lockout (now - last) close, le→leb t.max_attempts c (omega arith)))

any-keys :
    (p : Text → Bool) (username : Text) (client_ip : Option Text)
    → p (user_key username) ≡ true
    → any p (keys username client_ip) ≡ true
unfolding keys
any-keys p username none h = rw h
any-keys p username (some []) h = rw h
any-keys p username (some (c ∷ ip)) h = rw h

Counted-first :
    (t : LoginThrottle) (username : Text) (client_ip : Option Text) (now : ℕ)
    → enabled t ≡ true
    → Counted (record_failure t username client_ip now) username 1 now
unfolding count_after
Counted-first t username client_ip now on =
    let old = get t.failures (user_key username) in
    (count_after t now old, get-record_failure t username client_ip now on, ground arith)

enabled_by_limits :
    (t t' : LoginThrottle)
    → enabled t ≡ true
    → t'.max_attempts ≡ t.max_attempts
    → t'.lockout ≡ t.lockout
    → enabled t' ≡ true
unfolding enabled
enabled_by_limits t t' on a b = ground arith

-- With the throttle on: after at least `max_attempts` failures of one account in a row, from
-- whatever addresses, each within the lockout after the one before, a sign-in to the account is
-- refused from every address until the lockout after the last failure is over.
pub locked_out :
    (t : LoginThrottle) (username : Text) (first_ip : Option Text) (first : ℕ)
    (fs : List (Option Text × ℕ)) (client_ip : Option Text) (now : ℕ)
    → enabled t ≡ true
    → Close t.lockout first fs
    → t.max_attempts ≤ suc (length fs)
    → now - last_time first fs ≤ t.lockout
    → is_refusal (check (fail_all t username ((first_ip, first) ∷ fs)) username client_ip now).0
      ≡ true
locked_out t username first_ip first fs client_ip now on close enough soon =
    let once_failed = record_failure t username first_ip first in
    let l = limits-record_failure t username first_ip first in
    let once = Counted-first t username first_ip first on in
    let (counted, same_lockout, same_attempts) =
      Counted-fail_all fs once_failed username 1 first
        (enabled-record_failure t username first_ip first ∙ on)
        (subst (λ w. Close w first fs) (sym l.1) close) once in
    let failed = fail_all once_failed username fs in
    let still_on : enabled failed ≡ true =
      enabled_by_limits t failed on (same_attempts ∙ l.0) (same_lockout ∙ l.1) in
    let hit =
      blocks-Counted failed username (length fs + 1) (last_time first fs) now counted
        (rw (same_attempts ∙ l.0) (omega arith)) (rw (same_lockout ∙ l.1) soon) in
    unfold fail_all in
    check_refuses_blocked failed username client_ip now
    ∙ rw (still_on, any-keys (blocks failed now) username client_ip hit)
