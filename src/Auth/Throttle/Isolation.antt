-- ===== src/Auth/Throttle/Isolation.antt =====
-- What a sign-in that succeeds clears, and what the failures of others leave alone.
use samfscon.Prelude.{
  ℕ, ◌≡◌, refl, Bool, false, Option, none, some, List, [], ◌∷◌, arith, if◌then◌else◌, ◌∙◌, ap, any,
  All, ◌||◌,
}
use samfscon.Prelude.Text.{Text, eq_text, eq_text_refl}
use samfscon.Prelude.Dict.{get, put, remove, get-remove, get-put}
use samfscon.Auth.Throttle.{
  LoginThrottle, enabled, keys, user_key, ip_key, is_stale, retry_after, judge, check, is_refusal,
  is_blocked, count_after, record_keys, record_failure, clear_keys, record_success,
}
use samfscon.Auth.Throttle.Refusal.{blocks, check_refuses_blocked}
use samfscon.Auth.Throttle.Lockout.{limits-record_failure}

or-false : (a b : Bool) → (a || b) ≡ false → a ≡ false
or-false a b h = ground arith

get-clear_keys :
    (ks : List Text) (t : LoginThrottle) (j : Text)
    → get (clear_keys t ks).failures j
      ≡ (if any (λ k. eq_text k j) ks then none else get t.failures j)
unfolding clear_keys
get-clear_keys [] t j = refl
get-clear_keys (k ∷ ks) t j = ground (
  arith,
  get-clear_keys ks (record t { failures = remove t.failures k }) j,
  get-remove t.failures k j,
)

-- No key of the list has an entry.
abbrev Cleared : LoginThrottle → List Text → Type 0
Cleared t [] = Unit
Cleared t (k ∷ ks) = (get t.failures k ≡ none) × Cleared t ks

Cleared-any :
    (ks : List Text) (t : LoginThrottle) (now : ℕ) → Cleared t ks → any (blocks t now) ks ≡ false
unfolding judge is_blocked
Cleared-any [] t now h = refl
Cleared-any (k ∷ ks) t now h = rw h.0 (Cleared-any ks t now h.1)

Cleared-success :
    (t : LoginThrottle) (username : Text) (client_ip : Option Text)
    → Cleared (record_success t username client_ip) (keys username client_ip)
unfolding record_success keys
Cleared-success t username none =
    let u = user_key username in (rw get-clear_keys (ground (arith, eq_text_refl u)), tt)
Cleared-success t username (some []) =
    let u = user_key username in (rw get-clear_keys (ground (arith, eq_text_refl u)), tt)
Cleared-success t username (some (c ∷ ip)) =
    let u = user_key username in
    let i = ip_key (c ∷ ip) in
    (
      rw get-clear_keys (ground (arith, eq_text_refl u)),
      (rw get-clear_keys (ground (arith, eq_text_refl i)), tt),
    )

-- After a sign-in that succeeded, a sign-in to the same account from the same address is not
-- refused, at any time, whatever had failed before.
pub check_after_success :
    (t : LoginThrottle) (username : Text) (client_ip : Option Text) (now : ℕ)
    → is_refusal (check (record_success t username client_ip) username client_ip now).0 ≡ false
check_after_success t username client_ip now =
    let t' = record_success t username client_ip in
    check_refuses_blocked t' username client_ip now
    ∙ rw (Cleared-any (keys username client_ip) t' now (Cleared-success t username client_ip))
        (ground arith)

get-record_keys :
    (ks : List Text) (t : LoginThrottle) (now : ℕ) (j : Text)
    → any (λ k. eq_text k j) ks ≡ false
    → get (record_keys t now ks).failures j ≡ get t.failures j
unfolding record_keys
get-record_keys [] t now j h = refl
get-record_keys (k ∷ ks) t now j h =
    let entry : ℕ × ℕ = (count_after t now (get t.failures k), now) in
    let t' = record t { failures = put t.failures k entry } in
    let apart : eq_text k j ≡ false = or-false _ _ h in
    get-record_keys ks t' now j (ground arith) ∙ get-put t.failures k j entry ∙ rw apart

get-record_failure_other :
    (t : LoginThrottle) (username : Text) (client_ip : Option Text) (now : ℕ) (j : Text)
    → any (λ k. eq_text k j) (keys username client_ip) ≡ false
    → get (record_failure t username client_ip now).failures j ≡ get t.failures j
unfolding record_failure
get-record_failure_other t username client_ip now j h =
    ground (arith, get-record_keys (keys username client_ip) t now j h)

-- No key of one list is a key of the other.
abbrev pub Disjoint : List Text → List Text → Type 0
Disjoint ks js = All (λ j. any (λ k. eq_text k j) ks ≡ false) js

judge-limits :
    (t t' : LoginThrottle) (now : ℕ) (e : Option (ℕ × ℕ))
    → t'.max_attempts ≡ t.max_attempts
    → t'.lockout ≡ t.lockout
    → judge t' now e ≡ judge t now e
unfolding judge is_stale retry_after
judge-limits t t' now none p q = refl
judge-limits t t' now (some (count, last)) p q = rw (p, q)

any-blocks_other :
    (t : LoginThrottle) (username : Text) (client_ip : Option Text) (now later : ℕ) (js : List Text)
    → Disjoint (keys username client_ip) js
    → any (blocks (record_failure t username client_ip now) later) js ≡ any (blocks t later) js
any-blocks_other t username client_ip now later [] h = refl
any-blocks_other t username client_ip now later (j ∷ js) h =
    let l = limits-record_failure t username client_ip now in
    let t' = record_failure t username client_ip now in
    let same : blocks t' later j ≡ blocks t later j = ap is_blocked (
      ap (judge t' later) (get-record_failure_other t username client_ip now j h.0)
      ∙ judge-limits t t' later (get t.failures j) l.0 l.1) in
    cc (same, any-blocks_other t username client_ip now later js h.1)

-- A failure of one account from one address changes nothing for a sign-in that has neither the
-- account nor the address: at any time it is refused after the failure as it was before.
pub check_of_others :
    (t : LoginThrottle) (username other : Text) (client_ip other_ip : Option Text) (now later : ℕ)
    → Disjoint (keys username client_ip) (keys other other_ip)
    → is_refusal (check (record_failure t username client_ip now) other other_ip later).0
      ≡ is_refusal (check t other other_ip later).0
check_of_others t username other client_ip other_ip now later h =
    let t' = record_failure t username client_ip now in
    let l = limits-record_failure t username client_ip now in
    check_refuses_blocked t' other other_ip later
    ∙ rw (any-blocks_other t username client_ip now later (keys other other_ip) h)
        (unfold enabled in rw (l.0, l.1) (rw check_refuses_blocked))
